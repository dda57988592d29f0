-- ===== src/Trace/Registration.antt =====
-- Registration and re-registration (src/registration/registration_flow.cpp and
-- src/registration/re_registration_flow.cpp) through the steps of the client.
use encrypted_backup_client.Base.{
  ℕ, suc, zero, ◌<◌, ◌≡◌, ◌==◌, refl, ap, sym, arith, text_eq, length, Option-cases, inl, inr, Text,
  ok, [],
}
use encrypted_backup_client.Utils.Validation.{is_valid_username}
use encrypted_backup_client.Protocol.RequestCode
use encrypted_backup_client.Protocol.ResponseCode
use encrypted_backup_client.Protocol.Request.{init_header}
use encrypted_backup_client.Protocol.Response.{Response}
use encrypted_backup_client.System.Platform.{Platform}
use encrypted_backup_client.System.World.{World}
use encrypted_backup_client.Registration.Flow.{
  read_word, cin_word, cancel, prompt_valid_username, send_registration_request,
  save_client_registration_info, save_registration, handle_registration_response, register_username,
  client_registration, client_re_registration,
}
use encrypted_backup_client.Registration.Flow.Prompt.{length-read_word}
use encrypted_backup_client.Registration.Flow.Register.{prompt-takes}
use encrypted_backup_client.Trace.Steps.{IsRequestCode, IsOwn, took, printed, one_step}
use encrypted_backup_client.Trace.Rules.{
  Runs-input, result_of, ok-IsReal, Runs, Runs-bind, Runs-lift, Runs-branch, Runs-step, Runs-after,
}
use encrypted_backup_client.Trace.Results.{get_user_id-IsReal, set_user_id-IsReal}
use encrypted_backup_client.Trace.Credentials.{
  write_file-Runs, load_username-Runs, load_user_id-Runs, load_private_key-Runs,
}
use encrypted_backup_client.Trace.Requests.{
  init_header-IsClient, set_user_id-IsClient, exchange_request-coded,
}
use encrypted_backup_client.Trace.Communication.{receive_response-Runs}
use encrypted_backup_client.Trace.Session.{Phase, fresh, registering, serving, Moves, IsServing}
use encrypted_backup_client.Trace.Talks.{
  TalksWorld, Talks-bind, Talks-Runs, Talks-after, Talks-branch, Talks-input, send_request-Talks,
}
use encrypted_backup_client.Trace.Exchange.{
  named-IsRequest, handle_rsa_key_response-Runs, complete_registration_key_exchange-Talks,
}

module _ (P : Platform) where
  pub cin_word-Runs : (message : Text) (w : World P) → Runs w (cin_word P message w)
  unfolding cin_word
  cin_word-Runs message w = elim (Option-cases (read_word w.input)) [
    | inl none_left ↦ rw none_left (Runs-step (λ e. cc) (took [] (omega arith) refl))
    | inr ((u, rest), found) ↦ rw found (
        Runs-step ok-IsReal (took rest (omega (arith, length-read_word w.input u rest found)) refl))
  ]

  -- A word that was read took at least one character.
  pub cin_word-takes :
      (message : Text) (w v : World P) (u : Text)
      → cin_word P message w ≡ (ok u, v)
      → length v.input < length w.input
  unfolding cin_word
  cin_word-takes message w v u h = elim (Option-cases (read_word w.input)) [
    | inl none_left ↦ let bad = rw none_left at h in cc
    | inr ((t, rest), found) ↦
        let given = rw found at h in
        let same : rest ≡ v.input = ap (λ r. r.1.input) given in
        rw (sym same) (length-read_word w.input t rest found)
  ]

  pub prompt_valid_username-Runs :
      (fuel : ℕ) (w : World P) → length w.input < fuel → Runs w (prompt_valid_username P fuel w)
  unfolding prompt_valid_username
  prompt_valid_username-Runs zero w h = absurd (omega arith)
  prompt_valid_username-Runs (suc fuel) w h = Runs-after (one_step (printed _ refl)) (
      Runs-bind (cin_word-Runs _ _) (λ u v read.
        Runs-branch (text_eq u cancel) _ _ (λ _. Runs-lift (λ e. cc))
          (λ _.
            Runs-branch (is_valid_username u) _ _ (λ _. Runs-lift ok-IsReal)
              (λ _.
                Runs-after (one_step (printed _ refl)) (
                  prompt_valid_username-Runs fuel _
                    (omega (arith, cin_word-takes _ _ v u read)))))))

  send_registration_request-Talks :
      (p : Phase) (username : Text) (w : World P)
      → Moves p RequestCode.registration registering
      → (IsServing p → ⊥)
      → TalksWorld p registering w (send_registration_request P username w)
  unfolding send_registration_request
  send_registration_request-Talks p username w m early =
      send_request-Talks P p registering RequestCode.registration _ w
        (named-IsRequest P init_header username RequestCode.registration init_header-IsClient
          IsRequestCode.registration)
        (exchange_request-coded init_header _ _) m early

  save_info-Runs :
      (username user_id : Text) (w : World P)
      → Runs w (save_client_registration_info P username user_id w)
  unfolding save_client_registration_info
  save_info-Runs username user_id w = write_file-Runs P _ _ _ w IsOwn.client_info

  save_registration-Runs :
      (r : Response) (username : Text) (w : World P) → Runs w (save_registration P r username w)
  unfolding save_registration
  save_registration-Runs r username w =
      Runs-bind (Runs-lift (get_user_id-IsReal r.payload))
        (λ user_id v _. save_info-Runs username user_id v)

  handle_registration_response-Runs :
      (r : Response) (username : Text) (w : World P)
      → Runs w (handle_registration_response P r username w)
  unfolding handle_registration_response
  handle_registration_response-Runs r username w =
      Runs-branch (r.header.response_code == ResponseCode.registration_failed) _ _
        (λ _. Runs-lift (λ e. cc))
        (λ _.
          Runs-branch (r.header.response_code == ResponseCode.failed) _ _ (λ _. Runs-lift (λ e. cc))
            (λ _.
              Runs-branch (r.header.response_code == ResponseCode.registration_success) _ _
                (λ _. save_registration-Runs r username w) (λ _. Runs-lift (λ e. cc))))

  register_username-Talks :
      (fuel : ℕ) (p : Phase) (w : World P)
      → Moves p RequestCode.registration registering
      → (IsServing p → ⊥)
      → length w.input < fuel
      → TalksWorld p registering w (register_username P fuel w)
  unfolding register_username
  register_username-Talks zero p w m early h = absurd (omega arith)
  register_username-Talks (suc fuel) p w m early h =
      Talks-bind (Talks-Runs (prompt_valid_username-Runs _ w (omega arith))) (λ u v given.
        let sending = send_registration_request-Talks p u v m early in
        Talks-bind sending (λ _ t sent.
          Talks-bind (Talks-Runs (receive_response-Runs P t)) (λ r x received.
            Talks-branch (r.header.response_code == ResponseCode.username_taken) _ _
              (λ _. Talks-after (printed _ refl) (
                register_username-Talks fuel registering _ Moves.registers_again (λ never. never)
                  (omega (
                    arith,
                    prompt-takes P (suc (length w.input)) w v u given,
                    Talks-input sending sent,
                    Runs-input (receive_response-Runs P t) received,
                  ))))
              (λ _. Talks-Runs (
                Runs-bind (handle_registration_response-Runs r u x)
                  (λ _ y _. Runs-lift ok-IsReal))))))

  pub client_registration-Talks :
      (w : World P) → TalksWorld fresh (serving 0) w (client_registration P w)
  unfolding client_registration
  client_registration-Talks w =
      Talks-bind (register_username-Talks _ fresh w Moves.registers (λ never. never) (omega arith))
        (λ u v _.
          Talks-bind (complete_registration_key_exchange-Talks P v)
            (λ _ t _. Talks-Runs (Runs-step ok-IsReal (printed _ refl))))

  pub client_re_registration-Talks :
      (w : World P) → TalksWorld fresh (serving 0) w (client_re_registration P w)
  unfolding client_re_registration
  client_re_registration-Talks w =
      Talks-bind (Talks-Runs (load_username-Runs P _ w)) (λ username v _.
        Talks-bind (Talks-Runs (load_user_id-Runs P _ v)) (λ user_id u _.
          Talks-bind (Talks-Runs (load_private_key-Runs P _ u)) (λ key t _.
            Talks-bind (Talks-Runs (Runs-lift (set_user_id-IsReal user_id _))) (λ header t set.
              Talks-bind
                (send_request-Talks P fresh (serving 0) RequestCode.re_registration _ t
                  (named-IsRequest P header username RequestCode.re_registration
                    (set_user_id-IsClient user_id header (result_of set))
                    IsRequestCode.re_registration)
                  (exchange_request-coded header _ _) Moves.returns (λ never. absurd never))
                (λ _ t _. Talks-Runs (
                  Runs-bind (handle_rsa_key_response-Runs P _ _ t)
                    (λ _ t _. Runs-step ok-IsReal (printed _ refl))))))))
