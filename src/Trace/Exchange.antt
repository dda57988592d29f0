-- ===== src/Trace/Exchange.antt =====
-- The key exchange (src/registration/key_exchange.cpp) through the steps of the client.
use encrypted_backup_client.Crypto.Buffer.{Buffer, null_buffer, buffer_of}
use encrypted_backup_client.Base.{
  zero, suc, ℕ, ◌≡◌, ◌==◌, refl, ◌∙◌, arith, some, Option-cases, inl, inr, Text, ok,
}
use encrypted_backup_client.Protocol.Fields.{c_string}
use encrypted_backup_client.Protocol.Request.{
  RequestHeader, RequestPayload, init_payload, set_username, set_public_key,
}
use encrypted_backup_client.Protocol.Request.Initial.{init_payload-IsPayload}
use encrypted_backup_client.Protocol.Response.{Response}
use encrypted_backup_client.Protocol.RequestCode
use encrypted_backup_client.Protocol.ResponseCode
use encrypted_backup_client.System.Platform.{Platform}
use encrypted_backup_client.System.World.{World}
use encrypted_backup_client.Crypto.Rsa
use encrypted_backup_client.Crypto.Rsa.{make_private, export_public_key_into}
use encrypted_backup_client.Registration.KeyExchange.{
  accept_exchange, process_exchange, exchange_request, append_private_key_to_client_info,
  save_aes_key, same_user_id, validate_response_user_id, public_key_buffer, send_rsa_public_key,
  decrypt_base64, accept_aes_key, refuse_re_registration, handle_rsa_key_response,
  complete_registration_key_exchange,
}
use encrypted_backup_client.Trace.Steps.{IsRequestCode, IsRequest, IsOwn, drew}
use encrypted_backup_client.Trace.Rules.{
  IsReal-if, err-IsReal, result_of, IsReal, ok-IsReal, IsReal-or_throw, Runs, Runs-bind, Runs-lift,
  Runs-branch,
}
use encrypted_backup_client.Trace.Results.{
  get_user_id-IsReal, set_user_id-IsReal, set_public_key-IsReal,
}
use encrypted_backup_client.Trace.Credentials.{
  remove_file-Runs, write_file-Runs, append_file-Runs, load_username-Runs, load_user_id-Runs,
  save_private_key-Runs,
}
use encrypted_backup_client.Trace.Requests.{
  IsClient, set_user_id-IsClient, set_username-IsPayload, set_public_key-IsPayload,
  init_payload_data, exchange_request-IsRequest, exchange_request-coded,
}
use encrypted_backup_client.Trace.Communication.{receive_response-Runs}
use encrypted_backup_client.Trace.Session.{registering, serving, Moves}
use encrypted_backup_client.Trace.Talks.{
  TalksWorld, Talks-bind, Talks-Runs, Talks-after, send_request-Talks,
}

module _ (P : Platform) where
  append_private_key-Runs :
      (key : Text) (w : World P) → Runs w (append_private_key_to_client_info P key w)
  unfolding append_private_key_to_client_info
  append_private_key-Runs key w = append_file-Runs P _ _ key w IsOwn.client_info

  save_aes_key-Runs : (key : Text) (w : World P) → Runs w (save_aes_key P key w)
  unfolding save_aes_key
  save_aes_key-Runs key w = write_file-Runs P _ _ _ w IsOwn.aes_key

  same_user_id-IsReal : (a b : Text) → IsReal (same_user_id P a b)
  same_user_id-IsReal a b = λ e. ground arith

  validate_response_user_id-Runs :
      (r : Response) (w : World P) → Runs w (validate_response_user_id P r w)
  unfolding validate_response_user_id
  validate_response_user_id-Runs r w = Runs-bind (load_user_id-Runs P _ w) (λ expected v _.
      Runs-bind (Runs-lift (get_user_id-IsReal r.payload))
        (λ actual u _. Runs-lift (same_user_id-IsReal expected actual)))

  username_data :
      (u : Text) (p : RequestPayload)
      → (set_username u p).encrypted_chunk_data ≡ p.encrypted_chunk_data
  unfolding set_username
  username_data u p = refl

  public_key_buffer-IsReal : (key : P.PrivateKey) → IsReal (public_key_buffer P key)
  unfolding public_key_buffer export_public_key_into
  public_key_buffer-IsReal key = ok-IsReal

  -- A request whose payload has no more than the username.
  pub named-IsRequest :
      (header : RequestHeader) (username : Text) (code : ℕ)
      → IsClient header
      → IsRequestCode code
      → IsRequest P.host.order (exchange_request header code (set_username username init_payload))
  named-IsRequest header username code v c =
      exchange_request-IsRequest P.host.order header _ code v
        (set_username-IsPayload username init_payload init_payload-IsPayload)
        (username_data username init_payload ∙ init_payload_data) c

  key-IsRequest :
      (header : RequestHeader) (username buffer : Text) (payload : RequestPayload)
      → IsClient header
      → set_public_key (some buffer) (set_username username init_payload) ≡ ok payload
      → IsRequest P.host.order (exchange_request header RequestCode.public_key_send payload)
  key-IsRequest header username buffer payload v e =
      let named = set_username-IsPayload username init_payload init_payload-IsPayload in
      let (keyed, same) = set_public_key-IsPayload buffer _ payload named e in
      exchange_request-IsRequest P.host.order header payload RequestCode.public_key_send v keyed
        (same ∙ username_data username init_payload ∙ init_payload_data)
        IsRequestCode.public_key_send

  pub send_rsa_public_key-Talks :
      (key : P.PrivateKey) (w : World P)
      → TalksWorld registering (serving 0) w (send_rsa_public_key P key w)
  unfolding send_rsa_public_key
  send_rsa_public_key-Talks key w =
      Talks-bind (Talks-Runs (load_user_id-Runs P _ w)) (λ user_id v _.
        Talks-bind (Talks-Runs (load_username-Runs P _ v)) (λ username u _.
          Talks-bind (Talks-Runs (Runs-lift (set_user_id-IsReal user_id _))) (λ header t set.
            Talks-bind (Talks-Runs (Runs-lift (public_key_buffer-IsReal key))) (λ buffer t _.
              Talks-bind (Talks-Runs (Runs-lift (set_public_key-IsReal (some buffer) _)))
                (λ payload t keyed. Talks-bind (Talks-Runs (append_private_key-Runs _ t)) (λ _ t _.
                  Talks-bind (Talks-Runs (save_private_key-Runs P _ t)) (λ _ t _.
                    send_request-Talks P registering (serving 0) RequestCode.public_key_send _ t
                      (key-IsRequest header username buffer payload
                        (set_user_id-IsClient user_id header (result_of set)) (result_of keyed))
                      (exchange_request-coded header _ payload) Moves.sends_key
                      (λ never. absurd never))))))))

  decrypt_base64-IsReal : (key : P.PrivateKey) (s : Text) → IsReal (decrypt_base64 P key s)
  unfolding decrypt_base64 Rsa.decrypt_base64 Rsa.decrypt
  decrypt_base64-IsReal key s = elim (Option-cases (c_string s)) [
    | inl open_ended ↦ rw (open_ended, decrypt_base64) (λ e. cc)
    | inr (t, found) ↦
        rw (found, decrypt_base64, Rsa.decrypt_base64, Rsa.decrypt) (IsReal-or_throw _)
  ]

  make_private-IsReal : (key : Buffer) → IsReal (make_private P key)
  unfolding make_private
  make_private-IsReal (null_buffer zero) = IsReal-or_throw _
  make_private-IsReal (null_buffer (suc n)) = λ e. cc
  make_private-IsReal (buffer_of key) = IsReal-or_throw _

  accept_aes_key-Runs :
      (key : Text) (r : Response) (w : World P) → Runs w (accept_aes_key P key r w)
  unfolding accept_aes_key
  accept_aes_key-Runs key r w =
      Runs-bind (Runs-lift (make_private-IsReal (buffer_of key))) (λ k v _.
        Runs-bind (Runs-lift (decrypt_base64-IsReal k _)) (λ aes v _. save_aes_key-Runs aes v))

  refuse_re_registration-Runs : (w : World P) → Runs w (refuse_re_registration P w)
  unfolding refuse_re_registration
  refuse_re_registration-Runs w =
      Runs-bind (remove_file-Runs P _ w IsOwn.client_info) (λ _ v _. Runs-lift (λ e. cc))

  accept_exchange-IsReal : (response_code : ℕ) → IsReal (accept_exchange response_code)
  unfolding accept_exchange
  accept_exchange-IsReal response_code =
      IsReal-if (response_code == ResponseCode.failed) (err-IsReal _ tt) ok-IsReal

  process_exchange-Runs :
      (op_code : ℕ) (key : Text) (r : Response) (w : World P)
      → Runs w (process_exchange P op_code key r w)
  unfolding process_exchange
  process_exchange-Runs op_code key r w =
      Runs-branch (r.header.response_code == op_code) _ _ (λ _. accept_aes_key-Runs key r w)
        (λ _.
          Runs-branch (r.header.response_code == ResponseCode.re_registration_failed) _ _
            (λ _. refuse_re_registration-Runs w) (λ _. Runs-lift (λ e. cc)))

  pub handle_rsa_key_response-Runs :
      (op_code : ℕ) (key : Text) (w : World P) → Runs w (handle_rsa_key_response P op_code key w)
  unfolding handle_rsa_key_response
  handle_rsa_key_response-Runs op_code key w = Runs-bind (receive_response-Runs P w) (λ r v _.
      Runs-bind (Runs-lift (accept_exchange-IsReal r.header.response_code)) (λ _ v _.
        Runs-bind (validate_response_user_id-Runs r v)
          (λ _ v _. process_exchange-Runs op_code key r v)))

  pub complete_registration_key_exchange-Talks :
      (w : World P) → TalksWorld registering (serving 0) w (complete_registration_key_exchange P w)
  unfolding complete_registration_key_exchange
  complete_registration_key_exchange-Talks w = Talks-after (drew _ refl) (
      Talks-bind (send_rsa_public_key-Talks _ _)
        (λ _ u _. Talks-Runs (handle_rsa_key_response-Runs _ _ u)))
