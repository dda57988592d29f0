-- ===== src/Registration/Flow/Register.antt =====
-- The loop over the usernames of client_registration (src/registration/registration_flow.cpp) has
-- enough fuel: every round takes a word of the input, and no request or response gives any back.
use mathlib.Core.Path.{subst}
use encrypted_backup_client.Base.{
  ℕ, zero, suc, ◌+◌, ◌<◌, ◌≡◌, refl, sym, ap, ◌∙◌, Bool, Bool-cases, Option-cases, inl, inr, true,
  false, Option, none, some, length, Text, text_eq, ◌==◌, ltb, Result, Error, ok, err, arith,
}
use encrypted_backup_client.Utils.Validation.{is_valid_username}
use encrypted_backup_client.Protocol.ResponseCode
use encrypted_backup_client.System.State.{M, continue}
use encrypted_backup_client.System.Platform.{Platform}
use encrypted_backup_client.System.World.{World}
use encrypted_backup_client.Core.Communication.{
  after_write, after_read, send_request, read_exactly, read_payload, receive_response,
}
use encrypted_backup_client.Registration.Flow.{
  read_word, cin_word, cancel, prompt_valid_username, send_registration_request, register_username,
}
use encrypted_backup_client.Registration.Flow.Prompt.{length-read_word}

-- Two continuations that agree on what the first part can give.
continue_cong :
    {S A B : Type 0} (m : Result A × S) (f g : A → M S B)
    → ((a : A) (t : S) → m ≡ (ok a, t) → f a t ≡ g a t)
    → continue m f ≡ continue m g
continue_cong (ok a, s) f g h = h a s refl
continue_cong (err e, s) f g h = refl

module _ (P : Platform) where
  after_read-input :
      (e : Error) (m : Option Text × P.Socket) (w : World P)
      → (after_read P e m w).1.input ≡ w.input
  after_read-input e (some bytes, s) w = refl
  after_read-input e (none, s) w = refl

  after_write-input : (m : Bool × P.Socket) (w : World P) → (after_write P m w).1.input ≡ w.input
  after_write-input (true, s) w = refl
  after_write-input (false, s) w = refl

  onward-input :
      {A B : Type 0} (m : Result A × World P) (f : A → M (World P) B) (w : World P)
      → m.1.input ≡ w.input
      → ((a : A) (t : World P) → (f a t).1.input ≡ t.input)
      → (continue m f).1.input ≡ w.input
  onward-input (ok a, t) f w h k = k a t ∙ h
  onward-input (err e, t) f w h k = h

  read_payload-input : (n : ℕ) (w : World P) → (read_payload P n w).1.input ≡ w.input
  unfolding read_payload read_exactly
  read_payload-input n w = elim (Bool-cases (ltb 0 n)) [
    | inl some_bytes ↦ rw (some_bytes, read_payload) (after_read-input _ (P.asio_read n w.socket) w)
    | inr no_bytes ↦ rw (no_bytes, read_payload) refl
  ]

  receive_response-input : (w : World P) → (receive_response P w).1.input ≡ w.input
  unfolding receive_response read_exactly
  receive_response-input w =
      onward-input (after_read P _ (P.asio_read 7 w.socket) w) _ w
        (after_read-input _ (P.asio_read 7 w.socket) w)
        (λ header t.
          onward-input (read_payload P _ t) _ t (read_payload-input _ t) (λ payload v. refl))

  send_registration_request-input :
      (username : Text) (w : World P) → (send_registration_request P username w).1.input ≡ w.input
  unfolding send_registration_request send_request
  send_registration_request-input username w = after_write-input _ w

  -- A username that is given took at least one character.
  pub prompt-takes :
      (fuel : ℕ) (w t : World P) (u : Text)
      → prompt_valid_username P fuel w ≡ (ok u, t)
      → length t.input < length w.input
  unfolding prompt_valid_username cin_word
  prompt-takes zero w t u h = cc
  prompt-takes (suc fuel) w t u h = elim (Option-cases (read_word w.input)) [
    | inl none_left ↦ let bad = rw none_left at h in cc
    | inr ((v, rest), found) ↦
        let less = length-read_word w.input v rest found in
        elim (Bool-cases (text_eq v cancel)) [
          | inl leaves ↦ let bad = rw (found, leaves) at h in cc
          | inr stays ↦ elim (Bool-cases (is_valid_username v)) [
            | inl valid ↦
                let given = rw (found, stays, valid) at h in
                subst (λ (i : Text). length i < length w.input) (ap (λ r. r.1.input) given) less
            | inr invalid ↦
                let again = rw (found, stays, invalid) at h in
                omega (arith, prompt-takes fuel _ t u again)
          ]
        ]
  ]

  -- The fuel is enough for any input that is shorter, and more fuel changes nothing.
  register_username-loop :
      (f g : ℕ) (w : World P)
      → length w.input < f
      → length w.input < g
      → register_username P f w ≡ register_username P g w
  unfolding register_username
  register_username-loop zero g w h k = absurd (omega arith)
  register_username-loop (suc f) zero w h k = absurd (omega arith)
  register_username-loop (suc f) (suc g) w h k =
      continue_cong (prompt_valid_username P (suc (length w.input)) w) _ _ (λ u t given.
        continue_cong (send_registration_request P u t) _ _ (λ _ v sent.
          continue_cong (receive_response P v) _ _ (λ r x received.
            let kept : x.input ≡ t.input =
              sym (ap (λ m. m.1.input) received)
              ∙ receive_response-input v
              ∙ sym (ap (λ m. m.1.input) sent)
              ∙ send_registration_request-input u t in
            let less : length x.input < length w.input =
              subst (λ (i : Text). length i < length w.input) (sym kept)
                (prompt-takes (suc (length w.input)) w t u given) in
            elim (Bool-cases (r.header.response_code == ResponseCode.username_taken)) [
              | inl taken ↦ rw taken (register_username-loop f g _ (omega arith) (omega arith))
              | inr decided ↦ rw decided refl
            ])))

  -- The length of the input that is left, plus one, is enough fuel for the loop over the usernames,
  -- whatever the server answers: with more fuel the result and the state are the same.
  pub register_username-fuel :
      (n : ℕ) (w : World P)
      → register_username P (suc (length w.input) + n) w
        ≡ register_username P (suc (length w.input)) w
  register_username-fuel n w =
      register_username-loop (suc (length w.input) + n) (suc (length w.input)) w (omega arith)
        (omega arith)
