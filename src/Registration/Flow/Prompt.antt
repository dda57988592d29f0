-- ===== src/Registration/Flow/Prompt.antt =====
-- The prompt for a username ends and gives a valid name (prompt_valid_username of
-- src/registration/registration_flow.cpp).
use encrypted_backup_client.Base.{
  ℕ, zero, suc, ◌+◌, ◌≤◌, ◌<◌, ◌≡◌, refl, Bool-cases, Option-cases, inl, inr, true, false, some, [],
  ◌∷◌, length, Text, text, text_eq, Result, ok, err, user_cancelled, arith,
}
use encrypted_backup_client.Utils.Validation.{is_valid_username}
use encrypted_backup_client.System.Platform.{Platform}
use encrypted_backup_client.System.World.{World}
use encrypted_backup_client.Registration.Flow.{
  skip_blanks, split_word, read_word, cin_word, prompt_valid_username, cancel,
}

length-skip_blanks : (s : Text) → length (skip_blanks s) ≤ length s
unfolding skip_blanks
length-skip_blanks [] = omega arith
length-skip_blanks (c ∷ cs) = ground (arith, length-skip_blanks cs)

length-split_word : (s : Text) → length (split_word s).0 + length (split_word s).1 ≡ length s
unfolding split_word
length-split_word [] = refl
length-split_word (c ∷ cs) = ground (arith, length-split_word cs)

-- A word that is read takes at least one character.
pub length-read_word :
    (s word rest : Text) → read_word s ≡ some (word, rest) → length rest < length s
unfolding read_word
length-read_word s word rest h =
    ground (arith, length-split_word (skip_blanks s), length-skip_blanks s)

-- What the prompt can come to: a valid name other than the keyword, or the user's cancelling.
abbrev pub IsPrompted : Result Text → Type 0
IsPrompted (ok u) = (is_valid_username u ≡ true) × (text_eq u cancel ≡ false)
IsPrompted (err e) = e ≡ user_cancelled (text "Registration cancelled.")

module _ (P : Platform) where
  IsPrompted-loop :
      (fuel : ℕ) (w : World P)
      → length w.input < fuel
      → IsPrompted (prompt_valid_username P fuel w).0
  unfolding prompt_valid_username cin_word
  IsPrompted-loop zero w h = absurd (omega arith)
  IsPrompted-loop (suc fuel) w h = elim (Option-cases (read_word w.input)) [
    | inl none_left ↦ rw none_left refl
    | inr ((u, rest), found) ↦ elim (Bool-cases (text_eq u cancel)) [
      | inl leaves ↦ rw (found, leaves) refl
      | inr stays ↦ elim (Bool-cases (is_valid_username u)) [
        | inl valid ↦ rw (found, stays, valid) (valid, stays)
        | inr invalid ↦
            rw (found, stays, invalid)
              (IsPrompted-loop fuel _ (omega (arith, length-read_word w.input u rest found)))
      ]
    ]
  ]

  -- The loop ends for every input, whose length bounds its rounds: with a name that satisfies the
  -- rules and is not the cancel keyword, or with the exception of a cancelled registration.
  pub prompt_valid_username-IsPrompted :
      (w : World P) → IsPrompted (prompt_valid_username P (suc (length w.input)) w).0
  prompt_valid_username-IsPrompted w = IsPrompted-loop (suc (length w.input)) w (omega arith)
