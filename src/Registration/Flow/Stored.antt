-- ===== src/Registration/Flow/Stored.antt =====
-- What registration stores and what the client reads of it later (registration_flow.cpp,
-- client_credentials.cpp, re_registration_flow.cpp under src/registration).
use encrypted_backup_client.Base.{
  ◌≡◌, ◌≢◌, refl, ap, ◌∙◌, true, false, some, [], ◌∷◌, ◌++◌, All, Text, text, text_eq_refl, ok, err,
  traced_exception, arith,
}
use encrypted_backup_client.Utils.Encoding.{is_space}
use encrypted_backup_client.System.Platform.{Platform}
use encrypted_backup_client.System.World.{World, with_file, regular_file}
use encrypted_backup_client.System.Files.{
  lines, lines-newline, open_file, write_file, cl_info_file, get_client_info_path,
}
use encrypted_backup_client.Registration.Credentials.{
  open_input_file, read_required_line, load_username, load_user_id, load_private_key, concat_lines,
}
use encrypted_backup_client.Registration.Flow.{
  save_client_registration_info, client_re_registration,
}

-- "Remove all leading and trailing spaces": a text without blanks stays as it is.
pub record IsTrim (P : Platform) : Type 0 where
  pub trim-word : (s : Text) → All (λ c. is_space c ≡ false) s → P.trim s ≡ s

no_newline : (s : Text) → All (λ c. is_space c ≡ false) s → All (λ c. c ≢ 10) s
unfolding is_space
no_newline [] h = tt
no_newline (c ∷ s) h = (ground arith, no_newline s h.1)

lines-nil : lines [] ≡ []
unfolding lines
lines-nil = refl

-- The lines of the file with a name, an ID and more.
pub info_lines :
    (u id rest : Text)
    → All (λ c. is_space c ≡ false) u
    → All (λ c. is_space c ≡ false) id
    → lines (u ++ (10 ∷ (id ++ (10 ∷ rest)))) ≡ u ∷ id ∷ lines rest
info_lines u id rest hu hid =
    lines-newline u (id ++ (10 ∷ rest)) (no_newline u hu)
    ∙ ap (◌∷◌ u) (lines-newline id rest (no_newline id hid))

-- The state after a registration was stored.
abbrev pub registered_world : {P : Platform} → World P → Text → Text → World P
registered_world w u id = record w {
  files =
      with_file w.files (get_client_info_path w)
        (some (regular_file (u ++ (10 ∷ (id ++ (10 ∷ []))))));
}

module _ (P : Platform) (trims : IsTrim P) where
  stored_lines :
      (w : World P) (u id : Text)
      → All (λ c. is_space c ≡ false) u
      → All (λ c. is_space c ≡ false) id
      → open_input_file P cl_info_file (registered_world w u id)
        ≡ (ok (u ∷ id ∷ []), registered_world w u id)
  unfolding open_input_file open_file
  stored_lines w u id hu hid =
      rw (text_eq_refl (get_client_info_path w), info_lines u id [] hu hid, lines-nil)

  -- A registration that is stored is read back: the username and the user ID are those that were
  -- written, when the file can be written and neither has a blank.
  pub load-save_client_registration_info :
      (w : World P) (u id : Text)
      → w.writable (get_client_info_path w) ≡ true
      → All (λ c. is_space c ≡ false) u
      → All (λ c. is_space c ≡ false) id
      → let v = registered_world w u id in
        (save_client_registration_info P u id w ≡ (ok tt, v))
        × (load_username P cl_info_file v ≡ (ok u, v))
        × (load_user_id P cl_info_file v ≡ (ok id, v))
  unfolding save_client_registration_info write_file load_username load_user_id read_required_line
  load-save_client_registration_info w u id writable hu hid = (
    rw writable,
    rw (stored_lines w u id hu hid, trims.trim-word u hu),
    rw (stored_lines w u id hu hid, trims.trim-word id hid),
  )

  -- Re-registration of a half-stored registration fails at the missing key.
  pub client_re_registration_half_registered :
      (w : World P) (u id : Text)
      → All (λ c. is_space c ≡ false) u
      → All (λ c. is_space c ≡ false) id
      → let v = registered_world w u id in
        client_re_registration P v
        ≡ (err (traced_exception (text "Private key not found in " ++ cl_info_file)), v)
  unfolding client_re_registration load_username load_user_id load_private_key read_required_line
      concat_lines
  client_re_registration_half_registered w u id hu hid =
      let stored = stored_lines w u id hu hid in rw (stored, stored, stored)
