-- ===== src/Registration/Flow/Info.antt =====
-- What the client reads of its information file (src/registration/client_credentials.cpp).
use encrypted_backup_client.Base.{◌≡◌, some, ◌∷◌, ◌++◌, Text, text, ok}
use encrypted_backup_client.System.Platform.{Platform}
use encrypted_backup_client.System.World.{World, regular_file}
use encrypted_backup_client.System.Files.{lines, open_file, cl_info_file, get_client_info_path}
use encrypted_backup_client.Registration.Credentials.{
  open_input_file, read_required_line, load_username, load_user_id, load_private_key, concat_lines,
  non_empty,
}
use encrypted_backup_client.Registration.Identity.{IsWord}
use encrypted_backup_client.Registration.Flow.Stored.{IsTrim, info_lines}

-- The information file of a client: its username, its user ID, and what follows.
abbrev pub info_content : Text → Text → Text → Text
info_content username user_id rest = username ++ (10 ∷ (user_id ++ (10 ∷ rest)))

module _ (P : Platform) (trims : IsTrim P) where
  module _ (w : World P) (u id rest : Text) (hu : IsWord u) (hid : IsWord id)
      (stored : w.files (get_client_info_path w)
        ≡ some (regular_file (info_content u id rest))) where
    read_lines : open_input_file P cl_info_file w ≡ (ok (u ∷ id ∷ lines rest), w)
    unfolding open_input_file open_file
    read_lines = rw (stored, info_lines u id rest hu hid)

    pub load_username-stored : load_username P cl_info_file w ≡ (ok u, w)
    unfolding load_username read_required_line
    load_username-stored = rw (read_lines, trims.trim-word u hu)

    pub load_user_id-stored : load_user_id P cl_info_file w ≡ (ok id, w)
    unfolding load_user_id read_required_line
    load_user_id-stored = rw (read_lines, trims.trim-word id hid)

    -- The lines of the key are read one behind the other.
    pub load_private_key-stored : load_private_key P cl_info_file w ≡ (
      non_empty P (concat_lines P (lines rest)) (text "Private key not found in " ++ cl_info_file),
      w,
    )
    unfolding load_private_key read_required_line
    load_private_key-stored = rw read_lines
