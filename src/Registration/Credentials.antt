-- ===== src/Registration/Credentials.antt =====
-- The client information file and the key files: src/registration/client_credentials.cpp.
use encrypted_backup_client.Base.{
  List, [], ◌∷◌, ◌++◌, Text, text, Result, ok, err, traced_exception,
}
use encrypted_backup_client.System.State.{M, ◌>>=◌, return, lift}
use encrypted_backup_client.Utils.Base64
use encrypted_backup_client.System.Platform.{Platform}
use encrypted_backup_client.System.World.{World}
use encrypted_backup_client.System.Files.{
  lines, open_file, write_file, private_key_file, get_private_key_path,
}

module _ (P : Platform) where
  -- The stream of an opened file, as its lines.
  unfoldable pub open_input_file : Text → M (World P) (List Text)
  open_input_file file_name = do file ← open_file file_name file_name; return (lines file.content)

  -- The next line, trimmed, and the stream behind it.
  unfoldable pub read_required_line : List Text → Text → Text → Result (Text × List Text)
  read_required_line [] file_name error_message =
      err (traced_exception (error_message ++ (text " from " ++ file_name)))
  read_required_line (line ∷ rest) file_name error_message = ok (P.trim line, rest)

  unfoldable pub load_username : Text → M (World P) Text
  load_username file_name = do
    file ← open_input_file file_name
    (username, rest) ← lift (read_required_line file file_name (text "Failed to read username"))
    return username

  unfoldable pub load_user_id : Text → M (World P) Text
  load_user_id file_name = do
    file ← open_input_file file_name
    (_, rest) ← lift (read_required_line file file_name (text "Incorrect file format"))
    (user_id, rest') ← lift (read_required_line rest file_name (text "Failed to read User ID"))
    return user_id

  -- The loop over the key lines.
  unfoldable pub concat_lines : List Text → Text
  concat_lines [] = []
  concat_lines (line ∷ rest) = P.trim line ++ concat_lines rest

  abbrev pub non_empty : Text → Text → Result Text
  non_empty [] message = err (traced_exception message)
  non_empty (c ∷ cs) message = ok (c ∷ cs)

  unfoldable pub load_private_key : Text → M (World P) Text
  load_private_key file_name = do
    file ← open_input_file file_name
    (_, rest) ← lift (read_required_line file file_name (text "Incorrect file format"))
    (_, rest') ← lift (read_required_line rest file_name (text "Incorrect file format"))
    lift (non_empty (concat_lines rest') (text "Private key not found in " ++ file_name))

  unfoldable pub load_aes_key : Text → M (World P) Text
  load_aes_key file_name = do
    file ← open_input_file file_name
    (encoded, rest) ← lift (read_required_line file file_name (text "Failed to read AES key"))
    lift (non_empty (Base64.decode P encoded) (text "Decoded AES key is empty."))

  unfoldable pub save_private_key : Text → M (World P) (Unit {0})
  save_private_key private_key w =
      write_file (get_private_key_path w) private_key_file private_key w
