-- ===== src/System/Files.antt =====
-- The file streams of the standard library, as the client uses them, and the paths of
-- include/config/client_paths.h and src/config/client_paths.cpp.
use encrypted_backup_client.Base.{
  ℕ, Option, none, some, List, [], ◌∷◌, ◌++◌, ◌==◌, if◌then◌else◌, Text, text, Result, ok, err,
  foreign_error, traced_exception, ◌≡◌, refl, ◌≢◌, All, arith,
}
use encrypted_backup_client.System.State.{M}
use encrypted_backup_client.System.Platform.{Platform}
use encrypted_backup_client.System.World.{
  World, StoredFile, resolve, join_path, with_file, regular_file,
}

abbrev pub cl_info_file : Text
cl_info_file = text "me.info"

abbrev pub aes_key_file : Text
aes_key_file = text "aes.key"

abbrev pub private_key_file : Text
private_key_file = text "private.key"

abbrev pub srv_config_file : Text
srv_config_file = text "server_config.json"

abbrev pub get_client_info_path : {P : Platform} → World P → Text
get_client_info_path w = join_path w.current_path cl_info_file

abbrev pub get_aes_key_path : {P : Platform} → World P → Text
get_aes_key_path w = join_path w.current_path aes_key_file

abbrev pub get_private_key_path : {P : Platform} → World P → Text
get_private_key_path w = join_path w.current_path private_key_file

abbrev pub get_server_config_path : {P : Platform} → World P → Text
get_server_config_path w = join_path w.current_path srv_config_file

-- The lines that `std::getline` takes from a stream one by one; a last line needs no newline.
abbrev pub extend_first : ℕ → List Text → List Text
extend_first c [] = (c ∷ []) ∷ []
extend_first c (l ∷ ls) = (c ∷ l) ∷ ls

unfoldable pub lines : Text → List Text
lines [] = []
lines (c ∷ cs) = let rest = lines cs in if c == 10 then [] ∷ rest else extend_first c rest

-- A line written with its newline is the first line read.
pub lines-newline :
    (l rest : Text) → All (λ c. c ≢ 10) l → lines (l ++ (10 ∷ rest)) ≡ l ∷ lines rest
unfolding lines
lines-newline [] rest h = refl
lines-newline (c ∷ l) rest h = ground (arith, lines-newline l rest h.1)

-- `std::ifstream`, opened or refused; the message says `name`.
abbrev pub opened : Text → Option StoredFile → Result StoredFile
opened name none = err (traced_exception (text "Failed to open " ++ name))
opened name (some file) = ok file

unfoldable pub open_file : {P : Platform} → (path name : Text) → M (World P) StoredFile
open_file path name w = (opened name (w.files (resolve w path)), w)

-- `std::ofstream`, truncating or appending; the message names what could not be opened.
unfoldable pub write_file : {P : Platform} → (path name content : Text) → M (World P) (Unit {0})
write_file path name content w =
    if w.writable path
    then (ok tt, record w { files = with_file w.files path (some (regular_file content)) })
    else (err (traced_exception (text "Failed to open " ++ name)), w)

abbrev pub old_content : Option StoredFile → Text
old_content none = []
old_content (some file) = file.content

unfoldable pub append_file : {P : Platform} → (path name content : Text) → M (World P) (Unit {0})
append_file path name content w = write_file path name (old_content (w.files path) ++ content) w

-- `fs::remove`, which throws when the file system refuses.
unfoldable pub remove_file : {P : Platform} → Text → M (World P) (Unit {0})
remove_file path w =
    if w.removable path
    then (ok tt, record w { files = with_file w.files path none })
    else (err foreign_error, w)
