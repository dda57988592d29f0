-- ===== src/System/World.antt =====
-- The state of a running client: its socket, its random numbers, the files, and the console.
use encrypted_backup_client.Base.{
  ℕ, Bool, true, false, Option, none, some, List, [], ◌∷◌, ◌++◌, ◌==◌, if◌then◌else◌, length, Text,
  text_eq, ok, err, foreign_error,
}
use encrypted_backup_client.System.Platform.{Platform}
use encrypted_backup_client.System.State.{M, update}

-- A file that can be opened for reading: `tellg` at its end (none is -1), and what reading gives.
pub record StoredFile : Type 0 where
  pub end_position : Option ℕ
  pub content : Text

-- What the client prints, by the statement that prints it.
pub data Line : Type 0 where
  upload_progress : ℕ → Line
  file_sent : Text → Line
  upload_failed : Text → Line
  invalid_file_name : Text → Line
  file_not_found : Text → Line
  client_error : Text → Line
  username_prompt : Line
  username_invalid : Line
  username_is_taken : Line
  registered : Text → Line
  welcome_back : Text → Line
  directory_prompt : Line
  try_again : Text → Line
  files_prompt : Line
  no_files : Line
  connected_to : Text → ℕ → Line
  farewell : Text → Line
  refusal : Text → Line
  something_wrong : Line
  log_unopened : Line
  log_unwritten : Text → Line

-- `std::tm`, with the year and the month as they are printed.
pub record LocalTime : Type 0 where
  pub year : ℕ
  pub month : ℕ
  pub day : ℕ
  pub hour : ℕ
  pub minute : ℕ
  pub second : ℕ

pub record World (P : Platform) : Type 0 where
  pub socket : P.Socket
  pub random : P.Random
  -- fs::current_path(), and the files by their full path
  pub current_path : Text
  pub files : Text → Option StoredFile
  pub is_directory : Text → Bool
  pub writable : Text → Bool
  -- the paths that `fs::remove` can remove, and those whose status cannot be read: else they throw
  pub removable : Text → Bool
  pub status_fails : Text → Bool
  -- what std::cin has left, and what was printed, the last line first
  pub input : Text
  pub output : List Line
  -- what `std::localtime` gives now
  pub local_time : Option LocalTime

-- `a / b` of std::filesystem::path on POSIX: an absolute b replaces a.
unfoldable pub ends_in_slash : Text → Bool
ends_in_slash [] = true
ends_in_slash (c ∷ []) = c == b'/'
ends_in_slash (c ∷ d ∷ s) = ends_in_slash (d ∷ s)

unfoldable pub is_absolute : Text → Bool
is_absolute [] = false
is_absolute (c ∷ s) = c == b'/'

unfoldable pub join_path : Text → Text → Text
unfolding ends_in_slash is_absolute
join_path a b = if is_absolute b then b else if ends_in_slash a then a ++ b else a ++ (b'/' ∷ b)

-- The file that a name means for the process.
abbrev pub resolve : {P : Platform} → World P → Text → Text
resolve w name = join_path w.current_path name

-- `fs::exists`, which throws when the status of the path cannot be read. A file that can be opened
-- has a status.
unfoldable pub exists : {P : Platform} → Text → M (World P) Bool
exists name w = elim (w.files (resolve w name)) [
  | none ↦
      if w.status_fails (resolve w name)
      then (err foreign_error, w)
      else (ok (w.is_directory (resolve w name)), w)
  | some _ ↦ (ok true, w)
]

-- The files after a new content, or none, for one path.
abbrev pub with_file :
    (Text → Option StoredFile) → Text → Option StoredFile → Text → Option StoredFile
with_file files path entry p = if text_eq p path then entry else files p

-- A file as an `std::ofstream` leaves it.
abbrev pub regular_file : Text → StoredFile
regular_file content = record { end_position = some (length content); content = content }

abbrev pub print : {P : Platform} → Line → M (World P) (Unit {0})
print line = update λ w. record w { output = line ∷ w.output }
