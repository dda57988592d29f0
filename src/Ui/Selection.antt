-- ===== src/Ui/Selection.antt =====
-- The selection of a directory and of files: src/ui/backup_selection.cpp.
pub mod Prompts
use encrypted_backup_client.Base.{
  ℕ, zero, suc, not, Option, none, some, List, [], ◌∷◌, ◌++◌, ◌==◌, if◌then◌else◌, length, Text,
  text, text_eq, ok, err, user_cancelled, out_of_fuel,
}
use encrypted_backup_client.Utils.Validation.{is_valid_dir_name}
use encrypted_backup_client.System.State.{M, ◌>>=◌, ◌>>◌, return, throw}
use encrypted_backup_client.System.Platform.{Platform}
use encrypted_backup_client.System.World.{
  World, resolve, directory_prompt, files_prompt, no_files, try_again, print,
}
use encrypted_backup_client.Registration.Flow.{cancel, cin_word}

abbrev pub finish_selection : Text
finish_selection = text "done"

-- The input behind the next newline, that is `std::cin.ignore(max, '\n')`.
unfoldable pub behind_newline : Text → Text
behind_newline [] = []
behind_newline (c ∷ cs) = let rest = behind_newline cs in if c == 10 then cs else rest

-- The next line of the input and what is behind it; a last line needs no newline.
unfoldable pub take_line : Text → Text × Text
take_line [] = ([], [])
take_line (c ∷ cs) =
    let (line, rest) = take_line cs in if c == 10 then ([], cs) else (c ∷ line, rest)

-- `std::getline(std::cin, line)`: the stream fails at its end.
unfoldable pub getline : Text → Option (Text × Text)
getline [] = none
getline (c ∷ cs) = some (take_line (c ∷ cs))

-- How the inner loop over the lines ended.
pub data Selection : Type 0 where
  cancelled finished exhausted : Selection

module _ (P : Platform) where
  unfoldable pub discard_remaining_input_line : M (World P) (Unit {0})
  discard_remaining_input_line w = (ok tt, record w { input = behind_newline w.input })

  -- One round: the directory, or none after a message to try again.
  unfoldable pub check_directory : Text → M (World P) (Option Text)
  check_directory dir_name w =
      if not (is_valid_dir_name dir_name)
      then (print (try_again (text "Invalid directory name: " ++ dir_name)) >> return none) w
      else if not (w.is_directory (resolve w dir_name))
      then (print (try_again (text "Directory not found: " ++ dir_name)) >> return none) w
      else (ok (some dir_name), w)

  unfoldable pub prompt_backup_directory : ℕ → M (World P) Text
  prompt_backup_directory zero = throw out_of_fuel
  prompt_backup_directory (suc fuel) = do
    print directory_prompt
    word ← cin_word P (text "Backup cancelled.")
    discard_remaining_input_line
    let dir_name = P.trim word
    let again = prompt_backup_directory fuel
    if text_eq dir_name cancel then throw (user_cancelled (text "Backup cancelled.")) else do
      checked ← check_directory dir_name
      elim checked [ none ↦ again | some found ↦ return found ]

  -- The inner loop, with the names so far.
  unfoldable pub read_files : ℕ → List Text → M (World P) (Selection × List Text)
  read_files zero file_names w = (err out_of_fuel, w)
  read_files (suc fuel) file_names w = elim (getline w.input) [
    | none ↦ (ok (exhausted, file_names), w)
    | some (line, rest) ↦
        let user_input = P.trim line in
        let w' : World P = record w { input = rest } in
        let more =
          read_files fuel
            (if text_eq user_input [] then file_names else file_names ++ (user_input ∷ [])) w' in
        if text_eq user_input cancel
        then (ok (cancelled, file_names), w')
        else if text_eq user_input finish_selection
        then (ok (finished, file_names), w')
        else more
  ]

  -- What follows the inner loop.
  abbrev pub selected : M (World P) (List Text) → Selection × List Text → M (World P) (List Text)
  selected again (finished, []) = print no_files >> again
  selected again (finished, name ∷ names) = return (name ∷ names)
  selected again (cancelled, names) = throw (user_cancelled (text "File selection cancelled."))
  selected again (exhausted, names) = throw (user_cancelled (text "File selection cancelled."))

  unfoldable pub prompt_files_to_backup : ℕ → M (World P) (List Text)
  prompt_files_to_backup zero = throw out_of_fuel
  prompt_files_to_backup (suc fuel) = do
    print files_prompt
    collected ← (λ w. read_files (suc (length w.input)) [] w)
    let again = prompt_files_to_backup fuel
    selected again collected
