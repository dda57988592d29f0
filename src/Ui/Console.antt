-- ===== src/Ui/Console.antt =====
-- What the client prints, as the bytes that reach the terminal: the statements that print under src/.
pub mod Reset
use encrypted_backup_client.Base.{ℕ, ◌-◌, List, [], ◌∷◌, ◌++◌, Text, text, to_string}
use encrypted_backup_client.Protocol.Types.{min_username_len, username_len}
use encrypted_backup_client.System.World.{
  Line, upload_progress, file_sent, upload_failed, invalid_file_name, file_not_found, client_error,
  username_prompt, username_invalid, username_is_taken, registered, welcome_back, directory_prompt,
  try_again, files_prompt, no_files, connected_to, farewell, refusal, something_wrong, log_unopened,
  log_unwritten,
}
use encrypted_backup_client.Utils.Logger.{log_file_name}
use encrypted_backup_client.Registration.Flow.{cancel}
use encrypted_backup_client.Ui.Selection.{finish_selection}
use encrypted_backup_client.Ui.Color

-- `<< Color::X << message << Color::RESET << std::endl`, and `<< message << std::endl`.
pub data Statement : Type 0 where
  coloured : (color message : Text) → Statement
  plain : (message : Text) → Statement

abbrev two_lines : Text → Text → Text
two_lines first second = first ++ (10 ∷ second)

abbrev pub upload_progress_statement : ℕ → Statement
upload_progress_statement percent = coloured Color.yellow (to_string percent ++ text "% completed.")

abbrev pub file_sent_statement : Text → Statement
file_sent_statement file_name =
    coloured Color.green (text "File " ++ (file_name ++ text " sent successfully!"))

abbrev pub upload_failed_statement : Text → Statement
upload_failed_statement file_name =
    coloured Color.red (text "Failed to upload " ++ (file_name ++ text " after three attempts."))

abbrev pub invalid_file_name_statement : Text → Statement
invalid_file_name_statement file_name = coloured Color.red (text "Invalid file name: " ++ file_name)

abbrev pub file_not_found_statement : Text → Statement
file_not_found_statement file_name = coloured Color.red (text "File not found: " ++ file_name)

abbrev pub client_error_statement : Text → Statement
client_error_statement what = coloured Color.red what

abbrev pub username_prompt_statement : Statement
username_prompt_statement =
    coloured Color.green (
      two_lines (text "Please enter a username.")
        (text "Type '" ++ (cancel ++ text "' to cancel:")))

abbrev pub username_invalid_statement : Statement
username_invalid_statement = coloured Color.yellow (
    text "Oops! Username length must be between "
    ++ (to_string min_username_len
        ++ (text " and "
            ++ (to_string (username_len - 1)
                ++ (text " and contain alphanumeric and underscore characters only. "
                    ++ text "Please try again.")))))

abbrev pub username_is_taken_statement : Statement
username_is_taken_statement = coloured Color.yellow (text "Username is taken. Please try again.")

abbrev pub registered_statement : Text → Statement
registered_statement username = coloured (Color.green ++ Color.bold) (
    text "Registration Successful! Welcome "
    ++ (username ++ (text "! We" ++ (226 ∷ 128 ∷ 153 ∷ text "re excited to have you with us."))))

abbrev pub welcome_back_statement : Text → Statement
welcome_back_statement username =
    coloured (Color.green ++ Color.bold) (text "Welcome back " ++ (username ++ text "!"))

abbrev pub directory_prompt_statement : Statement
directory_prompt_statement = coloured Color.green (
    two_lines (text "Please enter the directory you want to back up.")
      (text "Type '" ++ (cancel ++ text "' to cancel:")))

abbrev pub try_again_statement : Text → Statement
try_again_statement what = coloured Color.red (what ++ text " Please try again.")

abbrev pub files_prompt_statement : Statement
files_prompt_statement = coloured Color.green (
    two_lines (text "Please enter the file names you want to back up, one per line.") (
      text "Type '"
      ++ (finish_selection
          ++ (text "' when you are done, or '" ++ (cancel ++ text "' to cancel:")))))

abbrev pub no_files_statement : Statement
no_files_statement = coloured Color.red (text "No backup files were provided. Please try again.")

abbrev pub connected_to_statement : Text → ℕ → Statement
connected_to_statement address port =
    coloured Color.green
      (text "Connected to server " ++ (address ++ (text " on port " ++ to_string port)))

abbrev pub farewell_statement : Text → Statement
farewell_statement what = coloured Color.green what

abbrev pub refusal_statement : Text → Statement
refusal_statement what = coloured Color.red what

abbrev pub something_wrong_statement : Statement
something_wrong_statement = plain (text "Hmm... Something seems to have gone wrong.")

abbrev pub log_unopened_statement : Statement
log_unopened_statement = plain (text "Failed to open " ++ log_file_name)

abbrev pub log_unwritten_statement : Text → Statement
log_unwritten_statement what =
    plain (text "Failed to write to " ++ (log_file_name ++ (text ": " ++ what)))

-- The statement that prints a line.
unfoldable pub statement : Line → Statement
statement (upload_progress percent) = upload_progress_statement percent
statement (file_sent file_name) = file_sent_statement file_name
statement (upload_failed file_name) = upload_failed_statement file_name
statement (invalid_file_name file_name) = invalid_file_name_statement file_name
statement (file_not_found file_name) = file_not_found_statement file_name
statement (client_error what) = client_error_statement what
statement username_prompt = username_prompt_statement
statement username_invalid = username_invalid_statement
statement username_is_taken = username_is_taken_statement
statement (registered username) = registered_statement username
statement (welcome_back username) = welcome_back_statement username
statement directory_prompt = directory_prompt_statement
statement (try_again what) = try_again_statement what
statement files_prompt = files_prompt_statement
statement no_files = no_files_statement
statement (connected_to address port) = connected_to_statement address port
statement (farewell what) = farewell_statement what
statement (refusal what) = refusal_statement what
statement something_wrong = something_wrong_statement
statement log_unopened = log_unopened_statement
statement (log_unwritten what) = log_unwritten_statement what

abbrev pub bytes : Statement → Text
bytes (coloured color message) = (color ++ message) ++ (Color.reset ++ (10 ∷ []))
bytes (plain message) = message ++ (10 ∷ [])

-- The output of a run, whose last line stands first.
unfoldable pub screen : List Line → Text
screen [] = []
screen (line ∷ before) = screen before ++ bytes (statement line)
