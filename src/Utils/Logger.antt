-- ===== src/Utils/Logger.antt =====
-- The log of exceptions: src/utils/logger.cpp and include/utils/logger.h.
pub mod Timestamp
use encrypted_backup_client.Base.{
  ℕ, ◌+◌, ◌/◌, ◌%◌, Bool, true, false, Option, none, some, [], ◌∷◌, ◌++◌, ltb, if◌then◌else◌,
  length, Text, text, to_string, Result, ok, err, Error, invalid_argument, runtime_error,
  length_error, out_of_range, system_error, client_exception, user_cancelled, traced_exception,
  foreign_error, undefined_read, out_of_fuel,
}
use encrypted_backup_client.System.State.{M}
use encrypted_backup_client.System.Platform.{Platform}
use encrypted_backup_client.System.World.{
  World, LocalTime, log_unopened, log_unwritten, print, join_path, with_file, regular_file,
}
use encrypted_backup_client.System.Files.{old_content}

abbrev pub log_file_name : Text
log_file_name = text "client.log"

abbrev pub get_log_path : {P : Platform} → World P → Text
get_log_path w = join_path w.current_path log_file_name

abbrev pub timestamp_buffer_size : ℕ
timestamp_buffer_size = 20

-- `%m`, `%d`, `%H`, `%M` and `%S` of `std::strftime`.
abbrev pub two_digits : ℕ → Text
two_digits n = (48 + n / 10 % 10) ∷ (48 + n % 10) ∷ []

-- `std::strftime` with the format "%Y-%m-%d %H:%M:%S", for a buffer that is large enough.
unfoldable pub format_time : LocalTime → Text
format_time t =
    to_string t.year
    ++ (b'-'
        ∷ (two_digits t.month
            ++ (b'-'
                ∷ (two_digits t.day
                    ++ (b' '
                        ∷ (two_digits t.hour
                            ++ (b':' ∷ (two_digits t.minute ++ (b':' ∷ two_digits t.second)))))))))

-- `std::strftime` gives 0 where the text and its NUL do not fit.
unfoldable pub create_timestamp : Option LocalTime → Result Text
create_timestamp none = err (runtime_error (text "Failed to obtain the current local time."))
create_timestamp (some t) =
    if ltb timestamp_buffer_size (length (format_time t) + 1)
    then err (runtime_error (text "Failed to format the log timestamp."))
    else ok (format_time t)

module _ (P : Platform) where
  -- `what()`. The last two stand for no exception, and nothing catches them.
  unfoldable pub what : Error → Text
  what (invalid_argument message) = message
  what (runtime_error message) = message
  what (length_error message) = message
  what (out_of_range message) = message
  what (system_error message) = P.system_what message
  what (client_exception message) = message
  what (user_cancelled message) = message
  what (traced_exception message) = message
  what foreign_error = P.foreign_what
  what undefined_read = []
  what out_of_fuel = []

  unfoldable pub traceback : Error → Text
  traceback (traced_exception message) =
      text "Traceback:" ++ (10 ∷ (P.stacktrace (traced_exception message) ++ (10 ∷ [])))
  traceback e = text "Traceback (logging location):" ++ (10 ∷ (P.stacktrace e ++ (10 ∷ [])))

  -- What is written behind the opening bracket: all of it, or nothing after a failed timestamp.
  abbrev pub entry : Error → Result Text → Text
  entry e (ok timestamp) = timestamp ++ (text "] " ++ (what e ++ (10 ∷ traceback e)))
  entry e (err failure) = []

  abbrev pub reported : Result Text → M (World P) (Unit {0})
  reported (ok timestamp) w = (ok tt, w)
  reported (err failure) w = print (log_unwritten (what failure)) w

  abbrev pub append_log : Text → World P → World P
  append_log content w = record w {
    files =
        with_file w.files (get_log_path w)
          (some (regular_file (old_content (w.files (get_log_path w)) ++ content)));
  }

  -- Never throws.
  unfoldable pub log_exception : Error → M (World P) (Unit {0})
  log_exception e w =
      if w.writable (get_log_path w)
      then reported (create_timestamp w.local_time)
          (append_log (b'[' ∷ entry e (create_timestamp w.local_time)) w)
      else print log_unopened w
