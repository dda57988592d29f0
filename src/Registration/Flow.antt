-- ===== src/Registration/Flow.antt =====
-- Registration and re-registration: src/registration/registration_flow.cpp and
-- src/registration/re_registration_flow.cpp.
pub mod Register
pub mod Prompt
pub mod Stored
pub mod Info
pub mod Registered
pub mod Answered
pub mod Returning
use encrypted_backup_client.Base.{
  ℕ, zero, suc, Bool, true, false, Option, none, some, [], ◌∷◌, ◌++◌, ◌==◌, if◌then◌else◌, length,
  Text, text, text_eq, to_string, Result, ok, err, client_exception, user_cancelled,
  traced_exception, out_of_fuel,
}
use encrypted_backup_client.Utils.Encoding.{is_space}
use encrypted_backup_client.Utils.Validation.{is_valid_username}
use encrypted_backup_client.Protocol.RequestCode
use encrypted_backup_client.Protocol.ResponseCode
use encrypted_backup_client.Protocol.Request.{init_header, init_payload, set_user_id, set_username}
use encrypted_backup_client.Protocol.Response.{Response, get_user_id}
use encrypted_backup_client.System.State.{M, ◌>>=◌, ◌>>◌, return, throw, lift}
use encrypted_backup_client.Utils.Base64
use encrypted_backup_client.System.Platform.{Platform}
use encrypted_backup_client.System.World.{
  World, username_prompt, username_invalid, username_is_taken, registered, welcome_back, print,
}
use encrypted_backup_client.System.Files.{cl_info_file, get_client_info_path, write_file}
use encrypted_backup_client.Core.Communication.{send_request, receive_response}
use encrypted_backup_client.Registration.Credentials.{load_username, load_user_id, load_private_key}
use encrypted_backup_client.Registration.KeyExchange.{
  exchange_request, handle_rsa_key_response, complete_registration_key_exchange,
}

-- `std::cin >> word`: blanks are skipped, and a word ends at the next blank or at the end.
unfoldable pub skip_blanks : Text → Text
skip_blanks [] = []
skip_blanks (c ∷ cs) = let rest = skip_blanks cs in if is_space c then rest else c ∷ cs

unfoldable pub split_word : Text → Text × Text
split_word [] = ([], [])
split_word (c ∷ cs) =
    let (word, rest) = split_word cs in if is_space c then ([], c ∷ cs) else (c ∷ word, rest)

abbrev non_empty_word : Text × Text → Option (Text × Text)
non_empty_word ([], rest) = none
non_empty_word (c ∷ word, rest) = some (c ∷ word, rest)

unfoldable pub read_word : Text → Option (Text × Text)
unfolding skip_blanks split_word
read_word input = non_empty_word (split_word (skip_blanks input))

abbrev pub cancel : Text
cancel = text "quit"

module _ (P : Platform) where
  -- A read that fails leaves no input.
  abbrev pub take_word : Option (Text × Text) → Text → M (World P) Text
  take_word none message w = (err (user_cancelled message), record w { input = [] })
  take_word (some (word, rest)) message w = (ok word, record w { input = rest })

  unfoldable pub cin_word : Text → M (World P) Text
  cin_word message w = take_word (read_word w.input) message w

  -- The prompt loop; every round takes a word, so the length of the input bounds the rounds.
  unfoldable pub prompt_valid_username : ℕ → M (World P) Text
  prompt_valid_username zero = throw out_of_fuel
  prompt_valid_username (suc fuel) = do
    print username_prompt
    username ← cin_word (text "Registration cancelled.")
    let again = do print username_invalid; prompt_valid_username fuel
    if text_eq username cancel
        then throw (user_cancelled (text "Registration cancelled."))
        else if is_valid_username username
        then return username
        else again

  unfoldable pub send_registration_request : Text → M (World P) (Unit {0})
  send_registration_request username =
      send_request P
        (exchange_request init_header RequestCode.registration (set_username username init_payload))

  unfoldable pub save_client_registration_info : Text → Text → M (World P) (Unit {0})
  save_client_registration_info username user_id w =
      write_file (get_client_info_path w) (get_client_info_path w)
        (username ++ (10 ∷ (user_id ++ (10 ∷ [])))) w

  unfoldable pub save_registration : Response → Text → M (World P) (Unit {0})
  save_registration response username = do
    user_id ← lift (get_user_id response.payload)
    save_client_registration_info username user_id

  unfoldable pub handle_registration_response : Response → Text → M (World P) (Unit {0})
  handle_registration_response response username =
      let response_code = response.header.response_code in
      if response_code == ResponseCode.registration_failed
      then throw (
          client_exception (
            text
              "Registration failed. Make sure all details are correct, then give it another go!"))
      else if response_code == ResponseCode.failed
      then throw (traced_exception (text "Server error: Registration request failed."))
      else if response_code == ResponseCode.registration_success
      then save_registration response username
      else throw (
          traced_exception (
            text "Unexpected response code: Received code '"
            ++ (to_string response_code ++ text "' during registration.")))

  -- The loop until a username is accepted or an exception is thrown.
  unfoldable pub register_username : ℕ → M (World P) Text
  register_username zero = throw out_of_fuel
  register_username (suc fuel) = do
    username ← (λ w. prompt_valid_username (suc (length w.input)) w)
    send_registration_request username
    response ← receive_response P
    let again = do print username_is_taken; register_username fuel
    let registered_as = do handle_registration_response response username; return username
    if response.header.response_code == ResponseCode.username_taken then again else registered_as

  unfoldable pub client_registration : M (World P) (Unit {0})
  client_registration = do
    username ← (λ w. register_username (suc (length w.input)) w)
    complete_registration_key_exchange P
    print (registered username)

  unfoldable pub client_re_registration : M (World P) (Unit {0})
  client_re_registration = do
    username ← load_username P cl_info_file
    user_id ← load_user_id P cl_info_file
    private_key_base64 ← load_private_key P cl_info_file
    let private_key = Base64.decode P private_key_base64
    header ← lift (set_user_id user_id init_header)
    send_request P
        (exchange_request header RequestCode.re_registration (set_username username init_payload))
    handle_rsa_key_response P ResponseCode.re_registration_success private_key
    print (welcome_back username)
