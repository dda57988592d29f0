-- ===== src/Crypto/Backup.antt =====
-- Verification of the upload, the retry loop and the backup of a list of files: the second half of
-- src/crypto/FileAuthentication.cpp.
pub mod Verdict
pub mod Retry
pub mod Files
pub mod Answers
pub mod Batch
pub mod Delivery
use encrypted_backup_client.Base.{
  ℕ, zero, suc, ◌+◌, Bool, true, false, not, ◌&&◌, ◌||◌, List, [], ◌∷◌, ◌++◌, ◌==◌, if◌then◌else◌,
  Text, text, text_eq, to_string, Result, ok, err, Error, client_exception, user_cancelled,
  traced_exception, out_of_fuel,
}
use encrypted_backup_client.Utils.Validation.{is_valid_filename}
use encrypted_backup_client.Protocol.RequestCode
use encrypted_backup_client.Protocol.ResponseCode
use encrypted_backup_client.Protocol.Request.{
  Request, RequestHeader, init_header, init_request, set_user_id, set_request_code,
  set_payload_size, set_file_name,
}
use encrypted_backup_client.Protocol.Response.{Response, get_user_id}
use encrypted_backup_client.System.State.{M, ◌>>=◌, ◌>>◌, return, throw, lift}
use encrypted_backup_client.System.Platform.{Platform}
use encrypted_backup_client.System.World.{
  World, file_sent, upload_failed, invalid_file_name, file_not_found, client_error, print, exists,
  join_path,
}
use encrypted_backup_client.System.Files.{cl_info_file}
use encrypted_backup_client.Core.Communication.{send_request, receive_response}
use encrypted_backup_client.Registration.Credentials.{load_user_id}
use encrypted_backup_client.Crypto.Upload.{
  Auth, on_world, on_payload, get_file_backup_payload_size, send_encrypted_file_request,
}

abbrev pub crc_trials_count : ℕ
crc_trials_count = 3

-- The tests of a response to an upload, before and after the user ID is loaded.
unfoldable pub accept_upload : ℕ → Result (Unit {0})
accept_upload response_code =
    if response_code == ResponseCode.failed
    then err (traced_exception (text "Server error: CRC verification failed."))
    else if response_code == ResponseCode.upload_rejected_too_large
    then err (client_exception (text "Upload rejected. File must not exceed the allowed limit."))
    else ok tt

unfoldable pub check_upload : Text → Text → ℕ → Result (Unit {0})
check_upload user_id response_id response_code =
    if not (text_eq user_id response_id)
    then err (traced_exception (text "User ID mismatch during CRC verification."))
    else if not (response_code == ResponseCode.upload_received)
    then err (
        traced_exception
          (text "Unexpected response code during CRC verification: " ++ to_string response_code))
    else ok tt

-- The tests of an acknowledgment.
unfoldable pub accept_ack : ℕ → Result (Unit {0})
accept_ack response_code =
    if response_code == ResponseCode.failed
    then err (traced_exception (text "Server ACK failure."))
    else ok tt

unfoldable pub check_ack : Text → Text → ℕ → Result (Unit {0})
check_ack user_id response_id response_code =
    if not (text_eq user_id response_id)
    then err (traced_exception (text "User ID mismatch during ACK validation."))
    else if not (response_code == ResponseCode.ack)
    then err (traced_exception (text "Unexpected ACK response code: " ++ to_string response_code))
    else ok tt

-- The request that reports a CRC result.
unfoldable pub crc_status_request : RequestHeader → Text → ℕ → Request
crc_status_request header file_name op_code =
    on_payload (set_file_name file_name) (record init_request {
      header = set_payload_size get_file_backup_payload_size (set_request_code op_code header);
    })

module _ (P : Platform) where
  -- The comparison at the end of `verify_upload_crc_response`.
  unfoldable pub compare_upload : Text → Response → M (Auth P) Bool
  compare_upload file_data response s =
      let matches =
        response.payload.checksum == P.crc32 file_data
        && response.payload.encrypted_file_size == s.encrypted_file_size in
      (ok matches, record s { crc_error = not matches })

  unfoldable pub verify_upload_crc_response : Text → M (Auth P) Bool
  verify_upload_crc_response file_data = do
    response ← on_world (receive_response P)
    let response_code = response.header.response_code
    lift (accept_upload response_code)
    user_id ← on_world (load_user_id P cl_info_file)
    response_id ← lift (get_user_id response.payload)
    lift (check_upload user_id response_id response_code)
    compare_upload file_data response

  unfoldable pub send_crc_status_request : Text → ℕ → M (World P) (Unit {0})
  send_crc_status_request file_name op_code = do
    user_id ← load_user_id P cl_info_file
    header ← lift (set_user_id user_id init_header)
    send_request P (crc_status_request header file_name op_code)

  unfoldable pub process_srv_ack_response : M (World P) (Unit {0})
  process_srv_ack_response = do
    response ← receive_response P
    user_id ← load_user_id P cl_info_file
    let response_code = response.header.response_code
    lift (accept_ack response_code)
    response_id ← lift (get_user_id response.payload)
    lift (check_ack user_id response_id response_code)

  -- The two ways to leave the loop, and the way to stay.
  unfoldable pub finish_upload : Text → M (World P) (Unit {0})
  finish_upload file_name = do
    send_crc_status_request file_name RequestCode.crc_success
    process_srv_ack_response
    print (file_sent file_name)

  unfoldable pub give_up : Text → M (World P) (Unit {0})
  give_up file_name = do
    send_crc_status_request file_name RequestCode.crc_failure
    process_srv_ack_response
    print (upload_failed file_name)

  -- One pass of the loop up to the verdict.
  unfoldable pub attempt : Text → Text → M (Auth P) Bool
  attempt file_path file_name = do
    file_data ← send_encrypted_file_request P file_path file_name
    verify_upload_crc_response file_data

  -- The loop with its count of failures; fuel bounds the passes.
  unfoldable pub backup_loop : ℕ → Text → Text → ℕ → M (Auth P) (Unit {0})
  backup_loop zero file_path file_name crc_failures = throw out_of_fuel
  backup_loop (suc fuel) file_path file_name crc_failures = do
    verified ← attempt file_path file_name
    let again = do
      on_world (send_crc_status_request file_name RequestCode.crc_error)
      backup_loop fuel file_path file_name (suc crc_failures)
    if verified
        then on_world (finish_upload file_name)
        else if suc crc_failures == crc_trials_count
        then on_world (give_up file_name)
        else again

  unfoldable pub backup_file : Text → Text → M (Auth P) (Unit {0})
  backup_file file_path file_name = backup_loop crc_trials_count file_path file_name 0

  -- `catch (const ClientException& e)`, which also takes the derived `UserCancelledException`.
  abbrev pub handle_client : Result (Unit {0}) × Auth P → Result (Unit {0}) × Auth P
  handle_client (ok a, s) = (ok a, s)
  handle_client (err (client_exception what), s) = on_world (print (client_error what)) s
  handle_client (err (user_cancelled what), s) = on_world (print (client_error what)) s
  handle_client (err e, s) = (err e, s)

  -- The body of the loop over the names.
  unfoldable pub backup_one : Text → Text → M (Auth P) (Unit {0})
  backup_one dir_name file_name s =
      let file_path = join_path dir_name file_name in
      if not (is_valid_filename file_name)
      then on_world (print (invalid_file_name file_name)) s
      else (do
        found ← on_world (exists file_path)
        (λ t.
            if not found
            then on_world (print (file_not_found file_name)) t
            else handle_client (backup_file file_path file_name t)))
          s

  unfoldable pub backup_files : Text → List Text → M (Auth P) (Unit {0})
  backup_files dir_name [] = return tt
  backup_files dir_name (file_name ∷ files) = do
    backup_one dir_name file_name
    backup_files dir_name files
