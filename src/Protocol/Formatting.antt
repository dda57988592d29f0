-- ===== src/Protocol/Formatting.antt =====
-- The debug output of the protocol: src/protocol/protocol_formatting.cpp, as the text that is printed.
pub mod Hexify
use encrypted_backup_client.Base.{
  ℕ, suc, ◌+◌, ◌-◌, ◌%◌, Option, none, some, [], ◌∷◌, ◌++◌, ltb, leb, ◌==◌, if◌then◌else◌, length,
  slice, Text, text, to_string, Result, ok, err, undefined_read, ◌>>=◌,
}
use encrypted_backup_client.Utils.Encoding.{put_byte}
use encrypted_backup_client.Protocol.Request
use encrypted_backup_client.Protocol.Request.{Request, RequestHeader, RequestPayload}
use encrypted_backup_client.Protocol.Response
use encrypted_backup_client.Protocol.Response.{Response, ResponseHeader, ResponsePayload}

-- A member that is read as a C string: without a NUL the read has no end.
terminated : Option Text → Result Text
terminated none = err undefined_read
terminated (some s) = ok s

unfoldable pub format_request_header : RequestHeader → Result Text
format_request_header h = do
  user_id ← Request.get_user_id h
  ok (
      text "RequestHeader: { user_id: "
      ++ (user_id
          ++ (text ", version: "
              ++ (to_string (Request.get_version h)
                  ++ (text ", request_code: "
                      ++ (to_string (Request.get_request_code h)
                          ++ (text ", payload_size: "
                              ++ (to_string (Request.get_payload_size h) ++ text " }"))))))))

unfoldable pub format_response_header : ResponseHeader → Text
format_response_header h =
    text "ResponseHeader: { version: "
    ++ (to_string (Response.get_version h)
        ++ (text ", response_code: "
            ++ (to_string (Response.get_response_code h)
                ++ (text ", payload_size: "
                    ++ (to_string (Response.get_payload_size h) ++ text " }")))))

-- `Base64Wrapper::encode` of Crypto++ is the argument. The chunk is printed as its size.
unfoldable pub format_request_payload : (Text → Text) → RequestPayload → Result Text
unfolding terminated
format_request_payload base64_encode p = do
  username ← terminated (Request.get_username p)
  file_name ← terminated (Request.get_file_name p)
  ok (
      text "RequestPayload: { username: "
      ++ (username
          ++ (text ", public_key: "
              ++ (Request.get_public_key base64_encode p
                  ++ (text ", encrypted_file_size: "
                      ++ (to_string (Request.get_encrypted_file_size p)
                          ++ (text ", orig_file_size: "
                              ++ (to_string (Request.get_file_size p)
                                  ++ (text ", packet_number: "
                                      ++ (to_string (Request.get_packet_number p)
                                          ++ (text ", total_packets: "
                                              ++ (to_string (Request.get_total_packets p)
                                                  ++ (text ", file_name: "
                                                      ++ (file_name
                                                          ++ (text ", encrypted_file_data: <"
                                                            ++ (to_string (
                                                            length
                                                            (Request.get_encrypted_file_data p))
                                                            ++ text " bytes> }"))))))))))))))))

unfoldable pub format_response_payload : ResponsePayload → Result Text
unfolding terminated
format_response_payload p = do
  user_id ← Response.get_user_id p
  file_name ← terminated (Response.get_file_name p)
  ok (
      text "ResponsePayload: { user_id: "
      ++ (user_id
          ++ (text ", encrypted_aes_key: <"
              ++ (to_string (length (Response.get_encrypted_aes_key p))
                  ++ (text " bytes>, encrypted_file_size: "
                      ++ (to_string (Response.get_encrypted_file_size p)
                          ++ (text ", file_name: "
                              ++ (file_name
                                  ++ (text ", checksum: "
                                      ++ (to_string (Response.get_checksum p) ++ text " }"))))))))))

unfoldable pub format_request : (Text → Text) → Request → Result Text
format_request base64_encode r = do
  header ← format_request_header (Request.get_header r)
  payload ← format_request_payload base64_encode (Request.get_payload r)
  ok (text "Request: { " ++ (header ++ (text ", " ++ (payload ++ text " }"))))

unfoldable pub format_response : Response → Result Text
format_response r = do
  payload ← format_response_payload (Response.get_payload r)
  ok (
      text "Response: { "
      ++ (format_response_header (Response.get_header r) ++ (text ", " ++ (payload ++ text " }"))))

-- What `hexify` prints, and on which stream.
pub data Printed : Type 0 where
  cout : Text → Printed
  cerr : Text → Printed

-- The loop of `hexify`, from the i-th byte of the range on.
unfoldable pub hex_rows : ℕ → Text → Text
hex_rows i [] = []
hex_rows i (b ∷ bs) =
    put_byte (b % 256) ++ ((if (i + 1) % 16 == 0 then 10 else b' ') ∷ hex_rows (i + 1) bs)

-- `none` is the null pointer. A range that leaves the buffer is read all the same.
unfoldable pub hexify : Option Text → ℕ → ℕ → Result Printed
hexify none start end = ok (cerr (text "Cannot hexify a null buffer." ++ (10 ∷ [])))
hexify (some buffer) start end =
    if leb end start
    then ok (cerr (text "Invalid range!" ++ (10 ∷ [])))
    else if ltb (length buffer) end
    then err undefined_read
    else ok (cout (hex_rows 0 (slice start (end - start) buffer) ++ (10 ∷ [])))
