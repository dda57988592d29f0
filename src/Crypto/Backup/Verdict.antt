-- ===== src/Crypto/Backup/Verdict.antt =====
-- When an upload counts as verified (verify_upload_crc_response of
-- src/crypto/FileAuthentication.cpp).
use encrypted_backup_client.Base.{
  ℕ, ◌≡◌, ◌↔◌, Bool, true, not, Text, text_eq→eq, Result, ok, err, arith,
}
use encrypted_backup_client.Protocol.ResponseCode
use encrypted_backup_client.Protocol.Response.{Response, get_user_id}
use encrypted_backup_client.System.State.{>>=-eq-ok, lift-eq-ok}
use encrypted_backup_client.System.Platform.{Platform}
use encrypted_backup_client.System.World.{World}
use encrypted_backup_client.System.Files.{cl_info_file}
use encrypted_backup_client.Core.Communication.{receive_response}
use encrypted_backup_client.Registration.Credentials.{load_user_id}
use encrypted_backup_client.Crypto.Upload.{Auth, on_world, keep_auth}
use encrypted_backup_client.Crypto.Backup.{
  accept_upload, check_upload, compare_upload, verify_upload_crc_response,
}

-- A successful call on the world.
on_world-eq-ok :
    {P : Platform} {A : Type 0} (m : Result A × World P) (s t : Auth P) {a : A}
    → keep_auth s m ≡ (ok a, t)
    → (m ≡ (ok a, t.world)) × (t ≡ record s { world = t.world })
on_world-eq-ok (ok x, w) s t h = ground arith
on_world-eq-ok (err x, w) s t h = cc

module _ (P : Platform) where
  -- The evidence behind a verdict: the response, the user ID on disk, and the comparison.
  pub record IsVerdict (file_data : Text) (s t : Auth P) (b : Bool) : Type 0 where
    pub response : Response
    pub user_id : Text
    pub received : World P
    pub receive_ok : receive_response P s.world ≡ (ok response, received)
    pub upload_received : response.header.response_code ≡ ResponseCode.upload_received
    pub loaded : load_user_id P cl_info_file received ≡ (ok user_id, t.world)
    pub same_user : get_user_id response.payload ≡ ok user_id
    pub verdict : (b ≡ true) ↔ (
        (response.payload.checksum ≡ P.crc32 file_data)
        × (response.payload.encrypted_file_size ≡ s.encrypted_file_size))
    pub crc_error_set : t.crc_error ≡ not b
    pub size_kept : t.encrypted_file_size ≡ s.encrypted_file_size

  check_upload-eq-ok :
      (id rid : Text) (code : ℕ)
      → check_upload id rid code ≡ ok tt
      → (code ≡ ResponseCode.upload_received) × (id ≡ rid)
  unfolding check_upload
  check_upload-eq-ok id rid code h = ground (arith, text_eq→eq id rid)

  compare_upload-eq-ok :
      (file_data : Text) (r : Response) (s t : Auth P) (b : Bool)
      → compare_upload P file_data r s ≡ (ok b, t)
      → ((b ≡ true) ↔ (
          (r.payload.checksum ≡ P.crc32 file_data)
          × (r.payload.encrypted_file_size ≡ s.encrypted_file_size)))
        × (t.crc_error ≡ not b)
        × (t.encrypted_file_size ≡ s.encrypted_file_size)
        × (t.world ≡ s.world)
  unfolding compare_upload
  compare_upload-eq-ok file_data r s t b h =
      ((λ e. ground arith, λ e. ground arith), ground arith, ground arith, ground arith)

  -- A verdict is given only for a response with code 220 and the stored user ID; it is positive
  -- exactly when the checksum is the CRC of the file and the size is the one that the upload kept,
  -- and `crc_error_` then holds its negation.
  pub verify_upload_crc_response-IsVerdict :
      (file_data : Text) (s t : Auth P) (b : Bool)
      → verify_upload_crc_response P file_data s ≡ (ok b, t)
      → IsVerdict file_data s t b
  unfolding verify_upload_crc_response compare_upload
  verify_upload_crc_response-IsVerdict file_data s t b h =
      let (r, s1, received, h1) = >>=-eq-ok (on_world (receive_response P)) _ s h in
      let (_, _, h2) = lift-eq-ok (accept_upload r.header.response_code) _ s1 h1 in
      let (id, s2, loaded, h3) = >>=-eq-ok (on_world (load_user_id P cl_info_file)) _ s1 h2 in
      let (rid, read, h4) = lift-eq-ok (get_user_id r.payload) _ s2 h3 in
      let (_, checked, h5) = lift-eq-ok (check_upload id rid r.header.response_code) _ s2 h4 in
      let (received_ok, same1) = on_world-eq-ok (receive_response P s.world) s s1 received in
      let (loaded_ok, same2) = on_world-eq-ok (load_user_id P cl_info_file s1.world) s1 s2 loaded in
      let (code, same_id) = check_upload-eq-ok id rid r.header.response_code checked in
      let (verdict, set, kept, world) = compare_upload-eq-ok file_data r s2 t b h5 in
      let size : s2.encrypted_file_size ≡ s.encrypted_file_size = cc (same1, same2) in
      record {
        response = r;
        user_id = id;
        received = s1.world;
        receive_ok = received_ok;
        upload_received = code;
        loaded = cc (loaded_ok, world);
        same_user = cc (read, same_id);
        verdict = rw size at verdict;
        crc_error_set = set;
        size_kept = cc (kept, size);
      }
