-- ===== src/Core/Client/Startup.antt =====
-- The choice between registration and re-registration (ClientHandler::handle_registration of
-- src/core/ClientHandler.cpp) after a registration that did not finish.
use encrypted_backup_client.Registration.Flow.{client_registration}
use encrypted_backup_client.Registration.KeyExchange.{registered_no_more, refuse_re_registration}
use encrypted_backup_client.Base.{
  client_exception, Text, ◌≡◌, refl, true, false, none, ok, ◌++◌, All, text, text_eq_refl, err,
  traced_exception,
}
use encrypted_backup_client.Utils.Encoding.{is_space}
use encrypted_backup_client.System.Platform.{Platform}
use encrypted_backup_client.System.World.{World, with_file, exists}
use encrypted_backup_client.System.Files.{cl_info_file, get_client_info_path, remove_file}
use encrypted_backup_client.Registration.Flow.Stored.{
  IsTrim, registered_world, client_re_registration_half_registered,
}
use encrypted_backup_client.Core.Client.{handle_registration}

exists_registered :
    {P : Platform} (w : World P) (u id : Text)
    → exists cl_info_file (registered_world w u id) ≡ (ok true, registered_world w u id)
unfolding exists
exists_registered w u id = rw (text_eq_refl (get_client_info_path w), exists) refl

-- Once a username and a user ID without blanks are stored, and until the key exchange adds the
-- private key, a start takes the client for a registered one and fails, with no request sent and
-- nothing changed.
pub handle_registration_half_registered :
    (P : Platform)
    → IsTrim P
    → (w : World P) (u id : Text) → All (λ c. is_space c ≡ false) u
    → All (λ c. is_space c ≡ false) id
    → let v = registered_world w u id in
      handle_registration P v
      ≡ (err (traced_exception (text "Private key not found in " ++ cl_info_file)), v)
unfolding handle_registration
handle_registration_half_registered P trims w u id hu hid =
    rw (exists_registered w u id) (client_re_registration_half_registered P trims w u id hu hid)

-- The refusal of a re-registration removes the client information file and throws a
-- `ClientException`; where the file can be removed, the status of its path can be read and no
-- directory has its name, the next start from that state registers anew.
pub handle_registration-refused :
    (P : Platform) (w : World P)
    → w.is_directory (get_client_info_path w) ≡ false
    → w.status_fails (get_client_info_path w) ≡ false
    → w.removable (get_client_info_path w) ≡ true
    → (message : Text) × (t : World P) × (refuse_re_registration P w
        ≡ (err (client_exception message), t))
      × (handle_registration P t ≡ client_registration P t)
unfolding exists refuse_re_registration handle_registration remove_file
handle_registration-refused P w file status removes =
    let t : World P = record w { files = with_file w.files (get_client_info_path w) none } in
    let gone : exists cl_info_file t ≡ (ok false, t) =
      rw (text_eq_refl (get_client_info_path w), exists, status, file) refl in
    (registered_no_more P, t, rw removes refl, rw gone refl)
