-- ===== src/Trace/Steps.antt =====
-- The steps by which the client changes its world without sending, and the worlds that it reaches by
-- them; the requests that it sends.
use encrypted_backup_client.Base.{
  ℕ, ◌+◌, ◌<◌, ◌^◌, ◌≤◌, ◌≡◌, refl, ◌∙◌, ◌⊎◌, length, arith, Text, Option, ◌∷◌,
}
use encrypted_backup_client.Protocol.Bytes.{ByteOrder}
use encrypted_backup_client.Protocol.RequestCode
use encrypted_backup_client.Protocol.Request.{Request, serialize, client_version}
use encrypted_backup_client.Protocol.Request.Layout.{IsHeader, IsPayload}
use encrypted_backup_client.System.Platform.{Platform}
use encrypted_backup_client.System.World.{World, Line, StoredFile, with_file, join_path}
use encrypted_backup_client.System.Files.{cl_info_file, aes_key_file, private_key_file}
use encrypted_backup_client.Utils.Logger.{log_file_name}

-- The operation codes of the protocol.
pub data IsRequestCode : ℕ → Type 0 where
  registration : IsRequestCode RequestCode.registration
  public_key_send : IsRequestCode RequestCode.public_key_send
  re_registration : IsRequestCode RequestCode.re_registration
  create_backup : IsRequestCode RequestCode.create_backup
  crc_success : IsRequestCode RequestCode.crc_success
  crc_error : IsRequestCode RequestCode.crc_error
  crc_failure : IsRequestCode RequestCode.crc_failure
  disconnect : IsRequestCode RequestCode.disconnect

pub IsRequestCode-lt : {code : ℕ} → IsRequestCode code → code < 2 ^ 16
IsRequestCode-lt registration = omega arith
IsRequestCode-lt public_key_send = omega arith
IsRequestCode-lt re_registration = omega arith
IsRequestCode-lt create_backup = omega arith
IsRequestCode-lt crc_success = omega arith
IsRequestCode-lt crc_error = omega arith
IsRequestCode-lt crc_failure = omega arith
IsRequestCode-lt disconnect = omega arith

-- A request of this client's version, with a code of the protocol, whose fields have their sizes and ranges. Its header declares
-- the payload bytes that follow, but for the disconnect request.
pub record IsRequest (o : ByteOrder) (r : Request) : Type 0 where
  pub header_valid : IsHeader r.header
  pub payload_valid : IsPayload r.payload
  pub versioned : r.header.version ≡ client_version
  pub coded : IsRequestCode r.header.request_code
  pub declared :
      (length (serialize o r) ≡ 23 + r.header.payload_size)
      ⊎ (r.header.request_code ≡ RequestCode.disconnect)

-- The four files that the client keeps in its directory.
pub data IsOwn (dir : Text) : Text → Type 0 where
  client_info : IsOwn dir (join_path dir cl_info_file)
  aes_key : IsOwn dir (join_path dir aes_key_file)
  private_key : IsOwn dir (join_path dir private_key_file)
  log : IsOwn dir (join_path dir log_file_name)

-- One change of the world in which nothing is sent. The library decides what a socket becomes.
pub data Step {P : Platform} (w v : World P) : Type 0 where
  received : (n : ℕ) → v ≡ record w { socket = (P.asio_read n w.socket).1 } → Step w v
  connected : (e : P.Endpoints) → v ≡ record w { socket = (P.connect e w.socket).1 } → Step w v
  closed : v ≡ record w { socket = (P.close w.socket).1 } → Step w v
  drew : (random : P.Random) → v ≡ record w { random = random } → Step w v
  printed : (line : Line) → v ≡ record w { output = line ∷ w.output } → Step w v
  took : (input : Text) → length input ≤ length w.input → v ≡ record w { input = input } → Step w v
  stored :
      (path : Text) (entry : Option StoredFile)
      → IsOwn w.current_path path
      → v ≡ record w { files = with_file w.files path entry }
      → Step w v

-- The worlds that are reached by any number of steps.
pub data Reach {P : Platform} (w : World P) : World P → Type 0 where
  here : Reach w w
  next : {u v : World P} → Reach w u → Step u v → Reach w v

module _ {P : Platform} where
  pub one_step : {w v : World P} → Step w v → Reach w v
  one_step step = next here step

  pub Reach-trans : {u v w : World P} → Reach u v → Reach v w → Reach u w
  Reach-trans r here = r
  Reach-trans r (next s step) = next (Reach-trans r s) step

  pub Step-current_path : (w v : World P) → Step w v → v.current_path ≡ w.current_path
  Step-current_path w v (received n e) = cc
  Step-current_path w v (connected n e) = cc
  Step-current_path w v (closed e) = cc
  Step-current_path w v (drew random e) = cc
  Step-current_path w v (printed line e) = cc
  Step-current_path w v (took input h e) = cc
  Step-current_path w v (stored path entry own e) = cc

  -- The client never changes its directory.
  pub Reach-current_path : {w v : World P} → Reach w v → v.current_path ≡ w.current_path
  Reach-current_path here = refl
  Reach-current_path (next r step) = Step-current_path _ _ step ∙ Reach-current_path r

  pub Step-input : (w v : World P) → Step w v → length v.input ≤ length w.input
  Step-input w v (received n e) = ground arith
  Step-input w v (connected n e) = ground arith
  Step-input w v (closed e) = ground arith
  Step-input w v (drew random e) = ground arith
  Step-input w v (printed line e) = ground arith
  Step-input w v (took input h e) = ground arith
  Step-input w v (stored path entry own e) = ground arith

  -- Input is only taken.
  pub Reach-input : {w v : World P} → Reach w v → length v.input ≤ length w.input
  Reach-input here = omega arith
  Reach-input (next r step) = omega (arith, Reach-input r, Step-input _ _ step)
