-- ===== src/Trace/Requests.antt =====
-- The requests that the client builds are well-formed (src/protocol/request.cpp and its callers).
use mathlib.Core.Path.{subst}
use encrypted_backup_client.Base.{
  ℕ, Bool, true, false, if◌then◌else◌, ltb, Error, err, ◌≤◌, ◌^◌, ◌≡◌, refl, sym, ap, inl, inr,
  some, [], length, length-take, arith, Text, ok, >>=-eq-ok, ok-injective,
}
use encrypted_backup_client.Utils.Encoding.{hex_string_to_byte_array}
use encrypted_backup_client.Protocol.Bytes.{ByteOrder}
use encrypted_backup_client.Protocol.Fields.{length-fill_field}
use encrypted_backup_client.Protocol.Types.{rsa_key_len}
use encrypted_backup_client.Protocol.RequestCode
use encrypted_backup_client.Protocol.Request.{
  Request, RequestHeader, RequestPayload, client_version, init_header, init_payload, init_request,
  set_user_id, set_payload_size, set_username, set_public_key, set_request_code,
  set_encrypted_chunk_data, set_encrypted_chunk_size, set_packet_number,
}
use encrypted_backup_client.Protocol.Request.Layout.{IsHeader, IsPayload, length-serialize}
use encrypted_backup_client.Protocol.Request.Initial.{
  init_payload-IsPayload, named-IsPayload, coded-IsHeader, init_header-IsHeader,
  set_user_id-IsHeader,
}
use encrypted_backup_client.Registration.KeyExchange.{exchange_request}
use encrypted_backup_client.Crypto.Upload.{chunk_request}
use encrypted_backup_client.Crypto.Upload.Packets.{sent-IsHeader, sent-IsPayload, chunk_length}
use encrypted_backup_client.Crypto.Backup.{crc_status_request}
use encrypted_backup_client.Core.Client.{disconnect_request}
use encrypted_backup_client.Core.Client.Requests.{length-serialize_declared}
use encrypted_backup_client.Trace.Steps.{IsRequest, IsRequestCode, IsRequestCode-lt}

-- The header of a client that has its user ID.
pub record IsClient (h : RequestHeader) : Type 0 where
  pub valid : IsHeader h
  pub version : h.version ≡ client_version

pub init_header-IsClient : IsClient init_header
unfolding init_header
init_header-IsClient = record { valid = init_header-IsHeader; version = refl }

pub set_user_id-IsClient :
    (user_id : Text) (k : RequestHeader) → set_user_id user_id init_header ≡ ok k → IsClient k
unfolding set_user_id init_header
set_user_id-IsClient user_id k e =
    let (_, _, done) = >>=-eq-ok (hex_string_to_byte_array 16 user_id) _ e in
    record {
      valid = set_user_id-IsHeader user_id init_header k init_header-IsHeader e;
      version = ap (λ (h : RequestHeader). h.version) (sym (ok-injective done));
    }

pub set_username-IsPayload :
    (username : Text) (p : RequestPayload) → IsPayload p → IsPayload (set_username username p)
unfolding set_username
set_username-IsPayload username p v = record {
  username_size = length-fill_field 64 username;
  public_key_size = v.public_key_size;
  encrypted_chunk_size_range = v.encrypted_chunk_size_range;
  file_size_range = v.file_size_range;
  packet_number_range = v.packet_number_range;
  total_packets_range = v.total_packets_range;
  file_name_size = v.file_name_size;
}

-- A value behind a passed test.
unless-eq-ok :
    {A : Type 0} (b : Bool) (e : Error) {a a' : A}
    → (if b then err e else ok a) ≡ ok a'
    → (b ≡ false) × (a ≡ a')
unless-eq-ok true e h = cc
unless-eq-ok false e h = (refl, ok-injective h)

-- A key that was taken has all its bytes.
pub set_public_key-IsPayload :
    (key : Text) (p q : RequestPayload)
    → IsPayload p
    → set_public_key (some key) p ≡ ok q
    → IsPayload q × (q.encrypted_chunk_data ≡ p.encrypted_chunk_data)
unfolding set_public_key
set_public_key-IsPayload key p q v e =
    let (long, set) = unless-eq-ok (ltb (length key) rsa_key_len) _ e in
    let full : rsa_key_len ≤ length key = ground arith in
    subst (λ (r : RequestPayload). IsPayload r × (r.encrypted_chunk_data ≡ p.encrypted_chunk_data))
      set
      (
        record {
          username_size = v.username_size;
          public_key_size = omega (arith, length-take rsa_key_len key);
          encrypted_chunk_size_range = v.encrypted_chunk_size_range;
          file_size_range = v.file_size_range;
          packet_number_range = v.packet_number_range;
          total_packets_range = v.total_packets_range;
          file_name_size = v.file_name_size;
        },
        refl,
      )

pub init_payload_data : init_payload.encrypted_chunk_data ≡ []
unfolding init_payload
init_payload_data = refl

pub exchange_request-coded :
    (h : RequestHeader) (code : ℕ) (p : RequestPayload)
    → (exchange_request h code p).header.request_code ≡ code
unfolding exchange_request set_payload_size set_request_code
exchange_request-coded h code p = refl

pub crc_status_request-coded :
    (h : RequestHeader) (file_name : Text) (code : ℕ)
    → (crc_status_request h file_name code).header.request_code ≡ code
unfolding crc_status_request set_payload_size set_request_code
crc_status_request-coded h file_name code = refl

pub disconnect_request-coded : disconnect_request.header.request_code ≡ RequestCode.disconnect
unfolding disconnect_request set_payload_size set_request_code
disconnect_request-coded = refl

pub chunk_request-coded :
    (encrypted_file : Text) (c : ℕ) (r : Request) (packet : ℕ)
    → (chunk_request encrypted_file c r packet).header.request_code ≡ r.header.request_code
unfolding chunk_request set_payload_size
chunk_request-coded encrypted_file c r packet = refl

module _ (o : ByteOrder) where
  pub exchange_request-IsRequest :
      (h : RequestHeader) (p : RequestPayload) (code : ℕ)
      → IsClient h
      → IsPayload p
      → p.encrypted_chunk_data ≡ []
      → IsRequestCode code
      → IsRequest o (exchange_request h code p)
  unfolding exchange_request set_payload_size set_request_code
  exchange_request-IsRequest h p code v vp empty c = record {
    header_valid = coded-IsHeader h code 491 v.valid (IsRequestCode-lt c) (omega arith);
    payload_valid = vp;
    versioned = v.version;
    coded = c;
    declared =
        inl (length-serialize_declared o h p [] code v.valid vp empty (IsRequestCode-lt c)).0;
  }

  pub crc_status_request-IsRequest :
      (h : RequestHeader) (file_name : Text) (code : ℕ)
      → IsClient h
      → IsRequestCode code
      → IsRequest o (crc_status_request h file_name code)
  unfolding crc_status_request init_request set_payload_size set_request_code
  crc_status_request-IsRequest h file_name code v c = record {
    header_valid = coded-IsHeader h code 491 v.valid (IsRequestCode-lt c) (omega arith);
    payload_valid = named-IsPayload file_name;
    versioned = v.version;
    coded = c;
    declared =
        inl
          (length-serialize_declared o h init_payload file_name code v.valid init_payload-IsPayload
            init_payload_data (IsRequestCode-lt c)).1;
  }

  pub disconnect_request-IsRequest : IsRequest o disconnect_request
  unfolding disconnect_request init_header set_payload_size set_request_code
  disconnect_request-IsRequest = record {
    header_valid =
        coded-IsHeader init_header 130 483 init_header-IsHeader (omega arith) (omega arith);
    payload_valid = init_payload-IsPayload;
    versioned = refl;
    coded = IsRequestCode.disconnect;
    declared = inr refl;
  }

  pub chunk_request-IsRequest :
      (encrypted_file : Text) (c : ℕ) (r : Request) (packet : ℕ)
      → c ≤ 2 ^ 16
      → IsClient r.header
      → IsRequestCode r.header.request_code
      → IsPayload r.payload
      → IsRequest o (chunk_request encrypted_file c r packet)
  unfolding chunk_request set_payload_size set_encrypted_chunk_data set_encrypted_chunk_size
      set_packet_number
  chunk_request-IsRequest encrypted_file c r packet small v k p =
      let h = sent-IsHeader encrypted_file c small r packet v.valid in
      let q = sent-IsPayload encrypted_file c small r packet p in
      record {
        header_valid = h;
        payload_valid = q;
        versioned = v.version;
        coded = k;
        declared = inl (
            omega (
              arith,
              chunk_length encrypted_file c small r packet,
              length-serialize o (chunk_request encrypted_file c r packet) h q,
            ));
      }
