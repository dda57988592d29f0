-- ===== src/Tests/Machine.antt =====
-- A platform in memory: a socket is two queues of bytes, the ciphers only pad, and encoding only
-- ends the line. It stands in for Boost and Crypto++ in the runs.
use encrypted_backup_client.Base.{
  ℕ, suc, ◌+◌, ◌-◌, ◌%◌, ◌^◌, refl, Bool, true, false, Option, none, some, [], ◌∷◌, ◌++◌,
  if◌then◌else◌, ltb, le→ltb, length, take, drop, replicate, Text, text, ◌==◌, pos,
}
use encrypted_backup_client.Protocol.Bytes.{little_host}
use encrypted_backup_client.System.Platform.{Platform}
use encrypted_backup_client.System.World.{World, StoredFile, with_file, regular_file}
use encrypted_backup_client.Core.Communication.Framing.{IsStream}
use encrypted_backup_client.Crypto.Upload.{Auth}
use encrypted_backup_client.Crypto.Upload.Sending.{IsSink}
use encrypted_backup_client.Registration.Flow.Stored.{IsTrim}

pub record Wire : Type 0 where
  pub incoming : Text
  pub outgoing : Text
  pub connected : Bool

abbrev pub read_wire : ℕ → Wire → Option Text × Wire
read_wire n s =
    if ltb (length s.incoming) n
    then (none, s)
    else (some (take n s.incoming), record s { incoming = drop n s.incoming })

-- The sum of the bytes stands for the checksum.
abbrev pub sum : Text → ℕ
sum [] = 0
sum (b ∷ bs) = b + sum bs

-- The inverse of the padding.
abbrev pub unpad : Text → Option Text
unpad [] = none
unpad (padding ∷ rest) = some (drop (padding - 1) rest)

-- A text without the newline that ends it.
abbrev pub open_line : Text → Text
open_line [] = []
open_line (c ∷ []) = if c == 10 then [] else c ∷ []
open_line (c ∷ d ∷ cs) = c ∷ open_line (d ∷ cs)

abbrev pub machine : Platform
machine = record {
  host = little_host;
  Socket = Wire;
  asio_read = read_wire;
  asio_write = λ bytes s. (true, record s { outgoing = s.outgoing ++ bytes });
  is_open = λ s. s.connected;
  close = λ s. (true, record s { connected = false });
  Endpoints = Unit {0};
  resolve_address = λ host port. some tt;
  connect = λ endpoints s. (some (text "127.0.0.1", 1234), record s { connected = true });
  Json = Text;
  parse_json = λ s. some s;
  at = λ config key. some config;
  as_string = λ config. some (text "localhost");
  as_int64 = λ config. some (pos 1234);
  foreign_what = text "failed";
  system_what = λ s. s;
  stacktrace = λ e. [];
  Random = ℕ;
  generate_block = λ n seed. (replicate n (seed % 256), suc seed);
  aes_cbc_encrypt = λ key iv plain.
      let padding = 16 - length plain % 16 in padding ∷ (replicate (padding - 1) padding ++ plain);
  aes_cbc_decrypt = λ key iv cipher. unpad cipher;
  base64_encode = λ s. s ++ (10 ∷ []);
  base64_encode_flat = λ s. s;
  base64_decode = open_line;
  PrivateKey = Text;
  generate_key = λ seed. (replicate 8 65, suc seed);
  load_key = λ s. some s;
  save_key = λ key. key;
  PublicKey = Text;
  public_part = λ key. key;
  load_public_key = λ s. some s;
  save_public_key = λ key. key;
  encrypt = λ key plain seed. (some plain, suc seed);
  decrypt = λ key cipher. some cipher;
  crc32 = λ s. sum s % 2 ^ 32;
  trim = λ s. s;
}

abbrev pub machine_stream : IsStream machine
machine_stream = record {
  pending = λ s. s.incoming;
  asio_read-pending = λ n s h.
      (record s { incoming = drop n s.incoming }, rw (le→ltb (length s.incoming) n h) refl, refl);
}

abbrev pub machine_sink : IsSink machine
machine_sink = record {
  sent = λ s. s.outgoing;
  asio_write-sent = λ bytes s. (record s { outgoing = s.outgoing ++ bytes }, refl, refl);
}

abbrev pub machine_trims : IsTrim machine
machine_trims = record { trim-word = λ s h. refl }

abbrev pub no_files : Text → Option StoredFile
no_files path = none

-- A client in "/c" with the files given, what the server will send, and what the user types.
abbrev pub world : (Text → Option StoredFile) → Text → Text → World machine
world files incoming input = record {
  socket = record { incoming = incoming; outgoing = []; connected = true };
  random = 7;
  current_path = b'/' ∷ b'c' ∷ [];
  files = files;
  is_directory = λ path. false;
  writable = λ path. true;
  removable = λ path. true;
  status_fails = λ path. false;
  input = input;
  output = [];
  local_time = none;
}

-- The user ID of a registered client: 16 bytes 0x11, as text.
abbrev pub user_id : Text
user_id = replicate 32 b'1'

abbrev pub registered_files : Text → Option StoredFile
registered_files =
    with_file
      (with_file
        (with_file no_files (text "/c/me.info") (
          some
            (regular_file (text "alice" ++ (10 ∷ (user_id ++ (10 ∷ (text "KEY" ++ (10 ∷ [])))))))))
        (text "/c/aes.key") (some (regular_file (replicate 32 b'k'))))
      (text "/c/d/notes.txt") (some (regular_file (text "some notes")))

abbrev pub auth : World machine → Auth machine
auth w = record { world = w; encrypted_file_size = 0; crc_error = false }
