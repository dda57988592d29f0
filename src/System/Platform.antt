-- ===== src/System/Platform.antt =====
-- What the client takes from outside the repository: the byte order and <arpa/inet.h> of the host,
-- Boost.Asio, Boost.CRC and Crypto++. Every definition that uses them takes a `Platform`.
use encrypted_backup_client.Base.{ℕ, ℤ, Bool, Option, Text, Error}
use encrypted_backup_client.Protocol.Bytes.{Host}

pub record Platform : Type 1 where
  pub host : Host
  -- boost::asio::ip::tcp::socket
  pub Socket : Type 0
  -- boost::asio::read into a buffer of n bytes: none is an error code
  pub asio_read : ℕ → Socket → Option Text × Socket
  -- boost::asio::write of a whole buffer: false is an error code
  pub asio_write : Text → Socket → Bool × Socket
  pub is_open : Socket → Bool
  -- whether the call throws no error, and the socket behind it
  pub close : Socket → Bool × Socket
  -- tcp::resolver::resolve of a host and a port, and boost::asio::connect, with the address and the
  -- port of the connected endpoint: none is an error code
  pub Endpoints : Type 0
  pub resolve_address : Text → Text → Option Endpoints
  pub connect : Endpoints → Socket → Option (Text × ℕ) × Socket
  -- boost::json: parse, at, as_string and as_int64 (none is an exception)
  pub Json : Type 0
  pub parse_json : Text → Option Json
  pub at : Json → Text → Option Json
  pub as_string : Json → Option Text
  pub as_int64 : Json → Option ℤ
  -- what() of an exception of the libraries, and of a boost::system::system_error with a prefix
  pub foreign_what : Text
  pub system_what : Text → Text
  -- boost::stacktrace, as it is printed for an exception
  pub stacktrace : Error → Text
  -- the state of CryptoPP::AutoSeededRandomPool, and GenerateBlock
  pub Random : Type 0
  pub generate_block : ℕ → Random → Text × Random
  -- AES in CBC mode with PKCS padding: key, IV, plaintext
  pub aes_cbc_encrypt : Text → Text → Text → Text
  -- its inverse: key, IV, ciphertext (none is an exception)
  pub aes_cbc_decrypt : Text → Text → Text → Option Text
  -- CryptoPP::Base64Encoder with and without line breaks, CryptoPP::Base64Decoder
  pub base64_encode : Text → Text
  pub base64_encode_flat : Text → Text
  pub base64_decode : Text → Text
  -- CryptoPP::RSA::PrivateKey and PublicKey: a new key, its public part, Load (none is an exception),
  -- Save, and RSAES_OAEP_SHA encryption and decryption (none is an exception)
  pub PrivateKey : Type 0
  pub generate_key : Random → PrivateKey × Random
  pub load_key : Text → Option PrivateKey
  pub save_key : PrivateKey → Text
  pub PublicKey : Type 0
  pub public_part : PrivateKey → PublicKey
  pub load_public_key : Text → Option PublicKey
  pub save_public_key : PublicKey → Text
  pub encrypt : PublicKey → Text → Random → Option Text × Random
  pub decrypt : PrivateKey → Text → Option Text
  -- boost::crc_32_type
  pub crc32 : Text → ℕ
  -- boost::trim
  pub trim : Text → Text
