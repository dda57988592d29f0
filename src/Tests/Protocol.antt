-- ===== src/Tests/Protocol.antt =====
-- The wire format on sample requests and responses.
use encrypted_backup_client.Base.{
  ◌↔◌, ℕ, ◌<◌, ◌≡◌, ◌≢◌, refl, none, [], ◌∷◌, length-replicate, replicate, All-replicate, arith,
  Text, IsBytes, ok,
}
use encrypted_backup_client.Protocol.Bytes.{
  little, little_host, big_host, little_host-IsNetworkOrder, big_host-IsNetworkOrder, from_be,
  be_bytes,
}
use encrypted_backup_client.Protocol.Request.{Request, serialize}
use encrypted_backup_client.Protocol.Request.Layout.{
  IsHeader, IsPayload, read_request, read_request-serialize,
}
use encrypted_backup_client.Protocol.Response.{Response, deserialize, get_file_name}
use encrypted_backup_client.Protocol.Response.Reference.{
  parse_response, deserialize-eq-parse_response, get_file_name-deserialize_unterminated,
}
use encrypted_backup_client.Protocol.Response.Accepted.{deserialize_iff}
use encrypted_backup_client.Protocol.Response.RoundTrip.{
  IsResponse, write_response, IsBytes-write_response, deserialize-write_response,
}
use encrypted_backup_client.Core.Communication.{receive_response}
use encrypted_backup_client.Core.Communication.Framing.{receive_response-write_response}
use encrypted_backup_client.System.World.{World}
use encrypted_backup_client.Tests.Machine.{machine, machine_stream, world, no_files}

abbrev pub sample_request : Request
sample_request = record {
  header = record {
    user_id = replicate 16 17;
    version = 3;
    request_code = 828;
    payload_size = 494;
  };
  payload = record {
    username = replicate 64 97;
    public_key = replicate 160 1;
    encrypted_chunk_size = 3;
    file_size = 70000;
    packet_number = 2;
    total_packets = 18;
    file_name = replicate 255 98;
    encrypted_chunk_data = 1 ∷ 2 ∷ 3 ∷ [];
  };
}

abbrev sample-IsHeader : IsHeader sample_request.header
sample-IsHeader = record {
  user_id_size = length-replicate {A = ℕ} 16 17;
  version_range = omega arith;
  request_code_range = omega arith;
  payload_size_range = omega arith;
}

abbrev sample-IsPayload : IsPayload sample_request.payload
sample-IsPayload = record {
  username_size = length-replicate {A = ℕ} 64 97;
  public_key_size = length-replicate {A = ℕ} 160 1;
  encrypted_chunk_size_range = omega arith;
  file_size_range = omega arith;
  packet_number_range = omega arith;
  total_packets_range = omega arith;
  file_name_size = length-replicate {A = ℕ} 255 98;
}

read_request-serialize_example :
    read_request little (serialize little sample_request) ≡ sample_request
read_request-serialize_example =
    read_request-serialize little sample_request sample-IsHeader sample-IsPayload

-- The verdict of the server on an upload of 10 bytes.
abbrev pub sample_response : Response
sample_response = record {
  header = record { version = 3; response_code = 220; payload_size = 287 };
  payload = record {
    user_id = replicate 16 17;
    encrypted_aes_key = replicate 8 65;
    encrypted_file_size = 32;
    file_name = replicate 255 98;
    checksum = 4000000000;
  };
}

abbrev pub sample-IsResponse : IsResponse sample_response
sample-IsResponse = record {
  version_range = omega arith;
  code_range = omega arith;
  size_range = omega arith;
  size_counts = refl;
  user_id_size = length-replicate {A = ℕ} 16 17;
  user_id_bytes = All-replicate {A = ℕ} (λ b. b < 256) 16 17 (omega arith);
  key_bytes = All-replicate {A = ℕ} (λ b. b < 256) 8 65 (omega arith);
  file_size_range = omega arith;
  file_name_size = length-replicate {A = ℕ} 255 98;
  file_name_bytes = All-replicate {A = ℕ} (λ b. b < 256) 255 98 (omega arith);
  checksum_range = omega arith;
}

abbrev sample_wire : Text
sample_wire = write_response sample_response (1 ∷ 2 ∷ [])

sample_wire-IsBytes : IsBytes sample_wire
sample_wire-IsBytes =
    IsBytes-write_response sample_response (1 ∷ 2 ∷ []) sample-IsResponse
      (omega arith, (omega arith, tt))

sample_read : deserialize big_host sample_wire ≡ ok sample_response
sample_read =
    deserialize-write_response big_host sample_response (1 ∷ 2 ∷ []) big_host-IsNetworkOrder
      sample-IsResponse (omega arith, (omega arith, tt))

deserialize-eq-parse_response_example :
    deserialize little_host sample_wire ≡ parse_response sample_wire
deserialize-eq-parse_response_example =
    deserialize-eq-parse_response little_host sample_wire little_host-IsNetworkOrder
      sample_wire-IsBytes

deserialize_iff_example : (deserialize little_host sample_wire ≡ ok sample_response) ↔ (
    IsResponse sample_response
    × ((rest : Text) × IsBytes rest × (write_response sample_response rest ≡ sample_wire)))
deserialize_iff_example =
    deserialize_iff little_host sample_wire sample_response little_host-IsNetworkOrder
      sample_wire-IsBytes

abbrev waiting : World machine
waiting = world no_files sample_wire []

receive_response-write_response_example :
    (s : machine.Socket) × (receive_response machine waiting
      ≡ (ok sample_response, record waiting { socket = s }))
    × (machine_stream.pending s ≡ 1 ∷ 2 ∷ [])
receive_response-write_response_example =
    receive_response-write_response machine machine_stream little_host-IsNetworkOrder waiting
      sample_response (1 ∷ 2 ∷ []) sample-IsResponse (omega arith, (omega arith, tt)) refl

-- The file name of the sample has no NUL in its 255 bytes.
get_file_name-deserialize_unterminated_example : get_file_name sample_response.payload ≡ none
unfolding write_response from_be be_bytes
get_file_name-deserialize_unterminated_example =
    get_file_name-deserialize_unterminated big_host sample_wire sample_response
      big_host-IsNetworkOrder sample_wire-IsBytes
      (All-replicate {A = ℕ} (λ b. b ≢ 0) 255 98 (λ e. ground arith)) sample_read
