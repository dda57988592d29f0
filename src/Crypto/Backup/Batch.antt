-- ===== src/Crypto/Backup/Batch.antt =====
-- The backup of all selected files (FileAuthentication::backup_files of
-- src/crypto/FileAuthentication.cpp).
use encrypted_backup_client.Base.{
  ℕ, ◌+◌, ◌-◌, ◌/◌, ◌≡◌, refl, Bool, true, false, some, List, [], ◌∷◌, map, length, Text, IsBytes,
  ok,
}
use encrypted_backup_client.Protocol.Bytes.{IsNetworkOrder}
use encrypted_backup_client.Protocol.ResponseCode
use encrypted_backup_client.Protocol.Request.{RequestHeader, init_header, set_user_id}
use encrypted_backup_client.Protocol.Response.{Response}
use encrypted_backup_client.Protocol.Response.RoundTrip.{write_response, IsBytes-write_response}
use encrypted_backup_client.Utils.Validation.{is_valid_filename}
use encrypted_backup_client.System.Platform.{Platform}
use encrypted_backup_client.System.World.{World, Line, StoredFile, resolve, exists, join_path}
use encrypted_backup_client.System.Files.{cl_info_file}
use encrypted_backup_client.Registration.Credentials.{load_user_id}
use encrypted_backup_client.Crypto.Upload.{Auth, Encrypted, get_chunk_size, upload_request}
use encrypted_backup_client.Crypto.Upload.Chunks.{last_request}
use encrypted_backup_client.Crypto.Upload.Encryption.{IsEncryption}
use encrypted_backup_client.Crypto.Upload.Moved.{stirred, encrypt_file-moved}
use encrypted_backup_client.Crypto.Backup.{backup_one, backup_files}
use encrypted_backup_client.Crypto.Backup.Answers.{
  IsDuplex, IsAnswer, pending, load_user_id-stirred,
}
use encrypted_backup_client.Crypto.Backup.Delivery.{backup_file-moved}

-- What goes over the wire and back for one file: its encryption, and the two answers of the server.
pub record Delivery (P : Platform) : Type 0 where
  pub file_name : Text
  pub encrypted : Encrypted
  pub random : P.Random
  pub confirmation : Response
  pub acknowledgment : Response

-- What the server sends for the files in their order, in front of the rest.
abbrev pub answers : {P : Platform} → List (Delivery P) → Text → Text
answers [] rest = rest
answers (d ∷ ds) rest =
    write_response d.confirmation (write_response d.acknowledgment (answers ds rest))

-- The size that the client keeps of an upload.
abbrev pub kept_size : RequestHeader → Text → Encrypted → ℕ
kept_size header file_name e =
    let c = get_chunk_size e.file_size in
    let total = (length e.encrypted_file + c - 1) / c in
    (last_request e.encrypted_file c total 1
      (upload_request header file_name e.file_size total)).payload.encrypted_chunk_size

-- The file can be encrypted, with the random pool as it is then, and the server confirms its checksum
-- and size and acknowledges the report, both for this user.
pub record IsDelivery (P : Platform) (dir_name user_id : Text) (header : RequestHeader)
    (w : World P) (random : P.Random) (d : Delivery P) : Type 0 where
  pub named : is_valid_filename d.file_name ≡ true
  pub encryption :
      IsEncryption P
        (join_path dir_name d.file_name)
        d.encrypted
        (record w { random = random })
        (record w { random = d.random })
  pub confirms : IsAnswer user_id ResponseCode.upload_received d.confirmation
  pub summed : d.confirmation.payload.checksum ≡ P.crc32 d.encrypted.file_data
  pub sized : d.confirmation.payload.encrypted_file_size ≡ kept_size header d.file_name d.encrypted
  pub acknowledges : IsAnswer user_id ResponseCode.ack d.acknowledgment

-- The same for the files in their order, each with the random pool that the one before it left.
abbrev pub AreDeliveries :
    (P : Platform) (dir_name user_id : Text) (header : RequestHeader) (w : World P)
    → P.Random
    → List (Delivery P)
    → Type 0
AreDeliveries P dir_name user_id header w random [] = Unit {0}
AreDeliveries P dir_name user_id header w random (d ∷ ds) =
    IsDelivery P dir_name user_id header w random d
    × AreDeliveries P dir_name user_id header w d.random ds

module _ (P : Platform) (duplex : IsDuplex P) (net : IsNetworkOrder P.host) where
  IsBytes-answers :
      (dir_name user_id : Text) (header : RequestHeader) (w : World P) (random : P.Random)
      (ds : List (Delivery P)) (rest : Text)
      → AreDeliveries P dir_name user_id header w random ds
      → IsBytes rest
      → IsBytes (answers ds rest)
  IsBytes-answers dir_name user_id header w random [] rest h bytes = bytes
  IsBytes-answers dir_name user_id header w random (d ∷ ds) rest h bytes =
      IsBytes-write_response d.confirmation (write_response d.acknowledgment (answers ds rest))
        h.0.confirms.valid
        (IsBytes-write_response d.acknowledgment (answers ds rest) h.0.acknowledges.valid
          (IsBytes-answers dir_name user_id header w d.random ds rest h.1 bytes))

  module _ (dir_name user_id : Text) (header : RequestHeader) (w : World P) where
    stored-exists :
        (v : World P) (name : Text) (file : StoredFile)
        → v.files (resolve v name) ≡ some file
        → exists name v ≡ (ok true, v)
    unfolding exists
    stored-exists v name file found = rw (found, exists) refl

    backup_one-delivered :
        (d : Delivery P) (rest : Text) (random : P.Random) (t : P.Socket) (out : List Line) (n : ℕ)
        (b : Bool)
        → load_user_id P cl_info_file w ≡ (ok user_id, w)
        → set_user_id user_id init_header ≡ ok header
        → IsDelivery P dir_name user_id header w random d
        → IsBytes rest
        → pending P duplex net t
          ≡ write_response d.confirmation (write_response d.acknowledgment rest)
        → (u : P.Socket) × (more : List Line) × (m : ℕ) × (backup_one P dir_name d.file_name
              (record { world = stirred w t out random; encrypted_file_size = n; crc_error = b })
            ≡ (
              ok tt,
              record {
                world = stirred w u more d.random;
                encrypted_file_size = m;
                crc_error = false;
              },
            ))
          × (pending P duplex net u ≡ rest)
    unfolding backup_one
    backup_one-delivered d rest random t out n b loaded set p bytes waiting =
        let (u, more, m, done, left) =
          backup_file-moved P duplex net (join_path dir_name d.file_name) d.file_name user_id
            d.encrypted header
            (record { world = stirred w t out random; encrypted_file_size = n; crc_error = b })
            (stirred w t out d.random) d.confirmation d.acknowledgment rest
            (encrypt_file-moved P (join_path dir_name d.file_name) d.file_name d.encrypted w random
              d.random t out p.encryption)
            (load_user_id-stirred P duplex net w user_id t out d.random loaded) set p.confirms
            p.summed p.sized p.acknowledges bytes waiting in
        (
          u,
          more,
          m,
          rw
              (
                p.named,
                stored-exists (stirred w t out random) (join_path dir_name d.file_name)
                    p.encryption.file p.encryption.found,
                done,
              )
              refl,
          left,
        )

    batch-delivered :
        (ds : List (Delivery P)) (rest : Text) (random : P.Random) (t : P.Socket) (out : List Line)
        (n : ℕ) (b : Bool)
        → load_user_id P cl_info_file w ≡ (ok user_id, w)
        → set_user_id user_id init_header ≡ ok header
        → AreDeliveries P dir_name user_id header w random ds
        → IsBytes rest
        → pending P duplex net t ≡ answers ds rest
        → (u : Auth P) × (backup_files P dir_name
              (map (λ (d : Delivery P). d.file_name) ds)
              (record { world = stirred w t out random; encrypted_file_size = n; crc_error = b })
            ≡ (ok tt, u))
          × (pending P duplex net u.world.socket ≡ rest)
    unfolding backup_files
    batch-delivered [] rest random t out n b loaded set h bytes waiting = (_, refl, waiting)
    batch-delivered (d ∷ ds) rest random t out n b loaded set h bytes waiting =
        let (u, more, m, done, left) =
          backup_one-delivered d (answers ds rest) random t out n b loaded set h.0
            (IsBytes-answers dir_name user_id header w d.random ds rest h.1 bytes) waiting in
        let (v, others, behind) =
          batch-delivered ds rest d.random u more m false loaded set h.1 bytes left in
        (v, rw done others, behind)

  -- On a connected socket, when the client's user ID is stored and is hexadecimal, every selected file
  -- has a valid name and can be encrypted, and the server has answered each in turn, for this user,
  -- with a confirmation of its checksum and of the size that the client keeps and with an
  -- acknowledgment, the backup of the list returns without an exception, and of what the server sends
  -- exactly these answers are consumed.
  pub backup_files-delivered :
      (dir_name user_id : Text) (header : RequestHeader) (s : Auth P) (ds : List (Delivery P))
      (rest : Text)
      → load_user_id P cl_info_file s.world ≡ (ok user_id, s.world)
      → set_user_id user_id init_header ≡ ok header
      → AreDeliveries P dir_name user_id header s.world s.world.random ds
      → IsBytes rest
      → pending P duplex net s.world.socket ≡ answers ds rest
      → (u : Auth P) × (backup_files P dir_name (map (λ (d : Delivery P). d.file_name) ds) s
          ≡ (ok tt, u))
        × (pending P duplex net u.world.socket ≡ rest)
  backup_files-delivered dir_name user_id header s ds rest loaded set h bytes waiting =
      batch-delivered dir_name user_id header s.world ds rest s.world.random s.world.socket
        s.world.output s.encrypted_file_size s.crc_error loaded set h bytes waiting
