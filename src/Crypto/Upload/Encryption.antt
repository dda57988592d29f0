-- ===== src/Crypto/Upload/Encryption.antt =====
-- The files that `encrypt_file` encrypts (src/crypto/FileAuthentication.cpp).
use encrypted_backup_client.Base.{
  ℕ, ◌≤◌, ◌≡◌, ◌↔◌, refl, sym, ap, ◌∙◌, Bool-cases, inl, inr, Option, none, some, List, ltb, ◌==◌,
  length, take, length-take_le, le→ltb, arith, Text, text, Result, ok, ok-injective,
}
use encrypted_backup_client.Protocol.Types.{max_file_size}
use encrypted_backup_client.System.State.{>>=-eq-ok, lift-eq-ok}
use encrypted_backup_client.System.Platform.{Platform}
use encrypted_backup_client.System.World.{World, StoredFile, resolve}
use encrypted_backup_client.System.Files.{aes_key_file, opened, open_file}
use encrypted_backup_client.Registration.Credentials.{
  open_input_file, read_required_line, load_aes_key,
}
use encrypted_backup_client.Crypto.Aes.{AesWrapper, make_aes, encrypt}
use encrypted_backup_client.Crypto.Upload.{Encrypted, sized, read_content, encrypt_file}

-- What `encrypt_file` hands back for the file at a path: the bytes up to the size that the file
-- reports, at most 20 MiB, and their encryption under the stored key of 32 bytes. Of the state the
-- random pool is drawn from, nothing else.
pub record IsEncryption (P : Platform) (file_path : Text) (e : Encrypted) (s w : World P)
    : Type 0 where
  pub file : StoredFile
  pub key : Text
  pub found : s.files (resolve s file_path) ≡ some file
  pub measured : file.end_position ≡ some e.file_size
  pub small : e.file_size ≤ max_file_size
  pub whole : e.file_size ≤ length file.content
  pub taken : e.file_data ≡ take e.file_size file.content
  pub keyed : load_aes_key P aes_key_file s ≡ (ok key, s)
  pub key_sized : length key ≡ 32
  pub sealed : (e.encrypted_file, w.random) ≡ encrypt P (record { key = key }) e.file_data s.random
  pub kept : w ≡ record s { random = w.random }

module _ (P : Platform) where
  sized-eq-ok :
      (file_name : Text) (end_position : Option ℕ) (size : ℕ)
      → sized file_name end_position ≡ ok size
      → (end_position ≡ some size) × (size ≤ max_file_size)
  sized-eq-ok file_name none size h = cc
  sized-eq-ok file_name (some n) size h = elim (Bool-cases (ltb max_file_size n)) [
    | inl large ↦ let bad = rw large at h in cc
    | inr small ↦ let e : n ≡ size = ok-injective (rw small at h) in (ap some e, ground arith)
  ]

  read_content-eq-ok :
      (file_name content file_data : Text) (size : ℕ)
      → read_content file_name content size ≡ ok file_data
      → (size ≤ length content) × (file_data ≡ take size content)
  read_content-eq-ok file_name content file_data size h =
      elim (Bool-cases (ltb (length content) size)) [
        | inl short ↦ let bad = rw short at h in cc
        | inr long ↦ (ground arith, sym (ok-injective (rw long at h)))
      ]

  make_aes-eq-ok :
      (key : Text) (aes : AesWrapper)
      → make_aes (some key) ≡ ok aes
      → (length key ≡ 32) × (aes ≡ record { key = key })
  unfolding make_aes
  make_aes-eq-ok key aes h = elim (Bool-cases (length key == 32)) [
    | inl whole ↦ (ground arith, sym (ok-injective (rw whole at h)))
    | inr other ↦ let bad = rw other at h in cc
  ]

  open_file-eq-ok :
      (path name : Text) (file : StoredFile) (s t : World P)
      → open_file path name s ≡ (ok file, t)
      → (s.files (resolve s path) ≡ some file) × (s ≡ t)
  unfolding open_file
  open_file-eq-ok path name file s t h =
      let stays : s ≡ t = ap (λ (x : Result StoredFile × World P). x.1) h in
      (go (s.files (resolve s path)) (ap (λ (x : Result StoredFile × World P). x.0) h), stays)
    where
      go : (found : Option StoredFile) → opened name found ≡ ok file → found ≡ some file
      go none h = cc
      go (some other) h = ap some (ok-injective h)

  -- Loading the key changes nothing.
  load_aes_key-eq-ok :
      (name key : Text) (s v : World P) → load_aes_key P name s ≡ (ok key, v) → s ≡ v
  unfolding load_aes_key open_input_file
  load_aes_key-eq-ok name key s v h =
      let (ls, t, read, h1) = >>=-eq-ok (open_input_file P name) _ s h in
      let (file, u, found, h2) = >>=-eq-ok (open_file name name) _ s read in
      let (line, taken, h3) =
        lift-eq-ok (read_required_line P ls name (text "Failed to read AES key")) _ t h1 in
      (open_file-eq-ok name name file s u found).1
      ∙ ap (λ (x : Result (List Text) × World P). x.1) h2
      ∙ ap (λ (x : Result Text × World P). x.1) h3

  -- The last step, after all checks have passed.
  drawn-IsEncryption :
      (file_path key : Text) (file : StoredFile) (aes : AesWrapper) (size : ℕ) (file_data : Text)
      (e : Encrypted) (s v w : World P)
      → s.files (resolve s file_path) ≡ some file
      → (file.end_position ≡ some size) × (size ≤ max_file_size)
      → (size ≤ length file.content) × (file_data ≡ take size file.content)
      → load_aes_key P aes_key_file s ≡ (ok key, s)
      → (length key ≡ 32) × (aes ≡ record { key = key })
      → s ≡ v
      → record {
        encrypted_file = (encrypt P aes file_data v.random).0;
        file_size = size;
        file_data = file_data;
      }
        ≡ e
      → record v { random = (encrypt P aes file_data v.random).1 } ≡ w
      → IsEncryption P file_path e s w
  drawn-IsEncryption file_path key file aes size file_data e s v w found sizes reads keyed made back
        result drawn =
      rw (← result, ← drawn, ← back, made.1)
        (record {
          file = file;
          key = key;
          found = found;
          measured = sizes.0;
          small = sizes.1;
          whole = reads.0;
          taken = reads.1;
          keyed = keyed;
          key_sized = made.0;
          sealed = refl;
          kept = refl;
        })

  encrypt_file-IsEncryption :
      (file_path file_name : Text) (e : Encrypted) (s w : World P)
      → encrypt_file P file_path file_name s ≡ (ok e, w)
      → IsEncryption P file_path e s w
  unfolding encrypt_file
  encrypt_file-IsEncryption file_path file_name e s w h =
      let (file, t, read, h1) = >>=-eq-ok (open_file file_path file_name) _ s h in
      let (size, sizes, h2) = lift-eq-ok (sized file_name file.end_position) _ t h1 in
      let (file_data, reads, h3) = lift-eq-ok (read_content file_name file.content size) _ t h2 in
      let (key, v, loads, h4) = >>=-eq-ok (load_aes_key P aes_key_file) _ t h3 in
      let (aes, made, h5) = lift-eq-ok (make_aes (some key)) _ v h4 in
      let (found, stays) = open_file-eq-ok file_path file_name file s t read in
      let back : t ≡ v = load_aes_key-eq-ok aes_key_file key t v loads in
      let loaded : load_aes_key P aes_key_file s ≡ (ok key, s) =
        ap (load_aes_key P aes_key_file) stays
        ∙ loads
        ∙ ap (λ (u : World P). (ok key, u)) (sym (stays ∙ back)) in
      drawn-IsEncryption file_path key file aes size file_data e s v w found
        (sized-eq-ok file_name file.end_position size sizes)
        (read_content-eq-ok file_name file.content file_data size reads) loaded
        (make_aes-eq-ok key aes made) (stays ∙ back)
        (ok-injective (ap (λ (x : Result Encrypted × World P). x.0) h5))
        (ap (λ (x : Result Encrypted × World P). x.1) h5)

  encrypt_file-of_encryption :
      (file_path file_name : Text) (e : Encrypted) (s w : World P)
      → IsEncryption P file_path e s w
      → encrypt_file P file_path file_name s ≡ (ok e, w)
  unfolding encrypt_file open_file make_aes
  encrypt_file-of_encryption file_path file_name e s w p =
      rw
        (
          p.found,
          p.measured,
          le→ltb max_file_size e.file_size p.small,
          le→ltb (length p.file.content) e.file_size p.whole,
          p.keyed,
          p.key_sized,
          ← p.taken,
          ← p.sealed,
          ← p.kept,
        )
        refl

  -- A file is encrypted exactly when it can be opened, its size is known, at most 20 MiB and no more
  -- than can be read, and the stored AES key is loaded and has 32 bytes; and then the result is the
  -- encryption of the bytes read.
  pub encrypt_file_iff :
      (file_path file_name : Text) (e : Encrypted) (s w : World P)
      → (encrypt_file P file_path file_name s ≡ (ok e, w)) ↔ IsEncryption P file_path e s w
  encrypt_file_iff file_path file_name e s w = (
    encrypt_file-IsEncryption file_path file_name e s w,
    encrypt_file-of_encryption file_path file_name e s w,
  )

  -- What an encryption that succeeded under a known key has gone through.
  pub encrypt_file-eq-ok :
      (file_path file_name key : Text) (e : Encrypted) (s w : World P)
      → encrypt_file P file_path file_name s ≡ (ok e, w)
      → load_aes_key P aes_key_file s ≡ (ok key, s)
      → (e.encrypted_file ≡ (encrypt P (record { key = key }) e.file_data s.random).0)
        × (e.file_size ≤ max_file_size)
        × (length e.file_data ≡ e.file_size)
        × (w ≡ record s { random = w.random })
  encrypt_file-eq-ok file_path file_name key e s w h loaded =
      let p = encrypt_file-IsEncryption file_path file_name e s w h in
      let same : p.key ≡ key =
        ok-injective (ap (λ (x : Result Text × World P). x.0) (sym p.keyed ∙ loaded)) in
      (
        rw (← same) (ap (λ (x : Text × P.Random). x.0) p.sealed),
        p.small,
        rw p.taken (length-take_le e.file_size p.file.content p.whole),
        p.kept,
      )
