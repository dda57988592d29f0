-- ===== src/Protocol/Bytes.antt =====
-- The bytes of unsigned fields in memory, and the conversion functions of <arpa/inet.h>, which the
-- repository does not define: they are fields of `Host`, with their documented behaviour.
use encrypted_backup_client.Base.{
  ℕ, zero, suc, ◌+◌, ◌*◌, ◌/◌, ◌%◌, ◌^◌, ◌<◌, ◌≡◌, refl, [], ◌∷◌, length, arith, Text, IsBytes,
}

-- The w bytes of a value, lowest first.
unfoldable pub le_bytes : ℕ → ℕ → Text
le_bytes zero v = []
le_bytes (suc w) v = (v % 256) ∷ le_bytes w (v / 256)

-- The value of bytes, lowest first.
unfoldable pub from_le : Text → ℕ
from_le [] = 0
from_le (b ∷ bs) = b + 256 * from_le bs

-- The value of bytes in network byte order, highest first.
unfoldable pub from_be_acc : ℕ → Text → ℕ
from_be_acc acc [] = acc
from_be_acc acc (b ∷ bs) = from_be_acc (acc * 256 + b) bs

unfoldable pub from_be : Text → ℕ
unfolding from_be_acc
from_be bs = from_be_acc 0 bs

-- The w bytes of a value in network byte order.
unfoldable pub be_bytes_acc : ℕ → ℕ → Text → Text
be_bytes_acc zero v acc = acc
be_bytes_acc (suc w) v acc = be_bytes_acc w (v / 256) ((v % 256) ∷ acc)

unfoldable pub be_bytes : ℕ → ℕ → Text
unfolding be_bytes_acc
be_bytes w v = be_bytes_acc w v []

pub data ByteOrder : Type 0 where
  little big : ByteOrder

-- `reinterpret_cast<const char*>(&value)`: the object representation of a field of w bytes.
unfoldable pub object_bytes : ByteOrder → ℕ → ℕ → Text
unfolding le_bytes be_bytes
object_bytes little w v = le_bytes w v
object_bytes big w v = be_bytes w v

-- `std::memcpy(&value, bytes, w)`: the value that the bytes represent.
unfoldable pub object_value : ByteOrder → Text → ℕ
unfolding from_le from_be
object_value little bs = from_le bs
object_value big bs = from_be bs

pub record Host : Type 0 where
  pub order : ByteOrder
  pub ntohs : ℕ → ℕ
  pub ntohl : ℕ → ℕ

-- "The ntohs and ntohl functions convert values from network byte order to host byte order."
pub record IsNetworkOrder (h : Host) : Type 0 where
  pub ntohs-object_value :
      (bs : Text) → IsBytes bs → length bs ≡ 2 → h.ntohs (object_value h.order bs) ≡ from_be bs
  pub ntohl-object_value :
      (bs : Text) → IsBytes bs → length bs ≡ 4 → h.ntohl (object_value h.order bs) ≡ from_be bs

-- Both kinds of host meet the assumption.
abbrev pub little_host : Host
little_host = record {
  order = little;
  ntohs = λ v. v % 256 * 256 + v / 256;
  ntohl = λ v. ((v % 256 * 256 + v / 256 % 256) * 256 + v / 65536 % 256) * 256 + v / 16777216 % 256;
}

abbrev pub big_host : Host
big_host = record { order = big; ntohs = λ v. v; ntohl = λ v. v }

little_ntohs :
    (bs : Text)
    → IsBytes bs
    → length bs ≡ 2
    → little_host.ntohs (object_value little bs) ≡ from_be bs
unfolding object_value
little_ntohs [] h l = absurd (omega arith)
little_ntohs (a ∷ []) h l = absurd (omega arith)
little_ntohs (a ∷ b ∷ []) h l = omega arith
little_ntohs (a ∷ b ∷ c ∷ bs) h l = absurd (omega arith)

little_ntohl :
    (bs : Text)
    → IsBytes bs
    → length bs ≡ 4
    → little_host.ntohl (object_value little bs) ≡ from_be bs
unfolding object_value
little_ntohl [] h l = absurd (omega arith)
little_ntohl (a ∷ []) h l = absurd (omega arith)
little_ntohl (a ∷ b ∷ []) h l = absurd (omega arith)
little_ntohl (a ∷ b ∷ c ∷ []) h l = absurd (omega arith)
little_ntohl (a ∷ b ∷ c ∷ d ∷ []) h l = omega arith
little_ntohl (a ∷ b ∷ c ∷ d ∷ e ∷ bs) h l = absurd (omega arith)

pub little_host-IsNetworkOrder : IsNetworkOrder little_host
little_host-IsNetworkOrder = record {
  ntohs-object_value = little_ntohs;
  ntohl-object_value = little_ntohl;
}

pub big_host-IsNetworkOrder : IsNetworkOrder big_host
unfolding object_value
big_host-IsNetworkOrder = record {
  ntohs-object_value = λ bs h l. refl;
  ntohl-object_value = λ bs h l. refl;
}

pub length-le_bytes : (w v : ℕ) → length (le_bytes w v) ≡ w
unfolding le_bytes
length-le_bytes zero v = refl
length-le_bytes (suc w) v = omega (arith, length-le_bytes w (v / 256))

length-be_bytes_acc : (w v : ℕ) (acc : Text) → length (be_bytes_acc w v acc) ≡ w + length acc
unfolding be_bytes_acc
length-be_bytes_acc zero v acc = omega arith
length-be_bytes_acc (suc w) v acc = omega (arith, length-be_bytes_acc w (v / 256) ((v % 256) ∷ acc))

pub length-be_bytes : (w v : ℕ) → length (be_bytes w v) ≡ w
unfolding be_bytes
length-be_bytes w v = omega (arith, length-be_bytes_acc w v [])

pub length-object_bytes : (o : ByteOrder) (w v : ℕ) → length (object_bytes o w v) ≡ w
unfolding object_bytes
length-object_bytes little w v = length-le_bytes w v
length-object_bytes big w v = length-be_bytes w v

IsBytes-be_bytes_acc : (w v : ℕ) (acc : Text) → IsBytes acc → IsBytes (be_bytes_acc w v acc)
unfolding be_bytes_acc
IsBytes-be_bytes_acc zero v acc h = h
IsBytes-be_bytes_acc (suc w) v acc h =
    IsBytes-be_bytes_acc w (v / 256) ((v % 256) ∷ acc) (omega arith, h)

pub IsBytes-be_bytes : (w v : ℕ) → IsBytes (be_bytes w v)
unfolding be_bytes
IsBytes-be_bytes w v = IsBytes-be_bytes_acc w v [] tt

pub from_be-be_bytes_one : (v : ℕ) → v < 2 ^ 8 → from_be (be_bytes 1 v) ≡ v
unfolding from_be be_bytes
from_be-be_bytes_one v h = omega arith

pub from_be-be_bytes_two : (v : ℕ) → v < 2 ^ 16 → from_be (be_bytes 2 v) ≡ v
unfolding from_be be_bytes
from_be-be_bytes_two v h = omega arith

pub from_be-be_bytes_four : (v : ℕ) → v < 2 ^ 32 → from_be (be_bytes 4 v) ≡ v
unfolding from_be be_bytes
from_be-be_bytes_four v h = omega arith

pub object_value-object_bytes_one :
    (o : ByteOrder) (v : ℕ) → v < 2 ^ 8 → object_value o (object_bytes o 1 v) ≡ v
unfolding object_value object_bytes
object_value-object_bytes_one little v h = omega arith
object_value-object_bytes_one big v h = omega arith

pub object_value-object_bytes_two :
    (o : ByteOrder) (v : ℕ) → v < 2 ^ 16 → object_value o (object_bytes o 2 v) ≡ v
unfolding object_value object_bytes
object_value-object_bytes_two little v h = omega arith
object_value-object_bytes_two big v h = omega arith

pub object_value-object_bytes_four :
    (o : ByteOrder) (v : ℕ) → v < 2 ^ 32 → object_value o (object_bytes o 4 v) ≡ v
unfolding object_value object_bytes
object_value-object_bytes_four little v h = omega arith
object_value-object_bytes_four big v h = omega arith
