-- ===== src/Base/Int.antt =====
-- Signed integers over the native numbers, and the conversion of a 64-bit value to `int`.
use Prim.Native.Nat.{ℕ, ◌-◌, ◌%◌, ◌^◌}
use encrypted_backup_client.Base.Tests.{ltb, if◌then◌else◌}

-- `negsuc n` is -(n + 1).
pub data ℤ : Type 0 where
  pos : ℕ → ℤ
  negsuc : ℕ → ℤ

-- The low 32 bits of the two's complement representation.
unfoldable pub low_word : ℤ → ℕ
low_word (pos n) = n % 2 ^ 32
low_word (negsuc n) = 2 ^ 32 - 1 - n % 2 ^ 32

-- The number that 32 bits stand for.
unfoldable pub signed_word : ℕ → ℤ
signed_word u = if ltb u (2 ^ 31) then pos u else negsuc (2 ^ 32 - 1 - u)

-- `static_cast<int>` of an `std::int64_t`.
unfoldable pub to_int : ℤ → ℤ
to_int z = signed_word (low_word z)
