-- ===== src/Config/Server/Port.antt =====
-- Which numbers of the configuration are taken as a port (src/config/config_handling.cpp).
use encrypted_backup_client.Base.{ℕ, ℤ, pos, negsuc, ◌^◌, ◌<◌, ◌≡◌, ◌↔◌, arith, ok}
use encrypted_backup_client.Base.Int.{low_word, signed_word, to_int}
use encrypted_backup_client.Config.Server.{port_of, checked_port}

checked_port_iff :
    (u p : ℕ) → u < 2 ^ 32 → (checked_port (signed_word u) ≡ ok p) ↔ ((p < 2 ^ 16) × (u ≡ p))
unfolding checked_port signed_word
checked_port_iff u p h = (λ e. ground arith, λ e. ground arith)

low_word-lt : (z : ℤ) → low_word z < 2 ^ 32
unfolding low_word
low_word-lt (pos n) = omega arith
low_word-lt (negsuc n) = omega arith

-- A number is taken as the port p exactly when its low 32 bits are p and p is below 2 ^ 16: the
-- test comes after the conversion to `int`, so it does not see the other bits.
pub port_of_iff : (z : ℤ) (p : ℕ) → (port_of z ≡ ok p) ↔ ((p < 2 ^ 16) × (low_word z ≡ p))
unfolding port_of to_int
port_of_iff z p = checked_port_iff (low_word z) p (low_word-lt z)
