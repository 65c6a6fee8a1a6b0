-- ===== src/Prelude/Bits.antt =====
-- Exclusive or on 7-bit values: the checksum's only law that the protocol needs.
use Prim.Native.Nat.{ℕ, zero, suc, ◌<◌, bit_xor}
use mathlib.Core.Path.{◌≡◌, refl}
use mathlib.Core.Bool.{Bool, true, false}
use native.Mathlib.Omega.{arith}
use claw.Prelude.Tests.{if◌then◌else◌, ltb, ltb→lt}

-- The test holds of every number below the limit.
every : (ℕ → Bool) → ℕ → Bool
every test zero = true
every test (suc limit) = if test limit then every test limit else false

every_at : (test : ℕ → Bool) (limit k : ℕ) → k < limit → every test limit ≡ true → test k ≡ true
unfolding every
every_at test zero k below e = ground arith
every_at test (suc limit) k below e = ground (arith, every_at test limit k)

stays_low : ℕ → ℕ → Bool
stays_low b a = ltb (bit_xor a b) 128

-- The whole table of 128 by 128 values, by evaluation.
row : ℕ → Bool
unfolding every stays_low
row b = every (stays_low b) 128

whole_table : every row 128 ≡ true
unfolding every row stays_low
whole_table = refl

-- The exclusive or of two 7-bit values has 7 bits.
pub bit_xor-lt : (a b : ℕ) → a < 128 → b < 128 → bit_xor a b < 128
unfolding row stays_low
bit_xor-lt a b ha hb =
    let of_row : row b ≡ true = every_at row 128 b hb whole_table in
    ltb→lt (bit_xor a b) 128 (every_at (stays_low b) 128 a ha of_row)
