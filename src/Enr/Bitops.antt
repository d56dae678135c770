-- ===== src/Enr/Bitops.antt =====
-- `setBit` and `testBit` of Nim's std/bitops on an unsigned number, and how they relate.
use nwaku.Base.{
  ℕ, zero, suc, ◌+◌, ◌*◌, ◌/◌, ◌%◌, ◌^◌, ◌≡◌, arith, bit_and, bit_or, ◌==◌, Bool, false, not, ◌||◌,
}
use nwaku.Base.Bits.{bit_and_step, bit_or_step, bit_and-zero, bit_or-zero, zero-bit_and}
use native.Mathlib.Nat.{pow-suc}

unfoldable pub set_bit : ℕ → ℕ → ℕ
set_bit v bit = bit_or v (2 ^ bit)

unfoldable pub test_bit : ℕ → ℕ → Bool
test_bit v bit = not (bit_and v (2 ^ bit) == 0)

set_bit-zero : (v : ℕ) → set_bit v 0 ≡ v / 2 * 2 + 1
unfolding set_bit
set_bit-zero v = omega (arith, bit_or_step v 1, bit_or-zero (v / 2))

set_bit-suc : (v k : ℕ) → set_bit v (suc k) ≡ set_bit (v / 2) k * 2 + v % 2
unfolding set_bit
set_bit-suc v k =
    let halved : 2 ^ k * 2 / 2 ≡ 2 ^ k = omega arith in
    rw (pow-suc 2 k, bit_or_step v (2 ^ k * 2), halved) (omega arith)

test_bit-zero : (v : ℕ) → test_bit v 0 ≡ (v % 2 == 1)
unfolding test_bit
test_bit-zero v = ground (arith, bit_and_step v 1, bit_and-zero (v / 2))

test_bit-suc : (v k : ℕ) → test_bit v (suc k) ≡ test_bit (v / 2) k
unfolding test_bit
test_bit-suc v k =
    let halved : 2 ^ k * 2 / 2 ≡ 2 ^ k = omega arith in
    rw (pow-suc 2 k, bit_and_step v (2 ^ k * 2), halved) (ground arith)

-- A bit is set after `set_bit` if it is the one that was set, or if it was set before.
pub test_bit-set_bit : (v i k : ℕ) → test_bit (set_bit v i) k ≡ ((i == k) || test_bit v k)
test_bit-set_bit v zero zero = rw (test_bit-zero (set_bit v 0), set_bit-zero v) (ground arith)
test_bit-set_bit v zero (suc k) =
    let halved : (v / 2 * 2 + 1) / 2 ≡ v / 2 = omega arith in
    rw (test_bit-suc (set_bit v 0) k, test_bit-suc v k, set_bit-zero v, halved) (ground arith)
test_bit-set_bit v (suc i) zero =
    rw (test_bit-zero (set_bit v (suc i)), test_bit-zero v, set_bit-suc v i) (ground arith)
test_bit-set_bit v (suc i) (suc k) =
    let halved : (set_bit (v / 2) i * 2 + v % 2) / 2 ≡ set_bit (v / 2) i = omega arith in
    rw
      (
        test_bit-suc (set_bit v (suc i)) k,
        test_bit-suc v k,
        set_bit-suc v i,
        halved,
        test_bit-set_bit (v / 2) i k,
      )
      (ground arith)

pub test_bit_empty : (k : ℕ) → test_bit 0 k ≡ false
unfolding test_bit
test_bit_empty k = rw (zero-bit_and (2 ^ k))
