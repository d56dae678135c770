-- ===== src/Base/Bits.antt =====
-- Masks, shifts and unions of bits as arithmetic, at every width.
use Prim.Native.Nat.{
  ℕ, zero, suc, ◌+◌, ◌-◌, ◌*◌, ◌/◌, ◌%◌, ◌^◌, ◌≤◌, ◌<◌, min, max, bit_and, bit_or, digits,
  bit_and-bitwise, bit_or-bitwise,
}
use mathlib.Core.Path.{◌≡◌, refl, ap, sym, ◌∙◌}
use native.Mathlib.Omega.{arith}
use native.Mathlib.Nat.{pow-suc, div-add-mod', div-div-eq-div-mul}

-- The recursion on binary digits that the native operations stand for, under any rule `op` for a
-- pair of digits: fuel beyond the first number changes nothing.
module _ (tail : ℕ → ℕ) (op : ℕ → ℕ → ℕ) where
  spare_fuel :
      (bound fuel x y : ℕ)
      → fuel ≤ bound
      → x ≤ fuel
      → digits tail op fuel x y ≡ digits tail op x x y
  spare_fuel bound zero zero y lo hi = refl
  spare_fuel bound (suc fuel) zero y lo hi = refl
  spare_fuel bound zero (suc x) y lo hi = absurd (omega arith)
  spare_fuel zero (suc fuel) (suc x) y lo hi = absurd (omega arith)
  spare_fuel (suc bound) (suc fuel) (suc x) y lo hi =
      let half = suc x / 2 in
      rw (
        spare_fuel bound fuel half (y / 2) (omega arith) (omega arith),
        spare_fuel bound x half (y / 2) (omega arith) (omega arith),
      )

  abbrev combined : ℕ → ℕ → ℕ
  combined x y = digits tail op x x y

  lowest_digit :
      (x y : ℕ) → combined (suc x) y ≡ combined (suc x / 2) (y / 2) * 2 + op (suc x % 2) (y % 2)
  lowest_digit x y = rw (spare_fuel x x (suc x / 2) (y / 2) (omega arith) (omega arith))

pub zero-bit_or : (y : ℕ) → bit_or 0 y ≡ y
zero-bit_or y = bit_or-bitwise 0 y

pub zero-bit_and : (y : ℕ) → bit_and 0 y ≡ 0
zero-bit_and y = bit_and-bitwise 0 y

-- The lowest binary digit of a conjunction and of a union.
pub bit_and_step : (x y : ℕ) → bit_and x y ≡ bit_and (x / 2) (y / 2) * 2 + min (x % 2) (y % 2)
bit_and_step zero y = simp bit_and-bitwise (omega arith)
bit_and_step (suc x) y =
    bit_and-bitwise (suc x) y
    ∙ lowest_digit _ min x y
    ∙ ap (λ (t : ℕ). t * 2 + min (suc x % 2) (y % 2)) (sym (bit_and-bitwise (suc x / 2) (y / 2)))

pub bit_or_step : (x y : ℕ) → bit_or x y ≡ bit_or (x / 2) (y / 2) * 2 + max (x % 2) (y % 2)
bit_or_step zero y = simp bit_or-bitwise (omega arith)
bit_or_step (suc x) y =
    bit_or-bitwise (suc x) y
    ∙ lowest_digit _ max x y
    ∙ ap (λ (t : ℕ). t * 2 + max (suc x % 2) (y % 2)) (sym (bit_or-bitwise (suc x / 2) (y / 2)))

-- With a zero on the right all digits are the left number's, or zero.
right_zero : (fuel x : ℕ) → x ≤ fuel → (bit_and x 0 ≡ 0) × (bit_or x 0 ≡ x)
right_zero fuel zero le = (bit_and-bitwise 0 0, bit_or-bitwise 0 0)
right_zero zero (suc x) le = absurd (omega arith)
right_zero (suc fuel) (suc x) le =
    let (none_left, all_left) = right_zero fuel (suc x / 2) (omega arith) in
    (
      omega (arith, none_left, bit_and_step (suc x) 0),
      omega (arith, all_left, bit_or_step (suc x) 0),
    )

pub bit_and-zero : (x : ℕ) → bit_and x 0 ≡ 0
bit_and-zero x = (right_zero x x (omega arith)).0

pub bit_or-zero : (x : ℕ) → bit_or x 0 ≡ x
bit_or-zero x = (right_zero x x (omega arith)).1

-- `x & 0x3F`
pub six_bits : (a : ℕ) → bit_and a 0x3F ≡ a % 64
six_bits a = omega (
  arith,
  bit_and_step a 63,
  bit_and_step (a / 2) 31,
  bit_and_step (a / 2 / 2) 15,
  bit_and_step (a / 2 / 2 / 2) 7,
  bit_and_step (a / 2 / 2 / 2 / 2) 3,
  bit_and_step (a / 2 / 2 / 2 / 2 / 2) 1,
  bit_and-zero (a / 2 / 2 / 2 / 2 / 2 / 2),
)

-- `v << k | b`, where `b` has at most `k` bits.
pub bit_or-shift : (k v b : ℕ) → b < 2 ^ k → bit_or (v * 2 ^ k) b ≡ v * 2 ^ k + b
bit_or-shift zero v b h = rw (← b_zero) (omega (arith, bit_or-zero (v * 1)))
  where
    b_zero : 0 ≡ b
    b_zero = omega arith
bit_or-shift (suc k) v b h = omega (
  arith,
  pow-suc 2 k,
  shifted,
  bit_or_step (v * 2 ^ suc k) b,
  ap (λ (t : ℕ). bit_or t (b / 2)) halved,
  bit_or-shift k v (b / 2) (omega (arith, pow-suc 2 k)),
)
  where
    shifted : v * 2 ^ suc k ≡ v * 2 ^ k * 2
    shifted = omega (arith, ap (λ (t : ℕ). v * t) (pow-suc 2 k))

    halved : v * 2 ^ suc k / 2 ≡ v * 2 ^ k
    halved = omega (arith, shifted)

pub pow-pos : (k : ℕ) → 0 < 2 ^ k
pow-pos zero = omega arith
pow-pos (suc k) = omega (arith, pow-suc 2 k, pow-pos k)

pub pow-le : (k n : ℕ) → k ≤ n → 2 ^ k ≤ 2 ^ n
pow-le zero zero h = omega arith
pow-le (suc k) zero h = absurd (omega arith)
pow-le zero (suc n) h = omega (arith, pow-suc 2 n, pow-le zero n (omega arith))
pow-le (suc k) (suc n) h = omega (arith, pow-suc 2 n, pow-suc 2 k, pow-le k n (omega arith))

-- The remainder by an even number, from the half.
mod-double : (x m : ℕ) → x % (2 * m) ≡ x / 2 % m * 2 + x % 2
mod-double x m =
    let whole : x / (2 * m) * (2 * m) + x % (2 * m) ≡ x = div-add-mod' x (2 * m) in
    let half : x / (2 * m) * m + x / 2 % m ≡ x / 2 =
      rw div-div-eq-div-mul at (div-add-mod' (x / 2) m) in
    omega (arith, whole, half)

-- `x & (2^k - 1)`
pub bit_and-mask : (k x : ℕ) → bit_and x (2 ^ k - 1) ≡ x % 2 ^ k
bit_and-mask zero x = omega (arith, bit_and-zero x)
bit_and-mask (suc k) x =
    let double : 2 ^ suc k ≡ 2 * 2 ^ k = omega (arith, pow-suc 2 k) in
    let half : (2 ^ suc k - 1) / 2 ≡ 2 ^ k - 1 = omega (arith, double) in
    let odd : (2 ^ suc k - 1) % 2 ≡ 1 = omega (arith, double, pow-pos k) in
    rw (bit_and_step x (2 ^ suc k - 1), half, odd, bit_and-mask k (x / 2), double)
      (omega (arith, mod-double x (2 ^ k)))
