-- ===== src/Base/Decimal.antt =====
-- Decimal digits of natural numbers: printing, reading, and their round trip.
use Prim.Native.Nat.{ℕ, zero, suc, ◌+◌, ◌-◌, ◌*◌, ◌/◌, ◌%◌, ◌^◌, ◌≤◌, ◌<◌}
use mathlib.Core.Path.{◌≡◌, refl}
use mathlib.Core.Bool.{Bool, ◌&&◌}
use mathlib.Core.Logic.{inl, inr}
use mathlib.Core.List.{List, [], ◌∷◌, ◌++◌}
use native.Mathlib.Omega.{arith}
use native.Mathlib.Nat.{pow-suc}
use nwaku.Base.Tests.{leb, ltb, ltb→lt, lt→ltb, if◌then◌else◌, Bool-cases}
use nwaku.Base.Lists.{length, length-append, All, All-append}

abbrev pub is_digit : ℕ → Bool
is_digit c = leb b'0' c && leb c b'9'

abbrev pub IsDigit : ℕ → Type 0
IsDigit c = (b'0' ≤ c) × (c ≤ b'9')

-- The digits of `n`, the first one first. Fuel `n + 1` is enough.
pub digits_of : ℕ → ℕ → List ℕ
digits_of zero n = []
digits_of (suc fuel) n =
    let front = digits_of fuel (n / 10) in
    if ltb n 10 then (n + b'0') ∷ [] else front ++ (n % 10 + b'0') ∷ []

unfoldable pub print : ℕ → List ℕ
unfolding digits_of
print n = digits_of (suc n) n

-- The number that digits stand for, from an accumulator.
unfoldable pub read : ℕ → List ℕ → ℕ
read acc [] = acc
read acc (c ∷ cs) = read (acc * 10 + (c - b'0')) cs

pub read-append : (acc : ℕ) (xs ys : List ℕ) → read acc (xs ++ ys) ≡ read (read acc xs) ys
unfolding read
read-append acc [] ys = refl
read-append acc (x ∷ xs) ys = read-append (acc * 10 + (x - b'0')) xs ys

read-digits_of : (fuel n : ℕ) → n < fuel → read 0 (digits_of fuel n) ≡ n
unfolding digits_of
read-digits_of zero n h = absurd (omega arith)
read-digits_of (suc fuel) n h = elim (Bool-cases (ltb n 10)) [
  | inl small ↦ rw small (unfold read in omega (arith, ltb→lt n 10 small))
  | inr large ↦
      rw
        (
          large,
          read-append 0 (digits_of fuel (n / 10)) ((n % 10 + b'0') ∷ []),
          read-digits_of fuel (n / 10) (ground arith),
        )
        (unfold read in omega arith)
]

-- Reading what was printed gives the number back.
pub read-print : (n : ℕ) → read 0 (print n) ≡ n
unfolding print
read-print n = read-digits_of (suc n) n (omega arith)

digits_of-IsDigit : (fuel n : ℕ) → All IsDigit (digits_of fuel n)
unfolding digits_of
digits_of-IsDigit zero n = tt
digits_of-IsDigit (suc fuel) n = elim (Bool-cases (ltb n 10)) [
  | inl small ↦ rw small (omega (arith, ltb→lt n 10 small))
  | inr large ↦ rw large (
      All-append IsDigit (digits_of fuel (n / 10)) _ (digits_of-IsDigit fuel (n / 10))
        (omega arith))
]

length-digits_of : (fuel k n : ℕ) → n < 10 ^ suc k → length (digits_of fuel n) ≤ suc k
unfolding digits_of
length-digits_of zero k n h = omega arith
length-digits_of (suc fuel) zero n h = rw (lt→ltb n 10 (omega arith)) (omega arith)
length-digits_of (suc fuel) (suc k) n h = elim (Bool-cases (ltb n 10)) [
  | inl small ↦ rw small (omega arith)
  | inr large ↦ rw large (
      omega (
        arith,
        length-append (digits_of fuel (n / 10)) ((n % 10 + b'0') ∷ []),
        length-digits_of fuel k (n / 10) (omega (arith, pow-suc 10 (suc k))),
      ))
]

pub length-print : (k n : ℕ) → n < 10 ^ suc k → length (print n) ≤ suc k
unfolding print
length-print k n h = length-digits_of (suc n) k n h

pub print-IsDigit : (n : ℕ) → All IsDigit (print n)
unfolding print
print-IsDigit n = digits_of-IsDigit (suc n) n

-- A printed number has a first digit.
pub print_cons : (n : ℕ) → (c : ℕ) × (cs : List ℕ) × (print n ≡ c ∷ cs)
unfolding print digits_of
print_cons n = elim (Bool-cases (ltb n 10)) [
  | inl small ↦ (n + b'0', [], rw small)
  | inr large ↦
      let (c, cs, is) = cons_lem (digits_of n (n / 10)) (n % 10 + b'0') in (c, cs, rw large is)
]
  where
    cons_lem :
        (front : List ℕ) (last : ℕ) → (c : ℕ) × (cs : List ℕ) × ((front ++ last ∷ []) ≡ c ∷ cs)
    cons_lem [] last = (last, [], refl)
    cons_lem (x ∷ xs) last = (x, xs ++ last ∷ [], refl)
