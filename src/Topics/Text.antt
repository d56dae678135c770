-- ===== src/Topics/Text.antt =====
-- What the topics take from Nim's std/strutils, and waku/waku_core/topics/parsing.nim.
use nwaku.Base.{
  ℕ, suc, ◌+◌, ◌-◌, ◌*◌, ◌^◌, ◌<◌, ◌≡◌, ◌⊎◌, refl, arith, Bool, true, false, ltb, leb, ◌==◌, ◌&&◌,
  if◌then◌else◌, Option, none, some, List, [], ◌∷◌, ◌++◌, length, codes, All, ==_iff, Bool-cases,
  inl, inr,
}
use nwaku.Base.Int.{ℤ, pos, negsuc, neg}
use nwaku.Base.Decimal.{is_digit, IsDigit, print, read, read-print, print-IsDigit, print_cons}

pub data ParsingError : Type 0 where
  invalid_format : List ℕ → ParsingError
  missing_part : List ℕ → ParsingError

-- A result, or a Defect, which ends the program.
pub data Parsed {ℓ} (A : Type ℓ) : Type ℓ where
  ok : A → Parsed A
  err : ParsingError → Parsed A
  defect : Parsed A

pub Parsed-cases {ℓ} :
    {A : Type ℓ} (r : Parsed A)
    → ((a : A) × (r ≡ ok a)) ⊎ ((e : ParsingError) × (r ≡ err e)) ⊎ (r ≡ defect)
Parsed-cases (ok a) = inl (a, refl)
Parsed-cases (err e) = inr (inl (e, refl))
Parsed-cases defect = inr (inr refl)

unfoldable pub error_text : ParsingError → List ℕ
error_text (invalid_format cause) = codes "invalid format: " ++ cause
error_text (missing_part part) = codes "missing part: " ++ part

unfoldable pub starts_with : List ℕ → List ℕ → Bool
starts_with [] s = true
starts_with (x ∷ xs) [] = false
starts_with (x ∷ xs) (y ∷ ys) = (x == y) && starts_with xs ys

abbrev pub cons_first : ℕ → List (List ℕ) → List (List ℕ)
cons_first c [] = (c ∷ []) ∷ []
cons_first c (w ∷ ws) = (c ∷ w) ∷ ws

unfoldable pub split : ℕ → List ℕ → List (List ℕ)
split sep [] = [] ∷ []
split sep (c ∷ cs) = let rest = split sep cs in if c == sep then [] ∷ rest else cons_first c rest

-- The parts with the separator between them.
unfoldable pub join : ℕ → List (List ℕ) → List ℕ
join sep [] = []
join sep (w ∷ []) = w
join sep (w ∷ v ∷ ws) = w ++ sep ∷ join sep (v ∷ ws)

abbrev pub Without : ℕ → List ℕ → Type 0
Without sep = All (λ c. (c == sep) ≡ false)

join-cons_first : (sep c : ℕ) (ws : List (List ℕ)) → join sep (cons_first c ws) ≡ c ∷ join sep ws
unfolding join
join-cons_first sep c [] = refl
join-cons_first sep c (w ∷ []) = refl
join-cons_first sep c (w ∷ v ∷ ws) = refl

split_cases : (sep : ℕ) (s : List ℕ) → (w : List ℕ) × (ws : List (List ℕ)) × (split sep s ≡ w ∷ ws)
unfolding split
split_cases sep [] = ([], [], refl)
split_cases sep (c ∷ cs) =
    let (w, ws, is) = split_cases sep cs in
    elim (Bool-cases (c == sep)) [
      | inl here ↦ ([], split sep cs, rw here)
      | inr other ↦ (c ∷ w, ws, rw (other, is))
    ]

pub join-split : (sep : ℕ) (s : List ℕ) → join sep (split sep s) ≡ s
unfolding split join
join-split sep [] = refl
join-split sep (c ∷ cs) = elim (Bool-cases (c == sep)) [
  | inl here ↦
      let (w, ws, is) = split_cases sep cs in
      let rest : join sep (w ∷ ws) ≡ cs = rw is at (join-split sep cs) in
      rw (here, is) (ground (arith, rest))
  | inr other ↦ rw (other, join-cons_first sep c (split sep cs), join-split sep cs)
]

pub split_plain : (sep : ℕ) (w : List ℕ) → Without sep w → split sep w ≡ w ∷ []
unfolding split
split_plain sep [] h = refl
split_plain sep (c ∷ w) h = rw (h.0, split_plain sep w h.1)

pub split-append :
    (sep : ℕ) (w s : List ℕ) → Without sep w → split sep (w ++ sep ∷ s) ≡ w ∷ split sep s
unfolding split
split-append sep [] s h = rw ((==_iff sep sep).1 refl)
split-append sep (c ∷ w) s h = rw (h.0, split-append sep w s h.1)

-- The digits behind the first one; underscores are skipped.
unfoldable pub scan : ℕ → List ℕ → Option ℕ
scan acc [] = some acc
scan acc (c ∷ cs) =
    let digit = scan (acc * 10 + (c - b'0')) cs in
    let skipped = scan acc cs in if is_digit c then digit else (if c == b'_' then skipped else none)

unfoldable pub magnitude : List ℕ → Option ℕ
unfolding scan
magnitude [] = none
magnitude (c ∷ cs) = let rest = scan (c - b'0') cs in if is_digit c then rest else none

abbrev pub in_range : Bool → Option ℕ → Option ℤ
in_range minus none = none
in_range true (some n) = if ltb (2 ^ 63) n then none else some (neg n)
in_range false (some n) = if leb (2 ^ 63) n then none else some (pos n)

-- `parseInt`: `none` is a ValueError.
unfoldable pub parse_int : List ℕ → Option ℤ
unfolding magnitude
parse_int [] = none
parse_int (c ∷ cs) =
    if c == b'-'
    then in_range true (magnitude cs)
    else (if c == b'+' then in_range false (magnitude cs) else in_range false (magnitude (c ∷ cs)))

-- `$` of an `int`.
unfoldable pub print_int : ℤ → List ℕ
print_int (pos n) = print n
print_int (negsuc n) = b'-' ∷ print (suc n)

abbrev pub IsInt : ℤ → Type 0
IsInt (pos n) = n < 2 ^ 63
IsInt (negsuc n) = n < 2 ^ 63

scan-read : (acc : ℕ) (cs : List ℕ) → All IsDigit cs → scan acc cs ≡ some (read acc cs)
unfolding scan read
scan-read acc [] h = refl
scan-read acc (c ∷ cs) h = ground (arith, scan-read (acc * 10 + (c - b'0')) cs h.1)

pub magnitude-print : (n : ℕ) → magnitude (print n) ≡ some n
unfolding magnitude
magnitude-print n =
    let (c, cs, is) = print_cons n in
    let digits : All IsDigit (c ∷ cs) = rw is at (print-IsDigit n) in
    let value : read 0 (c ∷ cs) ≡ n = rw is at (read-print n) in
    let first : 0 * 10 + (c - b'0') ≡ c - b'0' = omega arith in
    rw is (unfold read in ground (arith, digits.0, scan-read (c - b'0') cs digits.1, value, first))

pub parse_int-print_int : (z : ℤ) → IsInt z → parse_int (print_int z) ≡ some z
unfolding parse_int print_int
parse_int-print_int (pos n) h =
    let (c, cs, is) = print_cons n in
    let digits : All IsDigit (c ∷ cs) = rw is at (print-IsDigit n) in
    let value : magnitude (c ∷ cs) ≡ some n = rw is at (magnitude-print n) in
    rw is (ground (arith, digits.0, value))
parse_int-print_int (negsuc n) h = rw (magnitude-print (suc n)) (ground arith)

digits_plain : (cs : List ℕ) → All IsDigit cs → Without b'/' cs
digits_plain [] h = tt
digits_plain (c ∷ cs) h = (ground arith, digits_plain cs h.1)

pub print-Without : (n : ℕ) → Without b'/' (print n)
print-Without n = digits_plain (print n) (print-IsDigit n)

pub print-ne-nil : (n : ℕ) → (length (print n) == 0) ≡ false
print-ne-nil n = let (c, cs, is) = print_cons n in rw is (ground arith)

-- What is printed of an integer is not empty and has no slash.
pub print_int-Without : (z : ℤ) → Without b'/' (print_int z)
unfolding print_int
print_int-Without (pos n) = print-Without n
print_int-Without (negsuc n) = (refl, print-Without (suc n))

pub print_int-ne-nil : (z : ℤ) → (length (print_int z) == 0) ≡ false
unfolding print_int
print_int-ne-nil (pos n) = print-ne-nil n
print_int-ne-nil (negsuc n) = ground arith
