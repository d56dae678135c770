-- ===== src/Base64/Reference.antt =====
-- What RFC 4648 says of base 64, as an encoder and a decoder on lists of bytes: the description
-- that the C code is compared with.
use nwaku.Base.{
  ℕ, ◌+◌, ◌-◌, ◌*◌, ◌/◌, ◌%◌, ◌<◌, ◌≡◌, refl, arith, ltb, leb, ◌==◌, if◌then◌else◌, ◌&&◌, false,
  Option, none, some, List, [], ◌∷◌, ◌++◌, All, ◌>>=◌,
}
use nwaku.Base64.{IsByte}

-- The letter of a value below 64, by the ranges of the alphabet.
unfoldable pub letter : ℕ → ℕ
letter n =
    if ltb n 26
    then 65 + n
    else (if ltb n 52
        then 71 + n
        else (if ltb n 62 then n - 4 else (if n == 62 then b'+' else b'/')))

unfoldable pub value : ℕ → Option ℕ
value c =
    if leb b'A' c && leb c b'Z'
    then some (c - 65)
    else (if leb b'a' c && leb c b'z'
        then some (c - 71)
        else (if leb b'0' c && leb c b'9'
            then some (c + 4)
            else (if c == b'+' then some 62 else (if c == b'/' then some 63 else none))))

unfoldable pub encoding : List ℕ → List ℕ
encoding [] = []
encoding (a ∷ []) = letter (a / 4) ∷ letter (a % 4 * 16) ∷ b'=' ∷ b'=' ∷ []
encoding (a ∷ b ∷ []) =
    letter (a / 4) ∷ letter (a % 4 * 16 + b / 16) ∷ letter (b % 16 * 4) ∷ b'=' ∷ []
encoding (a ∷ b ∷ c ∷ rest) =
    letter (a / 4)
    ∷ letter (a % 4 * 16 + b / 16)
    ∷ letter (b % 16 * 4 + c / 64)
    ∷ letter (c % 64)
    ∷ encoding rest

-- The one, two or three bytes that four letters stand for.
pub decode_group : ℕ → ℕ → ℕ → ℕ → Option (List ℕ)
decode_group p q r s = do
  a ← value p
  b ← value q
  if r == b'='
      then some ((a * 4 + b / 16) ∷ [])
      else (value r >>= λ c.
          if s == b'='
          then some ((a * 4 + b / 16) ∷ (b % 16 * 16 + c / 4) ∷ [])
          else (value s >>= λ d.
              some ((a * 4 + b / 16) ∷ (b % 16 * 16 + c / 4) ∷ (c % 4 * 64 + d) ∷ [])))

pub decoding : List ℕ → Option (List ℕ)
decoding [] = some []
decoding (p ∷ q ∷ r ∷ s ∷ rest) =
    decode_group p q r s >>= λ front. decoding rest >>= λ back. some (front ++ back)
decoding (p ∷ rest) = none

pub value-letter : (n : ℕ) → n < 64 → value (letter n) ≡ some n
unfolding letter value
value-letter n h = ground arith

pub letter-ne-pad : (n : ℕ) → n < 64 → (letter n == b'=') ≡ false
unfolding letter
letter-ne-pad n h = ground arith

-- Groups of three, two and one bytes, from the values of their letters.
module _ (w x y z : ℕ) (hw : w < 64) (hx : x < 64) where
  decode_group-three :
      y < 64
      → z < 64
      → decode_group (letter w) (letter x) (letter y) (letter z)
        ≡ some ((w * 4 + x / 16) ∷ (x % 16 * 16 + y / 4) ∷ (y % 4 * 64 + z) ∷ [])
  unfolding decode_group
  decode_group-three hy hz = rw (
    value-letter w hw,
    value-letter x hx,
    letter-ne-pad y hy,
    value-letter y hy,
    letter-ne-pad z hz,
    value-letter z hz,
  )

  decode_group-two :
      y < 64
      → decode_group (letter w) (letter x) (letter y) b'='
        ≡ some ((w * 4 + x / 16) ∷ (x % 16 * 16 + y / 4) ∷ [])
  unfolding decode_group
  decode_group-two hy =
      rw (value-letter w hw, value-letter x hx, letter-ne-pad y hy, value-letter y hy)

  decode_group-one : decode_group (letter w) (letter x) b'=' b'=' ≡ some ((w * 4 + x / 16) ∷ [])
  unfolding decode_group
  decode_group-one = rw (value-letter w hw, value-letter x hx)

-- Decoding gives back the bytes that were encoded.
pub decoding-encoding : (xs : List ℕ) → All IsByte xs → decoding (encoding xs) ≡ some xs
unfolding decoding encoding
decoding-encoding [] h = refl
decoding-encoding (a ∷ []) h =
    rw (decode_group-one (a / 4) (a % 4 * 16) 0 0 (omega arith) (omega arith)) (ground arith)
decoding-encoding (a ∷ b ∷ []) h =
    rw
      (decode_group-two (a / 4) (a % 4 * 16 + b / 16) (b % 16 * 4) 0 (omega arith) (omega arith)
        (omega arith))
      (ground arith)
decoding-encoding (a ∷ b ∷ c ∷ rest) h =
    rw
      (
        decode_group-three (a / 4) (a % 4 * 16 + b / 16) (b % 16 * 4 + c / 64) (c % 64)
            (omega arith) (omega arith) (omega arith) (omega arith),
        decoding-encoding rest h.1.1.1,
      )
      (ground arith)
