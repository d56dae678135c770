-- ===== src/Base64/Loop.antt =====
-- The loop of `b64_encode`, one round and all rounds, over a prefix that is done and a rest.
use mathlib.Core.List.{append_assoc}
use nwaku.Base.{
  ℕ, zero, suc, ◌+◌, ◌*◌, ◌/◌, ◌%◌, ◌^◌, ◌≤◌, ◌<◌, ◌≡◌, refl, ap, ap₂, arith, ltb, lt→ltb, le→ltb,
  ◌==◌, ==_iff, Bool, Bool-cases, Option-cases, inl, inr, true, false, ◌&&◌, if◌then◌else◌, none,
  some, List, [], ◌∷◌, ◌++◌, length, length-append, All, get_elem?, get_elem?-append, store-append,
}
use nwaku.Base.Bits.{six_bits, bit_or-shift}
use nwaku.Base64.Reference.{letter, encoding}
use nwaku.Base64.{
  IsByte, add64, b64chars, sextet, unsigned_char, shift_in, read_word, write_group, encode_loop,
}

first : (a b : Bool) → (a && b) ≡ true → a ≡ true
first a b h = ground arith

second : (a b : Bool) → (a && b) ≡ true → b ≡ true
second a b h = ground arith

letters_agree : ℕ → Bool
letters_agree zero = true
letters_agree (suc n) =
    (elim (get_elem? b64chars n) [ none ↦ false | some c ↦ c == letter n ]) && letters_agree n

letters_agree_sound :
    (n : ℕ) → letters_agree n ≡ true → (i : ℕ) → i < n → get_elem? b64chars i ≡ some (letter i)
unfolding letters_agree
letters_agree_sound zero e i h = absurd (omega arith)
letters_agree_sound (suc n) e i h = elim (Bool-cases (i == n)) [
  | inl same ↦ rw ((==_iff i n).0 same) (elim (Option-cases (get_elem? b64chars n)) [
    | inl missing ↦ absurd (cc (rw missing at e))
    | inr (c, found) ↦ rw found (ap some ((==_iff c (letter n)).0 (first _ _ (rw found at e))))
  ])
  | inr other ↦ letters_agree_sound n (second _ _ e) i (ground arith)
]

-- The table of the code is the alphabet.
table-letter : (n : ℕ) → n < 64 → get_elem? b64chars n ≡ some (letter n)
unfolding letters_agree letter
table-letter = letters_agree_sound 64 refl

pub sextet-letter : (v k : ℕ) → sextet v k ≡ some (letter (v / 2 ^ k % 64))
unfolding sextet
sextet-letter v k = rw six_bits (table-letter (v / 2 ^ k % 64) (omega arith))

-- A byte joins the word from the right.
shift_in-at :
    (input : List ℕ) (b len k v : ℕ)
    → get_elem? input k ≡ some b
    → k < len
    → v < 2 ^ 16
    → IsByte b
    → shift_in unsigned_char input len k v ≡ some (v * 256 + b)
unfolding shift_in
shift_in-at input b len k v found hl hv hb =
    rw (lt→ltb k len hl, found, small, bit_or-shift 8 v b hb)
  where
    small : v * 2 ^ 8 % 2 ^ 64 ≡ v * 2 ^ 8
    small = omega arith

shift_in-past :
    (input : List ℕ) (len k v : ℕ)
    → len ≤ k
    → v < 2 ^ 16
    → shift_in unsigned_char input len k v ≡ some (v * 256)
unfolding shift_in
shift_in-past input len k v hl hv = rw (le→ltb k len hl) (ap some (omega arith))

abbrev Fits : ℕ → Type 0
Fits n = n < 2 ^ 62

-- The word of a round: the bytes that are left, at most three, from the top.
abbrev word : List ℕ → ℕ
word [] = 0
word (a ∷ []) = a * 65536
word (a ∷ b ∷ []) = a * 65536 + b * 256
word (a ∷ b ∷ c ∷ rest) = a * 65536 + b * 256 + c

module _ (pre tail : List ℕ) (len i : ℕ) (at_i : i ≡ length pre) (small : Fits len) where
  read_word-one :
      (a : ℕ)
      → IsByte a
      → len ≡ i + 1
      → read_word unsigned_char (pre ++ a ∷ tail) len i ≡ some (word (a ∷ []))
  unfolding read_word
  read_word-one a ha e =
      rw
        (
          get_elem?-append pre (a ∷ tail) i 0 (omega arith),
          shift_in-past (pre ++ a ∷ tail) len (add64 i 1) a (omega arith) (omega arith),
          shift_in-past (pre ++ a ∷ tail) len (add64 i 2) (a * 256) (omega arith) (omega arith),
        )
        (ap some (omega arith))

  read_word-two :
      (a b : ℕ)
      → IsByte a
      → IsByte b
      → len ≡ i + 2
      → read_word unsigned_char (pre ++ a ∷ b ∷ tail) len i ≡ some (word (a ∷ b ∷ []))
  unfolding read_word
  read_word-two a b ha hb e =
      let input = pre ++ a ∷ b ∷ tail in
      rw
        (
          get_elem?-append pre (a ∷ b ∷ tail) i 0 (omega arith),
          shift_in-at input b len (add64 i 1) a (get_elem?-append pre _ (add64 i 1) 1 (omega arith))
              (omega arith) (omega arith) hb,
          shift_in-past input len (add64 i 2) (a * 256 + b) (omega arith) (omega arith),
        )
        (ap some (omega arith))

  read_word-three :
      (a b c : ℕ)
      → IsByte a
      → IsByte b
      → IsByte c
      → i + 3 ≤ len
      → read_word unsigned_char (pre ++ a ∷ b ∷ c ∷ tail) len i ≡ some (word (a ∷ b ∷ c ∷ []))
  unfolding read_word
  read_word-three a b c ha hb hc e =
      let input = pre ++ a ∷ b ∷ c ∷ tail in
      rw
        (
          get_elem?-append pre (a ∷ b ∷ c ∷ tail) i 0 (omega arith),
          shift_in-at input b len (add64 i 1) a (get_elem?-append pre _ (add64 i 1) 1 (omega arith))
              (omega arith) (omega arith) hb,
          shift_in-at input c len (add64 i 2) (a * 256 + b)
              (get_elem?-append pre _ (add64 i 2) 2 (omega arith)) (omega arith) (omega arith) hc,
        )
        (ap some (omega arith))

padded :
    (more : Bool) (v k : ℕ)
    → (if more then sextet v k else some b'=')
      ≡ some (if more then letter (v / 2 ^ k % 64) else b'=')
padded true v k = sextet-letter v k
padded false v k = refl

-- A round: from the word to the text.
module _ (input : List ℕ) (len i : ℕ) (done rest : List ℕ) (j : ℕ) (at_j : j ≡ length done)
    (small : Fits j) (v : ℕ) (reads : read_word unsigned_char input len i ≡ some v) where
  write_group_lem :
      (s0 s1 s2 s3 : ℕ) (two three : Bool)
      → ltb (add64 i 1) len ≡ two
      → ltb (add64 i 2) len ≡ three
      → write_group unsigned_char input len i j (done ++ s0 ∷ s1 ∷ s2 ∷ s3 ∷ rest)
        ≡ some (
            done
            ++ letter (v / 2 ^ 18 % 64)
              ∷ letter (v / 2 ^ 12 % 64)
              ∷ (if two then letter (v / 2 ^ 6 % 64) else b'=')
              ∷ (if three then letter (v / 2 ^ 0 % 64) else b'=')
              ∷ rest)
  unfolding write_group
  write_group_lem s0 s1 s2 s3 two three e f =
      let c0 = letter (v / 2 ^ 18 % 64) in
      let c1 = letter (v / 2 ^ 12 % 64) in
      let c2 = if two then letter (v / 2 ^ 6 % 64) else b'=' in
      let c3 = if three then letter (v / 2 ^ 0 % 64) else b'=' in
      rw (
        reads,
        e,
        f,
        sextet-letter v 18,
        sextet-letter v 12,
        padded two v 6,
        padded three v 0,
        store-append done [] s0 c0 (s1 ∷ s2 ∷ s3 ∷ rest) j (omega arith),
        store-append done (c0 ∷ []) s1 c1 (s2 ∷ s3 ∷ rest) (add64 j 1) (omega arith),
        store-append done (c0 ∷ c1 ∷ []) s2 c2 (s3 ∷ rest) (add64 j 2) (omega arith),
        store-append done (c0 ∷ c1 ∷ c2 ∷ []) s3 c3 rest (add64 j 3) (omega arith),
      )

split_four :
    (n : ℕ) (xs : List ℕ)
    → length xs ≡ n + 4
    → (s0 s1 s2 s3 : ℕ) × (rest : List ℕ) × (xs ≡ s0 ∷ s1 ∷ s2 ∷ s3 ∷ rest) × (length rest ≡ n)
split_four n (s0 ∷ s1 ∷ s2 ∷ s3 ∷ rest) h = (s0, s1, s2, s3, rest, refl, omega arith)
split_four n [] h = absurd (omega arith)
split_four n (s0 ∷ []) h = absurd (omega arith)
split_four n (s0 ∷ s1 ∷ []) h = absurd (omega arith)
split_four n (s0 ∷ s1 ∷ s2 ∷ []) h = absurd (omega arith)

length-zero : (xs : List ℕ) → length xs ≡ 0 → xs ≡ []
length-zero [] h = refl
length-zero (x ∷ xs) h = absurd (omega arith)

-- What the loop makes of the bytes `rem`, which stand between a prefix and a tail of its input.
abbrev pub Encodes : ℕ → List ℕ → Type 0
Encodes fuel rem =
    (pre tail done scratch more : List ℕ) (len i j : ℕ)
    → All IsByte rem
    → i ≡ length pre
    → len ≡ i + length rem
    → j ≡ length done
    → length scratch ≡ length (encoding rem)
    → Fits len
    → Fits (j + length scratch)
    → encode_loop unsigned_char fuel (pre ++ (rem ++ tail)) len i j (done ++ (scratch ++ more))
      ≡ some (done ++ (encoding rem ++ more))

encode_loop-none : (fuel : ℕ) → Encodes (suc fuel) []
unfolding encode_loop encoding
encode_loop-none fuel pre tail done scratch more len i j hb hi hl hj hs fl fj =
    rw (le→ltb i len (omega arith), length-zero scratch hs)

encode_loop-one : (fuel a : ℕ) → Encodes (suc (suc fuel)) (a ∷ [])
unfolding encode_loop encoding
encode_loop-one fuel a pre tail done scratch more len i j hb hi hl hj hs fl fj =
    let (s0, s1, s2, s3, none_left, e, z) = split_four 0 scratch hs in
    rw
      (
        e,
        length-zero none_left z,
        lt→ltb i len (omega arith),
        write_group_lem (pre ++ a ∷ tail) len i done more j hj (omega arith) (word (a ∷ []))
            (read_word-one pre tail len i hi fl a hb.0 (omega arith)) s0 s1 s2 s3 false false
            (le→ltb _ _ (omega arith)) (le→ltb _ _ (omega arith)),
        le→ltb (add64 i 3) len (omega arith),
      )
      (ap₂ (λ (p q : ℕ). some (done ++ letter p ∷ letter q ∷ b'=' ∷ b'=' ∷ more)) (omega arith)
        (omega arith))

encode_loop-two : (fuel a b : ℕ) → Encodes (suc (suc fuel)) (a ∷ b ∷ [])
unfolding encode_loop encoding
encode_loop-two fuel a b pre tail done scratch more len i j hb hi hl hj hs fl fj =
    let (s0, s1, s2, s3, none_left, e, z) = split_four 0 scratch hs in
    rw (
      e,
      length-zero none_left z,
      lt→ltb i len (omega arith),
      write_group_lem (pre ++ a ∷ b ∷ tail) len i done more j hj (omega arith) (word (a ∷ b ∷ []))
          (read_word-two pre tail len i hi fl a b hb.0 hb.1.0 (omega arith)) s0 s1 s2 s3 true false
          (lt→ltb _ _ (omega arith)) (le→ltb _ _ (omega arith)),
      le→ltb (add64 i 3) len (omega arith),
      letters.0,
      letters.1,
      letters.2,
    )
  where
    letters :
        ((a * 65536 + b * 256) / 2 ^ 18 % 64 ≡ a / 4)
        × ((a * 65536 + b * 256) / 2 ^ 12 % 64 ≡ a % 4 * 16 + b / 16)
        × ((a * 65536 + b * 256) / 2 ^ 6 % 64 ≡ b % 16 * 4)
    letters = omega arith

encode_loop-three :
    (fuel a b c : ℕ) (rem : List ℕ) → Encodes fuel rem → Encodes (suc fuel) (a ∷ b ∷ c ∷ rem)
unfolding encode_loop encoding
encode_loop-three fuel a b c rem ih pre tail done scratch more len i j hb hi hl hj hs fl fj =
    let (s0, s1, s2, s3, left, e, z) = split_four (length (encoding rem)) scratch (omega arith) in
    rw
      (
        e,
        lt→ltb i len (omega arith),
        write_group_lem (pre ++ a ∷ b ∷ c ∷ (rem ++ tail)) len i done (left ++ more) j hj
            (omega arith) (word (a ∷ b ∷ c ∷ []))
            (read_word-three pre (rem ++ tail) len i hi fl a b c hb.0 hb.1.0 hb.1.1.0 (omega arith))
            s0 s1 s2 s3 true true (lt→ltb _ _ (omega arith)) (lt→ltb _ _ (omega arith)),
        letters.0,
        letters.1,
        letters.2,
        letters.3,
      )
      (rw
        (
          append_assoc pre front (rem ++ tail),
          append_assoc done text (left ++ more),
          append_assoc done text (encoding rem ++ more),
        )
        at
        (ih (pre ++ front) tail (done ++ text) left more len (add64 i 3) (add64 j 4) hb.1.1.1
          (omega (arith, length-append pre front)) (omega arith)
          (omega (arith, length-append done text)) z fl (omega arith)))
  where
    front : List ℕ
    front = a ∷ b ∷ c ∷ []

    text : List ℕ
    text =
        letter (a / 4)
        ∷ letter (a % 4 * 16 + b / 16)
        ∷ letter (b % 16 * 4 + c / 64)
        ∷ letter (c % 64)
        ∷ []

    letters :
        ((a * 65536 + b * 256 + c) / 2 ^ 18 % 64 ≡ a / 4)
        × ((a * 65536 + b * 256 + c) / 2 ^ 12 % 64 ≡ a % 4 * 16 + b / 16)
        × ((a * 65536 + b * 256 + c) / 2 ^ 6 % 64 ≡ b % 16 * 4 + c / 64)
        × ((a * 65536 + b * 256 + c) / 2 ^ 0 % 64 ≡ c % 64)
    letters = omega arith

-- All rounds: fuel above the number of bytes is enough.
pub encode_loop-encoding : (fuel : ℕ) (rem : List ℕ) → length rem < fuel → Encodes fuel rem
encode_loop-encoding zero rem h = absurd (omega arith)
encode_loop-encoding (suc fuel) [] h = encode_loop-none fuel
encode_loop-encoding (suc zero) (a ∷ rem) h = absurd (omega arith)
encode_loop-encoding (suc (suc fuel)) (a ∷ []) h = encode_loop-one fuel a
encode_loop-encoding (suc (suc fuel)) (a ∷ b ∷ []) h = encode_loop-two fuel a b
encode_loop-encoding (suc fuel) (a ∷ b ∷ c ∷ rem) h =
    encode_loop-three fuel a b c rem (encode_loop-encoding fuel rem (omega arith))
