-- ===== src/Base64/Encoder.antt =====
-- What `b64_encode` returns, in C and in C++.
use nwaku.Base.{
  ℕ, zero, suc, ◌+◌, ◌*◌, ◌/◌, ◌%◌, ◌^◌, ◌≤◌, ◌<◌, ◌≡◌, refl, ap, arith, ltb, ltb→lt, Option, some,
  List, [], ◌∷◌, ◌++◌, length, All, All-take, take, drop, take-append-drop, length-take, store,
  store-append, length-store, store-lt-length, >>=-eq-some, Bool-cases, inl, inr, ◌⊎◌, ◌==◌, false,
  ==_iff, if◌then◌else◌,
}
use nwaku.Base64.Reference.{encoding, decoding, decoding-encoding}
use nwaku.Base64.Loop.{encode_loop-encoding}
use nwaku.Base64.{
  IsByte, add64, to, b64_encoded_size, b64_encode, b64_encode_cpp, encode_loop, write_group,
  read_word, sextet, signed_char, unsigned_char,
}

-- The size in closed form: four letters for every three bytes, the last group padded.
pub encoded_size_closed : (n : ℕ) → n < 2 ^ 62 → b64_encoded_size n ≡ (n + 2) / 3 * 4
unfolding b64_encoded_size
encoded_size_closed n h = elim (Bool-cases (n % 3 == 0)) [
  | inl whole ↦ rw whole (omega (arith, (==_iff (n % 3) 0).0 whole))
  | inr part ↦ rw part (ground arith)
]

pub length-encoding : (xs : List ℕ) → length (encoding xs) ≡ (length xs + 2) / 3 * 4
unfolding encoding
length-encoding [] = refl
length-encoding (a ∷ []) = refl
length-encoding (a ∷ b ∷ []) = refl
length-encoding (a ∷ b ∷ c ∷ rest) = omega (arith, length-encoding rest)

-- A block of one element more than `n` is `n` elements and a last one.
split_last :
    (n : ℕ) (block : List ℕ)
    → length block ≡ n + 1
    → (front : List ℕ) × (x : ℕ) × (block ≡ front ++ x ∷ []) × (length front ≡ n)
split_last n [] h = absurd (omega arith)
split_last zero (x ∷ []) h = ([], x, refl, refl)
split_last zero (x ∷ y ∷ rest) h = absurd (omega arith)
split_last (suc n) (x ∷ rest) h =
    let (front, y, e, l) = split_last n rest (omega arith) in
    (x ∷ front, y, ap (◌∷◌ x) e, omega arith)

-- For `len` bytes in range, with at least `len` of them readable and a block from `malloc`, the
-- function touches no memory outside its arrays and returns the encoding of the first `len` bytes,
-- ended by a zero.
pub b64_encode-encoding :
    (malloc : ℕ → Option (List ℕ)) (bytes block : List ℕ) (len : ℕ)
    → All IsByte bytes
    → 0 < len
    → len ≤ length bytes
    → len < 2 ^ 61
    → malloc (b64_encoded_size len + 1) ≡ some block
    → length block ≡ b64_encoded_size len + 1
    → b64_encode malloc (to bytes) len ≡ some (to (encoding (take len bytes) ++ 0 ∷ []))
unfolding b64_encode
b64_encode-encoding malloc bytes block len hb pos hl small room size =
    let (front, x, e, l) = split_last (b64_encoded_size len) block size in
    let n = b64_encoded_size len in
    let whole : length (take len bytes) ≡ len = omega (arith, length-take len bytes) in
    let closed = encoded_size_closed len (omega arith) in
    let sized : length front ≡ length (encoding (take len bytes)) =
      omega (arith, length-encoding (take len bytes)) in
    let one_more : add64 n 1 ≡ n + 1 = omega arith in
    let loop : encode_loop unsigned_char (suc len) bytes len 0 0 (front ++ 0 ∷ [])
        ≡ some (encoding (take len bytes) ++ 0 ∷ []) =
      rw (take-append-drop len bytes) at (
        encode_loop-encoding (suc len) (take len bytes) (omega arith) [] (drop len bytes) [] front
          (0 ∷ []) len 0 0 (All-take IsByte len bytes hb) refl (omega arith) refl sized
          (omega arith) (omega arith)) in
    let not_empty : (len == 0) ≡ false = ground arith in
    rw (not_empty, one_more, room, e, store-append front [] x 0 [] n (omega arith), loop)

-- The same call: the returned text decodes to the first `len` bytes, and its length without the
-- zero is what `b64_encoded_size` says.
pub decoding-b64_encode :
    (malloc : ℕ → Option (List ℕ)) (bytes block : List ℕ) (len : ℕ)
    → All IsByte bytes
    → 0 < len
    → len ≤ length bytes
    → len < 2 ^ 61
    → malloc (b64_encoded_size len + 1) ≡ some block
    → length block ≡ b64_encoded_size len + 1
    → (text : List ℕ) × (b64_encode malloc (to bytes) len ≡ some (to (text ++ 0 ∷ [])))
      × (decoding text ≡ some (take len bytes))
      × (length text ≡ b64_encoded_size len)
decoding-b64_encode malloc bytes block len hb pos hl small room size = (
  encoding (take len bytes),
  b64_encode-encoding malloc bytes block len hb pos hl small room size,
  decoding-encoding (take len bytes) (All-take IsByte len bytes hb),
  omega (
    arith,
    length-encoding (take len bytes),
    length-take len bytes,
    encoded_size_closed len (omega arith),
  ),
)

-- One round of base64.cpp, where it is defined: the vector keeps its size, and has the elements
-- that the round writes.
module _ (widen : ℕ → ℕ) (input : List ℕ) (len i j : ℕ) (out result : List ℕ) where
  write_group-size :
      write_group widen input len i j out ≡ some result
      → (length result ≡ length out) × ((j + 3) % 2 ^ 64 < length out)
  unfolding write_group
  write_group-size h =
      let (v, _, h1) = >>=-eq-some (read_word widen input len i) _ h in
      let (c0, _, h2) = >>=-eq-some (sextet v 18) _ h1 in
      let (out0, e0, h3) = >>=-eq-some (store out j c0) _ h2 in
      let (c1, _, h4) = >>=-eq-some (sextet v 12) _ h3 in
      let (out1, e1, h5) = >>=-eq-some (store out0 (add64 j 1) c1) _ h4 in
      let (c2, _, h6) = >>=-eq-some (if ltb (add64 i 1) len then sextet v 6 else some b'=') _ h5 in
      let (out2, e2, h7) = >>=-eq-some (store out1 (add64 j 2) c2) _ h6 in
      let (c3, _, e3) = >>=-eq-some (if ltb (add64 i 2) len then sextet v 0 else some b'=') _ h7 in
      omega (
        arith,
        length-store out j c0 out0 e0,
        length-store out0 (add64 j 1) c1 out1 e1,
        length-store out1 (add64 j 2) c2 out2 e2,
        length-store out2 (add64 j 3) c3 result e3,
        store-lt-length out2 (add64 j 3) c3 result e3,
      )

loop-size :
    (widen : ℕ → ℕ) (fuel : ℕ) (input : List ℕ) (len i j : ℕ) (out result : List ℕ)
    → len < 2 ^ 62
    → j < 2 ^ 63
    → i < len + 3
    → 4 * i ≡ 3 * j
    → encode_loop widen fuel input len i j out ≡ some result
    → (length result ≡ length out) × ((len ≤ i) ⊎ ((len + 2) / 3 * 4 ≤ length out))
unfolding encode_loop
loop-size widen zero input len i j out result small hj hi step h = cc
loop-size widen (suc fuel) input len i j out result small hj hi step h =
    elim (Bool-cases (ltb i len)) [
      | inl more ↦
          let (out', written, rest) =
            >>=-eq-some (write_group widen input len i j out) _ (rw more at h) in
          let less = ltb→lt i len more in
          omega (
            arith,
            write_group-size widen input len i j out out' written,
            loop-size widen fuel input len (add64 i 3) (add64 j 4) out' result small (omega arith)
                (omega arith) (omega arith) rest,
          )
      | inr over ↦
          let same : some out ≡ some result = rw over at h in (ground arith, inl (ground arith))
    ]

-- `b64_encode` of base64.cpp never makes the vector longer, and on a non-empty input it is defined
-- only if the caller has already given the vector as many elements as the text has letters.
pub b64_encode_cpp-size :
    (input out result : List ℕ) (len : ℕ)
    → 0 < len
    → len < 2 ^ 62
    → b64_encode_cpp (to input) len out ≡ some result
    → (length result ≡ length out) × (b64_encoded_size len ≤ length out)
unfolding b64_encode_cpp
b64_encode_cpp-size input out result len pos small h =
    let not_empty : (len == 0) ≡ false = ground arith in
    let (kept, room) =
      loop-size signed_char (suc len) input len 0 0 out result small (omega arith) (omega arith)
        refl (rw not_empty at h) in
    (kept, omega (arith, room, encoded_size_closed len small))
