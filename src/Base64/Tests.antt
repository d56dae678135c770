-- ===== src/Base64/Tests.antt =====
-- Concrete runs of the encoder, and its theorems at concrete inputs.
use nwaku.Base.{
  ℕ, ◌≡◌, refl, arith, Option, none, some, List, [], ◌∷◌, ◌++◌, codes, replicate, store, length,
  ◌≤◌,
}
use nwaku.Base64.{to, b64_encoded_size, b64_encode, encode_loop, b64_encode_cpp}
use nwaku.Base64.Reference.{encoding, decoding}
use nwaku.Base64.Encoder.{b64_encode-encoding, decoding-b64_encode, b64_encode_cpp-size}

-- A `malloc` that always has room.
abbrev heap : ℕ → Option (List ℕ)
heap n = some (replicate n 7)

abbrev mann : List ℕ
mann = codes "Mann"

encode_mann : b64_encode heap (to mann) 4 ≡ some (to (codes "TWFubg==" ++ 0 ∷ []))
unfolding b64_encode b64_encoded_size encode_loop store
encode_mann = refl

b64_encode-encoding_example :
    b64_encode heap (to mann) 3 ≡ some (to (encoding (codes "Man") ++ 0 ∷ []))
unfolding b64_encoded_size
b64_encode-encoding_example =
    b64_encode-encoding heap mann (replicate 5 7) 3 (omega arith) (omega arith) (omega arith)
      (omega arith) refl refl

decoding-b64_encode_example :
    (text : List ℕ) × (b64_encode heap (to mann) 4 ≡ some (to (text ++ 0 ∷ [])))
    × (decoding text ≡ some mann)
    × (length text ≡ b64_encoded_size 4)
unfolding b64_encoded_size
decoding-b64_encode_example =
    decoding-b64_encode heap mann (replicate 9 7) 4 (omega arith) (omega arith) (omega arith)
      (omega arith) refl refl

-- The vector has eight elements already, and the call writes them.
encode_cpp_mann : b64_encode_cpp (to mann) 4 (replicate 8 0) ≡ some (codes "TWFubg==")
unfolding b64_encode_cpp encode_loop store
encode_cpp_mann = refl

-- An empty vector, which is what waku.cpp passes.
encode_cpp_empty : b64_encode_cpp (to mann) 4 [] ≡ none
unfolding b64_encode_cpp encode_loop store
encode_cpp_empty = refl

b64_encode_cpp-size_example :
    (length (codes "TWFubg==") ≡ length (replicate {A = ℕ} 8 0)) × (b64_encoded_size 4 ≤ 8)
b64_encode_cpp-size_example =
    b64_encode_cpp-size mann (replicate 8 0) (codes "TWFubg==") 4 (omega arith) (omega arith)
      encode_cpp_mann
