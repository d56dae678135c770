-- ===== src/Base64.antt =====
-- examples/cbindings/base64.c and examples/cpp/base64.cpp: the encoder that the client programs
-- put a message's payload through. `size_t` has 64 bits. A byte is a number, an array a list, and
-- `none` stands for undefined behaviour: an access outside an array, or through a null pointer.
pub mod Reference
pub mod Loop
pub mod Encoder
mod Tests
use nwaku.Base.{
  ℕ, zero, suc, ◌+◌, ◌-◌, ◌*◌, ◌/◌, ◌%◌, ◌^◌, ◌<◌, bit_and, bit_or, ltb, ◌==◌, if◌then◌else◌, Bool,
  ◌||◌, Option, none, some, List, [], ◌∷◌, ◌++◌, length, get_elem?, codes, store, ◌>>=◌,
}

abbrev pub IsByte : ℕ → Type 0
IsByte b = b < 256

-- Sums of `size_t`.
abbrev pub add64 : ℕ → ℕ → ℕ
add64 a b = (a + b) % 2 ^ 64

unfoldable pub b64_encoded_size : ℕ → ℕ
b64_encoded_size inlen =
    let ret = if inlen % 3 == 0 then inlen else add64 inlen (3 - inlen % 3) in ret / 3 * 4 % 2 ^ 64

-- The array has one more element, the text's terminating zero.
abbrev pub b64chars : List ℕ
b64chars = codes "ABCDEFGHIJKLMNOPQRSTUVWXYZabcdefghijklmnopqrstuvwxyz0123456789+/" ++ 0 ∷ []

-- `b64chars[(v >> k) & 0x3F]`
pub sextet : ℕ → ℕ → Option ℕ
sextet v k = get_elem? b64chars (bit_and (v / 2 ^ k) 0x3F)

-- What C and C++ make of a byte that they read into the `size_t v`: in base64.c the bytes are
-- `unsigned char`, in base64.cpp they are `char`, which is signed on the usual targets.
abbrev pub unsigned_char : ℕ → ℕ
unsigned_char b = b

abbrev pub signed_char : ℕ → ℕ
signed_char b = if ltb b 128 then b else b + (2 ^ 64 - 256)

module _ (widen : ℕ → ℕ) where
  -- `k < len ? v << 8 | in[k] : v << 8`
  pub shift_in : List ℕ → ℕ → ℕ → ℕ → Option ℕ
  shift_in input len k v =
      if ltb k len
      then (get_elem? input k >>= λ b. some (bit_or (v * 2 ^ 8 % 2 ^ 64) (widen b)))
      else some (v * 2 ^ 8 % 2 ^ 64)

  pub read_word : List ℕ → ℕ → ℕ → Option ℕ
  unfolding shift_in
  read_word input len i = do
    b ← get_elem? input i
    v ← shift_in input len (add64 i 1) (widen b)
    shift_in input len (add64 i 2) v

  -- The body of the loop.
  pub write_group : List ℕ → ℕ → ℕ → ℕ → List ℕ → Option (List ℕ)
  unfolding read_word sextet
  write_group input len i j out = do
    v ← read_word input len i
    c0 ← sextet v 18
    out0 ← store out j c0
    c1 ← sextet v 12
    out1 ← store out0 (add64 j 1) c1
    c2 ← if ltb (add64 i 1) len then sextet v 6 else some b'='
    out2 ← store out1 (add64 j 2) c2
    c3 ← if ltb (add64 i 2) len then sextet v 0 else some b'='
    store out2 (add64 j 3) c3

  -- `for (i=0, j=0; i<len; i+=3, j+=4)` from given `i` and `j`. Fuel above `len` is enough.
  pub encode_loop : ℕ → List ℕ → ℕ → ℕ → ℕ → List ℕ → Option (List ℕ)
  unfolding write_group
  encode_loop zero input len i j out = none
  encode_loop (suc fuel) input len i j out =
      let rounds = write_group input len i j out >>= λ out'.
      encode_loop fuel input len (add64 i 3) (add64 j 4) out' in
      if ltb i len then rounds else some out

-- A `char *`: `null`, or the array that it points to.
pub data Pointer : Type 0 where
  null : Pointer
  to : List ℕ → Pointer

-- base64.c. `malloc` is the C library's: the block that it returns, or none for a null pointer,
-- which the code writes through.
pub b64_encode : (ℕ → Option (List ℕ)) → Pointer → ℕ → Option Pointer
b64_encode malloc null len = some null
b64_encode malloc (to input) len =
    if len == 0
    then some null
    else (malloc (add64 (b64_encoded_size len) 1) >>= λ out.
        store out (b64_encoded_size len) 0 >>= λ out'.
        encode_loop unsigned_char (suc len) input len 0 0 out' >>= λ text. some (to text))

-- base64.cpp. A vector is the list of its elements: `reserve` gives it room and no element, and
-- `out[k]` is undefined unless `k` is below its size.
pub b64_encode_cpp : Pointer → ℕ → List ℕ → Option (List ℕ)
b64_encode_cpp null len out = some out
b64_encode_cpp (to input) len out =
    if len == 0 then some out else encode_loop signed_char (suc len) input len 0 0 out
