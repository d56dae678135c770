-- ===== src/Rln/Nonces.antt =====
-- waku/waku_rln_relay/nonce_manager.nim: the nonces of a sender. Times are numbers of one unit, and
-- the reading of the clock is an argument. A nonce has 64 bits.
use nwaku.Base.{
  ℕ, zero, suc, ◌+◌, ◌-◌, ◌%◌, ◌^◌, ◌≤◌, ◌<◌, ◌≡◌, refl, arith, ltb, leb, if◌then◌else◌, Option,
  none, some, List, [], ◌∷◌, length,
}

pub record NonceManager : Type 0 where
  pub epoch : ℕ
  pub next_nonce : ℕ
  pub last_nonce_time : ℕ
  pub nonce_limit : ℕ

unfoldable pub init : ℕ → ℕ → NonceManager
init limit epoch = record {
  epoch = epoch;
  next_nonce = 0;
  last_nonce_time = 0;
  nonce_limit = limit;
}

abbrev pub requested : NonceManager → ℕ → ℕ
requested n now = if leb (n.last_nonce_time + n.epoch) now then 0 else n.next_nonce

-- `none` is the error NonceLimitReached.
unfoldable pub get_nonce : NonceManager → ℕ → Option ℕ × NonceManager
get_nonce n now =
    let nonce = requested n now in
    (
      if leb n.nonce_limit nonce then none else some nonce,
      record n { next_nonce = (nonce + 1) % 2 ^ 64; last_nonce_time = now },
    )

unfoldable pub get_nonces : NonceManager → List ℕ → List (Option ℕ)
unfolding get_nonce
get_nonces n [] = []
get_nonces n (now ∷ times) = let r = get_nonce n now in r.0 ∷ get_nonces r.1 times

-- Each call comes less than an epoch after the one before it, the first one after a given time.
abbrev pub IsFrequent : ℕ → ℕ → List ℕ → Type 0
IsFrequent epoch last [] = Unit
IsFrequent epoch last (now ∷ times) = (now < last + epoch) × IsFrequent epoch now times

-- The numbers from a first one on, as far as they are below the limit.
abbrev pub counted : ℕ → ℕ → ℕ → List (Option ℕ)
counted limit k zero = []
counted limit k (suc m) = (if ltb k limit then some k else none) ∷ counted limit (suc k) m

counted_step :
    (limit k a m : ℕ) (rest : List (Option ℕ))
    → a ≡ k
    → rest ≡ counted limit (suc k) m
    → (if leb limit a then none else some a) ∷ rest ≡ counted limit k (suc m)
counted_step limit k a m rest h is = rw is (ground (arith, h))

get_nonces-counted :
    (n : NonceManager) (now : ℕ) (times : List ℕ) (k : ℕ)
    → requested n now ≡ k
    → IsFrequent n.epoch now times
    → k + suc (length times) < 2 ^ 64
    → get_nonces n (now ∷ times) ≡ counted n.nonce_limit k (suc (length times))
unfolding get_nonces
get_nonces-counted n now [] k h frequent small =
    counted_step n.nonce_limit k (requested n now) 0 [] h refl
get_nonces-counted n now (next ∷ times) k h frequent small =
    let n' : NonceManager = record n {
      next_nonce = (requested n now + 1) % 2 ^ 64;
      last_nonce_time = now;
    } in
    let again : requested n' next ≡ suc k = ground (arith, h, frequent.0, small) in
    counted_step n.nonce_limit k (requested n now) (suc (length times)) _ h
      (get_nonces-counted n' next times (suc k) again frequent.1 (omega (arith, small)))

-- If the next nonce and the number of calls are together below 2^64: calls of which each one comes less
-- than an epoch after the one before it count up, from 0 if the first one comes an epoch or more after
-- the call before it, and else from where that call left off. Those of them whose number is not below
-- the limit are errors.
pub get_nonces-frequent :
    (n : NonceManager) (now : ℕ) (times : List ℕ)
    → IsFrequent n.epoch now times
    → n.next_nonce + suc (length times) < 2 ^ 64
    → get_nonces n (now ∷ times)
      ≡ counted n.nonce_limit
          (if leb (n.last_nonce_time + n.epoch) now then 0 else n.next_nonce)
          (suc (length times))
get_nonces-frequent n now times h small =
    get_nonces-counted n now times (requested n now) refl h (ground (arith, small))

unfoldable granted : List (Option ℕ) → ℕ
granted [] = 0
granted (none ∷ os) = granted os
granted (some k ∷ os) = suc (granted os)

granted-counted_le : (limit k m : ℕ) → granted (counted limit k m) ≤ limit - k
unfolding granted
granted-counted_le limit k zero = omega arith
granted-counted_le limit k (suc m) = ground (arith, granted-counted_le limit (suc k) m)

-- Calls of which each one comes less than an epoch after the one before it are given no more nonces
-- than the limit. The count stays below 2^64.
granted-get_nonces_le :
    (n : NonceManager) (now : ℕ) (times : List ℕ)
    → IsFrequent n.epoch now times
    → n.next_nonce + suc (length times) < 2 ^ 64
    → granted (get_nonces n (now ∷ times)) ≤ n.nonce_limit
granted-get_nonces_le n now times h small =
    rw (get_nonces-frequent n now times h small)
      (omega (arith, granted-counted_le n.nonce_limit (requested n now) (suc (length times))))
