-- ===== src/Enr/Sharding/BitVector.antt =====
-- waku/waku_enr/sharding.nim: the vector of bits and its reader.
use nwaku.Base.{
  has, ℕ, zero, suc, ◌+◌, ◌-◌, ◌*◌, ◌/◌, ◌%◌, ◌≤◌, ◌<◌, ◌≡◌, refl, sym, arith, ltb, leb, ◌==◌, ◌||◌,
  ◌&&◌, if◌then◌else◌, Bool, true, false, inl, inr, Bool-cases, Option, none, some, List, [], ◌∷◌,
  ◌++◌, length, get_elem?, subst, replicate, length-append, store, length-store, >>=-eq-some, All,
}
use mathlib.Core.Option.{some-injective}
use nwaku.Enr.Bitops.{set_bit, test_bit, test_bit-set_bit, test_bit_empty}
use nwaku.Enr.Sharding.{
  Endians, ok, RelayShards, contains, set_shard, set_shards, to_bit_vector, shards_of_byte,
  shards_of_bytes, from_bit_vector,
}
use nwaku.Enr.Sharding.Indices.{IsUint16, take-append, drop-append}

-- The bit of a shard.
abbrev bit_of : Option ℕ → ℕ → Bool
bit_of none k = false
bit_of (some b) k = test_bit b k

abbrev bit_at : List ℕ → ℕ → Bool
bit_at vec x = bit_of (get_elem? vec (x / 8)) (x % 8)

has-append : (x : ℕ) (xs ys : List ℕ) → has x (xs ++ ys) ≡ (has x xs || has x ys)
unfolding has
has-append x [] ys = refl
has-append x (z ∷ xs) ys = rw (has-append x xs ys) (ground arith)

bit_at_cons :
    (b : ℕ) (bs : List ℕ) (x : ℕ)
    → bit_at (b ∷ bs) x ≡ (if ltb x 8 then test_bit b x else bit_at bs (x - 8))
bit_at_cons b bs x = elim (Bool-cases (ltb x 8)) [
  | inl small ↦
      let first : x / 8 ≡ 0 = ground arith in
      let same : x % 8 ≡ x = ground arith in rw (small, first, same)
  | inr large ↦
      let next : x / 8 ≡ suc ((x - 8) / 8) = ground arith in
      let same : x % 8 ≡ (x - 8) % 8 = ground arith in rw (large, next, same)
]

module _ (endians : Endians) where
  has-shards_of_byte :
      (b i j rounds x : ℕ)
      → has x (shards_of_byte endians b i j rounds)
        ≡ (leb (j + 8 * i) x && (ltb x (j + 8 * i + rounds) && test_bit b (x - 8 * i)))
  unfolding has shards_of_byte
  has-shards_of_byte b i j zero x = ground arith
  has-shards_of_byte b i j (suc rounds) x =
      let rest = has-shards_of_byte b i (suc j) rounds x in
      elim (Bool-cases (j + 8 * i == x)) [
        | inl here ↦
            let at_j : x - 8 * i ≡ j = ground arith in
            rw at_j (elim (Bool-cases (test_bit b j)) [
              | inl set ↦ rw (set, here) (ground arith)
              | inr unset ↦ rw (unset, rest, at_j, unset) (ground arith)
            ])
        | inr elsewhere ↦ elim (Bool-cases (test_bit b j)) [
          | inl set ↦ rw (set, elsewhere, rest) (ground arith)
          | inr unset ↦ rw (unset, rest) (ground arith)
        ]
      ]

  has-shards_of_bytes :
      (bs : List ℕ) (i x : ℕ)
      → has x (shards_of_bytes endians bs i)
        ≡ (if ltb x (8 * i) then false else bit_at bs (x - 8 * i))
  unfolding shards_of_bytes
  has-shards_of_bytes [] i x = unfold has in ground arith
  has-shards_of_bytes (b ∷ bs) i x =
      let further : x - 8 * suc i ≡ x - 8 * i - 8 = omega arith in
      rw
        (
          has-append x (shards_of_byte endians b i 0 8) (shards_of_bytes endians bs (suc i)),
          has-shards_of_byte b i 0 8 x,
          has-shards_of_bytes bs (suc i) x,
          bit_at_cons b bs (x - 8 * i),
          further,
        )
        (ground arith)

has-all_bytes :
    (endians : Endians) (bs : List ℕ) (x : ℕ) → has x (shards_of_bytes endians bs 0) ≡ bit_at bs x
has-all_bytes endians bs x =
    let start : x - 8 * 0 ≡ x = omega arith in
    let not_before : ltb x (8 * 0) ≡ false = ground arith in
    rw (has-shards_of_bytes endians bs 0 x, not_before, start)

store_cons :
    (x : ℕ) (xs : List ℕ) (i v k : ℕ) (zs : List ℕ)
    → ((k : ℕ) → get_elem? zs k ≡ (if i == k then some v else get_elem? xs k))
    → get_elem? (x ∷ zs) k ≡ (if suc i == k then some v else get_elem? (x ∷ xs) k)
store_cons x xs i v zero zs h = ground arith
store_cons x xs i v (suc k) zs h = rw (h k) (ground arith)

get_elem?-store :
    (xs : List ℕ) (i v k : ℕ) (ys : List ℕ)
    → store xs i v ≡ some ys
    → get_elem? ys k ≡ (if i == k then some v else get_elem? xs k)
unfolding store
get_elem?-store [] i v k ys e = cc
get_elem?-store (x ∷ xs) zero v k ys e =
    subst (λ (zs : List ℕ). get_elem? zs k ≡ (if 0 == k then some v else get_elem? (x ∷ xs) k))
      (some-injective _ _ e) (first_lem k)
  where
    first_lem : (k : ℕ) → get_elem? (v ∷ xs) k ≡ (if 0 == k then some v else get_elem? (x ∷ xs) k)
    first_lem zero = ground arith
    first_lem (suc k) = ground arith
get_elem?-store (x ∷ xs) (suc i) v k ys e =
    let (zs, stored, is) = >>=-eq-some (store xs i v) (λ zs. some (x ∷ zs)) e in
    subst (λ (ys : List ℕ). get_elem? ys k ≡ (if suc i == k then some v else get_elem? (x ∷ xs) k))
      (some-injective _ _ is) (store_cons x xs i v k zs (λ k. get_elem?-store xs i v k zs stored))

store_within : (xs : List ℕ) (i v : ℕ) → i < length xs → (ys : List ℕ) × (store xs i v ≡ some ys)
unfolding store
store_within [] i v lt = absurd (omega arith)
store_within (x ∷ xs) zero v lt = (v ∷ xs, refl)
store_within (x ∷ xs) (suc i) v lt =
    let (ys, stored) = store_within xs i v (omega arith) in (x ∷ ys, rw stored)

get_within : (xs : List ℕ) (i : ℕ) → i < length xs → (b : ℕ) × (get_elem? xs i ≡ some b)
get_within [] i lt = absurd (omega arith)
get_within (x ∷ xs) zero lt = (x, refl)
get_within (x ∷ xs) (suc i) lt = get_within xs i (omega arith)

-- A shard of the vector can be set; then it is set, and the others are as before.
set_shard_bits :
    (endians : Endians) (vec : List ℕ) (id : ℕ)
    → id < 8 * length vec
    → (vec' : List ℕ) × (set_shard endians vec id ≡ some vec')
      × (length vec' ≡ length vec)
      × ((x : ℕ) → bit_at vec' x ≡ ((id == x) || bit_at vec x))
unfolding set_shard
set_shard_bits endians vec id lt =
    let (b, found) = get_within vec (id / 8) (omega arith) in
    let (vec', stored) = store_within vec (id / 8) (set_bit b (id % 8)) (omega arith) in
    (
      vec',
      rw (found, stored),
      length-store vec (id / 8) _ vec' stored,
      λ x.
          rw (get_elem?-store vec (id / 8) (set_bit b (id % 8)) (x / 8) vec' stored)
            (elim (Bool-cases (id / 8 == x / 8)) [
              | inl same ↦
                  let found_x : get_elem? vec (x / 8) ≡ some b =
                    subst (λ (k : ℕ). get_elem? vec k ≡ some b) (ground arith) found in
                  let split : (id % 8 == x % 8) ≡ (id == x) = ground arith in
                  rw (same, found_x, test_bit-set_bit b (id % 8) (x % 8), split)
              | inr other ↦ let differ : (id == x) ≡ false = ground arith in rw (other, differ)
            ]),
    )

set_shards_bits :
    (endians : Endians) (ids vec : List ℕ)
    → All (λ (id : ℕ). id < 8 * length vec) ids
    → (vec' : List ℕ) × (set_shards endians vec ids ≡ some vec')
      × (length vec' ≡ length vec)
      × ((x : ℕ) → bit_at vec' x ≡ (has x ids || bit_at vec x))
unfolding set_shards has
set_shards_bits endians [] vec h = (vec, refl, refl, λ x. refl)
set_shards_bits endians (id ∷ ids) vec h =
    let (mid, set, same, bits) = set_shard_bits endians vec id h.0 in
    let within : All (λ (id : ℕ). id < 8 * length mid) ids =
      subst (λ (n : ℕ). All (λ (id : ℕ). id < 8 * n) ids) (sym same) h.1 in
    let (vec', rest, same', bits') = set_shards_bits endians ids mid within in
    (vec', rw (set, rest), omega arith, λ x. rw (bits' x, bits x) (ground arith))

bit_at_empty : (n x : ℕ) → bit_at (replicate n 0) x ≡ false
bit_at_empty n x = empty_lem n (x / 8)
  where
    empty_lem : (n k : ℕ) → bit_of (get_elem? (replicate n 0) k) (x % 8) ≡ false
    empty_lem zero k = refl
    empty_lem (suc n) zero = test_bit_empty (x % 8)
    empty_lem (suc n) (suc k) = empty_lem n k

-- For a cluster of 16 bits and shards up to 1023, in any order and with repetitions: there is a bit
-- vector, its reader accepts it, and what it reads contains the same shards of the same cluster.
pub from_bit_vector-to_bit_vector :
    (endians : Endians) (rs : RelayShards)
    → IsUint16 rs.cluster_id
    → All (λ (id : ℕ). id ≤ 1023) rs.shard_ids
    → (buf : List ℕ) × (back : RelayShards) × (to_bit_vector endians rs ≡ some buf)
      × (from_bit_vector endians buf ≡ ok back)
      × ((cluster_id shard_id : ℕ)
          → contains back cluster_id shard_id ≡ contains rs cluster_id shard_id)
unfolding to_bit_vector from_bit_vector contains
from_bit_vector-to_bit_vector endians rs c h =
    let (vec, set, sized, bits) =
      set_shards_bits endians rs.shard_ids (replicate 128 0) (within rs.shard_ids h) in
    let cluster = Endians.to_bytes_be endians rs.cluster_id in
    let two : length cluster ≡ 2 = Endians.length-to_bytes_be endians rs.cluster_id in
    let whole : (length (cluster ++ vec) == 130) ≡ true =
      ground (arith, length-append cluster vec, sized, two) in
    (
      cluster ++ vec,
      record { cluster_id = rs.cluster_id; shard_ids = shards_of_bytes endians vec 0 },
      rw set,
      rw (
        whole,
        take-append 2 cluster vec two,
        drop-append 2 cluster vec two,
        Endians.from-to endians rs.cluster_id c,
      ),
      λ cluster_id shard_id.
          rw (has-all_bytes endians vec shard_id, bits shard_id, bit_at_empty 128 shard_id)
            (ground arith),
    )
  where
    within :
        (ids : List ℕ)
        → All (λ (id : ℕ). id ≤ 1023) ids
        → All (λ (id : ℕ). id < 8 * length (replicate {A = ℕ} 128 0)) ids
    within [] h = tt
    within (id ∷ ids) h = (omega (arith, h.0), within ids h.1)
