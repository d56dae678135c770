-- ===== src/Enr/Sharding.antt =====
-- waku/waku_enr/sharding.nim: the shards of a node, and the two forms in which its record has them:
-- a list of indices, and a vector with a bit for each shard. A `uint16` is a number, and an access
-- outside a sequence, an IndexDefect, is `none`.
pub mod Indices
pub mod BitVector
use nwaku.Base.{
  ℕ, zero, suc, ◌+◌, ◌-◌, ◌*◌, ◌/◌, ◌%◌, ◌^◌, ◌≤◌, ◌<◌, ◌≡◌, ltb, ◌==◌, if◌then◌else◌, Bool, true,
  false, ◌||◌, ◌&&◌, not, Option, none, some, List, [], ◌∷◌, ◌++◌, length, get_elem?, take, drop,
  replicate, codes, store, ◌>>=◌, All, has,
}
use nwaku.Base.Decimal.{print}
use nwaku.Enr.Bitops.{set_bit, test_bit}

-- stew/endians2 at `uint16`: two bytes, in network order, that stand for the number.
pub record Endians : Type 0 where
  pub to_bytes_be : ℕ → List ℕ
  pub from_bytes_be : List ℕ → ℕ
  pub length-to_bytes_be : (n : ℕ) → length (to_bytes_be n) ≡ 2
  pub from-to : (n : ℕ) → n < 2 ^ 16 → from_bytes_be (to_bytes_be n) ≡ n
  pub to-from :
      (a b : ℕ) → a < 256 → b < 256 → to_bytes_be (from_bytes_be (a ∷ b ∷ [])) ≡ a ∷ b ∷ []

-- A result, or the text of an error.
pub data Result {ℓ} (A : Type ℓ) : Type ℓ where
  ok : A → Result A
  err : List ℕ → Result A

pub record RelayShards : Type 0 where
  pub cluster_id : ℕ
  pub shard_ids : List ℕ

abbrev pub max_shard_index : ℕ
max_shard_index = 1023

unfoldable pub contains : RelayShards → ℕ → ℕ → Bool
contains rs cluster_id shard_id = (rs.cluster_id == cluster_id) && has shard_id rs.shard_ids

unfoldable pub any_above : List ℕ → Bool
any_above [] = false
any_above (x ∷ xs) = ltb max_shard_index x || any_above xs

-- `deduplicate` of std/sequtils keeps the first of equal elements; `seen` are those before.
unfoldable pub deduplicate : List ℕ → List ℕ → List ℕ
deduplicate seen [] = []
deduplicate seen (x ∷ xs) =
    let rest = deduplicate (x ∷ seen) xs in if has x seen then rest else x ∷ rest

unfoldable pub init : ℕ → List ℕ → Result RelayShards
unfolding any_above deduplicate
init cluster_id shard_ids =
    if any_above shard_ids
    then err (codes "invalid shard")
    else (if ltb (length shard_ids) 1
        then err (codes "invalid shard count")
        else ok (record { cluster_id = cluster_id; shard_ids = deduplicate [] shard_ids }))

module _ (endians : Endians) where
  open endians use {to_bytes_be, from_bytes_be}

  unfoldable pub shard_bytes : List ℕ → List ℕ
  shard_bytes [] = []
  shard_bytes (id ∷ ids) = to_bytes_be id ++ shard_bytes ids

  unfoldable pub to_indices_list : RelayShards → Result (List ℕ)
  unfolding shard_bytes
  to_indices_list rs =
      if ltb 255 (length rs.shard_ids)
      then err (codes "shards list too long")
      else ok (to_bytes_be rs.cluster_id ++ (length rs.shard_ids % 256) ∷ shard_bytes rs.shard_ids)

  -- The loop over `i` from a given `i` on: `buf[3 + 2 * i ..< 5 + 2 * i]`.
  unfoldable pub read_shards : List ℕ → ℕ → ℕ → List ℕ
  read_shards buf i zero = []
  read_shards buf i (suc rounds) =
      from_bytes_be (take 2 (drop (3 + 2 * i) buf)) ∷ read_shards buf (suc i) rounds

  unfoldable pub from_indices_list : List ℕ → Result RelayShards
  unfolding read_shards
  from_indices_list (a ∷ b ∷ len ∷ more) =
      let buf = a ∷ b ∷ len ∷ more in
      if not (length buf == 3 + 2 * len)
      then err (
          codes "invalid data: `length` field is "
          ++ (print len ++ (codes " but " ++ (print (length buf) ++ codes " bytes were provided"))))
      else ok
          (record { cluster_id = from_bytes_be (take 2 buf); shard_ids = read_shards buf 0 len })
  from_indices_list buf = err (
      codes "insufficient data: expected at least 3 bytes, got "
      ++ (print (length buf) ++ codes " bytes"))

  -- `vec[shardId div 8].setBit(shardId mod 8)`
  unfoldable pub set_shard : List ℕ → ℕ → Option (List ℕ)
  set_shard vec id = get_elem? vec (id / 8) >>= λ b. store vec (id / 8) (set_bit b (id % 8))

  unfoldable pub set_shards : List ℕ → List ℕ → Option (List ℕ)
  unfolding set_shard
  set_shards vec [] = some vec
  set_shards vec (id ∷ ids) = set_shard vec id >>= λ vec'. set_shards vec' ids

  unfoldable pub to_bit_vector : RelayShards → Option (List ℕ)
  unfolding set_shards
  to_bit_vector rs =
      set_shards (replicate 128 0) rs.shard_ids >>= λ vec. some (to_bytes_be rs.cluster_id ++ vec)

  -- The loop over `j` from a given `j` on.
  unfoldable pub shards_of_byte : ℕ → ℕ → ℕ → ℕ → List ℕ
  shards_of_byte byte i j zero = []
  shards_of_byte byte i j (suc rounds) =
      let rest = shards_of_byte byte i (suc j) rounds in
      if test_bit byte j then (j + 8 * i) ∷ rest else rest

  unfoldable pub shards_of_bytes : List ℕ → ℕ → List ℕ
  unfolding shards_of_byte
  shards_of_bytes [] i = []
  shards_of_bytes (b ∷ bs) i = shards_of_byte b i 0 8 ++ shards_of_bytes bs (suc i)

  unfoldable pub from_bit_vector : List ℕ → Result RelayShards
  unfolding shards_of_bytes
  from_bit_vector buf =
      if not (length buf == 130)
      then err (codes "invalid data: expected 130 bytes")
      else ok (record {
        cluster_id = from_bytes_be (take 2 buf);
        shard_ids = shards_of_bytes (drop 2 buf) 0;
      })
