-- ===== src/Topics/Autosharding.antt =====
-- waku/waku_core/topics/sharding.nim: the pub-sub topic for a content topic. The hash function and
-- the reading of eight bytes as a number are libraries, and parameters here. An `int` and a `uint64`
-- have 64 bits; a conversion to a narrower unsigned type drops the higher bits.
use nwaku.Base.{
  ℕ, zero, ◌+◌, ◌-◌, ◌%◌, ◌^◌, ◌<◌, ◌≤◌, ◌≡◌, ◌≢◌, ◌⊎◌, refl, ap, arith, Option, none, some, List,
  ◌++◌, take, drop, codes, bit_and, inl, inr,
}
use nwaku.Base.Bits.{bit_and_step, bit_and-mask, pow-pos, pow-le}
use nwaku.Base.Int.{ℤ, pos}
use native.Mathlib.Nat.{mod-lt, mod-eq_of_lt}
use nwaku.Topics.Content.{NsContentTopic}
use nwaku.Topics.Pubsub.{NsPubsubTopic, static_sharding, named_sharding}

pub record Sharding : Type 0 where
  pub cluster_id : ℕ
  pub shard_count_gen_zero : ℕ

-- nimcrypto's SHA-256, and stew/endians2 at `uint64`.
pub record Digest : Type 0 where
  pub sha256 : List ℕ → List ℕ
  pub from_bytes_be : List ℕ → ℕ

-- A result, the text of an error, or a Defect, which ends the program.
pub data Outcome {ℓ} (A : Type ℓ) : Type ℓ where
  done : A → Outcome A
  failed : List ℕ → Outcome A
  crashed : Outcome A

pub Outcome-cases {ℓ} :
    {A : Type ℓ} (r : Outcome A)
    → ((a : A) × (r ≡ done a)) ⊎ ((e : List ℕ) × (r ≡ failed e)) ⊎ (r ≡ crashed)
Outcome-cases (done a) = inl (a, refl)
Outcome-cases (failed e) = inr (inl (e, refl))
Outcome-cases crashed = inr (inr refl)

abbrev shard_of : NsPubsubTopic → ℕ
shard_of (static_sharding cluster shard) = shard
shard_of (named_sharding name) = 0

module _ (digest : Digest) where
  unfoldable pub hash_value : NsContentTopic → ℕ
  hash_value t =
      digest.from_bytes_be (take 8 (drop 24 (digest.sha256 (t.application ++ t.version))))

  unfoldable pub get_gen_zero_shard : Sharding → NsContentTopic → ℕ → NsPubsubTopic
  unfolding hash_value
  get_gen_zero_shard s t count =
      let shard = bit_and (hash_value t) ((count + 2 ^ 64 - 1) % 2 ^ 64) in
      static_sharding (s.cluster_id % 2 ^ 16) (shard % 2 ^ 16)

  abbrev pub shard_for : Sharding → NsContentTopic → Option ℤ → Outcome NsPubsubTopic
  shard_for s t none = done (get_gen_zero_shard s t s.shard_count_gen_zero)
  shard_for s t (some (pos zero)) = done (get_gen_zero_shard s t s.shard_count_gen_zero)
  shard_for s t (some gen) = failed (codes "Generation > 0 are not supported yet")

  unfoldable pub get_shard : Sharding → NsContentTopic → Outcome NsPubsubTopic
  unfolding get_gen_zero_shard
  get_shard s t = shard_for s t t.generation

  -- With a number of shards that is a power of two, at most 2^16, the shard is the hash modulo that
  -- number, which is what the comment says.
  pub get_gen_zero_shard_mod :
      (s : Sharding) (t : NsContentTopic) (k : ℕ)
      → k ≤ 16
      → get_gen_zero_shard s t (2 ^ k)
        ≡ static_sharding (s.cluster_id % 2 ^ 16) (hash_value t % 2 ^ k)
  unfolding get_gen_zero_shard
  get_gen_zero_shard_mod s t k le =
      let small : 2 ^ k ≤ 2 ^ 16 = pow-le k 16 le in
      let mask : (2 ^ k + 2 ^ 64 - 1) % 2 ^ 64 ≡ 2 ^ k - 1 = omega (arith, pow-pos k, small) in
      let below : hash_value t % 2 ^ k < 2 ^ k = mod-lt (hash_value t) (pow-pos k) in
      let narrow : hash_value t % 2 ^ k % 2 ^ 16 ≡ hash_value t % 2 ^ k =
        mod-eq_of_lt (omega (arith, below, small)) in
      rw (mask, bit_and-mask k (hash_value t), narrow)

  -- With three shards the second one is never chosen.
  get_gen_zero_shard_three :
      (s : Sharding) (t : NsContentTopic) (cluster : ℕ)
      → get_gen_zero_shard s t 3 ≢ static_sharding cluster 1
  unfolding get_gen_zero_shard
  get_gen_zero_shard_three s t cluster h =
      let x = hash_value t in
      let is : bit_and x 2 % 2 ^ 16 ≡ 1 = ap shard_of h in omega (arith, bit_and_step x 2, is)
