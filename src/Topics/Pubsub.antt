-- ===== src/Topics/Pubsub.antt =====
-- waku/waku_core/topics/pubsub_topic.nim: the printed form of a pub-sub topic and its parser. A slice
-- of negative length is a Defect: `topic[n ..< topic.len]` of a text with fewer than `n` bytes.
use nwaku.Base.{
  ℕ, ◌^◌, ◌<◌, ◌≤◌, ◌≡◌, ◌≢◌, ◌↔◌, ◌⊎◌, refl, arith, true, false, not, ◌==◌, ltb, if◌then◌else◌,
  Option, none, some, List, [], ◌∷◌, ◌++◌, length, drop, codes, Bool-cases, inl, inr,
}
use nwaku.Base.Decimal.{print}
use nwaku.Topics.Text.{
  invalid_format, missing_part, Parsed, ok, err, defect, starts_with, split, split_plain,
  split-append, print-Without, print-ne-nil,
}

pub data NsPubsubTopic : Type 0 where
  static_sharding : ℕ → ℕ → NsPubsubTopic
  named_sharding : List ℕ → NsPubsubTopic

-- `Base10.decode` of stew/base10 at `uint16`: a number, or the text of an error.
pub data Decoded : Type 0 where
  decoded : ℕ → Decoded
  refused : List ℕ → Decoded

pub record Base10 : Type 0 where
  pub decode : List ℕ → Decoded
  pub decode-print : (n : ℕ) → n < 2 ^ 16 → decode (print n) ≡ decoded n

abbrev pub waku2_prefix : List ℕ
waku2_prefix = codes "/waku/2"

abbrev pub static_prefix : List ℕ
static_prefix = codes "/waku/2/rs"

unfoldable pub print_pubsub : NsPubsubTopic → List ℕ
print_pubsub (named_sharding name) = codes "/waku/2/" ++ name
print_pubsub (static_sharding cluster shard) =
    codes "/waku/2/rs/" ++ (print cluster ++ b'/' ∷ print shard)

unfoldable pub slice_from : ℕ → List ℕ → Option (List ℕ)
slice_from n s = if ltb (length s) n then none else some (drop n s)

abbrev pub IsPubsubTopic : NsPubsubTopic → Type 0
IsPubsubTopic (static_sharding cluster shard) = (cluster < 2 ^ 16) × (shard < 2 ^ 16)
IsPubsubTopic (named_sharding name) =
    (starts_with (codes "rs") name ≡ false) × ((length name == 0) ≡ false)

short_prefix : (p s : List ℕ) → starts_with p s ≡ true → length s ≤ length p → s ≡ p
unfolding starts_with
short_prefix [] [] h le = refl
short_prefix [] (c ∷ s) h le = absurd (omega arith)
short_prefix (c ∷ p) [] h le = cc
short_prefix (c ∷ p) (d ∷ s) h le = ground (arith, short_prefix p s)

module _ (base10 : Base10) where
  abbrev pub with_shard : ℕ → Decoded → Parsed NsPubsubTopic
  with_shard cluster (refused e) = err (invalid_format e)
  with_shard cluster (decoded shard) = ok (static_sharding cluster shard)

  abbrev pub with_cluster : Decoded → List ℕ → Parsed NsPubsubTopic
  with_cluster (refused e) shard = err (invalid_format e)
  with_cluster (decoded cluster) shard =
      if length shard == 0
      then err (missing_part (codes "shard_number"))
      else with_shard cluster (base10.decode shard)

  unfoldable pub static_parts : List (List ℕ) → Parsed NsPubsubTopic
  static_parts (cluster ∷ shard ∷ []) =
      if length cluster == 0
      then err (missing_part (codes "cluster_id"))
      else with_cluster (base10.decode cluster) shard
  static_parts _ = err (invalid_format (codes "invalid topic structure"))

  abbrev pub static_of : Option (List ℕ) → Parsed NsPubsubTopic
  static_of none = defect
  static_of (some rest) = static_parts (split b'/' rest)

  unfoldable pub parse_static_sharding : List ℕ → Parsed NsPubsubTopic
  unfolding static_parts slice_from
  parse_static_sharding topic =
      if not (starts_with static_prefix topic)
      then err (invalid_format (codes "must start with " ++ static_prefix))
      else static_of (slice_from 11 topic)

  abbrev pub named_of : Option (List ℕ) → Parsed NsPubsubTopic
  named_of none = defect
  named_of (some raw) =
      if length raw == 0 then err (missing_part (codes "topic-name")) else ok (named_sharding raw)

  unfoldable pub parse_named_sharding : List ℕ → Parsed NsPubsubTopic
  unfolding slice_from
  parse_named_sharding topic =
      if not (starts_with waku2_prefix topic)
      then err (invalid_format (codes "must start with " ++ waku2_prefix))
      else named_of (slice_from 8 topic)

  unfoldable pub parse_pubsub : List ℕ → Parsed NsPubsubTopic
  unfolding parse_static_sharding parse_named_sharding
  parse_pubsub topic =
      if starts_with static_prefix topic
      then parse_static_sharding topic
      else parse_named_sharding topic

  -- A static topic of 16-bit numbers, as it is printed, parses to the same topic.
  parse-print_static :
      (cluster shard : ℕ)
      → cluster < 2 ^ 16
      → shard < 2 ^ 16
      → parse_pubsub (print_pubsub (static_sharding cluster shard))
        ≡ ok (static_sharding cluster shard)
  unfolding parse_pubsub print_pubsub starts_with
  parse-print_static cluster shard hc hs =
      let rest = print cluster ++ b'/' ∷ print shard in
      let long : ltb (length (codes "/waku/2/rs/" ++ rest)) 11 ≡ false = ground arith in
      rw
        (
          long,
          split-append b'/' (print cluster) (print shard) (print-Without cluster),
          split_plain b'/' (print shard) (print-Without shard),
          print-ne-nil cluster,
          base10.decode-print cluster hc,
          print-ne-nil shard,
          base10.decode-print shard hs,
        )
        refl

  -- What is printed of a named topic parses to the same topic, unless the name is empty or begins
  -- with "rs".
  parse-print_named :
      (name : List ℕ)
      → starts_with (codes "rs") name ≡ false
      → (length name == 0) ≡ false
      → parse_pubsub (print_pubsub (named_sharding name)) ≡ ok (named_sharding name)
  unfolding parse_pubsub print_pubsub starts_with
  parse-print_named name h k =
      let long : ltb (length (codes "/waku/2/" ++ name)) 8 ≡ false = ground arith in
      let not_static : starts_with static_prefix (codes "/waku/2/" ++ name) ≡ false = h in
      rw (not_static, long, k)

  -- What is printed of a topic of two numbers of 16 bits, or of a name that is not empty and does
  -- not begin with "rs", parses to the same topic.
  pub parse_pubsub-print_pubsub :
      (t : NsPubsubTopic) → IsPubsubTopic t → parse_pubsub (print_pubsub t) ≡ ok t
  parse_pubsub-print_pubsub (static_sharding cluster shard) h =
      parse-print_static cluster shard h.0 h.1
  parse_pubsub-print_pubsub (named_sharding name) h = parse-print_named name h.0 h.1

  static_parts-ne-defect : (ws : List (List ℕ)) → static_parts ws ≢ defect
  unfolding static_parts
  static_parts-ne-defect [] h = cc
  static_parts-ne-defect (c ∷ []) h = cc
  static_parts-ne-defect (c ∷ s ∷ []) h = ground arith
  static_parts-ne-defect (c ∷ s ∷ r ∷ ws) h = cc

  crash_prefix : (s : List ℕ) → parse_pubsub s ≡ defect → (s ≡ waku2_prefix) ⊎ (s ≡ static_prefix)
  unfolding parse_pubsub
  crash_prefix s h = elim (Bool-cases (starts_with static_prefix s)) [
    | inl static ↦ elim (Bool-cases (ltb (length s) 11)) [
      | inl short ↦ inr (short_prefix static_prefix s static (ground arith))
      | inr long ↦ absurd (static_parts-ne-defect (split b'/' (drop 11 s)) (rw (static, long) at h))
    ]
    | inr other ↦ elim (Bool-cases (starts_with waku2_prefix s)) [
      | inl named ↦ elim (Bool-cases (ltb (length s) 8)) [
        | inl short ↦ inl (short_prefix waku2_prefix s named (ground arith))
        | inr long ↦ ground arith
      ]
      | inr neither ↦ cc (rw (other, neither) at h)
    ]
  ]

  -- The parser ends the program on exactly two texts, the two prefixes themselves.
  pub parse_pubsub_defect :
      (s : List ℕ) → (parse_pubsub s ≡ defect) ↔ ((s ≡ waku2_prefix) ⊎ (s ≡ static_prefix))
  parse_pubsub_defect s = (
    crash_prefix s,
    λ h. elim h [
      | inl e ↦ rw e (unfold parse_pubsub starts_with in refl)
      | inr e ↦ rw e (unfold parse_pubsub starts_with in refl)
    ],
  )
