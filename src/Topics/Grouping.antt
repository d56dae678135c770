-- ===== src/Topics/Grouping.antt =====
-- waku/waku_core/topics/sharding.nim: `parseSharding`, which sorts content topics by the pub-sub
-- topic that they belong to. The order of an association list stands for that of the hash table.
use nwaku.Base.{
  ℕ, ◌≡◌, ◌∙◌, refl, sym, ap, arith, Bool, true, false, ◌==◌, ◌&&◌, if◌then◌else◌, Option, none,
  some, List, [], ◌∷◌, ◌++◌, All, codes, Bool-cases, inl, inr,
}
use mathlib.Core.List.{append-nil, append_assoc}
use nwaku.Topics.Text.{Parsed-cases, error_text, Parsed, ok, err, defect}
use nwaku.Topics.Content.{NsContentTopic, parse_content}
use nwaku.Topics.Pubsub.{NsPubsubTopic, static_sharding, named_sharding, Base10, parse_pubsub}
use nwaku.Topics.Autosharding.{
  Sharding, Digest, Outcome, done, failed, crashed, Outcome-cases, get_shard,
}

unfoldable pub eq_text : List ℕ → List ℕ → Bool
eq_text [] [] = true
eq_text (x ∷ xs) (y ∷ ys) = (x == y) && eq_text xs ys
eq_text _ _ = false

unfoldable pub eq_pubsub : NsPubsubTopic → NsPubsubTopic → Bool
unfolding eq_text
eq_pubsub (static_sharding c s) (static_sharding d t) = (c == d) && (s == t)
eq_pubsub (named_sharding a) (named_sharding b) = eq_text a b
eq_pubsub _ _ = false

abbrev pub TopicMap : Type 0
TopicMap = List (NsPubsubTopic × List NsContentTopic)

unfoldable pub topics_at : NsPubsubTopic → TopicMap → List NsContentTopic
topics_at p [] = []
topics_at p ((q, ts) ∷ r) = if eq_pubsub q p then ts else topics_at p r

-- A new key with an empty sequence if there is none, and `add` to its sequence.
unfoldable pub add_topic : NsPubsubTopic → NsContentTopic → TopicMap → TopicMap
add_topic p t [] = (p, t ∷ []) ∷ []
add_topic p t ((q, ts) ∷ r) =
    if eq_pubsub q p then (q, ts ++ t ∷ []) ∷ r else (q, ts) ∷ add_topic p t r

eq_text→eq : (xs ys : List ℕ) → eq_text xs ys ≡ true → xs ≡ ys
unfolding eq_text
eq_text→eq [] [] h = refl
eq_text→eq [] (y ∷ ys) h = cc
eq_text→eq (x ∷ xs) [] h = cc
eq_text→eq (x ∷ xs) (y ∷ ys) h = ground (arith, eq_text→eq xs ys)

eq_pubsub→eq : (p q : NsPubsubTopic) → eq_pubsub p q ≡ true → p ≡ q
unfolding eq_pubsub
eq_pubsub→eq (static_sharding c s) (static_sharding d t) h = ground arith
eq_pubsub→eq (static_sharding c s) (named_sharding b) h = cc
eq_pubsub→eq (named_sharding a) (static_sharding d t) h = cc
eq_pubsub→eq (named_sharding a) (named_sharding b) h = ap named_sharding (eq_text→eq a b h)

apart :
    (r q p : NsPubsubTopic) → eq_pubsub r q ≡ false → eq_pubsub r p ≡ true → eq_pubsub q p ≡ false
apart r q p h k = elim (Bool-cases (eq_pubsub q p)) [
  | inl same ↦ cc (ap (eq_pubsub r) (eq_pubsub→eq q p same))
  | inr other ↦ other
]

topics_at-add_topic :
    (q : NsPubsubTopic) (t : NsContentTopic) (m : TopicMap) (p : NsPubsubTopic)
    → topics_at p (add_topic q t m) ≡ topics_at p m ++ (if eq_pubsub q p then t ∷ [] else [])
unfolding topics_at add_topic
topics_at-add_topic q t [] p = refl
topics_at-add_topic q t ((r, ts) ∷ m) p = elim (Bool-cases (eq_pubsub r q)) [
  | inl here ↦
      let key : eq_pubsub r p ≡ eq_pubsub q p = ap (λ k. eq_pubsub k p) (eq_pubsub→eq r q here) in
      rw here (elim (Bool-cases (eq_pubsub q p)) [
        | inl at_p ↦ rw (key, at_p)
        | inr off_p ↦ rw (key, off_p, append-nil)
      ])
  | inr other ↦ rw other (elim (Bool-cases (eq_pubsub r p)) [
    | inl at_p ↦ rw (at_p, apart r q p other at_p, append-nil)
    | inr off_p ↦ rw off_p (topics_at-add_topic q t m p)
  ])
]

done-injective : {A : Type 0} {x y : A} → done x ≡ done y → x ≡ y
done-injective {A} {x} h =
    ap (λ (r : Outcome A). elim r [ done a ↦ a | failed e ↦ x | crashed ↦ x ]) h

module _ (base10 : Base10) (digest : Digest) (s : Sharding) where
  abbrev pub given_pubsub : Parsed NsPubsubTopic → Outcome NsPubsubTopic
  given_pubsub (ok p) = done p
  given_pubsub (err e) = failed (codes "Cannot parse pubsub topic: " ++ error_text e)
  given_pubsub defect = crashed

  abbrev pub computed_pubsub : Outcome NsPubsubTopic → Outcome NsPubsubTopic
  computed_pubsub (done p) = done p
  computed_pubsub (failed e) = failed (codes "Cannot autoshard content topic: " ++ e)
  computed_pubsub crashed = crashed

  unfoldable pub pubsub_for : Option (List ℕ) → NsContentTopic → Outcome NsPubsubTopic
  unfolding error_text
  pubsub_for (some pubsub) t = given_pubsub (parse_pubsub base10 pubsub)
  pubsub_for none t = computed_pubsub (get_shard digest s t)

  -- The loop over the content topics.
  unfoldable pub parse_sharding_from : Option (List ℕ) → List (List ℕ) → TopicMap → Outcome TopicMap
  unfolding pubsub_for add_topic
  parse_sharding_from pubsub [] m = done m
  parse_sharding_from pubsub (text ∷ texts) m = elim (parse_content text) [
    | ok t ↦ elim (pubsub_for pubsub t) [
      | done p ↦ parse_sharding_from pubsub texts (add_topic p t m)
      | failed e ↦ failed e
      | crashed ↦ crashed
    ]
    | err e ↦ failed (codes "Cannot parse content topic: " ++ error_text e)
    | defect ↦ crashed
  ]

  unfoldable pub parse_sharding : Option (List ℕ) → List (List ℕ) → Outcome TopicMap
  unfolding parse_sharding_from
  parse_sharding pubsub texts = parse_sharding_from pubsub texts []

  -- The content topics of the texts, in their order, that belong to a pub-sub topic.
  abbrev belonging : NsPubsubTopic → NsContentTopic → Outcome NsPubsubTopic → List NsContentTopic
  belonging p t (done q) = if eq_pubsub q p then t ∷ [] else []
  belonging p t (failed e) = []
  belonging p t crashed = []

  abbrev parsed_to : Option (List ℕ) → NsPubsubTopic → Parsed NsContentTopic → List NsContentTopic
  parsed_to pubsub p (ok t) = belonging p t (pubsub_for pubsub t)
  parsed_to pubsub p (err e) = []
  parsed_to pubsub p defect = []

  abbrev pub belonging_to : Option (List ℕ) → NsPubsubTopic → List (List ℕ) → List NsContentTopic
  belonging_to pubsub p [] = []
  belonging_to pubsub p (text ∷ texts) =
      parsed_to pubsub p (parse_content text) ++ belonging_to pubsub p texts

  topics_at-parse_sharding_from :
      (pubsub : Option (List ℕ)) (texts : List (List ℕ)) (m m' : TopicMap)
      → parse_sharding_from pubsub texts m ≡ done m'
      → (p : NsPubsubTopic) → topics_at p m' ≡ topics_at p m ++ belonging_to pubsub p texts
  unfolding parse_sharding_from
  topics_at-parse_sharding_from pubsub [] m m' h p =
      ap (topics_at p) (sym (done-injective h)) ∙ sym (append-nil (topics_at p m))
  topics_at-parse_sharding_from pubsub (text ∷ texts) m m' h p =
      elim (Parsed-cases (parse_content text)) [
        | inr (inl (e, bad)) ↦ cc (rw (bad, parse_sharding_from) at h)
        | inr (inr crash) ↦ cc (rw (crash, parse_sharding_from) at h)
        | inl (t, parsed) ↦ elim (Outcome-cases (pubsub_for pubsub t)) [
          | inr (inl (e, bad)) ↦ cc (rw (parsed, bad, parse_sharding_from) at h)
          | inr (inr crash) ↦ cc (rw (parsed, crash, parse_sharding_from) at h)
          | inl (q, sharded) ↦
              let rest =
                topics_at-parse_sharding_from pubsub texts (add_topic q t m) m'
                  (rw (parsed, sharded, parse_sharding_from) at h) p in
              rw (parsed, sharded)
                (rest
                  ∙ ap (λ l. l ++ belonging_to pubsub p texts) (topics_at-add_topic q t m p)
                  ∙ append_assoc (topics_at p m) _ (belonging_to pubsub p texts))
        ]
      ]

  -- The text parses, and its content topic has a pub-sub topic.
  pub record IsPlaced (pubsub : Option (List ℕ)) (text : List ℕ) : Type 0 where
    pub topic : NsContentTopic
    pub parses : parse_content text ≡ ok topic
    pub place : NsPubsubTopic
    pub has_place : pubsub_for pubsub topic ≡ done place

  parse_sharding_from-done :
      (pubsub : Option (List ℕ)) (texts : List (List ℕ)) (m : TopicMap)
      → All (IsPlaced pubsub) texts
      → (m' : TopicMap) × (parse_sharding_from pubsub texts m ≡ done m')
  unfolding parse_sharding_from
  parse_sharding_from-done pubsub [] m placed = (m, refl)
  parse_sharding_from-done pubsub (text ∷ texts) m (here, placed) =
      let parses = here.parses in
      let has_place = here.has_place in
      let (m', whole) =
        parse_sharding_from-done pubsub texts (add_topic here.place here.topic m) placed in
      (m', rw (parses, has_place, parse_sharding_from) whole)

  -- If all texts parse, and all have a pub-sub topic, then `parseSharding` succeeds, and each pub-sub
  -- topic is given the content topics that belong to it, all of them and in their order.
  pub topics_at-parse_sharding :
      (pubsub : Option (List ℕ)) (texts : List (List ℕ))
      → All (IsPlaced pubsub) texts
      → (m : TopicMap) × (parse_sharding pubsub texts ≡ done m)
        × ((p : NsPubsubTopic) → topics_at p m ≡ belonging_to pubsub p texts)
  unfolding parse_sharding topics_at
  topics_at-parse_sharding pubsub texts placed =
      let (m, whole) = parse_sharding_from-done pubsub texts [] placed in
      (m, whole, topics_at-parse_sharding_from pubsub texts [] m whole)
