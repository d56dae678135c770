-- ===== src/Rln/Limits.antt =====
-- waku/waku_rln_relay/rln_relay.nim: the limit that the log of nullifiers puts on the messages that
-- are found valid, in any sequence of messages and of changes of the window of roots.
use nwaku.Base.{
  ℕ, ltb, not, if◌then◌else◌, ◌≡◌, ◌≢◌, refl, Bool, true, false, Bool-cases, Option-cases, ◌⊎◌,
  Option, none, some, List, [], ◌∷◌, ◌++◌, All, inl, inr,
}
use nwaku.Message.{WakuMessage}
use nwaku.Rln.Log.{
  Epoch, MerkleNode, ProofMetadata, NullifierLog, has_duplicate, has_duplicate-update_log,
  update_log, update_log_keeps,
}
use nwaku.Rln.Validation.{
  RateLimitProof, MessageValidationResult, valid, invalid, spam, WakuRlnRelay, Libraries, init,
  extract_metadata, verified, unless_duplicate, abs_diff, validate_root, validate_message,
  validate_message_and_update_log,
}

pub data Event : Type 0 where
  received : ℕ → WakuMessage → Event
  roots_changed : List MerkleNode → Event

abbrev pub Tag : Type 0
Tag = Epoch × ProofMetadata

abbrev pub Apart : Tag → Tag → Type 0
Apart (e, d) (f, d') = ¬ ((e ≡ f) × (d.nullifier ≡ d'.nullifier))

-- No two of the tags have both the same epoch and the same nullifier.
abbrev pub Distinct : List Tag → Type 0
Distinct [] = Unit
Distinct (t ∷ ts) = All (Apart t) ts × Distinct ts

pub Result-cases : (r : MessageValidationResult) → (r ≡ valid) ⊎ ((r ≡ invalid) ⊎ (r ≡ spam))
Result-cases valid = inl refl
Result-cases invalid = inr (inl refl)
Result-cases spam = inr (inr refl)

has_duplicate-Apart :
    (l : NullifierLog) (e f : Epoch) (d d' : ProofMetadata)
    → has_duplicate l e d ≡ true
    → has_duplicate l f d' ≡ false
    → Apart (e, d) (f, d')
unfolding has_duplicate
has_duplicate-Apart l e f d d' h k (same, equal) = cc

module _ (lib : Libraries) where
  abbrev pub tag_of : RateLimitProof → Option ProofMetadata → List Tag
  tag_of p none = []
  tag_of p (some d) = (p.epoch, d) ∷ []

  abbrev pub tag : Option RateLimitProof → List Tag
  tag none = []
  tag (some p) = tag_of p (extract_metadata lib p)

  abbrev pub if_valid : MessageValidationResult → List Tag → List Tag
  if_valid valid ts = ts
  if_valid invalid ts = []
  if_valid spam ts = []

  abbrev pub change_roots : WakuRlnRelay → List MerkleNode → WakuRlnRelay
  change_roots s roots = record s { valid_roots = roots }

  -- The epochs and the metadata of the messages that are found valid.
  unfoldable pub found_valid : WakuRlnRelay → List Event → List Tag
  found_valid s [] = []
  found_valid s (received now m ∷ es) =
      let r = validate_message_and_update_log lib s now m in
      if_valid r.0 (tag (init lib m.proof)) ++ found_valid r.1 es
  found_valid s (roots_changed roots ∷ es) = found_valid (change_roots s roots) es

  verified_if :
      (far known : Bool) (proved : Option Bool) (s : WakuRlnRelay) (p : RateLimitProof)
      → (if far then invalid else (if not known then invalid else verified lib s p proved)) ≡ valid
      → (proved ≡ some true) × (unless_duplicate lib s p.epoch (extract_metadata lib p) ≡ valid)
  verified_if true known proved s p h = cc
  verified_if false false proved s p h = cc
  verified_if false true none s p h = cc
  verified_if false true (some false) s p h = cc
  verified_if false true (some true) s p h = (refl, h)

  pub validate_message-valid :
      (s : WakuRlnRelay) (now : ℕ) (m : WakuMessage)
      → validate_message lib s now m ≡ valid
      → (p : RateLimitProof) × (d : ProofMetadata) × (init lib m.proof ≡ some p)
        × (extract_metadata lib p ≡ some d)
        × (has_duplicate s.nullifier_log p.epoch d ≡ false)
  unfolding validate_message
  validate_message-valid s now m h = elim (Option-cases (init lib m.proof)) [
    | inl bad ↦ cc (rw bad at h)
    | inr (p, decoded) ↦
        let (proved, h') =
          verified_if (ltb s.rln_max_epoch_gap (abs_diff now p.epoch))
            (validate_root s.valid_roots p.merkle_root)
            (lib.proof_verify (m.payload ++ m.content_topic) p s.valid_roots) s p
            (rw decoded at h) in
        elim (Option-cases (extract_metadata lib p)) [
          | inl bad ↦ cc (rw bad at h')
          | inr (d, extracted) ↦ elim (Bool-cases (has_duplicate s.nullifier_log p.epoch d)) [
            | inl dup ↦ cc (rw (extracted, dup) at h')
            | inr new ↦ (p, d, decoded, extracted, new)
          ]
        ]
  ]

  -- The tag of a message, if it is found valid, and the state behind the message.
  abbrev pub tags : WakuRlnRelay → ℕ → WakuMessage → List Tag
  tags s now m = if_valid (validate_message_and_update_log lib s now m).0 (tag (init lib m.proof))

  abbrev pub after : WakuRlnRelay → ℕ → WakuMessage → WakuRlnRelay
  after s now m = (validate_message_and_update_log lib s now m).1

  -- A message changes nothing, or it is logged, whatever it is found to be.
  pub logged-cases :
      (s : WakuRlnRelay) (now : ℕ) (m : WakuMessage)
      → (validate_message_and_update_log lib s now m ≡ (invalid, s))
        ⊎ ((p : RateLimitProof) × (d : ProofMetadata) × (init lib m.proof ≡ some p)
            × (extract_metadata lib p ≡ some d)
            × (validate_message_and_update_log lib s now m ≡ (
              validate_message lib s now m,
              record s { nullifier_log = update_log s.nullifier_log p.epoch d },
            )))
  unfolding validate_message_and_update_log
  logged-cases s now m = elim (Option-cases (init lib m.proof)) [
    | inl bad ↦ inl (rw bad)
    | inr (p, decoded) ↦ elim (Option-cases (extract_metadata lib p)) [
      | inl bad ↦ inl (rw (decoded, bad))
      | inr (d, extracted) ↦ inr (p, d, decoded, extracted, rw (decoded, extracted))
    ]
  ]

  pub after_keeps :
      (s : WakuRlnRelay) (now : ℕ) (m : WakuMessage) (e : Epoch) (d : ProofMetadata)
      → has_duplicate s.nullifier_log e d ≡ true
      → has_duplicate (after s now m).nullifier_log e d ≡ true
  after_keeps s now m e d h = elim (logged-cases s now m) [
    | inl same ↦ rw (after, same) h
    | inr (p, d', decoded, extracted, same) ↦
        rw (after, same) (update_log_keeps s.nullifier_log e p.epoch d d' h)
  ]

  tag-logged :
      (s : WakuRlnRelay) (now : ℕ) (m : WakuMessage) (p : RateLimitProof) (d : ProofMetadata)
      → init lib m.proof ≡ some p
      → extract_metadata lib p ≡ some d
      → validate_message lib s now m ≡ valid
      → (tags s now m ≡ (p.epoch, d) ∷ [])
        × (has_duplicate (after s now m).nullifier_log p.epoch d ≡ true)
  unfolding validate_message_and_update_log
  tag-logged s now m p d decoded extracted is = (
    rw (tags, decoded, extracted, is),
    rw (after, decoded, extracted) (has_duplicate-update_log s.nullifier_log p.epoch d d refl),
  )

  tag-valid :
      (s : WakuRlnRelay) (now : ℕ) (m : WakuMessage)
      → validate_message lib s now m ≡ valid
      → (e : Epoch) × (d : ProofMetadata) × (tags s now m ≡ (e, d) ∷ [])
        × (has_duplicate s.nullifier_log e d ≡ false)
        × (has_duplicate (after s now m).nullifier_log e d ≡ true)
  tag-valid s now m is =
      let (p, d, decoded, extracted, new) = validate_message-valid s now m is in
      let (one, dup) = tag-logged s now m p d decoded extracted is in (p.epoch, d, one, new, dup)

  -- A message that is found valid was no duplicate, and is one from then on.
  pub tags-cases :
      (s : WakuRlnRelay) (now : ℕ) (m : WakuMessage)
      → (tags s now m ≡ [])
        ⊎ ((e : Epoch) × (d : ProofMetadata) × (tags s now m ≡ (e, d) ∷ [])
            × (has_duplicate s.nullifier_log e d ≡ false)
            × (has_duplicate (after s now m).nullifier_log e d ≡ true))
  tags-cases s now m = elim (Result-cases (validate_message lib s now m)) [
    | inl is ↦ inr (tag-valid s now m is)
    | inr other ↦ elim (logged-cases s now m) [
      | inl same ↦ inl (rw (tags, same))
      | inr (p, d, decoded, extracted, same) ↦ elim other [
        | inl is ↦ inl (rw (tags, same, is))
        | inr is ↦ inl (rw (tags, same, is))
      ]
    ]
  ]

  pub found_valid-Apart :
      (s : WakuRlnRelay) (es : List Event) (e : Epoch) (d : ProofMetadata)
      → has_duplicate s.nullifier_log e d ≡ true
      → All (Apart (e, d)) (found_valid s es)
  unfolding found_valid
  found_valid-Apart s [] e d h = tt
  found_valid-Apart s (roots_changed roots ∷ es) e d h =
      found_valid-Apart (change_roots s roots) es e d h
  found_valid-Apart s (received now m ∷ es) e d h =
      let rest = found_valid-Apart (after s now m) es e d (after_keeps s now m e d h) in
      elim (tags-cases s now m) [
        | inl none_valid ↦ rw none_valid rest
        | inr (f, d', one, new, logged) ↦
            rw one (has_duplicate-Apart s.nullifier_log e f d d' h new, rest)
      ]

  -- In any sequence of messages and of changes of the roots, of the messages that are found valid no
  -- two have both the same epoch and the same nullifier.
  pub found_valid-Distinct : (s : WakuRlnRelay) (es : List Event) → Distinct (found_valid s es)
  unfolding found_valid
  found_valid-Distinct s [] = tt
  found_valid-Distinct s (roots_changed roots ∷ es) = found_valid-Distinct (change_roots s roots) es
  found_valid-Distinct s (received now m ∷ es) =
      let rest = found_valid-Distinct (after s now m) es in
      elim (tags-cases s now m) [
        | inl none_valid ↦ rw none_valid rest
        | inr (e, d, one, new, logged) ↦
            rw one (found_valid-Apart (after s now m) es e d logged, rest)
      ]

  -- Behind a message with metadata, whatever it was found to be, no message with the same epoch and
  -- the same nullifier is found valid.
  pub validate_message-after :
      (s : WakuRlnRelay) (now now' : ℕ) (m m' : WakuMessage) (p p' : RateLimitProof)
      (d d' : ProofMetadata)
      → init lib m.proof ≡ some p
      → extract_metadata lib p ≡ some d
      → init lib m'.proof ≡ some p'
      → extract_metadata lib p' ≡ some d'
      → p.epoch ≡ p'.epoch
      → d.nullifier ≡ d'.nullifier
      → validate_message lib (after s now m) now' m' ≢ valid
  unfolding validate_message_and_update_log
  validate_message-after s now now' m m' p p' d d' decoded extracted decoded' extracted' he hd h =
      let (q, c, is, has, new) = validate_message-valid (after s now m) now' m' h in
      let logged : has_duplicate (after s now m).nullifier_log p.epoch d' ≡ true =
        rw (after, decoded, extracted) (has_duplicate-update_log s.nullifier_log p.epoch d d' hd) in
      cc
