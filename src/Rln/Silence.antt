-- ===== src/Rln/Silence.antt =====
-- waku/waku_rln_relay/rln_relay.nim: the validator of the relay when the gap is one epoch, which it
-- is for epochs of more than ten seconds.
use nwaku.Base.{
  ℕ, ltb, not, if◌then◌else◌, ◌≤◌, ◌≡◌, ◌≢◌, refl, arith, Bool, true, false, Option-cases, ◌∙◌, ap,
  Option, none, some, List, [], ◌∷◌, ◌++◌, All, inl, inr, length, drop,
}
use nwaku.Message.{WakuMessage}
use nwaku.Rln.Log.{NullifierLog, has_duplicate, clear_nullifier_log-drop}
use nwaku.Rln.Validation.{
  RateLimitProof, invalid, spam, WakuRlnRelay, Libraries, init, extract_metadata, verified,
  validate_message, validate_message_and_update_log, clear, verdict, validator, abs_diff,
  validate_root,
}
use nwaku.Rln.Limits.{
  Event, received, roots_changed, after, change_roots, logged-cases, Result-cases,
}
use nwaku.Rln.Clearing.{verdicts, validator_lem, validator-after, after_grows}

module _ (lib : Libraries) where
  no_spam :
      (far known : Bool) (proved : Option Bool) (s : WakuRlnRelay) (p : RateLimitProof)
      → s.nullifier_log ≡ []
      → (if far then invalid else (if not known then invalid else verified lib s p proved)) ≢ spam
  unfolding has_duplicate
  no_spam true known proved s p e h = cc
  no_spam false false proved s p e h = cc
  no_spam false true none s p e h = cc
  no_spam false true (some false) s p e h = cc
  no_spam false true (some true) s p e h = elim (Option-cases (extract_metadata lib p)) [
    | inl bad ↦ cc (rw bad at h)
    | inr (d, extracted) ↦
        let new : has_duplicate s.nullifier_log p.epoch d ≡ false = rw e refl in
        cc (rw (extracted, new) at h)
  ]

  first_epoch : (l : NullifierLog) → length l ≤ 1 → (if ltb (length l) 1 then l else drop 1 l) ≡ []
  first_epoch [] h = refl
  first_epoch (k ∷ []) h = refl
  first_epoch (k ∷ k' ∷ l) h = absurd (omega (arith, h))

  validate_message-ne-spam :
      (s : WakuRlnRelay) (now : ℕ) (m : WakuMessage)
      → s.nullifier_log ≡ []
      → validate_message lib s now m ≢ spam
  unfolding validate_message
  validate_message-ne-spam s now m e h = elim (Option-cases (init lib m.proof)) [
    | inl bad ↦ cc (rw bad at h)
    | inr (p, decoded) ↦
        no_spam (ltb s.rln_max_epoch_gap (abs_diff now p.epoch))
          (validate_root s.valid_roots p.merkle_root)
          (lib.proof_verify (m.payload ++ m.content_topic) p s.valid_roots) s p e (rw decoded at h)
  ]

  verdict_without_spam :
      (s : WakuRlnRelay) (now : ℕ) (m : WakuMessage)
      → s.nullifier_log ≡ []
      → (verdict lib true (validate_message_and_update_log lib s now m)).1 ≡ false
  verdict_without_spam s now m e = elim (logged-cases lib s now m) [
    | inl same ↦ rw same
    | inr (p, d, decoded, extracted, same) ↦
        rw same (elim (Result-cases (validate_message lib s now m)) [
          | inl is ↦ rw is
          | inr (inl is) ↦ rw is
          | inr (inr is) ↦ absurd (validate_message-ne-spam s now m e is)
        ])
  ]

  empty_clear :
      (s : WakuRlnRelay)
      → s.rln_max_epoch_gap ≡ 1
      → length s.nullifier_log ≤ 1
      → (clear lib s).nullifier_log ≡ []
  unfolding clear
  empty_clear s one h = rw (clear_nullifier_log-drop, one) (first_epoch s.nullifier_log h)

  -- With a gap of one epoch, and from a log of at most one, the handler for spam is called in no
  -- sequence of messages and of changes of the roots.
  pub verdicts_without_spam :
      (s : WakuRlnRelay) (es : List Event)
      → s.rln_max_epoch_gap ≡ 1
      → length s.nullifier_log ≤ 1
      → All (λ v. v.1 ≡ false) (verdicts lib s es)
  unfolding verdicts
  verdicts_without_spam s [] one h = tt
  verdicts_without_spam s (roots_changed roots ∷ es) one h =
      verdicts_without_spam (change_roots lib s roots) es one h
  verdicts_without_spam s (received now m ∷ es) one h =
      let empty = empty_clear s one h in
      let (grown, gap) = after_grows lib (clear lib s) now m in
      let next : (validator lib true s now m).2 ≡ after lib (clear lib s) now m =
        validator-after lib true s now m in
      (
        rw (validator_lem lib) (verdict_without_spam (clear lib s) now m empty),
        verdicts_without_spam _ es (rw next (gap ∙ (unfold clear in one)))
            (rw next (ground (arith, grown, ap length empty))),
      )
