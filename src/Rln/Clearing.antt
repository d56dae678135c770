-- ===== src/Rln/Clearing.antt =====
-- waku/waku_rln_relay/rln_relay.nim: the validator of the relay over any sequence of messages and of
-- changes of the window of roots. It clears the log of nullifiers before each message.
use nwaku.Base.{
  ℕ, lt→ltb, ap₂, ◌+◌, ◌≤◌, ◌<◌, ◌≡◌, refl, arith, Bool, true, Option-cases, ◌∙◌, ap, none, List,
  [], ◌∷◌, ◌++◌, inl, inr, length, length-drop,
}
use nwaku.Message.{WakuMessage}
use nwaku.Rln.Log.{clear_nullifier_log, clear_nullifier_log-drop, length-update_log_le}
use nwaku.Rln.Validation.{
  MessageValidationResult, valid, invalid, spam, ValidationResult, accept, reject, WakuRlnRelay,
  Libraries, init, validate_message_and_update_log, clear, verdict, validator,
}
use nwaku.Rln.Limits.{
  Event, received, roots_changed, Tag, Distinct, tag, if_valid, after, change_roots, found_valid,
  found_valid-Distinct, logged-cases,
}

-- A log within its bound, and a gap of at least one epoch.
pub record IsBounded (s : WakuRlnRelay) : Type 0 where
  pub positive : 1 ≤ s.rln_max_epoch_gap
  pub bounded : length s.nullifier_log ≤ s.rln_max_epoch_gap

module _ (lib : Libraries) where
  undecoded :
      (s : WakuRlnRelay) (now : ℕ) (m : WakuMessage)
      → init lib m.proof ≡ none
      → validate_message_and_update_log lib s now m ≡ (invalid, s)
  unfolding validate_message_and_update_log
  undecoded s now m bad = rw bad

  -- A message that cannot be decoded needs no case of its own.
  pub validator_lem :
      (handler : Bool) (s : WakuRlnRelay) (now : ℕ) (m : WakuMessage)
      → validator lib handler s now m
        ≡ verdict lib handler (validate_message_and_update_log lib (clear lib s) now m)
  unfolding validator
  validator_lem handler s now m = elim (Option-cases (init lib m.proof)) [
    | inl bad ↦ rw (bad, undecoded (clear lib s) now m bad)
    | inr (p, decoded) ↦ rw decoded
  ]

  -- The verdicts, each with whether the handler for spam was called.
  unfoldable pub verdicts : WakuRlnRelay → List Event → List (ValidationResult × Bool)
  verdicts s [] = []
  verdicts s (received now m ∷ es) =
      let r = validator lib true s now m in (r.0, r.1) ∷ verdicts r.2 es
  verdicts s (roots_changed roots ∷ es) = verdicts (change_roots lib s roots) es

  unfoldable pub state_after : WakuRlnRelay → List Event → WakuRlnRelay
  state_after s [] = s
  state_after s (received now m ∷ es) = state_after (validator lib true s now m).2 es
  state_after s (roots_changed roots ∷ es) = state_after (change_roots lib s roots) es

  abbrev pub if_accepted : ValidationResult → List Tag → List Tag
  if_accepted accept ts = ts
  if_accepted reject ts = []

  -- The epochs and the metadata of the messages that are accepted.
  unfoldable pub accepted : WakuRlnRelay → List Event → List Tag
  accepted s [] = []
  accepted s (received now m ∷ es) =
      let r = validator lib true s now m in
      if_accepted r.0 (tag lib (init lib m.proof)) ++ accepted r.2 es
  accepted s (roots_changed roots ∷ es) = accepted (change_roots lib s roots) es

  pub verdict-after :
      (handler : Bool) (r : MessageValidationResult × WakuRlnRelay)
      → (verdict lib handler r).2 ≡ r.1
  verdict-after handler (valid, s) = refl
  verdict-after handler (invalid, s) = refl
  verdict-after handler (spam, s) = refl

  pub validator-after :
      (handler : Bool) (s : WakuRlnRelay) (now : ℕ) (m : WakuMessage)
      → (validator lib handler s now m).2 ≡ after lib (clear lib s) now m
  validator-after handler s now m = rw validator_lem (verdict-after handler _)

  room-clear :
      (s : WakuRlnRelay) → IsBounded s → length (clear lib s).nullifier_log < s.rln_max_epoch_gap
  unfolding clear
  room-clear s h =
      rw clear_nullifier_log-drop
        (ground (arith, h.positive, h.bounded, length-drop s.rln_max_epoch_gap s.nullifier_log))

  after-IsBounded :
      (s : WakuRlnRelay) (now : ℕ) (m : WakuMessage)
      → length s.nullifier_log < s.rln_max_epoch_gap
      → IsBounded (after lib s now m)
  after-IsBounded s now m h = elim (logged-cases lib s now m) [
    | inl same ↦
        rw (after, same) (record { positive = omega (arith, h); bounded = omega (arith, h) })
    | inr (p, d, decoded, extracted, same) ↦
        rw (after, same)
          (record {
            positive = omega (arith, h);
            bounded = omega (arith, h, length-update_log_le s.nullifier_log p.epoch d);
          })
  ]

  validator-IsBounded :
      (s : WakuRlnRelay) (now : ℕ) (m : WakuMessage)
      → IsBounded s
      → IsBounded (validator lib true s now m).2
  validator-IsBounded s now m h =
      rw validator-after (after-IsBounded (clear lib s) now m (unfold clear in room-clear s h))

  -- From a log of at most as many epochs as the gap, which is not 0, no sequence of messages and of
  -- changes of the roots leaves a log of more epochs than that.
  pub state_after-IsBounded :
      (s : WakuRlnRelay) (es : List Event) → IsBounded s → IsBounded (state_after s es)
  unfolding state_after
  state_after-IsBounded s [] h = h
  state_after-IsBounded s (received now m ∷ es) h =
      state_after-IsBounded _ es (validator-IsBounded s now m h)
  state_after-IsBounded s (roots_changed roots ∷ es) h =
      state_after-IsBounded (change_roots lib s roots) es
        (record { positive = h.positive; bounded = h.bounded })

  -- Below the bound nothing is cleared.
  pub clear-same :
      (s : WakuRlnRelay) → length s.nullifier_log < s.rln_max_epoch_gap → clear lib s ≡ s
  unfolding clear clear_nullifier_log
  clear-same s h = rw (lt→ltb _ _ h)

  pub after_grows :
      (s : WakuRlnRelay) (now : ℕ) (m : WakuMessage)
      → (length (after lib s now m).nullifier_log ≤ length s.nullifier_log + 1)
        × ((after lib s now m).rln_max_epoch_gap ≡ s.rln_max_epoch_gap)
  after_grows s now m = elim (logged-cases lib s now m) [
    | inl same ↦ rw (after, same) (omega arith, refl)
    | inr (p, d, decoded, extracted, same) ↦
        rw (after, same) (length-update_log_le s.nullifier_log p.epoch d, refl)
  ]

  if_accepted-verdict :
      (r : MessageValidationResult × WakuRlnRelay) (ts : List Tag)
      → if_accepted (verdict lib true r).0 ts ≡ if_valid lib r.0 ts
  if_accepted-verdict (valid, s) ts = refl
  if_accepted-verdict (invalid, s) ts = refl
  if_accepted-verdict (spam, s) ts = refl

  -- While nothing is cleared, the accepted messages are those that are found valid.
  accepted-found_valid :
      (s : WakuRlnRelay) (es : List Event)
      → length s.nullifier_log + length es ≤ s.rln_max_epoch_gap
      → accepted s es ≡ found_valid lib s es
  unfolding accepted found_valid
  accepted-found_valid s [] h = refl
  accepted-found_valid s (roots_changed roots ∷ es) h =
      accepted-found_valid (change_roots lib s roots) es (omega (arith, h))
  accepted-found_valid s (received now m ∷ es) h =
      let (grown, gap) = after_grows s now m in
      let rest = accepted-found_valid (after lib s now m) es (omega (arith, h, grown, gap)) in
      rw (validator_lem, clear-same s (omega (arith, h)))
        (ap₂ (λ a b. a ++ b)
          (if_accepted-verdict (validate_message_and_update_log lib s now m)
            (tag lib (init lib m.proof)))
          (ap (λ s'. accepted s' es)
              (verdict-after true (validate_message_and_update_log lib s now m))
            ∙ rest))

  -- From a log with room for as many epochs as there are messages and changes of the roots, of the
  -- messages that the validator accepts no two have both the same epoch and the same nullifier.
  pub accepted-Distinct :
      (s : WakuRlnRelay) (es : List Event)
      → length s.nullifier_log + length es ≤ s.rln_max_epoch_gap
      → Distinct (accepted s es)
  accepted-Distinct s es h = rw (accepted-found_valid s es h) (found_valid-Distinct lib s es)
