-- ===== src/Rln/Acceptance.antt =====
-- waku/waku_rln_relay/rln_relay.nim: when `validateMessage` finds a message valid.
use nwaku.Base.{
  ℕ, zero, suc, ltb, not, if◌then◌else◌, ◌+◌, ◌*◌, ◌%◌, ◌^◌, ◌≤◌, ◌≡◌, ◌↔◌, refl, arith, Bool, true,
  false, ◌==◌, Bool-cases, Option, none, some, List, [], ◌∷◌, ◌++◌, inl, inr, get_elem?, ==_iff,
}
use nwaku.Message.{WakuMessage}
use nwaku.Rln.Log.{ProofMetadata, has_duplicate}
use nwaku.Rln.Validation.{
  RateLimitProof, valid, invalid, WakuRlnRelay, Libraries, init, extract_metadata, verified,
  validate_message, abs_diff, from_epoch, validate_root,
}
use nwaku.Rln.Limits.{validate_message-valid}

abs_diff_iff :
    (gap e f : ℕ)
    → (ltb gap (abs_diff e f) ≡ false)
      ↔ ((from_epoch e ≤ from_epoch f + gap) × (from_epoch f ≤ from_epoch e + gap))
unfolding abs_diff
abs_diff_iff gap e f = ground arith

-- Epochs that differ only behind their first eight bytes are equally far from the present one.
abs_diff_high_bytes : (now e k : ℕ) → abs_diff now (e + k * 2 ^ 64) ≡ abs_diff now e
unfolding abs_diff
abs_diff_high_bytes now e k =
    let low : (e + k * 2 ^ 64) % 2 ^ 64 ≡ e % 2 ^ 64 = omega arith in rw low

validate_root-position :
    (roots : List ℕ) (root : ℕ)
    → validate_root roots root ≡ true
    → (i : ℕ) × (get_elem? roots i ≡ some root)
unfolding validate_root
validate_root-position [] root h = cc
validate_root-position (r ∷ roots) root h = elim (Bool-cases (r == root)) [
  | inl here ↦ (0, rw ((==_iff r root).0 here) refl)
  | inr other ↦ let (i, is) = validate_root-position roots root (rw other at h) in (suc i, is)
]

position-validate_root :
    (roots : List ℕ) (root i : ℕ) → get_elem? roots i ≡ some root → validate_root roots root ≡ true
unfolding validate_root
position-validate_root [] root i h = cc
position-validate_root (r ∷ roots) root zero h = ground arith
position-validate_root (r ∷ roots) root (suc i) h =
    ground (arith, position-validate_root roots root i h)

-- The epoch of the message is near, its root is in the window, its proof holds, its metadata can be
-- extracted, and it is new.
pub record IsAcceptable (lib : Libraries) (s : WakuRlnRelay) (now : ℕ) (m : WakuMessage)
    : Type 0 where
  pub proof : RateLimitProof
  pub decoded : init lib m.proof ≡ some proof
  pub not_late : from_epoch now ≤ from_epoch proof.epoch + s.rln_max_epoch_gap
  pub not_early : from_epoch proof.epoch ≤ from_epoch now + s.rln_max_epoch_gap
  pub position : ℕ
  pub known : get_elem? s.valid_roots position ≡ some proof.merkle_root
  pub proved : lib.proof_verify (m.payload ++ m.content_topic) proof s.valid_roots ≡ some true
  pub metadata : ProofMetadata
  pub extracted : extract_metadata lib proof ≡ some metadata
  pub new : has_duplicate s.nullifier_log proof.epoch metadata ≡ false

module _ (lib : Libraries) where
  conditions :
      (far known : Bool) (proved : Option Bool) (s : WakuRlnRelay) (p : RateLimitProof)
      → (if far then invalid else (if not known then invalid else verified lib s p proved)) ≡ valid
      → (far ≡ false) × (known ≡ true) × (proved ≡ some true)
  conditions true known proved s p h = cc
  conditions false false proved s p h = cc
  conditions false true none s p h = cc
  conditions false true (some false) s p h = cc
  conditions false true (some true) s p h = (refl, refl, refl)

  valid-IsAcceptable :
      (s : WakuRlnRelay) (now : ℕ) (m : WakuMessage)
      → validate_message lib s now m ≡ valid
      → IsAcceptable lib s now m
  unfolding validate_message
  valid-IsAcceptable s now m h =
      let (p, d, decoded, extracted, new) = validate_message-valid lib s now m h in
      let (near, known, proved) =
        conditions (ltb s.rln_max_epoch_gap (abs_diff now p.epoch))
          (validate_root s.valid_roots p.merkle_root)
          (lib.proof_verify (m.payload ++ m.content_topic) p s.valid_roots) s p (rw decoded at h) in
      let (not_late, not_early) = (abs_diff_iff s.rln_max_epoch_gap now p.epoch).0 near in
      let (i, is) = validate_root-position s.valid_roots p.merkle_root known in
      record {
        proof = p;
        decoded = decoded;
        not_late = not_late;
        not_early = not_early;
        position = i;
        known = is;
        proved = proved;
        metadata = d;
        extracted = extracted;
        new = new;
      }

  acceptable-valid :
      (s : WakuRlnRelay) (now : ℕ) (m : WakuMessage)
      → IsAcceptable lib s now m
      → validate_message lib s now m ≡ valid
  unfolding validate_message
  acceptable-valid s now m h =
      let near = (abs_diff_iff s.rln_max_epoch_gap now h.proof.epoch).1 (h.not_late, h.not_early) in
      let known = position-validate_root s.valid_roots h.proof.merkle_root h.position h.known in
      rw (h.decoded, near, known, h.proved, h.extracted, h.new)

  -- A message is found valid if and only if its proof can be decoded, the first eight bytes of its
  -- epoch and of the present one differ by no more than the gap, its root is in the window, its proof
  -- holds for its payload and its topic, the proof's metadata can be extracted, and its epoch and the
  -- nullifier in them are not in the log.
  pub validate_message_iff :
      (s : WakuRlnRelay) (now : ℕ) (m : WakuMessage)
      → (validate_message lib s now m ≡ valid) ↔ IsAcceptable lib s now m
  validate_message_iff s now m = (valid-IsAcceptable s now m, acceptable-valid s now m)
