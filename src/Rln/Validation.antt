-- ===== src/Rln/Validation.antt =====
-- waku/waku_rln_relay/rln_relay.nim: `validateMessage`, `validateMessageAndUpdateLog` and the
-- validator of the relay; the decoding of a proof in protocol_types.nim, `extractMetadata` in
-- rln/wrappers.nim and `validateRoot` in group_manager/group_manager_base.nim. The reading of the
-- clock is an argument: the number of the current epoch. Metrics and logging are left out.
use nwaku.Base.{
  ◌>>=◌, ℕ, ◌+◌, ◌-◌, ◌*◌, ◌%◌, ◌^◌, Bool, true, false, not, ltb, ◌==◌, ◌||◌, if◌then◌else◌, Option,
  none, some, List, [], ◌∷◌, ◌++◌, take,
}
use nwaku.Message.{WakuMessage}
use nwaku.Rln.Log.{
  Epoch, Nullifier, MerkleNode, ProofMetadata, NullifierLog, has_duplicate, update_log,
  clear_nullifier_log,
}

pub record RateLimitProof : Type 0 where
  pub proof : ℕ
  pub merkle_root : MerkleNode
  pub epoch : Epoch
  pub share_x : MerkleNode
  pub share_y : MerkleNode
  pub nullifier : Nullifier
  pub rln_identifier : ℕ

pub data MessageValidationResult : Type 0 where
  valid : MessageValidationResult
  invalid : MessageValidationResult
  spam : MessageValidationResult

pub data ValidationResult : Type 0 where
  accept : ValidationResult
  reject : ValidationResult

-- The fields that the validator reads.
pub record WakuRlnRelay : Type 0 where
  pub nullifier_log : NullifierLog
  pub rln_max_epoch_gap : ℕ
  pub valid_roots : List MerkleNode

-- minprotobuf's `getField` for bytes, with no bytes for an absent field, and zerokit's hash function
-- and check of a proof: `none` is an error.
pub record Libraries : Type 0 where
  pub get_field : ℕ → List ℕ → Option (List ℕ)
  pub poseidon : ℕ → ℕ → Option ℕ
  pub proof_verify : List ℕ → RateLimitProof → List MerkleNode → Option Bool

-- `copyFrom` into an array of `n` zero bytes, as a number.
abbrev from_bytes_le : List ℕ → ℕ
from_bytes_le [] = 0
from_bytes_le (b ∷ bs) = b + 2 ^ 8 * from_bytes_le bs

unfoldable pub copy_from : ℕ → List ℕ → ℕ
copy_from n bytes = from_bytes_le (take n bytes)

abbrev pub to_epoch : ℕ → Epoch
to_epoch t = t

abbrev pub from_epoch : Epoch → ℕ
from_epoch e = e % 2 ^ 64

unfoldable pub abs_diff : Epoch → Epoch → ℕ
abs_diff e f =
    if ltb (from_epoch f) (from_epoch e)
    then from_epoch e - from_epoch f
    else from_epoch f - from_epoch e

unfoldable pub validate_root : List MerkleNode → MerkleNode → Bool
validate_root [] root = false
validate_root (r ∷ rs) root = (r == root) || validate_root rs root

module _ (lib : Libraries) where
  unfoldable pub init : List ℕ → Option RateLimitProof
  unfolding copy_from
  init buffer = do
    proof ← lib.get_field 1 buffer
    root ← lib.get_field 2 buffer
    epoch ← lib.get_field 3 buffer
    x ← lib.get_field 4 buffer
    y ← lib.get_field 5 buffer
    nullifier ← lib.get_field 6 buffer
    identifier ← lib.get_field 7 buffer
    some (record {
      proof = copy_from 128 proof;
      merkle_root = copy_from 32 root;
      epoch = copy_from 32 epoch;
      share_x = copy_from 32 x;
      share_y = copy_from 32 y;
      nullifier = copy_from 32 nullifier;
      rln_identifier = copy_from 32 identifier;
    })

  abbrev metadata : RateLimitProof → Option ℕ → Option ProofMetadata
  metadata p none = none
  metadata p (some external) = some (record {
    nullifier = p.nullifier;
    share_x = p.share_x;
    share_y = p.share_y;
    external_nullifier = external;
  })

  unfoldable pub extract_metadata : RateLimitProof → Option ProofMetadata
  extract_metadata p = metadata p (lib.poseidon p.epoch p.rln_identifier)

  abbrev pub unless_duplicate :
      WakuRlnRelay → Epoch → Option ProofMetadata → MessageValidationResult
  unless_duplicate s e none = invalid
  unless_duplicate s e (some d) = if has_duplicate s.nullifier_log e d then spam else valid

  abbrev pub verified : WakuRlnRelay → RateLimitProof → Option Bool → MessageValidationResult
  verified s p none = invalid
  verified s p (some false) = invalid
  verified s p (some true) = unless_duplicate s p.epoch (extract_metadata p)

  abbrev pub validate_proof :
      WakuRlnRelay → ℕ → WakuMessage → Option RateLimitProof → MessageValidationResult
  validate_proof s now m none = invalid
  validate_proof s now m (some p) =
      if ltb s.rln_max_epoch_gap (abs_diff (to_epoch now) p.epoch)
      then invalid
      else (if not (validate_root s.valid_roots p.merkle_root)
          then invalid
          else verified s p (lib.proof_verify (m.payload ++ m.content_topic) p s.valid_roots))

  unfoldable pub validate_message : WakuRlnRelay → ℕ → WakuMessage → MessageValidationResult
  validate_message s now m = validate_proof s now m (init m.proof)

  abbrev pub logged :
      WakuRlnRelay
      → MessageValidationResult
      → RateLimitProof
      → Option ProofMetadata
      → MessageValidationResult × WakuRlnRelay
  logged s r p none = (invalid, s)
  logged s r p (some d) = (r, record s { nullifier_log = update_log s.nullifier_log p.epoch d })

  abbrev pub logged_proof :
      WakuRlnRelay
      → MessageValidationResult
      → Option RateLimitProof
      → MessageValidationResult × WakuRlnRelay
  logged_proof s r none = (invalid, s)
  logged_proof s r (some p) = logged s r p (extract_metadata p)

  unfoldable pub validate_message_and_update_log :
      WakuRlnRelay → ℕ → WakuMessage → MessageValidationResult × WakuRlnRelay
  validate_message_and_update_log s now m = logged_proof s (validate_message s now m) (init m.proof)

  unfoldable pub clear : WakuRlnRelay → WakuRlnRelay
  clear s = record s { nullifier_log = clear_nullifier_log s.rln_max_epoch_gap s.nullifier_log }

  -- The verdict for the relay, and whether the handler for spam is called.
  abbrev pub verdict :
      Bool → MessageValidationResult × WakuRlnRelay → ValidationResult × Bool × WakuRlnRelay
  verdict has_handler (valid, s) = (accept, false, s)
  verdict has_handler (invalid, s) = (reject, false, s)
  verdict has_handler (spam, s) = (reject, has_handler, s)

  abbrev pub validate_decoded :
      Bool
      → WakuRlnRelay
      → ℕ
      → WakuMessage
      → Option RateLimitProof
      → ValidationResult × Bool × WakuRlnRelay
  validate_decoded has_handler s now m none = (reject, false, s)
  validate_decoded has_handler s now m (some p) =
      verdict has_handler (validate_message_and_update_log s now m)

  unfoldable pub validator :
      Bool → WakuRlnRelay → ℕ → WakuMessage → ValidationResult × Bool × WakuRlnRelay
  validator has_handler s now m = validate_decoded has_handler (clear s) now m (init m.proof)
