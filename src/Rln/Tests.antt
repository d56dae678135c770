-- ===== src/Rln/Tests.antt =====
-- Concrete messages, roots and nonces, and the theorems at concrete inputs.
use nwaku.Base.{
  ◌↔◌, ℕ, suc, ◌+◌, ◌≡◌, refl, arith, Bool, false, leb, ◌==◌, if◌then◌else◌, Option, none, some,
  List, [], ◌∷◌, All, length, get_elem?, codes,
}
use nwaku.Message.{WakuMessage}
use nwaku.Rln.Log.{ProofMetadata, clear_nullifier_log, has_duplicate, update_log}
use nwaku.Rln.Validation.{
  RateLimitProof, valid, invalid, WakuRlnRelay, Libraries, copy_from, init, extract_metadata,
  validate_root, abs_diff, clear, validate_message, validate_message_and_update_log, validator,
}
use nwaku.Rln.Limits.{Event, received, roots_changed, Distinct, found_valid, found_valid-Distinct}
use nwaku.Rln.Acceptance.{IsAcceptable, validate_message_iff}
use nwaku.Rln.Clearing.{
  IsBounded, state_after, state_after-IsBounded, accepted, accepted-Distinct, verdicts,
}
use nwaku.Rln.Silence.{verdicts_without_spam}
use nwaku.Rln.Roots.{slide_root_queue, slide_roots}
use nwaku.Rln.Nonces.{NonceManager, get_nonces, get_nonces-frequent, counted}

-- A field is the byte at its place; a proof holds if its payload begins with its number.
abbrev field : Option ℕ → Option (List ℕ)
field none = some []
field (some b) = some (b ∷ [])

abbrev begins : List ℕ → ℕ → Option Bool
begins [] n = some false
begins (b ∷ bs) n = some (b == n)

abbrev lib : Libraries
lib = record {
  get_field = λ n buffer. field (get_elem? buffer n);
  poseidon = λ e i. some (e + i);
  proof_verify = λ input p roots. begins input p.proof;
}

abbrev message : ℕ → ℕ → ℕ → WakuMessage
message payload proof nullifier = record {
  payload = payload ∷ [];
  content_topic = codes "/a/1/b/c";
  meta = [];
  version = 0;
  timestamp = 0;
  ephemeral = false;
  proof = 0 ∷ proof ∷ 1 ∷ 100 ∷ 3 ∷ 4 ∷ nullifier ∷ 7 ∷ [];
}

abbrev relay : ℕ → WakuRlnRelay
relay gap = record { nullifier_log = []; rln_max_epoch_gap = gap; valid_roots = 1 ∷ [] }

-- Twice the same nullifier, and once another one.
abbrev events : List Event
events =
    received 100 (message 9 9 5)
    ∷ received 101 (message 8 8 5)
    ∷ roots_changed (1 ∷ 2 ∷ [])
    ∷ received 101 (message 8 8 6)
    ∷ []

first_and_third : length (found_valid lib (relay 20) events) ≡ 2
unfolding found_valid validate_message_and_update_log validate_message init extract_metadata
    validate_root abs_diff has_duplicate update_log copy_from
first_and_third = refl

second_accepted : length (accepted lib (relay 1) events) ≡ 3
unfolding accepted validator validate_message_and_update_log validate_message init extract_metadata
    validate_root abs_diff has_duplicate update_log copy_from clear clear_nullifier_log
second_accepted = refl

found_valid-Distinct_example : Distinct (found_valid lib (relay 20) events)
found_valid-Distinct_example = found_valid-Distinct lib (relay 20) events

accepted-Distinct_example : Distinct (accepted lib (relay 20) events)
accepted-Distinct_example = accepted-Distinct lib (relay 20) events (omega arith)

verdicts_without_spam_example : All (λ v. v.1 ≡ false) (verdicts lib (relay 1) events)
verdicts_without_spam_example = verdicts_without_spam lib (relay 1) events refl (omega arith)

state_after-IsBounded_example : IsBounded (state_after lib (relay 1) events)
state_after-IsBounded_example =
    state_after-IsBounded lib (relay 1) events
      (record { positive = omega arith; bounded = omega arith })

abbrev proof_of : ℕ → ℕ → RateLimitProof
proof_of proof nullifier = record {
  proof = proof;
  merkle_root = 1;
  epoch = 100;
  share_x = 3;
  share_y = 4;
  nullifier = nullifier;
  rln_identifier = 7;
}

abbrev metadata_of : ℕ → ProofMetadata
metadata_of nullifier = record {
  nullifier = nullifier;
  share_x = 3;
  share_y = 4;
  external_nullifier = 107;
}

-- Somebody changes the payload of a message: its proof does not hold, and it is logged.
tampered : validate_message lib (relay 20) 100 (message 7 9 5) ≡ invalid
unfolding validate_message init extract_metadata validate_root abs_diff has_duplicate copy_from
tampered = refl

decoded_lem : init lib (message 7 9 5).proof ≡ some (proof_of 9 5)
unfolding init copy_from
decoded_lem = refl

extracted_lem : extract_metadata lib (proof_of 9 5) ≡ some (metadata_of 5)
unfolding extract_metadata
extracted_lem = refl

abbrev roots : List ℕ
roots = 1 ∷ 2 ∷ 3 ∷ 4 ∷ 5 ∷ 6 ∷ 7 ∷ []

last_roots : slide_roots [] roots ≡ 3 ∷ 4 ∷ 5 ∷ 6 ∷ 7 ∷ []
unfolding slide_roots slide_root_queue
last_roots = refl

abbrev manager : NonceManager
manager = record { epoch = 10; next_nonce = 2; last_nonce_time = 0; nonce_limit = 2 }

abbrev times : List ℕ
times = 14 ∷ 20 ∷ 29 ∷ []

nonces_given : get_nonces manager (12 ∷ times) ≡ some 0 ∷ some 1 ∷ none ∷ none ∷ []
unfolding get_nonces
nonces_given = refl

get_nonces-frequent_example :
    get_nonces manager (12 ∷ times)
    ≡ counted 2 (if leb (0 + 10) 12 then 0 else 2) (suc (length times))
get_nonces-frequent_example =
    get_nonces-frequent manager 12 times (omega arith, (omega arith, (omega arith, tt)))
      (omega arith)

validate_message_iff_example :
    (validate_message lib (relay 20) 100 (message 9 9 5) ≡ valid)
    ↔ IsAcceptable lib (relay 20) 100 (message 9 9 5)
validate_message_iff_example = validate_message_iff lib (relay 20) 100 (message 9 9 5)
