-- ===== src/Libwaku/State.antt =====
-- library/libwaku.nim: the state behind a context, shared memory, and what the functions have in
-- common.
use nwaku.Base.{ℕ, ◌+◌, ◌-◌, if◌then◌else◌, Bool, Option, none, some, List, [], ◌∷◌, ◌++◌, length}
use nwaku.Base.Program.{done, undefined, Proc, pure, fault, modify, ◌>>◌}
use nwaku.Message.{WakuMessage}
use nwaku.CClient.Requests.{
  Context, ctx, address_of_ctx, ret_ok_as_pointer, callback_as_pointer, Event, Reply, ret_ok,
  ret_err,
}
use nwaku.Libwaku.Requests.{
  Answer, ok, err, NodeRequest, create_node, start_node, stop_node, listening_addresses, connect_to,
  subscribe, unsubscribe, publish, Outcome,
}

abbrev pub ret_missing_callback : ℕ
ret_missing_callback = 2

-- The context, whether `waku_new` returned it and it was not destroyed, the node, the blocks from
-- `allocShared` and `createShared` that are not freed, and the requests that were sent.
pub record Lib (N : Type 0) : Type 0 where
  pub created : Bool
  pub user_data : Option ℕ
  pub event_callback : Bool
  pub event_user_data : Option ℕ
  pub waku : Option N
  pub blocks : ℕ
  pub sent : List NodeRequest

abbrev pub L : Type 0 → Type 0 → Type 0
L N A = Proc (Lib N) A

abbrev pub allocate : {N : Type 0} → ℕ → L N (Unit {0})
allocate n = modify (λ s. record s { blocks = s.blocks + n })

abbrev pub release : {N : Type 0} → ℕ → L N (Unit {0})
release n = modify (λ s. record s { blocks = s.blocks - n })

-- `ThreadSafeWakuMessage`, and the message made of it: in a build without RLN it has no proof.
abbrev pub shared_message : WakuMessage → WakuMessage
shared_message msg = record msg { proof = [] }

-- The request with the texts and sequences in it.
abbrev pub request_blocks : NodeRequest → ℕ
request_blocks (create_node json) = 2
request_blocks start_node = 2
request_blocks stop_node = 2
request_blocks listening_addresses = 1
request_blocks (connect_to peers timeout) = 2
request_blocks (subscribe topic) = 5
request_blocks (unsubscribe topic) = 5
request_blocks (publish topic msg) = 5

-- What `destroyShared` frees of it: all, but for the topic of a request to the relay.
abbrev pub destroyed_blocks : NodeRequest → ℕ
destroyed_blocks (create_node json) = 2
destroyed_blocks start_node = 2
destroyed_blocks stop_node = 2
destroyed_blocks listening_addresses = 1
destroyed_blocks (connect_to peers timeout) = 2
destroyed_blocks (subscribe topic) = 4
destroyed_blocks (unsubscribe topic) = 4
destroyed_blocks (publish topic msg) = 4

abbrev pub outcome : {N : Type 0} → NodeRequest → Lib N → Outcome N → L N (Answer (List ℕ))
outcome r s none t = undefined
outcome r s (some (w, a)) t = done a (record t { waku = w; sent = s.sent ++ r ∷ [] })

-- Through a context that is there; any other pointer is written through.
abbrev pub use_ctx : {N : Type 0} → Context → L N (Unit {0})
use_ctx ctx s = if s.created then done tt s else undefined
use_ctx address_of_ctx s = undefined
use_ctx ret_ok_as_pointer s = undefined
use_ctx callback_as_pointer s = undefined

abbrev pub set_user_data : {N : Type 0} → Context → Option ℕ → L N (Unit {0})
set_user_data c user_data = use_ctx c >> modify (λ s. record s { user_data = user_data })

abbrev pub returns : {N : Type 0} → ℕ → L N Reply
returns ret = pure (record { ret = ret; events = [] })

-- One call of the callback, with what the function returns.
abbrev pub replies : {N : Type 0} → ℕ → List ℕ → L N Reply
replies ret text =
    pure (record {
      ret = ret;
      events = record { caller_ret = ret; msg = text; len = length text } ∷ [];
    })

abbrev pub with_callback : {N : Type 0} → Bool → L N Reply → L N Reply
with_callback callback m = if callback then m else returns ret_missing_callback

-- A call of a callback that is not tested.
abbrev pub call_back : {N : Type 0} → Bool → ℕ → List ℕ → L N Reply
call_back callback ret text = if callback then replies ret text else fault

-- The address of the first character of an empty text is not there to be taken.
abbrev pub text_or_error : {N : Type 0} → Bool → Answer (List ℕ) → L N Reply
text_or_error callback (ok []) = fault
text_or_error callback (ok (char ∷ text)) = call_back callback ret_ok (char ∷ text)
text_or_error callback (err e) = call_back callback ret_err e

abbrev pub only_error : {N : Type 0} → Bool → Answer (List ℕ) → L N Reply
only_error callback (ok text) = returns ret_ok
only_error callback (err e) = call_back callback ret_err e

abbrev pub event_with : Option ℕ → List ℕ → List Event
event_with none event = []
event_with (some u) event = record { caller_ret = ret_ok; msg = event; len = length event } ∷ []
