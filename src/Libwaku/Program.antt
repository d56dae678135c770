-- ===== src/Libwaku/Program.antt =====
-- library/libwaku.nim: a program that creates a node, and makes calls in any order.
use mathlib.Core.List.{append_assoc}
use nwaku.Base.{
  ℕ, ◌+◌, ◌≡◌, refl, ◌∙◌, ap, ◌++◌, ◌≤◌, sym, Bool, true, false, some, Option, none, List, [], ◌∷◌,
  All, arith,
}
use nwaku.Base.Program.{◌>>=◌, Ensures, Ensures-then_run, Ensures-map, Returns, Returns-then_run}
use nwaku.Message.{WakuMessage}
use nwaku.CClient.Requests.{Reply}
use nwaku.Libwaku.Requests.{Answer, ok, err, NodeRequest, create_node, WakuNode, process, created}
use nwaku.Libwaku.Json.{Codecs}
use nwaku.Libwaku.State.{Lib, L}
use nwaku.Libwaku.Api.{send, created_or_error, waku_new, relay_event}
use nwaku.Libwaku.Calls.{ApiCall, IsUnsubscribe, send_lem}
use nwaku.Libwaku.Runs.{
  Answered, WithoutData, context_blocks, leaks, Ran, run_calls, run_calls-Ran, no_event,
}
use nwaku.Libwaku.Careful.{HasTexts, IsCarefulCall, IsReady, Ready}
use nwaku.Libwaku.Total.{run_calls-Returns}

abbrev is_ok : {A : Type 0} → Answer A → Bool
is_ok (ok a) = true
is_ok (err e) = false

abbrev answered_ok : {N : Type 0} → Option (Option N × Answer (List ℕ)) → Bool
answered_ok none = false
answered_ok (some (w, a)) = is_ok a

created-is_ok :
    {N : Type 0} (old : Option N) (o : Answer N) (w : Option N) (a : Answer (List ℕ))
    → created old o ≡ some (w, a)
    → is_ok a ≡ is_ok o
created-is_ok old (ok n) w a e = sym (ap answered_ok e)
created-is_ok old (err text) w a e = sym (ap answered_ok e)

-- The context of a program that created a node, and whether it is there at the end: without a node it is
-- left behind in any case.
abbrev pub context_left : {N : Type 0} → Answer N → Bool → ℕ
context_left (ok n) there = context_blocks there
context_left (err e) there = 1

context_left_lem :
    {N : Type 0} (o : Answer N) (first last : Bool)
    → first ≡ is_ok o
    → (first ≡ false → last ≡ false)
    → context_left o last + context_blocks first ≡ 1 + context_blocks last
context_left_lem (ok n) first last there gone = rw there (omega arith)
context_left_lem (err e) first last there gone = rw (gone there, there) refl

context_blocks_le : (b : Bool) → context_blocks b ≤ 1
context_blocks_le true = omega arith
context_blocks_le false = omega arith

module _ {N : Type 0} (node : WakuNode N) (codecs : Codecs) (json : List ℕ) (u : Option ℕ) where
  -- `waku_new` with a callback, and calls through what it returns.
  unfoldable pub session : List ApiCall → L N (List Reply)
  session calls = waku_new node codecs json true u >>= λ reply. run_calls node codecs calls

  -- What `waku_new` leaves to the calls behind it: its context, which is there if there is a node.
  record IsNew (s : Lib N) (reply : Reply) (t : Lib N) : Type 0 where
    no_data : t.event_user_data ≡ none
    sent : t.sent ≡ s.sent ++ create_node json ∷ []
    there : t.created ≡ is_ok (node.create_waku json)
    left : t.blocks ≡ s.blocks + 1

  created-IsNew :
      (s t : Lib N)
      → t.event_user_data ≡ none
      → t.sent ≡ s.sent ++ create_node json ∷ []
      → t.created ≡ true
      → t.blocks ≡ s.blocks + 1
      → (a : Answer (List ℕ)) → is_ok a ≡ is_ok (node.create_waku json)
      → Ensures (IsNew s) (created_or_error node codecs a t)
  created-IsNew s t no_data sent there left (ok text) same = record {
    no_data = no_data;
    sent = sent;
    there = there ∙ same;
    left = left;
  }
  created-IsNew s t no_data sent there left (err e) same = record {
    no_data = no_data;
    sent = sent;
    there = same;
    left = left;
  }

  waku_new-IsNew : (s : Lib N) → Ensures (IsNew s) (waku_new node codecs json true u s)
  unfolding waku_new process
  waku_new-IsNew s = send_lem node codecs (IsNew s) (create_node json) _ _ λ w a answered.
      created-IsNew s _ refl refl refl (omega arith) a
        (created-is_ok none (node.create_waku json) w a answered)

  waku_new-Ready :
      (s : Lib N) (n : N)
      → node.create_waku json ≡ ok n
      → Returns Ready (waku_new node codecs json true u s)
  unfolding waku_new send process
  waku_new-Ready s n created = rw created (refl, n, refl)

  session-Ensures :
      (Q : List Reply → Lib N → Type 0) (calls : List ApiCall) (s : Lib N)
      → ((reply : Reply) (t : Lib N) (replies : List Reply) (v : Lib N)
          → IsNew s reply t
          → Ran node codecs calls t replies v
          → Q replies v)
      → Ensures Q (session calls s)
  unfolding session
  session-Ensures Q calls s h = Ensures-then_run (IsNew s) Q _ _ (waku_new-IsNew s) λ reply t new.
      Ensures-map (Ran node codecs calls t) Q _ (λ replies v ran. h reply t replies v new ran)
        (run_calls-Ran node codecs calls t)

  -- A program that creates a node, which succeeds, and neither a hash nor what a node says of its
  -- addresses is empty: calls in any order and number through that context, each with a callback, none
  -- of them to `waku_destroy`, and each text in JSON one that can be read, all return. The context and
  -- the node are there then, and there is a reply for each call, as its callback demands: success and
  -- at most one text, or an error and one text, with the same value for the callback as is returned.
  pub session-Returns :
      HasTexts node
      → (calls : List ApiCall) (s : Lib N) (n : N) → node.create_waku json ≡ ok n
      → All (IsCarefulCall codecs) calls
      → Returns (λ replies t. IsReady t × Answered calls replies) (session calls s)
  unfolding session
  session-Returns texts calls s n created careful =
      Returns-then_run Ready _ _ _ (waku_new-Ready s n created)
        λ reply t ready. run_calls-Returns node codecs texts calls t careful ready

  -- A program that creates a node and makes calls in any order, with whatever contexts, callbacks and
  -- texts: wherever all of them return, the requests that were sent are the one to create the node and
  -- others, none of them to unsubscribe; and the blocks of memory that are left behind are one for each
  -- request to the relay that was sent, and the context's own, if the node could not be created or the
  -- context is not destroyed.
  pub session-leaks :
      (calls : List ApiCall) (s : Lib N)
      → Ensures
          (λ replies t.
            (requests : List NodeRequest) × (t.sent ≡ s.sent ++ create_node json ∷ requests)
            × (t.blocks
                ≡ s.blocks + context_left (node.create_waku json) t.created + leaks requests)
            × All (λ r. IsUnsubscribe r → ⊥) requests)
          (session calls s)
  session-leaks calls s = session-Ensures _ calls s λ reply t replies v new ran.
      let new_left = new.left in
      let few = context_blocks_le t.created in
      let (ran_left, _) = ran.left (omega (arith, new_left, few)) in
      let kept = context_left_lem (node.create_waku json) t.created v.created new.there ran.gone in
      (
        ran.requests,
        ran.sent
            ∙ ap (λ qs. qs ++ ran.requests) new.sent
            ∙ append_assoc s.sent (create_node json ∷ []) ran.requests,
        omega (arith, new_left, ran_left, kept),
        ran.subscribed,
      )

  -- A program that creates a node and makes calls in any order, all of them with null for user data:
  -- wherever all of them return, no message that the relay hands over comes to a callback.
  pub session-relay_event :
      (calls : List ApiCall) (s : Lib N)
      → All WithoutData calls
      → Ensures
          (λ replies t.
            (topic : List ℕ) (msg : WakuMessage) → relay_event node codecs t topic msg ≡ [])
          (session calls s)
  session-relay_event calls s given =
      session-Ensures _ calls s λ reply t replies v new ran topic msg.
        no_event node codecs v topic msg (ran.event_data given new.no_data)
