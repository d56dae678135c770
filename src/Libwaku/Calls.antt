-- ===== src/Libwaku/Calls.antt =====
-- library/libwaku.nim: what a call makes of the library's state, and the calls of a program in a row.
use nwaku.Base.{
  ℕ, ◌+◌, ◌-◌, ◌≡◌, subst, Bool, true, false, Option, some, List, [], ◌∷◌, ◌++◌, length, ◌⊎◌, arith,
  Option-cases, refl, if◌then◌else◌, inl, inr,
}
use nwaku.Base.Program.{◌>>=◌, ◌>>◌, then_run, Ensures, done, undefined, if_elim, modify}
use nwaku.CClient.Requests.{
  Context, ctx, address_of_ctx, ret_ok_as_pointer, callback_as_pointer, Request, Reply, ret_ok,
  ret_err,
}
use nwaku.Libwaku.Requests.{
  Answer, NodeRequest, create_node, start_node, stop_node, listening_addresses, connect_to,
  subscribe, unsubscribe, publish, WakuNode, process,
}
use nwaku.Libwaku.Json.{Codecs}
use nwaku.Libwaku.State.{
  ret_missing_callback, Lib, L, request_blocks, destroyed_blocks, use_ctx, set_user_data,
}
use nwaku.Libwaku.Api.{send}

pub record ApiCall : Type 0 where
  pub context : Context
  pub request : Request
  pub callback : Bool
  pub user_data : Option ℕ

-- A request to the relay, which leaves its topic behind.
abbrev pub leaked_blocks : NodeRequest → ℕ
leaked_blocks (create_node json) = 0
leaked_blocks start_node = 0
leaked_blocks stop_node = 0
leaked_blocks listening_addresses = 0
leaked_blocks (connect_to peers timeout) = 0
leaked_blocks (subscribe topic) = 1
leaked_blocks (unsubscribe topic) = 1
leaked_blocks (publish topic msg) = 1

abbrev pub IsUnsubscribe : NodeRequest → Type 0
IsUnsubscribe (create_node json) = ⊥
IsUnsubscribe start_node = ⊥
IsUnsubscribe stop_node = ⊥
IsUnsubscribe listening_addresses = ⊥
IsUnsubscribe (connect_to peers timeout) = ⊥
IsUnsubscribe (subscribe topic) = ⊥
IsUnsubscribe (unsubscribe topic) = Unit
IsUnsubscribe (publish topic msg) = ⊥

-- The value that a call returns, and the calls of its callback: none without a callback or where
-- there is nothing to tell, else one with the same value and the length of its text. An error is
-- always told.
pub data IsReply : Bool → Reply → Type 0 where
  missing : IsReply false (record { ret = ret_missing_callback; events = [] })
  silent : {callback : Bool} → IsReply callback (record { ret = ret_ok; events = [] })
  value :
      {text : List ℕ}
      → IsReply true (record {
        ret = ret_ok;
        events = record { caller_ret = ret_ok; msg = text; len = length text } ∷ [];
      })
  error :
      {text : List ℕ}
      → IsReply true (record {
        ret = ret_err;
        events = record { caller_ret = ret_err; msg = text; len = length text } ∷ [];
      })

pub sent_blocks :
    (r : NodeRequest) (b : ℕ)
    → b + leaked_blocks r ≡ b + (request_blocks r + 1) - (destroyed_blocks r + 1) + 2 - 2
sent_blocks (create_node json) b = omega arith
sent_blocks start_node b = omega arith
sent_blocks stop_node b = omega arith
sent_blocks listening_addresses b = omega arith
sent_blocks (connect_to peers timeout) b = omega arith
sent_blocks (subscribe topic) b = omega arith
sent_blocks (unsubscribe topic) b = omega arith
sent_blocks (publish topic msg) b = omega arith

module _ {N : Type 0} where
  -- One request at most goes to the node, and all blocks are freed but for what it leaves behind; or
  -- the context is freed.
  pub data Sends (s t : Lib N) : Type 0 where
    nothing : t.sent ≡ s.sent → t.created ≡ s.created → t.blocks ≡ s.blocks → Sends s t
    destroyed :
        t.sent ≡ s.sent → s.created ≡ true → t.created ≡ false → t.blocks ≡ s.blocks - 1 → Sends s t
    one :
        (r : NodeRequest)
        → (IsUnsubscribe r → ⊥)
        → t.sent ≡ s.sent ++ r ∷ []
        → t.created ≡ s.created
        → t.blocks ≡ s.blocks + leaked_blocks r
        → Sends s t

  -- The user data for events is the old one, or what the call passes for it.
  abbrev pub Keeps : Option ℕ → Lib N → Lib N → Type 0
  Keeps u s t = Sends s t × ((t.event_user_data ≡ s.event_user_data) ⊎ (t.event_user_data ≡ u))

  -- What a call does.
  abbrev pub Effect : Bool → Option ℕ → Lib N → Reply → Lib N → Type 0
  Effect callback u s reply t = IsReply callback reply × Keeps u s t

  pub use_ctx_lem {κ} :
      {A : Type 0} (Q : A → Lib N → Type κ) (c : Context) (k : L N A) (s : Lib N)
      → (s.created ≡ true → Ensures Q (k s))
      → Ensures Q ((use_ctx c >> k) s)
  use_ctx_lem Q ctx k s h =
      elim s.created
          as (λ b.
            s.created ≡ b → Ensures Q (then_run (if b then done tt s else undefined) (λ _. k))) [
              | true ↦ h
              | false ↦ λ gone. tt
            ]
        refl
  use_ctx_lem Q address_of_ctx k s h = tt
  use_ctx_lem Q ret_ok_as_pointer k s h = tt
  use_ctx_lem Q callback_as_pointer k s h = tt

  pub set_user_data_lem {κ} :
      {A : Type 0} (Q : A → Lib N → Type κ) (c : Context) (u : Option ℕ) (k : L N A) (s : Lib N)
      → Ensures Q (k (record s { user_data = u }))
      → Ensures Q ((set_user_data c u >> k) s)
  set_user_data_lem Q ctx u k s h =
      if_elim
        (λ r.
          Ensures Q
            (then_run (then_run r (λ _. modify (λ s. record s { user_data = u }))) (λ _. k)))
        s.created h tt
  set_user_data_lem Q address_of_ctx u k s h = tt
  set_user_data_lem Q ret_ok_as_pointer u k s h = tt
  set_user_data_lem Q callback_as_pointer u k s h = tt

  -- The state behind a request that was answered.
  abbrev pub behind : NodeRequest → Option N → Lib N → Lib N
  behind r w s = record s { waku = w; sent = s.sent ++ r ∷ []; blocks = s.blocks + leaked_blocks r }

  module _ (node : WakuNode N) (codecs : Codecs) where
    pub send_lem {κ} :
        {A : Type 0} (Q : A → Lib N → Type κ) (r : NodeRequest) (f : Answer (List ℕ) → L N A)
        (s : Lib N)
        → ((w : Option N) (a : Answer (List ℕ))
            → process node r s.waku ≡ some (w, a)
            → Ensures Q (f a (behind r w s)))
        → Ensures Q ((send node codecs r >>= f) s)
    unfolding send
    send_lem Q r f s h = elim (Option-cases (process node r s.waku)) [
      | inl gone ↦ rw gone tt
      | inr ((w, a), answered) ↦ rw answered (
          subst (λ b. Ensures Q (f a (record s { waku = w; sent = s.sent ++ r ∷ []; blocks = b })))
            (sent_blocks r s.blocks) (h w a answered))
    ]
