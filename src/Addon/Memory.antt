-- ===== src/Addon/Memory.antt =====
-- examples/nodejs/waku_addon.c: the memory blocks and the references that the functions leave.
use nwaku.Base.{ℕ, ◌+◌, ◌≡◌, refl, arith, Option, some, List, [], ◌∷◌, ◌++◌, ◌==◌}
use nwaku.Base.Program.{Ensures, Post, then-Post, if_elim}
use nwaku.CClient.Requests.{Event, Call, Library, request, ctx, connect}
use nwaku.Addon.{
  Value, Napi, NapiCall, ValueType, napi_string, napi_number, napi_function, Addon, N, napi_call,
  handle_error,
}
use nwaku.Addon.Methods.{run_events, invoke, waku_call, waku_connect, low_32}

-- The blocks and the references that are alive.
abbrev pub Alive : ℕ → ℕ → Addon → Type 0
Alive blocks refs s = (s.blocks ≡ blocks) × (s.refs ≡ refs)

abbrev Keeps {ℓ} : {A : Type ℓ} → (Addon → Type 0) → N A → Type 0
Keeps P m = Post P m (λ _. P)

module _ (P : Addon → Type 0) where
  napi_call-Keeps : (napi : Napi) (call : NapiCall) → Keeps P (napi_call napi call)
  napi_call-Keeps napi call s p =
      if_elim (λ (m : N (Unit {0})). Ensures (λ _. P) (m s)) (Napi.returns_ok napi call) p tt

  run_events-Keeps :
      (callback : Event → N (Unit {0}))
      → ((e : Event) → Keeps P (callback e))
      → (es : List Event) → Keeps P (run_events callback es)
  unfolding run_events
  run_events-Keeps callback h [] s p = p
  run_events-Keeps callback h (e ∷ es) s p =
      then-Post P (λ _. P) (λ _. P) (callback e) _ (h e) (λ _. run_events-Keeps callback h es) s p

module _ (P : Addon → Type 0) (lib : Library) (callback : Event → N (Unit {0})) where
  module _ (h : (e : Event) → Keeps P (callback e))
      (any_calls : (s : Addon) (calls : List Call) → P s → P (record s { calls = calls })) where
    invoke-Keeps : (call : Call) → Keeps P (invoke lib call callback)
    unfolding invoke
    invoke-Keeps call s p =
        then-Post P (λ _. P) (λ _. P) (run_events callback (lib s.calls call).events) _
          (run_events-Keeps P callback h _) (λ _ t k. k) (record s { calls = s.calls ++ call ∷ [] })
          (any_calls s _ p)

    waku_call-Keeps : (call : Call) → Keeps P (waku_call lib call callback)
    unfolding waku_call
    waku_call-Keeps call =
        then-Post P (λ _. P) (λ _. P) (invoke lib call callback) _ (invoke-Keeps call)
          (λ ret t k. if_elim (λ (m : N (Unit {0})). Ensures (λ _. P) (m t)) (ret == 0) k tt)

handle_error-Keeps :
    (napi : Napi) (blocks refs : ℕ) (e : Event) → Keeps (Alive blocks refs) (handle_error napi e)
unfolding handle_error
handle_error-Keeps napi blocks refs e s p = ground arith

-- The blocks that `waku_connect` loses: the copy of the peers, where it throws behind it.
unfoldable pub lost_by_connect : ValueType → ValueType → ValueType → ℕ
lost_by_connect napi_string napi_number napi_function = 0
lost_by_connect napi_string timeout cb = 1
lost_by_connect peers timeout cb = 0

-- The references that it makes, while it deletes none.
unfoldable pub made_by_connect : ValueType → ValueType → ValueType → ℕ
made_by_connect napi_string napi_number napi_function = 1
made_by_connect peers timeout cb = 0

module _ (napi : Napi) (malloc : ℕ → Option (List ℕ)) (lib : Library) where
  open napi use {type_of, text_of, int_of}

  connect_types :
      (peers timeout cb : Value) (more : List Value) (blocks refs : ℕ) (a b c : ValueType)
      → type_of peers ≡ a
      → type_of timeout ≡ b
      → type_of cb ≡ c
      → Post
          (Alive blocks refs)
          (waku_connect napi malloc lib (peers ∷ timeout ∷ cb ∷ more))
          (λ _. Alive (blocks + lost_by_connect a b c) (refs + made_by_connect a b c))
  unfolding waku_connect lost_by_connect made_by_connect
  connect_types peers timeout cb more blocks refs napi_string napi_number napi_function ea eb ec s
        p =
      let lent : Addon = record s {
        blocks = s.blocks + 1;
        refs = s.refs + 1;
        ref_on_error_callback = some cb;
      } in
      rw (ea, eb, ec)
        (ground (
          arith,
          waku_call-Keeps (Alive (blocks + 1) (refs + 1)) lib (handle_error napi)
              (handle_error-Keeps napi (blocks + 1) (refs + 1)) (λ t calls k. k)
              (request ctx (connect (text_of peers) (low_32 (int_of timeout)))) lent,
        ))
  connect_types peers timeout cb more blocks refs a b c ea eb ec s p =
      simp (ea, eb, ec) (ground arith)

  -- With three arguments, wherever it ends with a value, `waku_connect` has made one reference if
  -- all three have the right types, and deleted none; and it has lost one block, the copy of the
  -- peers, if they are a string and one of the other two arguments has a wrong type.
  pub waku_connect-Alive :
      (peers timeout cb : Value) (more : List Value) (blocks refs : ℕ)
      → Post (Alive blocks refs) (waku_connect napi malloc lib (peers ∷ timeout ∷ cb ∷ more)) (λ _.
        Alive
          (blocks + lost_by_connect (type_of peers) (type_of timeout) (type_of cb))
          (refs + made_by_connect (type_of peers) (type_of timeout) (type_of cb)))
  waku_connect-Alive peers timeout cb more blocks refs =
      connect_types peers timeout cb more blocks refs _ _ _ refl refl refl
