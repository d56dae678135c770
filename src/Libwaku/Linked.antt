-- ===== src/Libwaku/Linked.antt =====
-- library/libwaku.nim as the library that examples/cbindings/waku_example.c calls.
pub mod Start
use mathlib.Core.Option.{some-injective}
use nwaku.Base.{
  Bool, map, ap, sym, subst, codes, All, ◌∙◌, ℕ, ◌≡◌, refl, true, false, Option, none, some, List,
  [], ◌∷◌, ◌++◌, ◌>>=◌,
}
use nwaku.Base.Int.{ℤ}
use nwaku.Base.Program.{
  Result, done, exited, undefined, then_run, ◌>>◌, Returns, Returns-then_run, Returns-map,
}
use nwaku.Base64.{null}
use nwaku.CClient.{ConfigNode, json_config}
use nwaku.CClient.Main.{default_topic}
use nwaku.CClient.Main
use nwaku.CClient.Requests.{
  Context, ctx, listen_addresses, connect, relay_subscribe, default_pubsub_topic, version,
  set_event_callback, start, Request, C, Event, ret_ok, Call, new, request, Reply, Library, Client,
  waku_call, invoke, run_events, printf, event_handler, print_default_pubsub_topic,
  print_waku_version,
}
use nwaku.Libwaku.Requests.{
  Answer, ok, NodeRequest, create_node, start_node, listening_addresses, connect_to, subscribe,
  WakuNode, process,
}
use nwaku.Topics.Text.{split}
use nwaku.Libwaku.Published.{told}
use nwaku.Libwaku.Json.{Codecs}
use nwaku.Libwaku.State.{Lib, L}
use nwaku.Libwaku.Api.{
  send, waku_new, serve, waku_start, waku_default_pubsub_topic, waku_version,
  waku_set_event_callback, waku_listen_addresses, waku_connect, waku_relay_subscribe,
}

-- Before `waku_new`.
abbrev pub unused : {N : Type 0} → Lib N
unused = record {
  created = false;
  user_data = none;
  event_callback = false;
  event_user_data = none;
  waku = none;
  blocks = 0;
  sent = [];
}

module _ {N : Type 0} (node : WakuNode N) (codecs : Codecs) where
  -- A call of the client, each with a callback and null for user data.
  abbrev pub answer_call : Call → L N Reply
  answer_call (new json) = waku_new node codecs json true none
  answer_call (request c q) = serve node codecs c q true none

  abbrev pub replied : Result (Lib N) Reply → Reply
  replied (done reply t) = reply
  replied (exited t) = record { ret = 0; events = [] }
  replied undefined = record { ret = 0; events = [] }

  abbrev pub state_after : Result (Lib N) Reply → Option (Lib N)
  state_after (done reply t) = some t
  state_after (exited t) = none
  state_after undefined = none

  -- The state behind calls that all return.
  pub behind_calls : List Call → Lib N → Option (Lib N)
  behind_calls [] s = some s
  behind_calls (c ∷ cs) s = state_after (answer_call c s) >>= behind_calls cs

  abbrev reply_in : Call → Option (Lib N) → Reply
  reply_in c none = record { ret = 0; events = [] }
  reply_in c (some s) = replied (answer_call c s)

  -- libwaku, to which these calls have been made; silent where they do not all return.
  pub linked : Library
  linked calls c = reply_in c (behind_calls calls unused)

  some_after :
      (o : Option (Lib N)) (f g : Lib N → Option (Lib N)) {s t : Lib N}
      → ((v : Lib N) → f v ≡ some s → g v ≡ some t)
      → o >>= f ≡ some s
      → o >>= g ≡ some t
  some_after none f g k h = cc
  some_after (some v) f g k h = k v h

  behind_append :
      (calls : List Call) (c : Call) (s₀ : Lib N) {s t : Lib N} {reply : Reply}
      → behind_calls calls s₀ ≡ some s
      → answer_call c s ≡ done reply t
      → behind_calls (calls ++ c ∷ []) s₀ ≡ some t
  unfolding behind_calls
  behind_append [] c s₀ {t} h a =
      subst (λ s. state_after (answer_call c s) >>= behind_calls [] ≡ some t)
        (sym (some-injective _ _ h)) (rw a refl)
  behind_append (d ∷ cs) c s₀ h a =
      some_after (state_after (answer_call d s₀)) (behind_calls cs) (behind_calls (cs ++ c ∷ []))
        (λ v h. behind_append cs c v h a) h

  -- The client's calls so far lead to this state.
  abbrev pub At : Lib N → Client → Type 0
  At s client = behind_calls client.calls unused ≡ some s

  -- A callback that makes no calls, if it is told no error.
  abbrev pub IsHandler : (Event → C (Unit {0})) → Type 0
  IsHandler h =
      (e : Event) (client : Client)
      → e.caller_ret ≡ ret_ok
      → Returns (λ u client'. client'.calls ≡ client.calls) (h e client)

  run_events-Returns :
      (h : Event → C (Unit {0})) (es : List Event) (client : Client)
      → IsHandler h
      → All (λ e. e.caller_ret ≡ ret_ok) es
      → Returns (λ u client'. client'.calls ≡ client.calls) (run_events h es client)
  unfolding run_events
  run_events-Returns h [] client k oks = refl
  run_events-Returns h (e ∷ es) client k oks =
      Returns-then_run (λ u client'. client'.calls ≡ client.calls) _ _ _ (k e client oks.0)
        λ u client' same.
          Returns-map (λ v client''. client''.calls ≡ client'.calls)
            (λ v client''. client''.calls ≡ client.calls) (run_events h es client')
            (λ v client'' same'. same' ∙ same) (run_events-Returns h es client' k oks.1)

  linked-reply :
      (c : Call) (calls : List Call) (s t : Lib N) (reply : Reply)
      → behind_calls calls unused ≡ some s
      → answer_call c s ≡ done reply t
      → linked calls c ≡ reply
  unfolding linked
  linked-reply c calls s t reply h a = rw h (rw a refl)

  invoke-Returns :
      (c : Call) (h : Event → C (Unit {0})) (client : Client) (s t : Lib N) (reply : Reply)
      → IsHandler h
      → At s client
      → answer_call c s ≡ done reply t
      → All (λ e. e.caller_ret ≡ ret_ok) reply.events
      → Returns (λ ret client'. At t client' × (ret ≡ reply.ret)) (invoke linked c h client)
  unfolding invoke
  invoke-Returns c h client s t reply k before a oks =
      rw (linked-reply c client.calls s t reply before a) (
        Returns-then_run (λ u client'. client'.calls ≡ client.calls ++ c ∷ []) _
          (run_events h reply.events (record client { calls = client.calls ++ c ∷ [] })) _
          (run_events-Returns h reply.events (record client { calls = client.calls ++ c ∷ [] }) k
            oks)
          λ u client' same. (
            ap (λ calls. behind_calls calls unused) same
                ∙ behind_append client.calls c unused before a,
            refl,
          ))

  pub waku_call-Returns :
      (c : Context) (q : Request) (h : Event → C (Unit {0})) (client : Client) (s t : Lib N)
      (reply : Reply)
      → IsHandler h
      → At s client
      → answer_call (request c q) s ≡ done reply t
      → All (λ e. e.caller_ret ≡ ret_ok) reply.events
      → reply.ret ≡ ret_ok
      → Returns (λ u client'. At t client') (waku_call linked c q h client)
  unfolding waku_call
  waku_call-Returns c q h client s t reply k before a oks good =
      Returns-then_run (λ ret client'. At t client' × (ret ≡ reply.ret)) (λ u client'. At t client')
        _ _ (invoke-Returns (request c q) h client s t reply k before a oks)
        λ ret client' r. let zero_ret = r.1 ∙ good in rw zero_ret (r.0)

  -- A call whose result is dropped, or is tested, and what follows it.
  pub ignored_then :
      (c : Call) (h : Event → C (Unit {0})) (Q : Unit {0} → Client → Type 0) (k : C (Unit {0}))
      (client : Client) (s t : Lib N) (reply : Reply)
      → IsHandler h
      → At s client
      → answer_call c s ≡ done reply t
      → All (λ e. e.caller_ret ≡ ret_ok) reply.events
      → ((client' : Client) → At t client' → Returns Q (k client'))
      → Returns Q (((λ v. then_run (invoke linked c h v) (λ ret w. done tt w)) >> k) client)
  ignored_then c h Q k client s t reply handles before a oks f =
      Returns-then_run (λ u client'. At t client') Q _ _
        (Returns-then_run (λ ret client'. At t client' × (ret ≡ reply.ret)) _ _ _
          (invoke-Returns c h client s t reply handles before a oks) λ ret client' r. r.0)
        λ u client' after. f client' after

  pub called_then :
      (q : Request) (h : Event → C (Unit {0})) (Q : Unit {0} → Client → Type 0) (k : C (Unit {0}))
      (client : Client) (s t : Lib N) (reply : Reply)
      → IsHandler h
      → At s client
      → answer_call (request ctx q) s ≡ done reply t
      → All (λ e. e.caller_ret ≡ ret_ok) reply.events
      → reply.ret ≡ ret_ok
      → ((client' : Client) → At t client' → Returns Q (k client'))
      → Returns Q ((waku_call linked ctx q h >> k) client)
  called_then q h Q k client s t reply handles before a oks good f =
      Returns-then_run (λ u client'. At t client') Q _ _
        (waku_call-Returns ctx q h client s t reply handles before a oks good)
        λ u client' after. f client' after

  pub event_handler-IsHandler : IsHandler event_handler
  unfolding event_handler
  event_handler-IsHandler e client good = rw good refl

  pub print_default_pubsub_topic-IsHandler : IsHandler print_default_pubsub_topic
  unfolding print_default_pubsub_topic
  print_default_pubsub_topic-IsHandler e client good = refl

  pub print_waku_version-IsHandler : IsHandler print_waku_version
  unfolding print_waku_version
  print_waku_version-IsHandler e client good = refl
