-- ===== src/CppClient/Main/Calls.antt =====
-- examples/cpp/waku.cpp: the calls of `main`, whatever the library answers.
use mathlib.Core.List.{append_assoc}
use nwaku.Base.{ℕ, ◌==◌, ◌≡◌, ◌≢◌, refl, subst, sym, ◌∙◌, Option, some, List, [], ◌∷◌, ◌++◌, codes}
use nwaku.Base.Program.{Result, done, exited, undefined, then_run, ◌>>=◌, ◌>>◌, if_elim}
use nwaku.CppClient.{ConfigNode, json_config}
use nwaku.CppClient.Main.{written, start_node}
use nwaku.CppClient.Requests.{
  Library, Client, C, Call, new, default_pubsub_topic, version, set_event_callback, start,
  pubsub_topic, connect, relay_subscribe, invoke, waku_call, run_events, printf, event_handler,
  handle_error, set_default_topic, set_custom_topic, print_version,
}

-- A program that ends with a value, or ends the process for a reason.
abbrev pub Ends : {A : Type 0} → Type 0 → (Client → Type 0) → Result Client A → Type 0
Ends E P (done a s) = P s
Ends E P (exited s) = E
Ends E P undefined = ⊥

Ends-then_run :
    {A B : Type 0} (E : Type 0) (P Q : Client → Type 0) (r : Result Client A) (f : A → C B)
    → Ends E P r
    → ((a : A) (s : Client) → P s → Ends E Q (f a s))
    → Ends E Q (then_run r f)
Ends-then_run E P Q (done a s) f h k = k a s h
Ends-then_run E P Q (exited s) f h k = h
Ends-then_run E P Q undefined f h k = absurd h

-- The calls whose callback takes a text for an error.
abbrev pub IsGuarded : Call → Type 0
IsGuarded (new json) = Unit
IsGuarded default_pubsub_topic = ⊥
IsGuarded version = ⊥
IsGuarded set_event_callback = ⊥
IsGuarded start = ⊥
IsGuarded (pubsub_topic name) = ⊥
IsGuarded (connect peers timeout) = Unit
IsGuarded (relay_subscribe topic) = Unit

-- What a string is that a callback sets to each text.
abbrev pub last_text : List ℕ → List (List ℕ) → List ℕ
last_text old [] = old
last_text old (text ∷ texts) = last_text text texts

-- The calls from the node to the peers, in their order.
abbrev pub all_calls : List ℕ → List ℕ → List ℕ → List Call
all_calls json peers topic =
    new json
    ∷ default_pubsub_topic
    ∷ version
    ∷ pubsub_topic (codes "example")
    ∷ set_event_callback
    ∷ start
    ∷ connect peers 10000
    ∷ relay_subscribe topic
    ∷ connect peers 10000
    ∷ []

abbrev pub IsInLoop : List ℕ → List ℕ → List ℕ → List Call → Client → Type 0
IsInLoop json peers topic calls final =
    (final.default_topic ≡ topic) × (final.calls ≡ calls ++ all_calls json peers topic)

module _ (lib : Library) where
  -- The library tells an error.
  pub ErrorTold : Type 0
  ErrorTold = (calls : List Call) × (c : Call) × IsGuarded c × (lib calls c).events ≢ []

  -- The client's default topic, and the calls that it has made.
  abbrev At : List ℕ → List Call → Client → Type 0
  At topic calls s = (s.default_topic ≡ topic) × (s.calls ≡ calls)

  -- A callback that neither sets the default topic nor makes calls.
  abbrev IsPrinter : (List ℕ → C (Unit {0})) → Type 0
  IsPrinter h =
      (topic : List ℕ) (calls : List Call) (e : List ℕ) (s : Client)
      → At topic calls s
      → Ends ErrorTold (At topic calls) (h e s)

  printed :
      (h : List ℕ → C (Unit {0}))
      → IsPrinter h
      → (topic : List ℕ) (calls : List Call) (es : List (List ℕ)) (s : Client) → At topic calls s
      → Ends ErrorTold (At topic calls) (run_events h es s)
  unfolding run_events
  printed h k topic calls [] s at = at
  printed h k topic calls (e ∷ es) s at =
      Ends-then_run ErrorTold (At topic calls) (At topic calls) (h e s) _ (k topic calls e s at)
        λ u t after. printed h k topic calls es t after

  guarded :
      (topic : List ℕ) (calls before : List Call) (c : Call) (es : List (List ℕ)) (s : Client)
      → IsGuarded c
      → (lib before c).events ≡ es
      → At topic calls s
      → Ends ErrorTold (At topic calls) (run_events handle_error es s)
  unfolding run_events handle_error printf ErrorTold
  guarded topic calls before c [] s g said at = at
  guarded topic calls before c (e ∷ es) s g said at = (before, c, g, λ nothing. cc)

  kept :
      (topic : List ℕ) (calls : List Call) (es : List (List ℕ)) (s : Client)
      → At topic calls s
      → Ends ErrorTold (At (last_text topic es) calls) (run_events set_default_topic es s)
  unfolding run_events set_default_topic
  kept topic calls [] s at = at
  kept topic calls (e ∷ es) s at = kept e calls es (record s { default_topic = e }) (refl, at.1)

  -- The callbacks of `main`, by the texts of the call that has them.
  abbrev Runs : Call → (List ℕ → C (Unit {0})) → List ℕ → List ℕ → List Call → Type 0
  Runs c h topic topic' calls =
      (t : Client)
      → At topic (calls ++ c ∷ []) t
      → Ends ErrorTold (At topic' (calls ++ c ∷ [])) (run_events h (lib calls c).events t)

  -- A call, by what its callback makes of the texts.
  invoke-Ends :
      (c : Call) (h : List ℕ → C (Unit {0})) (topic topic' : List ℕ) (calls : List Call)
      (s : Client)
      → Runs c h topic topic' calls
      → At topic calls s
      → Ends ErrorTold (At topic' (calls ++ c ∷ [])) (invoke lib c h s)
  unfolding invoke
  invoke-Ends c h topic topic' calls s k (same, made) =
      Ends-then_run ErrorTold (At topic' (calls ++ c ∷ [])) _ _ _
        (subst
          (λ l.
            Ends ErrorTold (At topic' (calls ++ c ∷ []))
              (run_events h (lib l c).events (record s { calls = l ++ c ∷ [] })))
          (sym made) (k (record s { calls = calls ++ c ∷ [] }) (same, refl)))
        λ u t after. after

  waku_call-Ends :
      (c : Call) (h : List ℕ → C (Unit {0})) (topic topic' : List ℕ) (calls : List Call)
      (s : Client)
      → Runs c h topic topic' calls
      → At topic calls s
      → Ends ErrorTold (At topic' (calls ++ c ∷ [])) (waku_call lib c h s)
  unfolding waku_call printf
  waku_call-Ends c h topic topic' calls s k at =
      Ends-then_run ErrorTold (At topic' (calls ++ c ∷ [])) _ (invoke lib c h s) _
        (invoke-Ends c h topic topic' calls s k at)
        λ ret t after.
          if_elim (λ (m : C (Unit {0})). Ends ErrorTold (At topic' (calls ++ c ∷ [])) (m t))
            (ret == 0) after after

  called :
      (c : Call) (h : List ℕ → C (Unit {0})) (topic topic' : List ℕ) (calls : List Call)
      (Q : Client → Type 0) (rest : C (Unit {0})) (s : Client)
      → Runs c h topic topic' calls
      → At topic calls s
      → ((t : Client) → At topic' (calls ++ c ∷ []) t → Ends ErrorTold Q (rest t))
      → Ends ErrorTold Q ((waku_call lib c h >> rest) s)
  called c h topic topic' calls Q rest s k at f =
      Ends-then_run ErrorTold (At topic' (calls ++ c ∷ [])) Q (waku_call lib c h s) _
        (waku_call-Ends c h topic topic' calls s k at) λ u t after. f t after

  ignored :
      (c : Call) (h : List ℕ → C (Unit {0})) (topic topic' : List ℕ) (calls : List Call)
      (Q : Client → Type 0) (rest : C (Unit {0})) (s : Client)
      → Runs c h topic topic' calls
      → At topic calls s
      → ((t : Client) → At topic' (calls ++ c ∷ []) t → Ends ErrorTold Q (rest t))
      → Ends ErrorTold Q ((invoke lib c h >>= λ ret. rest) s)
  ignored c h topic topic' calls Q rest s k at f =
      Ends-then_run ErrorTold (At topic' (calls ++ c ∷ [])) Q (invoke lib c h s) _
        (invoke-Ends c h topic topic' calls s k at) λ u t after. f t after

  set_custom_topic-IsPrinter : IsPrinter set_custom_topic
  unfolding set_custom_topic
  set_custom_topic-IsPrinter topic calls e s at = at

  print_version-IsPrinter : IsPrinter print_version
  unfolding print_version printf
  print_version-IsPrinter topic calls e s at = at

  event_handler-IsPrinter : IsPrinter event_handler
  unfolding event_handler printf
  event_handler-IsPrinter topic calls e s at = at

  peers_there :
      (given : Option (List ℕ)) (peers : List ℕ) (Q : Client → Type 0) (f : List ℕ → C (Unit {0}))
      (t : Client)
      → given ≡ some peers
      → Ends ErrorTold Q (f peers t)
      → Ends ErrorTold Q ((written given >>= f) t)
  peers_there given peers Q f t h k = subst (λ g. Ends ErrorTold Q ((written g >>= f) t)) (sym h) k

  -- The two calls behind the first one to connect, and what is printed between them.
  subscribed :
      (topic : List ℕ) (calls : List Call) (peers : List ℕ) (t : Client)
      → At topic calls t
      → Ends ErrorTold
          (At topic ((calls ++ relay_subscribe topic ∷ []) ++ connect peers 10000 ∷ []))
          ((waku_call lib (relay_subscribe t.default_topic) handle_error
              >> (printf (codes "Establishing connection with: " ++ (peers ++ codes "\n"))
                  >> waku_call lib (connect peers 10000) handle_error))
            t)
  unfolding printf
  subscribed topic calls peers t at =
      subst
        (λ d.
          Ends ErrorTold
            (At topic ((calls ++ relay_subscribe topic ∷ []) ++ connect peers 10000 ∷ []))
            ((waku_call lib (relay_subscribe d) handle_error
                >> (printf (codes "Establishing connection with: " ++ (peers ++ codes "\n"))
                    >> waku_call lib (connect peers 10000) handle_error))
              t))
        (sym at.0)
        (called (relay_subscribe topic) handle_error topic topic calls _ _ t
          (λ v at. guarded topic _ calls (relay_subscribe topic) _ v tt refl at) at
          λ v after.
            waku_call-Ends (connect peers 10000) handle_error topic topic _ _
              (λ w at. guarded topic _ _ (connect peers 10000) _ w tt refl at) after)

  nine_calls :
      (json peers topic : List ℕ) (calls : List Call) (final : Client)
      → At topic
          ((((((((calls ++ new json ∷ []) ++ default_pubsub_topic ∷ []) ++ version ∷ [])
                    ++ pubsub_topic (codes "example") ∷ [])
                  ++ set_event_callback ∷ [])
                ++ start ∷ [])
              ++ connect peers 10000 ∷ [])
            ++ relay_subscribe topic ∷ []
            ++ connect peers 10000 ∷ [])
          final
      → IsInLoop json peers topic calls final
  nine_calls json peers topic calls final (same, made) = (same, made ∙ simp append_assoc)

  Ends-map :
      (P Q : Client → Type 0) (r : Result Client (Unit {0}))
      → ((s : Client) → P s → Q s)
      → Ends ErrorTold P r
      → Ends ErrorTold Q r
  Ends-map P Q (done a s) f h = f s h
  Ends-map P Q (exited s) f h = h
  Ends-map P Q undefined f h = h

  -- Whatever the library answers and reports, if there are peers: `main` comes to its loop, or ends the
  -- process, and this only if the library tells an error in a call for the node, to connect, or to
  -- subscribe. In its loop it has made nine calls, in this order: the node from the configuration, the
  -- default topic, the version, a topic by name, the callback for events, the start, and the peers
  -- before and behind the subscription, also where some of them failed. The topic that it keeps and
  -- subscribes to is the last one that the library reported for the default, or the one it had.
  pub start_node-calls :
      (cfg : ConfigNode) (peers : List ℕ) (s : Client)
      → cfg.peers ≡ some peers
      → Ends ErrorTold
          (IsInLoop
            (json_config cfg)
            peers
            (last_text s.default_topic
              (lib (s.calls ++ new (json_config cfg) ∷ []) default_pubsub_topic).events)
            s.calls)
          (start_node lib cfg s)
  unfolding start_node printf
  start_node-calls cfg peers s given =
      called (new (json_config cfg)) handle_error s.default_topic s.default_topic s.calls _ _ s
        (λ t at. guarded s.default_topic _ s.calls (new (json_config cfg)) _ t tt refl at)
        (refl, refl)
        λ t1 at1.
          called default_pubsub_topic set_default_topic s.default_topic _ _ _ _ t1
            (λ t at. kept s.default_topic _ _ t at) at1
            λ t2 at2.
              called version print_version _ _ _ _ _ _
                (λ t at. printed print_version print_version-IsPrinter _ _ _ t at) at2
                λ t3 at3.
                  called (pubsub_topic (codes "example")) set_custom_topic _ _ _ _ _ _
                    (λ t at. printed set_custom_topic set_custom_topic-IsPrinter _ _ _ t at) at3
                    λ t4 at4.
                      ignored set_event_callback event_handler _ _ _ _ _ _
                        (λ t at. printed event_handler event_handler-IsPrinter _ _ _ t at) at4
                        λ t5 at5.
                          ignored start event_handler _ _ _ _ _ _
                            (λ t at. printed event_handler event_handler-IsPrinter _ _ _ t at) at5
                            λ t6 at6. peers_there cfg.peers peers _ _ t6 given (
                              called (connect peers 10000) handle_error _ _ _ _ _ t6
                                (λ t at. guarded _ _ _ (connect peers 10000) _ t tt refl at) at6
                                λ t7 at7.
                                  Ends-map _ _ _ (nine_calls (json_config cfg) peers _ s.calls)
                                    (subscribed _ _ peers t7 at7))
