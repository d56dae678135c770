-- ===== src/CClient/Leaks.antt =====
-- examples/cbindings/waku_example.c: the memory from `malloc`. Each block that is not freed is the
-- one that `contentTopic` or `publishResponse` points to.
use nwaku.Base.{ℕ, ◌+◌, ◌++◌, ◌≡◌, arith, Option, none, some, List, [], ◌∷◌, ◌==◌, codes}
use nwaku.Base.Program.{Ensures, Post, then-Post, if_elim, ◌>>=◌}
use nwaku.Base64.{Pointer, null, to}
use nwaku.CClient.Requests.{
  Library, C, Client, Event, Context, Request, Call, event_handler, handle_content_topic, printf,
  run_events, invoke, waku_call, publish_message, encode, free,
}
use nwaku.CClient.Menu.{
  Input, ProgramState, run_selected, handle_user_input, handle_line, run_rounds, scanned, scanf,
  number, command, selected, drain, main_menu, subscribe_topic_menu, connect_to_other_node_menu,
  publish_message_menu,
}
use nwaku.Base.Int.{ℤ}

abbrev pub held : Pointer → ℕ
held null = 0
held (to text) = 1

-- `extra` counts the blocks that a function in progress holds besides.
abbrev pub Owned : ℕ → Client → Type 0
Owned extra s = s.blocks ≡ extra + held s.content_topic_text + held s.publish_response

abbrev Keeps {ℓ} : {A : Type ℓ} → ℕ → C A → Type 0
Keeps extra m = Post (Owned extra) m (λ _ t. Owned extra t)

then-Keeps {ℓ κ} :
    {A : Type ℓ} {B : Type κ} (extra : ℕ) (m : C A) (f : A → C B)
    → Keeps extra m
    → ((a : A) → Keeps extra (f a))
    → Keeps extra (m >>= f)
then-Keeps extra m f = then-Post (Owned extra) (λ _ t. Owned extra t) (λ _ t. Owned extra t) m f

printf-Keeps : (extra : ℕ) (text : List ℕ) → Keeps extra (printf text)
unfolding printf
printf-Keeps extra text s owned = owned

event_handler-Keeps : (extra : ℕ) (e : Event) → Keeps extra (event_handler e)
unfolding event_handler
event_handler-Keeps extra e s owned = ground arith

handle_content_topic-Keeps : (extra : ℕ) (e : Event) → Keeps extra (handle_content_topic e)
unfolding handle_content_topic
handle_content_topic-Keeps extra e s owned = ground arith

run_events-Keeps :
    (extra : ℕ) (callback : Event → C (Unit {0}))
    → ((e : Event) → Keeps extra (callback e))
    → (es : List Event) → Keeps extra (run_events callback es)
unfolding run_events
run_events-Keeps extra callback h [] s owned = owned
run_events-Keeps extra callback h (e ∷ es) s owned =
    then-Keeps extra (callback e) (λ _. run_events callback es) (h e)
      (λ _. run_events-Keeps extra callback h es) s owned

module _ (lib : Library) (extra : ℕ) (callback : Event → C (Unit {0})) where
  invoke-Keeps :
      ((e : Event) → Keeps extra (callback e))
      → (call : Call) → Keeps extra (invoke lib call callback)
  unfolding invoke
  invoke-Keeps h call s owned =
      then-Keeps extra (run_events callback (lib s.calls call).events) _
        (run_events-Keeps extra callback h _) (λ _ t k. k)
        (record s { calls = s.calls ++ call ∷ [] }) owned

  waku_call-Keeps :
      ((e : Event) → Keeps extra (callback e))
      → (c : Context) (r : Request) → Keeps extra (waku_call lib c r callback)
  unfolding waku_call
  waku_call-Keeps h c r =
      then-Keeps extra (invoke lib _ callback) _ (invoke-Keeps h _) (λ ret s owned.
        if_elim (λ (m : C (Unit {0})). Ensures (λ _ t. Owned extra t) (m s)) (ret == 0) owned
          (unfold printf in tt))

encode-Post :
    (malloc : ℕ → Option (List ℕ)) (msg : List ℕ)
    → Post (Owned 0) (encode malloc msg) (λ p t. Owned (held p) t)
encode-Post malloc msg s owned = ground arith

free-Post : (p : Pointer) → Post (Owned (held p)) (free p) (λ _ t. Owned 0 t)
free-Post p s owned = ground arith

scanned-Keeps : (r : Option (List ℕ × List ℕ)) → Keeps 0 (scanned r)
scanned-Keeps none s owned = tt
scanned-Keeps (some r) s owned = owned

number-Keeps : (n : Option ℤ) → Keeps 0 (number n)
number-Keeps none s owned = tt
number-Keeps (some n) s owned = owned

module _ (malloc : ℕ → Option (List ℕ)) (lib : Library) where
  publish_message-Keeps : (topic msg : List ℕ) → Keeps 0 (publish_message malloc lib topic msg)
  unfolding publish_message
  publish_message-Keeps topic msg =
      then-Post (Owned 0) (λ p t. Owned (held p) t) (λ _ t. Owned 0 t) (encode malloc msg) _
        (encode-Post malloc msg)
        (λ payload.
          then-Post (Owned (held payload)) (λ _ t. Owned (held payload) t) (λ _ t. Owned 0 t) _ _
            (waku_call-Keeps lib (held payload) handle_content_topic
              (handle_content_topic-Keeps (held payload)) _ _)
            (λ _ s owned.
              then-Post (Owned (held payload)) (λ _ t. Owned 0 t) (λ _ t. Owned 0 t) (free payload)
                _ (free-Post payload)
                (λ _.
                  then-Keeps 0 _ _ (waku_call-Keeps lib 0 event_handler (event_handler-Keeps 0) _ _)
                    (λ _ t k. k))
                s owned))

  run_selected-Keeps :
      (choice : Option ProgramState) (stdin : List ℕ)
      → Keeps 0 (run_selected malloc lib choice stdin)
  unfolding run_selected
  run_selected-Keeps (some main_menu) stdin s owned = owned
  run_selected-Keeps (some subscribe_topic_menu) stdin s owned =
      then-Keeps 0 (scanned (scanf 127 stdin)) _ (scanned-Keeps _)
        (λ r.
          then-Keeps 0 _ _ (waku_call-Keeps lib 0 event_handler (event_handler-Keeps 0) _ _)
            (λ _ t k. k))
        _ owned
  run_selected-Keeps (some connect_to_other_node_menu) stdin s owned =
      then-Keeps 0 (scanned (scanf 511 stdin)) _ (scanned-Keeps _)
        (λ r.
          then-Keeps 0 _ _ (waku_call-Keeps lib 0 event_handler (event_handler-Keeps 0) _ _)
            (λ _ t k. k))
        _ owned
  run_selected-Keeps (some publish_message_menu) stdin s owned =
      then-Keeps 0 (scanned (scanf 127 stdin)) _ (scanned-Keeps _)
        (λ r t k.
          then-Keeps 0 (scanned (scanf 1023 r.1)) _ (scanned-Keeps _)
            (λ q. then-Keeps 0 _ _ (publish_message-Keeps r.0 q.0) (λ _ u j. j))
            (record t { output = t.output ++ codes "Type the message tp publish:\n" ∷ [] }) k)
        _ owned
  run_selected-Keeps none stdin s owned = owned

  handle_line-Keeps :
      (line : Option (List ℕ)) (rest : List ℕ) → Keeps 0 (handle_line malloc lib line rest)
  unfolding handle_line
  handle_line-Keeps none rest s owned = owned
  handle_line-Keeps (some cmd) rest s owned =
      then-Keeps 0 (number (command cmd)) _ (number-Keeps _)
        (λ n. run_selected-Keeps (selected n) (drain rest)) s owned

  -- However many rounds of the menu have run, with whatever input and whatever answers of the
  -- library: no block is lost, and none is freed twice.
  pub run_rounds-Owned :
      (inputs : List Input) (s : Client)
      → Owned 0 s
      → Ensures (λ _ t. Owned 0 t) (run_rounds malloc lib inputs s)
  unfolding run_rounds
  run_rounds-Owned [] s owned = owned
  run_rounds-Owned (input ∷ inputs) s owned =
      then-Keeps 0 (handle_user_input malloc lib input) (λ _. run_rounds malloc lib inputs)
        (unfold handle_user_input in handle_line-Keeps input.line input.rest)
        (λ _. run_rounds-Owned inputs) s owned
