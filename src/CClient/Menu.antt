-- ===== src/CClient/Menu.antt =====
-- examples/cbindings/waku_example.c: the loop over the user's commands.
use nwaku.Base.{
  ℕ, ◌<◌, ◌≤◌, ◌≡◌, arith, length-take, zero, suc, ◌==◌, leb, if◌then◌else◌, Option, none, some,
  List, [], ◌∷◌, codes, take, drop, length,
}
use nwaku.Base.Int.{ℤ, pos}
use nwaku.Base.Program.{done, undefined, pure, then_run, ◌>>=◌, ◌>>◌}
use nwaku.CClient.{atoi, is_space, skip_space}
use nwaku.CClient.Requests.{
  Library, C, address_of_ctx, connect, relay_subscribe, waku_call, printf, event_handler,
  publish_message, c_string,
}

-- enum PROGRAM_STATE
pub data ProgramState : Type 0 where
  main_menu subscribe_topic_menu connect_to_other_node_menu publish_message_menu : ProgramState

-- `switch (atoi(cmd))`: any other number has no case.
unfoldable pub selected : ℤ → Option ProgramState
selected (pos zero) = some main_menu
selected (pos (suc zero)) = some subscribe_topic_menu
selected (pos (suc (suc zero))) = some connect_to_other_node_menu
selected (pos (suc (suc (suc zero)))) = some publish_message_menu
selected n = none

-- `read` into an array of 1024 bytes, and `atoi`: what fills the array has no zero behind it.
unfoldable pub command : List ℕ → Option ℤ
command cmd =
    let text = c_string (take 1024 cmd) in if leb 1024 (length text) then none else atoi text

-- `while ((c = getchar()) != '\n' && c != EOF) { }`
pub drain : List ℕ → List ℕ
drain [] = []
drain (c ∷ cs) = if c == 10 then cs else drain cs

-- The letters up to the next blank.
pub word : List ℕ → List ℕ
word [] = []
word (c ∷ cs) = if is_space c then [] else c ∷ word cs

abbrev cut : List ℕ → List ℕ → Option (List ℕ × List ℕ)
cut [] text = none
cut (c ∷ cs) text = some (c ∷ cs, drop (length (c ∷ cs)) text)

cut-length :
    (found text w rest : List ℕ)
    → cut found text ≡ some (w, rest)
    → (0 < length w) × (length w ≡ length found)
cut-length [] text w rest h = cc
cut-length (c ∷ cs) text w rest h = ground arith

-- `scanf("%<n>s", buf)`: at most `n` letters, and the input behind them. At the end of the input
-- nothing is written to `buf`, which the program reads all the same.
pub scanf : ℕ → List ℕ → Option (List ℕ × List ℕ)
unfolding word skip_space
scanf n input = let text = skip_space input in cut (take n (word text)) text

-- A word that is found has at least one letter, and no more than asked for.
pub scanf-length :
    (n : ℕ) (input found rest : List ℕ)
    → scanf n input ≡ some (found, rest)
    → (0 < length found) × (length found ≤ n)
unfolding scanf
scanf-length n input found rest h =
    let text = skip_space input in
    let (some_letter, same) = cut-length (take n (word text)) text found rest h in
    (some_letter, omega (arith, same, length-take n (word text)))

abbrev pub scanned : Option (List ℕ × List ℕ) → C (List ℕ × List ℕ)
scanned none s = undefined
scanned (some r) s = done r s

abbrev pub number : Option ℤ → C ℤ
number none s = undefined
number (some n) s = done n s

unfoldable pub show_main_menu : C (Unit {0})
unfolding printf
show_main_menu = do
  printf (codes "\nPlease, select an option:\n")
  printf (codes "\t1.) Subscribe to topic\n")
  printf (codes "\t2.) Connect to other node\n")
  printf (codes "\t3.) Publish a message\n")

-- What one round finds on the standard input: the bytes that `read` returns, none if it returns no
-- byte, and what `getchar` and `scanf` read behind that.
pub record Input : Type 0 where
  pub line : Option (List ℕ)
  pub rest : List ℕ

module _ (malloc : ℕ → Option (List ℕ)) (lib : Library) where
  unfoldable pub run_selected : Option ProgramState → List ℕ → C (Unit {0})
  unfolding waku_call printf show_main_menu
  run_selected (some subscribe_topic_menu) stdin = do
    printf (codes "Indicate the Pubsubtopic to subscribe:\n")
    (topic, _) ← scanned (scanf 127 stdin)
    waku_call lib address_of_ctx (relay_subscribe topic) event_handler
    printf (codes "The subscription went well\n")
    show_main_menu
  run_selected (some connect_to_other_node_menu) stdin = do
    printf (codes "Connecting to a node. Please indicate the peer Multiaddress:\n")
    printf (
        codes
          "e.g.: /ip4/127.0.0.1/tcp/60001/p2p/16Uiu2HAmVFXtAfSj4EiR7mL2KvL4EE2wztuQgUSBoj2Jx2KeXFLN\n")
    (addr, _) ← scanned (scanf 511 stdin)
    waku_call lib address_of_ctx (connect addr 10000) event_handler
    show_main_menu
  run_selected (some publish_message_menu) stdin = do
    printf (codes "Indicate the Pubsubtopic:\n")
    (topic, stdin') ← scanned (scanf 127 stdin)
    printf (codes "Type the message tp publish:\n")
    (msg, _) ← scanned (scanf 1023 stdin')
    publish_message malloc lib topic msg
    show_main_menu
  run_selected (some main_menu) stdin = pure tt
  run_selected none stdin = pure tt

  -- `numRead <= 0` is the case with no line.
  unfoldable pub handle_line : Option (List ℕ) → List ℕ → C (Unit {0})
  handle_line none rest = pure tt
  handle_line (some cmd) rest = do n ← number (command cmd); run_selected (selected n) (drain rest)

  unfoldable pub handle_user_input : Input → C (Unit {0})
  unfolding handle_line
  handle_user_input input = handle_line input.line input.rest

  -- `while (1) { handle_user_input(); }`, over the rounds that have been read so far.
  unfoldable pub run_rounds : List Input → C (Unit {0})
  run_rounds [] s = done tt s
  run_rounds (input ∷ inputs) s = then_run (handle_user_input input s) λ _. run_rounds inputs
