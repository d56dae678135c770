-- ===== src/CppClient/Menu.antt =====
-- examples/cpp/waku.cpp: the loop over the user's commands. The calls of the library are commented
-- out in the source; the message is still encoded.
use nwaku.Base.{
  ℕ, subst, ◌<◌, ◌≤◌, ◌≡◌, refl, arith, Option, none, some, List, [], ◌∷◌, length, codes,
  Option-cases, inl, inr,
}
use nwaku.Base.Int.{ℤ, pos}
use nwaku.Base.Program.{
  done, undefined, pure, fault, then_run, Ensures, Ensures-then_run, ◌>>=◌, ◌>>◌,
}
use nwaku.Base64.{to, b64_encode_cpp}
use nwaku.Base64.Encoder.{b64_encode_cpp-size, encoded_size_closed}
use nwaku.CClient.Menu.{
  command, ProgramState, main_menu, subscribe_topic_menu, connect_to_other_node_menu,
  publish_message_menu, selected, drain, scanf, scanf-length, Input,
}
use nwaku.CppClient.Requests.{Client, C, printf}

abbrev pub number : Option ℤ → C ℤ
number none s = undefined
number (some n) s = done n s

unfoldable pub show_main_menu : C (Unit {0})
unfolding printf
show_main_menu = do
  printf (codes "\nPlease, select an option:\n")
  printf (codes "\t1.) Subscribe to topic\n")
  printf (codes "\t2.) Connect to other node\n")
  printf (codes "\t3.) Publish a message\n")

-- The input behind a word; an array that stays unwritten here is not read.
abbrev pub behind : List ℕ → Option (List ℕ × List ℕ) → List ℕ
behind input none = []
behind input (some r) = r.1

abbrev pub payload_of : Option (List ℕ) → C (Unit {0})
payload_of none s = undefined
payload_of (some payload) s = done tt s

-- `strlen(msg)` reads an array that a failed `scanf` has not written.
abbrev pub encode : Option (List ℕ × List ℕ) → C (Unit {0})
encode none = fault
encode (some (msg, rest)) = payload_of (b64_encode_cpp (to msg) (length msg) [])

unfoldable pub run_selected : Option ProgramState → List ℕ → C (Unit {0})
unfolding printf show_main_menu
run_selected (some subscribe_topic_menu) stdin = do
  printf (codes "Indicate the Pubsubtopic to subscribe:\n")
  show_main_menu
run_selected (some connect_to_other_node_menu) stdin = do
  printf (codes "Connecting to a node. Please indicate the peer Multiaddress:\n")
  printf (
      codes
        "e.g.: /ip4/127.0.0.1/tcp/60001/p2p/16Uiu2HAmVFXtAfSj4EiR7mL2KvL4EE2wztuQgUSBoj2Jx2KeXFLN\n")
  show_main_menu
run_selected (some publish_message_menu) stdin = do
  printf (codes "Indicate the Pubsubtopic:\n")
  printf (codes "Type the message tp publish:\n")
  encode (scanf 1023 (behind stdin (scanf 127 stdin)))
  show_main_menu
run_selected (some main_menu) stdin = pure tt
run_selected none stdin = pure tt

-- `numRead <= 0` is the case with no line.
unfoldable pub handle_line : Option (List ℕ) → List ℕ → C (Unit {0})
handle_line none rest = pure tt
handle_line (some cmd) rest = do n ← number (command cmd); run_selected (selected n) (drain rest)

unfoldable pub handle_user_input : Input → C (Unit {0})
unfolding handle_line
handle_user_input input = handle_line input.line input.rest

-- `while (1) { handle_user_input(); }`, over the rounds that have been read so far.
unfoldable pub run_rounds : List Input → C (Unit {0})
run_rounds [] s = done tt s
run_rounds (input ∷ inputs) s = then_run (handle_user_input input s) λ _. run_rounds inputs

-- Each letter of the encoding is written behind the end of the vector.
encode-payload :
    (msg : List ℕ) (s : Client)
    → 0 < length msg
    → length msg ≤ 1023
    → payload_of (b64_encode_cpp (to msg) (length msg) []) s ≡ undefined
encode-payload msg s some_letter small =
    elim (Option-cases (b64_encode_cpp (to msg) (length msg) [])) [
      | inl none_written ↦ rw none_written refl
      | inr (payload, written) ↦
          let size =
            b64_encode_cpp-size msg [] payload (length msg) some_letter (omega (arith, small))
              written in
          absurd (
            omega
              (arith, size.1, encoded_size_closed (length msg) (omega (arith, small)), some_letter))
    ]

encode_word : (input : List ℕ) (s : Client) → encode (scanf 1023 input) s ≡ undefined
encode_word input s = elim (Option-cases (scanf 1023 input)) [
  | inl nothing ↦ rw nothing refl
  | inr ((msg, rest), found) ↦
      let size = scanf-length 1023 input msg rest found in
      rw found (encode-payload msg s size.0 size.1)
]

-- A round in which the user chooses to publish is undefined, whatever the message is: the text is
-- encoded into a vector with no elements, or there is no message, and an array is read that nothing
-- has written.
pub publish_undefined :
    (cmd rest : List ℕ) (s : Client)
    → command cmd ≡ some (pos 3)
    → handle_user_input (record { line = some cmd; rest = rest }) s ≡ undefined
unfolding handle_user_input run_selected selected printf
publish_undefined cmd rest s three = rw (three, encode_word) refl

run_selected-calls :
    (o : Option ProgramState) (stdin : List ℕ) (s : Client)
    → Ensures (λ _ t. t.calls ≡ s.calls) (run_selected o stdin s)
unfolding run_selected show_main_menu printf
run_selected-calls none stdin s = refl
run_selected-calls (some main_menu) stdin s = refl
run_selected-calls (some subscribe_topic_menu) stdin s = refl
run_selected-calls (some connect_to_other_node_menu) stdin s = refl
run_selected-calls (some publish_message_menu) stdin s = rw encode_word tt

handle_line-calls :
    (line : Option (List ℕ)) (rest : List ℕ) (s : Client)
    → Ensures (λ _ t. t.calls ≡ s.calls) (handle_line line rest s)
unfolding handle_line
handle_line-calls none rest s = refl
handle_line-calls (some cmd) rest s = elim (Option-cases (command cmd)) [
  | inl big ↦ rw big tt
  | inr (n, read) ↦ rw read (run_selected-calls (selected n) (drain rest) s)
]

-- No round calls the library: the calls behind any rounds that are defined are those before them.
run_rounds-calls :
    (inputs : List Input) (s : Client) → Ensures (λ _ t. t.calls ≡ s.calls) (run_rounds inputs s)
unfolding run_rounds handle_user_input
run_rounds-calls [] s = refl
run_rounds-calls (input ∷ inputs) s =
    Ensures-then_run (λ _ t. t.calls ≡ s.calls) (λ _ t. t.calls ≡ s.calls)
      (handle_user_input input s) _ (handle_line-calls input.line input.rest s)
      (λ _ t same.
        subst (λ cs. Ensures (λ _ u. u.calls ≡ cs) (run_rounds inputs t)) same
          (run_rounds-calls inputs t))
