-- ===== src/CppClient/Requests.antt =====
-- examples/cpp/waku.cpp: the calls of the library and its callbacks, which have two arguments and no
-- context. The library is a parameter: what a call returns, and the texts that it gives to the
-- callback before it returns. `cify` keeps one callback for each type, and each lambda has its own.
use nwaku.Base.{ℕ, ◌==◌, if◌then◌else◌, List, [], ◌∷◌, ◌++◌, codes}
use nwaku.Base.Decimal.{print}
use nwaku.Base.Program.{done, Proc, pure, exit, modify, ◌>>=◌, ◌>>◌}

pub data Call : Type 0 where
  new : List ℕ → Call
  default_pubsub_topic version set_event_callback start : Call
  pubsub_topic : List ℕ → Call
  connect : List ℕ → ℕ → Call
  relay_subscribe : List ℕ → Call

pub record Reply : Type 0 where
  pub ret : ℕ
  pub events : List (List ℕ)

-- The two strings that callbacks set, and what the program did.
pub record Client : Type 0 where
  pub default_topic : List ℕ
  pub custom_topic : List ℕ
  pub calls : List Call
  pub output : List (List ℕ)

abbrev pub C {ℓ} : Type ℓ → Type ℓ
C A = Proc Client A

abbrev pub get : C Client
get s = done s s

-- A library's answer may depend on the calls before.
abbrev pub Library : Type 0
Library = List Call → Call → Reply

unfoldable pub printf : List ℕ → C (Unit {0})
printf text = modify (λ s. record s { output = s.output ++ text ∷ [] })

unfoldable pub event_handler : List ℕ → C (Unit {0})
unfolding printf
event_handler msg = printf (codes "Receiving message " ++ (msg ++ codes "\n"))

unfoldable pub handle_error : List ℕ → C (Unit {0})
unfolding printf
handle_error msg = printf (codes "Error: " ++ (msg ++ codes "\n")) >> exit

unfoldable pub set_default_topic : List ℕ → C (Unit {0})
set_default_topic msg = modify (λ s. record s { default_topic = msg })

unfoldable pub set_custom_topic : List ℕ → C (Unit {0})
set_custom_topic msg = modify (λ s. record s { custom_topic = msg })

unfoldable pub print_version : List ℕ → C (Unit {0})
unfolding printf
print_version msg = printf (codes "Git Version: " ++ (msg ++ codes "\n"))

unfoldable pub run_events : (List ℕ → C (Unit {0})) → List (List ℕ) → C (Unit {0})
run_events callback [] = pure tt
run_events callback (e ∷ es) = callback e >> run_events callback es

module _ (lib : Library) where
  -- A call of the library with its callback: the result is what the call returns.
  unfoldable pub invoke : Call → (List ℕ → C (Unit {0})) → C ℕ
  unfolding run_events
  invoke call callback = do
    s ← get
    modify (λ t. record t { calls = t.calls ++ call ∷ [] })
    run_events callback (lib s.calls call).events
    pure (lib s.calls call).ret

  -- `WAKU_CALL`, less the text of the call in what it prints.
  unfoldable pub waku_call : Call → (List ℕ → C (Unit {0})) → C (Unit {0})
  unfolding invoke printf
  waku_call call callback = do
    ret ← invoke call callback
    if ret == 0
        then pure tt
        else printf (codes "Failed the call. Code: " ++ (print ret ++ codes "\n"))
