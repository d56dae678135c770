-- ===== src/CClient/Requests.antt =====
-- examples/cbindings/waku_example.c: the calls of libwaku and its callbacks. The library is a
-- parameter: what a call returns, and the callbacks that it makes before it returns.
use nwaku.Base.{
  ℕ, zero, suc, ◌+◌, ◌-◌, ◌==◌, leb, if◌then◌else◌, Option, none, some, List, [], ◌∷◌, ◌++◌, length,
  take, codes,
}
use nwaku.Base.Decimal.{print}
use nwaku.Base.Program.{done, undefined, Proc, pure, exit, modify, then_run, ◌>>=◌, ◌>>◌}
use nwaku.Base64.{Pointer, null, to, b64_encode}

-- The first argument of a request: the context that `waku_new` returned, the address of the
-- variable that holds it, the constant `RET_OK`, which is a null pointer, or a callback, where the
-- context is left out.
pub data Context : Type 0 where
  ctx address_of_ctx ret_ok_as_pointer callback_as_pointer : Context

-- The functions of library/libwaku.h that have a context.
pub data Request : Type 0 where
  start stop destroy version set_event_callback default_pubsub_topic listen_addresses : Request
  content_topic : List ℕ → ℕ → List ℕ → List ℕ → Request
  relay_publish : List ℕ → List ℕ → ℕ → Request
  named_pubsub_topic relay_subscribe relay_unsubscribe : List ℕ → Request
  connect : List ℕ → ℕ → Request

pub data Call : Type 0 where
  new : List ℕ → Call
  request : Context → Request → Call

-- A callback's arguments: `callerRet`, the text at `msg`, and `len`.
pub record Event : Type 0 where
  pub caller_ret : ℕ
  pub msg : List ℕ
  pub len : ℕ

pub record Reply : Type 0 where
  pub ret : ℕ
  pub events : List Event

abbrev pub ret_ok : ℕ
ret_ok = 0

abbrev pub ret_err : ℕ
ret_err = 1

-- The global variables, the blocks from `malloc` that are not freed, and what the program did.
pub record Client : Type 0 where
  pub content_topic_text : Pointer
  pub publish_response : Pointer
  pub blocks : ℕ
  pub calls : List Call
  pub output : List (List ℕ)

abbrev pub C {ℓ} : Type ℓ → Type ℓ
C A = Proc Client A

abbrev pub get : C Client
get s = done s s

-- A library's answer may depend on the calls before.
abbrev pub Library : Type 0
Library = List Call → Call → Reply

unfoldable pub printf : List ℕ → C (Unit {0})
printf text = modify (λ s. record s { output = s.output ++ text ∷ [] })

-- `%s` of a null pointer, as the GNU library prints it.
abbrev pub shown : Pointer → List ℕ
shown null = codes "(null)"
shown (to text) = text

-- `free`, on a pointer that is null or owns a block.
abbrev pub free : Pointer → C (Unit {0})
free null = pure tt
free (to text) = modify (λ s. record s { blocks = s.blocks - 1 })

unfoldable pub event_handler : Event → C (Unit {0})
unfolding printf
event_handler e =
    if e.caller_ret == ret_err
    then (printf (codes "Error: " ++ e.msg) >> exit)
    else (if e.caller_ret == ret_ok then printf (codes "Receiving message " ++ e.msg) else pure tt)

-- `malloc(len + 1)` and `strcpy`, which is undefined where the text is longer than the block.
abbrev pub copy : Event → C Pointer
copy e s =
    if leb (length e.msg) e.len
    then done (to e.msg) (record s { blocks = s.blocks + 1 })
    else undefined

unfoldable pub handle_content_topic : Event → C (Unit {0})
handle_content_topic e s =
    then_run (free s.content_topic_text s)
      λ _ s1. then_run (copy e s1) λ text s2. done tt (record s2 { content_topic_text = text })

-- No request of the program passes this one.
unfoldable pub handle_publish_ok : Event → C (Unit {0})
unfolding printf
handle_publish_ok e = printf (codes "Publish Ok: " ++ e.msg) >> λ s.
    then_run (free s.publish_response s)
      λ _ s1. then_run (copy e s1) λ text s2. done tt (record s2 { publish_response = text })

unfoldable pub print_default_pubsub_topic : Event → C (Unit {0})
unfolding printf
print_default_pubsub_topic e = printf (codes "Default pubsub topic: " ++ e.msg)

unfoldable pub print_waku_version : Event → C (Unit {0})
unfolding printf
print_waku_version e = printf (codes "Git Version: " ++ e.msg)

unfoldable pub run_events : (Event → C (Unit {0})) → List Event → C (Unit {0})
run_events callback [] = pure tt
run_events callback (e ∷ es) = callback e >> run_events callback es

module _ (lib : Library) where
  -- A call of the library with its callback: the result is what the call returns.
  unfoldable pub invoke : Call → (Event → C (Unit {0})) → C ℕ
  unfolding run_events
  invoke call callback = do
    s ← get
    modify (λ t. record t { calls = t.calls ++ call ∷ [] })
    run_events callback (lib s.calls call).events
    pure (lib s.calls call).ret

  -- `WAKU_CALL`, less the text of the call in what it prints.
  unfoldable pub waku_call : Context → Request → (Event → C (Unit {0})) → C (Unit {0})
  unfolding invoke printf
  waku_call c r callback = do
    ret ← invoke (request c r) callback
    if ret == 0
        then pure tt
        else (printf (codes "Failed the call. Returned code: " ++ print ret) >> exit)

-- The text up to the terminating zero.
unfoldable pub c_string : List ℕ → List ℕ
c_string [] = []
c_string (zero ∷ cs) = []
c_string (suc c ∷ cs) = suc c ∷ c_string cs

abbrev pub c_pointer : Pointer → Pointer
c_pointer null = null
c_pointer (to cs) = to (c_string cs)

abbrev pub max_msg_size : ℕ
max_msg_size = 65535

-- `{"payload":"%s","content_topic":"%s"}`
abbrev pub message_json : List ℕ → List ℕ → List ℕ
message_json payload topic =
    codes "{\"payload\":\""
    ++ (payload ++ (codes "\",\"content_topic\":\"" ++ (topic ++ codes "\"}")))

abbrev pub count_block : Pointer → Client → Client
count_block null s = s
count_block (to text) s = record s { blocks = s.blocks + 1 }

abbrev pub encoded : Option Pointer → C Pointer
encoded none s = undefined
encoded (some p) s = done (c_pointer p) (count_block p s)

abbrev pub encode : (ℕ → Option (List ℕ)) → List ℕ → C Pointer
encode malloc msg = encoded (b64_encode malloc (to msg) (length msg))

module _ (malloc : ℕ → Option (List ℕ)) (lib : Library) where
  unfoldable pub publish_message : List ℕ → List ℕ → C (Unit {0})
  unfolding waku_call printf
  publish_message pubsub_topic msg = do
    payload ← encode malloc msg
    waku_call lib ret_ok_as_pointer
        (content_topic (codes "appName") 1 (codes "contentTopicName") (codes "encoding"))
        handle_content_topic
    s ← get
    let json = take (max_msg_size - 1) (message_json (shown payload) (shown s.content_topic_text))
    free payload
    waku_call lib address_of_ctx (relay_publish pubsub_topic json 10000) event_handler
    t ← get
    printf (codes "waku relay response [" ++ (shown t.publish_response ++ codes "]"))
