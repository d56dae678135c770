-- ===== src/Addon/Methods.antt =====
-- examples/nodejs/waku_addon.c: the functions that JavaScript calls. A function that throws
-- returns at once, as in the source; `NULL` is what each of them returns.
use nwaku.Base.{
  ℕ, ◌%◌, ◌^◌, ◌-◌, ◌+◌, ◌==◌, if◌then◌else◌, Option, none, some, List, [], ◌∷◌, ◌++◌, length, take,
  codes,
}
use nwaku.Base.Int.{ℤ, pos, negsuc}
use nwaku.Base.Program.{done, undefined, pure, exit, fault, modify, ◌>>=◌, ◌>>◌}
use nwaku.Base64.{Pointer, null, to, b64_encode}
use nwaku.CClient.Requests.{
  Event, Call, Library, request, new, ctx, callback_as_pointer, version, default_pubsub_topic,
  set_event_callback, start, connect, content_topic, relay_publish, relay_subscribe, shown,
  c_pointer, message_json,
}
use nwaku.Addon.{
  Value, Napi, NapiCall, ValueType, napi_string, napi_number, napi_function, napi_other, Addon, N,
  get, throw, malloc_block, free_block, free_pointer, napi_call, get_cb_info, typeof, create_string,
  create_reference, delete_reference, create_threadsafe_function, get_value_int32, get_value_int64,
  get_value_string, handle_waku_version, handle_error, handle_default_pubsub_topic,
  handle_content_topic, event_handler,
}

unfoldable pub run_events : (Event → N (Unit {0})) → List Event → N (Unit {0})
run_events callback [] = pure tt
run_events callback (e ∷ es) = callback e >> run_events callback es

module _ (lib : Library) where
  unfoldable pub invoke : Call → (Event → N (Unit {0})) → N ℕ
  unfolding run_events
  invoke call callback = do
    s ← get
    modify (λ t. record t { calls = t.calls ++ call ∷ [] })
    run_events callback (lib s.calls call).events
    pure (lib s.calls call).ret

  -- `WAKU_CALL`: `napi_fatal_error` ends the process.
  unfoldable pub waku_call : Call → (Event → N (Unit {0})) → N (Unit {0})
  unfolding invoke
  waku_call call callback = do ret ← invoke call callback; if ret == 0 then pure tt else exit

-- `napi_create_reference` into a global variable. Its old value is not looked at.
abbrev pub new_ref : (Addon → Addon) → N (Unit {0})
new_ref assign = modify (λ s. record (assign s) { refs = s.refs + 1 })

-- `if (ref != NULL) napi_delete_reference(...)`
abbrev pub delete_ref : Option Value → N (Unit {0}) → N (Unit {0})
delete_ref none delete = pure tt
delete_ref (some f) delete = delete

abbrev pub wrong_number : List ℕ
wrong_number = codes "Wrong number of arguments"

-- The value's type decides between the rest of a function and an exception.
abbrev pub check_type {ℓ} : {A : Type ℓ} → ValueType → ValueType → A → A → A
check_type napi_string napi_string ok bad = ok
check_type napi_number napi_number ok bad = ok
check_type napi_function napi_function ok bad = ok
check_type napi_other napi_other ok bad = ok
check_type _ _ ok bad = bad

-- The low 32 bits of an integer.
abbrev pub low_32 : ℤ → ℕ
low_32 (pos n) = n % 2 ^ 32
low_32 (negsuc n) = 2 ^ 32 - 1 - n % 2 ^ 32

module _ (napi : Napi) (malloc : ℕ → Option (List ℕ)) (lib : Library) where
  open napi use {type_of, text_of, int_of}

  abbrev check : NapiCall → N (Unit {0})
  check = napi_call napi

  -- Each of the functions takes what `napi_get_cb_info` returns.
  unfoldable pub waku_new : List Value → N (Unit {0})
  waku_new [] = check get_cb_info >> throw wrong_number
  waku_new (config ∷ more) = do
    check get_cb_info
    malloc_block
    ret ← invoke lib (new (text_of config)) (event_handler napi)
    free_block

  unfoldable pub waku_version : List Value → N (Unit {0})
  waku_version [] = check get_cb_info >> throw wrong_number
  waku_version (cb ∷ more) = do
    check get_cb_info
    check typeof
    check_type (type_of cb) napi_function
        (get >>= λ s.
          delete_ref s.ref_version_callback
            (check delete_reference >> modify (λ t. record t { refs = t.refs - 1 }))
          >> check create_reference
          >> new_ref (λ t. record t { ref_version_callback = some cb })
          >> waku_call lib (request ctx version) (handle_waku_version napi))
        (throw (codes "The argument should be a napi_function"))

  unfoldable pub waku_default_pubsub_topic : List Value → N (Unit {0})
  waku_default_pubsub_topic [] = check get_cb_info >> throw wrong_number
  waku_default_pubsub_topic (cb ∷ more) = do
    check get_cb_info
    check typeof
    check_type (type_of cb) napi_function
        (get >>= λ s.
          delete_ref s.ref_def_pubsub_topic_callback
            (check delete_reference >> modify (λ t. record t { refs = t.refs - 1 }))
          >> check create_reference
          >> new_ref (λ t. record t { ref_def_pubsub_topic_callback = some cb })
          >> waku_call lib (request ctx default_pubsub_topic) (handle_default_pubsub_topic napi))
        (throw (codes "The argument should be a napi_function"))

  -- The call of `waku_set_event_callback` leaves out the context.
  unfoldable pub waku_set_event_callback : List Value → N (Unit {0})
  waku_set_event_callback [] = check get_cb_info >> throw wrong_number
  waku_set_event_callback (cb ∷ more) = do
    check get_cb_info
    check typeof
    check_type (type_of cb) napi_function
        (check create_string
          >> check create_threadsafe_function
          >> modify (λ t. record t { thsafe_fn = some cb })
          >> invoke lib (request callback_as_pointer set_event_callback) (event_handler napi)
          >>= λ ret. pure tt)
        (throw (codes "The argument should be a napi_function"))

  unfoldable pub waku_start : List Value → N (Unit {0})
  waku_start args = do ret ← invoke lib (request ctx start) (event_handler napi); pure tt

  -- `WakuConnect` behind the two checks of its string and its number.
  unfoldable pub connect_checked : List ℕ → ℤ → Value → N (Unit {0})
  connect_checked peers timeout cb = do
    check typeof
    check_type (type_of cb) napi_function
        (check create_reference
          >> new_ref (λ t. record t { ref_on_error_callback = some cb })
          >> waku_call lib (request ctx (connect peers (low_32 timeout))) (handle_error napi)
          >> free_block)
        (throw (codes "The argument should be a napi_function"))

  unfoldable pub waku_connect : List Value → N (Unit {0})
  unfolding connect_checked
  waku_connect (peers ∷ timeout ∷ cb ∷ more) = do
    check get_cb_info
    check typeof
    check_type (type_of peers) napi_string
        (malloc_block
          >> check typeof
          >> check_type (type_of timeout) napi_number
              (check get_value_int32 >> connect_checked (text_of peers) (int_of timeout) cb)
              (throw (codes "The timeout attribute should be a number")))
        (throw (codes "The peers attribute should be a string"))
  waku_connect args = check get_cb_info >> throw wrong_number

  unfoldable pub waku_relay_subscribe : List Value → N (Unit {0})
  waku_relay_subscribe (topic ∷ cb ∷ more) = do
    check get_cb_info
    check typeof
    check_type (type_of topic) napi_string
        (malloc_block
          >> check typeof
          >> check_type (type_of cb) napi_function
              (check create_reference
                >> new_ref (λ t. record t { ref_on_error_callback = some cb })
                >> waku_call lib (request ctx (relay_subscribe (text_of topic))) (handle_error napi)
                >> free_block)
              (throw (codes "The argument should be a napi_function")))
        (throw (codes "The topic attribute should be a string"))
  waku_relay_subscribe args = check get_cb_info >> throw wrong_number

  abbrev pub encoded : Option Pointer → N Pointer
  encoded none s = undefined
  encoded (some null) s = done null s
  encoded (some (to text)) s = done (c_pointer (to text)) (record s { blocks = s.blocks + 1 })

  -- Node-API writes the 64 bits of an integer behind the address of a variable of 32.
  abbrev read_timeout : Value → N ℕ
  read_timeout timeout = check get_value_int64 >> fault

  -- `WakuRelayPublish` from its payload on: the JSON text, the timeout and the callback.
  unfoldable pub publish_payload : List ℕ → List ℕ → List ℕ → Value → Value → N (Unit {0})
  publish_payload pubsub_topic content_topic_name msg timeout cb = do
    payload ← encoded (b64_encode malloc (to msg) (length msg))
    waku_call lib
        (request ctx (content_topic (codes "appName") 1 content_topic_name (codes "encoding")))
        handle_content_topic
    s ← get
    let json = take 1023 (message_json (shown payload) (shown s.content_topic_text))
    free_pointer payload
    check typeof
    check_type (type_of timeout) napi_number
        (read_timeout timeout >>= λ timeout_ms.
          check typeof
          >> check_type (type_of cb) napi_function
              (check create_reference
                >> new_ref (λ t. record t { ref_on_error_callback = some cb })
                >> waku_call lib (request ctx (relay_publish pubsub_topic json timeout_ms))
                    (handle_error napi)
                >> free_block
                >> free_block)
              (throw (codes "The argument should be a napi_function")))
        (throw (codes "The argument should be a napi_number"))

  -- The message is read into an array of 2048 bytes.
  unfoldable pub waku_relay_publish : List Value → N (Unit {0})
  waku_relay_publish (topic ∷ content ∷ message ∷ timeout ∷ cb ∷ more) = do
    check get_cb_info
    check typeof
    check_type (type_of topic) napi_string
        (malloc_block
          >> check typeof
          >> check_type (type_of content) napi_string
              (malloc_block
                >> check typeof
                >> check_type (type_of message) napi_string
                    (check get_value_string
                      >> publish_payload (text_of topic) (text_of content)
                          (take 2047 (text_of message)) timeout cb)
                    (throw (codes "The message attribute should be a string")))
              (throw (codes "The content topic attribute should be a string")))
        (throw (codes "The napiPubsubTopic attribute should be a string"))
  waku_relay_publish args = check get_cb_info >> throw wrong_number
