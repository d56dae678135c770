-- ===== src/Addon.antt =====
-- examples/nodejs/waku_addon.c: the addon's state, its calls of Node-API and of libwaku, and the
-- callbacks that it passes to libwaku. Both libraries are parameters. The functions that JavaScript
-- calls are in `Methods`.
pub mod Methods
pub mod Memory
pub mod Publish
mod Tests
use nwaku.Base.{
  ℕ, zero, suc, ◌+◌, ◌-◌, ◌==◌, leb, if◌then◌else◌, Bool, Option, none, some, List, [], ◌∷◌, ◌++◌,
  length, codes,
}
use nwaku.Base.Int.{ℤ}
use nwaku.Base.Program.{
  Result, done, exited, undefined, Proc, pure, exit, fault, modify, then_run, ◌>>=◌, ◌>>◌,
}
use nwaku.Base64.{Pointer, null, to}
use nwaku.CClient.Requests.{Event, Call, Request, Context, Library, request}

-- napi_valuetype
pub data ValueType : Type 0 where
  napi_string napi_number napi_function napi_other : ValueType

-- The calls of Node-API whose status the addon checks.
pub data NapiCall : Type 0 where
  get_cb_info typeof create_string get_undefined call_function get_reference_value : NapiCall
  create_reference delete_reference get_global create_threadsafe_function : NapiCall
  call_threadsafe_function get_value_int32 get_value_int64 get_value_string : NapiCall
  create_int32 : NapiCall

-- `napi_value`: a handle, which only Node-API looks into.
abbrev pub Value : Type 0
Value = ℕ

-- Node-API: which calls return `napi_ok`, and what the values of JavaScript hold.
pub record Napi : Type 0 where
  pub returns_ok : NapiCall → Bool
  pub type_of : Value → ValueType
  pub text_of : Value → List ℕ
  pub int_of : Value → ℤ

-- The global variables; `napi_ref`s and thread-safe functions are the JavaScript functions that
-- they stand for. `refs` and `blocks` count the references and the memory blocks that are alive.
pub record Addon : Type 0 where
  pub ref_version_callback : Option Value
  pub ref_def_pubsub_topic_callback : Option Value
  pub ref_on_error_callback : Option Value
  pub thsafe_fn : Option Value
  pub content_topic_text : Pointer
  pub refs : ℕ
  pub blocks : ℕ
  pub calls : List Call
  pub thrown : List (List ℕ)
  pub js_calls : List (Value × List ℕ)

abbrev pub N {ℓ} : Type ℓ → Type ℓ
N A = Proc Addon A

abbrev pub get : N Addon
get s = done s s

-- `napi_throw_type_error`: the exception is pending, and the function goes on.
abbrev pub throw : List ℕ → N (Unit {0})
throw message = modify (λ s. record s { thrown = s.thrown ++ message ∷ [] })

abbrev pub malloc_block : N (Unit {0})
malloc_block = modify (λ s. record s { blocks = s.blocks + 1 })

abbrev pub free_block : N (Unit {0})
free_block = modify (λ s. record s { blocks = s.blocks - 1 })

abbrev pub free_pointer : Pointer → N (Unit {0})
free_pointer null = pure tt
free_pointer (to text) = free_block

-- `malloc(len + 1)` and `strcpy`: undefined where the text is longer than the block.
abbrev pub copy_event : Event → N (List ℕ)
copy_event e = if leb (length e.msg) e.len then (malloc_block >> pure e.msg) else (λ s. undefined)

module _ (napi : Napi) where
  open napi use {returns_ok}

  -- `NAPI_CALL`: `napi_fatal_error` ends the process.
  abbrev pub napi_call : NapiCall → N (Unit {0})
  napi_call call = if returns_ok call then pure tt else exit

  -- A reference that is null makes Node-API refuse it: the process ends.
  abbrev referenced : Option Value → N Value
  referenced none = exit
  referenced (some f) = pure f

  abbrev pub throw_if_null : Option Value → List ℕ → N (Unit {0})
  throw_if_null none message = throw message
  throw_if_null (some f) message = pure tt

  -- The common course of the callbacks that call a JavaScript function with a text, and what some of
  -- them do with its length. Node-API is told of two arguments where the address of one is given: the
  -- second one is read from behind it.
  call_js : (Addon → Option Value) → List ℕ → List ℕ → N (Unit {0}) → N (Unit {0})
  call_js reference message text with_length = do
    s ← get
    throw_if_null (reference s) message
    napi_call get_reference_value
    callback ← referenced (reference s)
    napi_call create_string
    with_length
    napi_call get_global
    napi_call call_function
    fault

  unfoldable pub handle_waku_version : Event → N (Unit {0})
  unfolding call_js
  handle_waku_version e =
      call_js (λ s. s.ref_version_callback)
        (codes "ERROR in event_handler. ref_version_callback == NULL") e.msg
        (napi_call create_int32)

  unfoldable pub handle_error : Event → N (Unit {0})
  unfolding call_js
  handle_error e =
      call_js (λ s. s.ref_on_error_callback)
        (codes "ERROR in event_handler. ref_on_error_callback == NULL") e.msg (pure tt)

  unfoldable pub handle_default_pubsub_topic : Event → N (Unit {0})
  unfolding call_js
  handle_default_pubsub_topic e =
      call_js (λ s. s.ref_def_pubsub_topic_callback)
        (codes "ERROR in event_handler. ref_def_pubsub_topic_callback == NULL") e.msg
        (napi_call create_int32)

  -- `CallJs`, which Node.js runs for each text that is queued: the text is freed in any case. Without
  -- an environment the function is not called.
  unfoldable pub call_js_queued : Bool → Option Value → List ℕ → N (Unit {0})
  call_js_queued env js_cb text = do
    if env
        then (napi_call create_string
            >> napi_call get_undefined
            >> napi_call call_function
            >> referenced js_cb
            >>= λ f. modify (λ t. record t { js_calls = t.js_calls ++ (f, text) ∷ [] }))
        else pure tt
    free_block

  -- The block goes to the queue of the thread-safe function.
  unfoldable pub event_handler : Event → N (Unit {0})
  event_handler e = do
    s ← get
    throw_if_null s.thsafe_fn (codes "ERROR in event_handler. ref_event_callback == NULL")
    text ← copy_event e
    napi_call call_threadsafe_function

unfoldable pub handle_content_topic : Event → N (Unit {0})
handle_content_topic e = do
  s ← get
  free_pointer s.content_topic_text
  text ← copy_event e
  modify (λ t. record t { content_topic_text = to text })
