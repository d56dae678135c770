-- ===== src/Addon/Publish.antt =====
-- examples/nodejs/waku_addon.c: what becomes of a call of `WakuRelayPublish`.
use nwaku.Base.{
  ℕ, ◌+◌, ◌-◌, ◌≡◌, ap, refl, sym, true, Option, none, some, List, [], ◌∷◌, ◌++◌, length, take,
  codes,
}
use mathlib.Core.List.{append-nil}
use nwaku.Base.Program.{Result, done, exited, undefined}
use nwaku.Base64.{Pointer, null, to, b64_encode}
use nwaku.CClient.Publish.{leb_self}
use nwaku.CClient.Requests.{Library, Call, Reply, request, ctx, content_topic}
use nwaku.Addon.{
  Value, Napi, NapiCall, ValueType, napi_string, napi_number, napi_function, napi_other, Addon,
  handle_content_topic, typeof, throw, get_cb_info, get_value_string, get_value_int64,
}
use nwaku.Addon.Methods.{publish_payload, waku_relay_publish, waku_call, check_type}

abbrev pub topic_call : List ℕ → Call
topic_call name = request ctx (content_topic (codes "appName") 1 name (codes "encoding"))

-- What is thrown, by the types of the topic, the content topic, the message and the timeout; `none` if
-- all four are right.
unfoldable pub refusal : ValueType → ValueType → ValueType → ValueType → Option (List ℕ)
refusal napi_string napi_string napi_string napi_number = none
refusal napi_string napi_string napi_string timeout =
    some (codes "The argument should be a napi_number")
refusal napi_string napi_string message timeout =
    some (codes "The message attribute should be a string")
refusal napi_string content message timeout =
    some (codes "The content topic attribute should be a string")
refusal topic content message timeout =
    some (codes "The napiPubsubTopic attribute should be a string")

-- The content topic is asked for if the first three are right.
unfoldable pub requests : ValueType → ValueType → ValueType → List ℕ → List Call
requests napi_string napi_string napi_string name = topic_call name ∷ []
requests topic content message name = []

-- With nothing to throw the call is undefined, and else it throws, and has made these requests.
abbrev pub IsOutcome : Option (List ℕ) → List Call → Addon → Result Addon (Unit {0}) → Type 0
IsOutcome none calls s (done u t) = ⊥
IsOutcome none calls s (exited t) = ⊥
IsOutcome none calls s undefined = Unit
IsOutcome (some message) calls s (done u t) =
    (t.thrown ≡ s.thrown ++ message ∷ []) × (t.calls ≡ s.calls ++ calls)
IsOutcome (some message) calls s (exited t) = ⊥
IsOutcome (some message) calls s undefined = ⊥

abbrev pub reporting : List ℕ → Reply
reporting text = record {
  ret = 0;
  events = record { caller_ret = 0; msg = text; len = length text } ∷ [];
}

module _ (napi : Napi) (malloc : ℕ → Option (List ℕ)) (lib : Library)
    (all_ok : (c : NapiCall) → napi.returns_ok c ≡ true) where
  open napi use {type_of, text_of}

  module _ (pubsub name msg : List ℕ) (timeout cb : Value) (payload : Pointer) (reported : List ℕ)
      (encodes : b64_encode malloc (to msg) (length msg) ≡ some payload) where
    -- The payload's topic is asked for; what is behind this has the answer.
    topic_asked :
        (s : Addon) (old : Pointer)
        → s.content_topic_text ≡ old
        → lib s.calls (topic_call name) ≡ reporting reported
        → (t : Addon) × (t.thrown ≡ s.thrown)
          × (t.calls ≡ s.calls ++ topic_call name ∷ [])
          × (waku_call lib (topic_call name) handle_content_topic s ≡ done tt t)
    unfolding waku_call handle_content_topic
    topic_asked s null old said = (
      record s {
        calls = s.calls ++ topic_call name ∷ [];
        blocks = s.blocks + 1;
        content_topic_text = to reported;
      },
      refl,
      refl,
      rw (said, old, leb_self (length reported)) refl,
    )
    topic_asked s (to text) old said = (
      record s {
        calls = s.calls ++ topic_call name ∷ [];
        blocks = s.blocks - 1 + 1;
        content_topic_text = to reported;
      },
      refl,
      refl,
      rw (said, old, leb_self (length reported)) refl,
    )

    -- What is left of `publish_payload` behind its request.
    payload_checked :
        (s : Addon)
        → lib s.calls (topic_call name) ≡ reporting reported
        → (t : Addon) × (t.thrown ≡ s.thrown)
          × (t.calls ≡ s.calls ++ topic_call name ∷ [])
          × (publish_payload napi malloc lib pubsub name msg timeout cb s
              ≡ check_type
                  (type_of timeout)
                  napi_number
                  (λ v. undefined)
                  (throw (codes "The argument should be a napi_number"))
                  t)
    unfolding publish_payload
    payload_checked s said =
        elim payload
            as (λ p.
              b64_encode malloc (to msg) (length msg) ≡ some p
              → (t : Addon) × (t.thrown ≡ s.thrown)
                × (t.calls ≡ s.calls ++ topic_call name ∷ [])
                × (publish_payload napi malloc lib pubsub name msg timeout cb s
                    ≡ check_type (type_of timeout) napi_number (λ v. undefined)
                        (throw (codes "The argument should be a napi_number")) t)) [
                          | null ↦ λ enc.
                              let (t, thrown, calls, asked) =
                                topic_asked s s.content_topic_text refl said in
                              (
                                t,
                                thrown,
                                calls,
                                rw (enc, asked, all_ok typeof, all_ok get_value_int64) refl,
                              )
                          | to text ↦ λ enc.
                              let (t, thrown, calls, asked) =
                                topic_asked (record s { blocks = s.blocks + 1 })
                                  s.content_topic_text refl said in
                              (
                                record t { blocks = t.blocks - 1 },
                                thrown,
                                calls,
                                rw (enc, asked, all_ok typeof, all_ok get_value_int64) refl,
                              )
                        ]
          encodes

    payload-IsOutcome :
        (s : Addon) (d : ValueType)
        → type_of timeout ≡ d
        → lib s.calls (topic_call name) ≡ reporting reported
        → IsOutcome
            (refusal napi_string napi_string napi_string d)
            (topic_call name ∷ [])
            s
            (publish_payload napi malloc lib pubsub name msg timeout cb s)
    unfolding refusal
    payload-IsOutcome s d number said =
        elim d
            as (λ d.
              type_of timeout ≡ d
              → IsOutcome (refusal napi_string napi_string napi_string d) (topic_call name ∷ []) s
                  (publish_payload napi malloc lib pubsub name msg timeout cb s)) [
                    | napi_number ↦ λ e.
                        let (t, thrown, calls, runs) = payload_checked s said in rw (runs, e) tt
                    | napi_string ↦ λ e.
                        let (t, thrown, calls, runs) = payload_checked s said in
                        rw (runs, e)
                          (
                            ap (λ ms. ms ++ codes "The argument should be a napi_number" ∷ [])
                                thrown,
                            calls,
                          )
                    | napi_function ↦ λ e.
                        let (t, thrown, calls, runs) = payload_checked s said in
                        rw (runs, e)
                          (
                            ap (λ ms. ms ++ codes "The argument should be a napi_number" ∷ [])
                                thrown,
                            calls,
                          )
                    | napi_other ↦ λ e.
                        let (t, thrown, calls, runs) = payload_checked s said in
                        rw (runs, e)
                          (
                            ap (λ ms. ms ++ codes "The argument should be a napi_number" ∷ [])
                                thrown,
                            calls,
                          )
                  ]
          number

  module _ (topic content message timeout cb : Value) (more : List Value) (payload : Pointer)
      (reported : List ℕ)
      (encodes : b64_encode malloc
          (to (take 2047 (text_of message)))
          (length (take 2047 (text_of message)))
        ≡ some payload) where
    typed-IsOutcome :
        (s : Addon) (a b c d : ValueType)
        → type_of topic ≡ a
        → type_of content ≡ b
        → type_of message ≡ c
        → type_of timeout ≡ d
        → lib s.calls (topic_call (text_of content)) ≡ reporting reported
        → IsOutcome
            (refusal a b c d)
            (requests a b c (text_of content))
            s
            (waku_relay_publish napi malloc lib (topic ∷ content ∷ message ∷ timeout ∷ cb ∷ more) s)
    unfolding waku_relay_publish refusal requests
    typed-IsOutcome s napi_string napi_string napi_string napi_string ea eb ec ed said =
        rw (all_ok get_cb_info, all_ok typeof, ea, eb, ec, all_ok get_value_string)
          (payload-IsOutcome (text_of topic) (text_of content) (take 2047 (text_of message)) timeout
            cb payload reported encodes (record s { blocks = s.blocks + 1 + 1 }) napi_string ed
            said)
    typed-IsOutcome s napi_string napi_string napi_string napi_number ea eb ec ed said =
        rw (all_ok get_cb_info, all_ok typeof, ea, eb, ec, all_ok get_value_string)
          (payload-IsOutcome (text_of topic) (text_of content) (take 2047 (text_of message)) timeout
            cb payload reported encodes (record s { blocks = s.blocks + 1 + 1 }) napi_number ed
            said)
    typed-IsOutcome s napi_string napi_string napi_string napi_function ea eb ec ed said =
        rw (all_ok get_cb_info, all_ok typeof, ea, eb, ec, all_ok get_value_string)
          (payload-IsOutcome (text_of topic) (text_of content) (take 2047 (text_of message)) timeout
            cb payload reported encodes (record s { blocks = s.blocks + 1 + 1 }) napi_function ed
            said)
    typed-IsOutcome s napi_string napi_string napi_string napi_other ea eb ec ed said =
        rw (all_ok get_cb_info, all_ok typeof, ea, eb, ec, all_ok get_value_string)
          (payload-IsOutcome (text_of topic) (text_of content) (take 2047 (text_of message)) timeout
            cb payload reported encodes (record s { blocks = s.blocks + 1 + 1 }) napi_other ed said)
    typed-IsOutcome s napi_string napi_string napi_number d ea eb ec ed said =
        rw (all_ok get_cb_info, all_ok typeof, ea, eb, ec) (refl, sym (append-nil s.calls))
    typed-IsOutcome s napi_string napi_string napi_function d ea eb ec ed said =
        rw (all_ok get_cb_info, all_ok typeof, ea, eb, ec) (refl, sym (append-nil s.calls))
    typed-IsOutcome s napi_string napi_string napi_other d ea eb ec ed said =
        rw (all_ok get_cb_info, all_ok typeof, ea, eb, ec) (refl, sym (append-nil s.calls))
    typed-IsOutcome s napi_string napi_number c d ea eb ec ed said =
        rw (all_ok get_cb_info, all_ok typeof, ea, eb) (refl, sym (append-nil s.calls))
    typed-IsOutcome s napi_string napi_function c d ea eb ec ed said =
        rw (all_ok get_cb_info, all_ok typeof, ea, eb) (refl, sym (append-nil s.calls))
    typed-IsOutcome s napi_string napi_other c d ea eb ec ed said =
        rw (all_ok get_cb_info, all_ok typeof, ea, eb) (refl, sym (append-nil s.calls))
    typed-IsOutcome s napi_number b c d ea eb ec ed said =
        rw (all_ok get_cb_info, all_ok typeof, ea) (refl, sym (append-nil s.calls))
    typed-IsOutcome s napi_function b c d ea eb ec ed said =
        rw (all_ok get_cb_info, all_ok typeof, ea) (refl, sym (append-nil s.calls))
    typed-IsOutcome s napi_other b c d ea eb ec ed said =
        rw (all_ok get_cb_info, all_ok typeof, ea) (refl, sym (append-nil s.calls))

    -- With five arguments or more, where Node-API refuses nothing, `b64_encode` returns for the message,
    -- and the library accepts the request for the content topic and reports it:
    -- `WakuRelayPublish` throws the error for the first argument of the wrong type, where the topic, the
    -- content topic and the message have to be strings and the timeout a number, and nothing else. The
    -- content topic is the only thing that it asks of the library then, and it does so where the three
    -- strings are right. If all four are right, the call is undefined.
    pub waku_relay_publish-IsOutcome :
        (s : Addon)
        → lib s.calls (topic_call (text_of content)) ≡ reporting reported
        → IsOutcome
            (refusal (type_of topic) (type_of content) (type_of message) (type_of timeout))
            (requests (type_of topic) (type_of content) (type_of message) (text_of content))
            s
            (waku_relay_publish napi malloc lib (topic ∷ content ∷ message ∷ timeout ∷ cb ∷ more) s)
    waku_relay_publish-IsOutcome s said =
        typed-IsOutcome s (type_of topic) (type_of content) (type_of message) (type_of timeout) refl
          refl refl refl said
