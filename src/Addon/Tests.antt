-- ===== src/Addon/Tests.antt =====
-- Concrete runs of the addon, and its theorems at concrete inputs.
use nwaku.Base.{
  ℕ, zero, suc, ◌+◌, refl, arith, true, Option, none, some, List, [], ◌∷◌, codes, replicate, ◌++◌,
}
use nwaku.Base.Int.{pos}
use nwaku.Base.Program.{Post}
use nwaku.Base64.{null, to, b64_encoded_size}
use nwaku.Base64.Reference.{encoding}
use nwaku.Base64.Encoder.{b64_encode-encoding}
use nwaku.CClient.Requests.{Library, Call, Reply, request, content_topic}
use nwaku.Addon.{Napi, ValueType, napi_string, napi_number, napi_function, napi_other, Addon}
use nwaku.Addon.Methods.{waku_connect, waku_relay_publish}
use nwaku.Addon.Memory.{Alive, waku_connect-Alive, lost_by_connect, made_by_connect}
use nwaku.Addon.Publish.{topic_call, refusal, requests, IsOutcome, waku_relay_publish-IsOutcome}

-- The values 0, 1 and 2 are a string, the number 10000 and a function.
abbrev value_type : ℕ → ValueType
value_type zero = napi_string
value_type (suc zero) = napi_number
value_type (suc (suc zero)) = napi_function
value_type n = napi_other

abbrev node : Napi
node = record {
  returns_ok = λ c. true;
  type_of = value_type;
  text_of = λ v. codes "/ip4/1";
  int_of = λ v. pos 10000;
}

abbrev answer : Call → Reply
answer (request c (content_topic name v n e)) = record {
  ret = 0;
  events = record { caller_ret = 0; msg = codes "t"; len = 1 } ∷ [];
}
answer call = record { ret = 0; events = [] }

abbrev accepting : Library
accepting calls call = answer call

abbrev heap : ℕ → Option (List ℕ)
heap n = some (replicate n 7)

abbrev loaded : Addon
loaded = record {
  ref_version_callback = none;
  ref_def_pubsub_topic_callback = none;
  ref_on_error_callback = none;
  thsafe_fn = none;
  content_topic_text = null;
  refs = 0;
  blocks = 0;
  calls = [];
  thrown = [];
  js_calls = [];
}

-- The timeout is a string: the copy of the peers is lost.
waku_connect-Alive_example :
    Post
      (Alive 0 0)
      (waku_connect node heap accepting (0 ∷ 0 ∷ 2 ∷ []))
      (λ _. Alive (0 + 1) (0 + 0))
unfolding lost_by_connect made_by_connect
waku_connect-Alive_example = waku_connect-Alive node heap accepting 0 0 2 [] 0 0

-- The timeout is a string: the content topic is asked for, and the error for the timeout is thrown.
waku_relay_publish-IsOutcome_example :
    IsOutcome
      (some (codes "The argument should be a napi_number"))
      (topic_call (codes "/ip4/1") ∷ [])
      loaded
      (waku_relay_publish node heap accepting (0 ∷ 0 ∷ 0 ∷ 0 ∷ 2 ∷ []) loaded)
unfolding refusal requests b64_encoded_size
waku_relay_publish-IsOutcome_example =
    waku_relay_publish-IsOutcome node heap accepting (λ c. refl) 0 0 0 0 2 []
      (to (encoding (codes "/ip4/1") ++ 0 ∷ [])) (codes "t")
      (b64_encode-encoding heap (codes "/ip4/1") (replicate 9 7) 6 (omega arith) (omega arith)
        (omega arith) (omega arith) refl refl)
      loaded refl
