-- ===== src/CClient/Publish.antt =====
-- examples/cbindings/waku_example.c: what `publish_message` sends.
use nwaku.Base.{
  ℕ, zero, suc, ◌<◌, ◌≡◌, refl, ap, arith, List, [], ◌∷◌, ◌++◌, length, All, codes, leb, true,
}
use nwaku.Base64.{IsByte}
use nwaku.Base64.Reference.{letter, encoding}
use nwaku.CClient.Requests.{
  Library, Call, request, content_topic, relay_publish, ret_ok_as_pointer, address_of_ctx,
  message_json, c_string,
}

abbrev Pos : ℕ → Type 0
Pos n = 0 < n

letter-Pos : (n : ℕ) → n < 64 → Pos (letter n)
unfolding letter
letter-Pos n h = ground arith

pub encoding-Pos : (xs : List ℕ) → All IsByte xs → All Pos (encoding xs)
unfolding encoding
encoding-Pos [] h = tt
encoding-Pos (a ∷ []) h = (letter-Pos _ (omega arith), (letter-Pos _ (omega arith), omega arith))
encoding-Pos (a ∷ b ∷ []) h = (
  letter-Pos _ (omega arith),
  (letter-Pos _ (omega arith), (letter-Pos _ (omega arith), omega arith)),
)
encoding-Pos (a ∷ b ∷ c ∷ rest) h = (
  letter-Pos _ (omega arith),
  (
    letter-Pos _ (omega arith),
    (letter-Pos _ (omega arith), (letter-Pos _ (omega arith), encoding-Pos rest h.1.1.1)),
  ),
)

pub c_string-ended : (xs : List ℕ) → All Pos xs → c_string (xs ++ 0 ∷ []) ≡ xs
unfolding c_string
c_string-ended [] h = refl
c_string-ended (zero ∷ xs) h = absurd (omega arith)
c_string-ended (suc x ∷ xs) h = ap (◌∷◌ (suc x)) (c_string-ended xs h.1)

pub leb_self : (n : ℕ) → leb n n ≡ true
leb_self n = ground arith

abbrev pub topic_call : Call
topic_call =
    request ret_ok_as_pointer
      (content_topic (codes "appName") 1 (codes "contentTopicName") (codes "encoding"))

abbrev pub publish_call : List ℕ → List ℕ → List ℕ → Call
publish_call pubsub_topic msg topic =
    request address_of_ctx (relay_publish pubsub_topic (message_json (encoding msg) topic) 10000)

-- The answers of a library that accepts both calls and reports the content topic `topic`.
pub record Accepts (lib : Library) (calls : List Call) (pubsub_topic msg topic : List ℕ)
    : Type 0 where
  pub reports :
      lib calls topic_call
      ≡ record { ret = 0; events = record { caller_ret = 0; msg = topic; len = length topic } ∷ [] }
  pub publishes :
      lib (calls ++ topic_call ∷ []) (publish_call pubsub_topic msg topic)
      ≡ record { ret = 0; events = [] }
