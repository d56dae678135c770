-- ===== src/Libwaku/Requests.antt =====
-- library/waku_thread/inter_thread_communication: what the node's thread makes of a request. The node
-- itself is a parameter, less the test for the relay; `none` is a node that was never created.
use nwaku.Base.{ℕ, zero, suc, if◌then◌else◌, Bool, Option, none, some, List, [], ◌++◌, codes, map}
use nwaku.Message.{WakuMessage}
use nwaku.Topics.Text.{split}

-- A value, or the text of an error.
pub data Answer (A : Type 0) : Type 0 where
  ok : A → Answer A
  err : List ℕ → Answer A

pub data NodeRequest : Type 0 where
  create_node : List ℕ → NodeRequest
  start_node stop_node listening_addresses : NodeRequest
  connect_to : List ℕ → ℕ → NodeRequest
  subscribe unsubscribe : List ℕ → NodeRequest
  publish : List ℕ → WakuMessage → NodeRequest

-- The node. `strip` takes white space off both ends of a text.
pub record WakuNode (N : Type 0) : Type 0 where
  pub create_waku : List ℕ → Answer N
  pub start_waku : N → N × Answer (Unit {0})
  pub stop : N → N × Answer (Unit {0})
  pub connect_to_nodes : List (List ℕ) → N → N × Bool
  pub has_relay : N → Bool
  pub relay_subscribe : List ℕ → N → N
  pub relay_unsubscribe_all : List ℕ → N → N
  pub relay_publish : List ℕ → WakuMessage → N → N × ℕ
  pub message_hash : List ℕ → WakuMessage → List ℕ
  pub listen_addresses : N → List ℕ
  pub strip : List ℕ → List ℕ

-- The node behind a request, and the answer; `none` is a use of a node that is not there.
abbrev pub Outcome : Type 0 → Type 0
Outcome N = Option (Option N × Answer (List ℕ))

abbrev pub explained : {A : Type 0} → List ℕ → Answer A → Answer (List ℕ)
explained text (ok a) = ok []
explained text (err e) = err (text ++ e)

abbrev pub published : {N : Type 0} → List ℕ → N × ℕ → Outcome N
published hash (n, zero) = some (some n, err (codes "Message not sent because no peers found."))
published hash (n, suc peers) = some (some n, ok hash)

abbrev pub created : {N : Type 0} → Option N → Answer N → Outcome N
created w (ok n) = some (some n, ok [])
created w (err e) = some (w, err (codes "error processing createWaku request: " ++ e))

abbrev pub done_with : {N : Type 0} → List ℕ → N × Answer (Unit {0}) → Outcome N
done_with text (n, a) = some (some n, explained text a)

abbrev pub connected : {N : Type 0} → N × Bool → Outcome N
connected (n, completed) =
    some (some n, if completed then ok [] else err (codes "Timeout expired."))

module _ {N : Type 0} (node : WakuNode N) where
  unless_no_relay : N → Outcome N → Outcome N
  unless_no_relay n outcome =
      if node.has_relay n
      then outcome
      else some (some n, err (codes "Operation not supported without Waku Relay enabled."))

  unfoldable pub process : NodeRequest → Option N → Outcome N
  unfolding unless_no_relay split
  process (create_node json) w = created w (node.create_waku json)
  process start_node none = none
  process start_node (some n) = done_with (codes "problem starting waku: ") (node.start_waku n)
  process stop_node none = none
  process stop_node (some n) = done_with (codes "exception stopping node: ") (node.stop n)
  process listening_addresses none = none
  process listening_addresses (some n) = some (some n, ok (node.listen_addresses n))
  process (connect_to peers timeout) none = none
  process (connect_to peers timeout) (some n) =
      connected (node.connect_to_nodes (map node.strip (split b',' peers)) n)
  process (subscribe topic) none = none
  process (subscribe topic) (some n) =
      unless_no_relay n (some (some (node.relay_subscribe topic n), ok []))
  process (unsubscribe topic) none = none
  process (unsubscribe topic) (some n) =
      unless_no_relay n (some (some (node.relay_unsubscribe_all topic n), ok []))
  process (publish topic msg) none = none
  process (publish topic msg) (some n) =
      unless_no_relay n (published (node.message_hash topic msg) (node.relay_publish topic msg n))
