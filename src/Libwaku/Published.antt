-- ===== src/Libwaku/Published.antt =====
-- library/libwaku.nim: when `waku_relay_publish` reports success.
use nwaku.Base.{
  Bool-cases, zero, suc, ◌∙◌, ℕ, ◌+◌, ◌≡◌, ap, sym, refl, Bool, true, false, Option, none, some,
  List, [], ◌∷◌, length, arith, Option-cases, inl, inr,
}
use nwaku.Base.Program.{Ensures, Returns}
use nwaku.Message.{WakuMessage}
use nwaku.CClient.Requests.{Context, ctx, Reply, ret_ok}
use nwaku.Libwaku.Requests.{Answer, ok, err, publish, WakuNode, process}
use nwaku.Libwaku.Json.{Codecs, JsonContent, malformed, parsed, JsonMessage, to_waku_message}
use nwaku.Libwaku.State.{shared_message, Lib, text_or_error}
use nwaku.Libwaku.Api.{send, publish_built, publish_content, waku_relay_publish}
use nwaku.Libwaku.Json.{from_json_node, JsonField}
use nwaku.Libwaku.Requests.{published}
use nwaku.Libwaku.Calls.{set_user_data_lem, send_lem}

abbrev pub told : List ℕ → Reply
told text = record {
  ret = ret_ok;
  events = record { caller_ret = ret_ok; msg = text; len = length text } ∷ [];
}

module _ {N : Type 0} (node : WakuNode N) (codecs : Codecs) (topic json : List ℕ) where
  -- The relay hands a message to some peer, and its hash is this text.
  pub record IsRelayed (w : Option N) (msg : WakuMessage) (hash : List ℕ) : Type 0 where
    pub node_before : N
    pub there : w ≡ some node_before
    pub relay : node.has_relay node_before ≡ true
    pub node_behind : N
    pub more_peers : ℕ
    pub relayed : node.relay_publish topic msg node_before ≡ (node_behind, suc more_peers)
    pub hash_is : node.message_hash topic msg ≡ hash

  -- The text has a message, which the relay hands to some peer, less its proof.
  pub record IsPublished (w : Option N) (char : ℕ) (text : List ℕ) : Type 0 where
    pub fields : List ℕ → Option JsonField
    pub is_json : codecs.parse_json json ≡ parsed fields
    pub message : JsonMessage
    pub is_complete : from_json_node fields ≡ some message
    pub msg : WakuMessage
    pub is_built : to_waku_message codecs message ≡ ok msg
    pub is_relayed : IsRelayed w (shared_message msg) (char ∷ text)

  published-IsRelayed :
      (n : N) (msg : WakuMessage) {v : Option N} {hash : List ℕ}
      → node.has_relay n ≡ true
      → (k : N) (peers : ℕ) → node.relay_publish topic msg n ≡ (k, peers)
      → published (node.message_hash topic msg) (k, peers) ≡ some (v, ok hash)
      → IsRelayed (some n) msg hash
  published-IsRelayed n msg relay k zero sent e = cc
  published-IsRelayed n msg relay k (suc peers) sent e = record {
    node_before = n;
    there = refl;
    relay = relay;
    node_behind = k;
    more_peers = peers;
    relayed = sent;
    hash_is = cc;
  }

  process-publish :
      (w : Option N) (msg : WakuMessage) {v : Option N} {hash : List ℕ}
      → process node (publish topic msg) w ≡ some (v, ok hash)
      → IsRelayed w msg hash
  unfolding process
  process-publish none msg e = cc
  process-publish (some n) msg e = elim (Bool-cases (node.has_relay n)) [
    | inl relay ↦ published-IsRelayed n msg relay _ _ refl (rw relay at e)
    | inr no_relay ↦ cc (rw no_relay at e)
  ]

  IsRelayed-process :
      (w : Option N) (msg : WakuMessage) (hash : List ℕ)
      → IsRelayed w msg hash
      → (v : Option N) × (process node (publish topic msg) w ≡ some (v, ok hash))
  unfolding process
  IsRelayed-process w msg hash r =
      let there = r.there in
      let relay = r.relay in
      let relayed = r.relayed in
      let hash_is = r.hash_is in
      (some r.node_behind, rw there (rw relay (rw relayed (rw hash_is refl))))

  -- A success is reported of a message that is published.
  abbrev Reported : Option N → Reply → Lib N → Type 0
  Reported w reply t =
      reply.ret ≡ ret_ok
      → (char : ℕ) × (text : List ℕ) × IsPublished w char text × (reply ≡ told (char ∷ text))

  module _ (w : Option N) (fields : List ℕ → Option JsonField)
      (is_json : codecs.parse_json json ≡ parsed fields) (m : JsonMessage)
      (is_complete : from_json_node fields ≡ some m) where
    answered-Reported :
        (msg : WakuMessage) (is_built : to_waku_message codecs m ≡ ok msg) (v : Option N)
        (a : Answer (List ℕ))
        → process node (publish topic (shared_message msg)) w ≡ some (v, a)
        → (t : Lib N) → Ensures (Reported w) (text_or_error true a t)
    answered-Reported msg built v (ok []) e t = tt
    answered-Reported msg built v (ok (char ∷ text)) e t = λ success. (
      char,
      text,
      record {
        fields = fields;
        is_json = is_json;
        message = m;
        is_complete = is_complete;
        msg = msg;
        is_built = built;
        is_relayed = process-publish w (shared_message msg) e;
      },
      refl,
    )
    answered-Reported msg built v (err x) e t = λ success. absurd (omega (arith, success))

    built-Reported :
        (x : Answer WakuMessage)
        → to_waku_message codecs m ≡ x
        → (t : Lib N) → t.waku ≡ w
        → Ensures (Reported w) (publish_built node codecs topic x t)
    built-Reported (err e) is_built t same = λ success. absurd (omega (arith, success))
    built-Reported (ok msg) is_built t same =
        send_lem node codecs (Reported w) (publish topic (shared_message msg)) _ _ λ v a e.
          answered-Reported msg is_built v a
            (ap (process node (publish topic (shared_message msg))) (sym same) ∙ e) _

  content-Reported :
      (content : JsonContent)
      → codecs.parse_json json ≡ content
      → (s : Lib N)
      → Ensures
          (Reported s.waku)
          (publish_content node codecs topic content (record s { blocks = s.blocks + 1 }))
  content-Reported (malformed e) is_json s = tt
  content-Reported (parsed fields) is_json s = elim (Option-cases (from_json_node fields)) [
    | inl lacking ↦ rw lacking tt
    | inr (m, complete) ↦
        rw complete
          (built-Reported s.waku fields is_json m complete (to_waku_message codecs m) refl _ refl)
  ]

  publish-Reported :
      (c : Context) (callback : Bool) (u : Option ℕ) (s : Lib N)
      → Ensures (Reported s.waku) (waku_relay_publish node codecs c topic json callback u s)
  unfolding waku_relay_publish
  publish-Reported c true u s =
      set_user_data_lem (Reported s.waku) c u _ s
        (content-Reported (codecs.parse_json json) refl (record s { user_data = u }))
  publish-Reported c false u s =
      set_user_data_lem (Reported s.waku) c u _ s (λ success. absurd (omega (arith, success)))

  IsPublished-Returns :
      (u : Option ℕ) (s : Lib N) (char : ℕ) (text : List ℕ)
      → s.created ≡ true
      → IsPublished s.waku char text
      → Returns
          (λ reply t. reply ≡ told (char ∷ text))
          (waku_relay_publish node codecs ctx topic json true u s)
  unfolding waku_relay_publish send
  IsPublished-Returns u s char text created p =
      let is_json = p.is_json in
      let is_complete = p.is_complete in
      let is_built = p.is_built in
      let (v, answered) =
        IsRelayed-process s.waku (shared_message p.msg) (char ∷ text) p.is_relayed in
      rw created (rw is_json (rw is_complete (rw is_built (rw answered refl))))

  -- Wherever `waku_relay_publish` returns success, the text in JSON has the two keys that it must have,
  -- and its texts in base 64 can be decoded; the node is there with its relay, which hands the message,
  -- less its proof, to some peer for the topic as it is given, also if that is empty; and the callback was told the
  -- message's hash, once. Conversely, where all this is so and the hash is not empty, through a context
  -- that is there and with a callback, it returns so.
  pub waku_relay_publish_iff :
      (c : Context) (callback : Bool) (u : Option ℕ) (s : Lib N)
      → Ensures
          (λ reply t.
            reply.ret ≡ ret_ok
            → (char : ℕ) × (text : List ℕ) × IsPublished s.waku char text
              × (reply ≡ told (char ∷ text)))
          (waku_relay_publish node codecs c topic json callback u s)
        × ((char : ℕ) (text : List ℕ)
            → s.created ≡ true
            → IsPublished s.waku char text
            → Returns
                (λ reply t. reply ≡ told (char ∷ text))
                (waku_relay_publish node codecs ctx topic json true u s))
  waku_relay_publish_iff c callback u s = (publish-Reported c callback u s, IsPublished-Returns u s)
