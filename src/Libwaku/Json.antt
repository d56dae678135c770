-- ===== src/Libwaku/Json.antt =====
-- library/events/json_message_event.nim: a message as the text in JSON that a program passes. The
-- libraries for JSON and base 64 are parameters.
use nwaku.Base.{ℕ, ◌%◌, ◌^◌, Bool, false, Option, none, some, List, [], ◌++◌, codes}
use nwaku.Message.{WakuMessage}
use nwaku.Libwaku.Requests.{Answer, ok, err}

-- What `getStr`, `getInt` and `getBool` make of a value.
pub record JsonField : Type 0 where
  pub str : List ℕ
  pub int : ℕ
  pub bool : Bool

-- A text that cannot be parsed, with the error, or the value of each key.
pub data JsonContent : Type 0 where
  malformed : List ℕ → JsonContent
  parsed : (List ℕ → Option JsonField) → JsonContent

pub record JsonMessage : Type 0 where
  pub payload : List ℕ
  pub content_topic : List ℕ
  pub version : ℕ
  pub timestamp : ℕ
  pub ephemeral : Bool
  pub meta : List ℕ
  pub proof : List ℕ

-- The libraries for JSON and base 64, and what is reported of a message.
pub record Codecs : Type 0 where
  pub parse_json : List ℕ → JsonContent
  pub decode : List ℕ → Answer (List ℕ)
  pub message_event : List ℕ → WakuMessage → List ℕ
  pub version_string : List ℕ

abbrev pub field_str : Option JsonField → List ℕ
field_str none = []
field_str (some f) = f.str

abbrev pub field_int : Option JsonField → ℕ
field_int none = 0
field_int (some f) = f.int

abbrev pub field_bool : Option JsonField → Bool
field_bool none = false
field_bool (some f) = f.bool

-- The two keys that have to be there; without one of them an exception is raised.
abbrev pub with_required :
    (List ℕ → Option JsonField) → Option JsonField → Option JsonField → Option JsonMessage
with_required fields none topic = none
with_required fields (some payload) none = none
with_required fields (some payload) (some topic) = some (record {
  payload = payload.str;
  content_topic = topic.str;
  version = field_int (fields (codes "version")) % 2 ^ 32;
  timestamp = field_int (fields (codes "timestamp"));
  ephemeral = field_bool (fields (codes "ephemeral"));
  meta = field_str (fields (codes "meta"));
  proof = field_str (fields (codes "proof"));
})

abbrev pub from_json_node : (List ℕ → Option JsonField) → Option JsonMessage
from_json_node fields =
    with_required fields (fields (codes "payload")) (fields (codes "contentTopic"))

abbrev unless_error : {A B : Type 0} → Answer A → List ℕ → (A → Answer B) → Answer B
unless_error (ok a) text f = f a
unless_error (err e) text f = err (text ++ e)

unfoldable pub to_waku_message : Codecs → JsonMessage → Answer WakuMessage
to_waku_message codecs m =
    unless_error (codecs.decode m.payload) (codes "invalid payload format: ") λ payload.
      unless_error (codecs.decode m.meta) (codes "invalid meta format: ") λ meta.
        unless_error (codecs.decode m.proof) (codes "invalid proof format: ") λ proof. ok (record {
          payload = payload;
          content_topic = m.content_topic;
          meta = meta;
          version = m.version;
          timestamp = m.timestamp;
          ephemeral = m.ephemeral;
          proof = proof;
        })
