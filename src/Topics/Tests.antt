-- ===== src/Topics/Tests.antt =====
-- Concrete topics, and the theorems at concrete inputs.
use nwaku.Base.{
  ℕ, ◌^◌, ◌<◌, ◌≡◌, ◌↔◌, ◌⊎◌, refl, arith, ltb, if◌then◌else◌, Option, none, some, List, [], ◌∷◌,
  codes,
}
use nwaku.Base.Decimal.{print}
use nwaku.Base.Int.{pos}
use nwaku.Topics.Text.{
  ok, defect, starts_with, split, magnitude, magnitude-print, parse_int, print_int,
}
use nwaku.Topics.Content.{
  NsContentTopic, IsTopic, print_content, parse_content, parse_content-print_content, Spells,
  parse_content-Spells,
}
use nwaku.Topics.Pubsub.{
  NsPubsubTopic, static_sharding, Decoded, decoded, refused, Base10, print_pubsub, parse_pubsub,
  parse_pubsub-print_pubsub, parse_pubsub_defect, waku2_prefix, static_prefix,
}
use nwaku.Topics.Autosharding.{Sharding, Digest, done, get_shard}
use nwaku.Topics.Grouping.{
  TopicMap, parse_sharding, topics_at, add_topic, eq_pubsub, belonging_to, pubsub_for, IsPlaced,
  topics_at-parse_sharding,
}

abbrev decode_number : Option ℕ → Decoded
decode_number none = refused []
decode_number (some n) = if ltb n (2 ^ 16) then decoded n else refused []

decode-print_lem : (n : ℕ) → n < 2 ^ 16 → decode_number (magnitude (print n)) ≡ decoded n
decode-print_lem n h = simp (magnitude-print n) (ground arith)

abbrev base10 : Base10
base10 = record { decode = λ s. decode_number (magnitude s); decode-print = decode-print_lem }

abbrev digest : Digest
digest = record { sha256 = λ s. []; from_bytes_be = λ s. 7 }

abbrev sharding : Sharding
sharding = record { cluster_id = 1; shard_count_gen_zero = 8 }

abbrev topic : NsContentTopic
topic = record {
  generation = some (pos 0);
  application = codes "toychat";
  version = codes "2";
  name = codes "huilong";
  encoding = codes "proto";
}

abbrev text : List ℕ
text = codes "/0/toychat/2/huilong/proto"

topic_printed : print_content topic ≡ text
unfolding print_content print_int print
topic_printed = refl

text_parsed : parse_content text ≡ ok topic
unfolding parse_content starts_with split parse_int
text_parsed = refl

topic-IsTopic : IsTopic topic
topic-IsTopic = record {
  generation = omega arith;
  application = record { given = refl; plain = ground arith };
  version = record { given = refl; plain = ground arith };
  name = record { given = refl; plain = ground arith };
  encoding = record { given = refl; plain = ground arith };
}

parse_content-print_content_example : parse_content (print_content topic) ≡ ok topic
parse_content-print_content_example = parse_content-print_content topic topic-IsTopic

parse_content-Spells_example : Spells text topic (some (pos 0))
parse_content-Spells_example = parse_content-Spells text topic text_parsed

parse_pubsub-print_pubsub_example :
    parse_pubsub base10 (print_pubsub (static_sharding 1 5)) ≡ ok (static_sharding 1 5)
parse_pubsub-print_pubsub_example =
    parse_pubsub-print_pubsub base10 (static_sharding 1 5) (omega arith, omega arith)

parse_pubsub_defect_example :
    (parse_pubsub base10 waku2_prefix ≡ defect)
    ↔ ((waku2_prefix ≡ waku2_prefix) ⊎ (waku2_prefix ≡ static_prefix))
parse_pubsub_defect_example = parse_pubsub_defect base10 waku2_prefix

abbrev grouped : TopicMap
grouped = (static_sharding 1 7, topic ∷ topic ∷ []) ∷ []

grouped_lem : parse_sharding base10 digest sharding none (text ∷ text ∷ []) ≡ done grouped
unfolding parse_sharding parse_content starts_with split parse_int get_shard add_topic eq_pubsub
grouped_lem = refl

text-IsPlaced : IsPlaced base10 digest sharding none text
unfolding parse_content starts_with split parse_int get_shard pubsub_for
text-IsPlaced = record {
  topic = topic;
  parses = refl;
  place = static_sharding 1 7;
  has_place = refl;
}

topics_at-parse_sharding_example :
    (m : TopicMap) × (parse_sharding base10 digest sharding none (text ∷ text ∷ []) ≡ done m)
    × ((p : NsPubsubTopic)
        → topics_at p m ≡ belonging_to base10 digest sharding none p (text ∷ text ∷ []))
topics_at-parse_sharding_example =
    topics_at-parse_sharding base10 digest sharding none (text ∷ text ∷ [])
      (text-IsPlaced, (text-IsPlaced, tt))
