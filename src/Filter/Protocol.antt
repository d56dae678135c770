-- ===== src/Filter/Protocol.antt =====
-- waku/waku_filter_v2/protocol.nim, common.nim and rpc.nim: what a service node does at a request of
-- a client, and at its periodic maintenance. The set of criteria of a request is walked in the order
-- of the request. Pushing messages to peers, logging and metrics are left out.
use nwaku.Base.{
  ℕ, Bool, not, ltb, ◌==◌, if◌then◌else◌, Option, none, some, List, [], ◌∷◌, ◌++◌, length, has,
  codes,
}
use nwaku.Base.Decimal.{print}
use nwaku.Filter.Tables.{PeerId, PubsubTopic, ContentTopic, FilterCriterion, Peers}
use nwaku.Filter.Subscriptions.{
  FilterSubscriptions, Outcome, ok, err, is_subscribed, refresh_subscription, add_subscription,
  remove_subscription, remove_peer, remove_peers, clean_up,
}

pub data FilterSubscribeError : Type 0 where
  unknown : FilterSubscribeError
  bad_response bad_request not_found service_unavailable : List ℕ → FilterSubscribeError
  peer_dial_failure : List ℕ → FilterSubscribeError

unfoldable pub error_kind : FilterSubscribeError → ℕ
error_kind unknown = 0
error_kind (bad_response c) = 300
error_kind (bad_request c) = 400
error_kind (not_found c) = 404
error_kind (service_unavailable c) = 503
error_kind (peer_dial_failure a) = 504

unfoldable pub error_text : FilterSubscribeError → List ℕ
error_text unknown = codes "UNKNOWN"
error_text (bad_response c) = codes "BAD_RESPONSE: " ++ c
error_text (bad_request c) = codes "BAD_REQUEST: " ++ c
error_text (not_found c) = codes "NOT_FOUND: " ++ c
error_text (service_unavailable c) = codes "SERVICE_UNAVAILABLE: " ++ c
error_text (peer_dial_failure a) = codes "PEER_DIAL_FAILURE: " ++ a

pub data FilterSubscribeType : Type 0 where
  subscriber_ping subscribe unsubscribe unsubscribe_all : FilterSubscribeType

pub record FilterSubscribeRequest : Type 0 where
  pub request_id : List ℕ
  pub filter_subscribe_type : FilterSubscribeType
  pub pubsub_topic : Option PubsubTopic
  pub content_topics : List ContentTopic

pub record FilterSubscribeResponse : Type 0 where
  pub request_id : List ℕ
  pub status_code : ℕ
  pub status_desc : Option (List ℕ)

-- `FilterSubscribeResult`
pub data SubscribeResult : Type 0 where
  accepted : SubscribeResult
  rejected : FilterSubscribeError → SubscribeResult

-- The readings of the clock during one call, in their order.
pub record Readings : Type 0 where
  pub first : ℕ
  pub second : ℕ
  pub third : ℕ

abbrev pub max_content_topics_per_request : ℕ
max_content_topics_per_request = 100

abbrev pub no_subscriptions : FilterSubscribeError
no_subscriptions = not_found (codes "peer has no subscriptions")

-- `toHashSet` of the pairs of the pub-sub topic with each content topic.
unfoldable pub criteria : PubsubTopic → List ContentTopic → List ContentTopic → List FilterCriterion
criteria pubsub seen [] = []
criteria pubsub seen (t ∷ ts) =
    let rest = criteria pubsub (t ∷ seen) ts in if has t seen then rest else (pubsub, t) ∷ rest

unfoldable pub ping_subscriber :
    FilterSubscriptions → PeerId → Readings → FilterSubscriptions × SubscribeResult
ping_subscriber s p t =
    if not (is_subscribed s p t.first)
    then (s, rejected no_subscriptions)
    else (refresh_subscription s p t.second, accepted)

-- The checks that `subscribe` and `unsubscribe` begin with; then `run` has the criteria.
abbrev pub checked {ℓ} :
    {A : Type ℓ}
    → (FilterSubscribeError → A)
    → (List FilterCriterion → A)
    → Option PubsubTopic
    → List ContentTopic
    → A
checked reject run none topics =
    reject (bad_request (codes "pubsubTopic and contentTopics must be specified"))
checked reject run (some pubsub) topics =
    if length topics == 0
    then reject (bad_request (codes "pubsubTopic and contentTopics must be specified"))
    else (if ltb max_content_topics_per_request (length topics)
        then reject (
            bad_request
              (codes "exceeds maximum content topics: " ++ print max_content_topics_per_request))
        else run (criteria pubsub [] topics))

abbrev pub added : FilterSubscriptions × Outcome → FilterSubscriptions × SubscribeResult
added (s, ok) = (s, accepted)
added (s, err cause) = (s, rejected (service_unavailable cause))

unfoldable pub subscribe_peer :
    FilterSubscriptions
    → PeerId
    → Option PubsubTopic
    → List ContentTopic
    → Readings
    → FilterSubscriptions × SubscribeResult
unfolding criteria
subscribe_peer s p pubsub topics t =
    checked (λ e. (s, rejected e)) (λ cs. added (add_subscription s p cs t.first)) pubsub topics

abbrev pub removed :
    Option (FilterSubscriptions × Outcome) → Option (FilterSubscriptions × SubscribeResult)
removed none = none
removed (some (s, ok)) = some (s, accepted)
removed (some (s, err cause)) = some (s, rejected no_subscriptions)

unfoldable pub unsubscribe_peer :
    FilterSubscriptions
    → PeerId
    → Option PubsubTopic
    → List ContentTopic
    → Readings
    → Option (FilterSubscriptions × SubscribeResult)
unfolding criteria
unsubscribe_peer s p pubsub topics t =
    checked (λ e. some (s, rejected e)) (λ cs. removed (remove_subscription s p cs t.first)) pubsub
      topics

unfoldable pub unsubscribe_all_of :
    FilterSubscriptions → PeerId → Readings → FilterSubscriptions × SubscribeResult
unsubscribe_all_of s p t =
    if not (is_subscribed s p t.first)
    then (s, rejected no_subscriptions)
    else (clean_up (remove_peer s p) t.second t.third, accepted)

unfoldable pub handle_type :
    FilterSubscriptions
    → PeerId
    → FilterSubscribeRequest
    → Readings
    → FilterSubscribeType
    → Option (FilterSubscriptions × SubscribeResult)
unfolding ping_subscriber subscribe_peer unsubscribe_peer unsubscribe_all_of
handle_type s p r t subscriber_ping = some (ping_subscriber s p t)
handle_type s p r t subscribe = some (subscribe_peer s p r.pubsub_topic r.content_topics t)
handle_type s p r t unsubscribe = unsubscribe_peer s p r.pubsub_topic r.content_topics t
handle_type s p r t unsubscribe_all = some (unsubscribe_all_of s p t)

unfoldable pub response : List ℕ → SubscribeResult → FilterSubscribeResponse
unfolding error_kind error_text
response id accepted = record {
  request_id = id;
  status_code = 200;
  status_desc = some (codes "OK");
}
response id (rejected e) = record {
  request_id = id;
  status_code = error_kind e;
  status_desc = some (error_text e);
}

abbrev pub respond :
    List ℕ
    → Option (FilterSubscriptions × SubscribeResult)
    → Option (FilterSubscriptions × FilterSubscribeResponse)
respond id none = none
respond id (some (s, result)) = some (s, response id result)

unfoldable pub handle_subscribe_request :
    FilterSubscriptions
    → PeerId
    → FilterSubscribeRequest
    → Readings
    → Option (FilterSubscriptions × FilterSubscribeResponse)
unfolding handle_type response
handle_subscribe_request s p r t =
    respond r.request_id (handle_type s p r t r.filter_subscribe_type)

-- The peers that the peer store no longer has.
unfoldable pub peers_lost : (PeerId → Bool) → Peers → List PeerId
peers_lost in_store [] = []
peers_lost in_store ((p, d) ∷ r) =
    let rest = peers_lost in_store r in if in_store p then rest else p ∷ rest

unfoldable pub maintain_subscriptions :
    FilterSubscriptions → (PeerId → Bool) → Readings → FilterSubscriptions
unfolding peers_lost
maintain_subscriptions s in_store t =
    let lost = peers_lost in_store s.peers_subscribed in
    let s' = if ltb 0 (length lost) then remove_peers s lost else s in clean_up s' t.first t.second
