-- ===== src/Filter/Withdrawal.antt =====
-- waku/waku_filter_v2: which peers a message is pushed to after clients have withdrawn.
use nwaku.Base.{
  ◌%◌, ◌^◌, ℕ, ◌+◌, ◌-◌, ◌≤◌, ◌≡◌, refl, sym, ap, subst, arith, Bool, true, false, not, ◌==◌, ◌&&◌,
  ltb, leb, if◌then◌else◌, Option, none, some, List, [], ◌∷◌, length, has, ==_iff, Bool-cases,
  Option-cases, inl, inr, ◌∙◌,
}
use mathlib.Core.Option.{some-injective}
use nwaku.Filter.Tables.{
  PeerId, PubsubTopic, ContentTopic, FilterCriterion, PeerData, find_peer, set_peer, del_peer,
  keep_peers, find_criterion, exclude,
}
use nwaku.Filter.Subscriptions.{
  FilterSubscriptions, Outcome, ok, err, peers_of, is_subscribed, is_fresh, fresh?, clean_up,
  remove_peer, find_subscribed_peers, remove_found, remove_criterion, remove_criteria, remove_from,
  remove_subscription,
}
use nwaku.Filter.Protocol.{
  SubscribeResult, accepted, Readings, criteria, removed, unsubscribe_peer, unsubscribe_all_of,
}
use nwaku.Filter.Counts.{
  has-keep_set, subscribed_to, find_peer-set_peer, find_peer-del_peer, sub_count,
}
use nwaku.Filter.Criteria.{
  UniqueCriteria, subscribed_to-same, subscribed_to-exclude, exclude-UniqueCriteria,
  subscribed_to-keep_subscribers, subscribed_to→count,
}
use nwaku.Filter.Valid.Tables.{find_peer-keep_peers, del_peer-Unique}
use nwaku.Filter.Valid.Invariant.{IsValid, Sound, Limits}
use nwaku.Filter.Valid.Remove.{remove_subscription_total}
use nwaku.Filter.Delivery.{among, among-criteria}

unsubscribe_all_of-cleans :
    (s : FilterSubscriptions) (p : PeerId) (t : Readings) (s' : FilterSubscriptions)
    → unsubscribe_all_of s p t ≡ (s', accepted)
    → clean_up (remove_peer s p) t.second t.third ≡ s'
unfolding unsubscribe_all_of
unsubscribe_all_of-cleans s p t s' e = ground arith

-- After an accepted request to unsubscribe from everything, a message is pushed to the client in no
-- topic, and to any other peer as before.
pub unsubscribe_all_of_delivers :
    (s : FilterSubscriptions) (p : PeerId) (t : Readings) (s' : FilterSubscriptions)
    → IsValid s
    → unsubscribe_all_of s p t ≡ (s', accepted)
    → (q : PeerId) (x : PubsubTopic) (y : ContentTopic) (now : ℕ) → t.second ≤ now
    → t.third ≤ now
    → has q (find_subscribed_peers s' x y now)
      ≡ (if p == q then false else has q (find_subscribed_peers s x y now))
unfolding find_subscribed_peers
unsubscribe_all_of_delivers s p t s' v e q x y now after_second after_third =
    subst
      (λ s'.
        has q (find_subscribed_peers s' x y now)
        ≡ (if p == q then false else has q (find_subscribed_peers s x y now)))
      (unsubscribe_all_of-cleans s p t s' e)
      (rw (has-keep_set) (
        unfold clean_up remove_peer is_subscribed in
        let keep = λ (p : PeerId) (d : PeerData). is_fresh s.subscription_timeout t.second d in
        let left = del_peer p s.peers_subscribed in
        ground (
          arith,
          subscribed_to-keep_subscribers
              (λ r. fresh? s.subscription_timeout t.third (find_peer r (keep_peers keep left)))
              s.subscriptions (x, y) q v.one_set,
          find_peer-keep_peers keep left q (del_peer-Unique p s.peers_subscribed v.unique),
          find_peer-del_peer p s.peers_subscribed q,
          has-keep_set (λ p. is_subscribed s p now)
              (peers_of (find_criterion (x, y) s.subscriptions)) q,
        )))

abbrev SeenAt : ℕ → Option PeerData → Type 0
SeenAt now none = Unit
SeenAt now (some d) = d.last_seen ≡ now

-- What the loop of `removeSubscription` does for the criteria `cs`.
record Removes (p : PeerId) (cs : List FilterCriterion) (now : ℕ) (s s' : FilterSubscriptions)
    : Type 0 where
  sets :
      (e : FilterCriterion) (q : PeerId)
      → subscribed_to e q s'.subscriptions
        ≡ (not ((p == q) && among e cs) && subscribed_to e q s.subscriptions)
  others :
      (q : PeerId)
      → (p == q) ≡ false
      → find_peer q s'.peers_subscribed ≡ find_peer q s.peers_subscribed
  own : SeenAt now (find_peer p s'.peers_subscribed)
  timeout : s'.subscription_timeout ≡ s.subscription_timeout
  one_set : UniqueCriteria s'.subscriptions

found-Removes :
    (p : PeerId) (c : FilterCriterion) (now : ℕ) (s : FilterSubscriptions) (d : PeerData)
    (last : Bool)
    → UniqueCriteria s.subscriptions
    → d.last_seen ≡ now
    → Removes p (c ∷ []) now s (record s {
      peers_subscribed =
          if last then del_peer p s.peers_subscribed else set_peer p d s.peers_subscribed;
      subscriptions = exclude c p s.subscriptions;
    })
found-Removes p c now s d last u seen = record {
  sets = λ e q. ground (arith, subscribed_to-exclude c p s.subscriptions e q u);
  others = λ q h. ground (
    arith,
    find_peer-set_peer p d s.peers_subscribed q,
    find_peer-del_peer p s.peers_subscribed q,
  );
  own =
      elim last
        as (λ last. SeenAt now (
          find_peer p
            (if last then del_peer p s.peers_subscribed else set_peer p d s.peers_subscribed))) [
              | true ↦ rw (find_peer-del_peer p s.peers_subscribed p, (==_iff p p).1 refl) tt
              | false ↦ rw (find_peer-set_peer p d s.peers_subscribed p, (==_iff p p).1 refl) seen
            ];
  timeout = refl;
  one_set = exclude-UniqueCriteria c p s.subscriptions u;
}

remove_criterion-Removes :
    (p : PeerId) (c : FilterCriterion) (now : ℕ) (s s' : FilterSubscriptions)
    → remove_criterion s p c (peers_of (find_criterion c s.subscriptions)) ≡ some s'
    → UniqueCriteria s.subscriptions
    → SeenAt now (find_peer p s.peers_subscribed)
    → Removes p (c ∷ []) now s s'
unfolding remove_criterion
remove_criterion-Removes p c now s s' e u seen =
    elim (Bool-cases (has p (peers_of (find_criterion c s.subscriptions)))) [
      | inl subscribed ↦ elim (Option-cases (find_peer p s.peers_subscribed)) [
        | inl missing ↦ cc (rw (subscribed, missing) at e)
        | inr (d, known) ↦
            subst (Removes p (c ∷ []) now s)
              (some-injective _ _ (rw (subscribed, known, remove_found) at e))
              (found-Removes p c now s
                (record d { criteria_count = (d.criteria_count + 2 ^ 64 - 1) % 2 ^ 64 }) _ u
                (rw known at seen))
      ]
      | inr other ↦ subst (Removes p (c ∷ []) now s) (some-injective _ _ (rw other at e)) (record {
        sets = λ e q. ground (arith, subscribed_to-same c e p q s.subscriptions);
        others = λ q h. refl;
        own = seen;
        timeout = refl;
        one_set = u;
      })
    ]

remove_criteria-Removes :
    (p : PeerId) (cs : List FilterCriterion) (now : ℕ) (s s' : FilterSubscriptions)
    → remove_criteria p cs s ≡ some (s', ok)
    → UniqueCriteria s.subscriptions
    → SeenAt now (find_peer p s.peers_subscribed)
    → Removes p cs now s s'
unfolding remove_criteria
remove_criteria-Removes p [] now s s' e u seen =
    subst (Removes p [] now s)
      (ap (λ (x : FilterSubscriptions × Outcome). x.0) (some-injective _ _ e))
      (record {
        sets = λ e q. ground arith;
        others = λ q h. refl;
        own = seen;
        timeout = refl;
        one_set = u;
      })
remove_criteria-Removes p (c ∷ cs) now s s' e u seen =
    elim (Option-cases (find_criterion c s.subscriptions)) [
      | inl missing ↦ cc (rw (missing, remove_criteria) at e)
      | inr (peers, found) ↦ elim (Option-cases (remove_criterion s p c peers)) [
        | inl dangling ↦ cc (rw (found, dangling, remove_criteria) at e)
        | inr (s₁, removed) ↦
            let one = remove_criterion-Removes p c now s s₁ (rw found removed) u seen in
            let more =
              remove_criteria-Removes p cs now s₁ s' (rw (found, removed, remove_criteria) at e)
                one.one_set one.own in
            record {
              sets = λ e q. ground (arith, one.sets e q, more.sets e q);
              others = λ q h. more.others q h ∙ one.others q h;
              own = more.own;
              timeout = more.timeout ∙ one.timeout;
              one_set = more.one_set;
            }
      ]
    ]

removed-accepted :
    (o : Option (FilterSubscriptions × Outcome)) (s' : FilterSubscriptions)
    → removed o ≡ some (s', accepted)
    → o ≡ some (s', ok)
removed-accepted none s' e = cc
removed-accepted (some (s, ok)) s' e =
    ap (λ (x : FilterSubscriptions × SubscribeResult). some (x.0, ok)) (some-injective _ _ e)
removed-accepted (some (s, err c)) s' e = cc

unsubscribe_peer-removes :
    (s : FilterSubscriptions) (p : PeerId) (pubsub : PubsubTopic) (topics : List ContentTopic)
    (t : Readings) (s' : FilterSubscriptions)
    → unsubscribe_peer s p (some pubsub) topics t ≡ some (s', accepted)
    → remove_subscription s p (criteria pubsub [] topics) t.first ≡ some (s', ok)
unfolding unsubscribe_peer
unsubscribe_peer-removes s p pubsub topics t s' e = elim (Bool-cases (length topics == 0)) [
  | inl empty ↦ cc (rw empty at e)
  | inr given ↦ elim (Bool-cases (ltb 100 (length topics))) [
    | inl long ↦ cc (rw (given, long) at e)
    | inr short ↦
        removed-accepted (remove_subscription s p (criteria pubsub [] topics) t.first) s'
          (rw (given, short) at e)
  ]
]

remove_subscription-Removes :
    (s : FilterSubscriptions) (p : PeerId) (cs : List FilterCriterion) (now : ℕ)
    (s' : FilterSubscriptions)
    → UniqueCriteria s.subscriptions
    → remove_subscription s p cs now ≡ some (s', ok)
    → Removes p cs now s s'
unfolding remove_subscription remove_from
remove_subscription-Removes s p cs now s' u e =
    elim (Option-cases (find_peer p s.peers_subscribed)) [
      | inl missing ↦ cc (rw missing at e)
      | inr (d, known) ↦
          let d' = record d { last_seen = now } in
          let found : find_peer p (set_peer p d' s.peers_subscribed) ≡ some d' =
            rw (find_peer-set_peer p d' s.peers_subscribed p, (==_iff p p).1 refl) in
          let loop =
            remove_criteria-Removes p cs now
              (record s { peers_subscribed = set_peer p d' s.peers_subscribed }) s' (rw known at e)
              u (rw found refl) in
          record {
            sets = loop.sets;
            others = λ q h.
                loop.others q h ∙ ground (arith, find_peer-set_peer p d' s.peers_subscribed q);
            own = loop.own;
            timeout = loop.timeout;
            one_set = loop.one_set;
          }
    ]

-- Whether the client itself is found.
own_delivers :
    (s s' : FilterSubscriptions) (p : PeerId) (cs : List FilterCriterion) (first : ℕ)
    → Removes p cs first s s'
    → IsValid s'
    → (e : FilterCriterion) (now : ℕ)
    → (is_subscribed s' p now && subscribed_to e p s'.subscriptions) ≡ (
        leb (now - first) s.subscription_timeout
        && (not (among e cs) && subscribed_to e p s.subscriptions))
unfolding is_subscribed
own_delivers s s' p cs first loop v' e now =
    let in_set : subscribed_to e p s'.subscriptions
        ≡ (not (among e cs) && subscribed_to e p s.subscriptions) =
      ground (arith, loop.sets e p, ==_iff p p) in
    elim (Option-cases (find_peer p s'.peers_subscribed)) [
      | inl missing ↦
          let none_left : sub_count p s'.subscriptions ≡ 0 = rw missing at (sym (v'.counted p)) in
          let out : subscribed_to e p s'.subscriptions ≡ false =
            ground (arith, subscribed_to→count e p s'.subscriptions) in
          rw (missing, ← in_set, out) (ground arith)
      | inr (d, known) ↦
          let seen : d.last_seen ≡ first = rw known at loop.own in
          rw (known, in_set) (unfold is_fresh in ground (arith, seen, loop.timeout))
    ]

-- After an accepted request to unsubscribe from topics, a message is pushed to the client in those
-- of its topics that the request does not name, for a further timeout from the request on, and to
-- any other peer as before.
pub unsubscribe_peer_delivers :
    {limits : Limits} (s : FilterSubscriptions) (p : PeerId) (pubsub : PubsubTopic)
    (topics : List ContentTopic) (t : Readings) (s' : FilterSubscriptions)
    → Sound limits s
    → unsubscribe_peer s p (some pubsub) topics t ≡ some (s', accepted)
    → (q : PeerId) (x : PubsubTopic) (y : ContentTopic) (now : ℕ)
    → has q (find_subscribed_peers s' x y now) ≡ (
        if p == q
        then leb (now - t.first) s.subscription_timeout
          && (not ((pubsub == x) && has y topics) && subscribed_to (x, y) p s.subscriptions)
        else has q (find_subscribed_peers s x y now))
unfolding find_subscribed_peers is_subscribed
unsubscribe_peer_delivers s p pubsub topics t s' sound e q x y now =
    let cs = criteria pubsub [] topics in
    let removes = unsubscribe_peer-removes s p pubsub topics t s' e in
    let loop = remove_subscription-Removes s p cs t.first s' sound.0.one_set removes in
    let (s₁, o, is, sound₁) = remove_subscription_total p cs t.first s sound in
    let v' : IsValid s' =
      subst IsValid
        (ap (λ (x : FilterSubscriptions × Outcome). x.0) (some-injective _ _ (sym is ∙ removes)))
        sound₁.0 in
    let named = among-criteria pubsub [] topics x y in
    let found =
      has-keep_set (λ r. is_subscribed s' r now) (peers_of (find_criterion (x, y) s'.subscriptions))
        q in
    elim (Bool-cases (p == q)) [
      | inl here ↦
          found
          ∙ unfold has in
            ground (
              arith,
              own_delivers s s' p cs t.first loop v' (x, y) now,
              ap (λ r. is_subscribed s' r now && subscribed_to (x, y) r s'.subscriptions)
                  ((==_iff p q).0 here),
              named,
            )
      | inr elsewhere ↦
          found
          ∙ ground (
            arith,
            loop.others q elsewhere,
            loop.sets (x, y) q,
            loop.timeout,
            has-keep_set (λ r. is_subscribed s r now)
                (peers_of (find_criterion (x, y) s.subscriptions)) q,
          )
    ]
