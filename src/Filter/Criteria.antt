-- ===== src/Filter/Criteria.antt =====
-- waku/waku_filter_v2/subscriptions.nim: the table of criteria has one entry for a criterion, and
-- what the operations on it make of a criterion's set.
use nwaku.Base.{
  ◌≤◌, ◌≡◌, refl, ap₂, arith, Bool, true, false, not, ◌==◌, ◌||◌, ◌&&◌, none, List, [], ◌∷◌, has,
  ==_iff, Bool-cases, inl, inr,
}
use nwaku.Filter.Tables.{
  PeerId, FilterCriterion, Subscriptions, same, find_criterion, include, exclude, excl,
  add_unless_empty, keep_set, keep_subscribers,
}
use nwaku.Filter.Counts.{has-incl, has-excl, has-keep_set, subscribed_to, sub_count}

pub same_trans : (a b c : FilterCriterion) → same a b ≡ true → same a c ≡ same b c
same_trans (p, t) (q, u) (r, v) h = ground arith

pub same_apart : (a b c : FilterCriterion) → same a b ≡ false → same a c ≡ true → same b c ≡ false
same_apart (p, t) (q, u) (r, v) h k = ground arith

pub same→eq : (a b : FilterCriterion) → same a b ≡ true → a ≡ b
same→eq (p, t) (q, u) h = ground arith

pub subscribed_to-same :
    (c e : FilterCriterion) (p q : PeerId) (subs : Subscriptions)
    → same c e ≡ true
    → (p == q) ≡ true
    → subscribed_to c p subs ≡ subscribed_to e q subs
subscribed_to-same c e p q subs h k =
    ap₂ (λ x y. subscribed_to x y subs) (same→eq c e h) ((==_iff p q).0 k)

pub subscribed_to-include :
    (c : FilterCriterion) (p : PeerId) (subs : Subscriptions) (e : FilterCriterion) (q : PeerId)
    → subscribed_to e q (include c p subs) ≡ (((p == q) && same c e) || subscribed_to e q subs)
unfolding find_criterion include
subscribed_to-include c p [] e q = unfold has in ground arith
subscribed_to-include c p ((d, ps) ∷ r) e q = elim (Bool-cases (same d c)) [
  | inl here ↦ ground (arith, same_trans d c e here, has-incl p ps q)
  | inr elsewhere ↦ ground (arith, same_apart d c e elsewhere, subscribed_to-include c p r e q)
]

-- No criterion has two entries.
abbrev pub UniqueCriteria : Subscriptions → Type 0
UniqueCriteria [] = Unit
UniqueCriteria ((c, ps) ∷ r) = (find_criterion c r ≡ none) × UniqueCriteria r

same_sym : (a b : FilterCriterion) → same a b ≡ same b a
same_sym (p, t) (q, u) = ground arith

find_criterion-include :
    (c : FilterCriterion) (p : PeerId) (subs : Subscriptions) (e : FilterCriterion)
    → same c e ≡ false
    → find_criterion e (include c p subs) ≡ find_criterion e subs
unfolding find_criterion include
find_criterion-include c p [] e h = ground arith
find_criterion-include c p ((d, ps) ∷ r) e h = elim (Bool-cases (same d c)) [
  | inl here ↦ ground (arith, same_trans d c e here)
  | inr elsewhere ↦ ground (arith, find_criterion-include c p r e h)
]

find_criterion-add_unless_empty :
    (d : FilterCriterion) (ps : List PeerId) (r : Subscriptions) (e : FilterCriterion)
    → same d e ≡ false
    → find_criterion e (add_unless_empty d ps r) ≡ find_criterion e r
unfolding find_criterion add_unless_empty
find_criterion-add_unless_empty d [] r e h = refl
find_criterion-add_unless_empty d (p ∷ ps) r e h = rw h

none-exclude :
    (c : FilterCriterion) (p : PeerId) (subs : Subscriptions) (e : FilterCriterion)
    → find_criterion e subs ≡ none
    → find_criterion e (exclude c p subs) ≡ none
unfolding find_criterion exclude
none-exclude c p [] e h = refl
none-exclude c p ((d, ps) ∷ r) e h =
    ground (arith, none-exclude c p r e, find_criterion-add_unless_empty d (excl p ps) r e)

none-keep_subscribers :
    (keep : PeerId → Bool) (subs : Subscriptions) (e : FilterCriterion)
    → find_criterion e subs ≡ none
    → find_criterion e (keep_subscribers keep subs) ≡ none
unfolding find_criterion keep_subscribers
none-keep_subscribers keep [] e h = refl
none-keep_subscribers keep ((d, ps) ∷ r) e h = ground (
  arith,
  none-keep_subscribers keep r e,
  find_criterion-add_unless_empty d (keep_set keep ps) (keep_subscribers keep r) e,
)

add_unless_empty-Unique :
    (d : FilterCriterion) (ps : List PeerId) (r : Subscriptions)
    → find_criterion d r ≡ none
    → UniqueCriteria r
    → UniqueCriteria (add_unless_empty d ps r)
unfolding add_unless_empty
add_unless_empty-Unique d [] r h u = u
add_unless_empty-Unique d (p ∷ ps) r h u = (h, u)

pub include-UniqueCriteria :
    (c : FilterCriterion) (p : PeerId) (subs : Subscriptions)
    → UniqueCriteria subs
    → UniqueCriteria (include c p subs)
unfolding find_criterion include
include-UniqueCriteria c p [] u = (refl, tt)
include-UniqueCriteria c p ((d, ps) ∷ r) u = elim (Bool-cases (same d c)) [
  | inl here ↦ rw here u
  | inr elsewhere ↦
      let apart : same c d ≡ false = rw same_sym elsewhere in
      rw elsewhere (rw (find_criterion-include c p r d apart) u.0, include-UniqueCriteria c p r u.1)
]

pub exclude-UniqueCriteria :
    (c : FilterCriterion) (p : PeerId) (subs : Subscriptions)
    → UniqueCriteria subs
    → UniqueCriteria (exclude c p subs)
unfolding exclude
exclude-UniqueCriteria c p [] u = tt
exclude-UniqueCriteria c p ((d, ps) ∷ r) u = elim (Bool-cases (same d c)) [
  | inl here ↦ rw here (add_unless_empty-Unique d (excl p ps) r u.0 u.1)
  | inr elsewhere ↦ rw elsewhere (none-exclude c p r d u.0, exclude-UniqueCriteria c p r u.1)
]

pub keep_subscribers-UniqueCriteria :
    (keep : PeerId → Bool) (subs : Subscriptions)
    → UniqueCriteria subs
    → UniqueCriteria (keep_subscribers keep subs)
unfolding keep_subscribers
keep_subscribers-UniqueCriteria keep [] u = tt
keep_subscribers-UniqueCriteria keep ((d, ps) ∷ r) u =
    add_unless_empty-Unique d (keep_set keep ps) (keep_subscribers keep r)
      (none-keep_subscribers keep r d u.0) (keep_subscribers-UniqueCriteria keep r u.1)

-- The set at the entry itself.
subscribed_to-add_unless_empty :
    (d : FilterCriterion) (ps : List PeerId) (r : Subscriptions) (e : FilterCriterion) (q : PeerId)
    → same d e ≡ true
    → find_criterion e r ≡ none
    → subscribed_to e q (add_unless_empty d ps r) ≡ has q ps
unfolding find_criterion add_unless_empty
subscribed_to-add_unless_empty d [] r e q h u = rw u
subscribed_to-add_unless_empty d (p ∷ ps) r e q h u = rw h

pub subscribed_to-keep_subscribers :
    (keep : PeerId → Bool) (subs : Subscriptions) (e : FilterCriterion) (q : PeerId)
    → UniqueCriteria subs
    → subscribed_to e q (keep_subscribers keep subs) ≡ (keep q && subscribed_to e q subs)
unfolding find_criterion keep_subscribers
subscribed_to-keep_subscribers keep [] e q u = unfold has in ground arith
subscribed_to-keep_subscribers keep ((d, ps) ∷ r) e q u = elim (Bool-cases (same d e)) [
  | inl here ↦
      let gone : find_criterion e (keep_subscribers keep r) ≡ none =
        none-keep_subscribers keep r e (rw (← same→eq d e here) u.0) in
      rw
        (
          subscribed_to-add_unless_empty d (keep_set keep ps) (keep_subscribers keep r) e q here
              gone,
          here,
        )
        (has-keep_set keep ps q)
  | inr elsewhere ↦
      rw
        (
          find_criterion-add_unless_empty d (keep_set keep ps) (keep_subscribers keep r) e
              elsewhere,
          elsewhere,
        )
        (subscribed_to-keep_subscribers keep r e q u.1)
]

pub subscribed_to-exclude :
    (c : FilterCriterion) (p : PeerId) (subs : Subscriptions) (e : FilterCriterion) (q : PeerId)
    → UniqueCriteria subs
    → subscribed_to e q (exclude c p subs) ≡ (not ((p == q) && same c e) && subscribed_to e q subs)
unfolding find_criterion exclude
subscribed_to-exclude c p [] e q u = unfold has in ground arith
subscribed_to-exclude c p ((d, ps) ∷ r) e q u = elim (Bool-cases (same d c)) [
  | inl at_c ↦ elim (Bool-cases (same d e)) [
    | inl at_e ↦
        let gone : find_criterion e r ≡ none = rw (← same→eq d e at_e) u.0 in
        let both : same c e ≡ true = rw (← same_trans d c e at_c) at_e in
        rw (at_c, subscribed_to-add_unless_empty d (excl p ps) r e q at_e gone, at_e, both)
          (ground (arith, has-excl p ps q))
    | inr off_e ↦
        let apart : same c e ≡ false = rw (← same_trans d c e at_c) off_e in
        rw (at_c, find_criterion-add_unless_empty d (excl p ps) r e off_e, off_e, apart)
          (ground arith)
  ]
  | inr off_c ↦ elim (Bool-cases (same d e)) [
    | inl at_e ↦ rw (off_c, at_e, same_apart d c e off_c at_e) (ground arith)
    | inr off_e ↦ rw (off_c, off_e) (subscribed_to-exclude c p r e q u.1)
  ]
]

-- A peer that is in the set of a criterion counts.
pub subscribed_to→count :
    (e : FilterCriterion) (q : PeerId) (subs : Subscriptions)
    → subscribed_to e q subs ≡ true
    → 1 ≤ sub_count q subs
unfolding find_criterion sub_count
subscribed_to→count e q [] h = unfold has in ground arith
subscribed_to→count e q ((d, ps) ∷ r) h = ground (arith, subscribed_to→count e q r)
