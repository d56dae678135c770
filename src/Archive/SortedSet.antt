-- ===== src/Archive/SortedSet.antt =====
-- The sorted set of stew, a library: what the archive's driver relies on. A set stands for its items
-- in ascending order, which is what a walk over it yields. `contains_key`, `insert_item` and the tail
-- of a list say what the three operations do to a set that is in order.
use Prim.Native.Nat.{Ordering, lt, eq, gt}
use nwaku.Base.{◌≡◌, refl, Bool, true, false, List, [], ◌∷◌, All, inl, inr}
use nwaku.Archive.Order.{Ordering-cases}

-- The laws that a sorted set asks of the comparison of its keys, on the keys of a kind.
pub record IsLawful {K : Type 0} (R : K → Type 0) (c : K → K → Ordering) : Type 0 where
  pub equal-below : (a b d : K) → R a → R b → R d → c a b ≡ eq → c b d ≡ lt → c a d ≡ lt
  pub below-below : (a b d : K) → R a → R b → R d → c a b ≡ lt → c b d ≡ lt → c a d ≡ lt
  pub above : (a b : K) → R a → R b → c a b ≡ gt → c b a ≡ lt

abbrev pub found : Ordering → Bool → Bool
found lt rest = rest
found eq rest = true
found gt rest = rest

abbrev pub placed : {A : Type 0} → Ordering → A → A → A → A
placed lt before here behind = before
placed eq before here behind = here
placed gt before here behind = behind

module _ {K : Type 0} {V : Type 0} (c : K → K → Ordering) where
  abbrev pub Below : K → List (K × V) → Type 0
  Below k = All (λ e. c k e.0 ≡ lt)

  abbrev pub Sorted : List (K × V) → Type 0
  Sorted [] = Unit
  Sorted ((k, v) ∷ r) = Below k r × Sorted r

  unfoldable pub contains_key : K → List (K × V) → Bool
  contains_key k [] = false
  contains_key k ((j, w) ∷ r) = found (c k j) (contains_key k r)

  unfoldable pub insert_item : K → V → List (K × V) → List (K × V)
  insert_item k v [] = (k, v) ∷ []
  insert_item k v ((j, w) ∷ r) =
      placed (c k j) ((k, v) ∷ (j, w) ∷ r) ((j, w) ∷ r) ((j, w) ∷ insert_item k v r)

  -- A key below all others is in no list of them, and comes first.
  pub contains_key-Below : (k : K) (r : List (K × V)) → Below k r → contains_key k r ≡ false
  unfolding contains_key
  contains_key-Below k [] h = refl
  contains_key-Below k ((j, w) ∷ r) h = rw h.0 (contains_key-Below k r h.1)

  pub insert_item-Below :
      (k : K) (v : V) (r : List (K × V)) → Below k r → insert_item k v r ≡ (k, v) ∷ r
  unfolding insert_item
  insert_item-Below k v [] h = refl
  insert_item-Below k v ((j, w) ∷ r) h = rw h.0 refl

  module _ (R : K → Type 0) (lawful : IsLawful R c) where
    abbrev pub Keys : List (K × V) → Type 0
    Keys = All (λ e. R e.0)

    pub Below-lt :
        (k j : K) (r : List (K × V)) → R k → R j → Keys r → c k j ≡ lt → Below j r → Below k r
    Below-lt k j [] hk hj hr h b = tt
    Below-lt k j ((i, w) ∷ r) hk hj hr h b =
        (lawful.below-below k j i hk hj hr.0 h b.0, Below-lt k j r hk hj hr.1 h b.1)

    pub Below-eq :
        (k j : K) (r : List (K × V)) → R k → R j → Keys r → c k j ≡ eq → Below j r → Below k r
    Below-eq k j [] hk hj hr h b = tt
    Below-eq k j ((i, w) ∷ r) hk hj hr h b =
        (lawful.equal-below k j i hk hj hr.0 h b.0, Below-eq k j r hk hj hr.1 h b.1)

  pub All-insert_item :
      (P : K × V → Type 0) (k : K) (v : V) (r : List (K × V))
      → P (k, v)
      → All P r
      → All P (insert_item k v r)
  unfolding insert_item
  All-insert_item P k v [] h hr = (h, tt)
  All-insert_item P k v ((j, w) ∷ r) h hr = elim (Ordering-cases (c k j)) [
    | inl below ↦ rw below (h, hr)
    | inr (inl same) ↦ rw same hr
    | inr (inr above) ↦ rw above (hr.0, All-insert_item P k v r h hr.1)
  ]

  pub insert_item-Sorted :
      (R : K → Type 0)
      → IsLawful R c
      → (k : K) (v : V) (r : List (K × V)) → R k
      → All (λ e. R e.0) r
      → Sorted r
      → Sorted (insert_item k v r)
  unfolding insert_item
  insert_item-Sorted R lawful k v [] hk hr s = (tt, tt)
  insert_item-Sorted R lawful k v ((j, w) ∷ r) hk hr s = elim (Ordering-cases (c k j)) [
    | inl below ↦ rw below ((below, Below-lt R lawful k j r hk hr.0 hr.1 below s.0), s)
    | inr (inl same) ↦ rw same s
    | inr (inr above) ↦ rw above (
      All-insert_item (λ e. c j e.0 ≡ lt) k v r (lawful.above k j hk hr.0 above) s.0,
      insert_item-Sorted R lawful k v r hk hr.1 s.1,
    )
  ]

pub record SortedSet (K V : Type 0) (c : K → K → Ordering) : Type 0 where
  pub contains : K → List (K × V) → Bool
  pub insert : K → V → List (K × V) → List (K × V)
  pub delete : K → List (K × V) → List (K × V)
  pub contains_lem :
      (k : K) (items : List (K × V)) → Sorted c items → contains k items ≡ contains_key c k items
  pub insert_lem :
      (k : K) (v : V) (items : List (K × V))
      → Sorted c items
      → contains_key c k items ≡ false
      → insert k v items ≡ insert_item c k v items
  pub delete_lem :
      (k : K) (v : V) (items : List (K × V))
      → Sorted c ((k, v) ∷ items)
      → delete k ((k, v) ∷ items) ≡ items
