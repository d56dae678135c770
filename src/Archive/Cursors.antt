-- ===== src/Archive/Cursors.antt =====
-- waku/waku_archive/driver/queue_driver/queue_driver.nim: a cursor leads behind the item that it was
-- made of.
use Prim.Native.Nat.{lt}
use nwaku.Base.{
  ℕ, ◌≡◌, refl, sym, ap, arith, Bool, true, false, some, List, [], ◌∷◌, ◌++◌, All, All-append,
  Bool-cases, inl, inr, subst,
}
use mathlib.Core.List.{reverse, reverse-cons}
use nwaku.Archive.Order.{compare_text-IsOrder}
use nwaku.Archive.SortedSet.{Below, Sorted}
use nwaku.Archive.Index.{Index, eq_index, cmp, same_text, is_eq, is_eq-true}
use nwaku.Archive.Queue.{Item}
use nwaku.Archive.Pages.{walk, walk_to_cursor}

-- No item has the key of a later one.
abbrev pub Distinct : List Item → Type 0
Distinct [] = Unit
Distinct (e ∷ r) = All (λ f. eq_index e.0 f.0 ≡ false) r × Distinct r

pub All-middle {ℓ} :
    (P : Item → Type ℓ) (xs : List Item) (e : Item) (r : List Item) → All P (xs ++ e ∷ r) → P e
All-middle P [] e r h = h.0
All-middle P (x ∷ xs) e r h = All-middle P xs e r h.1

pub eq_index_refl : (k : Index) → eq_index k k ≡ true
unfolding eq_index
eq_index_refl k = ground (arith, compare_text-IsOrder.same k.pubsub_topic)

pub walk_to_cursor-middle :
    (xs : List Item) (e : Item) (r : List Item)
    → Distinct (xs ++ e ∷ r)
    → walk_to_cursor e.0 (xs ++ e ∷ r) ≡ some r
unfolding walk_to_cursor
walk_to_cursor-middle [] e r h = rw eq_index_refl refl
walk_to_cursor-middle (x ∷ xs) e r h =
    let other : eq_index x.0 e.0 ≡ false = All-middle (λ f. eq_index x.0 f.0 ≡ false) xs e r h.0 in
    rw other (walk_to_cursor-middle xs e r h.1)

same_text_comm : (s t : List ℕ) → same_text s t ≡ false → same_text t s ≡ false
same_text_comm s t h = elim (Bool-cases (same_text t s)) [
  | inl same ↦
      let e : t ≡ s = compare_text-IsOrder.equal t s (is_eq-true _ same) in
      let equal : same_text s t ≡ true =
        subst (λ u. same_text s u ≡ true) (sym e) (ap is_eq (compare_text-IsOrder.same s)) in
      cc
  | inr other ↦ other
]

eq_index_comm : (x y : Index) → eq_index x y ≡ false → eq_index y x ≡ false
unfolding eq_index
eq_index_comm x y h = ground (arith, same_text_comm x.pubsub_topic y.pubsub_topic)

cmp-lt : (x y : Index) → cmp x y ≡ lt → eq_index x y ≡ false
unfolding cmp
cmp-lt x y h = elim (Bool-cases (eq_index x y)) [ inl same ↦ cc (rw same at h) | inr other ↦ other ]

Below-Apart : (k : Index) (r : List Item) → Below cmp k r → All (λ f. eq_index k f.0 ≡ false) r
Below-Apart k [] h = tt
Below-Apart k (e ∷ r) h = (cmp-lt k e.0 h.0, Below-Apart k r h.1)

Sorted-Distinct : (items : List Item) → Sorted cmp items → Distinct items
Sorted-Distinct [] s = tt
Sorted-Distinct ((k, m) ∷ r) s = (Below-Apart k r s.0, Sorted-Distinct r s.1)

All-reverse {ℓ} : (P : Item → Type ℓ) (xs : List Item) → All P xs → All P (reverse xs)
All-reverse P [] h = tt
All-reverse P (x ∷ xs) h =
    rw reverse-cons (All-append P (reverse xs) (x ∷ []) (All-reverse P xs h.1) (h.0, tt))

Distinct-snoc :
    (xs : List Item) (x : Item)
    → Distinct xs
    → All (λ f. eq_index f.0 x.0 ≡ false) xs
    → Distinct (xs ++ x ∷ [])
Distinct-snoc [] x d h = (tt, tt)
Distinct-snoc (e ∷ xs) x d h = (
  All-append (λ f. eq_index e.0 f.0 ≡ false) xs (x ∷ []) d.0 (h.0, tt),
  Distinct-snoc xs x d.1 h.1,
)

All-comm :
    (k : Index) (xs : List Item)
    → All (λ f. eq_index k f.0 ≡ false) xs
    → All (λ f. eq_index f.0 k ≡ false) xs
All-comm k [] h = tt
All-comm k (e ∷ xs) h = (eq_index_comm k e.0 h.0, All-comm k xs h.1)

Distinct-reverse : (xs : List Item) → Distinct xs → Distinct (reverse xs)
Distinct-reverse [] d = tt
Distinct-reverse (x ∷ xs) d = rw reverse-cons (
    Distinct-snoc (reverse xs) x (Distinct-reverse xs d.1)
      (All-reverse (λ f. eq_index f.0 x.0 ≡ false) xs (All-comm x.0 xs d.0)))

pub walk-Distinct :
    (forward : Bool) (items : List Item) → Sorted cmp items → Distinct (walk forward items)
walk-Distinct true items s = Sorted-Distinct items s
walk-Distinct false items s = Distinct-reverse items (Sorted-Distinct items s)

pub walk-All {ℓ} :
    (P : Item → Type ℓ) (forward : Bool) (items : List Item)
    → All P items
    → All P (walk forward items)
walk-All P true items h = h
walk-All P false items h = All-reverse P items h
