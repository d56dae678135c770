-- ===== src/Archive/Order.antt =====
-- Comparisons with the laws of a total order: of numbers, of texts, and of pairs, first component
-- first.
use Prim.Native.Nat.{Ordering, compare, lt, eq, gt}
use nwaku.Base.{ℕ, ◌≡◌, ◌⊎◌, refl, sym, ap₂, arith, List, [], ◌∷◌, inl, inr, subst}

pub record IsOrder {A : Type 0} (c : A → A → Ordering) : Type 0 where
  pub same : (a : A) → c a a ≡ eq
  pub equal : (a b : A) → c a b ≡ eq → a ≡ b
  pub flip : (a b : A) → c a b ≡ gt → c b a ≡ lt
  pub trans : (a b d : A) → c a b ≡ lt → c b d ≡ lt → c a d ≡ lt

-- The second comparison where the first one finds no difference.
abbrev pub then_by : Ordering → Ordering → Ordering
then_by lt o = lt
then_by eq o = o
then_by gt o = gt

pub Ordering-cases : (o : Ordering) → (o ≡ lt) ⊎ ((o ≡ eq) ⊎ (o ≡ gt))
Ordering-cases lt = inl refl
Ordering-cases eq = inr (inl refl)
Ordering-cases gt = inr (inr refl)

-- `cmp` of two texts.
unfoldable pub compare_text : List ℕ → List ℕ → Ordering
compare_text [] [] = eq
compare_text [] (y ∷ ys) = lt
compare_text (x ∷ xs) [] = gt
compare_text (x ∷ xs) (y ∷ ys) = then_by (compare x y) (compare_text xs ys)

pub compare-IsOrder : IsOrder compare
compare-IsOrder = record {
  same = λ a. ground arith;
  equal = λ a b h. ground arith;
  flip = λ a b h. ground arith;
  trans = λ a b d h k. ground arith;
}

text_same : (s : List ℕ) → compare_text s s ≡ eq
unfolding compare_text
text_same [] = refl
text_same (x ∷ s) = rw (compare-IsOrder.same x, text_same s)

text_equal : (s t : List ℕ) → compare_text s t ≡ eq → s ≡ t
unfolding compare_text
text_equal [] [] h = refl
text_equal [] (y ∷ t) h = cc
text_equal (x ∷ s) [] h = cc
text_equal (x ∷ s) (y ∷ t) h = ground (arith, text_equal s t)

text_flip : (s t : List ℕ) → compare_text s t ≡ gt → compare_text t s ≡ lt
unfolding compare_text
text_flip [] [] h = cc
text_flip [] (y ∷ t) h = cc
text_flip (x ∷ s) [] h = refl
text_flip (x ∷ s) (y ∷ t) h = ground (arith, text_flip s t)

text_trans :
    (s t u : List ℕ) → compare_text s t ≡ lt → compare_text t u ≡ lt → compare_text s u ≡ lt
unfolding compare_text
text_trans [] [] u h k = cc
text_trans [] (y ∷ t) [] h k = cc
text_trans [] (y ∷ t) (z ∷ u) h k = refl
text_trans (x ∷ s) [] u h k = cc
text_trans (x ∷ s) (y ∷ t) [] h k = cc
text_trans (x ∷ s) (y ∷ t) (z ∷ u) h k = ground (arith, text_trans s t u)

pub compare_text-IsOrder : IsOrder compare_text
compare_text-IsOrder = record {
  same = text_same;
  equal = text_equal;
  flip = text_flip;
  trans = text_trans;
}

abbrev pub pair_compare :
    {A B : Type 0} → (A → A → Ordering) → (B → B → Ordering) → A × B → A × B → Ordering
pair_compare c d (a, b) (a', b') = then_by (c a a') (d b b')

then_by-eq : (o p : Ordering) → then_by o p ≡ eq → (o ≡ eq) × (p ≡ eq)
then_by-eq lt p h = cc
then_by-eq eq p h = (refl, h)
then_by-eq gt p h = cc

then_by-lt : (o p : Ordering) → then_by o p ≡ lt → (o ≡ lt) ⊎ ((o ≡ eq) × (p ≡ lt))
then_by-lt lt p h = inl refl
then_by-lt eq p h = inr (refl, h)
then_by-lt gt p h = cc

then_by-gt : (o p : Ordering) → then_by o p ≡ gt → (o ≡ gt) ⊎ ((o ≡ eq) × (p ≡ gt))
then_by-gt lt p h = cc
then_by-gt eq p h = inr (refl, h)
then_by-gt gt p h = inl refl

module _ {A : Type 0} {B : Type 0} (c : A → A → Ordering) (d : B → B → Ordering) where
  pair_flip :
      IsOrder c
      → IsOrder d
      → (a a' : A) (b b' : B) → then_by (c a a') (d b b') ≡ gt
      → then_by (c a' a) (d b' b) ≡ lt
  pair_flip hc hd a a' b b' h = elim (then_by-gt (c a a') (d b b') h) [
    | inl above ↦ rw (hc.flip a a' above) refl
    | inr (level, above) ↦
        let same : c a' a ≡ eq =
          subst (λ t. c a' t ≡ eq) (sym (hc.equal a a' level)) (hc.same a') in
        rw same (hd.flip b b' above)
  ]

  pair_trans :
      IsOrder c
      → IsOrder d
      → (x y z : A × B) → pair_compare c d x y ≡ lt
      → pair_compare c d y z ≡ lt
      → pair_compare c d x z ≡ lt
  pair_trans hc hd (a, b) (a', b') (a'', b'') h k = elim (then_by-lt (c a a') (d b b') h) [
    | inl below ↦ elim (then_by-lt (c a' a'') (d b' b'') k) [
      | inl below' ↦ rw (hc.trans a a' a'' below below') refl
      | inr (level, below') ↦
          let low : c a a'' ≡ lt = subst (λ t. c a t ≡ lt) (hc.equal a' a'' level) below in
          rw low refl
    ]
    | inr (level, below) ↦
        subst (λ t. then_by (c t a'') (d b b'') ≡ lt) (sym (hc.equal a a' level))
          (elim (then_by-lt (c a' a'') (d b' b'') k) [
            | inl below' ↦ rw below' refl
            | inr (level', below') ↦ rw level' (hd.trans b b' b'' below below')
          ])
  ]

  pub pair_compare-IsOrder : IsOrder c → IsOrder d → IsOrder (pair_compare c d)
  pair_compare-IsOrder hc hd = record {
    same = λ x. rw (hc.same x.0, hd.same x.1) refl;
    equal = λ x y h.
        let both = then_by-eq (c x.0 y.0) (d x.1 y.1) h in
        ap₂ (λ a b. (a, b)) (hc.equal x.0 y.0 both.0) (hd.equal x.1 y.1 both.1);
    flip = λ x y h. pair_flip hc hd x.0 y.0 x.1 y.1 h;
    trans = λ x y z h k. pair_trans hc hd x y z h k;
  }
