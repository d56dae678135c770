-- ===== src/Archive/Split.antt =====
-- waku/waku_archive: where a page ends in a walk over the queue.
use nwaku.Base.{
  ℕ, ◌⊎◌, zero, suc, ◌<◌, ◌≡◌, refl, sym, ap, arith, Bool, true, false, some, List, [], ◌∷◌, ◌++◌,
  length, take, get_elem?, Bool-cases, inl, inr, subst,
}
use nwaku.Archive.Queue.{Item}
use nwaku.Archive.Pages.{keep}

zero_or_suc : (n : ℕ) → (n ≡ 0) ⊎ ((k : ℕ) × (n ≡ suc k))
zero_or_suc zero = inl refl
zero_or_suc (suc k) = inr (k, refl)

-- The item with the number `n` among those with the property that are still to come, from 0 on.
pub record IsSplit (p : Item → Bool) (n : ℕ) (l : List Item) : Type 0 where
  pub before : List Item
  pub last : Item
  pub behind : List Item
  pub whole : l ≡ before ++ last ∷ behind
  pub rest : keep p l ≡ take (suc n) (keep p l) ++ keep p behind
  pub place : get_elem? (keep p l) n ≡ some last

skip :
    (p : Item → Bool) (n : ℕ) (e : Item) (l : List Item)
    → p e ≡ false
    → IsSplit p n l
    → IsSplit p n (e ∷ l)
unfolding keep
skip p n e l miss h = record {
  before = e ∷ h.before;
  last = h.last;
  behind = h.behind;
  whole = ap (◌∷◌ e) h.whole;
  rest = rw miss h.rest;
  place = rw miss h.place;
}

pass :
    (p : Item → Bool) (n : ℕ) (e : Item) (l : List Item)
    → p e ≡ true
    → IsSplit p n l
    → IsSplit p (suc n) (e ∷ l)
unfolding keep
pass p n e l hit h = record {
  before = e ∷ h.before;
  last = h.last;
  behind = h.behind;
  whole = ap (◌∷◌ e) h.whole;
  rest = rw hit (ap (◌∷◌ e) h.rest);
  place = rw hit h.place;
}

here : (p : Item → Bool) (e : Item) (l : List Item) → p e ≡ true → IsSplit p 0 (e ∷ l)
unfolding keep
here p e l hit = record {
  before = [];
  last = e;
  behind = l;
  whole = refl;
  rest = rw hit refl;
  place = rw hit refl;
}

pub keep-IsSplit : (p : Item → Bool) (n : ℕ) (l : List Item) → n < length (keep p l) → IsSplit p n l
unfolding keep
keep-IsSplit p n [] h = absurd (omega (arith, h))
keep-IsSplit p n (e ∷ l) h = elim (Bool-cases (p e)) [
  | inr miss ↦ skip p n e l miss (keep-IsSplit p n l (rw miss at h))
  | inl hit ↦ elim (zero_or_suc n) [
    | inl none_before ↦ subst (λ k. IsSplit p k (e ∷ l)) (sym none_before) (here p e l hit)
    | inr (k, is) ↦
        subst (λ k. IsSplit p k (e ∷ l)) (sym is)
          (pass p k e l hit (keep-IsSplit p k l (ground (arith, h, hit, is))))
  ]
]
