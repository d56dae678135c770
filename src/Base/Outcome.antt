-- ===== src/Base/Outcome.antt =====
-- Code that may do something undefined, such as an access out of bounds, returns `none` for it.
use mathlib.Core.Path.{◌≡◌, refl}
use mathlib.Core.Option.{Option, none, some}
use Prim.Native.Nat.{ℕ, zero, suc, ◌+◌, ◌<◌}
use mathlib.Core.List.{List, [], ◌∷◌, ◌++◌}
use native.Mathlib.Omega.{arith}
use mathlib.Core.Logic.{inl, inr}
use nwaku.Base.Lists.{length}
use nwaku.Base.Tests.{Option-cases}

infixl 5 ◌>>=◌
abbrev pub ◌>>=◌ {ℓ κ} : {A : Type ℓ} {B : Type κ} → Option A → (A → Option B) → Option B
none >>= f = none
some a >>= f = f a

-- A write into an array: `none` is a write out of bounds.
unfoldable pub store {ℓ} : {A : Type ℓ} → List A → ℕ → A → Option (List A)
store [] i v = none
store (x ∷ xs) zero v = some (v ∷ xs)
store (x ∷ xs) (suc i) v = store xs i v >>= λ ys. some (x ∷ ys)

-- A write behind a prefix of known length, whose last part `ps` is mostly written out.
pub store-append {ℓ} :
    {A : Type ℓ} (xs ps : List A) (y v : A) (ys : List A) (i : ℕ)
    → i ≡ length xs + length ps
    → store (xs ++ (ps ++ y ∷ ys)) i v ≡ some (xs ++ (ps ++ v ∷ ys))
unfolding store
store-append [] [] y v ys zero e = refl
store-append [] [] y v ys (suc i) e = absurd (omega arith)
store-append [] (p ∷ ps) y v ys zero e = absurd (omega arith)
store-append [] (p ∷ ps) y v ys (suc i) e = rw (store-append [] ps y v ys i (omega arith)) refl
store-append (x ∷ xs) ps y v ys zero e = absurd (omega arith)
store-append (x ∷ xs) ps y v ys (suc i) e = rw (store-append xs ps y v ys i (omega arith)) refl

-- A write into an array keeps its length.
pub length-store {ℓ} :
    {A : Type ℓ} (xs : List A) (i : ℕ) (v : A) (ys : List A)
    → store xs i v ≡ some ys
    → length ys ≡ length xs
unfolding store
length-store [] i v ys e = cc
length-store (x ∷ xs) zero v ys e = ground arith
length-store (x ∷ xs) (suc i) v ys e = elim (Option-cases (store xs i v)) [
  | inl n ↦ cc (rw n at e)
  | inr (zs, m) ↦ ground (arith, m, length-store xs i v zs)
]

-- A write that is defined is within the array.
pub store-lt-length {ℓ} :
    {A : Type ℓ} (xs : List A) (i : ℕ) (v : A) (ys : List A)
    → store xs i v ≡ some ys
    → i < length xs
unfolding store
store-lt-length [] i v ys e = cc
store-lt-length (x ∷ xs) zero v ys e = omega arith
store-lt-length (x ∷ xs) (suc i) v ys e = elim (Option-cases (store xs i v)) [
  | inl n ↦ cc (rw n at e)
  | inr (zs, m) ↦ omega (arith, store-lt-length xs i v zs m)
]

-- Inversion of a successful bind.
pub >>=-eq-some {ℓ κ} :
    {A : Type ℓ} {B : Type κ} (m : Option A) (f : A → Option B) {b : B}
    → (m >>= f) ≡ some b
    → (a : A) × (m ≡ some a) × (f a ≡ some b)
>>=-eq-some none f h = cc
>>=-eq-some (some a) f h = (a, refl, h)
