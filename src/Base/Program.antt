-- ===== src/Base/Program.antt =====
-- C programs as state passing: a call ends with a value, ends the process, or is undefined.
use mathlib.Core.Path.{◌≡◌, refl}
use nwaku.Base.Tests.{if◌then◌else◌}
use mathlib.Core.Bool.{Bool, true, false}

pub data Result {ℓ} (S : Type 0) (A : Type ℓ) : Type ℓ where
  done : A → S → Result S A
  exited : S → Result S A
  undefined : Result S A

-- A program over the state `S`.
abbrev pub Proc {ℓ} : Type 0 → Type ℓ → Type ℓ
Proc S A = S → Result S A

module _ {S : Type 0} where
  abbrev pub pure {ℓ} : {A : Type ℓ} → A → Proc S A
  pure a s = done a s

  abbrev pub exit {ℓ} : {A : Type ℓ} → Proc S A
  exit s = exited s

  abbrev pub fault {ℓ} : {A : Type ℓ} → Proc S A
  fault s = undefined

  abbrev pub modify : (S → S) → Proc S (Unit {0})
  modify f s = done tt (f s)

  abbrev pub then_run {ℓ κ} : {A : Type ℓ} {B : Type κ} → Result S A → (A → Proc S B) → Result S B
  then_run (done a s) f = f a s
  then_run (exited s) f = exited s
  then_run undefined f = undefined

  infixl 5 ◌>>=◌ ◌>>◌
  abbrev pub ◌>>=◌ {ℓ κ} : {A : Type ℓ} {B : Type κ} → Proc S A → (A → Proc S B) → Proc S B
  ◌>>=◌ m f s = then_run (m s) f

  abbrev pub ◌>>◌ {κ} : {B : Type κ} → Proc S (Unit {0}) → Proc S B → Proc S B
  ◌>>◌ m k s = then_run (m s) (λ _. k)

  -- Inversion of a bind that ends with a value.
  pub then_run-eq-done {ℓ κ} :
      {A : Type ℓ} {B : Type κ} (r : Result S A) (f : A → Proc S B) {b : B} {s : S}
      → then_run r f ≡ done b s
      → (a : A) × (t : S) × (r ≡ done a t) × (f a t ≡ done b s)
  then_run-eq-done (done a t) f h = (a, t, refl, h)
  then_run-eq-done (exited t) f h = cc
  then_run-eq-done undefined f h = cc

-- What holds of the state and the value wherever a program ends with one.
abbrev pub Ensures {ℓ κ} : {S : Type 0} {A : Type ℓ} → (A → S → Type κ) → Result S A → Type κ
Ensures P (done a s) = P a s
Ensures P (exited s) = Unit {_}
Ensures P undefined = Unit {_}

-- A program that ends with a value, and what holds of the state and the value then.
abbrev pub Returns {ℓ} : {S : Type 0} {A : Type ℓ} → (A → S → Type 0) → Result S A → Type 0
Returns P (done a s) = P a s
Returns P (exited s) = ⊥
Returns P undefined = ⊥

pub Ensures-then_run {ℓ κ λ₁ λ₂} :
    {S : Type 0} {A : Type ℓ} {B : Type κ} (P : A → S → Type λ₁) (Q : B → S → Type λ₂)
    (r : Result S A) (f : A → Proc S B)
    → Ensures P r
    → ((a : A) (s : S) → P a s → Ensures Q (f a s))
    → Ensures Q (then_run r f)
Ensures-then_run P Q (done a s) f h k = k a s h
Ensures-then_run P Q (exited s) f h k = tt
Ensures-then_run P Q undefined f h k = tt

pub Ensures-map {ℓ κ λ₁} :
    {S : Type 0} {A : Type ℓ} (P : A → S → Type κ) (Q : A → S → Type λ₁) (r : Result S A)
    → ((a : A) (s : S) → P a s → Q a s)
    → Ensures P r
    → Ensures Q r
Ensures-map P Q (done a s) f h = f a s h
Ensures-map P Q (exited s) f h = tt
Ensures-map P Q undefined f h = tt

pub Returns-then_run {ℓ κ} :
    {S : Type 0} {A : Type ℓ} {B : Type κ} (P : A → S → Type 0) (Q : B → S → Type 0)
    (r : Result S A) (f : A → Proc S B)
    → Returns P r
    → ((a : A) (s : S) → P a s → Returns Q (f a s))
    → Returns Q (then_run r f)
Returns-then_run P Q (done a s) f h k = k a s h
Returns-then_run P Q (exited s) f h k = absurd h
Returns-then_run P Q undefined f h k = absurd h

pub Returns-map {ℓ} :
    {S : Type 0} {A : Type ℓ} (P Q : A → S → Type 0) (r : Result S A)
    → ((a : A) (s : S) → P a s → Q a s)
    → Returns P r
    → Returns Q r
Returns-map P Q (done a s) f h = f a s h
Returns-map P Q (exited s) f h = absurd h
Returns-map P Q undefined f h = absurd h

-- A property of a conditional.
pub if_elim {ℓ κ} :
    {A : Type ℓ} (P : A → Type κ) (b : Bool) {x y : A} → P x → P y → P (if b then x else y)
if_elim P true p q = p
if_elim P false p q = q

-- What a program makes of a state with the property `P`, wherever it ends with a value.
abbrev pub Post {ℓ} :
    {S : Type 0} {A : Type ℓ} → (S → Type 0) → Proc S A → (A → S → Type 0) → Type 0
Post {S} P m Q = (s : S) → P s → Ensures Q (m s)

pub then-Post {ℓ κ} :
    {S : Type 0} {A : Type ℓ} {B : Type κ} (P : S → Type 0) (R : A → S → Type 0)
    (Q : B → S → Type 0) (m : Proc S A) (f : A → Proc S B)
    → Post P m R
    → ((a : A) → Post (R a) (f a) Q)
    → Post P (m >>= f) Q
then-Post P R Q m f h k s p = Ensures-then_run R Q (m s) f (h s p) k
