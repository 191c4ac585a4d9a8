-- ===== src/Prelude/Results.antt =====
-- A call that returns a value or raises. Every component has its own type of errors.
use mathlib.Core.Path.{◌≡◌, refl, subst}
use mathlib.Core.Bool.{Bool, true, false}
use mathlib.Core.Option.{Option, none, some}
use mathlib.Core.Logic.{◌⊎◌, inl, inr}
use kiwi_t.Prelude.Tests.{if◌then◌else◌}

pub data Outcome (E A : Type 0) : Type 0 where
  ok : A → Outcome E A
  err : E → Outcome E A

infixl 5 ◌>>=◌ ◌>>◌
abbrev pub ◌>>=◌ : {E A B : Type 0} → Outcome E A → (A → Outcome E B) → Outcome E B
ok a >>= f = f a
err e >>= f = err e

abbrev pub ◌>>◌ : {E B : Type 0} → Outcome E (Unit {0}) → Outcome E B → Outcome E B
m >> k = m >>= λ _. k

-- `if b: raise e`
abbrev pub raise_if : {E : Type 0} → Bool → E → Outcome E (Unit {0})
raise_if true e = err e
raise_if false e = ok tt

-- a subscript, or an attribute, that may be missing
abbrev pub or_raise : {E A : Type 0} → Option A → E → Outcome E A
or_raise none e = err e
or_raise (some a) e = ok a

-- The postcondition of a call that returns; a call that raises satisfies it.
abbrev pub Returning : {E A : Type 0} → (A → Type 0) → Outcome E A → Type 0
Returning P (ok a) = P a
Returning P (err e) = Unit

pub Outcome-cases :
    {E A : Type 0} (r : Outcome E A) → ((a : A) × (r ≡ ok a)) ⊎ ((e : E) × (r ≡ err e))
Outcome-cases (ok a) = inl (a, refl)
Outcome-cases (err e) = inr (e, refl)

-- A bind keeps a postcondition that its continuation has at every value that the call returns.
pub Returning-bind :
    {E A B : Type 0} (P : B → Type 0) (m : Outcome E A) (f : A → Outcome E B)
    → ((a : A) → m ≡ ok a → Returning P (f a))
    → Returning P (m >>= f)
Returning-bind P (ok a) f h = h a refl
Returning-bind P (err e) f h = tt

pub Returning-then :
    {E B : Type 0} (P : B → Type 0) (m : Outcome E (Unit {0})) (k : Outcome E B)
    → (m ≡ ok tt → Returning P k)
    → Returning P (m >> k)
Returning-then P (ok tt) k h = h refl
Returning-then P (err e) k h = tt

-- a test that does not raise
pub Returning-raise_if :
    {E : Type 0} (P : Type 0) (b : Bool) (e : E)
    → (b ≡ false → P)
    → Returning (λ _. P) (raise_if b e)
Returning-raise_if P true e h = tt
Returning-raise_if P false e h = h refl

pub Returning-map :
    {E A : Type 0} (P Q : A → Type 0) (m : Outcome E A)
    → ((a : A) → P a → Q a)
    → Returning P m
    → Returning Q m
Returning-map P Q (ok a) f h = f a h
Returning-map P Q (err e) f h = tt

pub Returning-eq :
    {E A : Type 0} (P : A → Type 0) (m : Outcome E A) {a : A} → Returning P m → m ≡ ok a → P a
Returning-eq P (ok b) h e = subst P (cc) h
Returning-eq P (err x) h e = cc

pub or_raise_ok : {E A : Type 0} (o : Option A) (e : E) {a : A} → or_raise o e ≡ ok a → o ≡ some a
or_raise_ok none e h = cc
or_raise_ok (some b) e h = cc

pub raise_if_ok : {E : Type 0} (b : Bool) (e : E) → raise_if b e ≡ ok tt → b ≡ false
raise_if_ok true e h = cc
raise_if_ok false e h = refl

pub Returning-if :
    {E A : Type 0} (P : A → Type 0) (b : Bool) (x y : Outcome E A)
    → (b ≡ true → Returning P x)
    → (b ≡ false → Returning P y)
    → Returning P (if b then x else y)
Returning-if P true x y h k = h refl
Returning-if P false x y h k = k refl
