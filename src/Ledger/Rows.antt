-- ===== src/Ledger/Rows.antt =====
-- Rows that are inserted, updated and found, for the tables of src/kiwit/paper_trading.py.
use kiwi_t.Prelude.{
  ◌≡◌, refl, inl, inr, ◌⊎◌, Bool, true, false, ◌&&◌, ◌||◌, Option, none, some, List, [], ◌∷◌, any,
  if◌then◌else◌, if-intro, Bool-cases, found-cases,
}
use kiwi_t.Ledger.Tables.{find, update, insert_new}

pub or_true : (a b : Bool) → b ≡ true → a || b ≡ true
or_true true b h = refl
or_true false b h = h

pub or_left : (a b : Bool) → a ≡ true → a || b ≡ true
or_left true b h = refl
or_left false b h = cc

pub true_or : (a b : Bool) → a || b ≡ true → (a ≡ true) ⊎ (b ≡ true)
true_or true b h = inl refl
true_or false b h = inr h

-- a row stays where rows are inserted
pub any-insert_new :
    {A : Type 0} (p q : A → Bool) (row : A) (rows : List A)
    → any q rows ≡ true
    → any q (insert_new p row rows) ≡ true
unfolding insert_new
any-insert_new p q row rows h =
    if-intro (λ rs. any q rs ≡ true) (any p rows) rows (row ∷ rows) (λ _. h)
      (λ _. or_true (q row) (any q rows) h)

-- a row stays where rows are updated, if the update of it is such a row
pub any-update :
    {A : Type 0} (p q : A → Bool) (f : A → A)
    → ((x : A) → q x ≡ true → p x ≡ true → q (f x) ≡ true)
    → (rows : List A) → any q rows ≡ true
    → any q (update p f rows) ≡ true
unfolding update
any-update p q f keep [] h = h
any-update p q f keep (x ∷ xs) h = elim (true_or (q x) (any q xs) h) [
  | inl here ↦
      or_left _ _
        (if-intro (λ y. q y ≡ true) (p x) (f x) x (λ touched. keep x here touched) (λ _. here))
  | inr later ↦ or_true _ _ (any-update p q f keep xs later)
]

conflict_of : {P : Type 0} (b : Bool) → b ≡ true → b ≡ false → P
conflict_of true h k = cc
conflict_of false h k = cc

-- an updated row
pub any_updated :
    {A : Type 0} (p q : A → Bool) (f : A → A)
    → ((x : A) → p x ≡ true → q (f x) ≡ true)
    → (rows : List A) → any p rows ≡ true
    → any q (update p f rows) ≡ true
unfolding update
any_updated p q f made [] h = cc
any_updated p q f made (x ∷ xs) h = elim (Bool-cases (p x)) [
  | inl here ↦ or_left _ _ (
      if-intro (λ y. q y ≡ true) (p x) (f x) x (λ _. made x here) (λ no. conflict_of (p x) here no))
  | inr other ↦ or_true _ _ (any_updated p q f made xs (rw other at h))
]

pub both : (a b : Bool) → a && b ≡ true → (a ≡ true) × (b ≡ true)
both true b h = (refl, h)
both false b h = cc

pub any_mono :
    {A : Type 0} (p q : A → Bool)
    → ((x : A) → p x ≡ true → q x ≡ true)
    → (rows : List A) → any p rows ≡ true
    → any q rows ≡ true
any_mono p q f [] h = h
any_mono p q f (x ∷ xs) h = elim (true_or (p x) (any p xs) h) [
  | inl here ↦ or_left _ _ (f x here)
  | inr later ↦ or_true _ _ (any_mono p q f xs later)
]

-- A search that finds nothing.
pub find_absent :
    {A : Type 0} (p : A → Bool) (rows : List A) → find p rows ≡ none → any p rows ≡ false
unfolding find
find_absent p [] h = refl
find_absent p (x ∷ xs) h = elim (Bool-cases (p x)) [
  | inl here ↦ cc (rw here at h)
  | inr other ↦ rw other (find_absent p xs (rw other at h))
]

pub find_found :
    {A : Type 0} (p : A → Bool) (rows : List A) {a : A} → find p rows ≡ some a → p a ≡ true
unfolding find
find_found p [] h = cc
find_found p (x ∷ xs) h = elim (found-cases (p x) x (find p xs) h) [
  | inl (here, same) ↦ rw⁻¹ same here
  | inr (_, later) ↦ find_found p xs later
]

-- The row that is found is found updated, if it still satisfies the condition.
pub find_updated :
    {A : Type 0} (p : A → Bool) (f : A → A)
    → ((x : A) → p x ≡ true → p (f x) ≡ true)
    → (rows : List A) {a : A} → find p rows ≡ some a
    → find p (update p f rows) ≡ some (f a)
unfolding find update
find_updated {A} p f keep [] h = cc
find_updated {A} p f keep (x ∷ xs) {a} h = elim (found-cases (p x) x (find p xs) h) [
  | inl (here, same) ↦ touched (p x) x a (find p (update p f xs)) here same (keep x here)
  | inr (other, later) ↦
      left (p x) x (find p (update p f xs)) other other (find_updated p f keep xs later)
]
  where
    touched :
        (b : Bool) (x a : A) (rest : Option A)
        → b ≡ true
        → x ≡ a
        → p (f x) ≡ true
        → (if p (if b then f x else x) then some (if b then f x else x) else rest) ≡ some (f a)
    touched true x a rest h same k = rw k (rw same refl)
    touched false x a rest h same k = cc

    left :
        (b : Bool) (x : A) (rest : Option A)
        → b ≡ false
        → p x ≡ false
        → rest ≡ some (f a)
        → (if p (if b then f x else x) then some (if b then f x else x) else rest) ≡ some (f a)
    left true x rest h k e = cc
    left false x rest h k e = rw k e

-- A search that finds a row.
pub find_present :
    {A : Type 0} (p : A → Bool) (rows : List A) {a : A} → find p rows ≡ some a → any p rows ≡ true
unfolding find
find_present p [] h = cc
find_present p (x ∷ xs) h = elim (found-cases (p x) x (find p xs) h) [
  | inl (here, _) ↦ or_left _ _ here
  | inr (_, later) ↦ or_true _ _ (find_present p xs later)
]
