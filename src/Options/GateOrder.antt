-- ===== src/Options/GateOrder.antt =====
-- The order of the reasons of `ordered_entry_reasons` of src/kiwit/options_policy.py.
use kiwi_t.Prelude.{
  ℕ, ◌+◌, ◌≤◌, ◌≡◌, refl, Bool, true, false, ◌||◌, ltb, ◌==◌, List, [], ◌∷◌, arith, if-intro,
}
use kiwi_t.Options.Gate.{EntryReason, priority, insert, ordered_entry_reasons}

-- a list of reasons of ascending priority
abbrev pub Ascending : ℕ → List EntryReason → Type 0
Ascending low [] = Unit
Ascending low (r ∷ rs) = (low ≤ priority r) × Ascending (priority r + 1) rs

-- a reason is in a list
abbrev pub has : EntryReason → List EntryReason → Bool
has r [] = false
has r (x ∷ xs) = (priority r == priority x) || has r xs

insert-Ascending :
    (r : EntryReason) (low : ℕ) (rs : List EntryReason)
    → low ≤ priority r
    → Ascending low rs
    → Ascending low (insert r rs)
unfolding insert
insert-Ascending r low [] h k = (h, tt)
insert-Ascending r low (x ∷ xs) h k =
    if-intro (Ascending low) (ltb (priority r) (priority x)) _ _
      (λ before. (h, (ground arith, k.1)))
      (λ after.
        if-intro (Ascending low) (priority r == priority x) _ _ (λ same. k)
          (λ other. (k.0, insert-Ascending r (priority x + 1) xs (ground arith) k.1)))

swapped : (a b c : Bool) → b || (a || c) ≡ a || (b || c)
swapped true true c = refl
swapped true false c = refl
swapped false b c = refl

insert-has :
    (q r : EntryReason) (rs : List EntryReason)
    → has q (insert r rs) ≡ (priority q == priority r) || has q rs
unfolding insert
insert-has q r [] = refl
insert-has q r (x ∷ xs) =
    let P : List EntryReason → Type 0 =
      λ l. has q l ≡ (priority q == priority r) || ((priority q == priority x) || has q xs) in
    if-intro P (ltb (priority r) (priority x)) _ _ (λ before. refl)
      (λ after.
        if-intro P (priority r == priority x) _ _ (λ same. ground arith)
          (λ other.
            rw (insert-has q r xs)
              (swapped (priority q == priority r) (priority q == priority x) (has q xs))))

-- The codes of the gate stand in the order of their precedence, each once, and are the reasons found.
pub ordered_entry_reasons-Ascending :
    (q : EntryReason) (rs : List EntryReason)
    → Ascending 0 (ordered_entry_reasons rs) × (has q (ordered_entry_reasons rs) ≡ has q rs)
unfolding ordered_entry_reasons
ordered_entry_reasons-Ascending q [] = (tt, refl)
ordered_entry_reasons-Ascending q (r ∷ rs) =
    let (up, same) = ordered_entry_reasons-Ascending q rs in
    (
      insert-Ascending r 0 (ordered_entry_reasons rs) (omega arith) up,
      rw (insert-has q r (ordered_entry_reasons rs)) (rw same refl),
    )
