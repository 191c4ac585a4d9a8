-- ===== src/Execution/FillLaws.antt =====
-- `FillAccumulator` of src/kiwit/execution.py: the order is not exceeded, a fill is counted once,
-- and the order in which fills arrive does not matter.
use kiwi_t.Prelude.{
  ℕ, ◌+◌, ◌≤◌, ◌≡◌, refl, ap, subst, ==_iff, ◌∙◌, inl, inr, ◌⊎◌, String, ◌||◌, ltb, ◌==◌, Option,
  none, some, List, [], ◌∷◌, ◌++◌, arith, Outcome, ok, err, raise_if, raise_if_ok, Bool-cases,
  str_eq, eq_iff, Returning, Returning-bind, Returning-then, Returning-eq, Outcome-cases,
}
use kiwi_t.Execution.Fills.{
  FillFailure, FillAccumulator, FillStatus, new_accumulator, get, sum_fills, status_of, accumulate,
  record_fill, after, record_all,
}

-- The fills are within the order.
abbrev pub IsWithin : ℕ → FillAccumulator → Type 0
IsWithin q a = (a.ordered_quantity ≡ q) × (sum_fills a.fills ≤ q)

pub sum_fills-snoc :
    (xs : List (String × ℕ)) (id : String) (q : ℕ)
    → sum_fills (xs ++ (id, q) ∷ []) ≡ sum_fills xs + q
unfolding sum_fills
sum_fills-snoc [] id q = omega arith
sum_fills-snoc (x ∷ xs) id q = omega (arith, sum_fills-snoc xs id q)

accumulate-IsWithin :
    (n : ℕ) (a : FillAccumulator) (id : String) (q : ℕ) (found : Option ℕ)
    → IsWithin n a
    → Returning (IsWithin n) (accumulate a id q found)
unfolding accumulate
accumulate-IsWithin n a id q (some previous) h = Returning-then (IsWithin n) _ (ok a) (λ _. h)
accumulate-IsWithin n a id q none h =
    Returning-then (IsWithin n) _ (ok (record a { fills = a.fills ++ (id, q) ∷ [] }))
      (λ fits. (h.0, ground (arith, raise_if_ok _ _ fits, sum_fills-snoc a.fills id q, h.0)))

after-IsWithin :
    (n : ℕ) (a : FillAccumulator) (r : Outcome FillFailure (FillStatus × FillAccumulator))
    → IsWithin n a
    → Returning (λ s. IsWithin n s.1) r
    → IsWithin n (after a r)
unfolding after
after-IsWithin n a (ok r) h k = k
after-IsWithin n a (err e) h k = h

record_fill-IsWithin :
    (n : ℕ) (a : FillAccumulator) (id : String) (q : ℕ)
    → IsWithin n a
    → Returning (λ s. IsWithin n s.1) (record_fill a id q)
unfolding record_fill
record_fill-IsWithin n a id q h =
    Returning-then (λ s. IsWithin n s.1) (raise_if (str_eq id "" || q == 0) _) _
      (λ _.
        Returning-bind (λ s. IsWithin n s.1) (accumulate a id q (get id a.fills)) _
          (λ b e.
            Returning-eq (IsWithin n) (accumulate a id q (get id a.fills))
              (accumulate-IsWithin n a id q (get id a.fills) h) e))

all-IsWithin :
    (n : ℕ) (calls : List (String × ℕ)) (a : FillAccumulator)
    → IsWithin n a
    → IsWithin n (record_all a calls)
unfolding record_all
all-IsWithin n [] a h = h
all-IsWithin n ((id, q) ∷ rest) a h =
    all-IsWithin n rest (after a (record_fill a id q))
      (after-IsWithin n a (record_fill a id q) h (record_fill-IsWithin n a id q h))

new_accumulator-IsWithin : (n : ℕ) → Returning (IsWithin n) (new_accumulator n)
unfolding new_accumulator sum_fills
new_accumulator-IsWithin n = ground arith

-- Whatever calls are made of a new accumulator, those that raise included, the fills that it has counted
-- never exceed the ordered quantity.
pub record_all-IsWithin :
    (n : ℕ) (a : FillAccumulator) (calls : List (String × ℕ))
    → new_accumulator n ≡ ok a
    → IsWithin n (record_all a calls)
record_all-IsWithin n a calls h =
    all-IsWithin n calls a
      (Returning-eq (IsWithin n) (new_accumulator n) (new_accumulator-IsWithin n) h)

get-snoc :
    (xs : List (String × ℕ)) (id : String) (q : ℕ)
    → get id xs ≡ none
    → get id (xs ++ (id, q) ∷ []) ≡ some q
unfolding get
get-snoc [] id q h = rw ((eq_iff id id).1 refl) refl
get-snoc ((k, p) ∷ rest) id q h = elim (Bool-cases (str_eq k id)) [
  | inl same ↦ cc (rw same at h)
  | inr other ↦ rw other (get-snoc rest id q (rw other at h))
]

-- A second call with a quantity that is there already.
accumulate-same : (a : FillAccumulator) (id : String) (q : ℕ) → accumulate a id q (some q) ≡ ok a
unfolding accumulate
accumulate-same a id q = rw ((==_iff q q).1 refl) refl

-- What `accumulate` returns was there before, or is appended.
accumulate-ok :
    (a b : FillAccumulator) (id : String) (q : ℕ) (found : Option ℕ)
    → accumulate a id q found ≡ ok b
    → ((found ≡ some q) × (a ≡ b))
      ⊎ ((found ≡ none)
          × (sum_fills a.fills + q ≤ a.ordered_quantity)
          × (record a { fills = a.fills ++ (id, q) ∷ [] } ≡ b))
unfolding accumulate
accumulate-ok a b id q (some previous) h = elim (Bool-cases (previous == q)) [
  | inl same ↦ inl (ap some ((==_iff previous q).0 same), cc (rw same at h))
  | inr other ↦ cc (rw other at h)
]
accumulate-ok a b id q none h = elim (Bool-cases (ltb a.ordered_quantity (sum_fills a.fills + q))) [
  | inl full ↦ cc (rw full at h)
  | inr fits ↦ inr (refl, ground arith, cc (rw fits at h))
]

accumulate-again :
    (a b : FillAccumulator) (id : String) (q : ℕ)
    → accumulate a id q (get id a.fills) ≡ ok b
    → accumulate b id q (get id b.fills) ≡ ok b
accumulate-again a b id q h = elim (accumulate-ok a b id q (get id a.fills) h) [
  | inl (there, same) ↦
      subst (λ (x : FillAccumulator). accumulate x id q (get id x.fills) ≡ ok x) same
        (rw there (accumulate-same a id q))
  | inr (absent, fits, new) ↦
      subst (λ (x : FillAccumulator). accumulate x id q (get id x.fills) ≡ ok x) new
        (rw (get-snoc a.fills id q absent) (accumulate-same _ id q))
]

-- the state and the answer of a call that returns
returned :
    (c b : FillAccumulator) (s : FillStatus)
    (r : Outcome FillFailure (FillStatus × FillAccumulator))
    → r ≡ ok (status_of c, c)
    → r ≡ ok (s, b)
    → (c ≡ b) × (status_of b ≡ s)
returned c b s r h k = let same : c ≡ b = cc in (same, cc)

-- A fill that was recorded is recorded again, as when the broker reports it twice, with the same
-- answer and without a change.
pub record_fill-again :
    (a b : FillAccumulator) (id : String) (q : ℕ) (s : FillStatus)
    → record_fill a id q ≡ ok (s, b)
    → record_fill b id q ≡ ok (s, b)
unfolding record_fill
record_fill-again a b id q s h = elim (Bool-cases (str_eq id "" || q == 0)) [
  | inl bad ↦ cc (rw bad at h)
  | inr good ↦
      let h' = rw good at h in
      elim (Outcome-cases (accumulate a id q (get id a.fills))) [
        | inl (c, e) ↦
            let (state, answer) = returned c b s _ refl (rw e at h') in
            rw good (rw (accumulate-again a b id q (e ∙ ap ok state)) (rw answer refl))
        | inr (x, e) ↦ cc (rw e at h')
      ]
]
