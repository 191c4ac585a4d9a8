-- ===== src/Execution/Fills.antt =====
-- `FillAccumulator` of src/kiwit/execution.py. A quantity that is not positive is 0 here.
use kiwi_t.Prelude.{
  ℕ, ◌+◌, ◌-◌, String, Bool, not, ◌||◌, ltb, ◌==◌, Option, none, some, List, [], ◌∷◌, ◌++◌, Outcome,
  ok, err, ◌>>=◌, ◌>>◌, raise_if, if◌then◌else◌, str_eq,
}

pub data FillFailure : Type 0 where
  ordered_quantity_not_positive invalid_fill conflicting_quantity fills_exceed_order : FillFailure

-- `_fills` is a dict, in the order of insertion
pub record FillAccumulator : Type 0 where
  pub ordered_quantity : ℕ
  pub fills : List (String × ℕ)

-- what `record` returns; `is_filled` tells "filled" from "partially_filled"
pub record FillStatus : Type 0 where
  pub filled_quantity : ℕ
  pub remaining_quantity : ℕ
  pub is_filled : Bool

-- `__init__`
unfoldable pub new_accumulator : ℕ → Outcome FillFailure FillAccumulator
new_accumulator q = do
  raise_if (q == 0) ordered_quantity_not_positive
  ok (record { ordered_quantity = q; fills = [] })

-- `dict.get`
unfoldable pub get : String → List (String × ℕ) → Option ℕ
get id [] = none
get id ((k, q) ∷ rest) = if str_eq k id then some q else get id rest

-- `sum(dict.values())`
unfoldable pub sum_fills : List (String × ℕ) → ℕ
sum_fills [] = 0
sum_fills ((k, q) ∷ rest) = q + sum_fills rest

unfoldable pub status_of : FillAccumulator → FillStatus
status_of a = record {
  filled_quantity = sum_fills a.fills;
  remaining_quantity = a.ordered_quantity - sum_fills a.fills;
  is_filled = sum_fills a.fills == a.ordered_quantity;
}

-- the branches on the fill that `get` found
unfoldable pub accumulate :
    FillAccumulator → String → ℕ → Option ℕ → Outcome FillFailure FillAccumulator
accumulate a id q (some previous) = do raise_if (not (previous == q)) conflicting_quantity; ok a
accumulate a id q none = do
  raise_if (ltb a.ordered_quantity (sum_fills a.fills + q)) fills_exceed_order
  ok (record a { fills = a.fills ++ (id, q) ∷ [] })

-- `record`, the state and what is returned
unfoldable pub record_fill :
    FillAccumulator → String → ℕ → Outcome FillFailure (FillStatus × FillAccumulator)
record_fill a id q = do
  raise_if (str_eq id "" || q == 0) invalid_fill
  a' ← accumulate a id q (get id a.fills)
  ok (status_of a', a')

-- the state after a call, which a call that raises leaves as it was
unfoldable pub after :
    FillAccumulator → Outcome FillFailure (FillStatus × FillAccumulator) → FillAccumulator
after a (ok r) = r.1
after a (err e) = a

-- a sequence of calls
unfoldable pub record_all : FillAccumulator → List (String × ℕ) → FillAccumulator
record_all a [] = a
record_all a ((id, q) ∷ rest) = record_all (after a (record_fill a id q)) rest
