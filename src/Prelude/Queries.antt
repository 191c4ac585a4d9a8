-- ===== src/Prelude/Queries.antt =====
-- The queries of tables: the first row, all rows, and rows in an order.
use kiwi_t.Prelude.{Bool, Option, none, some, List, [], ◌∷◌, if◌then◌else◌}

-- the first row that satisfies the condition
unfoldable pub select : {A : Type 0} → (A → Bool) → List A → Option A
select p [] = none
select p (x ∷ xs) = if p x then some x else select p xs

-- the rows that satisfy the condition
unfoldable pub select_all : {A : Type 0} → (A → Bool) → List A → List A
select_all p [] = []
select_all p (x ∷ xs) = let rest = select_all p xs in if p x then x ∷ rest else rest

-- `ORDER BY`
unfoldable pub insert_row : {A : Type 0} → (A → A → Bool) → A → List A → List A
insert_row before x [] = x ∷ []
insert_row before x (y ∷ ys) =
    let rest = insert_row before x ys in if before x y then x ∷ y ∷ ys else y ∷ rest

unfoldable pub sort_rows : {A : Type 0} → (A → A → Bool) → List A → List A
sort_rows before [] = []
sort_rows before (x ∷ xs) = insert_row before x (sort_rows before xs)
