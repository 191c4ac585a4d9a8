-- ===== src/Simulator/Sorted.antt =====
-- The orders of a state of src/kiwit/paper_simulator.py, before it is stored and as it is read back.
use kiwi_t.Prelude.{
  String, ◌≡◌, refl, ap, ◌∙◌, sym, Bool, true, false, List, [], ◌∷◌, All, if-intro, Bool-cases, inl,
  inr, str_eq, eq_iff, compare_text, compare_refl, is_lt, Option, some, if◌then◌else◌,
}
use kiwi_t.Simulator.Types.{Order}
use kiwi_t.Simulator.Store.{text_before, insert_order, sort_orders}
use kiwi_t.Simulator.Methods.{find_order}

insert_order-All {ℓ} :
    (P : Order → Type ℓ) (o : Order) (os : List Order) → P o → All P os → All P (insert_order o os)
unfolding insert_order
insert_order-All P o [] h k = (h, tt)
insert_order-All P o (x ∷ rest) h k =
    if-intro (All P) (text_before x.id o.id) _ _ (λ _. (k.0, insert_order-All P o rest h k.1))
      (λ _. (h, k))

-- What holds of all orders holds of them in another order.
pub sort_orders-All {ℓ} : (P : Order → Type ℓ) (os : List Order) → All P os → All P (sort_orders os)
unfolding sort_orders
sort_orders-All P [] h = tt
sort_orders-All P (o ∷ rest) h =
    insert_order-All P o (sort_orders rest) h.0 (sort_orders-All P rest h.1)

-- A key does not come before itself.
text_before_irrefl : (a b : String) → a ≡ b → text_before a b ≡ false
unfolding text_before
text_before_irrefl a b e = ap (λ x. is_lt (compare_text a x)) (sym e) ∙ ap is_lt (compare_refl a)

opposite : {b : Bool} → b ≡ true → b ≡ false → ⊥
opposite h k = cc

-- Two tests that do not both hold may be made in either order.
tests_swap :
    (a b : Bool) (x o : Order) (u v : Option Order)
    → (a ≡ true → b ≡ true → ⊥)
    → u ≡ (if b then some o else v)
    → (if a then some x else u) ≡ (if b then some o else if a then some x else v)
tests_swap true true x o u v apart e = absurd (apart refl refl)
tests_swap true false x o u v apart e = refl
tests_swap false b x o u v apart e = e

find_order-insert_order :
    (id : String) (o : Order) (os : List Order)
    → find_order id (insert_order o os) ≡ find_order id (o ∷ os)
unfolding insert_order find_order
find_order-insert_order id o [] = refl
find_order-insert_order id o (x ∷ rest) = elim (Bool-cases (text_before x.id o.id)) [
  | inl before ↦ rw before (
      tests_swap (str_eq x.id id) (str_eq o.id id) x o _ _
        (λ first second.
          let same = (eq_iff x.id id).0 first ∙ sym ((eq_iff o.id id).0 second) in
          opposite before (text_before_irrefl x.id o.id same))
        (find_order-insert_order id o rest))
  | inr not_before ↦ rw not_before refl
]

-- An order is found under its key in either order.
pub find_order-sort_orders :
    (id : String) (os : List Order) → find_order id (sort_orders os) ≡ find_order id os
unfolding sort_orders find_order
find_order-sort_orders id [] = refl
find_order-sort_orders id (o ∷ rest) =
    find_order-insert_order id o (sort_orders rest)
    ∙ ap (λ found. if str_eq o.id id then some o else found) (find_order-sort_orders id rest)
