-- ===== src/Simulator/Equity.antt =====
-- `portfolio` returns for every sound state, and its equity is the cash with what positions hold.
use kiwi_t.Prelude.{
  ℕ, ◌≡◌, refl, inl, inr, true, Option, none, some, List, [], ◌∷◌, arith, Outcome, ok, is_some, ap,
  Bool-cases, All,
}
use kiwi_t.Prelude.Int.{ℤ, pos, ◌+ℤ◌, ◌-ℤ◌, int_laws, parts_of_eq}
use kiwi_t.Simulator.Types.{FillRules, Order, Entry, Failure}
use kiwi_t.Simulator.Price.{gross}
use kiwi_t.Simulator.Step.{is_held}
use kiwi_t.Simulator.Methods.{add_held, sum_held}
use kiwi_t.Simulator.Conservation.{
  locked, locked_sum, held_amount, locked_of_held, locked_of_unheld,
}
use kiwi_t.Simulator.Sound.{IsSound}

-- The sum returns, and equity less unrealized profit has grown by `amount`.
abbrev pub Sums : ℤ × ℤ → ℕ → Outcome Failure (ℤ × ℤ) → Type 0
Sums acc amount m = (t : ℤ × ℤ) × (m ≡ ok t) × (t.0 -ℤ t.1 ≡ acc.0 -ℤ acc.1 +ℤ pos amount)

some_of_is_some {ℓ} : {A : Type ℓ} (o : Option A) → is_some o ≡ true → (a : A) × (o ≡ some a)
some_of_is_some none h = cc
some_of_is_some (some a) h = (a, refl)

reads :
    (r : FillRules) (acc : ℤ × ℤ) (o : Order) (mark : ℕ) (e : Entry)
    → o.mark ≡ some mark
    → o.entered ≡ some e
    → add_held r acc o
      ≡ ok (
        acc.0 +ℤ (pos e.collateral +ℤ gross r o.long e.price mark o.quantity),
        acc.1 +ℤ (gross r o.long e.price mark o.quantity -ℤ pos e.fee),
      )
unfolding add_held
reads r acc o mark e there entered = ground arith

add_held-Sums :
    (r : FillRules) (acc : ℤ × ℤ) (o : Order)
    → IsSound o
    → is_held o.status ≡ true
    → Sums acc (locked o) (add_held r acc o)
add_held-Sums r acc o h k =
    let (mark, there) = some_of_is_some o.mark (h.marked_if_held k) in
    let (e, entered) = some_of_is_some o.entered (h.entered_if_held k) in
    (
      (
        acc.0 +ℤ (pos e.collateral +ℤ gross r o.long e.price mark o.quantity),
        acc.1 +ℤ (gross r o.long e.price mark o.quantity -ℤ pos e.fee),
      ),
      reads r acc o mark e there entered,
      rw (locked_of_held o.status o.entered k, ap held_amount entered) (omega int_laws),
    )

pub sum_held-Sums :
    (r : FillRules) (acc : ℤ × ℤ) (os : List Order)
    → All IsSound os
    → Sums acc (locked_sum os) (sum_held r acc os)
unfolding sum_held locked_sum
sum_held-Sums r acc [] h = (acc, refl, omega int_laws)
sum_held-Sums r acc (o ∷ rest) h = elim (Bool-cases (is_held o.status)) [
  | inl held ↦
      let (t, e, d) = add_held-Sums r acc o h.0 held in
      let (u, e', d') = sum_held-Sums r t rest h.1 in
      (u, rw held (rw e e'), omega (int_laws, parts_of_eq _ _ d, parts_of_eq _ _ d'))
  | inr loose ↦
      let (u, e', d') = sum_held-Sums r acc rest h.1 in
      (
        u,
        rw loose e',
        rw (locked_of_unheld o.status o.entered loose) (omega (int_laws, parts_of_eq _ _ d')),
      )
]
