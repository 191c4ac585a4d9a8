-- ===== src/Simulator/Guarantees.antt =====
-- What a user of `PaperSimulator` in src/kiwit/paper_simulator.py can rely on.
use kiwi_t.Prelude.{
  ℕ, ◌+◌, ◌≤◌, ◌<◌, String, ◌≡◌, refl, sym, subst, Bool, true, false, not, none, some, List, arith,
  ok, ◌++◌, [], ◌∷◌, Returning, Returning-eq, Returning-then, All, raise_if, ltb, ◌==◌, ◌&&◌,
}
use kiwi_t.Prelude.Int.{ℤ, pos, ◌+ℤ◌, ◌≤ℤ◌, int_laws, parts_of_eq, eq_of_parts}
use kiwi_t.Calendar.{TradingCalendar}
use kiwi_t.Simulator.Types.{
  FillRules, Quote, Order, Metadata, Account, Kind, pending, opened, invalid_fill_costs,
  positive_capital_required,
}
use kiwi_t.Simulator.Price.{price, notional, fee_of}
use kiwi_t.Simulator.Step.{
  is_live, quote_order, is_refused, fill_risk, in_geometry, fill_order, close_order,
}
use kiwi_t.Simulator.Store.{Codec, Database, initialize, initial_state, state_row}
use kiwi_t.Simulator.Methods.{Call, run, portfolio, find_order}
use kiwi_t.Simulator.Quoted.{
  Quoted, untouched, expired, refused, taken, watched, left, QuotedFlagged, quote_order-Quoted,
}
use kiwi_t.Simulator.Invariant.{run-Holds}
use kiwi_t.Simulator.Conservation.{IsBalanced, IsBalanced-IsKept, locked_sum}
use kiwi_t.Simulator.Sound.{IsSound, AllSound, AllSound-IsKept}
use kiwi_t.Simulator.Equity.{sum_held-Sums}
use kiwi_t.Simulator.Seals.{IsSealed, Extends, run-Extends, verified_state-sealed}
use kiwi_t.Simulator.Lifecycle.{◌⟶◌, SameTerms, Quoted-⟶, Quoted-SameTerms, Finds-IsKept}

-- a database as `__init__` leaves a new file
abbrev pub IsFresh : Codec → Metadata → Database → Type 0
IsFresh c m db = (db.state.payload ≡ initial_state m) × IsSealed c db

initialize-IsFresh : (c : Codec) (m : Metadata) → Returning (IsFresh c m) (initialize c m none)
unfolding initialize state_row
initialize-IsFresh c m =
    Returning-then (IsFresh c m)
      (raise_if (not (ltb m.rules.slippage m.rules.scale && ltb m.rules.fee m.rules.scale))
        invalid_fill_costs)
      _
      (λ _.
        Returning-then (IsFresh c m) (raise_if (m.initial_capital == 0) positive_capital_required) _
          (λ _. (refl, record { state_verifies = refl; rows_verify = tt })))

module _ (c : Codec) (calendar : TradingCalendar) (m : Metadata) (db : Database)
    (fresh : initialize c m none ≡ ok db) (xs : List Call) where
  at_start : IsFresh c m db
  at_start = Returning-eq (IsFresh c m) _ (initialize-IsFresh c m) fresh

  final : Database
  final = run c calendar m.rules xs db

  balanced : IsBalanced m.initial_capital final.state.payload
  unfolding final initial_state locked_sum
  balanced =
      run-Holds c calendar m.rules (IsBalanced m.initial_capital)
        (IsBalanced-IsKept calendar m.rules m.initial_capital) xs db
        (subst (IsBalanced m.initial_capital) (sym at_start.0) (omega int_laws))

  sound : AllSound final.state.payload
  unfolding final initial_state
  sound =
      run-Holds c calendar m.rules AllSound (AllSound-IsKept calendar m.rules) xs db
        (subst AllSound (sym at_start.0) tt)

-- From a new simulator, over any calls, those that raise included, the cash together with the
-- collateral and entry fees of the held positions equals the initial capital plus the realized
-- profit.
pub conservation :
    (c : Codec) (calendar : TradingCalendar) (m : Metadata) (db : Database)
    → initialize c m none ≡ ok db
    → (xs : List Call)
    → let s = (run c calendar m.rules xs db).state.payload in
      s.account.cash +ℤ pos (locked_sum s.orders) ≡ pos m.initial_capital +ℤ s.account.realized_pnl
unfolding final
conservation c calendar m db fresh xs = balanced c calendar m db fresh xs

-- From a new simulator, over any calls, every stored order is sound: it has as many fills as its
-- status says, a held order has its entry and its mark, a closed one its realized profit, its
-- quantity is positive, and stop and target lie on the sides that its direction asks for.
pub orders-IsSound :
    (c : Codec) (calendar : TradingCalendar) (m : Metadata) (db : Database)
    → initialize c m none ≡ ok db
    → (xs : List Call) → All IsSound (run c calendar m.rules xs db).state.payload.orders
unfolding final
orders-IsSound c calendar m db fresh xs = sound c calendar m db fresh xs

-- From a new simulator, over any calls, `portfolio` returns, and the equity that it reports is the
-- initial capital plus the realized profit plus the unrealized profit that it reports.
pub portfolio_adds_up :
    (c : Codec) (calendar : TradingCalendar) (m : Metadata) (db : Database)
    → initialize c m none ≡ ok db
    → (xs : List Call)
    → let last = run c calendar m.rules xs db in
      (t : ℤ × ℤ) × (portfolio c m.rules last ≡ ok t)
      × (t.0 ≡ pos m.initial_capital +ℤ last.state.payload.account.realized_pnl +ℤ t.1)
unfolding portfolio
portfolio_adds_up c calendar m db fresh xs =
    let last = run c calendar m.rules xs db in
    let s = last.state.payload in
    let seal =
      (run-Extends c calendar m.rules xs db (at_start c calendar m db fresh xs).1).is_sealed in
    let (t, returns, sums) =
      sum_held-Sums m.rules (s.account.cash, pos 0) s.orders
        (orders-IsSound c calendar m db fresh xs) in
    (
      t,
      rw (verified_state-sealed c last seal) returns,
      eq_of_parts _ _ (
          omega (
            int_laws,
            parts_of_eq _ _ sums,
            parts_of_eq _ _ (conservation c calendar m db fresh xs),
          )),
    )

-- From a new simulator, over any calls, every stored row verifies against its digest; and any
-- further calls do not move the stored clock back.
pub rows_verify_and_clock_advances :
    (c : Codec) (calendar : TradingCalendar) (m : Metadata) (db : Database)
    → initialize c m none ≡ ok db
    → (xs ys : List Call)
    → let middle = run c calendar m.rules xs db in
      IsSealed c middle × Extends c middle (run c calendar m.rules ys middle)
rows_verify_and_clock_advances c calendar m db fresh xs ys =
    let middle = run c calendar m.rules xs db in
    let seal =
      (run-Extends c calendar m.rules xs db (at_start c calendar m db fresh xs).1).is_sealed in
    (seal, run-Extends c calendar m.rules ys middle seal)

-- An order that is closed, cancelled or rejected is found unchanged after any further calls.
pub dead_order_stays :
    (c : Codec) (calendar : TradingCalendar) (r : FillRules) (db : Database) (id : String)
    (o : Order)
    → is_live o.status ≡ false
    → find_order id db.state.payload.orders ≡ some o
    → (xs : List Call) → find_order id (run c calendar r xs db).state.payload.orders ≡ some o
dead_order_stays c calendar r db id o dead found xs =
    run-Holds c calendar r (λ s. find_order id s.orders ≡ some o)
      (Finds-IsKept id o dead calendar r) xs db found

-- A quote moves an order along the steps of its life cycle only, and keeps its key, side, quantity,
-- stop, target, risk budget and session end.
pub quote_order-steps :
    (r : FillRules) (q : Quote) (now : ℕ) (acct : Account) (o : Order) (p : Account × Order × Bool)
    → quote_order r q now acct o ≡ ok p
    → (o.status ⟶ p.1.status) × SameTerms o p.1
quote_order-steps r q now acct o p h =
    let quoted =
      Returning-eq (QuotedFlagged r q now acct o) _ (quote_order-Quoted r q now acct o) h in
    (Quoted-⟶ r q now acct o (p.0, p.1) quoted, Quoted-SameTerms r q now acct o (p.0, p.1) quoted)

-- the fill lies strictly between the stop and the target, on the side of the order
abbrev pub Between : Bool → ℕ → ℕ → ℕ → Type 0
Between true stop fill target = (stop < fill) × (fill < target)
Between false stop fill target = (target < fill) × (fill < stop)

-- What the gate before a fill has let through, and the order and the cash that the fill leaves.
pub record Admitted (r : FillRules) (q : Quote) (now : ℕ) (o : Order) (acct : Account)
    (p : Account × Order) : Type 0 where
  pub fill : ℕ
  pub executable : price r q o.long ≡ ok fill
  pub between : Between o.long o.stop fill o.target
  pub affordable_risk : fill_risk r q o fill ≤ o.risk_budget
  pub position :
      p.1.entered
      ≡ some (record {
        price = fill;
        fee = fee_of r fill o.quantity;
        collateral = notional r fill o.quantity;
      })
  pub recorded :
      p.1.fills
      ≡ o.fills
        ++ (record { at = now; price = fill; fee = fee_of r fill o.quantity; kind = Kind.entry })
          ∷ []
  pub paid :
      p.0.cash +ℤ pos (notional r fill o.quantity) +ℤ pos (fee_of r fill o.quantity) ≡ acct.cash
  pub solvent : pos 0 ≤ℤ p.0.cash

geometry-Between :
    (long : Bool) (o : Order) (fill : ℕ)
    → o.long ≡ long
    → in_geometry o fill ≡ true
    → Between long o.stop fill o.target
unfolding in_geometry
geometry-Between true o fill e h = ground arith
geometry-Between false o fill e h = ground arith

gate_facts :
    (r : FillRules) (q : Quote) (acct : Account) (o : Order) (fill : ℕ)
    → is_refused r q acct o fill ≡ false
    → (in_geometry o fill ≡ true)
      × (fill_risk r q o fill ≤ o.risk_budget)
      × (pos (notional r fill o.quantity + fee_of r fill o.quantity) ≤ℤ acct.cash)
unfolding is_refused
gate_facts r q acct o fill h = ground arith

taken-Admitted :
    (r : FillRules) (q : Quote) (now : ℕ) (acct : Account) (o : Order) (fill : ℕ)
    → price r q o.long ≡ ok fill
    → is_refused r q acct o fill ≡ false
    → Admitted r q now o acct (fill_order r q now acct o fill)
unfolding fill_order
taken-Admitted r q now acct o fill e k =
    let (inside, risk, cash) = gate_facts r q acct o fill k in
    record {
      fill = fill;
      executable = e;
      between = geometry-Between o.long o fill refl inside;
      affordable_risk = risk;
      position = refl;
      recorded = refl;
      paid = eq_of_parts _ _ (omega int_laws);
      solvent = omega int_laws;
    }

opened-Admitted :
    (r : FillRules) (q : Quote) (now : ℕ) (acct : Account) (o : Order) (p : Account × Order)
    → Quoted r q now acct o p
    → o.status ≡ pending
    → p.1.status ≡ opened
    → Admitted r q now o acct p
unfolding close_order
opened-Admitted r q now acct o _ untouched h k = absurd (ground arith)
opened-Admitted r q now acct o _ (expired x y) h k = cc
opened-Admitted r q now acct o _ (refused fill x y z) h k = cc
opened-Admitted r q now acct o _ (taken fill x e z) h k = taken-Admitted r q now acct o fill e z
opened-Admitted r q now acct o _ (watched x y) h k = absurd (ground arith)
opened-Admitted r q now acct o _ (left fill e x y z there) h k = cc

-- A pending order that a quote opens is filled at the executable price, which lies strictly between
-- its stop and its target, with a planned risk within its budget. The order has that price, its fee
-- and its notional as its entry, and one more fill that says so; the notional and the fee are paid
-- from the cash, and what is left is not negative.
pub fill_gate :
    (r : FillRules) (q : Quote) (now : ℕ) (acct : Account) (o : Order) (p : Account × Order × Bool)
    → quote_order r q now acct o ≡ ok p
    → o.status ≡ pending
    → p.1.status ≡ opened
    → Admitted r q now o acct (p.0, p.1)
fill_gate r q now acct o p h =
    opened-Admitted r q now acct o (p.0, p.1)
      (Returning-eq (QuotedFlagged r q now acct o) _ (quote_order-Quoted r q now acct o) h)
