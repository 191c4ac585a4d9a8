-- ===== src/Planning/Soundness.antt =====
-- What a calculated plan of src/kiwit/sizing.py keeps.
use kiwi_t.Prelude.{
  ℕ, zero, suc, ◌+◌, ◌*◌, ◌/◌, ◌≤◌, ◌<◌, ◌≡◌, refl, Bool, true, false, not, ◌&&◌, ◌||◌, ltb, ◌==◌,
  Option, none, some, List, ◌++◌, min, if◌then◌else◌, if-intro, is_nonempty, arith,
}
use native.Mathlib.Nat.{div-zero, mul-div-le, le-div_iff_mul-le, mul_comm, mul_assoc}
use kiwi_t.Planning.Rules.{unit, SizingRules, SizingInput}
use kiwi_t.Planning.Plan.{
  calculated_requires_risk, Levels, Plan, rejected, PlanReason, gap, is_long, is_invalid_input,
  is_atr_missing, plan_levels, per_unit_loss, is_invalid_geometry, is_insufficient, risk_budget,
  unit_cap, plan_quantity, reason_if, priced_reasons, priced_plan, level_plan, calculate_plan,
  insufficient_net_reward_risk, below_minimum_lot,
}

-- The stop is on the losing side of the entry, and the target on the winning one.
abbrev pub IsStraddled : Bool → Levels → Type 0
IsStraddled true l = (l.stop < l.entry) × (l.entry < l.target)
IsStraddled false l = (l.target < l.entry) × (l.entry < l.stop)

-- What the quantity of a plan at its levels keeps.
pub record IsSound (i : SizingInput) (r : SizingRules) (l : Levels) (quantity : ℕ) : Type 0 where
  pub straddled : IsStraddled (is_long i) l
  pub positive : (0 < l.entry) × (0 < l.stop) × (0 < l.target)
  pub some_lots : (k : ℕ) × (quantity ≡ k * i.lot_size)
  pub some_units : 0 < quantity
  pub within_risk :
      unit * (per_unit_loss i l * quantity) ≤ i.equity * min r.risk_fraction r.maximum_risk_fraction
  pub within_capital : (l.entry + i.entry_cost_per_unit) * quantity ≤ i.available_capital
  pub within_maximum : quantity ≤ r.maximum_quantity
  pub rewarded :
      r.minimum_net_reward_risk * per_unit_loss i l + i.round_trip_cost_per_unit * unit
      ≤ gap l.target l.entry * unit

-- A plan that is sound at the levels that it reports.
pub record Reported (i : SizingInput) (r : SizingRules) (p : Plan) : Type 0 where
  pub levels : p.levels ≡ some (plan_levels i r)
  pub loss : p.planned_loss ≡ some (per_unit_loss i (plan_levels i r) * p.quantity)
  pub sound : IsSound i r (plan_levels i r) p.quantity

-- a plan is sound if it was calculated
abbrev IsCalculated : SizingInput → SizingRules → Plan → Type 0
IsCalculated i r p = p.status ≡ calculated_requires_risk → Reported i r p

-- units within a quotient
quotient-fits : (a d n : ℕ) → 0 < n → n ≤ a / d → d * n ≤ a
quotient-fits a zero n h k = absurd (omega (arith, h, k, div-zero a))
quotient-fits a (suc d) n h k =
    omega
      (arith, (le-div_iff_mul-le {k = suc d} {x = n} {y = a} (omega arith)).0 k, mul_comm n (suc d))

geometry-IsStraddled :
    (i : SizingInput) (l : Levels)
    → is_invalid_geometry i l ≡ false
    → IsStraddled (is_long i) l × (0 < l.entry) × (0 < l.stop) × (0 < l.target)
unfolding is_invalid_geometry
geometry-IsStraddled i l h = (sides (is_long i) h, ground arith, ground arith, ground arith)
  where
    sides :
        (long : Bool)
        → (min l.entry (min l.stop l.target) == 0
            || (gap l.entry l.stop == 0
                || not (
                    if long
                    then ltb l.stop l.entry && ltb l.entry l.target
                    else ltb l.target l.entry && ltb l.entry l.stop)))
          ≡ false
        → IsStraddled long l
    sides true h = (ground arith, ground arith)
    sides false h = (ground arith, ground arith)

no_reasons :
    (a b : Bool)
    → is_nonempty (reason_if a insufficient_net_reward_risk ++ reason_if b below_minimum_lot)
      ≡ false
    → (a ≡ false) × (b ≡ false)
no_reasons true b h = cc
no_reasons false true h = cc
no_reasons false false h = (refl, refl)

plan_quantity-le :
    (i : SizingInput) (r : SizingRules) (l : Levels) → plan_quantity i r l ≤ unit_cap i r l
unfolding plan_quantity
plan_quantity-le i r l = omega (
  arith,
  mul-div-le (unit_cap i r l) i.lot_size,
  mul_comm i.lot_size (unit_cap i r l / i.lot_size),
)

within_cap :
    (i : SizingInput) (r : SizingRules) (l : Levels) (q : ℕ)
    → q ≤ unit_cap i r l
    → (q ≤ risk_budget i r / (unit * per_unit_loss i l))
      × (q ≤ i.available_capital / (l.entry + i.entry_cost_per_unit))
      × (q ≤ r.maximum_quantity)
unfolding unit_cap
within_cap i r l q h = (omega (arith, h), omega (arith, h), omega (arith, h))

plan_quantity-lots :
    (i : SizingInput) (r : SizingRules) (l : Levels)
    → (k : ℕ) × (plan_quantity i r l ≡ k * i.lot_size)
unfolding plan_quantity
plan_quantity-lots i r l = (unit_cap i r l / i.lot_size, refl)

priced-IsSound :
    (i : SizingInput) (r : SizingRules) (l : Levels)
    → is_invalid_geometry i l ≡ false
    → is_nonempty (priced_reasons i r l) ≡ false
    → IsSound i r l (plan_quantity i r l)
unfolding priced_reasons is_insufficient risk_budget
priced-IsSound i r l geometry clear =
    let (enough, lots) = no_reasons (is_insufficient i r l) (plan_quantity i r l == 0) clear in
    let q = plan_quantity i r l in
    let (risk, capital, maximum) = within_cap i r l q (plan_quantity-le i r l) in
    let (straddled, entry, stop, target) = geometry-IsStraddled i l geometry in
    let some_units : 0 < q = ground arith in
    let risked = quotient-fits (risk_budget i r) (unit * per_unit_loss i l) q some_units risk in
    record {
      straddled = straddled;
      positive = (entry, stop, target);
      some_lots = plan_quantity-lots i r l;
      some_units = some_units;
      within_risk = omega (arith, risked, mul_assoc unit (per_unit_loss i l) q);
      within_capital =
          quotient-fits i.available_capital (l.entry + i.entry_cost_per_unit) q some_units capital;
      within_maximum = maximum;
      rewarded = ground arith;
    }

rejected-IsCalculated :
    (i : SizingInput) (r : SizingRules) (levels : Option Levels) (reasons : List PlanReason)
    → IsCalculated i r (rejected levels reasons)
rejected-IsCalculated i r levels reasons h = cc

level_plan-IsCalculated :
    (i : SizingInput) (r : SizingRules) → IsCalculated i r (level_plan i r (plan_levels i r))
unfolding level_plan priced_plan
level_plan-IsCalculated i r =
    let l = plan_levels i r in
    if-intro (IsCalculated i r) (is_invalid_geometry i l) _ _
      (λ _. rejected-IsCalculated i r none _)
      (λ geometry.
        if-intro (IsCalculated i r) (is_nonempty (priced_reasons i r l)) _ _
          (λ _. rejected-IsCalculated i r (some l) _)
          (λ clear _. record {
            levels = refl;
            loss = refl;
            sound = priced-IsSound i r l geometry clear;
          }))

-- A calculated plan is sound: its stop and target lie on either side of its entry, as the direction
-- says, and are positive; its quantity is some whole lots, at most the maximum; the loss at the stop
-- with all costs is what it reports and is within the risk budget; its capital is available; and the
-- reward net of costs is at least the demanded multiple of that loss.
pub calculate_plan-Reported :
    (i : SizingInput) (r : SizingRules)
    → (calculate_plan i r).status ≡ calculated_requires_risk
    → Reported i r (calculate_plan i r)
unfolding calculate_plan
calculate_plan-Reported i r =
    if-intro (IsCalculated i r) (is_invalid_input i) _ _ (λ _. rejected-IsCalculated i r none _)
      (λ _.
        if-intro (IsCalculated i r) (ltb i.round_trip_cost_per_unit i.entry_cost_per_unit) _ _
          (λ _. rejected-IsCalculated i r none _)
          (λ _.
            if-intro (IsCalculated i r) (is_atr_missing r.stop_method i.atr) _ _
              (λ _. rejected-IsCalculated i r none _) (λ _. level_plan-IsCalculated i r)))
