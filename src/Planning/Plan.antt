-- ===== src/Planning/Plan.antt =====
-- `calculate_plan` of src/kiwit/sizing.py. A quotient is rounded down at once, where the source first
-- rounds it to 50 digits; the copies of the rules and the inputs and the fingerprint are left out.
use kiwi_t.Prelude.{
  ℕ, ◌+◌, ◌-◌, ◌*◌, ◌/◌, Bool, true, false, not, ◌&&◌, ◌||◌, ltb, ◌==◌, Option, none, some, List,
  [], ◌∷◌, ◌++◌, min, if◌then◌else◌, str_eq, is_nonempty,
}
use kiwi_t.Planning.Rules.{unit, StopMethod, atr_method, fraction_method, SizingRules, SizingInput}

pub data PlanReason : Type 0 where
  invalid_sizing_input inconsistent_costs atr_unavailable invalid_rounded_price_geometry
        insufficient_net_reward_risk below_minimum_lot deterministic_plan_risk_approval_required :
      PlanReason

pub data PlanStatus : Type 0 where
  reject calculated_requires_risk : PlanStatus

pub record Levels : Type 0 where
  pub entry : ℕ
  pub stop : ℕ
  pub target : ℕ

-- The levels are those of a plan whose geometry is valid.
pub record Plan : Type 0 where
  pub status : PlanStatus
  pub quantity : ℕ
  pub levels : Option Levels
  pub planned_loss : Option ℕ
  pub reason_codes : List PlanReason

abbrev pub rejected : Option Levels → List PlanReason → Plan
rejected levels reasons = record {
  status = reject;
  quantity = 0;
  levels = levels;
  planned_loss = none;
  reason_codes = reasons;
}

-- `inputs.direction == "LONG"`
unfoldable pub is_long : SizingInput → Bool
is_long i = str_eq i.direction "LONG"

unfoldable pub is_invalid_input : SizingInput → Bool
is_invalid_input i =
    str_eq i.instrument ""
    || (str_eq i.snapshot_fingerprint ""
        || (not (str_eq i.direction "LONG" || str_eq i.direction "SHORT")
            || (i.lot_size == 0
                || (i.reference_price == 0
                    || (i.equity == 0 || (i.available_capital == 0 || i.tick_size == 0))))))

unfoldable pub is_atr_missing : StopMethod → Option ℕ → Bool
is_atr_missing fraction_method atr = false
is_atr_missing atr_method none = true
is_atr_missing atr_method (some a) = a == 0

-- `rounded(value, up)` of a number of millionths
unfoldable pub rounded : ℕ → ℕ → Bool → ℕ
rounded tick value up = (if up then value + (unit * tick - 1) else value) / (unit * tick) * tick

-- the distance of the stop, in millionths
unfoldable pub stop_distance : SizingInput → SizingRules → StopMethod → ℕ → ℕ
stop_distance i r atr_method entry = (elim i.atr [ none ↦ 0 | some a ↦ a ]) * r.stop_multiplier
stop_distance i r fraction_method entry = entry * r.stop_fraction

-- `abs(a - b)`
abbrev pub gap : ℕ → ℕ → ℕ
gap a b = (a - b) + (b - a)

-- Entry, stop and target. A level below 0 is 0 here: it is refused as such.
unfoldable pub plan_levels : SizingInput → SizingRules → Levels
plan_levels i r =
    let long = is_long i in
    let tick = i.tick_size in
    let entry = rounded tick (i.reference_price * unit) long in
    let distance = stop_distance i r r.stop_method entry in
    let stop =
      rounded tick (if long then entry * unit - distance else entry * unit + distance) (not long) in
    let reach = gap entry stop * r.reward_multiple in
    let target = rounded tick (if long then entry * unit + reach else entry * unit - reach) long in
    record { entry = entry; stop = stop; target = target }

unfoldable pub per_unit_loss : SizingInput → Levels → ℕ
per_unit_loss i l = gap l.entry l.stop + i.round_trip_cost_per_unit

unfoldable pub is_invalid_geometry : SizingInput → Levels → Bool
is_invalid_geometry i l =
    min l.entry (min l.stop l.target) == 0
    || (gap l.entry l.stop == 0
        || not (
            if is_long i
            then ltb l.stop l.entry && ltb l.entry l.target
            else ltb l.target l.entry && ltb l.entry l.stop))

-- `rr < rules.minimum_net_reward_risk`, without the quotient
unfoldable pub is_insufficient : SizingInput → SizingRules → Levels → Bool
is_insufficient i r l =
    ltb (gap l.target l.entry * unit)
      (r.minimum_net_reward_risk * per_unit_loss i l + i.round_trip_cost_per_unit * unit)

-- the risk budget, in millionths
unfoldable pub risk_budget : SizingInput → SizingRules → ℕ
risk_budget i r = i.equity * min r.risk_fraction r.maximum_risk_fraction

-- `cap`, rounded down
unfoldable pub unit_cap : SizingInput → SizingRules → Levels → ℕ
unit_cap i r l =
    min (risk_budget i r / (unit * per_unit_loss i l))
      (min (i.available_capital / (l.entry + i.entry_cost_per_unit)) r.maximum_quantity)

unfoldable pub plan_quantity : SizingInput → SizingRules → Levels → ℕ
plan_quantity i r l = unit_cap i r l / i.lot_size * i.lot_size

abbrev pub reason_if : Bool → PlanReason → List PlanReason
reason_if b reason = if b then reason ∷ [] else []

unfoldable pub priced_reasons : SizingInput → SizingRules → Levels → List PlanReason
priced_reasons i r l =
    reason_if (is_insufficient i r l) insufficient_net_reward_risk
    ++ reason_if (plan_quantity i r l == 0) below_minimum_lot

-- the plan at levels of valid geometry
unfoldable pub priced_plan : SizingInput → SizingRules → Levels → Plan
priced_plan i r l =
    let reasons = priced_reasons i r l in
    if is_nonempty reasons then rejected (some l) reasons else record {
      status = calculated_requires_risk;
      quantity = plan_quantity i r l;
      levels = some l;
      planned_loss = some (per_unit_loss i l * plan_quantity i r l);
      reason_codes = deterministic_plan_risk_approval_required ∷ [];
    }

-- the plan at rounded levels
unfoldable pub level_plan : SizingInput → SizingRules → Levels → Plan
level_plan i r l =
    if is_invalid_geometry i l
    then rejected none (invalid_rounded_price_geometry ∷ [])
    else priced_plan i r l

unfoldable pub calculate_plan : SizingInput → SizingRules → Plan
calculate_plan i r =
    if is_invalid_input i
    then rejected none (invalid_sizing_input ∷ [])
    else if ltb i.round_trip_cost_per_unit i.entry_cost_per_unit
    then rejected none (inconsistent_costs ∷ [])
    else if is_atr_missing r.stop_method i.atr
    then rejected none (atr_unavailable ∷ [])
    else level_plan i r (plan_levels i r)
