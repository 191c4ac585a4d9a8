-- ===== src/Planning/Tests.antt =====
-- A plan of 238 units.
use kiwi_t.Prelude.{◌≡◌, refl, some, [], ◌∷◌, ok}
use kiwi_t.Planning.Rules.{atr_method, SizingRules, SizingInput, checked_rules}
use kiwi_t.Planning.Plan.{
  calculated_requires_risk, is_long, is_invalid_input, is_atr_missing, plan_levels, per_unit_loss,
  is_invalid_geometry, is_insufficient, risk_budget, unit_cap, plan_quantity, priced_reasons,
  priced_plan, level_plan, calculate_plan, rounded, stop_distance, below_minimum_lot,
  invalid_rounded_price_geometry, deterministic_plan_risk_approval_required,
}
use kiwi_t.Planning.Soundness.{Reported, calculate_plan-Reported}

abbrev rules : SizingRules
rules = record {
  version = "v1";
  stop_method = atr_method;
  stop_multiplier = 2_000_000;
  stop_fraction = 10_000;
  reward_multiple = 2_000_000;
  minimum_net_reward_risk = 1_500_000;
  risk_fraction = 5_000;
  maximum_risk_fraction = 10_000;
  maximum_quantity = 1_000;
}

test_rules : checked_rules rules ≡ ok rules
unfolding checked_rules
test_rules = refl

abbrev inputs : SizingInput
inputs = record {
  instrument = "NSE:TCS";
  snapshot_fingerprint = "f";
  direction = "LONG";
  reference_price = 9_998;
  equity = 10_000_000;
  available_capital = 5_000_000;
  tick_size = 5;
  lot_size = 1;
  atr = some 100;
  round_trip_cost_per_unit = 10;
  entry_cost_per_unit = 5;
}

test_plan : calculate_plan inputs rules ≡ record {
  status = calculated_requires_risk;
  quantity = 238;
  levels = some (record { entry = 10_000; stop = 9_800; target = 10_400 });
  planned_loss = some 49_980;
  reason_codes = deterministic_plan_risk_approval_required ∷ [];
}
unfolding calculate_plan is_invalid_input is_atr_missing level_plan is_invalid_geometry priced_plan
    priced_reasons is_insufficient plan_quantity unit_cap risk_budget per_unit_loss plan_levels
    rounded stop_distance is_long
test_plan = refl

-- A lot of a thousand is too large.
test_lot :
    (calculate_plan (record inputs { lot_size = 1_000 }) rules).reason_codes
    ≡ below_minimum_lot ∷ []
unfolding calculate_plan is_invalid_input is_atr_missing level_plan is_invalid_geometry priced_plan
    priced_reasons is_insufficient plan_quantity unit_cap risk_budget per_unit_loss plan_levels
    rounded stop_distance is_long
test_lot = refl

-- A stop below 0 is refused.
test_stop :
    (calculate_plan (record inputs { atr = some 6_000 }) rules).reason_codes
    ≡ invalid_rounded_price_geometry ∷ []
unfolding calculate_plan is_invalid_input is_atr_missing level_plan is_invalid_geometry priced_plan
    priced_reasons is_insufficient plan_quantity unit_cap risk_budget per_unit_loss plan_levels
    rounded stop_distance is_long
test_stop = refl

calculated : (calculate_plan inputs rules).status ≡ calculated_requires_risk
calculated = rw test_plan refl

calculate_plan-Reported_example : Reported inputs rules (calculate_plan inputs rules)
calculate_plan-Reported_example = calculate_plan-Reported inputs rules calculated
