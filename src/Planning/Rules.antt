-- ===== src/Planning/Rules.antt =====
-- `SizingRules` and `SizingInput` of src/kiwit/sizing.py. A multiple or a fraction is a number of
-- millionths. Values that are no decimals, not finite or negative are refused there and not
-- represented here.
use kiwi_t.Prelude.{
  ℕ, String, not, ◌&&◌, ◌||◌, ltb, leb, ◌==◌, Option, Outcome, ok, ◌>>◌, raise_if, str_eq,
}

abbrev pub unit : ℕ
unit = 1_000_000

pub data StopMethod : Type 0 where
  atr_method fraction_method : StopMethod

pub record SizingRules : Type 0 where
  pub version : String
  pub stop_method : StopMethod
  pub stop_multiplier : ℕ
  pub stop_fraction : ℕ
  pub reward_multiple : ℕ
  pub minimum_net_reward_risk : ℕ
  pub risk_fraction : ℕ
  pub maximum_risk_fraction : ℕ
  pub maximum_quantity : ℕ

pub data RulesFailure : Type 0 where
  version_required positive_required invalid_limits quantity_required : RulesFailure

-- `SizingRules.__post_init__`
unfoldable pub checked_rules : SizingRules → Outcome RulesFailure SizingRules
checked_rules r = do
  raise_if (str_eq r.version "") version_required
  raise_if
      (r.stop_multiplier == 0
        || (r.stop_fraction == 0
            || (r.reward_multiple == 0
                || (r.minimum_net_reward_risk == 0
                    || (r.risk_fraction == 0 || r.maximum_risk_fraction == 0)))))
      positive_required
  raise_if
      (not (leb r.risk_fraction r.maximum_risk_fraction && ltb r.maximum_risk_fraction unit)
        || leb unit r.stop_fraction)
      invalid_limits
  raise_if (r.maximum_quantity == 0) quantity_required
  ok r

pub record SizingInput : Type 0 where
  pub instrument : String
  pub snapshot_fingerprint : String
  pub direction : String
  pub reference_price : ℕ
  pub equity : ℕ
  pub available_capital : ℕ
  pub tick_size : ℕ
  pub lot_size : ℕ
  pub atr : Option ℕ
  pub round_trip_cost_per_unit : ℕ
  pub entry_cost_per_unit : ℕ
