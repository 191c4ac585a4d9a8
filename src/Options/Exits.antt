-- ===== src/Options/Exits.antt =====
-- `exit_levels` of src/kiwit/options_risk.py: the stop and the cost-aware target of a position.
--
-- Percentages are ten-thousandths of a percent, the reward in units of risk and the share of costs are
-- millionths. The one quotient that the source rounds before it rounds it up to the tick, the target,
-- goes through a parameter, `divide_up`.
use kiwi_t.Prelude.{
  ℕ, zero, suc, ◌+◌, ◌-◌, ◌*◌, Bool, not, ◌&&◌, ltb, leb, min, max, Outcome, ok, err, ◌>>◌,
  raise_if, if◌then◌else◌,
}
use kiwi_t.Prelude.Int.{ℤ, pos, diff, ◌-ℤ◌, ◌+ℤ◌, leb_ℤ, ltb_ℤ, pos_part}
use kiwi_t.Prelude.Scaling.{times}
use kiwi_t.Simulator.Price.{floor_div, ceil_div}
use kiwi_t.Options.Costs.{parts, Side, fees, fixed_order_cost, sell_variable_rate}
use kiwi_t.Options.Sizing.{OptionsState, trade_limits}

-- a fraction of one, in millionths
abbrev million : ℕ
million = 1_000_000

-- a playbook profile, of which the version is left out
pub record ExitProfile : Type 0 where
  pub stop_pct : ℕ
  pub target_pct : ℕ
  pub reward_r : ℕ
  pub max_hold_minutes : ℕ
  pub max_cost_share : ℕ

pub data ExitFailure : Type 0 where
  invalid_exit_profile no_positive_net_risk costs_too_large search_exhausted : ExitFailure

-- What `exit_levels` returns; amounts are in parts of a grain, the desired reward in millionths of those.
pub record ExitLevels : Type 0 where
  pub stop : ℕ
  pub target : ℕ
  pub stop_pct : ℕ
  pub target_floor_pct : ℕ
  pub max_hold_minutes : ℕ
  pub estimated_round_trip_cost : ℕ
  pub net_risk : ℤ
  pub net_reward_at_target : ℤ

-- What is bought: the price, the units, the tick, and the grains of a rupee.
pub record Entry : Type 0 where
  pub rupee : ℕ
  pub price : ℕ
  pub units : ℕ
  pub tick : ℕ

-- the limits of the session applied to the profile
unfoldable pub limited : OptionsState → ExitProfile → ExitProfile
limited s p = record p {
  stop_pct = min (trade_limits s).0 p.stop_pct;
  target_pct = min (trade_limits s).1 p.target_pct;
}

-- the test of the profile; 1 <= reward is in millionths, 100 % is a million
unfoldable pub is_valid : Entry → ExitProfile → Bool
is_valid e p =
    ltb 0 e.price
    && (ltb 0 e.units
        && (ltb 0 e.tick
            && (ltb 0 p.stop_pct
                && (ltb p.stop_pct million
                    && (ltb 0 p.target_pct
                        && (leb million p.reward_r
                            && (leb 1 p.max_hold_minutes && leb p.max_hold_minutes 120)))))))

unfoldable pub stop_price : Entry → ExitProfile → ℕ
unfolding floor_div
stop_price e p = floor_div (e.price * (million - p.stop_pct)) (million * e.tick) * e.tick

-- `entry_total`
unfoldable pub entry_total : Entry → ℕ
entry_total e = e.price * e.units * parts + fees e.rupee (e.price * e.units) Side.buy

-- `stop_proceeds` and `target_proceeds`
unfoldable pub proceeds : Entry → ℕ → ℤ
proceeds e price = pos (price * e.units * parts) -ℤ pos (fees e.rupee (price * e.units) Side.sell)

unfoldable pub net_risk : Entry → ℕ → ℤ
net_risk e stop = pos (entry_total e) -ℤ proceeds e stop

unfoldable pub target_floor : Entry → ExitProfile → ℕ
unfolding ceil_div
target_floor e p = ceil_div (e.price * (million + p.target_pct)) (million * e.tick) * e.tick

-- `desired_net_reward`, in millionths of a part of a grain
unfoldable pub desired_reward : ExitProfile → ℤ → ℤ
desired_reward p risk = times p.reward_r risk

-- `required_proceeds + FIXED_ORDER_COST`, in millionths of a part of a grain
unfoldable pub required_proceeds : Entry → ℤ → ℕ
required_proceeds e desired =
    pos_part (pos ((entry_total e + fixed_order_cost e.rupee) * million) +ℤ desired)

-- `units * (1 - SELL_VARIABLE_RATE) * tick`, in the same
unfoldable pub tick_proceeds : Entry → ℕ
tick_proceeds e = e.units * (parts - sell_variable_rate) * million * e.tick

-- `net_reward`
unfoldable pub net_reward : Entry → ℕ → ℤ
net_reward e target = proceeds e target -ℤ pos (entry_total e)

-- `net_reward >= desired_net_reward and net_reward > 0`
unfoldable pub is_enough : Entry → ℤ → ℕ → Bool
is_enough e desired target =
    leb_ℤ desired (times million (net_reward e target)) && ltb_ℤ (pos 0) (net_reward e target)

unfoldable pub round_trip_cost : Entry → ℕ → ℕ
round_trip_cost e target =
    fees e.rupee (e.price * e.units) Side.buy + fees e.rupee (target * e.units) Side.sell

-- `cost_share > maximum_cost_share`, where the gross reward is positive
unfoldable pub is_costly : Entry → ExitProfile → ℕ → Bool
is_costly e p target =
    ltb_ℤ (times (p.max_cost_share * parts) (diff (target * e.units) (e.price * e.units)))
      (pos (round_trip_cost e target * million))

-- the return of the loop
unfoldable pub accept : Entry → ExitProfile → ℕ → ℤ → ℕ → Outcome ExitFailure ExitLevels
accept e p stop risk target = do
  raise_if (is_costly e p target) costs_too_large
  ok (record {
    stop = stop;
    target = target;
    stop_pct = p.stop_pct;
    target_floor_pct = p.target_pct;
    max_hold_minutes = p.max_hold_minutes;
    estimated_round_trip_cost = round_trip_cost e target;
    net_risk = risk;
    net_reward_at_target = net_reward e target;
  })

-- the loop, with the rounds that are left
unfoldable pub search_target : ℕ → Entry → ExitProfile → ℕ → ℤ → ℕ → Outcome ExitFailure ExitLevels
search_target zero e p stop risk target = err search_exhausted
search_target (suc rounds) e p stop risk target =
    let later = search_target rounds e p stop risk (target + e.tick) in
    if is_enough e (desired_reward p risk) target then accept e p stop risk target else later

module _ (divide_up : ℕ → ℕ → ℕ) where
  -- the target before the loop
  unfoldable pub first_target : Entry → ExitProfile → ℤ → ℕ
  first_target e p risk =
      max (target_floor e p)
        (divide_up (required_proceeds e (desired_reward p risk)) (tick_proceeds e) * e.tick)

  unfoldable pub exit_levels : OptionsState → Entry → ExitProfile → Outcome ExitFailure ExitLevels
  exit_levels s e profile = do
    raise_if (not (is_valid e (limited s profile))) invalid_exit_profile
    raise_if (leb_ℤ (net_risk e (stop_price e (limited s profile))) (pos 0)) no_positive_net_risk
    search_target 3 e (limited s profile) (stop_price e (limited s profile))
        (net_risk e (stop_price e (limited s profile)))
        (first_target e (limited s profile) (net_risk e (stop_price e (limited s profile))))
