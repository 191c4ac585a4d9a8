-- ===== src/Options/Targets.antt =====
-- What the levels of `exit_levels` of src/kiwit/options_risk.py promise.
use kiwi_t.Prelude.{
  ℕ, zero, suc, ◌+◌, ◌≡◌, refl, false, not, arith, if-intro, raise_if, raise_if_ok, Returning,
  Returning-then,
}
use kiwi_t.Prelude.Int.{ℤ, pos, ◌≤ℤ◌, leb_ℤ}
use kiwi_t.Prelude.Scaling.{times}
use kiwi_t.Options.Sizing.{OptionsState}
use kiwi_t.Options.Exits.{
  ExitProfile, costs_too_large, ExitLevels, Entry, limited, is_valid, stop_price, net_risk,
  desired_reward, net_reward, is_enough, is_costly, accept, search_target, first_target,
  exit_levels,
}

-- Levels that are worth their risk: at the target the reward after the costs of both orders is at
-- least the wanted multiple of the risk at the stop, which is positive, and the costs take no more
-- than their share of the gross reward.
pub record IsWorthwhile (e : Entry) (p : ExitProfile) (l : ExitLevels) : Type 0 where
  pub some_risk : pos 1 ≤ℤ l.net_risk
  pub risk_at_stop : l.net_risk ≡ net_risk e l.stop
  pub reward_at_target : l.net_reward_at_target ≡ net_reward e l.target
  pub enough_reward : times p.reward_r l.net_risk ≤ℤ times 1_000_000 l.net_reward_at_target
  pub some_reward : pos 1 ≤ℤ l.net_reward_at_target
  pub cost_share : is_costly e p l.target ≡ false

search_target-IsWorthwhile :
    (rounds : ℕ) (e : Entry) (p : ExitProfile) (stop : ℕ) (risk : ℤ) (target : ℕ)
    → risk ≡ net_risk e stop
    → pos 1 ≤ℤ risk
    → Returning (IsWorthwhile e p) (search_target rounds e p stop risk target)
unfolding search_target accept
search_target-IsWorthwhile zero e p stop risk target at some = tt
search_target-IsWorthwhile (suc rounds) e p stop risk target at some =
    if-intro (Returning (IsWorthwhile e p)) (is_enough e (desired_reward p risk) target) _ _
      (λ enough.
        Returning-then (IsWorthwhile e p) (raise_if (is_costly e p target) costs_too_large) _
          (λ cheap. record {
            some_risk = some;
            risk_at_stop = at;
            reward_at_target = refl;
            enough_reward = unfold is_enough desired_reward in ground arith;
            some_reward = unfold is_enough desired_reward in ground arith;
            cost_share = raise_if_ok _ _ cheap;
          }))
      (λ _. search_target-IsWorthwhile rounds e p stop risk (target + e.tick) at some)

pub not_flat : (a : ℤ) → leb_ℤ a (pos 0) ≡ false → pos 1 ≤ℤ a
not_flat a h = ground arith

-- However the target's quotient is rounded, the levels that `exit_levels` returns are worth their risk.
pub exit_levels-IsWorthwhile :
    (divide_up : ℕ → ℕ → ℕ) (s : OptionsState) (e : Entry) (profile : ExitProfile)
    → Returning (IsWorthwhile e (limited s profile)) (exit_levels divide_up s e profile)
unfolding exit_levels
exit_levels-IsWorthwhile divide_up s e profile =
    let p = limited s profile in
    let W = IsWorthwhile e p in
    Returning-then W (raise_if (not (is_valid e p)) _) _ (λ valid.
      Returning-then W (raise_if (leb_ℤ (net_risk e (stop_price e p)) (pos 0)) _)
        (search_target 3 e p (stop_price e p) (net_risk e (stop_price e p))
          (first_target divide_up e p (net_risk e (stop_price e p))))
        (λ some.
          search_target-IsWorthwhile 3 e p (stop_price e p) (net_risk e (stop_price e p)) _ refl
            (not_flat _ (raise_if_ok _ _ some))))
