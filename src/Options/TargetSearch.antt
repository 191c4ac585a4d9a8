-- ===== src/Options/TargetSearch.antt =====
-- The loop of `exit_levels` of src/kiwit/options_risk.py finds a target.
use kiwi_t.Prelude.{
  ℕ, ◌+◌, ◌-◌, ◌*◌, ◌≤◌, ◌<◌, ◌≡◌, ◌≢◌, refl, Bool, true, false, not, ◌&&◌, arith, if-intro,
  Outcome, ok, err, ◌>>◌, raise_if,
}
use kiwi_t.Prelude.Int.{ℤ, pos, negsuc, pos_part, ◌+ℤ◌, ◌-ℤ◌, ◌≤ℤ◌, leb_ℤ, ltb_ℤ}
use kiwi_t.Prelude.Scaling.{times, times_pos}
use native.Mathlib.Nat.{mul-le-mul_right}
use kiwi_t.Options.Costs.{parts, Side, fees, fees-linear, fixed_order_cost, sell_variable_rate}
use kiwi_t.Options.Sizing.{OptionsState}
use kiwi_t.Options.Exits.{
  ExitProfile, ExitFailure, search_exhausted, costs_too_large, ExitLevels, Entry, limited, is_valid,
  stop_price, entry_total, proceeds, net_risk, desired_reward, required_proceeds, tick_proceeds,
  net_reward, is_enough, is_costly, accept, search_target, first_target, exit_levels,
}
use kiwi_t.Options.Targets.{not_flat}

-- what is left of the proceeds after the fees and the cost
left_over :
    (gross fee cost : ℕ)
    → fee + cost ≤ gross
    → pos gross -ℤ pos fee -ℤ pos cost ≡ pos (gross - fee - cost)
unfolding ◌-ℤ◌
left_over gross fee cost h = ground arith

covers :
    (desired : ℤ) (left : ℕ)
    → pos 1 ≤ℤ desired
    → pos_part desired ≤ 1_000_000 * left
    → leb_ℤ desired (times 1_000_000 (pos left)) && ltb_ℤ (pos 0) (pos left) ≡ true
covers desired left some h = rw (times_pos 1_000_000 left) (ground arith)

required_sum :
    (desired : ℤ) (base : ℕ)
    → pos 1 ≤ℤ desired
    → pos_part (pos base +ℤ desired) ≡ base + pos_part desired
unfolding ◌+ℤ◌
required_sum desired base some = ground arith

-- A target whose proceeds cover what is required is enough.
enough-intro :
    (e : Entry) (desired : ℤ) (t : ℕ)
    → pos 1 ≤ℤ desired
    → required_proceeds e desired ≤ 1_000_000 * (parts - sell_variable_rate) * (t * e.units)
    → is_enough e desired t ≡ true
unfolding is_enough net_reward proceeds required_proceeds
enough-intro e desired t some h =
    let fee = fees e.rupee (t * e.units) Side.sell in
    let fee_is : fee ≡ fixed_order_cost e.rupee + t * e.units * sell_variable_rate =
      fees-linear e.rupee (t * e.units) Side.sell in
    let base = (entry_total e + fixed_order_cost e.rupee) * 1_000_000 in
    let need : base + pos_part desired ≤ 1_000_000 * (parts - sell_variable_rate) * (t * e.units) =
      omega (arith, h, required_sum desired base some) in
    let gross = t * e.units * parts in
    let room : fee + entry_total e ≤ gross = omega (arith, need, fee_is) in
    let enough : pos_part desired ≤ 1_000_000 * (gross - fee - entry_total e) =
      omega (arith, need, fee_is) in
    rw (left_over gross fee (entry_total e) room)
      (covers desired (gross - fee - entry_total e) some enough)

-- A number of ticks that covers what is required covers it at any price from there on.
ticks-cover :
    (e : Entry) (required k t : ℕ)
    → required ≤ k * tick_proceeds e
    → k * e.tick ≤ t
    → required ≤ 1_000_000 * (parts - sell_variable_rate) * (t * e.units)
unfolding tick_proceeds
ticks-cover e required k t h low =
    let most : k * e.tick * e.units ≤ t * e.units = mul-le-mul_right e.units low in
    grind (arith, h, most)

-- an outcome other than the exhausted search
abbrev IsFound : Outcome ExitFailure ExitLevels → Type 0
IsFound o = o ≢ err search_exhausted

-- A guard with another failure does not exhaust the search.
guard-IsFound :
    (b : Bool) (x : ExitFailure) (k : Outcome ExitFailure ExitLevels)
    → (ExitFailure.search_exhausted ≢ x)
    → (b ≡ false → IsFound k)
    → IsFound (raise_if b x >> k)
guard-IsFound true x k other h e = other (cc)
guard-IsFound false x k other h e = h refl e

ok-IsFound : (l : ExitLevels) → IsFound (ok l)
ok-IsFound l e = cc

accept-IsFound :
    (e : Entry) (p : ExitProfile) (stop : ℕ) (risk : ℤ) (target : ℕ)
    → IsFound (accept e p stop risk target)
unfolding accept
accept-IsFound e p stop risk target =
    guard-IsFound (is_costly e p target) costs_too_large _ (λ h. cc) (λ _. ok-IsFound _)

unmet : {b : Bool} → b ≡ false → b ≡ true → ⊥
unmet h k = cc

-- The third target of the loop is enough at the latest.
search_target-IsFound :
    (e : Entry) (p : ExitProfile) (stop : ℕ) (risk : ℤ) (target k : ℕ)
    → pos 1 ≤ℤ desired_reward p risk
    → required_proceeds e (desired_reward p risk) ≤ (k + 2) * tick_proceeds e
    → k * e.tick ≤ target
    → IsFound (search_target 3 e p stop risk target)
unfolding search_target
search_target-IsFound e p stop risk target k some h low =
    let third = target + e.tick + e.tick in
    let enough : is_enough e (desired_reward p risk) third ≡ true =
      enough-intro e (desired_reward p risk) third some
        (ticks-cover e _ (k + 2) third h (omega (arith, low))) in
    if-intro IsFound (is_enough e (desired_reward p risk) target) _ _
      (λ _. accept-IsFound e p stop risk target)
      (λ _.
        if-intro IsFound (is_enough e (desired_reward p risk) (target + e.tick)) _ _
          (λ _. accept-IsFound e p stop risk (target + e.tick))
          (λ _.
            if-intro IsFound (is_enough e (desired_reward p risk) third) _ _
              (λ _. accept-IsFound e p stop risk third) (λ no. absurd (unmet no enough))))

-- What the test of a profile leaves.
valid_parts :
    (e : Entry) (p : ExitProfile)
    → is_valid e p ≡ true
    → (0 < e.units) × (0 < e.tick) × (1_000_000 ≤ p.reward_r)
unfolding is_valid
valid_parts e p h = (ground arith, ground arith, ground arith)

tick_proceeds-pos : (e : Entry) → 0 < e.units → 0 < e.tick → 0 < tick_proceeds e
unfolding tick_proceeds
tick_proceeds-pos e u t = grind arith

desired_reward-pos :
    (p : ExitProfile) (risk : ℤ)
    → 1_000_000 ≤ p.reward_r
    → pos 1 ≤ℤ risk
    → pos 1 ≤ℤ desired_reward p risk
unfolding desired_reward
desired_reward-pos p (pos n) r h = rw (times_pos p.reward_r n) (grind arith)
desired_reward-pos p (negsuc n) r h = absurd (omega (arith, h))

-- When the quotient of the target, as it is rounded, is at most two ticks too low, as a quotient of a
-- decimal context is, the loop is never exhausted: `exit_levels` returns levels, or refuses for the
-- profile, the risk or the costs.
pub exit_levels-IsFound :
    (divide_up : ℕ → ℕ → ℕ) (s : OptionsState) (e : Entry) (profile : ExitProfile)
    → ((n d : ℕ) → 0 < d → n ≤ (divide_up n d + 2) * d)
    → exit_levels divide_up s e profile ≢ err search_exhausted
unfolding exit_levels first_target
exit_levels-IsFound divide_up s e profile near =
    let p = limited s profile in
    let risk = net_risk e (stop_price e p) in
    let required = required_proceeds e (desired_reward p risk) in
    guard-IsFound (not (is_valid e p)) _ _ (λ h. cc)
      (λ valid.
        let (u, t, r) = valid_parts e p (ground arith) in
        guard-IsFound (leb_ℤ risk (pos 0)) _ _ (λ h. cc)
          (λ some.
            search_target-IsFound e p (stop_price e p) risk _ (divide_up required (tick_proceeds e))
              (desired_reward-pos p risk r (not_flat risk some))
              (near required (tick_proceeds e) (tick_proceeds-pos e u t)) (omega arith)))
