-- ===== src/Risk/Rejection.antt =====
-- When `DeterministicRiskPolicy.evaluate` of src/kiwit/risk_policy.py must reject.
use kiwi_t.Prelude.{
  ℕ, ◌<◌, ◌≡◌, refl, inl, inr, ◌⊎◌, Bool, true, false, none, List, [], ◌∷◌, if◌then◌else◌,
  is_nonempty,
}
use kiwi_t.Prelude.Int.{ℤ, pos}
use kiwi_t.Calendar.{session_at}
use kiwi_t.Simulator.Methods.{approve, reject, TradeProposal}
use kiwi_t.Risk.Types.{PortfolioSnapshot, RiskReason, decided}
use kiwi_t.Risk.Engine
use kiwi_t.Risk.Policy.{
  DeterministicRiskPolicy, RiskState, PolicyResult, is_invalid_state, is_invalid, sizing,
  policy_reasons, evaluate,
}
use kiwi_t.Risk.Permission.{Permitted, evaluate-Permitted}

clash : {b : Bool} → b ≡ false → b ≡ true → ⊥
clash h k = cc

-- A cause for which the policy must not approve.
pub data MustReject (y : DeterministicRiskPolicy) (o : TradeProposal) (p : PortfolioSnapshot)
    (cost : ℤ) (s : RiskState) (now : ℕ) : Type 0 where
  emergency : y.limits.emergency_disabled ≡ true → MustReject y o p cost s now
  no_session : session_at y.calendar now ≡ none → MustReject y o p cost s now
  bad_state : is_invalid_state s ≡ true → MustReject y o p cost s now
  bad_proposal : is_invalid y o p cost now ≡ true → MustReject y o p cost s now
  engine_rejects : (Engine.evaluate y.risk o p cost).decision ≡ reject → MustReject y o p cost s now

not-Permitted :
    (y : DeterministicRiskPolicy) (o : TradeProposal) (p : PortfolioSnapshot) (cost : ℤ)
    (s : RiskState) (now : ℕ) (r : PolicyResult)
    → MustReject y o p cost s now
    → Permitted y o p cost s now r
    → ⊥
not-Permitted y o p cost s now r (emergency e) h = clash (h.enabled) e
not-Permitted y o p cost s now r (no_session e) h = let t = h.today in cc
not-Permitted y o p cost s now r (bad_state e) h = clash (h.state_clear.valid) e
not-Permitted y o p cost s now r (bad_proposal e) h = clash (h.valid) e
not-Permitted y o p cost s now r (engine_rejects e) h = let d = h.engine_decision in cc

decided-cases :
    (rs : List RiskReason) (q : ℤ)
    → (decided rs ≡ approve)
      ⊎ ((decided rs ≡ reject) × ((if is_nonempty rs then pos 0 else q) ≡ pos 0))
decided-cases [] q = inl refl
decided-cases (r ∷ rs) q = inr (refl, refl)

-- Whatever else holds, the policy rejects with the quantity 0 when the emergency switch is on, when the
-- calendar has no session, when a counter of the state is negative, when the proposal or the portfolio
-- is invalid, and when the engine rejects.
pub evaluate-fails_closed :
    (y : DeterministicRiskPolicy) (o : TradeProposal) (p : PortfolioSnapshot) (cost : ℤ)
    (s : RiskState) (now : ℕ)
    → 0 < y.risk.scale
    → 0 < o.instrument.lot_size
    → MustReject y o p cost s now
    → ((evaluate y o p cost s now).decision ≡ reject)
      × ((evaluate y o p cost s now).quantity ≡ pos 0)
unfolding evaluate
evaluate-fails_closed y o p cost s now sc l m =
    elim (decided-cases (policy_reasons y s now (sizing y o p cost now).reasons)
      (sizing y o p cost now).quantity) [
        | inl approved ↦
            let h = evaluate-Permitted y o p cost s now sc l approved in
            absurd (not-Permitted y o p cost s now _ m h)
        | inr closed ↦ closed
      ]
