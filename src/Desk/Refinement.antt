-- ===== src/Desk/Refinement.antt =====
-- The session of src/kiwit/banknifty.py as a machine of four phases.
use kiwi_t.Prelude.{
  ℕ, ◌≡◌, refl, sym, ap, ◌∙◌, subst, String, Bool, true, false, Option, some, List, [], ◌∷◌, inl,
  inr, is_some, ok, Returning, Returning-eq, Returning-map,
}
use kiwi_t.Desk.State.{DeskState, is_running, DeskQuote, DeskEvent, DeskArithmetic}
use kiwi_t.Desk.Exit.{Sample}
use kiwi_t.Desk.Monitor.{DeskEnvironment, monitor}
use kiwi_t.Desk.Entry.{DeskDecision, DeskSnapshot, Feed, apply_decision, entered}
use kiwi_t.Desk.Session.{Limits, start, stop, Settlement, settle_expired_position}
use kiwi_t.Desk.Safety.{apply_decision-IsEntry}
use kiwi_t.Desk.Phases.{
  Phase, ready, holding, closing, finished, Represents, Move, by_start, by_stop, by_settlement,
  by_monitor, by_decision, declines, enters, Steps, stays, onward, Reaches,
}
use kiwi_t.Desk.Transitions.{monitor-Reaches, clash}
use kiwi_t.Desk.Endings.{
  stop-Reaches, Settled, settle-Settled, Settled-Reaches, Started, start-Started, Started-Reaches,
}

-- a method that keeps the state, or enters a position from a running session without one
apply-Reaches :
    (env : DeskEnvironment) (a : Phase) (s : DeskState) (d : DeskDecision) (snap : DeskSnapshot)
    (feed : Feed) (id : String) (is_completed_call : Bool) (now : ℕ)
    → Represents a s
    → Returning
        (λ r. Reaches by_decision a r.0)
        (apply_decision env s d snap feed id is_completed_call now)
unfolding entered
apply-Reaches env a s d snap feed id is_completed_call now here =
    Returning-map _ (λ r. Reaches by_decision a r.0)
      (apply_decision env s d snap feed id is_completed_call now)
      (λ r known. elim known [
        | inl same ↦ (a, declines, subst (Represents a) (sym same) here)
        | inr done ↦
            subst (Reaches by_decision a) (sym done.3.purchase.opened)
              (by_phase a here done.0 done.3.purchase.permitted.unheld _ refl refl)
      ])
      (apply_decision-IsEntry env s d snap feed id is_completed_call now)
  where
    by_phase :
        (a : Phase)
        → Represents a s
        → is_running s.status ≡ true
        → is_some s.position ≡ false
        → (t : DeskState) → t.status ≡ s.status
        → is_some t.position ≡ true
        → Reaches by_decision a t
    by_phase ready here on clear t same held = (holding, enters, (same ∙ here.0, held))
    by_phase holding here on clear t same held = clash here.1 clear _
    by_phase closing here on clear t same held = clash on (ap is_running here.0) _
    by_phase finished here on clear t same held = clash on (ap is_running here.0) _

-- A call of one of the methods that change the session, on the state of the session: `start`, `stop`,
-- `settle_expired_position`, `_monitor` or `_apply`.
pub data Transition : Move → DeskState → DeskState → Type 0 where
  starts :
      (rupee : ℕ) (env : DeskEnvironment) (configured : Bool) (s : DeskState) (l : Limits) (now : ℕ)
      (r : DeskState × List DeskEvent)
      → start rupee env configured (some s) l now ≡ ok r
      → Transition by_start s r.0
  stops : (s : DeskState) → Transition by_stop s (stop s).0
  settles :
      (events : List DeskEvent) (s : DeskState) (t : Settlement) (now : ℕ)
      (r : DeskState × List DeskEvent)
      → settle_expired_position events s t now ≡ ok r
      → Transition by_settlement s r.0
  monitors :
      (m : DeskArithmetic) (env : DeskEnvironment) (s : DeskState) (quoted : Option String)
      (quote : Option DeskQuote) (underlying : Option Sample) (now : ℕ)
      → Transition by_monitor s (monitor m env s quoted quote underlying now).0
  applies :
      (env : DeskEnvironment) (s : DeskState) (d : DeskDecision) (snap : DeskSnapshot) (feed : Feed)
      (id : String) (is_completed_call : Bool) (now : ℕ) (r : DeskState × List DeskEvent × Bool)
      → apply_decision env s d snap feed id is_completed_call now ≡ ok r
      → Transition by_decision s r.0

-- calls of those methods, one after the other
pub data Transitions : List Move → DeskState → DeskState → Type 0 where
  none_yet : {s : DeskState} → Transitions [] s s
  followed :
      {k : Move} {rest : List Move} {s t u : DeskState}
      → Transition k s t
      → Transitions rest t u
      → Transitions (k ∷ rest) s u

Transition-Reaches :
    {k : Move} {s t : DeskState} (a : Phase) → Represents a s → Transition k s t → Reaches k a t
Transition-Reaches a here (starts rupee env configured s l now r e) = Started-Reaches a s r here (
    Returning-eq (Started s) (start rupee env configured (some s) l now)
      (start-Started rupee env configured s l now) e)
Transition-Reaches a here (stops s) = stop-Reaches a s here
Transition-Reaches a here (settles events s t now r e) = Settled-Reaches a s r here (
    Returning-eq (Settled s) (settle_expired_position events s t now)
      (settle-Settled events s t now) e)
Transition-Reaches a here (monitors m env s quoted quote underlying now) =
    monitor-Reaches m env quoted quote underlying now a s here
Transition-Reaches a here (applies env s d snap feed id is_completed_call now r e) =
    Returning-eq (λ r. Reaches by_decision a r.0)
      (apply_decision env s d snap feed id is_completed_call now)
      (apply-Reaches env a s d snap feed id is_completed_call now here) e

-- Every sequence of calls of `start`, `stop`, `settle_expired_position`, `_monitor` and `_apply`, on a
-- session that represents a phase, takes one step for each call, of those that its method has, and leaves
-- a session that represents the phase where the steps end. `start` changes the phase only from finished to
-- ready, `_apply` only from ready to holding; `stop` ends a session without a position, and brings one with
-- a position to closing; a settlement changes it only from holding or closing to finished; `_monitor` never
-- starts, enters, nor takes a closing session back.
pub Transitions-refines :
    {moves : List Move} {s t : DeskState} (a : Phase)
    → Represents a s
    → Transitions moves s t
    → (b : Phase) × Steps moves a b × Represents b t
Transitions-refines a here none_yet = (a, stays, here)
Transitions-refines a here (followed call rest) =
    let (b, step, there) = Transition-Reaches a here call in
    let (c, further, last) = Transitions-refines b there rest in (c, onward step further, last)
