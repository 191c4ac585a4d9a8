-- ===== src/Desk/Phases.antt =====
-- The phases of a session of src/kiwit/banknifty.py, and the steps of the methods that change it.
use kiwi_t.Prelude.{
  ℕ, ◌≡◌, refl, String, true, false, not, ◌||◌, ◌==◌, Option, none, some, List, [], ◌∷◌,
  if◌then◌else◌, if-intro, inl, inr, ◌⊎◌, is_some, str_eq,
}
use kiwi_t.Desk.Clock.{market_window}
use kiwi_t.Desk.State.{
  DeskState, DeskStatus, running, stopping, completed, is_stopping, DeskPosition, DeskQuote,
  DeskEvent, DeskArithmetic, ExitReason,
}
use kiwi_t.Desk.Exit.{
  Sample, fresh, is_unsellable, sell_position, close_at, after_sale, reduced, credited,
}
use kiwi_t.Desk.Monitor.{marked, close_if, valued, watched}

-- without a position and running, with one, with one that is being closed, or complete
pub data Phase : Type 0 where
  ready holding closing finished : Phase

-- the states of a phase
abbrev pub Represents : Phase → DeskState → Type 0
Represents ready s = (s.status ≡ running) × (is_some s.position ≡ false)
Represents holding s = (s.status ≡ running) × (is_some s.position ≡ true)
Represents closing s = (s.status ≡ stopping) × (is_some s.position ≡ true)
Represents finished s = (s.status ≡ completed) × (is_some s.position ≡ false)

-- the methods that change a session
pub data Move : Type 0 where
  by_start by_stop by_settlement by_monitor by_decision : Move

-- the one step of a call of a method
pub data Step : Move → Phase → Phase → Type 0 where
  not_started : {a : Phase} → Step by_start a a
  resumes : Step by_start finished ready
  ends : Step by_stop ready finished
  halts : Step by_stop holding closing
  halts_again : Step by_stop closing closing
  ended_already : Step by_stop finished finished
  not_settled : {a : Phase} → Step by_settlement a a
  settles_held : Step by_settlement holding finished
  settles_closing : Step by_settlement closing finished
  watches : {a : Phase} → Step by_monitor a a
  times_out : Step by_monitor ready finished
  exits : Step by_monitor holding ready
  must_close : Step by_monitor holding closing
  flattens_held : Step by_monitor holding finished
  flattens : Step by_monitor closing finished
  declines : {a : Phase} → Step by_decision a a
  enters : Step by_decision ready holding

-- one step for each call
pub data Steps : List Move → Phase → Phase → Type 0 where
  stays : {a : Phase} → Steps [] a a
  onward :
      {k : Move} {rest : List Move} {a b c : Phase}
      → Step k a b
      → Steps rest b c
      → Steps (k ∷ rest) a c

-- the phase that a state reaches by one step
abbrev pub Reaches : Move → Phase → DeskState → Type 0
Reaches k a t = (b : Phase) × Step k a b × Represents b t

-- what the branch on the quote does to a position of a session in a status
abbrev pub Watched : DeskStatus → DeskState × List DeskEvent → Type 0
Watched status r =
    ((r.0.status ≡ status) × (is_some r.0.position ≡ true))
    ⊎ ((r.0.status ≡ (if is_stopping status then completed else status))
        × (is_some r.0.position ≡ false))

module _ (m : DeskArithmetic) where
  sold-Watched :
      (s : DeskState) (p : DeskPosition) (q : DeskQuote) (reason : ExitReason) (now : ℕ)
      → Watched s.status (sell_position m s p q reason now)
  unfolding sell_position after_sale credited
  sold-Watched s p q reason now =
      if-intro (λ t. Watched s.status (t, [])) ((reduced m p q).quantity == 0) _ _
        (λ _. inr (refl, refl)) (λ _. inl (refl, refl))

  closed-Watched :
      (s : DeskState) (p : DeskPosition) (q : DeskQuote) (reason : Option ExitReason) (now : ℕ)
      → is_some s.position ≡ true
      → Watched s.status (close_if m s p q reason now)
  unfolding close_if close_at
  closed-Watched s p q none now held = inl (refl, held)
  closed-Watched s p q (some reason) now held =
      if-intro (Watched s.status) (not (market_window now) || is_unsellable p q now) _ _
        (λ _. inl (refl, held)) (λ _. sold-Watched s p q reason now)

  valued-Watched :
      (s : DeskState) (p : DeskPosition) (quote : Option DeskQuote) (underlying : Option Sample)
      (now : ℕ)
      → is_some s.position ≡ true
      → Watched s.status (valued m s p quote underlying now)
  unfolding valued marked
  valued-Watched s p none underlying now held = inl (refl, held)
  valued-Watched s p (some q) underlying now held =
      if-intro (Watched s.status) (fresh (some q) now) _ _
        (λ _. closed-Watched (marked m s p q) _ q _ now refl) (λ _. inl (refl, held))

  pub watched-Watched :
      (s : DeskState) (o : Option DeskPosition) (quoted : Option String) (quote : Option DeskQuote)
      (underlying : Option Sample) (now : ℕ)
      → is_some s.position ≡ true
      → Watched s.status (watched m s o quoted quote underlying now)
  unfolding watched
  watched-Watched s none quoted quote underlying now held = inl (refl, held)
  watched-Watched s (some p) none quote underlying now held = inl (refl, held)
  watched-Watched s (some p) (some id) quote underlying now held =
      if-intro (Watched s.status) (str_eq p.id id) _ _
        (λ _. valued-Watched s p quote underlying now held) (λ _. inl (refl, held))
