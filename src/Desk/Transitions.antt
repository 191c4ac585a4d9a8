-- ===== src/Desk/Transitions.antt =====
-- Every method of src/kiwit/banknifty.py that changes a session takes a step of its phases.
use kiwi_t.Prelude.{
  ℕ, ◌≡◌, refl, sym, ap, ◌∙◌, subst, String, Bool, true, false, Option, List, if◌then◌else◌,
  if-intro, inl, inr, ◌⊎◌, is_some, none_of,
}
use kiwi_t.Desk.State.{
  DeskState, DeskStatus, running, stopping, completed, is_stopping, is_completed, DeskQuote,
  DeskEvent, DeskArithmetic,
}
use kiwi_t.Desk.Exit.{Sample}
use kiwi_t.Desk.Monitor.{DeskEnvironment, is_ending, ticked, flat, watched, monitor_open, monitor}
use kiwi_t.Desk.Phases.{
  Phase, ready, holding, closing, finished, Represents, by_monitor, Step, watches, times_out, exits,
  must_close, flattens_held, flattens, Reaches, Watched, watched-Watched,
}

pub clash : {b : Bool} → b ≡ true → b ≡ false → (A : Type 0) → A
clash t f A = cc (t, f)

-- a tick of the monitor on a status that is not complete
ticked-Reaches :
    (env : DeskEnvironment) (s : DeskState) (now : ℕ)
    → ((ticked env s now).status ≡ stopping) ⊎ ((ticked env s now).status ≡ s.status)
unfolding ticked
ticked-Reaches env s now =
    if-intro (λ x. (x ≡ stopping) ⊎ (x ≡ s.status)) (is_ending env s now) stopping s.status
      (λ _. inl refl) (λ _. inr refl)

module _ (s : DeskState) where
  -- the end of a call of the monitor without a position
  flat-Cleared :
      is_some s.position ≡ false
      → ((flat s).status ≡ (if is_stopping s.status then completed else s.status))
        × (is_some (flat s).position ≡ false)
  unfolding flat
  flat-Cleared clear =
      if-intro
        (λ (t : DeskState).
          (t.status ≡ (if is_stopping s.status then completed else s.status))
          × (is_some t.position ≡ false))
        (is_some s.position) _ _ (λ held. clash held clear _) (λ _. (refl, clear))

  flat-Held : is_some s.position ≡ true → flat s ≡ s
  unfolding flat
  flat-Held held =
      if-intro (λ t. t ≡ s) (is_some s.position) _ _ (λ _. refl) (λ clear. clash held clear _)

-- a status that stays through the last part
flat_running :
    (t : DeskState) → t.status ≡ running → is_some t.position ≡ false → Represents ready (flat t)
flat_running t on clear =
    let f = flat-Cleared t clear in (f.0 ∙ ap (λ x. if is_stopping x then completed else x) on, f.1)

flat_stopping :
    (t : DeskState)
    → t.status ≡ stopping
    → is_some t.position ≡ false
    → Represents finished (flat t)
flat_stopping t on clear =
    let f = flat-Cleared t clear in (f.0 ∙ ap (λ x. if is_stopping x then completed else x) on, f.1)

flat_completed :
    (t : DeskState)
    → t.status ≡ completed
    → is_some t.position ≡ false
    → Represents finished (flat t)
flat_completed t on clear =
    let f = flat-Cleared t clear in (f.0 ∙ ap (λ x. if is_stopping x then completed else x) on, f.1)

module _ (m : DeskArithmetic) (env : DeskEnvironment) (quoted : Option String)
    (quote : Option DeskQuote) (underlying : Option Sample) (now : ℕ) where
  -- what the monitor leaves of a session with a position
  held-Reaches :
      (status : DeskStatus) (r : DeskState × List DeskEvent)
      → status ≡ running
      → Watched status r
      → Reaches by_monitor holding (flat r.0)
  held-Reaches status r on (inl (same, held)) =
      (holding, watches, subst (Represents holding) (sym (flat-Held r.0 held)) (same ∙ on, held))
  held-Reaches status r on (inr (same, clear)) = (
    ready,
    exits,
    flat_running r.0 (same ∙ ap (λ x. if is_stopping x then completed else x) on) clear,
  )

  closing-Reaches :
      (a : Phase) (status : DeskStatus) (r : DeskState × List DeskEvent)
      → Step by_monitor a closing
      → Step by_monitor a finished
      → status ≡ stopping
      → Watched status r
      → Reaches by_monitor a (flat r.0)
  closing-Reaches a status r closes over on (inl (same, held)) =
      (closing, closes, subst (Represents closing) (sym (flat-Held r.0 held)) (same ∙ on, held))
  closing-Reaches a status r closes over on (inr (same, clear)) = (
    finished,
    over,
    flat_completed r.0 (same ∙ ap (λ x. if is_stopping x then completed else x) on) clear,
  )

  monitor_open-Reaches :
      (a : Phase) (s : DeskState)
      → is_completed s.status ≡ false
      → Represents a s
      → Reaches by_monitor a (monitor_open m env s quoted quote underlying now).0
  unfolding monitor_open ticked watched
  monitor_open-Reaches ready s live (on, clear) =
      let t = ticked env s now in
      subst (λ o. Reaches by_monitor ready (flat (watched m t o quoted quote underlying now).0))
        (sym (none_of s.position clear))
        (elim (ticked-Reaches env s now) [
          | inl ending ↦ (finished, times_out, flat_stopping t ending clear)
          | inr same ↦ (ready, watches, flat_running t (same ∙ on) clear)
        ])
  monitor_open-Reaches holding s live (on, held) =
      let t = ticked env s now in
      let w = watched m t s.position quoted quote underlying now in
      let seen = watched-Watched m t s.position quoted quote underlying now held in
      elim (ticked-Reaches env s now) [
        | inl ending ↦ closing-Reaches holding t.status w must_close flattens_held ending seen
        | inr same ↦ held-Reaches t.status w (same ∙ on) seen
      ]
  monitor_open-Reaches closing s live (on, held) =
      let t = ticked env s now in
      let w = watched m t s.position quoted quote underlying now in
      let seen = watched-Watched m t s.position quoted quote underlying now held in
      elim (ticked-Reaches env s now) [
        | inl ending ↦ closing-Reaches closing t.status w watches flattens ending seen
        | inr same ↦ closing-Reaches closing t.status w watches flattens (same ∙ on) seen
      ]
  monitor_open-Reaches finished s live (done, clear) = clash (ap is_completed done) live _

  pub monitor-Reaches :
      (a : Phase) (s : DeskState)
      → Represents a s
      → Reaches by_monitor a (monitor m env s quoted quote underlying now).0
  unfolding monitor
  monitor-Reaches a s here =
      if-intro (λ (r : DeskState × List DeskEvent). Reaches by_monitor a r.0)
        (is_completed s.status) _ _ (λ _. (a, watches, here))
        (λ live. monitor_open-Reaches a s live here)
