-- ===== src/Desk/Budget.antt =====
-- The budget of the calls of the model of src/kiwit/banknifty.py, over all sequences of calls.
use kiwi_t.Prelude.{
  ℕ, ◌+◌, ◌≤◌, ◌≡◌, refl, sym, subst, String, Bool, true, false, not, ◌&&◌, ◌||◌, ltb, ◌==◌, Option,
  none, some, List, [], ◌∷◌, if-intro, inl, inr, Bool-cases, arith, All, or_false, not-false,
  and_true, str_eq, any,
}
use kiwi_t.Calendar.{ist_date}
use kiwi_t.Options.Reconsider.{Trigger, reconsider_event}
use kiwi_t.Desk.State.{DeskState, is_running, decision_suppressed, DeskEvent}
use kiwi_t.Desk.Calls.{
  reservation, daily_budget, DeskCall, concluded, is_reserved, total, on_day, in_window,
  is_circuit_open, newest_calls, is_budget_spent, new_call, insert_call, decision_attempts, reserve,
  Charge, charge_of, update_calls,
}

-- The calls that are reserved hold the reservation, and no day's calls exceed its budget.
pub record IsWithinBudget (calls : List DeskCall) : Type 0 where
  pub held :
      All (λ (c : DeskCall). is_reserved c.status ≡ true → c.reserved_usd ≡ reservation) calls
  pub daily : (day : ℕ) → total (on_day day) calls ≤ daily_budget

-- an update that moves no call to another day and charges no call more
pub record IsThrifty (p : DeskCall → Bool) (f : DeskCall → DeskCall) (c : DeskCall) : Type 0 where
  pub same_day : (f c).day ≡ c.day
  pub no_more : p c ≡ true → (f c).reserved_usd ≤ c.reserved_usd
  pub closed : p c ≡ true → is_reserved (f c).status ≡ false

update_calls-total :
    (p : DeskCall → Bool) (f : DeskCall → DeskCall) (day : ℕ) (calls : List DeskCall)
    → All (IsThrifty p f) calls
    → total (on_day day) (update_calls p f calls) ≤ total (on_day day) calls
unfolding update_calls total
update_calls-total p f day [] h = omega arith
update_calls-total p f day (c ∷ rest) h =
    let later = update_calls-total p f day rest h.1 in
    elim (Bool-cases (p c)) [
      | inl hit ↦ rw hit (rw h.0.same_day (ground (arith, later, h.0.no_more hit)))
      | inr miss ↦ rw miss (ground (arith, later))
    ]

update_calls-held :
    (p : DeskCall → Bool) (f : DeskCall → DeskCall) (calls : List DeskCall)
    → All (IsThrifty p f) calls
    → All (λ (c : DeskCall). is_reserved c.status ≡ true → c.reserved_usd ≡ reservation) calls
    → All
        (λ (c : DeskCall). is_reserved c.status ≡ true → c.reserved_usd ≡ reservation)
        (update_calls p f calls)
unfolding update_calls
update_calls-held p f [] h k = tt
update_calls-held p f (c ∷ rest) h k = (
  if-intro (λ (x : DeskCall). is_reserved x.status ≡ true → x.reserved_usd ≡ reservation) (p c)
      (f c) c (λ hit reserved. cc (h.0.closed hit, reserved)) (λ _. k.0),
  update_calls-held p f rest h.1 k.1,
)

pub update_calls-IsWithinBudget :
    (p : DeskCall → Bool) (f : DeskCall → DeskCall) (calls : List DeskCall)
    → All (IsThrifty p f) calls
    → IsWithinBudget calls
    → IsWithinBudget (update_calls p f calls)
update_calls-IsWithinBudget p f calls h b = record {
  held = update_calls-held p f calls h b.held;
  daily = λ day. omega (arith, update_calls-total p f day calls h, b.daily day);
}

total_mono :
    (p q : DeskCall → Bool) (calls : List DeskCall)
    → ((c : DeskCall) → p c ≡ true → q c ≡ true)
    → total p calls ≤ total q calls
unfolding total
total_mono p q [] h = omega arith
total_mono p q (c ∷ rest) h = elim (Bool-cases (p c)) [
  | inl hit ↦ rw hit (rw (h c hit) (omega (arith, total_mono p q rest h)))
  | inr miss ↦ rw miss (ground (arith, total_mono p q rest h))
]

concluded_closed : (decision : Option String) → is_reserved (concluded decision) ≡ false
concluded_closed none = refl
concluded_closed (some action) = refl

pub settled-IsThrifty :
    (decision : Option String) (amount : Charge) (call_id : String) (c : DeskCall)
    → charge_of amount ≤ reservation
    → (is_reserved c.status ≡ true → c.reserved_usd ≡ reservation)
    → IsThrifty
        (λ x. str_eq x.call_id call_id && is_reserved x.status)
        (λ x. record x {
          status = concluded decision;
          reserved_usd = charge_of amount;
          action = elim decision [ none ↦ x.action | some a ↦ a ];
        })
        c
settled-IsThrifty decision amount call_id c small held = record {
  same_day = refl;
  no_more = λ hit.
      subst (λ n. charge_of amount ≤ n) (sym (held (and_true (str_eq c.call_id call_id) _ hit).1))
        small;
  closed = λ hit. concluded_closed decision;
}

day_of : (a b : ℕ) → (a == b) ≡ true → a ≡ b
day_of a b h = ground (arith, h)

-- a new call of a day that has room for it
new_call-IsWithinBudget :
    (c : DeskCall) (calls : List DeskCall)
    → c.reserved_usd ≡ reservation
    → total (on_day c.day) calls + reservation ≤ daily_budget
    → IsWithinBudget calls
    → IsWithinBudget (c ∷ calls)
unfolding total
new_call-IsWithinBudget c calls amount room b = record {
  held = (λ _. amount, b.held);
  daily = λ day. elim (Bool-cases (c.day == day)) [
    | inl same ↦ rw same (
        subst (λ d. c.reserved_usd + total (on_day d) calls ≤ daily_budget) (day_of c.day day same)
          (omega (arith, amount, room)))
    | inr other ↦ rw other (b.daily day)
  ];
}

-- A running session of today counts all calls of its day.
budget_counted :
    (s : DeskState) (now : ℕ) (calls : List DeskCall)
    → (s.day == ist_date now) ≡ true
    → is_budget_spent s now calls ≡ false
    → total (on_day s.day) calls + reservation ≤ daily_budget
unfolding is_budget_spent
budget_counted s now calls today room =
    let day_room =
      (or_false _
        (ltb daily_budget
          (total (λ c. on_day s.day c && in_window (ist_date now) c) calls + reservation))
        room).1 in
    ground (
      arith,
      day_room,
      total_mono (on_day s.day) (λ c. on_day s.day c && in_window (ist_date now) c) calls
          (λ c here. ground (arith, here, today)),
    )

insert_call-IsWithinBudget :
    (c : DeskCall) (calls : List DeskCall)
    → IsWithinBudget (c ∷ calls)
    → IsWithinBudget calls
    → IsWithinBudget (insert_call c calls).1
unfolding insert_call
insert_call-IsWithinBudget c calls new b =
    if-intro (λ (r : Bool × List DeskCall). IsWithinBudget r.1)
      (any (λ (x : DeskCall). x.slot == c.slot) calls) _ _ (λ _. b) (λ _. new)

pub reserve-IsWithinBudget :
    (upper : String → String) (halted : Bool) (s : DeskState) (t : Trigger) (key call_id : String)
    (snapshot_at now : ℕ) (calls : List DeskCall)
    → IsWithinBudget calls
    → IsWithinBudget (reserve upper halted s t key call_id snapshot_at now calls).0.1
unfolding reserve new_call
reserve-IsWithinBudget upper halted s t key call_id snapshot_at now calls b =
    let P : (Bool × List DeskCall) × List DeskEvent → Type 0 = λ r. IsWithinBudget r.0.1 in
    if-intro P (not (is_running s.status) || (not (s.day == ist_date now) || halted)) _ _ (λ _. b)
      (λ usable.
        if-intro P
          (not (str_eq key "")
            && not (reconsider_event upper t (decision_attempts s.day key calls) now).due)
          ((false, calls), decision_suppressed ∷ []) _ (λ _. b)
          (λ _.
            if-intro P
              (is_circuit_open now (newest_calls s.day calls) || is_budget_spent s now calls)
              ((false, calls), []) (insert_call (new_call s call_id key snapshot_at now) calls, [])
              (λ _. b)
              (λ spare.
                let today =
                  not-false _
                    (or_false (not (s.day == ist_date now)) _
                      (or_false (not (is_running s.status)) _ usable).1).0 in
                insert_call-IsWithinBudget (new_call s call_id key snapshot_at now) calls
                  (new_call-IsWithinBudget (new_call s call_id key snapshot_at now) calls refl
                    (budget_counted s now calls today
                      (or_false (is_circuit_open now (newest_calls s.day calls)) _ spare).1)
                    b)
                  b)))
