-- ===== src/Options/Attempts.antt =====
-- `reconsider_event` of src/kiwit/options_policy.py: attempts are bounded and spaced.
use kiwi_t.Prelude.{
  ℕ, ◌+◌, ◌≤◌, ◌<◌, ◌≡◌, refl, String, Bool, true, false, List, [], ◌∷◌, length, arith,
  if◌then◌else◌, if-intro,
}
use kiwi_t.Calendar.{seconds}
use kiwi_t.Options.Reconsider.{
  max_event_attempts, reconsider_seconds, Trigger, Attempt, Reconsidered, is_retryable,
  reconsider_called, reconsider_event, Poll, poll_all,
}

-- the newest attempt allows another
abbrev pub MayRetry : Trigger → List Attempt → ℕ → Type 0
MayRetry t [] now = Unit
MayRetry t (a ∷ rest) now =
    (is_retryable t a ≡ true) × (a.created_at + seconds reconsider_seconds ≤ now)

reconsider_called-due :
    (upper : String → String) (t : Trigger) (attempts : List Attempt) (now : ℕ)
    → (reconsider_called upper t attempts now).due ≡ true
    → (length attempts < max_event_attempts) × MayRetry t attempts now
unfolding reconsider_called
reconsider_called-due upper t [] now h = (omega arith, tt)
reconsider_called-due upper t (a ∷ rest) now h = (ground arith, (ground arith, ground arith))

-- A conditional that is due is so by its first branch, if the second is not.
first_branch :
    (b : Bool) (x y : Reconsidered)
    → (if b then x else y).due ≡ true
    → y.due ≡ false
    → (b ≡ true) × (x.due ≡ true)
first_branch true x y h k = (refl, h)
first_branch false x y h k = cc

-- An event is due only if its trigger asks for a call, fewer than three attempts were made, and the
-- newest of them, if there is one, is retryable and two minutes old.
pub reconsider_event-due :
    (upper : String → String) (t : Trigger) (attempts : List Attempt) (now : ℕ)
    → (reconsider_event upper t attempts now).due ≡ true
    → (t.call ≡ true) × (length attempts < max_event_attempts) × MayRetry t attempts now
unfolding reconsider_event
reconsider_event-due upper t attempts now h =
    let (asked, due) = first_branch t.call (reconsider_called upper t attempts now) _ h refl in
    let (few, retry) = reconsider_called-due upper t attempts now due in (asked, few, retry)

-- However often an event is polled, from three attempts or fewer, it never gets more than three.
pub poll_all-bound :
    (upper : String → String) (polls : List Poll) (attempts : List Attempt)
    → length attempts ≤ max_event_attempts
    → length (poll_all upper polls attempts) ≤ max_event_attempts
unfolding poll_all
poll_all-bound upper [] attempts h = h
poll_all-bound upper (p ∷ rest) attempts h = poll_all-bound upper rest _ (
    if-intro (λ (xs : List Attempt). length xs ≤ max_event_attempts)
      (reconsider_event upper p.trigger attempts p.now).due _ attempts
      (λ due. omega (arith, (reconsider_event-due upper p.trigger attempts p.now due).1)) (λ _. h))
