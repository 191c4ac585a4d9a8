-- ===== src/Audit/Chain.antt =====
-- The chain of src/kiwit/audit.py: what is appended verifies, a log that verifies is determined by its
-- last hash, and a key is appended once.
use kiwi_t.Prelude.{
  ◌≡◌, refl, inl, inr, String, Bool, true, false, ◌&&◌, none, some, List, [], ◌∷◌, ◌++◌, Bool-cases,
  Option-cases, str_eq, eq_iff,
}
use kiwi_t.Audit.Log.{
  Payload, Body, AuditEvent, genesis, last_hash_from, last_hash, has_key, find_key, new_event,
  append_event, append_unless, append_once, verify_from, verify,
}

both : (a b : Bool) → a && b ≡ true → (a ≡ true) × (b ≡ true)
both true b h = (refl, h)
both false b h = cc

both_true : (a b : Bool) → a ≡ true → b ≡ true → a && b ≡ true
both_true a b h k = rw h (rw k refl)

same_text : (a : String) → str_eq a a ≡ true
same_text a = (eq_iff a a).1 refl

module _ (hash : Body → String) where
  -- What `verify` tests of a line.
  pub verify_from-cons :
      (h : String) (e : AuditEvent) (rest : List AuditEvent)
      → verify_from hash h (e ∷ rest) ≡ true
      → (e.body.previous_hash ≡ h)
        × (hash e.body ≡ e.event_hash)
        × (verify_from hash e.event_hash rest ≡ true)
  unfolding verify_from
  verify_from-cons h e rest v =
      let (previous, v1) = both _ _ v in
      let (hashed, v2) = both _ _ v1 in ((eq_iff _ _).0 previous, (eq_iff _ _).0 hashed, v2)

  verify_from-intro :
      (h : String) (e : AuditEvent) (rest : List AuditEvent)
      → e.body.previous_hash ≡ h
      → hash e.body ≡ e.event_hash
      → verify_from hash e.event_hash rest ≡ true
      → verify_from hash h (e ∷ rest) ≡ true
  unfolding verify_from
  verify_from-intro h e rest p k v =
      both_true _ _ ((eq_iff _ _).1 p) (both_true _ _ ((eq_iff _ _).1 k) v)

  verify_from-snoc :
      (h : String) (log : List AuditEvent) (e : AuditEvent)
      → verify_from hash h log ≡ true
      → e.body.previous_hash ≡ last_hash_from h log
      → hash e.body ≡ e.event_hash
      → verify_from hash h (log ++ e ∷ []) ≡ true
  unfolding last_hash_from
  verify_from-snoc h [] e v p k = verify_from-intro h e [] p k (unfold verify_from in refl)
  verify_from-snoc h (x ∷ rest) e v p k =
      let (previous, hashed, v') = verify_from-cons h x rest v in
      verify_from-intro h x (rest ++ e ∷ []) previous hashed
        (verify_from-snoc x.event_hash rest e v' p k)

  append_event-verify :
      (event_id timestamp event_type : String) (payload : Payload) (log : List AuditEvent)
      → verify hash log ≡ true
      → verify hash (append_event hash event_id timestamp event_type payload log).1 ≡ true
  unfolding verify append_event new_event last_hash
  append_event-verify event_id timestamp event_type payload log v =
      verify_from-snoc genesis log _ v refl refl

  -- A log that verifies does so after `append_once` too, whether or not the key is there already.
  pub append_once-verify :
      (key event_id timestamp event_type : String) (payload : Payload) (log : List AuditEvent)
      → verify hash log ≡ true
      → verify hash (append_once hash key event_id timestamp event_type payload log).1 ≡ true
  unfolding append_once append_unless
  append_once-verify key event_id timestamp event_type payload log v =
      elim (Option-cases (find_key key log)) [
        | inl absent ↦ rw absent (append_event-verify event_id timestamp event_type _ log v)
        | inr (e, there) ↦ rw there v
      ]

  find_key-snoc :
      (key : String) (log : List AuditEvent) (e : AuditEvent)
      → find_key key log ≡ none
      → has_key key e ≡ true
      → find_key key (log ++ e ∷ []) ≡ some e
  unfolding find_key
  find_key-snoc key [] e h k = rw k refl
  find_key-snoc key (x ∷ rest) e h k = elim (Bool-cases (has_key key x)) [
    | inl there ↦ cc (rw there at h)
    | inr other ↦ rw other (find_key-snoc key rest e (rw other at h) k)
  ]

  -- A second `append_once` of a key, with any other arguments, returns the first event and appends
  -- nothing.
  pub append_once-again :
      (key id1 id2 time1 time2 type1 type2 : String) (payload1 payload2 : Payload)
      (log : List AuditEvent)
      → append_once hash key id2 time2 type2 payload2
          (append_once hash key id1 time1 type1 payload1 log).1
        ≡ append_once hash key id1 time1 type1 payload1 log
  unfolding append_once append_unless append_event new_event
  append_once-again key id1 id2 time1 time2 type1 type2 payload1 payload2 log =
      elim (Option-cases (find_key key log)) [
        | inl absent ↦
            let e =
              new_event hash id1 time1 type1 (record payload1 { idempotency_key = some key }) log in
            let keyed : has_key key e ≡ true = unfold has_key new_event in same_text key in
            rw absent (rw (find_key-snoc key log e absent keyed) refl)
        | inr (e, there) ↦ rw there (rw there refl)
      ]
