-- ===== src/Audit/Tampering.antt =====
-- Tampering with the log of src/kiwit/audit.py shows in its last hash.
use kiwi_t.Prelude.{◌≡◌, ◌≢◌, refl, sym, ◌∙◌, ap, String, true, List, [], ◌∷◌, ◌++◌, All, All-mono}
use kiwi_t.Audit.Log.{Body, AuditEvent, genesis, last_hash_from, last_hash, verify_from, verify}
use kiwi_t.Audit.Chain.{verify_from-cons}

-- two events of which the bodies are the same if their hashes are
abbrev Apart : (Body → String) → AuditEvent → AuditEvent → Type 0
Apart hash e f = hash e.body ≡ hash f.body → e.body ≡ f.body

-- the hash of an event is not the start of a chain
abbrev Started : (Body → String) → AuditEvent → Type 0
Started hash e = hash e.body ≢ genesis

-- Among the events of two logs the hash has no collision, and it is never the start of a chain.
pub record IsCollisionFree (hash : Body → String) (a b : List AuditEvent) : Type 0 where
  pub injective : All (λ e. All (Apart hash e) b) a
  pub started : All (Started hash) a × All (Started hash) b

abbrev rev_onto : List AuditEvent → List AuditEvent → List AuditEvent
rev_onto [] acc = acc
rev_onto (x ∷ xs) acc = rev_onto xs (x ∷ acc)

All-rev_onto :
    (P : AuditEvent → Type 0) (xs acc : List AuditEvent)
    → All P xs
    → All P acc
    → All P (rev_onto xs acc)
All-rev_onto P [] acc h k = k
All-rev_onto P (x ∷ xs) acc h k = All-rev_onto P xs (x ∷ acc) h.1 (h.0, k)

rev_onto-twice :
    (xs acc ys : List AuditEvent) → rev_onto (rev_onto xs acc) ys ≡ rev_onto acc (xs ++ ys)
rev_onto-twice [] acc ys = refl
rev_onto-twice (x ∷ xs) acc ys = rev_onto-twice xs (x ∷ acc) ys

append-none : (xs : List AuditEvent) → xs ++ [] ≡ xs
append-none [] = refl
append-none (x ∷ xs) = ap (λ l. x ∷ l) (append-none xs)

rev_twice : (xs : List AuditEvent) → rev_onto (rev_onto xs []) [] ≡ xs
rev_twice xs = rev_onto-twice xs [] [] ∙ append-none xs

-- the hash of the newest event, which comes first
abbrev newest : List AuditEvent → String
newest [] = genesis
newest (e ∷ rest) = e.event_hash

module _ (hash : Body → String) where
  -- a chain with its newest event first
  abbrev IsChain : List AuditEvent → Type 0
  IsChain [] = Unit
  IsChain (e ∷ rest) =
      (e.body.previous_hash ≡ newest rest) × (hash e.body ≡ e.event_hash) × IsChain rest

  verify_from-IsChain :
      (log acc : List AuditEvent)
      → IsChain acc
      → verify_from hash (newest acc) log ≡ true
      → IsChain (rev_onto log acc) × (newest (rev_onto log acc) ≡ last_hash_from (newest acc) log)
  unfolding last_hash_from
  verify_from-IsChain [] acc c v = (c, refl)
  verify_from-IsChain (e ∷ rest) acc c v =
      let (previous, hashed, v') = verify_from-cons hash (newest acc) e rest v in
      verify_from-IsChain rest (e ∷ acc) (previous, hashed, c) v'

  -- Chains with the same newest hash are the same.
  same_chain :
      (a b : List AuditEvent)
      → All (λ e. All (Apart hash e) b) a
      → All (Started hash) a
      → All (Started hash) b
      → IsChain a
      → IsChain b
      → newest a ≡ newest b
      → a ≡ b
  same_chain [] [] x s t c d h = refl
  same_chain [] (f ∷ b) x s t c d h = absurd (t.0 (d.1 ∙ sym h))
  same_chain (e ∷ a) [] x s t c d h = absurd (s.0 (c.1 ∙ h))
  same_chain (e ∷ a) (f ∷ b) x s t c d h =
      let bodies : e.body ≡ f.body = x.0.0 (c.1 ∙ h ∙ sym d.1) in
      let rest : a ≡ b =
        same_chain a b (All-mono _ _ (λ g y. y.1) a x.1) s.1 t.1 c.2 d.2
          (sym c.0 ∙ ap (λ (y : Body). y.previous_hash) bodies ∙ d.0) in
      let same : e ≡ f =
        ap (λ (y : Body). record { body = y; event_hash = e.event_hash }) bodies
        ∙ ap (λ (y : String). record { body = f.body; event_hash = y }) h in
      ap (λ (y : AuditEvent). y ∷ a) same ∙ ap (λ (l : List AuditEvent). f ∷ l) rest

  IsCollisionFree-rev :
      (a b : List AuditEvent)
      → IsCollisionFree hash a b
      → IsCollisionFree hash (rev_onto a []) (rev_onto b [])
  IsCollisionFree-rev a b free = record {
    injective =
        All-mono _ _ (λ e h. All-rev_onto (Apart hash e) b [] h tt) (rev_onto a [])
          (All-rev_onto (λ e. All (Apart hash e) b) a [] free.injective tt);
    started = (
      All-rev_onto (Started hash) a [] free.started.0 tt,
      All-rev_onto (Started hash) b [] free.started.1 tt,
    );
  }

-- When the hash has no collisions among their events, two logs that verify and have the same last hash are the same
-- log: no event of one can be changed, dropped or inserted without a change of the last hash.
pub verify-determines :
    (hash : Body → String) (a b : List AuditEvent)
    → IsCollisionFree hash a b
    → verify hash a ≡ true
    → verify hash b ≡ true
    → last_hash a ≡ last_hash b
    → a ≡ b
unfolding verify last_hash
verify-determines hash a b free v w h =
    let (c, at) = verify_from-IsChain hash a [] tt v in
    let (d, bt) = verify_from-IsChain hash b [] tt w in
    let f = IsCollisionFree-rev hash a b free in
    sym (rev_twice a)
    ∙ ap (λ l. rev_onto l [])
        (same_chain hash (rev_onto a []) (rev_onto b []) f.injective f.started.0 f.started.1 c d
          (at ∙ h ∙ sym bt))
    ∙ rev_twice b
