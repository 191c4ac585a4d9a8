-- ===== src/Audit/Log.antt =====
-- `HashChainAuditLog` of src/kiwit/audit.py. The file is its list of lines, each of which parses to an
-- event; a missing or empty file is the empty list. The identity and the time of an event are arguments.
use kiwi_t.Prelude.{
  String, Bool, true, false, ◌&&◌, Option, none, some, List, [], ◌∷◌, ◌++◌, if◌then◌else◌, str_eq,
}

-- A payload: the value of its key `idempotency_key`, if there is one, and the rest of it.
pub record Payload : Type 0 where
  pub idempotency_key : Option String
  pub content : String

-- the fields of `AuditEvent` that are hashed
pub record Body : Type 0 where
  pub event_id : String
  pub timestamp : String
  pub event_type : String
  pub payload : Payload
  pub previous_hash : String

pub record AuditEvent : Type 0 where
  pub body : Body
  pub event_hash : String

abbrev pub genesis : String
genesis = "GENESIS"

-- the loop of `_last_hash` from the hash that it has so far
unfoldable pub last_hash_from : String → List AuditEvent → String
last_hash_from h [] = h
last_hash_from h (e ∷ rest) = last_hash_from e.event_hash rest

-- `_last_hash`
unfoldable pub last_hash : List AuditEvent → String
last_hash log = last_hash_from genesis log

-- `record.get("payload", {}).get("idempotency_key") == idempotency_key`
unfoldable pub has_key : String → AuditEvent → Bool
has_key key e = elim e.body.payload.idempotency_key [ none ↦ false | some k ↦ str_eq k key ]

-- the loop of `append_once`
unfoldable pub find_key : String → List AuditEvent → Option AuditEvent
find_key key [] = none
find_key key (e ∷ rest) = if has_key key e then some e else find_key key rest

-- The SHA-256 digest of the canonical JSON of a body.
module _ (hash : Body → String) where
  -- the event that `append` makes
  unfoldable pub new_event : String → String → String → Payload → List AuditEvent → AuditEvent
  new_event event_id timestamp event_type payload log =
      let body : Body = record {
        event_id = event_id;
        timestamp = timestamp;
        event_type = event_type;
        payload = payload;
        previous_hash = last_hash log;
      } in
      record { body = body; event_hash = hash body }

  -- `append`: the event, and the file
  unfoldable pub append_event :
      String → String → String → Payload → List AuditEvent → AuditEvent × List AuditEvent
  append_event event_id timestamp event_type payload log =
      let e = new_event event_id timestamp event_type payload log in (e, log ++ e ∷ [])

  -- `append_once` on the event that was found
  unfoldable pub append_unless :
      String
      → String
      → String
      → String
      → Payload
      → List AuditEvent
      → Option AuditEvent
      → AuditEvent × List AuditEvent
  append_unless key event_id timestamp event_type payload log (some e) = (e, log)
  append_unless key event_id timestamp event_type payload log none =
      append_event event_id timestamp event_type (record payload { idempotency_key = some key }) log

  unfoldable pub append_once :
      String → String → String → String → Payload → List AuditEvent → AuditEvent × List AuditEvent
  append_once key event_id timestamp event_type payload log =
      append_unless key event_id timestamp event_type payload log (find_key key log)

  -- the loop of `verify` from the hash of the line before
  unfoldable pub verify_from : String → List AuditEvent → Bool
  verify_from h [] = true
  verify_from h (e ∷ rest) =
      str_eq e.body.previous_hash h
      && (str_eq (hash e.body) e.event_hash && verify_from e.event_hash rest)

  -- `verify`
  unfoldable pub verify : List AuditEvent → Bool
  verify log = verify_from genesis log
