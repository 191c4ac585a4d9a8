-- ===== src/Audit/Tests.antt =====
-- A log of two events.
use kiwi_t.Prelude.{◌≡◌, ◌≢◌, refl, String, true, false, none, List, [], ◌∷◌, str_eq, eq_iff}
use kiwi_t.Audit.Log.{Payload, Body, AuditEvent, append_once, verify_from, verify}
use kiwi_t.Audit.Chain.{append_once-verify}
use kiwi_t.Audit.Tampering.{IsCollisionFree, verify-determines}

abbrev hash : Body → String
hash b = b.event_id

abbrev payload : Payload
payload = record { idempotency_key = none; content = "{}" }

abbrev first_event : AuditEvent
first_event = record {
  body = record {
    event_id = "e1";
    timestamp = "t1";
    event_type = "kind";
    payload = payload;
    previous_hash = "GENESIS";
  };
  event_hash = "e1";
}

abbrev second_event : AuditEvent
second_event = record {
  body = record {
    event_id = "e2";
    timestamp = "t2";
    event_type = "kind";
    payload = payload;
    previous_hash = "e1";
  };
  event_hash = "e2";
}

abbrev log : List AuditEvent
log = first_event ∷ second_event ∷ []

verifies : verify hash log ≡ true
unfolding verify verify_from
verifies = refl

-- A log without its first line does not verify.
test_dropped : verify hash (second_event ∷ []) ≡ false
unfolding verify verify_from
test_dropped = refl

append_once-verify_example :
    verify hash (append_once hash "k" "e3" "t3" "kind" payload log).1 ≡ true
append_once-verify_example = append_once-verify hash "k" "e3" "t3" "kind" payload log verifies

-- different texts
differ : (a b : String) → str_eq a b ≡ false → a ≢ b
differ a b h e = let same = (eq_iff a b).1 e in cc

free : IsCollisionFree hash log log
free = record {
  injective = (
    ((λ h. refl), ((λ h. absurd (differ "e1" "e2" refl h)), tt)),
    (((λ h. absurd (differ "e2" "e1" refl h)), ((λ h. refl), tt)), tt),
  );
  started = (
    (differ "e1" "GENESIS" refl, (differ "e2" "GENESIS" refl, tt)),
    (differ "e1" "GENESIS" refl, (differ "e2" "GENESIS" refl, tt)),
  );
}

verify-determines_example : log ≡ log
verify-determines_example = verify-determines hash log log free verifies verifies refl
