-- ===== src/Store/Examples/Log.antt =====
-- The audit log with three events.
use mahi_ai.Prelude.{zero}
use mahi_ai.Store.Examples.Formats.{state_of}
use mahi_ai.Contracts.Data.{AuditEventType, AuditActor, AuditOutcome}
use mahi_ai.Prelude.{ℕ, suc, ◌≡◌, ◌≢◌, ◌↔◌, refl, true, false, none, List, [], ◌∷◌, ◌++◌}
use mahi_ai.Contracts.Data.{AuditEvent}
use mahi_ai.Contracts.Result.{ok}
use mahi_ai.Store.{SqliteBackend, AuditRow}
use mahi_ai.Store.Crypto.{Bytes, encrypt, decrypt, sha256_hex}
use mahi_ai.Store.Sealed.{unseal}
use mahi_ai.Store.Audit
use mahi_ai.Store.Audit.Chain.{Rereads}
use mahi_ai.Store.Audit.Integrity.{append-verify_chain, verify_chain-removed}
use mahi_ai.Store.Examples.Formats.{plain, plain-OpensSealed, empty_backend, nonce}
use mahi_ai.Store.Examples.Formats.Security.{event_format}

abbrev event : (id : ℕ) → AuditEvent (Unit {0})
event id = record {
  event_id = id;
  device_id = 7;
  session_id = none;
  event_type = AuditEventType.tool_call;
  actor = AuditActor.agent;
  resource_ref = none;
  outcome = AuditOutcome.allowed;
  metadata = tt;
  timestamp = 100;
  prev_hash = [];
}

logged : List ℕ → SqliteBackend → SqliteBackend
logged [] s = s
logged (id ∷ ids) s =
    logged ids (state_of (Audit.append plain event_format none none nonce (event id) s))

one_event : SqliteBackend
one_event = logged (1 ∷ []) empty_backend

three_events : SqliteBackend
three_events = logged (1 ∷ 2 ∷ 3 ∷ []) empty_backend

one_verified : Audit.verify_chain plain event_format none one_event ≡ ok true
unfolding one_event logged Audit.append Audit.audit_row Audit.insert_row encrypt decrypt sha256_hex
    Audit.verify_chain Audit.verify_rows unseal
one_verified = refl

three_verified : Audit.verify_chain plain event_format none three_events ≡ ok true
unfolding three_events logged Audit.append Audit.audit_row Audit.insert_row encrypt decrypt
    sha256_hex Audit.verify_chain Audit.verify_rows unseal
three_verified = refl

abbrev second_added : SqliteBackend
second_added = state_of (Audit.append plain event_format none none nonce (event 2) one_event)

second_logged :
    Audit.append plain event_format none none nonce (event 2) one_event ≡ ok second_added
unfolding one_event logged Audit.append Audit.audit_row Audit.insert_row encrypt sha256_hex
second_logged = refl

append-verify_chain_example :
    (json : Bytes) × (event_format.to_vec
        (record (event 2) { prev_hash = Audit.last_hash one_event.audit })
      ≡ ok json)
    × ((Audit.verify_chain plain event_format none second_added ≡ ok true)
        ↔ Rereads plain event_format json)
append-verify_chain_example =
    append-verify_chain plain event_format plain-OpensSealed none none nonce (event 2) one_event
      second_added refl one_verified second_logged

abbrev row_at : ℕ → List AuditRow → AuditRow
row_at n [] = record {
  event_id = [];
  session_id = none;
  prev_hash = [];
  hash = [];
  enc = [];
  nonce = [];
}
row_at zero (row ∷ rows) = row
row_at (suc n) (row ∷ rows) = row_at n rows

first_row : AuditRow
first_row = row_at 0 three_events.audit

second_row : AuditRow
second_row = row_at 1 three_events.audit

third_row : AuditRow
third_row = row_at 2 three_events.audit

three_rows : three_events.audit ≡ [] ++ first_row ∷ second_row ∷ third_row ∷ []
unfolding three_events logged Audit.append Audit.audit_row Audit.insert_row encrypt sha256_hex
    first_row second_row third_row
three_rows = refl

hashed : first_row.hash ≢ []
unfolding three_events logged Audit.append Audit.audit_row Audit.insert_row encrypt sha256_hex
    first_row
hashed h = cc h

verify_chain-removed_example :
    Audit.verify_chain plain event_format none
      (record (three_events) { audit = [] ++ second_row ∷ third_row ∷ [] })
    ≡ ok false
verify_chain-removed_example =
    verify_chain-removed plain event_format three_events [] first_row second_row (third_row ∷ [])
      three_rows three_verified hashed
