-- ===== src/Store/Audit.antt =====
-- crates/mahi-data/src/store.rs: `AuditLog` of `SqliteBackend`. `V` is the type of JSON values and `f` the JSON of an
-- event.
pub mod Chain
pub mod Integrity
use mahi_ai.Prelude.{
  ℕ, Bool, true, false, not, ◌&&◌, Option, none, some, List, [], ◌∷◌, ◌++◌, Text, text, text_eq,
  ◌==◌, keep, ltb, find_first, if◌then◌else◌, map,
}
use mahi_ai.Contracts.Types.{Uuid, Timestamp}
use mahi_ai.Contracts.Errors.{ContractError}
use mahi_ai.Contracts.Records.{Skill, SkillScope, TaskItem, Artifact, Setting, Checkpoint}
use mahi_ai.Contracts.Data.{PermissionGrant, PermissionSubject, AuditEvent}
use mahi_ai.Contracts.Result.{Result, ok, err, ◌>>=◌, map_err}
use mahi_ai.Store.{SqliteBackend, CheckpointColumns, GrantColumns, AuditRow}
use mahi_ai.Store.Crypto.{Bytes, Primitives, record_key, encrypt, sha256_hex}
use mahi_ai.Store.Rows.{Row, Table, delete_by_id, order_by, limit_rows}
use mahi_ai.Store.Sealed.{
  Format, Fault, be, ser, enc_err, statement, unseal, fetch, put, open_rows, open_found, seal,
}

abbrev pub collection : Text
collection = text "audit"

-- The `hash` column of the last row, or the empty text: what the next event is chained to.
abbrev pub last_hash_from : Text → List AuditRow → Text
last_hash_from h [] = h
last_hash_from h (row ∷ rows) = last_hash_from row.hash rows

abbrev pub last_hash : List AuditRow → Text
last_hash rows = last_hash_from [] rows

abbrev pub has_event : Text → List AuditRow → Bool
has_event id [] = false
has_event id (row ∷ rows) = if row.event_id == id then true else has_event id rows

-- What SQLite reports of a second row with an `event_id`.
abbrev pub not_unique : Text
not_unique = text "UNIQUE constraint failed: audit.event_id"

-- `INSERT INTO audit`, whose `event_id` is UNIQUE.
unfoldable pub insert_row : Fault → AuditRow → List AuditRow → Result ContractError (List AuditRow)
insert_row fault row rows =
    if has_event row.event_id rows then err (be not_unique) else statement fault (rows ++ row ∷ [])

abbrev pub session_text : Primitives → Option Uuid → Option Text
session_text p none = none
session_text p (some id) = some (p.uuid_text id)

-- `WHERE session_id = ?1`, false where the column is NULL.
abbrev pub in_session : Text → AuditRow → Bool
in_session session row = elim row.session_id [ none ↦ false | some t ↦ t == session ]

abbrev pub of_session : Option Text → List AuditRow → List AuditRow
of_session none rows = rows
of_session (some session) rows = keep (in_session session) rows

module _ (p : Primitives) {V : Type 0} (f : Format (AuditEvent V)) where
  -- The row of an event that carries its `prev_hash`.
  unfoldable pub audit_row : (root drawn : Bytes) → AuditEvent V → Result ContractError AuditRow
  audit_row root drawn event =
      let id = p.uuid_text event.event_id in
      map_err ser (f.to_vec event) >>= λ json.
      map_err (λ _. enc_err)
        (encrypt p drawn (record_key p root collection (p.as_bytes id)) json (p.as_bytes id))
      >>= λ sealed. ok (record {
        event_id = id;
        session_id = session_text p event.session_id;
        prev_hash = event.prev_hash;
        hash = sha256_hex p json;
        enc = sealed.0;
        nonce = sealed.1;
      })

  unfoldable pub append :
      (reading writing : Fault) (drawn : Bytes)
      → AuditEvent V
      → SqliteBackend
      → Result ContractError SqliteBackend
  append reading writing drawn event s = statement reading (last_hash s.audit) >>= λ prev_hash.
      audit_row s.root drawn (record (event) { prev_hash = prev_hash }) >>= λ row.
      insert_row writing row s.audit >>= λ rows. ok (record (s) { audit = rows })

  unfoldable pub open_events :
      (root : Bytes) → List AuditRow → Result ContractError (List (AuditEvent V))
  open_events root [] = ok []
  open_events root (row ∷ rows) =
      let rest = open_events root rows in
      unseal p f root collection row.event_id row.enc row.nonce >>= λ event.
      rest >>= λ events. ok (event ∷ events)

  unfoldable pub query :
      Fault
      → (session_id : Option Uuid) (limit : ℕ) → SqliteBackend
      → Result ContractError (List (AuditEvent V))
  query fault session_id limit s =
      statement fault (limit_rows limit (of_session (session_text p session_id) s.audit))
      >>= open_events s.root

  -- The loop of `verify_chain`.
  unfoldable pub verify_rows :
      (root : Bytes) (expected_prev : Text) → List AuditRow → Result ContractError Bool
  verify_rows root expected_prev [] = ok true
  verify_rows root expected_prev (row ∷ rows) =
      let rest = verify_rows root row.hash rows in
      if not (row.prev_hash == expected_prev)
      then ok false
      else (unseal p f root collection row.event_id row.enc row.nonce >>= λ event.
          map_err ser (f.to_vec event) >>= λ json.
          (if not (sha256_hex p json == row.hash) then ok false else rest))

  unfoldable pub verify_chain : Fault → SqliteBackend → Result ContractError Bool
  verify_chain fault s = statement fault s.audit >>= verify_rows s.root []
