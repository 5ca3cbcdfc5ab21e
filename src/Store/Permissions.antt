-- ===== src/Store/Permissions.antt =====
-- crates/mahi-data/src/store.rs: `PermissionService` of `SqliteBackend`. `f` is the JSON of a grant.
pub mod Revocation
use mahi_ai.Prelude.{
  ℕ, Bool, true, false, not, ◌&&◌, Option, none, some, List, [], ◌∷◌, ◌++◌, Text, text, text_eq,
  ◌==◌, keep, ltb, find_first, if◌then◌else◌, map,
}
use mahi_ai.Contracts.Types.{Uuid, Timestamp}
use mahi_ai.Contracts.Errors.{ContractError}
use mahi_ai.Contracts.Records.{Skill, SkillScope, TaskItem, Artifact, Setting, Checkpoint}
use mahi_ai.Contracts.Data.{PermissionGrant, PermissionSubject, AuditEvent}
use mahi_ai.Contracts.Result.{Result, ok, err, ◌>>=◌, map_err}
use mahi_ai.Store.{SqliteBackend, CheckpointColumns, GrantColumns, AuditRow}
use mahi_ai.Store.Crypto.{Bytes, Primitives, record_key, encrypt, sha256_hex}
use mahi_ai.Store.Rows.{Row, Table, delete_by_id, order_by, limit_rows}
use mahi_ai.Store.Sealed.{
  Format, Fault, be, ser, enc_err, statement, unseal, fetch, put, open_rows, open_found, seal,
}

abbrev pub collection : Text
collection = text "grants"

abbrev pub subject_key : PermissionSubject → Text
subject_key (PermissionSubject.tool t) = text "tool:" ++ t
subject_key (PermissionSubject.feature t) = text "feature:" ++ t

abbrev pub is_some {ℓ} : {A : Type ℓ} → Option A → Bool
is_some none = false
is_some (some a) = true

abbrev pub is_live : (subject : Text) → Row GrantColumns → Bool
is_live subject r = r.columns.subject == subject && not r.columns.revoked

-- `WHERE subject = ?1 AND revoked = 0 ORDER BY rowid DESC LIMIT 1`
unfoldable pub select_live : (subject : Text) → Table GrantColumns → Option (Row GrantColumns)
select_live subject [] = none
select_live subject (r ∷ rows) =
    let later = select_live subject rows in
    elim later [ some q ↦ some q | none ↦ if is_live subject r then some r else none ]

abbrev pub revoke_row : Text → Row GrantColumns → Row GrantColumns
revoke_row id r =
    if r.id == id
    then (record (r) { columns = record { subject = r.columns.subject; revoked = true } })
    else r

-- `UPDATE grants SET revoked = 1 WHERE grant_id = ?1`
unfoldable pub set_revoked : Text → Table GrantColumns → Table GrantColumns
set_revoked id [] = []
set_revoked id (r ∷ rows) = revoke_row id r ∷ set_revoked id rows

module _ (p : Primitives) (f : Format PermissionGrant) where
  unfoldable pub check :
      Fault
      → PermissionSubject
      → (scope : List Text) → SqliteBackend
      → Result ContractError (Option PermissionGrant)
  check fault subject _ s =
      statement fault (select_live (subject_key subject) s.grants)
      >>= open_found p f s.root collection

  unfoldable pub grant :
      Fault → (drawn : Bytes) → PermissionGrant → SqliteBackend → Result ContractError SqliteBackend
  grant fault drawn g s =
      put p f s.root collection fault drawn (p.uuid_text g.grant_id)
        (record { subject = subject_key g.subject; revoked = is_some g.revoked_at }) g s.grants
      >>= λ table. ok (record (s) { grants = table })

  unfoldable pub list : Fault → SqliteBackend → Result ContractError (List PermissionGrant)
  list fault s = statement fault s.grants >>= open_rows p f s.root collection

unfoldable pub revoke :
    Primitives → Fault → Uuid → SqliteBackend → Result ContractError SqliteBackend
revoke p fault grant_id s =
    statement fault (record (s) { grants = set_revoked (p.uuid_text grant_id) s.grants })
