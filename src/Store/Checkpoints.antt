-- ===== src/Store/Checkpoints.antt =====
-- crates/mahi-data/src/store.rs: `CheckpointStore` of `SqliteBackend`. `V` is the type of JSON values and `f` the JSON
-- of a checkpoint.
use mahi_ai.Prelude.Int.{leb_ℤ}
use mahi_ai.Prelude.{not, Bool, Option, none, some, List, [], ◌∷◌, Text, text, text_eq, ◌==◌, keep}
use mahi_ai.Contracts.Types.{Uuid}
use mahi_ai.Contracts.Errors.{ContractError}
use mahi_ai.Contracts.Records.{Checkpoint}
use mahi_ai.Contracts.Result.{Result, ok, ◌>>=◌}
use mahi_ai.Store.{SqliteBackend, CheckpointColumns}
use mahi_ai.Store.Crypto.{Bytes, Primitives}
use mahi_ai.Store.Rows.{Row, Table, order_by, limit_rows}
use mahi_ai.Store.Sealed.{Format, Fault, statement, put, open_found}

abbrev pub collection : Text
collection = text "checkpoints"

-- `ORDER BY captured_at DESC`
abbrev pub newer : Row CheckpointColumns → Row CheckpointColumns → Bool
newer a b = not (leb_ℤ a.columns.captured_at b.columns.captured_at)

abbrev pub first {ℓ} : {A : Type ℓ} → List A → Option A
first [] = none
first (x ∷ xs) = some x

-- `SELECT ... WHERE conversation_id = ?1 ORDER BY captured_at DESC LIMIT 1`
unfoldable pub select_latest : Text → Table CheckpointColumns → Option (Row CheckpointColumns)
select_latest conv table =
    first (limit_rows 1 (order_by newer (keep (λ r. r.columns.conversation_id == conv) table)))

module _ (p : Primitives) {V : Type 0} (f : Format (Checkpoint V)) where
  unfoldable pub write :
      Fault → (drawn : Bytes) → Checkpoint V → SqliteBackend → Result ContractError SqliteBackend
  write fault drawn checkpoint s =
      put p f s.root collection fault drawn (p.uuid_text checkpoint.id)
        (record {
          conversation_id = p.uuid_text checkpoint.conversation_id;
          captured_at = p.timestamp_millis checkpoint.captured_at;
        })
        checkpoint s.checkpoints
      >>= λ table. ok (record (s) { checkpoints = table })

  unfoldable pub latest :
      Fault → Uuid → SqliteBackend → Result ContractError (Option (Checkpoint V))
  unfolding select_latest
  latest fault conversation_id s =
      statement fault (select_latest (p.uuid_text conversation_id) s.checkpoints)
      >>= open_found p f s.root collection
