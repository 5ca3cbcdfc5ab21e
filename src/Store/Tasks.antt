-- ===== src/Store/Tasks.antt =====
-- crates/mahi-data/src/store.rs: `TaskStore` of `SqliteBackend`. `f` is the JSON of a task.
use mahi_ai.Prelude.{ℕ, Option, List, Text, text, text_eq}
use mahi_ai.Contracts.Types.{Uuid}
use mahi_ai.Contracts.Errors.{ContractError}
use mahi_ai.Contracts.Records.{TaskItem}
use mahi_ai.Contracts.Result.{Result, ok, ◌>>=◌}
use mahi_ai.Store.{SqliteBackend}
use mahi_ai.Store.Crypto.{Bytes, Primitives}
use mahi_ai.Store.Rows.{delete_by_id, limit_rows}
use mahi_ai.Store.Sealed.{Format, Fault, statement, fetch, put, open_rows}

abbrev pub collection : Text
collection = text "tasks"

module _ (p : Primitives) (f : Format TaskItem) where
  unfoldable pub get : Fault → Uuid → SqliteBackend → Result ContractError (Option TaskItem)
  get fault id s = fetch p f s.root collection fault (p.uuid_text id) s.tasks

  unfoldable pub upsert :
      Fault → (drawn : Bytes) → TaskItem → SqliteBackend → Result ContractError SqliteBackend
  upsert fault drawn task s =
      put p f s.root collection fault drawn (p.uuid_text task.task_id) tt task s.tasks >>= λ table.
      ok (record (s) { tasks = table })

  unfoldable pub list : Fault → (limit : ℕ) → SqliteBackend → Result ContractError (List TaskItem)
  list fault limit s =
      statement fault (limit_rows limit s.tasks) >>= open_rows p f s.root collection

unfoldable pub delete :
    Primitives → Fault → Uuid → SqliteBackend → Result ContractError SqliteBackend
delete p fault id s = statement fault (record (s) { tasks = delete_by_id (p.uuid_text id) s.tasks })
