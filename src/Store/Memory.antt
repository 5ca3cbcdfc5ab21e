-- ===== src/Store/Memory.antt =====
-- crates/mahi-data/src/store.rs: `MemoryStore` of `SqliteBackend`. `f` is the JSON of a memory record;
-- `to_lowercase` of the standard library is a parameter, for Unicode's tables.
pub mod Search
use mahi_ai.Prelude.{
  ℕ, suc, Bool, true, false, ◌||◌, Option, none, some, List, [], ◌∷◌, Text, text, text_eq, ◌==◌,
  keep, leb, is_empty, if◌then◌else◌,
}
use mahi_ai.Prelude.Chars.{contains}
use mahi_ai.Contracts.Types.{Uuid}
use mahi_ai.Contracts.Errors.{ContractError}
use mahi_ai.Contracts.Records.{MemoryRecord}
use mahi_ai.Contracts.Result.{Result, ok, ◌>>=◌}
use mahi_ai.Store.{SqliteBackend}
use mahi_ai.Store.Crypto.{Bytes, Primitives}
use mahi_ai.Store.Rows.{Row, Table, delete_by_id}
use mahi_ai.Store.Sealed.{Format, Fault, statement, fetch, put, open_row}

abbrev pub collection : Text
collection = text "memory"

abbrev pub space_text : Primitives → Option Uuid → Option Text
space_text p none = none
space_text p (some id) = some (p.uuid_text id)

-- `space_id = ?1`, false where the column is NULL.
abbrev pub in_space : Text → Row (Option Text) → Bool
in_space space row = elim row.columns [ none ↦ false | some t ↦ t == space ]

-- The rows that a search looks at.
abbrev pub candidates : Option Text → Table (Option Text) → Table (Option Text)
candidates none table = table
candidates (some space) table = keep (in_space space) table

module _ (p : Primitives) (f : Format MemoryRecord) where
  unfoldable pub get : Fault → Uuid → SqliteBackend → Result ContractError (Option MemoryRecord)
  get fault id s = fetch p f s.root collection fault (p.uuid_text id) s.memory

  unfoldable pub upsert :
      Fault → (drawn : Bytes) → MemoryRecord → SqliteBackend → Result ContractError SqliteBackend
  upsert fault drawn rec s =
      put p f s.root collection fault drawn (p.uuid_text rec.id) (space_text p rec.space_id) rec
        s.memory
      >>= λ table. ok (record (s) { memory = table })

  module _ (to_lowercase : Text → Text) where
    abbrev pub matches : (needle : Text) → MemoryRecord → Bool
    matches needle rec = is_empty needle || contains needle (to_lowercase rec.content)

    -- The body of the loop: what follows a record that fits, and what follows one that does not.
    unfoldable pub consider :
        (needle : Text) (limit found : ℕ) (further past : Result ContractError (List MemoryRecord))
        → MemoryRecord
        → Result ContractError (List MemoryRecord)
    consider needle limit found further past rec =
        if matches needle rec
        then (if leb limit (suc found)
            then ok (rec ∷ [])
            else (further >>= λ recs. ok (rec ∷ recs)))
        else past

    -- The loop of `semantic_search`, `found` records after its start.
    unfoldable pub search_rows :
        (root : Bytes) (needle : Text) (limit found : ℕ)
        → Table (Option Text)
        → Result ContractError (List MemoryRecord)
    search_rows root needle limit found [] = ok []
    search_rows root needle limit found (row ∷ rows) =
        let past = search_rows root needle limit found rows in
        let further = search_rows root needle limit (suc found) rows in
        open_row p f root collection row >>= consider needle limit found further past

    unfoldable pub semantic_search :
        Fault
        → (query : Text) (space_id : Option Uuid) (limit : ℕ) → SqliteBackend
        → Result ContractError (List MemoryRecord)
    semantic_search fault query space_id limit s =
        statement fault (candidates (space_text p space_id) s.memory)
        >>= search_rows s.root (to_lowercase query) limit 0

unfoldable pub delete :
    Primitives → Fault → Uuid → SqliteBackend → Result ContractError SqliteBackend
delete p fault id s =
    statement fault (record (s) { memory = delete_by_id (p.uuid_text id) s.memory })
