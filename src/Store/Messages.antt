-- ===== src/Store/Messages.antt =====
-- crates/mahi-data/src/store.rs: `MessageStore` of `SqliteBackend`. `V` is the type of JSON values and `f`
-- the JSON of a message.
pub mod Order
pub mod Oldest
pub mod Latest
use mahi_ai.Prelude.{
  ℕ, Bool, not, Option, none, some, List, [], ◌∷◌, Text, text, text_eq, ◌==◌, keep, if◌then◌else◌,
}
use mahi_ai.Prelude.Int.{ℤ, pos, leb_ℤ, i64_succ}
use mahi_ai.Contracts.Types.{Uuid}
use mahi_ai.Contracts.Errors.{ContractError}
use mahi_ai.Contracts.Data.{Message}
use mahi_ai.Contracts.Result.{Result, ok, ◌>>=◌}
use mahi_ai.Store.{SqliteBackend, MessageColumns}
use mahi_ai.Store.Crypto.{Bytes, Primitives}
use mahi_ai.Store.Rows.{Row, Table, order_by, limit_rows}
use mahi_ai.Store.Sealed.{Format, Fault, statement, put, open_rows}

abbrev pub collection : Text
collection = text "messages"

-- `ORDER BY sequence_num ASC`
abbrev pub earlier : Row MessageColumns → Row MessageColumns → Bool
earlier a b = not (leb_ℤ b.columns.sequence_num a.columns.sequence_num)

-- `WHERE conversation_id = ?1`
abbrev pub of_conversation : Text → Table MessageColumns → Table MessageColumns
of_conversation conv table = keep (λ r. r.columns.conversation_id == conv) table

-- `SELECT MAX(sequence_num)`
unfoldable pub max_sequence : Table MessageColumns → Option ℤ
max_sequence [] = none
max_sequence (r ∷ rows) = elim (max_sequence rows) [
  | none ↦ some r.columns.sequence_num
  | some m ↦ some (if leb_ℤ r.columns.sequence_num m then m else r.columns.sequence_num)
]

-- `max.map(|m| m + 1).unwrap_or(0)`, on 64 bits.
abbrev pub following : Option ℤ → ℤ
following none = pos 0
following (some m) = i64_succ m

module _ (p : Primitives) {V : Type 0} where
  unfoldable pub append :
      Format (Message V)
      → Fault
      → (drawn : Bytes) → Message V
      → SqliteBackend
      → Result ContractError SqliteBackend
  append f fault drawn msg s =
      put p f s.root collection fault drawn (p.uuid_text msg.id)
        (record {
          conversation_id = p.uuid_text msg.conversation_id;
          sequence_num = msg.sequence_num;
        })
        msg s.messages
      >>= λ table. ok (record (s) { messages = table })

  unfoldable pub range :
      Format (Message V)
      → Fault
      → Uuid
      → (limit : ℕ) → SqliteBackend
      → Result ContractError (List (Message V))
  range f fault conversation_id limit s =
      statement fault (
        limit_rows limit
          (order_by earlier (of_conversation (p.uuid_text conversation_id) s.messages)))
      >>= open_rows p f s.root collection

unfoldable pub next_sequence : Primitives → Fault → Uuid → SqliteBackend → Result ContractError ℤ
unfolding max_sequence
next_sequence p fault conversation_id s =
    statement fault (max_sequence (of_conversation (p.uuid_text conversation_id) s.messages))
    >>= λ max. ok (following max)
