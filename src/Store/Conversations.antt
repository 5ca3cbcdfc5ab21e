-- ===== src/Store/Conversations.antt =====
-- crates/mahi-data/src/store.rs: `ConversationStore` of `SqliteBackend`. `f` is the JSON of a conversation.
pub mod Refinement
use mahi_ai.Prelude.{ℕ, Bool, Option, List, Text, text, not}
use mahi_ai.Prelude.Int.{ℤ, leb_ℤ}
use mahi_ai.Contracts.Types.{Uuid}
use mahi_ai.Contracts.Errors.{ContractError}
use mahi_ai.Contracts.Data.{Conversation}
use mahi_ai.Contracts.Result.{Result, ok, ◌>>=◌}
use mahi_ai.Store.{SqliteBackend}
use mahi_ai.Store.Crypto.{Bytes, Primitives}
use mahi_ai.Store.Rows.{Row, Table, delete_by_id, order_by, limit_rows}
use mahi_ai.Store.Sealed.{Format, Fault, statement, fetch, put, open_rows}

abbrev pub collection : Text
collection = text "conversations"

-- `ORDER BY updated_at DESC`
abbrev pub newer : Row ℤ → Row ℤ → Bool
newer a b = not (leb_ℤ a.columns b.columns)

module _ (p : Primitives) (f : Format Conversation) where
  unfoldable pub get : Fault → Uuid → SqliteBackend → Result ContractError (Option Conversation)
  get fault id s = fetch p f s.root collection fault (p.uuid_text id) s.conversations

  unfoldable pub upsert :
      Fault → (drawn : Bytes) → Conversation → SqliteBackend → Result ContractError SqliteBackend
  upsert fault drawn conv s =
      put p f s.root collection fault drawn (p.uuid_text conv.id)
        (p.timestamp_millis conv.updated_at) conv s.conversations
      >>= λ table. ok (record (s) { conversations = table })

  unfoldable pub list :
      Fault → (limit : ℕ) → SqliteBackend → Result ContractError (List Conversation)
  list fault limit s =
      statement fault (limit_rows limit (order_by newer s.conversations))
      >>= open_rows p f s.root collection

unfoldable pub delete :
    Primitives → Fault → Uuid → SqliteBackend → Result ContractError SqliteBackend
delete p fault id s =
    statement fault (record (s) { conversations = delete_by_id (p.uuid_text id) s.conversations })
