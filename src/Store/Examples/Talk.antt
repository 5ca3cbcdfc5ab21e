-- ===== src/Store/Examples/Talk.antt =====
-- A conversation of two messages, and a search of memory.
use mahi_ai.Store.Examples.Formats.{state_of}
use mahi_ai.Prelude.{ℕ, ◌≡◌, ◌≢◌, refl, true, none, some, [], ◌∷◌, Text, length, arith}
use mahi_ai.Prelude.Int.{pos, i64_max}
use mahi_ai.Contracts.Types.{hosted}
use mahi_ai.Contracts.Data.{Message, MessageRole}
use mahi_ai.Contracts.Records.{MemoryRecord, MemoryKind}
use mahi_ai.Contracts.Result.{ok, ◌>>=◌}
use mahi_ai.Store.{SqliteBackend, MessageColumns}
use mahi_ai.Store.Crypto.{encrypt, decrypt}
use mahi_ai.Store.Rows.{
  Table, select_by_id, delete_by_id, insert_or_replace, limit_rows, place, order_by,
}
use mahi_ai.Store.Sealed.{statement, seal, unseal, open_rows, put}
use mahi_ai.Store.Messages
use mahi_ai.Store.Messages.Oldest.{Oldest}
use mahi_ai.Store.Messages.Latest.{AllBelow, next_sequence-AllBelow, range-append}
use mahi_ai.Store.Memory
use mahi_ai.Store.Examples.Formats.{plain, empty_backend, nonce}
use mahi_ai.Store.Examples.Formats.Content.{message_format, memory_format}

abbrev said : (id sequence : ℕ) → Message (Unit {0})
said id sequence = record {
  id = id;
  conversation_id = 5;
  role = MessageRole.user;
  content = [];
  model_id = none;
  mode = hosted;
  created_at = 100;
  sequence_num = pos sequence;
  approval_refs = [];
}

one_said : SqliteBackend
one_said = state_of (Messages.append plain message_format none nonce (said 1 0) empty_backend)

two_said : SqliteBackend
two_said = state_of (Messages.append plain message_format none nonce (said 2 1) one_said)

said_second : Messages.append plain message_format none nonce (said 2 1) one_said ≡ ok two_said
unfolding two_said one_said Messages.append put seal encrypt insert_or_replace delete_by_id
said_second = refl

not_full :
    Messages.max_sequence (Messages.of_conversation (5 ∷ []) one_said.messages) ≢ some (pos i64_max)
unfolding one_said Messages.append put seal encrypt insert_or_replace delete_by_id
    Messages.max_sequence
not_full h = cc h

drawn_next : Messages.next_sequence plain none 5 one_said ≡ ok (pos 1)
unfolding one_said Messages.append put seal encrypt insert_or_replace delete_by_id
    Messages.max_sequence Messages.next_sequence
drawn_next = refl

next_sequence-AllBelow_example :
    AllBelow (pos 1) (Messages.of_conversation (5 ∷ []) one_said.messages)
next_sequence-AllBelow_example =
    next_sequence-AllBelow plain none 5 one_said (pos 1) not_full drawn_next

new_id : select_by_id (2 ∷ []) one_said.messages ≡ none
unfolding one_said Messages.append put seal encrypt insert_or_replace delete_by_id select_by_id
new_id = refl

one_held : length (Messages.of_conversation (5 ∷ []) one_said.messages) ≡ 1
unfolding one_said Messages.append put seal encrypt insert_or_replace delete_by_id
one_held = refl

range-append_example :
    (oldest : Table MessageColumns) × Oldest 1
      (Messages.of_conversation (plain.uuid_text 5) one_said.messages)
      oldest
    × (Messages.range plain message_format none 5 1 one_said ≡ (
        statement none oldest >>= open_rows plain message_format one_said.root Messages.collection))
    × (Messages.range plain message_format none 5 1 two_said
        ≡ Messages.range plain message_format none 5 1 one_said)
range-append_example =
    range-append plain message_format none none nonce (said 2 1) 1 one_said two_said (omega arith)
      (omega (arith, one_held)) new_id next_sequence-AllBelow_example said_second

answered : Messages.range plain message_format none 5 200 one_said ≡ ok (said 1 0 ∷ [])
unfolding one_said Messages.append Messages.range put seal encrypt insert_or_replace delete_by_id
    limit_rows order_by place open_rows unseal decrypt
answered = refl

abbrev remembered : (id : ℕ) → Text → MemoryRecord
remembered id words = record {
  id = id;
  space_id = none;
  kind = MemoryKind.fact;
  content = words;
  embedding_ref = none;
  source_message_id = none;
  created_at = 1;
  updated_at = 1;
  user_visible = true;
  user_confirmed = true;
}

two_remembered : SqliteBackend
two_remembered = state_of (
    Memory.upsert plain memory_format none nonce (remembered 1 (6 ∷ 8 ∷ [])) empty_backend
    >>= Memory.upsert plain memory_format none nonce (remembered 2 (8 ∷ [])))

-- A limit of 0 still answers the first record that fits.
zero_limit :
    Memory.semantic_search plain memory_format (λ t. t) none (8 ∷ []) none 0 two_remembered
    ≡ ok (remembered 1 (6 ∷ 8 ∷ []) ∷ [])
unfolding two_remembered Memory.upsert Memory.semantic_search Memory.search_rows Memory.consider put
    seal encrypt insert_or_replace delete_by_id unseal decrypt
zero_limit = refl
