-- ===== src/Store/Examples.antt =====
-- The conversations on concrete records, under the cipher that leaves its message as it is.
mod Formats
mod Log
mod Grants
mod Talk
use mahi_ai.Store.Examples.Formats.{state_of}
use mahi_ai.Store.Conversations.Refinement.{Change}
use mahi_ai.Prelude.{nat_eq}
use mahi_ai.Prelude.{
  ℕ, suc, ◌≡◌, ◌≢◌, refl, inl, inr, ◌⊎◌, ◌≤◌, Bool, true, false, Option, none, some, List, [], ◌∷◌,
  ◌++◌, Text, All, length, Within, arith,
}
use mahi_ai.Prelude.Int.{ℤ, pos, negsuc}
use mahi_ai.Dict.{lookup, insert, remove}
use mahi_ai.Contracts.Types.{Uuid, ComputeMode, hosted}
use mahi_ai.Contracts.Errors.{ContractError}
use mahi_ai.Contracts.Data.{
  Conversation, Message, MessageRole, AuditEvent, PermissionGrant, PermissionSubject,
}
use mahi_ai.Contracts.Records.{MemoryRecord}
use mahi_ai.Contracts.Result.{Result, ok, err, ◌>>=◌}
use mahi_ai.Store.{SqliteBackend, AuditRow, GrantColumns}
use mahi_ai.Store.Crypto.{encrypt, decrypt, sha256_hex}
use mahi_ai.Store.Rows.{
  Row, select_by_id, delete_by_id, insert_or_replace, limit_rows, place, order_by,
}
use mahi_ai.Store.Sealed.{seal, unseal, open_found, open_rows, fetch, put}
use mahi_ai.Store.Conversations
use mahi_ai.Store.Conversations.Refinement.{
  upserted, deleted, DrawsNonce, apply_all, change_maps, get-apply_all,
}
use mahi_ai.Store.Messages
use mahi_ai.Store.Messages.Latest.{
  AllBelow, next_sequence-AllBelow, range-append, range-append_last,
}
use mahi_ai.Store.Memory
use mahi_ai.Store.Memory.Search.{AllMatch, semantic_search-AllMatch}
use mahi_ai.Store.Audit
use mahi_ai.Store.Audit.Integrity.{append-verify_chain, verify_chain-removed}
use mahi_ai.Store.Permissions
use mahi_ai.Store.Permissions.Revocation.{check-revoke, check-grant}
use mahi_ai.Store.Examples.Formats.{
  plain, plain-OpensSealed, plain-PrintsApart, empty_backend, nonce, bare_conversation,
  conversation_format, conversation_format-ReadsBack,
}
use mahi_ai.Store.Examples.Formats.Security.{
  read_event, event_format, event_format-ReadsBack, read_grant, grant_format,
  grant_format-ReadsBack,
}
use mahi_ai.Store.Examples.Formats.Content.{
  read_message, message_format, message_format-ReadsBack, read_memory, memory_format,
}

-- Two conversations saved and the first one deleted.
abbrev three_changes : List Change
three_changes =
    upserted none nonce (bare_conversation 1 10 10)
    ∷ upserted none nonce (bare_conversation 2 11 12)
    ∷ deleted none 1
    ∷ []

after_changes : SqliteBackend
after_changes = state_of (apply_all plain conversation_format three_changes empty_backend)

changes_done : apply_all plain conversation_format three_changes empty_backend ≡ ok after_changes
unfolding after_changes Conversations.upsert Conversations.delete put seal encrypt insert_or_replace
    delete_by_id
changes_done = refl

nothing_held :
    (id : Uuid)
    → Conversations.get plain conversation_format none id empty_backend ≡ ok (lookup id [])
unfolding Conversations.get fetch select_by_id open_found lookup
nothing_held id = refl

draws : All DrawsNonce three_changes
draws = (refl, (refl, (tt, tt)))

get-apply_all_example :
    Conversations.get plain conversation_format none 2 after_changes
    ≡ ok (lookup 2 (change_maps three_changes []))
get-apply_all_example =
    get-apply_all plain conversation_format plain-OpensSealed conversation_format-ReadsBack
      plain-PrintsApart three_changes empty_backend after_changes [] draws nothing_held changes_done
      2
