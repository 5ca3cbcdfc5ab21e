-- ===== src/Store/Examples/Formats/Content.antt =====
-- Formats of some messages and of some memory records.
use mahi_ai.Prelude.{ℕ, ◌≡◌, refl, sym, Bool, true, false, ◌&&◌, arith, none, [], ◌∷◌, Text}
use mathlib.Core.Path.{subst}
use mahi_ai.Prelude.Int.{ℤ, pos, negsuc}
use mahi_ai.Contracts.Types.{hosted}
use mahi_ai.Contracts.Data.{Message, MessageRole}
use mahi_ai.Contracts.Records.{MemoryRecord, MemoryKind}
use mahi_ai.Contracts.Result.{Result, ok, err}
use mahi_ai.Store.Crypto.{Bytes}
use mahi_ai.Store.Sealed.{Format, ReadsBack}
use mahi_ai.Store.Examples.Formats.{
  written_if, written_if-true, nothing, nothing-none, none_of, none_of-nil, both, on_host,
  on_host-hosted,
}

abbrev by_user : MessageRole → Bool
by_user MessageRole.user = true
by_user _ = false

by_user-only : (x : MessageRole) → by_user x ≡ true → MessageRole.user ≡ x
by_user-only x h = ground (arith, h)

abbrev is_natural : ℤ → Bool
is_natural (pos n) = true
is_natural (negsuc n) = false

abbrev natural : ℤ → ℕ
natural (pos n) = n
natural (negsuc n) = 0

is_natural-only : (x : ℤ) → is_natural x ≡ true → pos (natural x) ≡ x
is_natural-only (pos n) h = refl
is_natural-only (negsuc n) h = absurd (cc h)

abbrev pub read_message : Bytes → Result Text (Message (Unit {0}))
read_message (id ∷ conv ∷ created ∷ n ∷ []) = ok (record {
  id = id;
  conversation_id = conv;
  role = MessageRole.user;
  content = [];
  model_id = none;
  mode = hosted;
  created_at = created;
  sequence_num = pos n;
  approval_refs = [];
})
read_message _ = err []

abbrev pub message_format : Format (Message (Unit {0}))
message_format = record {
  to_vec = λ x.
      written_if
        (by_user x.role
          && none_of x.content
          && nothing x.model_id
          && on_host x.mode
          && is_natural x.sequence_num
          && none_of x.approval_refs)
        (x.id ∷ x.conversation_id ∷ x.created_at ∷ natural x.sequence_num ∷ []);
  from_slice = read_message;
}

pub message_format-ReadsBack : ReadsBack message_format
message_format-ReadsBack x json h =
    let (fits, made) = written_if-true _ _ json h in
    let (f5, e6) = both _ _ fits in
    let (f4, e5) = both _ _ f5 in
    let (f3, e4) = both _ _ f4 in
    let (f2, e3) = both _ _ f3 in
    let (e1, e2) = both _ _ f2 in
    subst (λ y. read_message y ≡ ok x) made
      (λ i. ok (record {
        id = x.id;
        conversation_id = x.conversation_id;
        role = by_user-only x.role e1 i;
        content = none_of-nil x.content e2 i;
        model_id = nothing-none x.model_id e3 i;
        mode = on_host-hosted x.mode e4 i;
        created_at = x.created_at;
        sequence_num = is_natural-only x.sequence_num e5 i;
        approval_refs = none_of-nil x.approval_refs e6 i;
      }))

abbrev is_fact : MemoryKind → Bool
is_fact MemoryKind.fact = true
is_fact _ = false

is_fact-only : (x : MemoryKind) → is_fact x ≡ true → MemoryKind.fact ≡ x
is_fact-only x h = ground (arith, h)

is_true : (b : Bool) → b ≡ true → true ≡ b
is_true b h = sym h

abbrev pub read_memory : Bytes → Result Text MemoryRecord
read_memory (id ∷ created ∷ updated ∷ words) = ok (record {
  id = id;
  space_id = none;
  kind = MemoryKind.fact;
  content = words;
  embedding_ref = none;
  source_message_id = none;
  created_at = created;
  updated_at = updated;
  user_visible = true;
  user_confirmed = true;
})
read_memory _ = err []

abbrev pub memory_format : Format MemoryRecord
memory_format = record {
  to_vec = λ x.
      written_if
        (nothing x.space_id
          && is_fact x.kind
          && nothing x.embedding_ref
          && nothing x.source_message_id
          && x.user_visible
          && x.user_confirmed)
        (x.id ∷ x.created_at ∷ x.updated_at ∷ x.content);
  from_slice = read_memory;
}

pub memory_format-ReadsBack : ReadsBack memory_format
memory_format-ReadsBack x json h =
    let (fits, made) = written_if-true _ _ json h in
    let (f5, e6) = both _ _ fits in
    let (f4, e5) = both _ _ f5 in
    let (f3, e4) = both _ _ f4 in
    let (f2, e3) = both _ _ f3 in
    let (e1, e2) = both _ _ f2 in
    subst (λ y. read_memory y ≡ ok x) made
      (λ i. ok (record {
        id = x.id;
        space_id = nothing-none x.space_id e1 i;
        kind = is_fact-only x.kind e2 i;
        content = x.content;
        embedding_ref = nothing-none x.embedding_ref e3 i;
        source_message_id = nothing-none x.source_message_id e4 i;
        created_at = x.created_at;
        updated_at = x.updated_at;
        user_visible = is_true x.user_visible e5 i;
        user_confirmed = is_true x.user_confirmed e6 i;
      }))
