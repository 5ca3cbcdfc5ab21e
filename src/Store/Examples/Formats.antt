-- ===== src/Store/Examples/Formats.antt =====
-- Concrete instances of the parameters: a cipher that leaves its message as it is, identifiers that print
-- as themselves, and formats that write some of the records and refuse the others.
pub mod Security
pub mod Content
use mahi_ai.Prelude.{
  zero, suc, ℕ, ◌≡◌, refl, sym, ◌∙◌, Bool, true, false, ◌&&◌, if◌then◌else◌, arith, Option, none,
  some, List, [], ◌∷◌, Text,
}
use mathlib.Core.Path.{subst}
use mahi_ai.Prelude.Int.{ℤ, pos, negsuc}
use mahi_ai.Contracts.Types.{Timestamp, ComputeMode, hosted}
use mahi_ai.Contracts.Data.{
  Conversation, Message, MessageRole, AuditEvent, AuditEventType, AuditActor, AuditOutcome,
  PermissionGrant, PermissionSubject, PermissionTier, AccessLevel,
}
use mahi_ai.Contracts.Records.{MemoryRecord, MemoryKind}
use mahi_ai.Contracts.Errors.{ContractError}
use mahi_ai.Contracts.Result.{Result, ok, err}
use mahi_ai.Store.{SqliteBackend}
use mahi_ai.Store.Crypto.{Bytes, Primitives, OpensSealed, PrintsApart}
use mahi_ai.Store.Sealed.{Format, ReadsBack}

abbrev pub plain : Primitives
plain = record {
  expand = λ root info. info;
  seal_payload = λ key nonce payload aad. some payload;
  open_payload = λ key nonce ciphertext aad. some ciphertext;
  digest = λ bytes. bytes;
  as_bytes = λ t. t;
  uuid_text = λ id. id ∷ [];
  timestamp_millis = λ t. pos t;
}

pub plain-OpensSealed : OpensSealed plain
plain-OpensSealed key nonce payload aad ciphertext h = sym h

pub plain-PrintsApart : PrintsApart plain
plain-PrintsApart i j h = cc h

abbrev pub empty_backend : SqliteBackend
empty_backend = record {
  conversations = [];
  messages = [];
  memory = [];
  skills = [];
  settings = [];
  tasks = [];
  artifacts = [];
  checkpoints = [];
  audit = [];
  grants = [];
  root = 9 ∷ [];
}

abbrev pub nonce : Bytes
nonce = 0 ∷ 1 ∷ 2 ∷ 3 ∷ 4 ∷ 5 ∷ 6 ∷ 7 ∷ 8 ∷ 9 ∷ 10 ∷ 11 ∷ []

abbrev pub bare_conversation : (id created updated : ℕ) → Conversation
bare_conversation id created updated = record {
  id = id;
  space_id = none;
  title = none;
  created_at = created;
  updated_at = updated;
  mode_at_creation = hosted;
  system_prompt = none;
  persona_id = none;
  active_checkpoint_id = none;
}

abbrev read_conversation : Bytes → Result Text Conversation
read_conversation (id ∷ created ∷ updated ∷ []) = ok (bare_conversation id created updated)
read_conversation _ = err []

-- A record that passes a test is written, another is refused.
abbrev pub written_if : Bool → Bytes → Result Text Bytes
written_if fits json = if fits then ok json else err []

pub written_if-true :
    (fits : Bool) (made json : Bytes)
    → written_if fits made ≡ ok json
    → (fits ≡ true) × (made ≡ json)
written_if-true true made json h = (refl, cc h)
written_if-true false made json h = absurd (cc h)

abbrev pub nothing : {A : Type 0} → Option A → Bool
nothing none = true
nothing (some a) = false

pub nothing-none : {A : Type 0} (o : Option A) → nothing o ≡ true → none ≡ o
nothing-none none h = refl
nothing-none (some a) h = absurd (cc h)

abbrev pub none_of : {A : Type 0} → List A → Bool
none_of [] = true
none_of (a ∷ l) = false

pub none_of-nil : {A : Type 0} (l : List A) → none_of l ≡ true → [] ≡ l
none_of-nil [] h = refl
none_of-nil (a ∷ l) h = absurd (cc h)

pub both : (a b : Bool) → (a && b) ≡ true → (a ≡ true) × (b ≡ true)
both true b h = (refl, h)
both false b h = absurd (cc h)

abbrev pub on_host : ComputeMode → Bool
on_host hosted = true
on_host _ = false

pub on_host-hosted : (m : ComputeMode) → on_host m ≡ true → hosted ≡ m
on_host-hosted m h = ground (arith, h)

abbrev pub conversation_format : Format Conversation
conversation_format = record {
  to_vec = λ c.
      written_if
        (nothing c.space_id
          && nothing c.title
          && on_host c.mode_at_creation
          && nothing c.system_prompt
          && nothing c.persona_id
          && nothing c.active_checkpoint_id)
        (c.id ∷ c.created_at ∷ c.updated_at ∷ []);
  from_slice = read_conversation;
}

pub conversation_format-ReadsBack : ReadsBack conversation_format
conversation_format-ReadsBack c json h =
    let (fits, made) = written_if-true _ _ json h in
    let (f5, e6) = both _ _ fits in
    let (f4, e5) = both _ _ f5 in
    let (f3, e4) = both _ _ f4 in
    let (f2, e3) = both _ _ f3 in
    let (e1, e2) = both _ _ f2 in
    subst (λ x. read_conversation x ≡ ok c) made
      (λ i. ok (record {
        id = c.id;
        space_id = nothing-none c.space_id e1 i;
        title = nothing-none c.title e2 i;
        created_at = c.created_at;
        updated_at = c.updated_at;
        mode_at_creation = on_host-hosted c.mode_at_creation e3 i;
        system_prompt = nothing-none c.system_prompt e4 i;
        persona_id = nothing-none c.persona_id e5 i;
        active_checkpoint_id = nothing-none c.active_checkpoint_id e6 i;
      }))

abbrev pub state_of : Result ContractError SqliteBackend → SqliteBackend
state_of (ok s) = s
state_of (err e) = empty_backend
