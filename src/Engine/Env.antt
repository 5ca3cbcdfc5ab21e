-- ===== src/Engine/Env.antt =====
-- What one turn of crates/mahi-agent-core/src/engine.rs works on: the events of
-- crates/mahi-contracts/src/agent.rs, the calls that it makes on its collaborators (stores, tools,
-- inference, approvals, cancellation, clock and fresh identifiers), and their answers.
-- A `World` is the list of the calls made so far, the latest first. What a collaborator answers is a
-- function of the world, so an `Env` is any behaviour of them; nothing is assumed of it.
use mahi_ai.Prelude.{ℕ, Bool, Option, none, some, List, ◌∷◌, Text}
use mahi_ai.Prelude.Int.{ℤ}
use mahi_ai.Contracts.Types.{Uuid, Timestamp, ComputeMode, ModelDescriptor}
use mahi_ai.Contracts.Errors.{ContractError}
use mahi_ai.Contracts.Result.{Result, ok, err}
pub use mahi_ai.Contracts.Stream.{Poll}
use mahi_ai.Contracts.Data.{ContentBlock, Message, Conversation, AuditEvent}
use mahi_ai.Contracts.Tooling.{ToolDescriptor, ToolInvocation, ToolEvent}
use mahi_ai.Contracts.Inference.{FinishReason, InferenceChunk, InferenceRequest}

pub data AgentEvent (V : Type 0) : Type 0 where
  turn_started : (conversation_id message_id : Uuid) → ComputeMode → AgentEvent V
  text_delta : Text → AgentEvent V
  tool : ToolEvent V → AgentEvent V
  mode_handoff : (from to : ComputeMode) → AgentEvent V
  approval_required : Uuid → (summary : Text) → AgentEvent V
  turn_finished : FinishReason → AgentEvent V
  error : (message : Text) → AgentEvent V

-- The biased `select!` over the cancellation token and the oneshot of an approval.
pub data Decision : Type 0 where
  fired : Decision
  resolved : Bool → Decision
  sender_dropped : Decision

pub data Effect (V : Type 0) : Type 0 where
  emitted : AgentEvent V → Effect V
  described : List (ToolDescriptor V) → Effect V
  requested : InferenceRequest V → Effect V
  appended : Message V → Effect V
  audited : AuditEvent V → Effect V
  registered : Uuid → Effect V
  awaited : Uuid → Decision → Effect V
  discarded : Uuid → Effect V
  invoked : ToolInvocation V → Effect V
  upserted : Conversation → Effect V

abbrev pub World : Type 0 → Type 0
World V = List (Effect V)

-- `serde_json` and `base64`, which are not part of the repository.
pub record Serde (V : Type 0) : Type 0 where
  pub from_str : Text → Option V
  pub is_object : V → Bool
  pub empty_object : V
  pub null : V
  -- `json!({ "error": message })`
  pub error_object : Text → V
  -- `json!({ "denied": true, "message": "the user denied this action" })`
  pub denied_object : V
  -- `value.get("image_hex").and_then(Value::as_str)`
  pub image_hex : V → Option Text
  -- `obj.remove("image_hex"); obj.insert("note", ...)` where the value is an object
  pub strip_image : V → V
  -- the metadata of an audit event: call id, arguments, trace id, approval id
  pub audit_metadata : Text → V → Uuid → Option Uuid → V
  -- the length of `serde_json::to_string(&content)`, 0 where it fails
  pub content_len : List (ContentBlock V) → ℕ
  pub base64 : List ℕ → Text

pub record Env (V : Type 0) : Type 0 where
  pub serde : Serde V
  pub device_id : Uuid
  pub context_budget_chars : ℕ
  pub default_system_prompt : Text
  -- `ContractError`'s `Display`, which `thiserror` derives
  pub to_string : ContractError → Text
  pub new_id : World V → Uuid
  -- the identifiers of the synthetic messages of a context
  pub synthetic_id : World V → ℕ → Uuid
  pub now : World V → Timestamp
  pub is_cancelled : World V → Bool
  pub model : World V → ModelDescriptor
  pub describe : World V → ComputeMode → List (ToolDescriptor V)
  pub semantic_search : World V → Text → Option Uuid → ℕ → Result ContractError (List Text)
  pub range : World V → Uuid → ℕ → Result ContractError (List (Message V))
  pub next_sequence : World V → Uuid → Result ContractError ℤ
  pub append_message : World V → Message V → Option ContractError
  pub append_audit : World V → AuditEvent V → Option ContractError
  pub generate : World V → InferenceRequest V → Result ContractError (List (Poll InferenceChunk))
  pub decide : World V → Uuid → Decision
  pub invoke : World V → ToolInvocation V → Result ContractError (List (Poll (ToolEvent V)))

-- `TurnRunner`: the fields that do not change during a turn, and those that do.
pub record Turn : Type 0 where
  pub conversation : Conversation
  pub user_text : Text
  pub user_message_id : Uuid
  pub trace_id : Uuid

pub record Runner (V : Type 0) : Type 0 where
  pub world : World V
  pub mode : ComputeMode

-- A step of the turn: a result or an error, and the runner after it.
abbrev pub M : Type 0 → Type 0 → Type 0
M V A = Runner V → Result ContractError A × Runner V

-- The `?` operator: an error ends the step.
abbrev pub and_then :
    {V A B : Type 0}
    → (A → M V B)
    → Result ContractError A × Runner V
    → Result ContractError B × Runner V
and_then f (ok a, s) = f a s
and_then f (err e, s) = (err e, s)

infixl 5 ◌>>=◌ ◌>>◌
unfoldable pub ◌>>=◌ : {V A B : Type 0} → M V A → (A → M V B) → M V B
◌>>=◌ m f s = and_then f (m s)

abbrev pub ◌>>◌ : {V B : Type 0} → M V (Unit {0}) → M V B → M V B
m >> k = m >>= λ _. k

unfoldable pub pure : {V A : Type 0} → A → M V A
pure a s = (ok a, s)

unfoldable pub raise : {V A : Type 0} → ContractError → M V A
raise e s = (err e, s)

unfoldable pub lift : {V A : Type 0} → (World V → Result ContractError A) → M V A
lift f s = (f s.world, s)

unfoldable pub asks : {V A : Type 0} → (World V → A) → M V A
asks f s = (ok (f s.world), s)

unfoldable pub current_mode : {V : Type 0} → M V ComputeMode
current_mode s = (ok s.mode, s)

unfoldable pub perform : {V : Type 0} → Effect V → M V (Unit {0})
perform e s = (ok tt, record s { world = e ∷ s.world })

-- `TurnRunner::emit`; a receiver that is gone is ignored.
abbrev pub emit : {V : Type 0} → AgentEvent V → M V (Unit {0})
emit event = perform (emitted event)

-- A write that a store refuses changes nothing.
abbrev pub stored :
    {V : Type 0}
    → Effect V
    → Runner V
    → Option ContractError
    → Result ContractError (Unit {0}) × Runner V
stored effect s none = (ok tt, record s { world = effect ∷ s.world })
stored effect s (some e) = (err e, s)

-- `data.messages.append(message).await?`
unfoldable pub append_message : {V : Type 0} → Env V → Message V → M V (Unit {0})
append_message env message s = stored (appended message) s (env.append_message s.world message)

-- `data.audit.append(event).await?`
unfoldable pub append_audit : {V : Type 0} → Env V → AuditEvent V → M V (Unit {0})
append_audit env event s = stored (audited event) s (env.append_audit s.world event)

-- To prove a property of a step's answer, prove it for each way in which the step ends.
module _ {ℓ} {V : Type 0} where
  pub lift_cases :
      {A : Type 0} (Q : Result ContractError A × Runner V → Type ℓ)
      (f : World V → Result ContractError A) (s : Runner V)
      → ((a : A) → Q (ok a, s))
      → ((e : ContractError) → Q (err e, s))
      → Q (lift f s)
  unfolding lift
  lift_cases {A} Q f s good bad = go (f s.world)
    where
      go : (r : Result ContractError A) → Q (r, s)
      go (ok a) = good a
      go (err e) = bad e

  pub append_message_cases :
      (Q : Result ContractError (Unit {0}) × Runner V → Type ℓ) (env : Env V) (message : Message V)
      (s : Runner V)
      → Q (ok tt, record s { world = appended message ∷ s.world })
      → ((e : ContractError) → Q (err e, s))
      → Q (append_message env message s)
  unfolding append_message
  append_message_cases Q env message s good bad =
      elim (env.append_message s.world message) as (λ o. Q (stored (appended message) s o)) [
        | none ↦ good
        | some e ↦ bad e
      ]

  pub append_audit_cases :
      (Q : Result ContractError (Unit {0}) × Runner V → Type ℓ) (env : Env V) (event : AuditEvent V)
      (s : Runner V)
      → Q (ok tt, record s { world = audited event ∷ s.world })
      → ((e : ContractError) → Q (err e, s))
      → Q (append_audit env event s)
  unfolding append_audit
  append_audit_cases Q env event s good bad =
      elim (env.append_audit s.world event) as (λ o. Q (stored (audited event) s o)) [
        | none ↦ good
        | some e ↦ bad e
      ]
