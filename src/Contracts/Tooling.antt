-- ===== src/Contracts/Tooling.antt =====
-- crates/mahi-contracts/src/tooling.rs: tool descriptors, invocations and the events of a tool.
-- `V` is the type of JSON values.
use mahi_ai.Prelude.{Bool, Option, List, Text}
use mahi_ai.Contracts.Types.{Uuid, ComputeMode}

pub data ToolCategory : Type 0 where
  built_in connector coding_agent computer_use : ToolCategory

pub data DestructiveLevel : Type 0 where
  low high critical : DestructiveLevel

pub record ToolDescriptor (V : Type 0) : Type 0 where
  pub id : Text
  pub display_name : Text
  pub category : ToolCategory
  pub available_in_modes : List ComputeMode
  pub required_permissions : List Text
  pub input_schema : V
  pub output_schema : V
  pub requires_approval : Bool
  pub destructive_level : DestructiveLevel

pub record ToolInvocation (V : Type 0) : Type 0 where
  pub invocation_id : Uuid
  pub tool_id : Text
  pub args : V
  pub session_id : Uuid
  pub conversation_id : Uuid
  pub message_id : Uuid
  pub compute_mode : ComputeMode
  pub trace_id : Uuid
  pub stream : Bool

pub data ToolEvent (V : Type 0) : Type 0 where
  chunk : Text → ToolEvent V
  citation : (url : Text) → (title excerpt : Option Text) → ToolEvent V
  approval_required : Uuid → Text → DestructiveLevel → ToolEvent V
  result : (output : V) → (truncated : Bool) → ToolEvent V
  error : (message : Text) → (retryable : Bool) → ToolEvent V
  cancelled : ToolEvent V
