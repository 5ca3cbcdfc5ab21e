-- ===== src/Contracts/Inference.antt =====
-- crates/mahi-contracts/src/compute.rs: requests, streamed chunks and the provider interface.
-- A stream is the list of the items that it yields.
use mahi_ai.Prelude.{leb, text, if◌then◌else◌, ℕ, Bool, true, Option, none, some, List, Text}
use mahi_ai.Contracts.Types.{Uuid, ComputeMode, CapabilitySet, ModelDescriptor}
use mahi_ai.Contracts.Capabilities.{empty}
use mahi_ai.Contracts.Data.{Message}
use mahi_ai.Contracts.Errors.{ContractError}
use mahi_ai.Contracts.Result.{Result}

pub data FinishReason : Type 0 where
  stop tool_call max_tokens cancelled error : FinishReason

pub record ThinkingConfig : Type 0 where
  pub budget_tokens : ℕ

abbrev pub default_budget : ℕ
default_budget = 4096

abbrev pub enabled : ThinkingConfig
enabled = record { budget_tokens = default_budget }

pub record ToolCallDelta : Type 0 where
  pub call_id : Text
  pub tool_id : Text
  pub args_delta : Text

pub record ThinkingDelta : Type 0 where
  pub text : Text
  pub signature : Option Text

pub record InferenceChunk : Type 0 where
  pub delta : Option Text
  pub tool_call_delta : Option ToolCallDelta
  pub thinking_delta : Option ThinkingDelta
  pub finish_reason : Option FinishReason
  pub active_mode : ComputeMode
  pub latency_hint_ms : Option ℕ

-- `InferenceChunk::text`
abbrev pub text_chunk : Text → ComputeMode → InferenceChunk
text_chunk delta mode = record {
  delta = some delta;
  tool_call_delta = none;
  thinking_delta = none;
  finish_reason = none;
  active_mode = mode;
  latency_hint_ms = none;
}

-- `InferenceChunk::finish`
abbrev pub finish_chunk : FinishReason → ComputeMode → InferenceChunk
finish_chunk reason mode = record {
  delta = none;
  tool_call_delta = none;
  thinking_delta = none;
  finish_reason = some reason;
  active_mode = mode;
  latency_hint_ms = none;
}

pub record CanHandleResult : Type 0 where
  pub capable : Bool
  pub missing_caps : CapabilitySet
  pub escalation_hint : Option ComputeMode

abbrev pub InferenceStream : Type 0
InferenceStream = List (Result ContractError InferenceChunk)

pub record ToolSpec (V : Type 0) : Type 0 where
  pub id : Text
  pub description : Text
  pub input_schema : V

-- `temperature` is the bit pattern of an `f32`.
pub record InferenceRequest (V : Type 0) : Type 0 where
  pub request_id : Uuid
  pub messages : List (Message V)
  pub tools : Option (List (ToolSpec V))
  pub max_tokens : Option ℕ
  pub temperature : Option ℕ
  pub streaming_hint : Bool
  pub required_caps : CapabilitySet
  pub thinking : Option ThinkingConfig

-- A trait object. `can_handle` is a probe without side effects; the cancellation token that
-- `generate` also takes is only handed on to the provider.
pub record InferenceProvider (V : Type 0) : Type 0 where
  pub descriptor : ModelDescriptor
  pub can_handle : InferenceRequest V → CanHandleResult
  pub generate : InferenceRequest V → Result ContractError InferenceStream

-- `InferenceChunk::thinking`
abbrev pub thinking_chunk : ThinkingDelta → ComputeMode → InferenceChunk
thinking_chunk delta mode = record {
  delta = none;
  tool_call_delta = none;
  thinking_delta = some delta;
  finish_reason = none;
  active_mode = mode;
  latency_hint_ms = none;
}

-- `CanHandleResult::capable`
abbrev pub capable_result : CanHandleResult
capable_result = record { capable = true; missing_caps = empty; escalation_hint = none }

-- `ThinkingConfig::reasoning_effort`
unfoldable pub reasoning_effort : ThinkingConfig → Text
reasoning_effort config =
    if leb config.budget_tokens 2048
    then text "low"
    else if leb config.budget_tokens 8192
    then text "medium"
    else text "high"
