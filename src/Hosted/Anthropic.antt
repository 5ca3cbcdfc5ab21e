-- ===== src/Hosted/Anthropic.antt =====
-- crates/mahi-compute/src/hosted/anthropic.rs: `AnthropicSseParser`, the state machine on the events of
-- the Messages API.
pub mod Laws
pub mod Request
pub mod Provider
use Prim.Native.String.{String}
use mahi_ai.Prelude.{
  ℕ, Bool, true, false, not, ◌||◌, Option, none, some, List, [], ◌∷◌, ◌++◌, Text, text, text_eq,
  nat_eq, ◌==◌, is_empty, if◌then◌else◌,
}
use mahi_ai.Prelude.Chars.{trim, decimal}
use mahi_ai.Dict.{Dict, lookup, insert}
use mahi_ai.Contracts.Types.{ComputeMode}
use mahi_ai.Contracts.Errors.{ContractError, InferenceError, inference}
use mahi_ai.Contracts.Inference.{
  FinishReason, InferenceChunk, InferenceStream, ToolCallDelta, ThinkingDelta, text_chunk,
  thinking_chunk, finish_chunk,
}
use mahi_ai.Contracts.Result.{Result, ok, err}
use mahi_ai.Json.{Json, SerdeJson, null, index, as_str, as_u64, is_str, unwrap_or}
use mahi_ai.Hosted.Sse.{SseChunkParser}

unfoldable pub map_stop_reason : Text → FinishReason
map_stop_reason reason =
    if reason == text "end_turn" || reason == text "stop_sequence" || reason == text "pause_turn"
    then FinishReason.stop
    else if reason == text "max_tokens"
    then FinishReason.max_tokens
    else if reason == text "tool_use"
    then FinishReason.tool_call
    else if reason == text "refusal"
    then FinishReason.error
    else FinishReason.stop

pub record ToolBlockIdentity : Type 0 where
  pub call_id : Text
  pub tool_id : Text

pub record AnthropicSseParser : Type 0 where
  pub mode : ComputeMode
  pub done : Bool
  pub stop_reason : Option FinishReason
  pub tool_blocks : Dict ℕ ToolBlockIdentity

-- `AnthropicSseParser::new`
abbrev pub new_parser : ComputeMode → AnthropicSseParser
new_parser mode = record { mode = mode; done = false; stop_reason = none; tool_blocks = [] }

-- The types of the events that the parser reads.
pub data EventType : Type 0 where
  content_block_start content_block_delta message_delta message_stop error other : EventType

unfoldable pub event_named : Text → EventType
event_named name =
    if name == text "content_block_start"
    then content_block_start
    else if name == text "content_block_delta"
    then content_block_delta
    else if name == text "message_delta"
    then message_delta
    else if name == text "message_stop"
    then message_stop
    else if name == text "error"
    then error
    else other

abbrev pub malformed : Text → ContractError
malformed message =
    inference (InferenceError.provider (text "malformed SSE JSON: " ++ message) false)

-- `value[key].as_str().unwrap_or_default()`
abbrev pub str_at : String → Json → Text
str_at key value = unwrap_or [] (as_str (index value (text key)))

-- The id of a block, or one made of its index where it has none.
unfoldable pub block_call_id : Json → ℕ → Text
block_call_id block at =
    let id = str_at "id" block in if is_empty id then text "toolu_" ++ decimal at else id

unfoldable pub start_block : Json → AnthropicSseParser → AnthropicSseParser
start_block value p =
    let block = index value (text "content_block") in
    let at = unwrap_or 0 (as_u64 (index value (text "index"))) in
    if is_str (text "tool_use") (index block (text "type"))
    then (record (p) {
      tool_blocks =
          insert at (record { call_id = block_call_id block at; tool_id = str_at "name" block })
            p.tool_blocks;
    })
    else p

abbrev pub no_identity : ToolBlockIdentity
no_identity = record { call_id = []; tool_id = [] }

-- The delta of the arguments of the tool call at an index.
unfoldable pub call_chunk : ToolBlockIdentity → Text → ComputeMode → InferenceChunk
call_chunk identity args mode = record {
  delta = none;
  tool_call_delta =
      some (record { call_id = identity.call_id; tool_id = identity.tool_id; args_delta = args });
  thinking_delta = none;
  finish_reason = none;
  active_mode = mode;
  latency_hint_ms = none;
}

-- One chunk, unless the text is empty.
abbrev pub unless_empty : Text → InferenceChunk → InferenceStream
unless_empty t c = if is_empty t then [] else ok c ∷ []

-- The types of the deltas that the parser reads.
pub data DeltaType : Type 0 where
  text_delta input_json_delta thinking_delta signature_delta other_delta : DeltaType

unfoldable pub delta_type : Json → DeltaType
delta_type kind =
    if is_str (text "text_delta") kind
    then text_delta
    else if is_str (text "input_json_delta") kind
    then input_json_delta
    else if is_str (text "thinking_delta") kind
    then thinking_delta
    else if is_str (text "signature_delta") kind
    then signature_delta
    else other_delta

-- `match delta["type"].as_str()`
unfoldable pub delta_of : DeltaType → (value delta : Json) → AnthropicSseParser → InferenceStream
delta_of text_delta value delta p =
    unless_empty (str_at "text" delta) (text_chunk (str_at "text" delta) p.mode)
delta_of input_json_delta value delta p =
    let at = unwrap_or 0 (as_u64 (index value (text "index"))) in
    ok (
      call_chunk (unwrap_or no_identity (lookup at p.tool_blocks)) (str_at "partial_json" delta)
        p.mode)
    ∷ []
delta_of thinking_delta value delta p =
    unless_empty (str_at "thinking" delta)
      (thinking_chunk (record { text = str_at "thinking" delta; signature = none }) p.mode)
delta_of signature_delta value delta p =
    unless_empty (str_at "signature" delta)
      (thinking_chunk (record { text = []; signature = some (str_at "signature" delta) }) p.mode)
delta_of other_delta value delta p = []

unfoldable pub delta_chunks : Json → AnthropicSseParser → InferenceStream
delta_chunks value p =
    let delta = index value (text "delta") in
    delta_of (delta_type (index delta (text "type"))) value delta p

unfoldable pub note_stop_reason : Json → AnthropicSseParser → AnthropicSseParser
note_stop_reason value p = elim (as_str (index (index value (text "delta")) (text "stop_reason"))) [
  | none ↦ p
  | some reason ↦ record (p) { stop_reason = some (map_stop_reason reason) }
]

unfoldable pub reported_error : Json → (payload : Text) → ContractError
reported_error value payload =
    let kind =
      unwrap_or (text "unknown") (as_str (index (index value (text "error")) (text "type"))) in
    let message =
      unwrap_or payload (as_str (index (index value (text "error")) (text "message"))) in
    inference (
      InferenceError.provider (text "anthropic stream error (" ++ kind ++ text "): " ++ message)
        (kind == text "overloaded_error" || kind == text "api_error"))

-- `match event_type`
unfoldable pub dispatch :
    EventType → Json → (payload : Text) → AnthropicSseParser → InferenceStream × AnthropicSseParser
dispatch content_block_start value payload p = ([], start_block value p)
dispatch content_block_delta value payload p = (delta_chunks value p, p)
dispatch message_delta value payload p = ([], note_stop_reason value p)
dispatch message_stop value payload p = (
  ok (finish_chunk (unwrap_or FinishReason.stop p.stop_reason) p.mode) ∷ [],
  record (p) { done = true },
)
dispatch error value payload p =
    (err (reported_error value payload) ∷ [], record (p) { done = true })
dispatch other value payload p = ([], p)

module _ (serde : SerdeJson) where
  unfoldable pub parse_payload : Text → Result Text Json
  parse_payload payload = elim (serde.from_str (trim payload)) [
    | ok value ↦ ok value
    | err message ↦ if is_empty (trim payload) then ok null else err message
  ]

  unfoldable pub handle :
      (event_type payload : Text) → AnthropicSseParser → InferenceStream × AnthropicSseParser
  handle event_type payload p = if p.done then ([], p) else elim (parse_payload payload) [
    | err message ↦ (err (malformed message) ∷ [], p)
    | ok value ↦ dispatch (event_named event_type) value payload p
  ]

  abbrev pub anthropic_parser : SseChunkParser AnthropicSseParser
  anthropic_parser = record { mode = λ p. p.mode; done = λ p. p.done; handle_event = handle }
