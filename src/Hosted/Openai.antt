-- ===== src/Hosted/Openai.antt =====
-- crates/mahi-compute/src/hosted/openai.rs: `OpenAiSseParser`, the state machine on the data lines of a
-- chat-completions stream.
pub mod Laws
pub mod Request
pub mod Provider
use mahi_ai.Prelude.{
  ℕ, Bool, true, false, not, Option, none, some, List, [], ◌∷◌, ◌++◌, Text, text, text_eq, nat_eq,
  ◌==◌, is_empty, if◌then◌else◌,
}
use mahi_ai.Prelude.Chars.{trim, decimal}
use mahi_ai.Dict.{Dict, lookup, insert}
use mahi_ai.Contracts.Types.{ComputeMode}
use mahi_ai.Contracts.Inference.{
  FinishReason, InferenceChunk, InferenceStream, ToolCallDelta, text_chunk, finish_chunk,
}
use mahi_ai.Contracts.Result.{Result, ok, err}
use mahi_ai.Json.{Json, SerdeJson, index, first_item, as_str, as_u64, as_array, unwrap_or}
use mahi_ai.Hosted.Sse.{SseChunkParser}
use mahi_ai.Hosted.Anthropic.{malformed, str_at, unless_empty}

unfoldable pub map_finish_reason : Text → FinishReason
map_finish_reason reason =
    if reason == text "stop"
    then FinishReason.stop
    else if reason == text "length"
    then FinishReason.max_tokens
    else if reason == text "tool_calls"
    then FinishReason.tool_call
    else if reason == text "content_filter"
    then FinishReason.error
    else FinishReason.stop

pub record ToolCallIdentity : Type 0 where
  pub call_id : Text
  pub tool_id : Text

pub record OpenAiSseParser : Type 0 where
  pub mode : ComputeMode
  pub done : Bool
  pub finish_emitted : Bool
  pub tool_calls : Dict ℕ ToolCallIdentity

-- `OpenAiSseParser::new`
abbrev pub new_parser : ComputeMode → OpenAiSseParser
new_parser mode = record { mode = mode; done = false; finish_emitted = false; tool_calls = [] }

-- The end marker of the stream.
unfoldable pub finish_stream : OpenAiSseParser → InferenceStream × OpenAiSseParser
finish_stream p = if p.finish_emitted then ([], record (p) { done = true }) else (
  ok (finish_chunk FinishReason.stop p.mode) ∷ [],
  record (p) { done = true; finish_emitted = true },
)

-- The text of a delta, where it has one.
unfoldable pub content_chunks : Option Text → ComputeMode → InferenceStream
content_chunks none mode = []
content_chunks (some t) mode = unless_empty t (text_chunk t mode)

-- The identity of a call after a fragment: the one that is known, or one made of the index, with the id
-- and the name that the fragment brings.
unfoldable pub identify : (call : Json) (at : ℕ) → Dict ℕ ToolCallIdentity → ToolCallIdentity
identify call at known =
    let before =
      unwrap_or (record { call_id = text "call_" ++ decimal at; tool_id = [] }) (lookup at known) in
    record {
      call_id = unwrap_or before.call_id (as_str (index call (text "id")));
      tool_id =
          unwrap_or before.tool_id (as_str (index (index call (text "function")) (text "name")));
    }

unfoldable pub fragment_chunk : ToolCallIdentity → (args : Text) → ComputeMode → InferenceChunk
fragment_chunk identity args mode = record {
  delta = none;
  tool_call_delta =
      some (record { call_id = identity.call_id; tool_id = identity.tool_id; args_delta = args });
  thinking_delta = none;
  finish_reason = none;
  active_mode = mode;
  latency_hint_ms = none;
}

-- The loop on the fragments of one event.
unfoldable pub call_fragments :
    ComputeMode → List Json → Dict ℕ ToolCallIdentity → InferenceStream × Dict ℕ ToolCallIdentity
call_fragments mode [] known = ([], known)
call_fragments mode (call ∷ calls) known =
    let at = unwrap_or 0 (as_u64 (index call (text "index"))) in
    let identity = identify call at known in
    let rest = call_fragments mode calls (insert at identity known) in
    (
      ok (fragment_chunk identity (str_at "arguments" (index call (text "function"))) mode)
          ∷ rest.0,
      rest.1,
    )

-- The finish reason of a choice, where it has one.
unfoldable pub finish_chunks : Option Text → OpenAiSseParser → InferenceStream × OpenAiSseParser
finish_chunks none p = ([], p)
finish_chunks (some reason) p =
    (ok (finish_chunk (map_finish_reason reason) p.mode) ∷ [], record (p) { finish_emitted = true })

-- What one parsed line becomes.
unfoldable pub read_choice : (choice : Json) → OpenAiSseParser → InferenceStream × OpenAiSseParser
read_choice choice p =
    let delta = index choice (text "delta") in
    let calls =
      call_fragments p.mode (unwrap_or [] (as_array (index delta (text "tool_calls"))))
        p.tool_calls in
    let finished =
      finish_chunks (as_str (index choice (text "finish_reason")))
        (record (p) { tool_calls = calls.1 }) in
    (
      content_chunks (as_str (index delta (text "content"))) p.mode ++ calls.0 ++ finished.0,
      finished.1,
    )

module _ (serde : SerdeJson) where
  unfoldable pub read_line : Text → OpenAiSseParser → InferenceStream × OpenAiSseParser
  read_line line p = elim (serde.from_str line) [
    | err message ↦ (err (malformed message) ∷ [], p)
    | ok value ↦ read_choice (first_item (index value (text "choices"))) p
  ]

  unfoldable pub handle_data :
      (payload : Text) → OpenAiSseParser → InferenceStream × OpenAiSseParser
  handle_data payload p =
      if p.done
      then ([], p)
      else if is_empty (trim payload)
      then ([], p)
      else if trim payload == text "[DONE]"
      then finish_stream p
      else read_line (trim payload) p

  abbrev pub openai_parser : SseChunkParser OpenAiSseParser
  openai_parser = record {
    mode = λ p. p.mode;
    done = λ p. p.done;
    handle_event = λ event_type payload p. handle_data payload p;
  }
