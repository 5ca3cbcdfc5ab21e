-- ===== src/Hosted/Examples.antt =====
-- The hosted providers on short streams and on a conversation with a tool call.
use mahi_ai.Prelude.{◌==◌, text_eq, if◌then◌else◌}
use mahi_ai.Prelude.{
  ℕ, ◌≡◌, ◌≤◌, ◌<◌, refl, true, false, none, some, List, [], ◌∷◌, Text, text, All, arith,
}
use mahi_ai.Prelude.Chars.{trim, is_whitespace}
use mahi_ai.Prelude.Int.{pos}
use mahi_ai.Contracts.Types.{hosted}
use mahi_ai.Contracts.Capabilities.{empty}
use mahi_ai.Contracts.Data.{ContentBlock, Message, MessageRole}
use mahi_ai.Contracts.Inference.{InferenceRequest, FinishReason, text_chunk, finish_chunk, enabled}
use mahi_ai.Contracts.Result.{Result, ok, err}
use mahi_ai.Json.{Json, SerdeJson, null, index, as_u64, entry, json_object, json_array, word}
use mahi_ai.Hosted.Sse.{Event, handle_item, scan_events, chunks_from_events}
use mahi_ai.Hosted.Sse.Stream.{Stamped, finishes}
use mahi_ai.Hosted.Anthropic
use mahi_ai.Hosted.Anthropic.Laws.{anthropic_stream}
use mahi_ai.Hosted.Anthropic.Request
use mahi_ai.Hosted.Anthropic.Request.Body.{request_body-thinking}
use mahi_ai.Hosted.Anthropic.Request.Calls.{content_ids, content_ids-assistant_turn}
use mahi_ai.Hosted.Openai
use mahi_ai.Hosted.Openai.Laws.{openai_stream}

-- Two payloads are known: `A` is a delta of a text, `B` a choice that stops.
abbrev sample : Text → Result Text Json
sample t =
    if t == text "A"
    then ok (
        json_object (
          entry "delta"
            (json_object (entry "type" (word "text_delta") ∷ entry "text" (word "hi") ∷ []))
          ∷ []))
    else if t == text "B"
    then ok (
        json_object (
          entry "choices" (
            json_array (
              json_object (
                entry "delta" (json_object (entry "content" (word "hi") ∷ []))
                ∷ entry "finish_reason" (word "stop")
                ∷ [])
              ∷ []))
          ∷ []))
    else err (text "unknown")

abbrev serde : SerdeJson
serde = record {
  from_str = sample;
  to_string = λ j. ok (text "{}");
  display = λ j. text "{}";
  widen = λ bits. null;
}

abbrev event : (event_type payload : Text) → Result Text Event
event event_type payload = ok (record { event = event_type; payload = payload })

abbrev greeting : List (Result Text Event)
greeting =
    event (text "content_block_delta") (text "A")
    ∷ event (text "ping") (text "?")
    ∷ event (text "message_stop") []
    ∷ event (text "message_stop") []
    ∷ []

anthropic_stream_example :
    (finishes (
        chunks_from_events
          (Anthropic.anthropic_parser serde)
          greeting
          (Anthropic.new_parser hosted)
          true)
      ≤ 1)
    × All (Stamped hosted) (
        chunks_from_events
          (Anthropic.anthropic_parser serde)
          greeting
          (Anthropic.new_parser hosted)
          true)
anthropic_stream_example = anthropic_stream serde greeting hosted true

abbrev done_line : List (Result Text Event)
done_line = event [] (text "[DONE]") ∷ []

ended :
    (scan_events (Openai.openai_parser serde) done_line (Openai.new_parser hosted) false).2 ≡ true
unfolding scan_events handle_item Openai.handle_data Openai.finish_stream trim is_whitespace
ended = refl

openai_stream_example :
    (1
      ≤ finishes (
          chunks_from_events
            (Openai.openai_parser serde)
            done_line
            (Openai.new_parser hosted)
            false))
    × All
        (Stamped hosted)
        (chunks_from_events (Openai.openai_parser serde) done_line (Openai.new_parser hosted) false)
openai_stream_example = openai_stream serde done_line hosted false ended

-- A stream that is cancelled after its finish reason and before the end marker has two finish chunks.
finishes_twice :
    chunks_from_events
      (Openai.openai_parser serde)
      (event [] (text "B") ∷ [])
      (Openai.new_parser hosted)
      true
    ≡ ok (text_chunk (text "hi") hosted)
      ∷ ok (finish_chunk FinishReason.stop hosted)
      ∷ ok (finish_chunk FinishReason.cancelled hosted)
      ∷ []
unfolding chunks_from_events scan_events handle_item Openai.handle_data Openai.read_line
    Openai.read_choice Openai.content_chunks Openai.call_fragments Openai.finish_chunks
    Openai.map_finish_reason trim is_whitespace
finishes_twice = refl

abbrev said : MessageRole → List (ContentBlock Json) → Message Json
said role content = record {
  id = 1;
  conversation_id = 2;
  role = role;
  content = content;
  model_id = none;
  mode = hosted;
  created_at = 0;
  sequence_num = pos 0;
  approval_refs = [];
}

abbrev calling : Message Json
calling = said MessageRole.assistant (
    ContentBlock.text (text "ok")
    ∷ ContentBlock.tool_call (text "c1") (text "read") null
    ∷ ContentBlock.tool_call (text "c2") (text "read") null
    ∷ [])

content_ids-assistant_turn_example :
    content_ids (Request.assistant_turn calling) ≡ text "c1" ∷ text "c2" ∷ []
content_ids-assistant_turn_example = content_ids-assistant_turn calling

abbrev talk : List (Message Json)
talk =
    said MessageRole.system (ContentBlock.text (text "Be terse.") ∷ [])
    ∷ said MessageRole.user (ContentBlock.text (text "Hi") ∷ [])
    ∷ []

abbrev thoughtful : InferenceRequest Json
thoughtful = record {
  request_id = 1;
  messages = talk;
  tools = none;
  max_tokens = some 100;
  temperature = none;
  streaming_hint = true;
  required_caps = empty;
  thinking = some enabled;
}

request_body-thinking_example :
    (cap : ℕ) × (budget : ℕ) × (as_u64
        (index (Request.request_body serde (text "m") thoughtful) (text "max_tokens"))
      ≡ some cap)
    × (as_u64 (
          index
            (index (Request.request_body serde (text "m") thoughtful) (text "thinking"))
            (text "budget_tokens"))
        ≡ some budget)
    × (4096 ≤ budget)
    × (budget < cap)
request_body-thinking_example =
    request_body-thinking serde (text "m") thoughtful enabled refl refl (omega arith)
