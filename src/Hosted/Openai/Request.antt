-- ===== src/Hosted/Openai/Request.antt =====
-- crates/mahi-compute/src/hosted/openai.rs: `request_body` of chat completions and the address.
use mahi_ai.Prelude.{
  ℕ, true, Option, none, some, List, [], ◌∷◌, ◌++◌, Text, text, map, is_empty, reverse, nat_beq,
  if◌then◌else◌,
}
use mahi_ai.Contracts.Data.{ContentBlock, Message, MessageRole, text_content}
use mahi_ai.Contracts.Inference.{InferenceRequest, ToolSpec, ThinkingConfig, reasoning_effort}
use mahi_ai.Contracts.Result.{ok, err}
use mahi_ai.Json.{
  Json, SerdeJson, null, string, boolean, natural, set, entry, json_object, json_array, word,
}
use mahi_ai.Hosted.Blocks.{tool_output_to_string, filter_map, text_part, turn, user_turn}

-- `trim_end_matches('/')`
abbrev pub drop_slashes : Text → Text
drop_slashes [] = []
drop_slashes (c ∷ cs) = let rest = drop_slashes cs in if nat_beq c b'/' then rest else c ∷ cs

unfoldable pub chat_completions_url : (base_url : Text) → Text
chat_completions_url base_url =
    reverse (drop_slashes (reverse base_url)) ++ text "/v1/chat/completions"

abbrev pub image_part : ContentBlock Json → Option Json
image_part (ContentBlock.image media_type payload) = some (
    json_object (
      entry "type" (word "image_url")
      ∷ entry "image_url" (
          json_object
            (entry "url" (string (text "data:" ++ media_type ++ text ";base64," ++ payload)) ∷ []))
      ∷ []))
image_part _ = none

unfoldable pub openai_image_blocks : Message Json → List Json
openai_image_blocks m = filter_map image_part m.content

-- The content is null only beside tool calls.
unfoldable pub spoken_turn : (calls : List Json) → (said : Text) → Json
spoken_turn [] said = turn "assistant" (string said)
spoken_turn (c ∷ calls) said =
    set (text "tool_calls") (json_array (c ∷ calls))
      (turn "assistant" (if is_empty said then null else string said))

abbrev pub screenshot_turns : (images : List Json) → List Json
screenshot_turns [] = []
screenshot_turns (i ∷ images) =
    turn "user"
      (json_array (text_part (text "Screenshot from the tool result above:") ∷ i ∷ images))
    ∷ []

abbrev pub with_field : Option Json → Text → Json → Json
with_field none key body = body
with_field (some value) key body = set key value body

abbrev pub tool_entry : ToolSpec Json → Json
tool_entry t = json_object (
    entry "type" (word "function")
    ∷ entry "function" (
        json_object (
          entry "name" (string t.id)
          ∷ entry "description" (string t.description)
          ∷ entry "parameters" t.input_schema
          ∷ []))
    ∷ [])

-- The hint of effort goes only on a turn without tools.
unfoldable pub with_tools : Option (List (ToolSpec Json)) → Option ThinkingConfig → Json → Json
with_tools none none body = body
with_tools none (some config) body =
    set (text "reasoning_effort") (string (reasoning_effort config)) body
with_tools (some tools) thinking body = set (text "tools") (json_array (map tool_entry tools)) body

abbrev pub some_number : Option ℕ → Option Json
some_number none = none
some_number (some n) = some (natural n)

module _ (serde : SerdeJson) where
  -- The arguments as a JSON string, `{}` where they cannot be written.
  abbrev pub written_args : Json → Text
  written_args args = elim (serde.to_string args) [ ok t ↦ t | err message ↦ text "{}" ]

  abbrev pub call_entry : ContentBlock Json → Option Json
  call_entry (ContentBlock.tool_call call_id tool_id args) = some (
      json_object (
        entry "id" (string call_id)
        ∷ entry "type" (word "function")
        ∷ entry "function" (
            json_object
              (entry "name" (string tool_id) ∷ entry "arguments" (string (written_args args)) ∷ []))
        ∷ []))
  call_entry _ = none

  unfoldable pub assistant_turn : Message Json → Json
  assistant_turn m = spoken_turn (filter_map call_entry m.content) (text_content m.content)

  abbrev pub result_turn : ContentBlock Json → Option Json
  result_turn (ContentBlock.tool_result call_id output) = some (
      json_object (
        entry "role" (word "tool")
        ∷ entry "tool_call_id" (string call_id)
        ∷ entry "content" (string (tool_output_to_string serde output))
        ∷ []))
  result_turn _ = none

  unfoldable pub tool_turns : Message Json → List Json
  tool_turns m =
      let emitted = filter_map result_turn m.content ++ screenshot_turns (openai_image_blocks m) in
      if is_empty emitted then turn "user" (string (text_content m.content)) ∷ [] else emitted

  unfoldable pub message_turns : MessageRole → Message Json → List Json
  message_turns MessageRole.system m = turn "system" (string (text_content m.content)) ∷ []
  message_turns MessageRole.user m = user_turn (openai_image_blocks m) m ∷ []
  message_turns MessageRole.assistant m = assistant_turn m ∷ []
  message_turns MessageRole.tool m = tool_turns m

  unfoldable pub all_turns : List (Message Json) → List Json
  all_turns [] = []
  all_turns (m ∷ ms) = message_turns m.role m ++ all_turns ms

  abbrev pub some_widened : Option ℕ → Option Json
  some_widened none = none
  some_widened (some bits) = some (serde.widen bits)

  unfoldable pub request_body : (model : Text) → InferenceRequest Json → Json
  request_body model req = with_tools req.tools req.thinking (
      with_field (some_widened req.temperature) (text "temperature") (
        with_field (some_number req.max_tokens) (text "max_tokens") (
          json_object (
            entry "model" (string model)
            ∷ entry "messages" (json_array (all_turns req.messages))
            ∷ entry "stream" (boolean true)
            ∷ []))))
