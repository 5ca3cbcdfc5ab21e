-- ===== src/Hosted/Anthropic/Request.antt =====
-- crates/mahi-compute/src/hosted/anthropic.rs: `request_body` of the Messages API.
pub mod Body
pub mod Calls
use Prim.Native.Nat.{min, max}
use mahi_ai.Prelude.{
  ℕ, ◌+◌, ◌-◌, ◌^◌, Bool, true, false, not, ◌&&◌, ◌||◌, Option, none, some, List, [], ◌∷◌, ◌++◌,
  Text, text, map, is_empty, any_of, length, ltb, if◌then◌else◌,
}
use mahi_ai.Contracts.Data.{ContentBlock, Message, MessageRole, text_content}
use mahi_ai.Contracts.Inference.{InferenceRequest, ToolSpec, ThinkingConfig}
use mahi_ai.Json.{
  Json, SerdeJson, string, boolean, natural, set, unwrap_or, entry, json_object, json_array, word,
}
use mahi_ai.Hosted.Blocks.{tool_output_to_string, filter_map, text_part, turn, user_turn}

-- `DEFAULT_MAX_TOKENS`
abbrev pub default_max_tokens : ℕ
default_max_tokens = 1024

-- `u32::MAX`
abbrev pub u32_max : ℕ
u32_max = 2 ^ 32 - 1

abbrev pub image_block : ContentBlock Json → Option Json
image_block (ContentBlock.image media_type payload) = some (
    json_object (
      entry "type" (word "image")
      ∷ entry "source" (
          json_object (
            entry "type" (word "base64")
            ∷ entry "media_type" (string media_type)
            ∷ entry "data" (string payload)
            ∷ []))
      ∷ []))
image_block _ = none

unfoldable pub anthropic_image_blocks : Message Json → List Json
anthropic_image_blocks m = filter_map image_block m.content

-- The blocks that the assistant's turn begins with.
abbrev pub thinking_block : ContentBlock Json → Option Json
thinking_block (ContentBlock.thinking thinking signature) = some (
    json_object (
      entry "type" (word "thinking")
      ∷ entry "thinking" (string thinking)
      ∷ entry "signature" (string signature)
      ∷ []))
thinking_block _ = none

abbrev pub spoken_block : ContentBlock Json → Option Json
spoken_block (ContentBlock.text t) = if is_empty t then none else some (text_part t)
spoken_block (ContentBlock.tool_call call_id tool_id args) = some (
    json_object (
      entry "type" (word "tool_use")
      ∷ entry "id" (string call_id)
      ∷ entry "name" (string tool_id)
      ∷ entry "input" args
      ∷ []))
spoken_block _ = none

abbrev pub is_tool_call : ContentBlock Json → Bool
is_tool_call (ContentBlock.tool_call call_id tool_id args) = true
is_tool_call _ = false

abbrev pub is_thinking : ContentBlock Json → Bool
is_thinking (ContentBlock.thinking thinking signature) = true
is_thinking _ = false

unfoldable pub assistant_turn : Message Json → Json
assistant_turn m =
    let blocks = filter_map thinking_block m.content ++ filter_map spoken_block m.content in
    if not (is_empty blocks) && (any_of is_tool_call m.content || ltb 1 (length blocks))
    then turn "assistant" (json_array blocks)
    else turn "assistant" (string (text_content m.content))

abbrev pub system_text : MessageRole → Text → List Text
system_text MessageRole.system t = t ∷ []
system_text _ t = []

abbrev pub system_parts : List (Message Json) → List Text
system_parts [] = []
system_parts (m ∷ ms) = system_text m.role (text_content m.content) ++ system_parts ms

-- `join("\n")`
abbrev pub join_lines : List Text → Text
join_lines [] = []
join_lines (t ∷ []) = t
join_lines (t ∷ s ∷ ts) = t ++ 10 ∷ join_lines (s ∷ ts)

-- A turn of the assistant with a tool call and no thinking block.
abbrev pub unreplayable : MessageRole → List (ContentBlock Json) → Bool
unreplayable MessageRole.assistant bs = any_of is_tool_call bs && not (any_of is_thinking bs)
unreplayable _ bs = false

abbrev pub unreplayable_tool_turn : List (Message Json) → Bool
unreplayable_tool_turn ms = any_of (λ m. unreplayable m.role m.content) ms

abbrev pub budget_of : ThinkingConfig → ℕ
budget_of config = max config.budget_tokens 1024

-- `budget.saturating_add(DEFAULT_MAX_TOKENS)`, and the cap of the request where that is greater.
abbrev pub grown_max : Option ℕ → ℕ → ℕ
grown_max max_tokens budget =
    max (unwrap_or default_max_tokens max_tokens) (min (budget + default_max_tokens) u32_max)

abbrev pub tool_entry : ToolSpec Json → Json
tool_entry t = json_object (
    entry "name" (string t.id)
    ∷ entry "description" (string t.description)
    ∷ entry "input_schema" t.input_schema
    ∷ [])

unfoldable pub with_tools : Option (List (ToolSpec Json)) → Json → Json
with_tools none body = body
with_tools (some tools) body = set (text "tools") (json_array (map tool_entry tools)) body

unfoldable pub with_system : List Text → Json → Json
with_system [] body = body
with_system (t ∷ ts) body = set (text "system") (string (join_lines (t ∷ ts))) body

module _ (serde : SerdeJson) where
  abbrev pub result_block : ContentBlock Json → Option Json
  result_block (ContentBlock.tool_result call_id output) = some (
      json_object (
        entry "type" (word "tool_result")
        ∷ entry "tool_use_id" (string call_id)
        ∷ entry "content" (string (tool_output_to_string serde output))
        ∷ []))
  result_block _ = none

  unfoldable pub tool_turn : Message Json → Json
  tool_turn m =
      let content = filter_map result_block m.content ++ anthropic_image_blocks m in
      if is_empty content
      then turn "user" (string (text_content m.content))
      else turn "user" (json_array content)

  -- The entries of `messages` that one message becomes.
  unfoldable pub message_turns : MessageRole → Message Json → List Json
  message_turns MessageRole.system m = []
  message_turns MessageRole.assistant m = assistant_turn m ∷ []
  message_turns MessageRole.tool m = tool_turn m ∷ []
  message_turns MessageRole.user m = user_turn (anthropic_image_blocks m) m ∷ []

  unfoldable pub all_turns : List (Message Json) → List Json
  all_turns [] = []
  all_turns (m ∷ ms) = message_turns m.role m ++ all_turns ms

  unfoldable pub with_thinking :
      Option ThinkingConfig → (max_tokens temperature : Option ℕ) → Json → Json
  with_thinking (some config) max_tokens temperature body =
      set (text "thinking")
        (json_object
          (entry "type" (word "enabled") ∷ entry "budget_tokens" (natural (budget_of config)) ∷ []))
        (set (text "max_tokens") (natural (grown_max max_tokens (budget_of config))) body)
  with_thinking none max_tokens none body = body
  with_thinking none max_tokens (some temperature) body =
      set (text "temperature") (serde.widen temperature) body

  unfoldable pub request_body : (model : Text) → InferenceRequest Json → Json
  request_body model req = with_tools req.tools (
      with_thinking (if unreplayable_tool_turn req.messages then none else req.thinking)
        req.max_tokens req.temperature
        (with_system (system_parts req.messages) (
          json_object (
            entry "model" (string model)
            ∷ entry "messages" (json_array (all_turns req.messages))
            ∷ entry "max_tokens" (natural (unwrap_or default_max_tokens req.max_tokens))
            ∷ entry "stream" (boolean true)
            ∷ []))))
