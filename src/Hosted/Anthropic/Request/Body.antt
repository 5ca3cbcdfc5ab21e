-- ===== src/Hosted/Anthropic/Request/Body.antt =====
-- What `request_body` of crates/mahi-compute/src/hosted/anthropic.rs sends.
use mahi_ai.Json.{string, natural, boolean, json_array, json_object, entry}
use mahi_ai.Prelude.{
  ℕ, ◌<◌, ◌≡◌, refl, true, false, not, ◌||◌, ◌&&◌, Option, none, some, List, [], ◌∷◌, ◌++◌, Text,
  text, All, All-append, if_both, ◌≤◌, any_of, is_empty, length, ltb, arith,
}
use mahi_ai.Contracts.Data.{Message, MessageRole, text_content}
use mahi_ai.Contracts.Inference.{InferenceRequest, ToolSpec, ThinkingConfig}
use mahi_ai.Json.{Json, SerdeJson, index, as_u64, is_str, unwrap_or}
use mahi_ai.Hosted.Blocks.{filter_map, turn, user_turn}
use mahi_ai.Hosted.Anthropic.Request

-- The turn is not one of the system.
abbrev pub IsSpoken : Json → Type 0
IsSpoken j = is_str (text "system") (index j (text "role")) ≡ false

user_turn-IsSpoken : (images : List Json) (m : Message Json) → IsSpoken (user_turn images m)
unfolding user_turn
user_turn-IsSpoken [] m = refl
user_turn-IsSpoken (i ∷ images) m = refl

assistant_turn-IsSpoken : (m : Message Json) → IsSpoken (Request.assistant_turn m)
unfolding Request.assistant_turn
assistant_turn-IsSpoken m =
    let blocks =
      filter_map Request.thinking_block m.content ++ filter_map Request.spoken_block m.content in
    if_both IsSpoken
      (not (is_empty blocks) && (any_of Request.is_tool_call m.content || ltb 1 (length blocks)))
      (turn "assistant" (json_array blocks)) (turn "assistant" (string (text_content m.content)))
      refl refl

module _ (serde : SerdeJson) where
  tool_turn-IsSpoken : (m : Message Json) → IsSpoken (Request.tool_turn serde m)
  unfolding Request.tool_turn
  tool_turn-IsSpoken m =
      let content =
        filter_map (Request.result_block serde) m.content ++ Request.anthropic_image_blocks m in
      if_both IsSpoken (is_empty content) (turn "user" (string (text_content m.content)))
        (turn "user" (json_array content)) refl refl

  message_turns-IsSpoken :
      (role : MessageRole) (m : Message Json) → All IsSpoken (Request.message_turns serde role m)
  unfolding Request.message_turns
  message_turns-IsSpoken MessageRole.system m = tt
  message_turns-IsSpoken MessageRole.user m = (user_turn-IsSpoken _ m, tt)
  message_turns-IsSpoken MessageRole.assistant m = (assistant_turn-IsSpoken m, tt)
  message_turns-IsSpoken MessageRole.tool m = (tool_turn-IsSpoken m, tt)

  -- No entry of the messages sent has the role of the system: what it says goes into the field `system`.
  pub all_turns-IsSpoken : (ms : List (Message Json)) → All IsSpoken (Request.all_turns serde ms)
  unfolding Request.all_turns
  all_turns-IsSpoken [] = tt
  all_turns-IsSpoken (m ∷ ms) =
      All-append IsSpoken (Request.message_turns serde m.role m) (Request.all_turns serde ms)
        (message_turns-IsSpoken m.role m) (all_turns-IsSpoken ms)

  abbrev body :
      (tools : Option (List (ToolSpec Json))) (parts : List Text) (config : ThinkingConfig)
      (max_tokens temperature : Option ℕ) (model : Text) (turns : Json)
      → Json
  body tools parts config max_tokens temperature model turns = Request.with_tools tools (
      Request.with_thinking serde (some config) max_tokens temperature (
        Request.with_system parts (
          json_object (
            entry "model" (string model)
            ∷ entry "messages" turns
            ∷ entry "max_tokens" (natural (unwrap_or Request.default_max_tokens max_tokens))
            ∷ entry "stream" (boolean true)
            ∷ []))))

  -- The numbers that the caps of a body with thinking hold.
  capped :
      (tools : Option (List (ToolSpec Json))) (parts : List Text) (config : ThinkingConfig)
      (max_tokens temperature : Option ℕ) (model : Text) (turns : Json)
      → (as_u64
            (index (body tools parts config max_tokens temperature model turns) (text "max_tokens"))
          ≡ some (Request.grown_max max_tokens (Request.budget_of config)))
        × (as_u64 (
              index
                (index
                  (body tools parts config max_tokens temperature model turns)
                  (text "thinking"))
                (text "budget_tokens"))
            ≡ some (Request.budget_of config))
  unfolding Request.with_tools Request.with_thinking Request.with_system
  capped none [] config max_tokens temperature model turns = (refl, refl)
  capped none (t ∷ ts) config max_tokens temperature model turns = (refl, refl)
  capped (some tools) [] config max_tokens temperature model turns = (refl, refl)
  capped (some tools) (t ∷ ts) config max_tokens temperature model turns = (refl, refl)

  -- Where a request asks for thinking with a budget below the greatest `u32`, and no turn of the assistant
  -- has a tool call without its thinking, the body asks for thinking, and the cap on the tokens that it
  -- sends is greater than the budget that it sends, as the API requires.
  pub request_body-thinking :
      (model : Text) (req : InferenceRequest Json) (config : ThinkingConfig)
      → req.thinking ≡ some config
      → Request.unreplayable_tool_turn req.messages ≡ false
      → config.budget_tokens < Request.u32_max
      → (cap : ℕ) × (budget : ℕ) × (as_u64
            (index (Request.request_body serde model req) (text "max_tokens"))
          ≡ some cap)
        × (as_u64 (
              index
                (index (Request.request_body serde model req) (text "thinking"))
                (text "budget_tokens"))
            ≡ some budget)
        × (config.budget_tokens ≤ budget)
        × (budget < cap)
  unfolding Request.request_body
  request_body-thinking model req config asked replayable small =
      let (cap, budget) =
        capped req.tools (Request.system_parts req.messages) config req.max_tokens req.temperature
          model (json_array (Request.all_turns serde req.messages)) in
      (
        Request.grown_max req.max_tokens (Request.budget_of config),
        Request.budget_of config,
        rw (replayable, asked) cap,
        rw (replayable, asked) budget,
        omega arith,
        omega (arith, small),
      )
