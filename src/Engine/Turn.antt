-- ===== src/Engine/Turn.antt =====
-- `TurnRunner::run` and `drive` of engine.rs: the rounds of one turn.
pub mod Invariant
pub mod Safety
use mahi_ai.Prelude.{
  ℕ, zero, suc, Bool, true, false, Option, none, some, List, [], ◌∷◌, ◌++◌, map, Text, text,
  is_empty, if◌then◌else◌,
}
use mahi_ai.Prelude.Int.{ℤ}
use mahi_ai.Contracts.Types.{Uuid, ComputeMode}
use mahi_ai.Contracts.Capabilities.{empty}
use mahi_ai.Contracts.Errors.{ContractError}
use mahi_ai.Contracts.Result.{Result, ok, err}
use mahi_ai.Contracts.Data.{ContentBlock, Message, MessageRole, Conversation, text_message}
use mahi_ai.Contracts.Tooling.{ToolDescriptor}
use mahi_ai.Contracts.Inference.{FinishReason, InferenceRequest, ToolSpec, enabled}
use mahi_ai.Context.{assemble_context}
use mahi_ai.Engine.Env.{
  AgentEvent, Effect, World, Env, Turn, Runner, M, ◌>>=◌, ◌>>◌, pure, lift, asks, current_mode,
  perform, emit, append_message, emitted, described, requested, upserted,
}
use mahi_ai.Engine.Texts.{parse_args}
use mahi_ai.Engine.Stream.{PendingToolCall, RoundOutcome, new_round, consume_inference}
use mahi_ai.Engine.Tool.{ToolStepOutcome, completed, cancelled, opt_list, execute_tool_call}

abbrev pub max_tool_steps : ℕ
max_tool_steps = 8

abbrev pub default_max_tokens : ℕ
default_max_tokens = 8192

abbrev pub history_limit : ℕ
history_limit = 200

abbrev pub memory_recall_limit : ℕ
memory_recall_limit = 5

module _ {V : Type 0} (env : Env V) (turn : Turn) where
  abbrev build_specs : List (ToolDescriptor V) → Option (List (ToolSpec V))
  build_specs [] = none
  build_specs (d ∷ ds) = some (
      map (λ t. record { id = t.id; description = t.display_name; input_schema = t.input_schema })
        (d ∷ ds))

  build_request : List (Message V) → List (ToolDescriptor V) → World V → InferenceRequest V
  build_request messages descriptors w = record {
    request_id = env.new_id w;
    messages = messages;
    tools = build_specs descriptors;
    max_tokens = some default_max_tokens;
    temperature = none;
    streaming_hint = true;
    required_caps = empty;
    thinking = some enabled;
  }

  context_messages : World V → Result ContractError (List (Message V))
  unfolding assemble_context
  context_messages w =
      assemble_context env.default_system_prompt (env.synthetic_id w) (env.now w)
        env.serde.content_len turn.conversation
        (env.semantic_search w turn.user_text turn.conversation.space_id memory_recall_limit)
        (env.range w turn.conversation.id history_limit) env.context_budget_chars

  assistant_text : Text → ℤ → Runner V → Message V
  assistant_text words sequence s =
      record (text_message (env.new_id s.world) (env.now s.world) turn.conversation.id
        MessageRole.assistant words s.mode sequence) { model_id = some (env.model s.world).id }

  pub persist_assistant_text : Text → M V (Unit {0})
  unfolding assistant_text
  persist_assistant_text words = if is_empty words then pure tt else do
    sequence ← lift (λ w. env.next_sequence w turn.conversation.id)
    λ s. append_message env (assistant_text words sequence s) s

  abbrev thinking_blocks : Option (Text × Text) → List (ContentBlock V)
  thinking_blocks none = []
  thinking_blocks (some (thinking, signature)) = ContentBlock.thinking thinking signature ∷ []

  abbrev text_blocks : Text → List (ContentBlock V)
  text_blocks words = if is_empty words then [] else ContentBlock.text words ∷ []

  pub call_blocks : List PendingToolCall → List (ContentBlock V)
  call_blocks [] = []
  call_blocks (c ∷ calls) =
      ContentBlock.tool_call c.call_id c.tool_id (parse_args env.serde c.args_raw)
      ∷ call_blocks calls

  tool_call_message : Text → List PendingToolCall → Option (Text × Text) → ℤ → Runner V → Message V
  unfolding call_blocks
  tool_call_message words calls thinking sequence s = record {
    id = env.new_id s.world;
    conversation_id = turn.conversation.id;
    role = MessageRole.assistant;
    content = thinking_blocks thinking ++ (text_blocks words ++ call_blocks calls);
    model_id = some (env.model s.world).id;
    mode = s.mode;
    created_at = env.now s.world;
    sequence_num = sequence;
    approval_refs = [];
  }

  pub persist_assistant_tool_calls : Text → List PendingToolCall → Option (Text × Text) → M V Uuid
  unfolding tool_call_message
  persist_assistant_tool_calls words calls thinking = do
    sequence ← lift (λ w. env.next_sequence w turn.conversation.id)
    id ← asks env.new_id
    λ s. append_message env (tool_call_message words calls thinking sequence s) s
    pure id

  -- The loop over the calls of a round.
  pub run_calls : Uuid → List (ToolDescriptor V) → List PendingToolCall → M V ToolStepOutcome
  run_calls message_id descriptors [] = pure completed
  run_calls message_id descriptors (call ∷ calls) =
      let rest = run_calls message_id descriptors calls in
      do
        stop ← asks env.is_cancelled
        if stop then pure cancelled else do
          outcome ← execute_tool_call env turn message_id descriptors call
          elim outcome [ completed ↦ rest | cancelled ↦ pure cancelled ]

  -- What `drive` does with the outcome of a round; `again` is the next round.
  pub after_round :
      List (ToolDescriptor V) → M V FinishReason → RoundOutcome → Text → M V FinishReason
  unfolding persist_assistant_text persist_assistant_tool_calls run_calls
  after_round descriptors again (RoundOutcome.finished reason) segment = do
    persist_assistant_text segment
    pure reason
  after_round descriptors again RoundOutcome.cancelled segment = do
    persist_assistant_text segment
    pure FinishReason.cancelled
  after_round descriptors again (RoundOutcome.tool_calls calls thinking) segment = do
    message_id ← persist_assistant_tool_calls segment calls thinking
    outcome ← run_calls message_id descriptors calls
    elim outcome [ completed ↦ again | cancelled ↦ pure FinishReason.cancelled ]

  abbrev pub cap_message : Text
  cap_message = text "tool-step cap (8) reached; ending turn"

  -- One round of `drive`, once its tools are listed; `again` is the next round.
  pub drive_round : List (ToolDescriptor V) → M V FinishReason → M V FinishReason
  unfolding after_round build_request context_messages
  drive_round descriptors again = do
    messages ← lift context_messages
    request ← asks (build_request messages descriptors)
    perform (requested request)
    polls ← lift (λ w. env.generate w request)
    outcome ← consume_inference polls new_round
    after_round descriptors again outcome.0 outcome.1

  -- The argument is the number of rounds that are left.
  pub drive : ℕ → M V FinishReason
  unfolding drive_round
  drive zero = do emit (AgentEvent.error cap_message); pure FinishReason.error
  drive (suc rounds) =
      let again = drive rounds in
      do
        mode ← current_mode
        descriptors ← asks (λ w. env.describe w mode)
        perform (described descriptors)
        drive_round descriptors again

  abbrev pub started : Runner V → Runner V
  started s = record s {
    world =
        emitted (AgentEvent.turn_started turn.conversation.id turn.user_message_id s.mode)
        ∷ s.world;
  }

  -- The match of `run` on what `drive` returned.
  pub reason_of : Result ContractError FinishReason → FinishReason
  reason_of (ok reason) = reason
  reason_of (err e) = FinishReason.error

  pub report : Result ContractError FinishReason → Runner V → Runner V
  report (ok reason) s = s
  report (err e) s = record s { world = emitted (AgentEvent.error (env.to_string e)) ∷ s.world }

  -- `touch_conversation`; its result is ignored.
  touched : World V → Conversation
  touched w = record turn.conversation { updated_at = env.now w }

  pub run : Runner V → Runner V
  unfolding drive reason_of report touched
  run s =
      let r = drive max_tool_steps (started s) in
      let t = report r.0 r.1 in
      record t {
        world =
            emitted (AgentEvent.turn_finished (reason_of r.0))
            ∷ upserted (touched t.world)
            ∷ t.world;
      }
