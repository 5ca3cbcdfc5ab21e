-- ===== src/Engine/Tool.antt =====
-- `TurnRunner::execute_tool_call` of engine.rs and what it writes: audit events and tool results.
pub mod Effects
pub mod Steps
pub mod Gate
pub mod Account
pub mod Settling
use mahi_ai.Prelude.{
  ℕ, Bool, true, false, not, ◌&&◌, Option, none, some, List, [], ◌∷◌, ◌++◌, Text, text, is_empty,
  find_first, ◌==◌, text_eq, if◌then◌else◌,
}
use mahi_ai.Prelude.Int.{ℤ}
use mahi_ai.Contracts.Types.{Uuid, Timestamp, ComputeMode}
use mahi_ai.Contracts.Errors.{ContractError}
use mahi_ai.Contracts.Result.{Result, ok, err}
use mahi_ai.Contracts.Data.{
  ContentBlock, Message, MessageRole, AuditEvent, AuditOutcome, AuditEventType, AuditActor,
}
use mahi_ai.Contracts.Tooling.{ToolDescriptor, ToolInvocation, ToolEvent}
use mahi_ai.Engine.Env.{
  AgentEvent, Poll, Decision, Effect, World, Env, Turn, Runner, M, ◌>>=◌, ◌>>◌, pure, lift, asks,
  current_mode, perform, emit, append_message, append_audit, registered, awaited, discarded,
  invoked,
}
use mahi_ai.Engine.Texts.{parse_args, truncate_for_summary, screenshot_image_block}
use mahi_ai.Engine.Stream.{PendingToolCall}

pub data ToolStepOutcome : Type 0 where
  completed cancelled : ToolStepOutcome

abbrev pub opt_list {ℓ} : {A : Type ℓ} → Option A → List A
opt_list none = []
opt_list (some a) = a ∷ []

-- `descriptors.iter().find(|d| d.id == call.tool_id)`
abbrev pub find_tool : {V : Type 0} → List (ToolDescriptor V) → Text → Option (ToolDescriptor V)
find_tool descriptors tool_id = find_first (λ d. d.id == tool_id) descriptors

module _ {V : Type 0} (env : Env V) (turn : Turn) where
  -- The image block of a tool result, for a model that can see.
  tool_result_image : V → World V → Option (Text × Text)
  tool_result_image output w =
      let has_image : Bool = elim (env.serde.image_hex output) [
        | none ↦ false
        | some hex ↦ not (is_empty hex)
      ] in
      if has_image && (env.model w).capabilities.vision
      then screenshot_image_block env.serde output
      else none

  -- The text of a tool result never holds the bytes of an image.
  tool_result_text : V → V
  tool_result_text output =
      let has_image : Bool = elim (env.serde.image_hex output) [
        | none ↦ false
        | some hex ↦ not (is_empty hex)
      ] in
      if has_image then env.serde.strip_image output else output

  tool_result_blocks : Text → V → Option (Text × Text) → List (ContentBlock V)
  tool_result_blocks call_id output none = ContentBlock.tool_result call_id output ∷ []
  tool_result_blocks call_id output (some (media_type, payload)) =
      ContentBlock.tool_result call_id output ∷ ContentBlock.image media_type payload ∷ []

  tool_message : Text → V → Option Uuid → ℤ → Runner V → Message V
  unfolding tool_result_image tool_result_text tool_result_blocks
  tool_message call_id output approval_ref sequence s = record {
    id = env.new_id s.world;
    conversation_id = turn.conversation.id;
    role = MessageRole.tool;
    content =
        tool_result_blocks call_id (tool_result_text output) (tool_result_image output s.world);
    model_id = none;
    mode = s.mode;
    created_at = env.now s.world;
    sequence_num = sequence;
    approval_refs = opt_list approval_ref;
  }

  pub append_tool_result : Text → V → Option Uuid → M V (Unit {0})
  unfolding tool_message
  append_tool_result call_id output approval_ref = do
    sequence ← lift (λ w. env.next_sequence w turn.conversation.id)
    λ s. append_message env (tool_message call_id output approval_ref sequence s) s

  tool_call_event : PendingToolCall → V → AuditOutcome → Option Uuid → World V → AuditEvent V
  tool_call_event call args outcome approval_ref w = record {
    event_id = env.new_id w;
    device_id = env.device_id;
    session_id = some turn.conversation.id;
    event_type = AuditEventType.tool_call;
    actor = AuditActor.agent;
    resource_ref = some call.tool_id;
    outcome = outcome;
    metadata = env.serde.audit_metadata call.call_id args turn.trace_id approval_ref;
    timestamp = env.now w;
    prev_hash = [];
  }

  pub audit_tool_call : PendingToolCall → V → AuditOutcome → Option Uuid → M V (Unit {0})
  unfolding tool_call_event
  audit_tool_call call args outcome approval_ref s =
      append_audit env (tool_call_event call args outcome approval_ref s.world) s

  -- The audit event and the tool result that close a call which did not end in a cancellation.
  pub close_call : PendingToolCall → V → AuditOutcome → Option Uuid → V → M V ToolStepOutcome
  unfolding audit_tool_call append_tool_result
  close_call call args outcome approval_ref output = do
    audit_tool_call call args outcome approval_ref
    append_tool_result call.call_id output approval_ref
    pure completed

  pub unknown_tool : PendingToolCall → V → M V ToolStepOutcome
  unfolding close_call
  unknown_tool call args = do
    let message = text "model requested unknown tool '" ++ call.tool_id ++ text "'"
    emit (AgentEvent.error message)
    close_call call args AuditOutcome.denied none (env.serde.error_object message)

  -- `ToolEvent::Result` and `ToolEvent::Error` replace the output so far.
  note_output : ToolEvent V → V → V
  note_output (ToolEvent.result out truncated) output = out
  note_output (ToolEvent.error message retryable) output = env.serde.error_object message
  note_output _ output = output

  is_cancelled_event : ToolEvent V → Bool
  is_cancelled_event ToolEvent.cancelled = true
  is_cancelled_event _ = false

  -- The loop over the events of a tool; `none` is a cancellation.
  pub tool_events : V → List (Poll (ToolEvent V)) → M V (Option V)
  unfolding note_output is_cancelled_event
  tool_events output [] = pure (some output)
  tool_events output (Poll.fired ∷ polls) = pure none
  tool_events output (Poll.item (err e) ∷ polls) = do
    emit (AgentEvent.error (env.to_string e))
    pure (some (env.serde.error_object (env.to_string e)))
  tool_events output (Poll.item (ok event) ∷ polls) =
      let more = tool_events (note_output event output) polls in
      do emit (AgentEvent.tool event); if is_cancelled_event event then pure none else more

  pub invocation : Uuid → PendingToolCall → V → Runner V → ToolInvocation V
  invocation assistant_message_id call args s = record {
    invocation_id = env.new_id s.world;
    tool_id = call.tool_id;
    args = args;
    session_id = turn.conversation.id;
    conversation_id = turn.conversation.id;
    message_id = assistant_message_id;
    compute_mode = s.mode;
    trace_id = turn.trace_id;
    stream = true;
  }

  pub started_tool : Result ContractError (List (Poll (ToolEvent V))) → M V (Option V)
  unfolding tool_events
  started_tool (ok polls) = tool_events env.serde.null polls
  started_tool (err e) = do
    emit (AgentEvent.error (env.to_string e))
    pure (some (env.serde.error_object (env.to_string e)))

  pub ended_tool : PendingToolCall → V → Option Uuid → Option V → M V ToolStepOutcome
  unfolding close_call
  ended_tool call args approval_ref none = pure cancelled
  ended_tool call args approval_ref (some output) =
      close_call call args AuditOutcome.allowed approval_ref output

  pub invoke_tool : Uuid → PendingToolCall → V → Option Uuid → M V ToolStepOutcome
  unfolding started_tool ended_tool invocation
  invoke_tool assistant_message_id call args approval_ref s =
      let request = invocation assistant_message_id call args s in
      (do
        perform (invoked request)
        ended ← started_tool (env.invoke s.world request)
        ended_tool call args approval_ref ended)
        s

  pub after_decision : Decision → Uuid → Uuid → PendingToolCall → V → M V ToolStepOutcome
  unfolding close_call invoke_tool
  after_decision Decision.fired approval_id assistant_message_id call args = do
    perform (discarded approval_id)
    pure cancelled
  after_decision Decision.sender_dropped approval_id assistant_message_id call args =
      close_call call args AuditOutcome.denied (some approval_id) env.serde.denied_object
  after_decision (Decision.resolved false) approval_id assistant_message_id call args =
      close_call call args AuditOutcome.denied (some approval_id) env.serde.denied_object
  after_decision (Decision.resolved true) approval_id assistant_message_id call args =
      invoke_tool assistant_message_id call args (some approval_id)

  pub approval_summary : ToolDescriptor V → PendingToolCall → Text
  approval_summary d call =
      text "Run tool '"
      ++ d.display_name
      ++ text "' ("
      ++ d.id
      ++ text ") with args "
      ++ truncate_for_summary call.args_raw 200

  pub request_approval : Uuid → ToolDescriptor V → PendingToolCall → V → M V ToolStepOutcome
  unfolding approval_summary after_decision
  request_approval assistant_message_id d call args = do
    approval_id ← asks env.new_id
    perform (registered approval_id)
    emit (AgentEvent.approval_required approval_id (approval_summary d call))
    decision ← asks (λ w. env.decide w approval_id)
    perform (awaited approval_id decision)
    after_decision decision approval_id assistant_message_id call args

  pub known_tool : Uuid → ToolDescriptor V → PendingToolCall → V → M V ToolStepOutcome
  unfolding request_approval invoke_tool
  known_tool assistant_message_id d call args =
      if d.requires_approval
      then request_approval assistant_message_id d call args
      else invoke_tool assistant_message_id call args none

  pub execute_tool_call : Uuid → List (ToolDescriptor V) → PendingToolCall → M V ToolStepOutcome
  unfolding known_tool unknown_tool
  execute_tool_call assistant_message_id descriptors call =
      elim (find_tool descriptors call.tool_id) [
        | none ↦ unknown_tool call (parse_args env.serde call.args_raw)
        | some d ↦ known_tool assistant_message_id d call (parse_args env.serde call.args_raw)
      ]
