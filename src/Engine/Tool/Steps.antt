-- ===== src/Engine/Tool/Steps.antt =====
-- What the steps of a tool call do to a property of the calls made so far.
use mahi_ai.Prelude.{true, false, Option, none, some, List, [], ◌∷◌, Text}
use mahi_ai.Contracts.Types.{Uuid}
use mahi_ai.Contracts.Errors.{ContractError}
use mahi_ai.Contracts.Result.{Result, ok, err}
use mahi_ai.Contracts.Data.{AuditOutcome}
use mahi_ai.Contracts.Tooling.{ToolDescriptor, ToolInvocation, ToolEvent}
use mahi_ai.Engine.Env.{
  Poll, Decision, World, Env, Turn, Runner, M, pure, perform, registered, awaited, discarded,
  invoked,
}
use mahi_ai.Engine.Texts.{parse_args}
use mahi_ai.Engine.Stream.{PendingToolCall}
use mahi_ai.Engine.Tool.{
  ToolStepOutcome, append_tool_result, audit_tool_call, close_call, unknown_tool, tool_events,
  started_tool, ended_tool, invoke_tool, invocation, after_decision, request_approval, known_tool,
  find_tool, execute_tool_call, note_output, is_cancelled_event,
}
use mahi_ai.Engine.Tool.Effects.{
  IsStable, Reaches, Reaches-bind, Reaches-pure, Reaches-lift, Reaches-asks, Reaches-if,
  Reaches-perform, append_message-Reaches, append_audit-Reaches,
}

module _ {V : Type 0} (env : Env V) (turn : Turn) (P : World V → Type 0) (st : IsStable P) where
  pub append_tool_result-Reaches :
      (call_id : Text) (output : V) (approval_ref : Option Uuid) (s : Runner V)
      → P s.world
      → Reaches P (append_tool_result env turn call_id output approval_ref) s
  unfolding append_tool_result
  append_tool_result-Reaches call_id output approval_ref s h =
      Reaches-bind P _ _ s (Reaches-lift P _ s h)
        (λ sequence t k. record { at = (append_message-Reaches env P st _ t k).at })

  pub audit_tool_call-Reaches :
      (call : PendingToolCall) (args : V) (outcome : AuditOutcome) (approval_ref : Option Uuid)
      (s : Runner V)
      → P s.world
      → Reaches P (audit_tool_call env turn call args outcome approval_ref) s
  unfolding audit_tool_call
  audit_tool_call-Reaches call args outcome approval_ref s h = record {
    at = (append_audit-Reaches env P st _ s h).at;
  }

  pub close_call-Reaches :
      (call : PendingToolCall) (args : V) (outcome : AuditOutcome) (approval_ref : Option Uuid)
      (output : V) (s : Runner V)
      → P s.world
      → Reaches P (close_call env turn call args outcome approval_ref output) s
  unfolding close_call
  close_call-Reaches call args outcome approval_ref output s h =
      Reaches-bind P _ _ s (audit_tool_call-Reaches call args outcome approval_ref s h) λ _ t k.
        Reaches-bind P _ _ t (append_tool_result-Reaches call.call_id output approval_ref t k)
          λ _ u l. Reaches-pure P _ u l

  pub tool_events-Reaches :
      (output : V) (polls : List (Poll (ToolEvent V))) (s : Runner V)
      → P s.world
      → Reaches P (tool_events env turn output polls) s
  unfolding tool_events
  tool_events-Reaches output [] s h = Reaches-pure P _ s h
  tool_events-Reaches output (Poll.fired ∷ polls) s h = Reaches-pure P _ s h
  tool_events-Reaches output (Poll.item (err e) ∷ polls) s h =
      Reaches-bind P _ _ s (Reaches-perform P _ s (st.emits_error _ s.world h))
        λ _ t k. Reaches-pure P _ t k
  tool_events-Reaches output (Poll.item (ok event) ∷ polls) s h =
      Reaches-bind P _ _ s (Reaches-perform P _ s (st.emits_tool _ s.world h)) λ _ t k.
        Reaches-if P (is_cancelled_event env turn event) (pure none)
          (tool_events env turn (note_output env turn event output) polls) t
          (λ _. Reaches-pure P none t k)
          (λ _. tool_events-Reaches (note_output env turn event output) polls t k)

  pub started_tool-Reaches :
      (r : Result ContractError (List (Poll (ToolEvent V)))) (s : Runner V)
      → P s.world
      → Reaches P (started_tool env turn r) s
  unfolding started_tool
  started_tool-Reaches (ok polls) s h = tool_events-Reaches _ polls s h
  started_tool-Reaches (err e) s h =
      Reaches-bind P _ _ s (Reaches-perform P _ s (st.emits_error _ s.world h))
        λ _ t k. Reaches-pure P _ t k

  pub ended_tool-Reaches :
      (call : PendingToolCall) (args : V) (approval_ref : Option Uuid) (ended : Option V)
      (s : Runner V)
      → P s.world
      → Reaches P (ended_tool env turn call args approval_ref ended) s
  unfolding ended_tool
  ended_tool-Reaches call args approval_ref none s h = Reaches-pure P _ s h
  ended_tool-Reaches call args approval_ref (some output) s h =
      close_call-Reaches call args AuditOutcome.allowed approval_ref output s h

  -- What an invocation keeps, if it keeps the property when the call of the tool is made.
  pub invoke_tool-Reaches :
      (message_id : Uuid) (call : PendingToolCall) (args : V) (approval_ref : Option Uuid)
      (s : Runner V)
      → P (invoked (invocation env turn message_id call args s) ∷ s.world)
      → Reaches P (invoke_tool env turn message_id call args approval_ref) s
  unfolding invoke_tool
  invoke_tool-Reaches message_id call args approval_ref s h = record {
    at =
        (Reaches-bind P (perform (invoked (invocation env turn message_id call args s))) _ s
          (Reaches-perform P _ s h)
          (λ _ t k.
            Reaches-bind P _ _ t (started_tool-Reaches _ t k)
              λ ended u l. ended_tool-Reaches call args approval_ref ended u l)).at;
  }

  pub unknown_tool-Reaches :
      (call : PendingToolCall) (args : V) (s : Runner V)
      → P s.world
      → Reaches P (unknown_tool env turn call args) s
  unfolding unknown_tool
  unknown_tool-Reaches call args s h =
      Reaches-bind P _ _ s (Reaches-perform P _ s (st.emits_error _ s.world h))
        λ _ t k. close_call-Reaches call args AuditOutcome.denied none _ t k

-- A tool call keeps what the invocation of a tool keeps as well.
module _ {V : Type 0} (env : Env V) (turn : Turn) (P : World V → Type 0) (st : IsStable P)
    (invokes : (request : ToolInvocation V) (w : World V) → P w → P (invoked request ∷ w)) where
  after_decision-Reaches :
      (decision : Decision) (id message_id : Uuid) (call : PendingToolCall) (args : V)
      (s : Runner V)
      → P s.world
      → Reaches P (after_decision env turn decision id message_id call args) s
  unfolding after_decision
  after_decision-Reaches Decision.fired id message_id call args s h =
      Reaches-bind P (perform (discarded id)) _ s
        (Reaches-perform P (discarded id) s (st.discards id s.world h))
        (λ _ t k. Reaches-pure P _ t k)
  after_decision-Reaches Decision.sender_dropped id message_id call args s h =
      close_call-Reaches env turn P st call args AuditOutcome.denied (some id) _ s h
  after_decision-Reaches (Decision.resolved false) id message_id call args s h =
      close_call-Reaches env turn P st call args AuditOutcome.denied (some id) _ s h
  after_decision-Reaches (Decision.resolved true) id message_id call args s h =
      invoke_tool-Reaches env turn P st message_id call args (some id) s (invokes _ s.world h)

  request_approval-Reaches :
      (message_id : Uuid) (d : ToolDescriptor V) (call : PendingToolCall) (args : V) (s : Runner V)
      → P s.world
      → Reaches P (request_approval env turn message_id d call args) s
  unfolding request_approval
  request_approval-Reaches message_id d call args s h =
      Reaches-bind P _ _ s (Reaches-asks P _ s h) λ id t k.
        Reaches-bind P (perform (registered id)) _ t
          (Reaches-perform P (registered id) t (st.registers id t.world k))
          λ _ u l.
            Reaches-bind P _ _ u (Reaches-perform P _ u (st.emits_approval id _ u.world l)) λ _ v m.
              Reaches-bind P _ _ v (Reaches-asks P _ v m) λ decision w n.
                Reaches-bind P (perform (awaited id decision)) _ w
                  (Reaches-perform P _ w (st.awaits id decision w.world n))
                  λ _ x o. after_decision-Reaches decision id message_id call args x o

  pub execute_tool_call-Reaches :
      (message_id : Uuid) (ds : List (ToolDescriptor V)) (call : PendingToolCall) (s : Runner V)
      → P s.world
      → P (execute_tool_call env turn message_id ds call s).1.world
  unfolding execute_tool_call known_tool
  execute_tool_call-Reaches message_id ds call s h = go (find_tool ds call.tool_id)
    where
      args : V
      args = parse_args env.serde call.args_raw

      go :
          (o : Option (ToolDescriptor V))
          → P
              ((elim o as (λ _. M V ToolStepOutcome) [
                | none ↦ unknown_tool env turn call args
                | some d ↦ known_tool env turn message_id d call args
              ])
                s).1.world
      go none = (unknown_tool-Reaches env turn P st call args s h).at
      go (some d) =
          (Reaches-if P d.requires_approval (request_approval env turn message_id d call args)
            (invoke_tool env turn message_id call args none) s
            (λ _. request_approval-Reaches message_id d call args s h)
            (λ _.
              invoke_tool-Reaches env turn P st message_id call args none s
                (invokes _ s.world h))).at
