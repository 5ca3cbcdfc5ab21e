-- ===== src/Engine/Tool/Settling.antt =====
-- What a whole tool call leaves behind.
use mahi_ai.Prelude.{
  ℕ, ◌+◌, ◌≡◌, sym, ◌∙◌, true, false, Bool-cases, inl, inr, Option, none, some, List, ◌∷◌, arith,
  if◌then◌else◌,
}
use mathlib.Core.Path.{subst}
use mahi_ai.Contracts.Types.{Uuid}
use mahi_ai.Contracts.Errors.{ContractError}
use mahi_ai.Contracts.Result.{Result, ok, err}
use mahi_ai.Contracts.Data.{denied}
use mahi_ai.Contracts.Tooling.{ToolDescriptor, ToolInvocation}
use mahi_ai.Engine.Env.{
  Decision, World, Env, Turn, Runner, M, ◌>>=◌, pure, asks, perform, and_then, invoked,
}
use mahi_ai.Engine.Texts.{parse_args}
use mahi_ai.Engine.Stream.{PendingToolCall}
use mahi_ai.Engine.Tool.{
  ToolStepOutcome, find_tool, execute_tool_call, known_tool, unknown_tool, request_approval,
  after_decision, invoke_tool, started_tool, ended_tool, invocation,
}
use mahi_ai.Engine.Tool.Account.{
  IsQuiet, Settles, close_call-Settles, ended_tool-Settles, started_tool-ok,
}

and_then-ok :
    {V A B : Type 0} (f : A → M V B) (r : Result ContractError A × Runner V) (a : A)
    → r.0 ≡ ok a
    → and_then f r ≡ f a r.1
and_then-ok f (ok b, t) a e = ground arith
and_then-ok f (err x, t) a e = cc

IsQuiet-trans :
    {V : Type 0} (m n : ℕ) (a b c : World V) → IsQuiet m a b → IsQuiet n b c → IsQuiet (m + n) a c
IsQuiet-trans m n a b c p q = record {
  same_audits = q.same_audits ∙ p.same_audits;
  same_appends = q.same_appends ∙ p.same_appends;
  counted = omega (arith, p.counted, q.counted);
}

module _ {V : Type 0} (env : Env V) (turn : Turn) where
  invoke_tool-Settles :
      (message_id : Uuid) (call : PendingToolCall) (args : V) (approval_ref : Option Uuid)
      (w : World V) (s : Runner V)
      → IsQuiet 0 w s.world
      → Settles call w (invoke_tool env turn message_id call args approval_ref s)
  unfolding invoke_tool ◌>>=◌ perform
  invoke_tool-Settles message_id call args approval_ref w s q =
      let request : ToolInvocation V = invocation env turn message_id call args s in
      let s' : Runner V = record s { world = invoked request ∷ s.world } in
      let (ended, e, q') = started_tool-ok env turn (env.invoke s.world request) s' in
      let q1 : IsQuiet 1 w s'.world = record {
        same_audits = q.same_audits;
        same_appends = q.same_appends;
        counted = omega (arith, q.counted);
      } in
      subst (Settles call w)
        (sym (
          and_then-ok (λ o. ended_tool env turn call args approval_ref o)
            (started_tool env turn (env.invoke s.world request) s') ended e))
        (ended_tool-Settles env turn call args approval_ref ended w _
          (IsQuiet-trans 1 0 w s'.world _ q1 q'))

  after_decision-Settles :
      (decision : Decision) (id message_id : Uuid) (call : PendingToolCall) (args : V) (w : World V)
      (s : Runner V)
      → IsQuiet 0 w s.world
      → Settles call w (after_decision env turn decision id message_id call args s)
  unfolding after_decision ◌>>=◌ perform pure
  after_decision-Settles Decision.fired id message_id call args w s q =
      (q.same_audits, q.same_appends)
  after_decision-Settles Decision.sender_dropped id message_id call args w s q =
      close_call-Settles env turn call args denied (some id) env.serde.denied_object w s tt q
  after_decision-Settles (Decision.resolved false) id message_id call args w s q =
      close_call-Settles env turn call args denied (some id) env.serde.denied_object w s tt q
  after_decision-Settles (Decision.resolved true) id message_id call args w s q =
      invoke_tool-Settles message_id call args (some id) w s q

  request_approval-Settles :
      (message_id : Uuid) (d : ToolDescriptor V) (call : PendingToolCall) (args : V) (w : World V)
      (s : Runner V)
      → IsQuiet 0 w s.world
      → Settles call w (request_approval env turn message_id d call args s)
  unfolding request_approval ◌>>=◌ perform asks
  request_approval-Settles message_id d call args w s q =
      after_decision-Settles _ (env.new_id s.world) message_id call args w _
        (record { same_audits = q.same_audits; same_appends = q.same_appends; counted = q.counted })

  known_tool-Settles :
      (message_id : Uuid) (d : ToolDescriptor V) (call : PendingToolCall) (args : V) (w : World V)
      (s : Runner V)
      → IsQuiet 0 w s.world
      → Settles call w (known_tool env turn message_id d call args s)
  unfolding known_tool
  known_tool-Settles message_id d call args w s q = elim (Bool-cases d.requires_approval) [
    | inl gated ↦
        subst
          (λ b. Settles call w (
            (if b
                then request_approval env turn message_id d call args
                else invoke_tool env turn message_id call args none)
              s))
          (sym gated) (request_approval-Settles message_id d call args w s q)
    | inr free ↦
        subst
          (λ b. Settles call w (
            (if b
                then request_approval env turn message_id d call args
                else invoke_tool env turn message_id call args none)
              s))
          (sym free) (invoke_tool-Settles message_id call args none w s q)
  ]

  -- A tool call that completes ends with its audit event and then the message that answers it, and
  -- nothing else was audited or stored for it: the outcome is `allowed` where the tool was invoked,
  -- once, and `denied` where it was not. A cancelled call leaves neither, also if its tool was
  -- invoked. A store error leaves no answer and at most the audit event.
  pub execute_tool_call-Settles :
      (message_id : Uuid) (ds : List (ToolDescriptor V)) (call : PendingToolCall) (s : Runner V)
      → Settles call s.world (execute_tool_call env turn message_id ds call s)
  unfolding execute_tool_call unknown_tool ◌>>=◌ perform
  execute_tool_call-Settles message_id ds call s = go (find_tool ds call.tool_id)
    where
      go :
          (o : Option (ToolDescriptor V))
          → Settles call s.world (
              (elim o as (λ _. M V ToolStepOutcome) [
                | none ↦ unknown_tool env turn call (parse_args env.serde call.args_raw)
                | some d ↦
                    known_tool env turn message_id d call (parse_args env.serde call.args_raw)
              ])
                s)
      go none = close_call-Settles env turn call _ denied none _ s.world _ tt (ground arith)
      go (some d) = known_tool-Settles message_id d call _ s.world s (ground arith)
