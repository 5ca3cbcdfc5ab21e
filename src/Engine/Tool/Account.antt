-- ===== src/Engine/Tool/Account.antt =====
-- What a tool call leaves behind: its audit event, its result message, and the invocations it made.
use mahi_ai.Prelude.{
  ℕ, suc, ◌+◌, ◌≤◌, ◌≡◌, refl, Bool-cases, inl, inr, Option, none, some, List, [], ◌∷◌, Text, arith,
}
use mahi_ai.Prelude.Int.{ℤ}
use mahi_ai.Contracts.Types.{Uuid}
use mahi_ai.Contracts.Errors.{ContractError}
use mahi_ai.Contracts.Result.{Result, ok, err}
use mahi_ai.Contracts.Data.{
  ContentBlock, Message, AuditEvent, AuditOutcome, allowed, denied, pending,
}
use mahi_ai.Contracts.Tooling.{ToolEvent}
use mahi_ai.Engine.Env.{
  AgentEvent, Poll, World, Env, Turn, Runner, ◌>>=◌, ◌>>◌, pure, perform, append_message, and_then,
  append_audit_cases, append_message_cases, lift_cases, emitted, appended, audited, invoked,
}
use mahi_ai.Engine.Stream.{PendingToolCall}
use mahi_ai.Engine.Tool.{
  ToolStepOutcome, completed, cancelled, started_tool, ended_tool, tool_events, close_call,
  audit_tool_call, append_tool_result, is_cancelled_event, note_output, tool_call_event,
  tool_message, tool_result_image, tool_result_blocks, tool_result_text,
}

-- A call that is closed was allowed or denied; it is not left pending.
abbrev pub IsDecided : AuditOutcome → Type 0
IsDecided allowed = Unit
IsDecided denied = Unit
IsDecided pending = ⊥

-- How often a tool was invoked under an outcome.
abbrev pub invoked_under : AuditOutcome → ℕ
invoked_under allowed = 1
invoked_under denied = 0
invoked_under pending = 0

module _ {V : Type 0} where
  abbrev pub audits : World V → ℕ
  audits [] = 0
  audits (audited _ ∷ w) = suc (audits w)
  audits (_ ∷ w) = audits w

  abbrev pub appends : World V → ℕ
  appends [] = 0
  appends (appended _ ∷ w) = suc (appends w)
  appends (_ ∷ w) = appends w

  abbrev pub invocations : World V → ℕ
  invocations [] = 0
  invocations (invoked _ ∷ w) = suc (invocations w)
  invocations (_ ∷ w) = invocations w

  -- Between the two worlds nothing was audited or stored, and so many tools were invoked.
  pub record IsQuiet (count : ℕ) (before after : World V) : Type 0 where
    pub same_audits : audits after ≡ audits before
    pub same_appends : appends after ≡ appends before
    pub counted : invocations after ≡ invocations before + count

  -- The first block of a message answers the call.
  abbrev pub Answers : Text → List (ContentBlock V) → Type 0
  Answers call_id (ContentBlock.tool_result id output ∷ blocks) = id ≡ call_id
  Answers call_id _ = ⊥

  -- The last two effects audit the call with this outcome and store its result.
  abbrev pub IsClosed : PendingToolCall → AuditOutcome → World V → World V → Type 0
  IsClosed call outcome base (appended m ∷ audited e ∷ w) =
      Answers call.call_id m.content
      × (e.outcome ≡ outcome)
      × (e.resource_ref ≡ some call.tool_id)
      × (w ≡ base)
  IsClosed call outcome base _ = ⊥

  -- What an answer says of the world that it comes with.
  abbrev pub Settles :
      PendingToolCall → World V → Result ContractError ToolStepOutcome × Runner V → Type 0
  Settles call w (ok completed, s) =
      (outcome : AuditOutcome) × (base : World V) × IsDecided outcome
      × IsClosed call outcome base s.world
      × IsQuiet (invoked_under outcome) w base
  Settles call w (ok cancelled, s) = (audits s.world ≡ audits w) × (appends s.world ≡ appends w)
  Settles call w (err e, s) = (audits s.world ≤ audits w + 1) × (appends s.world ≡ appends w)

module _ {V : Type 0} (env : Env V) (turn : Turn) where
  pub tool_events-IsQuiet :
      (output : V) (polls : List (Poll (ToolEvent V))) (s : Runner V)
      → IsQuiet 0 s.world (tool_events env turn output polls s).1.world
  unfolding tool_events ◌>>=◌ perform pure
  tool_events-IsQuiet output [] s = ground arith
  tool_events-IsQuiet output (Poll.fired ∷ polls) s = ground arith
  tool_events-IsQuiet output (Poll.item (err e) ∷ polls) s = ground arith
  tool_events-IsQuiet output (Poll.item (ok event) ∷ polls) s =
      let next : Runner V = record s { world = emitted (AgentEvent.tool event) ∷ s.world } in
      elim (Bool-cases (is_cancelled_event env turn event)) [
        | inl stop ↦ rw stop (ground arith)
        | inr on ↦
            let q = tool_events-IsQuiet (note_output env turn event output) polls next in
            rw on (record {
              same_audits = q.same_audits;
              same_appends = q.same_appends;
              counted = q.counted;
            })
      ]

  tool_message-Answers :
      (call_id : Text) (output : V) (approval_ref : Option Uuid) (sequence : ℤ) (s : Runner V)
      → Answers call_id (tool_message env turn call_id output approval_ref sequence s).content
  unfolding tool_message
  tool_message-Answers call_id output approval_ref sequence s =
      elim (tool_result_image env turn output s.world)
        as (λ o.
          Answers call_id
            (tool_result_blocks env turn call_id (tool_result_text env turn output) o)) [
              | none ↦ refl
              | some image ↦ refl
            ]

  append_tool_result_cases :
      (Q : Result ContractError (Unit {0}) × Runner V → Type 0) (call_id : Text) (output : V)
      (approval_ref : Option Uuid) (s : Runner V)
      → ((m : Message V)
          → Answers call_id m.content
          → Q (ok tt, record s { world = appended m ∷ s.world }))
      → ((e : ContractError) → Q (err e, s))
      → Q (append_tool_result env turn call_id output approval_ref s)
  unfolding append_tool_result ◌>>=◌
  append_tool_result_cases Q call_id output approval_ref s good bad =
      lift_cases
        (λ r. Q (
          and_then
            (λ sequence t.
              append_message env (tool_message env turn call_id output approval_ref sequence t) t)
            r))
        (λ w. env.next_sequence w turn.conversation.id) s
        (λ sequence.
          append_message_cases Q env (tool_message env turn call_id output approval_ref sequence s)
            s (good _ (tool_message-Answers call_id output approval_ref sequence s)) bad)
        bad

  -- The two writes of `close_call`, by what the stores answer.
  pub close_call-Settles :
      (call : PendingToolCall) (args : V) (outcome : AuditOutcome) (approval_ref : Option Uuid)
      (output : V) (w : World V) (s : Runner V)
      → IsDecided outcome
      → IsQuiet (invoked_under outcome) w s.world
      → Settles call w (close_call env turn call args outcome approval_ref output s)
  unfolding close_call ◌>>=◌ audit_tool_call pure
  close_call-Settles call args outcome approval_ref output w s decided q =
      let event : AuditEvent V = tool_call_event env turn call args outcome approval_ref s.world in
      append_audit_cases
        (λ r. Settles call w (
          and_then
            (λ _. append_tool_result env turn call.call_id output approval_ref >> pure completed)
            r))
        env event s
        (append_tool_result_cases (λ r. Settles call w (and_then (λ _. pure completed) r))
          call.call_id output approval_ref (record s { world = audited event ∷ s.world })
          (λ m answers. (outcome, s.world, decided, (answers, refl, refl, refl), q))
          (λ e. (omega (arith, q.same_audits), q.same_appends)))
        (λ e. (omega (arith, q.same_audits), q.same_appends))

  pub ended_tool-Settles :
      (call : PendingToolCall) (args : V) (approval_ref : Option Uuid) (ended : Option V)
      (w : World V) (s : Runner V)
      → IsQuiet 1 w s.world
      → Settles call w (ended_tool env turn call args approval_ref ended s)
  unfolding ended_tool pure
  ended_tool-Settles call args approval_ref none w s q = (q.same_audits, q.same_appends)
  ended_tool-Settles call args approval_ref (some output) w s q =
      close_call-Settles call args allowed approval_ref output w s tt q

  -- The events of a tool never end the turn by an error.
  tool_events-ok :
      (output : V) (polls : List (Poll (ToolEvent V))) (s : Runner V)
      → (o : Option V) × ((tool_events env turn output polls s).0 ≡ ok o)
  unfolding tool_events ◌>>=◌ perform pure
  tool_events-ok output [] s = (some output, refl)
  tool_events-ok output (Poll.fired ∷ polls) s = (none, refl)
  tool_events-ok output (Poll.item (err e) ∷ polls) s = (_, refl)
  tool_events-ok output (Poll.item (ok event) ∷ polls) s =
      let next : Runner V = record s { world = emitted (AgentEvent.tool event) ∷ s.world } in
      elim (Bool-cases (is_cancelled_event env turn event)) [
        | inl stop ↦ rw stop (none, refl)
        | inr on ↦ rw on (tool_events-ok (note_output env turn event output) polls next)
      ]

  pub started_tool-ok :
      (r : Result ContractError (List (Poll (ToolEvent V)))) (s : Runner V)
      → (o : Option V) × ((started_tool env turn r s).0 ≡ ok o)
        × IsQuiet 0 s.world (started_tool env turn r s).1.world
  unfolding started_tool ◌>>=◌ perform pure
  started_tool-ok (err e) s = (_, refl, ground arith)
  started_tool-ok (ok polls) s =
      let (o, e) = tool_events-ok env.serde.null polls s in
      (o, e, tool_events-IsQuiet env.serde.null polls s)
