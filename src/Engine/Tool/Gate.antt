-- ===== src/Engine/Tool/Gate.antt =====
-- The approval gate of `execute_tool_call`.
use mahi_ai.Prelude.{
  ◌≡◌, refl, sym, true, false, inl, inr, Option, Option-cases, none, some, List, [], ◌∷◌, ◌++◌,
  Text, text,
}
use mathlib.Core.Path.{subst}
use mahi_ai.Contracts.Types.{Uuid}
use mahi_ai.Contracts.Data.{AuditOutcome}
use mahi_ai.Contracts.Tooling.{ToolDescriptor, ToolInvocation}
use mahi_ai.Engine.Env.{
  AgentEvent, Decision, Serde, World, Env, Turn, Runner, ◌>>=◌, asks, perform, emitted, described,
  registered, awaited, discarded, invoked,
}
use mahi_ai.Engine.Texts.{parse_args, truncate_for_summary}
use mahi_ai.Engine.Stream.{PendingToolCall}
use mahi_ai.Engine.Tool.{
  find_tool, execute_tool_call, known_tool, request_approval, after_decision, invoke_tool,
  invocation, approval_summary,
}
use mahi_ai.Engine.Tool.Effects.{
  Reaches-if, IsStable, Reaches, Reaches-bind, Reaches-pure, Reaches-perform,
}
use mahi_ai.Engine.Tool.Steps.{close_call-Reaches, invoke_tool-Reaches, unknown_tool-Reaches}

module _ {V : Type 0} where
  -- The tools that were listed last.
  abbrev pub latest : World V → List (ToolDescriptor V)
  latest [] = []
  latest (described ds ∷ w) = ds
  latest (_ ∷ w) = latest w

  -- What the user is shown of a call: the tool, by its name and id, and the text of the arguments.
  abbrev pub shown_call : ToolDescriptor V → Text → Text
  shown_call d raw =
      text "Run tool '"
      ++ d.display_name
      ++ text "' ("
      ++ d.id
      ++ text ") with args "
      ++ truncate_for_summary raw 200

  -- Just before, a request was registered, the user was shown this tool with the text of the arguments
  -- that it is now invoked with, cut to 200 characters, and said yes to that request.
  abbrev pub IsApproved : Serde V → ToolDescriptor V → ToolInvocation V → World V → Type 0
  IsApproved serde d request w =
      (id : Uuid) × (raw : Text) × (before : World V) × (request.args ≡ parse_args serde raw)
      × (w
          ≡ awaited id (Decision.resolved true)
            ∷ emitted (AgentEvent.approval_required id (shown_call d raw))
            ∷ registered id
            ∷ before)

  -- A tool may be invoked if it is one of those listed last, and if it requires an approval only
  -- right after the user gave it.
  abbrev pub IsPermitted : Serde V → ToolInvocation V → World V → Type 0
  IsPermitted serde request w =
      (d : ToolDescriptor V) × (find_tool (latest w) request.tool_id ≡ some d)
      × (d.requires_approval ≡ true → IsApproved serde d request w)

  -- Every invocation so far was permitted when it was made.
  abbrev pub IsGated : Serde V → World V → Type 0
  IsGated serde [] = Unit
  IsGated serde (invoked request ∷ w) = IsPermitted serde request w × IsGated serde w
  IsGated serde (_ ∷ w) = IsGated serde w

  -- The gate holds, and these are the tools that were listed last.
  abbrev pub GatedWith : Serde V → List (ToolDescriptor V) → World V → Type 0
  GatedWith serde ds w = IsGated serde w × (latest w ≡ ds)

  pub GatedWith-stable :
      (serde : Serde V) (ds : List (ToolDescriptor V)) → IsStable (GatedWith serde ds)
  GatedWith-stable serde ds = record {
    emits_delta = λ t w h. h;
    emits_handoff = λ from to w h. h;
    emits_tool = λ e w h. h;
    emits_approval = λ id t w h. h;
    emits_error = λ t w h. h;
    appends = λ m w h. h;
    audits = λ e w h. h;
    registers = λ id w h. h;
    awaits = λ id d w h. h;
    discards = λ id w h. h;
  }

module _ {V : Type 0} (env : Env V) (turn : Turn) (ds : List (ToolDescriptor V)) where
  stable : IsStable (GatedWith env.serde ds)
  stable = GatedWith-stable env.serde ds

  -- The gate at the call of a tool that is listed and, where that is required, approved.
  invoke_tool-GatedWith :
      (message_id : Uuid) (d : ToolDescriptor V) (call : PendingToolCall) (args : V)
      (approval_ref : Option Uuid) (s : Runner V)
      → find_tool ds call.tool_id ≡ some d
      → GatedWith env.serde ds s.world
      → (d.requires_approval ≡ true
          → IsApproved env.serde d (invocation env turn message_id call args s) s.world)
      → Reaches (GatedWith env.serde ds) (invoke_tool env turn message_id call args approval_ref) s
  unfolding invocation
  invoke_tool-GatedWith message_id d call args approval_ref s found h approved =
      invoke_tool-Reaches env turn (GatedWith env.serde ds) stable message_id call args approval_ref
        s
        (((d, subst (λ l. find_tool l call.tool_id ≡ some d) (sym h.1) found, approved), h.0), h.1)

  after_decision-GatedWith :
      (decision : Decision) (id : Uuid) (message_id : Uuid) (d : ToolDescriptor V)
      (call : PendingToolCall) (args : V) (s : Runner V) (before : World V)
      → args ≡ parse_args env.serde call.args_raw
      → s.world
        ≡ awaited id decision
          ∷ emitted (AgentEvent.approval_required id (shown_call d call.args_raw))
          ∷ registered id
          ∷ before
      → find_tool ds call.tool_id ≡ some d
      → GatedWith env.serde ds s.world
      → Reaches
          (GatedWith env.serde ds)
          (after_decision env turn decision id message_id call args)
          s
  unfolding after_decision invocation
  after_decision-GatedWith Decision.fired id message_id d call args s before parsed e found h =
      Reaches-bind (GatedWith env.serde ds) (perform (discarded id)) _ s
        (Reaches-perform (GatedWith env.serde ds) (discarded id) s (stable.discards id s.world h))
        (λ _ t k. Reaches-pure (GatedWith env.serde ds) _ t k)
  after_decision-GatedWith Decision.sender_dropped id message_id d call args s before parsed e found
        h =
      close_call-Reaches env turn (GatedWith env.serde ds) stable call args AuditOutcome.denied
        (some id) _ s h
  after_decision-GatedWith (Decision.resolved false) id message_id d call args s before parsed e
        found h =
      close_call-Reaches env turn (GatedWith env.serde ds) stable call args AuditOutcome.denied
        (some id) _ s h
  after_decision-GatedWith (Decision.resolved true) id message_id d call args s before parsed e
        found h =
      invoke_tool-GatedWith message_id d call args (some id) s found h
        (λ _. (id, call.args_raw, before, parsed, e))

  request_approval-GatedWith :
      (message_id : Uuid) (d : ToolDescriptor V) (call : PendingToolCall) (args : V) (s : Runner V)
      → args ≡ parse_args env.serde call.args_raw
      → find_tool ds call.tool_id ≡ some d
      → GatedWith env.serde ds s.world
      → Reaches (GatedWith env.serde ds) (request_approval env turn message_id d call args) s
  unfolding request_approval approval_summary ◌>>=◌ asks perform
  request_approval-GatedWith message_id d call args s parsed found h = record {
    at =
        (after_decision-GatedWith _ (env.new_id s.world) message_id d call args _ s.world parsed
          refl found h).at;
  }

  known_tool-GatedWith :
      (message_id : Uuid) (d : ToolDescriptor V) (call : PendingToolCall) (args : V) (s : Runner V)
      → args ≡ parse_args env.serde call.args_raw
      → find_tool ds call.tool_id ≡ some d
      → GatedWith env.serde ds s.world
      → Reaches (GatedWith env.serde ds) (known_tool env turn message_id d call args) s
  unfolding known_tool
  known_tool-GatedWith message_id d call args s parsed found h =
      Reaches-if (GatedWith env.serde ds) d.requires_approval
        (request_approval env turn message_id d call args)
        (invoke_tool env turn message_id call args none) s
        (λ _. request_approval-GatedWith message_id d call args s parsed found h)
        (λ free.
          invoke_tool-GatedWith message_id d call args none s found h
            (λ gated. absurd (cc (free, gated))))

  -- Whatever the model asks for and whatever the collaborators answer, executing a tool call keeps
  -- the gate, if it held before and the tools given are those listed last: a tool is invoked only if
  -- it was listed to the model, and a tool that requires an approval only right after the user was
  -- shown that tool with the text of the arguments that it is invoked with (the first 200 characters
  -- of it), and approved that request.
  pub execute_tool_call-GatedWith :
      (message_id : Uuid) (call : PendingToolCall) (s : Runner V)
      → GatedWith env.serde ds s.world
      → GatedWith env.serde ds (execute_tool_call env turn message_id ds call s).1.world
  unfolding execute_tool_call
  execute_tool_call-GatedWith message_id call s h =
      elim (Option-cases (find_tool ds call.tool_id)) [
        | inl absent ↦
            rw (absent, execute_tool_call)
              (unknown_tool-Reaches env turn (GatedWith env.serde ds)
                (GatedWith-stable env.serde ds) call (parse_args env.serde call.args_raw) s h).at
        | inr (d, found) ↦
            rw (found, execute_tool_call)
              (known_tool-GatedWith message_id d call (parse_args env.serde call.args_raw) s refl
                found h).at
      ]
