-- ===== src/Engine/Stream.antt =====
-- `TurnRunner::consume_inference` of engine.rs: one inference stream into text, tool calls and a
-- thinking block.
pub mod Calls
pub mod Deltas
use mahi_ai.Prelude.{
  Bool, true, false, Option, none, some, List, [], ◌∷◌, ◌++◌, Text, is_empty, not, ◌&&◌, ◌==◌,
  text_eq, if◌then◌else◌,
}
use mahi_ai.Contracts.Types.{ComputeMode, mode_eq}
use mahi_ai.Contracts.Errors.{ContractError}
use mahi_ai.Contracts.Result.{Result, ok, err}
use mahi_ai.Contracts.Inference.{FinishReason, InferenceChunk, ToolCallDelta, ThinkingDelta}
use mahi_ai.Engine.Env.{AgentEvent, Poll, Runner, M, ◌>>=◌, ◌>>◌, pure, raise, emit, emitted}

pub record PendingToolCall : Type 0 where
  pub call_id : Text
  pub tool_id : Text
  pub args_raw : Text

pub data RoundOutcome : Type 0 where
  finished : FinishReason → RoundOutcome
  tool_calls : List PendingToolCall → Option (Text × Text) → RoundOutcome
  cancelled : RoundOutcome

-- The local variables of `consume_inference`, with the caller's `segment_text`.
pub record Round : Type 0 where
  pub segment_text : Text
  pub calls : List PendingToolCall
  pub thinking_text : Text
  pub thinking_signature : Option Text

abbrev pub new_round : Round
new_round = record { segment_text = []; calls = []; thinking_text = []; thinking_signature = none }

-- The branch `Some(existing)` of the match on `calls.iter_mut().find(...)`.
unfoldable pub extend_call : PendingToolCall → ToolCallDelta → PendingToolCall
extend_call existing tc = record {
  call_id = existing.call_id;
  tool_id =
      if is_empty existing.tool_id && not (is_empty tc.tool_id)
      then tc.tool_id
      else existing.tool_id;
  args_raw = existing.args_raw ++ tc.args_delta;
}

-- The first call of the delta's id is extended, and a delta of a new id starts a call.
unfoldable pub merge_call : List PendingToolCall → ToolCallDelta → List PendingToolCall
unfolding extend_call
merge_call [] tc =
    record { call_id = tc.call_id; tool_id = tc.tool_id; args_raw = tc.args_delta } ∷ []
merge_call (c ∷ calls) tc =
    let rest = merge_call calls tc in
    if c.call_id == tc.call_id then extend_call c tc ∷ calls else c ∷ rest

unfoldable pub merge_delta : Option ToolCallDelta → List PendingToolCall → List PendingToolCall
unfolding merge_call
merge_delta none calls = calls
merge_delta (some tc) calls = merge_call calls tc

unfoldable pub note_thinking : Option ThinkingDelta → Round → Round
note_thinking none round = round
note_thinking (some t) round = record round {
  thinking_text = round.thinking_text ++ t.text;
  thinking_signature = elim t.signature [ none ↦ round.thinking_signature | some sig ↦ some sig ];
}

-- A thinking block is carried only if it has a signature and some text.
unfoldable pub carried_thinking : Round → Option (Text × Text)
carried_thinking round = elim round.thinking_signature [
  | none ↦ none
  | some sig ↦ if is_empty round.thinking_text then none else some (round.thinking_text, sig)
]

unfoldable pub round_outcome : FinishReason → Round → RoundOutcome
unfolding carried_thinking
round_outcome FinishReason.tool_call round =
    if is_empty round.calls
    then finished FinishReason.stop
    else tool_calls round.calls (carried_thinking round)
round_outcome FinishReason.cancelled round = cancelled
round_outcome FinishReason.stop round = finished FinishReason.stop
round_outcome FinishReason.max_tokens round = finished FinishReason.max_tokens
round_outcome FinishReason.error round = finished FinishReason.error

abbrev pub delta_text : Option Text → Text
delta_text none = []
delta_text (some delta) = delta

unfoldable pub accumulate : InferenceChunk → Round → Round
unfolding merge_delta note_thinking
accumulate chunk round =
    let noted = note_thinking chunk.thinking_delta round in
    record noted {
      segment_text = noted.segment_text ++ delta_text chunk.delta;
      calls = merge_delta chunk.tool_call_delta noted.calls;
    }

module _ {V : Type 0} where
  unfoldable pub handoff : ComputeMode → Runner V → Runner V
  handoff active s = if active == s.mode then s else record {
    world = emitted (AgentEvent.mode_handoff s.mode active) ∷ s.world;
    mode = active;
  }

  unfoldable pub show_delta : Option Text → Runner V → Runner V
  show_delta none s = s
  show_delta (some delta) s =
      if is_empty delta
      then s
      else record s { world = emitted (AgentEvent.text_delta delta) ∷ s.world }

  -- What a chunk does to the runner and to the variables of the round, before its finish reason.
  unfoldable pub observe : InferenceChunk → Runner V → Runner V
  unfolding handoff show_delta
  observe chunk s = show_delta chunk.delta (handoff chunk.active_mode s)

  -- After a chunk: the loop goes on with `rest`, or returns if the chunk has a finish reason.
  unfoldable pub conclude :
      Option FinishReason
      → Round
      → Runner V
      → Result ContractError (RoundOutcome × Text) × Runner V
      → Result ContractError (RoundOutcome × Text) × Runner V
  unfolding round_outcome
  conclude none round s rest = rest
  conclude (some reason) round s rest = (ok (round_outcome reason round, round.segment_text), s)

  unfoldable pub consume_inference : List (Poll InferenceChunk) → Round → M V (RoundOutcome × Text)
  unfolding observe accumulate conclude
  consume_inference [] round s = (ok (finished FinishReason.stop, round.segment_text), s)
  consume_inference (Poll.fired ∷ polls) round s = (ok (cancelled, round.segment_text), s)
  consume_inference (Poll.item (err e) ∷ polls) round s = (err e, s)
  consume_inference (Poll.item (ok chunk) ∷ polls) round s =
      let rest = consume_inference polls (accumulate chunk round) (observe chunk s) in
      conclude chunk.finish_reason (accumulate chunk round) (observe chunk s) rest

  pub conclude_cases {ℓ} :
      (P : Result ContractError (RoundOutcome × Text) × Runner V → Type ℓ) (o : Option FinishReason)
      (round : Round) (s : Runner V) (rest : Result ContractError (RoundOutcome × Text) × Runner V)
      → P rest
      → ((reason : FinishReason) → P (ok (round_outcome reason round, round.segment_text), s))
      → P (conclude o round s rest)
  unfolding conclude
  conclude_cases P none round s rest on stop = on
  conclude_cases P (some reason) round s rest on stop = stop reason
