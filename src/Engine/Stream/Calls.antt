-- ===== src/Engine/Stream/Calls.antt =====
-- How the deltas of tool calls, which arrive interleaved, are put together.
use mahi_ai.Prelude.{
  ◌≡◌, ◌≢◌, refl, sym, ap, ◌∙◌, Bool-cases, inl, inr, Option, none, some, List, [], ◌∷◌, ◌++◌,
  append_assoc, append-nil, Text, text_eq, text_beq_iff, arith, All, is_empty, ◌==◌, if◌then◌else◌,
}
use mathlib.Core.Path.{subst}
use mahi_ai.Contracts.Types.{mode_eq}
use mahi_ai.Contracts.Errors.{ContractError}
use mahi_ai.Contracts.Result.{Result, ok, err}
use mahi_ai.Contracts.Inference.{FinishReason, InferenceChunk, ToolCallDelta}
use mahi_ai.Engine.Env.{Poll, Runner}
use mahi_ai.Engine.Stream.{
  PendingToolCall, Round, RoundOutcome, new_round, merge_call, merge_delta, accumulate,
  consume_inference, conclude, observe, tool_calls,
}

abbrev pub prefix_delta : Option ToolCallDelta → List ToolCallDelta → List ToolCallDelta
prefix_delta none ds = ds
prefix_delta (some tc) ds = tc ∷ ds

abbrev pub unless_finished : Option FinishReason → List ToolCallDelta → List ToolCallDelta
unless_finished none ds = ds
unless_finished (some reason) ds = []

-- The deltas of the chunks up to the first finish reason or the end.
abbrev pub deltas : List (Poll InferenceChunk) → List ToolCallDelta
deltas [] = []
deltas (Poll.fired ∷ polls) = []
deltas (Poll.item (err e) ∷ polls) = []
deltas (Poll.item (ok chunk) ∷ polls) =
    prefix_delta chunk.tool_call_delta (unless_finished chunk.finish_reason (deltas polls))

-- The argument text that the deltas hold for a call, in their order.
abbrev pub args_sent : Text → List ToolCallDelta → Text
args_sent id [] = []
args_sent id (tc ∷ ds) = (if tc.call_id == id then tc.args_delta else []) ++ args_sent id ds

abbrev pub args_of : Text → List PendingToolCall → Text
args_of id [] = []
args_of id (c ∷ calls) = if c.call_id == id then c.args_raw else args_of id calls

-- No two calls have one id.
abbrev pub Distinct : List PendingToolCall → Type 0
Distinct [] = Unit
Distinct (c ∷ calls) = All (λ d. d.call_id ≢ c.call_id) calls × Distinct calls

merge_all : List PendingToolCall → List ToolCallDelta → List PendingToolCall
merge_all calls [] = calls
merge_all calls (tc ∷ ds) = merge_all (merge_call calls tc) ds

args_of-merge_call :
    (id : Text) (calls : List PendingToolCall) (tc : ToolCallDelta)
    → args_of id (merge_call calls tc)
      ≡ args_of id calls ++ (if tc.call_id == id then tc.args_delta else [])
unfolding merge_call
args_of-merge_call id [] tc = refl
args_of-merge_call id (c ∷ calls) tc = ground (
  arith,
  text_beq_iff c.call_id tc.call_id,
  text_beq_iff c.call_id id,
  text_beq_iff tc.call_id id,
  append-nil c.args_raw,
  append-nil (args_of id calls),
  args_of-merge_call id calls tc,
)

args_of-merge_all :
    (id : Text) (calls : List PendingToolCall) (ds : List ToolCallDelta)
    → args_of id (merge_all calls ds) ≡ args_of id calls ++ args_sent id ds
unfolding merge_all
args_of-merge_all id calls [] = sym (append-nil _)
args_of-merge_all id calls (tc ∷ ds) =
    args_of-merge_all id (merge_call calls tc) ds
    ∙ ap (λ t. t ++ args_sent id ds) (args_of-merge_call id calls tc)
    ∙ append_assoc (args_of id calls) _ (args_sent id ds)

merge_call-All_ne :
    (id : Text) (calls : List PendingToolCall) (tc : ToolCallDelta)
    → tc.call_id ≢ id
    → All (λ d. d.call_id ≢ id) calls
    → All (λ d. d.call_id ≢ id) (merge_call calls tc)
unfolding merge_call
merge_call-All_ne id [] tc h k = (h, tt)
merge_call-All_ne id (c ∷ calls) tc h k = ground (arith, merge_call-All_ne id calls tc h k.1)

merge_call-Distinct :
    (calls : List PendingToolCall) (tc : ToolCallDelta)
    → Distinct calls
    → Distinct (merge_call calls tc)
unfolding merge_call
merge_call-Distinct [] tc h = (tt, tt)
merge_call-Distinct (c ∷ calls) tc h = elim (Bool-cases (c.call_id == tc.call_id)) [
  | inl same ↦ rw same h
  | inr new ↦ rw new (
    merge_call-All_ne c.call_id calls tc (λ e. ground (arith, text_beq_iff c.call_id tc.call_id))
        h.0,
    merge_call-Distinct calls tc h.1,
  )
]

merge_all-Distinct :
    (calls : List PendingToolCall) (ds : List ToolCallDelta)
    → Distinct calls
    → Distinct (merge_all calls ds)
unfolding merge_all
merge_all-Distinct calls [] h = h
merge_all-Distinct calls (tc ∷ ds) h =
    merge_all-Distinct (merge_call calls tc) ds (merge_call-Distinct calls tc h)

calls-accumulate :
    (chunk : InferenceChunk) (round : Round)
    → (accumulate chunk round).calls ≡ merge_delta chunk.tool_call_delta round.calls
unfolding accumulate
calls-accumulate chunk round = ground arith

abbrev Answer : Type 0
Answer = Result ContractError (RoundOutcome × Text)

module _ {V : Type 0} where
  -- The tool calls of an answer are what the deltas make of the calls so far.
  abbrev FromDeltas : List PendingToolCall → List ToolCallDelta → Answer × Runner V → Type 0
  FromDeltas calls ds (err e, s) = Unit
  FromDeltas calls ds (ok (RoundOutcome.finished reason, segment), s) = Unit
  FromDeltas calls ds (ok (RoundOutcome.cancelled, segment), s) = Unit
  FromDeltas calls ds (ok (tool_calls made thinking, segment), s) =
      (made ≡ merge_all calls ds) × (made ≢ [])

  FromDeltas-prefix_delta :
      (tc : Option ToolCallDelta) (calls : List PendingToolCall) (ds : List ToolCallDelta)
      (r : Answer × Runner V)
      → FromDeltas (merge_delta tc calls) ds r
      → FromDeltas calls (prefix_delta tc ds) r
  unfolding merge_delta merge_all
  FromDeltas-prefix_delta none calls ds r h = h
  FromDeltas-prefix_delta (some tc) calls ds (err e, s) h = tt
  FromDeltas-prefix_delta (some tc) calls ds (ok (RoundOutcome.finished reason, segment), s) h = tt
  FromDeltas-prefix_delta (some tc) calls ds (ok (RoundOutcome.cancelled, segment), s) h = tt
  FromDeltas-prefix_delta (some tc) calls ds (ok (tool_calls made thinking, segment), s) h = h

  FromDeltas-conclude :
      (o : Option FinishReason) (round : Round) (s : Runner V) (ds : List ToolCallDelta)
      (rest : Answer × Runner V)
      → FromDeltas round.calls ds rest
      → FromDeltas round.calls (unless_finished o ds) (conclude o round s rest)
  unfolding conclude merge_all
  FromDeltas-conclude none round s ds rest h = h
  FromDeltas-conclude (some FinishReason.tool_call) round s ds rest h =
      elim (Bool-cases (is_empty round.calls)) [
        | inl e ↦ rw e tt
        | inr e ↦ rw e (refl, λ k. ground arith)
      ]
  FromDeltas-conclude (some FinishReason.cancelled) round s ds rest h = tt
  FromDeltas-conclude (some FinishReason.stop) round s ds rest h = tt
  FromDeltas-conclude (some FinishReason.max_tokens) round s ds rest h = tt
  FromDeltas-conclude (some FinishReason.error) round s ds rest h = tt

  consume_inference-FromDeltas :
      (polls : List (Poll InferenceChunk)) (round : Round) (s : Runner V)
      → FromDeltas round.calls (deltas polls) (consume_inference polls round s)
  unfolding consume_inference
  consume_inference-FromDeltas [] round s = tt
  consume_inference-FromDeltas (Poll.fired ∷ polls) round s = tt
  consume_inference-FromDeltas (Poll.item (err e) ∷ polls) round s = tt
  consume_inference-FromDeltas (Poll.item (ok chunk) ∷ polls) round s =
      let rest : Answer × Runner V =
        consume_inference polls (accumulate chunk round) (observe chunk s) in
      FromDeltas-prefix_delta chunk.tool_call_delta round.calls
        (unless_finished chunk.finish_reason (deltas polls)) _
        (subst
          (λ calls.
            FromDeltas calls (unless_finished chunk.finish_reason (deltas polls))
              (conclude chunk.finish_reason (accumulate chunk round) (observe chunk s) rest))
          (calls-accumulate chunk round)
          (FromDeltas-conclude chunk.finish_reason (accumulate chunk round) (observe chunk s)
            (deltas polls) rest
            (consume_inference-FromDeltas polls (accumulate chunk round) (observe chunk s))))

  -- When a round ends in tool calls, there is at least one, no two of them have one id, and the
  -- arguments of each are all that the stream's deltas sent for its id, joined in their order.
  pub consume_inference-tool_calls :
      (polls : List (Poll InferenceChunk)) (s : Runner V) {calls : List PendingToolCall}
      {thinking : Option (Text × Text)} {segment : Text}
      → (consume_inference polls new_round s).0 ≡ ok (tool_calls calls thinking, segment)
      → (calls ≢ [])
        × Distinct calls
        × ((id : Text) → args_of id calls ≡ args_sent id (deltas polls))
  consume_inference-tool_calls polls s {calls} {thinking} {segment} h =
      let after : Runner V = (consume_inference polls new_round s).1 in
      let made : FromDeltas [] (deltas polls) (ok (tool_calls calls thinking, segment), after) =
        subst (λ a. FromDeltas [] (deltas polls) (a, after)) h
          (consume_inference-FromDeltas polls new_round s) in
      (
        made.1,
        subst Distinct (sym made.0) (merge_all-Distinct [] (deltas polls) tt),
        λ id. ap (args_of id) made.0 ∙ args_of-merge_all id [] (deltas polls),
      )
