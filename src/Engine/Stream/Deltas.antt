-- ===== src/Engine/Stream/Deltas.antt =====
-- What the surface is shown of an inference stream.
use mahi_ai.Prelude.{
  ◌≡◌, ◌≢◌, sym, ap, ◌∙◌, List, [], ◌∷◌, ◌++◌, append_assoc, append-nil, Text, arith,
}
use mahi_ai.Contracts.Types.{ComputeMode, mode_eq, mode_beq_iff}
use mahi_ai.Contracts.Errors.{ContractError}
use mahi_ai.Contracts.Result.{Result, ok, err}
use mahi_ai.Contracts.Inference.{InferenceChunk}
use mahi_ai.Engine.Env.{AgentEvent, Poll, Runner, World, emitted}
use mahi_ai.Engine.Stream.{
  Round, RoundOutcome, conclude_cases, consume_inference, observe, accumulate, delta_text,
}

segment-accumulate :
    (chunk : InferenceChunk) (round : Round)
    → (accumulate chunk round).segment_text ≡ round.segment_text ++ delta_text chunk.delta
unfolding accumulate
segment-accumulate chunk round = ground arith

module _ {V : Type 0} where
  -- The text that the surface has been shown, in the order of the events.
  abbrev pub shown : World V → Text
  shown [] = []
  shown (emitted (AgentEvent.text_delta t) ∷ w) = shown w ++ t
  shown (_ ∷ w) = shown w

  -- The mode that a surface knows which started with `start` and has followed every handoff, each
  -- of which leaves the mode that the surface had for another one.
  abbrev pub Tracks : ComputeMode → World V → ComputeMode → Type 0
  Tracks start [] m = m ≡ start
  Tracks start (emitted (AgentEvent.mode_handoff from to) ∷ w) m =
      (m ≡ to) × (from ≢ to) × Tracks start w from
  Tracks start (_ ∷ w) m = Tracks start w m

  shown-observe :
      (chunk : InferenceChunk) (s : Runner V)
      → shown (observe chunk s).world ≡ shown s.world ++ delta_text chunk.delta
  unfolding observe
  shown-observe chunk s = ground (arith, append-nil (shown s.world))

  observe-Tracks :
      (start : ComputeMode) (chunk : InferenceChunk) (s : Runner V)
      → Tracks start s.world s.mode
      → Tracks start (observe chunk s).world (observe chunk s).mode
  unfolding observe
  observe-Tracks start chunk s h = ground (arith, mode_beq_iff chunk.active_mode s.mode)

  -- What holds of the answer of a round that began with `segment` and the world `w`.
  abbrev pub ShowsSegment :
      Text → World V → Result ContractError (RoundOutcome × Text) × Runner V → Type 0
  ShowsSegment segment w (err e, s) = Unit
  ShowsSegment segment w (ok (outcome, final), s) =
      (added : Text) × (final ≡ segment ++ added) × (shown s.world ≡ shown w ++ added)

  ShowsSegment-observe :
      (chunk : InferenceChunk) (round : Round) (s : Runner V)
      (r : Result ContractError (RoundOutcome × Text) × Runner V)
      → ShowsSegment (accumulate chunk round).segment_text (observe chunk s).world r
      → ShowsSegment round.segment_text s.world r
  ShowsSegment-observe chunk round s (err e, t) h = tt
  ShowsSegment-observe chunk round s (ok (outcome, final), t) (added, seg, sh) = (
    delta_text chunk.delta ++ added,
    seg
        ∙ ap (λ t. t ++ added) (segment-accumulate chunk round)
        ∙ append_assoc round.segment_text (delta_text chunk.delta) added,
    sh
        ∙ ap (λ t. t ++ added) (shown-observe chunk s)
        ∙ append_assoc (shown s.world) (delta_text chunk.delta) added,
  )

  -- When a round of inference returns, the surface has been shown exactly the text that the round
  -- adds to its segment, in order.
  pub consume_inference-ShowsSegment :
      (polls : List (Poll InferenceChunk)) (round : Round) (s : Runner V)
      → ShowsSegment round.segment_text s.world (consume_inference polls round s)
  unfolding consume_inference
  consume_inference-ShowsSegment [] round s = ([], sym (append-nil _), sym (append-nil _))
  consume_inference-ShowsSegment (Poll.fired ∷ polls) round s =
      ([], sym (append-nil _), sym (append-nil _))
  consume_inference-ShowsSegment (Poll.item (err e) ∷ polls) round s = tt
  consume_inference-ShowsSegment (Poll.item (ok chunk) ∷ polls) round s =
      ShowsSegment-observe chunk round s _ (
        conclude_cases (ShowsSegment (accumulate chunk round).segment_text (observe chunk s).world)
          chunk.finish_reason (accumulate chunk round) (observe chunk s) _
          (consume_inference-ShowsSegment polls (accumulate chunk round) (observe chunk s))
          (λ reason. ([], sym (append-nil _), sym (append-nil _))))

  -- Whatever a stream yields, also when it fails midway, a surface that follows the handoffs knows
  -- the mode of the runner after it, if it did before.
  pub consume_inference-Tracks :
      (start : ComputeMode) (polls : List (Poll InferenceChunk)) (round : Round) (s : Runner V)
      → Tracks start s.world s.mode
      → Tracks start
          (consume_inference polls round s).1.world
          (consume_inference polls round s).1.mode
  unfolding consume_inference
  consume_inference-Tracks start [] round s h = h
  consume_inference-Tracks start (Poll.fired ∷ polls) round s h = h
  consume_inference-Tracks start (Poll.item (err e) ∷ polls) round s h = h
  consume_inference-Tracks start (Poll.item (ok chunk) ∷ polls) round s h =
      conclude_cases (λ r. Tracks start r.1.world r.1.mode) chunk.finish_reason
        (accumulate chunk round) (observe chunk s) _
        (consume_inference-Tracks start polls (accumulate chunk round) (observe chunk s)
          (observe-Tracks start chunk s h))
        (λ reason. observe-Tracks start chunk s h)
