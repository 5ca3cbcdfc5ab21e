-- ===== src/Hosted/Anthropic/Laws.antt =====
-- What `AnthropicSseParser` of crates/mahi-compute/src/hosted/anthropic.rs promises to the stream.
use mahi_ai.Prelude.{
  ◌≤◌, ◌+◌, ◌≡◌, refl, Bool, false, inl, inr, none, some, List, [], ◌∷◌, Text, All, Bool-cases,
  if_both, text, arith,
}
use mahi_ai.Contracts.Types.{ComputeMode}
use mahi_ai.Contracts.Inference.{InferenceChunk, InferenceStream}
use mahi_ai.Contracts.Result.{Result, ok, err}
use mahi_ai.Json.{Json, SerdeJson, index, as_str}
use mahi_ai.Hosted.Sse.{Event, chunks_from_events}
use mahi_ai.Hosted.Sse.Stream.{
  Stamped, finishes, flag, IsStamping, IsFinishing, finishes-chunks_from_events,
  chunks_from_events-Stamped,
}
use mahi_ai.Hosted.Anthropic

-- Chunks of a mode without a finish reason.
abbrev IsOpen : ComputeMode → InferenceStream → Type 0
IsOpen m cs = All (Stamped m) cs × (finishes cs ≡ 0)

unless_empty-IsOpen :
    (t : Text) (c : InferenceChunk) (m : ComputeMode)
    → c.active_mode ≡ m
    → c.finish_reason ≡ none
    → IsOpen m (Anthropic.unless_empty t c)
unless_empty-IsOpen [] c m h k = (tt, refl)
unless_empty-IsOpen (x ∷ t) c m h k = ((h, tt), rw k refl)

call_chunk-IsOpen :
    (identity : Anthropic.ToolBlockIdentity) (args : Text) (m : ComputeMode)
    → IsOpen m (ok (Anthropic.call_chunk identity args m) ∷ [])
unfolding Anthropic.call_chunk
call_chunk-IsOpen identity args m = ((refl, tt), refl)

delta_of-IsOpen :
    (kind : Anthropic.DeltaType) (value delta : Json) (p : Anthropic.AnthropicSseParser)
    → IsOpen p.mode (Anthropic.delta_of kind value delta p)
unfolding Anthropic.delta_of
delta_of-IsOpen Anthropic.text_delta value delta p = unless_empty-IsOpen _ _ p.mode refl refl
delta_of-IsOpen Anthropic.input_json_delta value delta p = call_chunk-IsOpen _ _ p.mode
delta_of-IsOpen Anthropic.thinking_delta value delta p = unless_empty-IsOpen _ _ p.mode refl refl
delta_of-IsOpen Anthropic.signature_delta value delta p = unless_empty-IsOpen _ _ p.mode refl refl
delta_of-IsOpen Anthropic.other_delta value delta p = (tt, refl)

delta_chunks-IsOpen :
    (value : Json) (p : Anthropic.AnthropicSseParser)
    → IsOpen p.mode (Anthropic.delta_chunks value p)
unfolding Anthropic.delta_chunks
delta_chunks-IsOpen value p = delta_of-IsOpen _ value _ p

abbrev Keeps : Anthropic.AnthropicSseParser → Anthropic.AnthropicSseParser → Type 0
Keeps p q = (q.mode ≡ p.mode) × (q.done ≡ p.done)

start_block-kept :
    (value : Json) (p : Anthropic.AnthropicSseParser)
    → ((Anthropic.start_block value p).mode ≡ p.mode)
      × ((Anthropic.start_block value p).done ≡ p.done)
unfolding Anthropic.start_block
start_block-kept value p = if_both (Keeps p) _ _ _ (refl, refl) (refl, refl)

note_stop_reason-kept :
    (value : Json) (p : Anthropic.AnthropicSseParser)
    → ((Anthropic.note_stop_reason value p).mode ≡ p.mode)
      × ((Anthropic.note_stop_reason value p).done ≡ p.done)
unfolding Anthropic.note_stop_reason
note_stop_reason-kept value p =
    elim (as_str (index (index value (text "delta")) (text "stop_reason")))
      as (λ o. Keeps p (elim o [
        | none ↦ p
        | some reason ↦ record (p) { stop_reason = some (Anthropic.map_stop_reason reason) }
      ])) [ none ↦ (refl, refl) | some reason ↦ (refl, refl) ]

dispatch-stamps :
    (event : Anthropic.EventType) (value : Json) (payload : Text) (p : Anthropic.AnthropicSseParser)
    → ((Anthropic.dispatch event value payload p).1.mode ≡ p.mode)
      × All (Stamped p.mode) (Anthropic.dispatch event value payload p).0
unfolding Anthropic.dispatch
dispatch-stamps Anthropic.content_block_start value payload p = ((start_block-kept value p).0, tt)
dispatch-stamps Anthropic.content_block_delta value payload p =
    (refl, (delta_chunks-IsOpen value p).0)
dispatch-stamps Anthropic.message_delta value payload p = ((note_stop_reason-kept value p).0, tt)
dispatch-stamps Anthropic.message_stop value payload p = (refl, (refl, tt))
dispatch-stamps Anthropic.error value payload p = (refl, (tt, tt))
dispatch-stamps Anthropic.other value payload p = (refl, tt)

dispatch-finishes :
    (event : Anthropic.EventType) (value : Json) (payload : Text) (p : Anthropic.AnthropicSseParser)
    → p.done ≡ false
    → finishes (Anthropic.dispatch event value payload p).0
      ≤ flag (Anthropic.dispatch event value payload p).1.done
unfolding Anthropic.dispatch
dispatch-finishes Anthropic.content_block_start value payload p h = omega arith
dispatch-finishes Anthropic.content_block_delta value payload p h =
    omega (arith, (delta_chunks-IsOpen value p).1)
dispatch-finishes Anthropic.message_delta value payload p h = omega arith
dispatch-finishes Anthropic.message_stop value payload p h = omega arith
dispatch-finishes Anthropic.error value payload p h = omega arith
dispatch-finishes Anthropic.other value payload p h = omega arith

-- What `handle` does with a parsed payload.
abbrev follow :
    (event payload : Text)
    → Anthropic.AnthropicSseParser
    → Result Text Json
    → InferenceStream × Anthropic.AnthropicSseParser
follow event payload p (err message) = (err (Anthropic.malformed message) ∷ [], p)
follow event payload p (ok value) = Anthropic.dispatch (Anthropic.event_named event) value payload p

parsed-stamps :
    (event payload : Text) (p : Anthropic.AnthropicSseParser) (r : Result Text Json)
    → ((follow event payload p r).1.mode ≡ p.mode)
      × All (Stamped p.mode) (follow event payload p r).0
parsed-stamps event payload p (ok value) =
    dispatch-stamps (Anthropic.event_named event) value payload p
parsed-stamps event payload p (err message) = (refl, (tt, tt))

parsed-finishes :
    (event payload : Text) (p : Anthropic.AnthropicSseParser) (r : Result Text Json)
    → p.done ≡ false
    → finishes (follow event payload p r).0 + 0 ≤ flag (follow event payload p r).1.done
parsed-finishes event payload p (ok value) h =
    omega (arith, dispatch-finishes (Anthropic.event_named event) value payload p h)
parsed-finishes event payload p (err message) h = omega arith

module _ (serde : SerdeJson) where
  -- Every event of the stream leaves the mode of the parser and is stamped with it.
  handle-IsStamping :
      (event payload : Text) (p : Anthropic.AnthropicSseParser)
      → ((Anthropic.handle serde event payload p).1.mode ≡ p.mode)
        × All (Stamped p.mode) (Anthropic.handle serde event payload p).0
  unfolding Anthropic.handle
  handle-IsStamping event payload p = elim (Bool-cases p.done) [
    | inl over ↦ rw over (refl, tt)
    | inr running ↦
        rw running (parsed-stamps event payload p (Anthropic.parse_payload serde payload))
  ]

  handle-finishes :
      (event payload : Text) (p : Anthropic.AnthropicSseParser)
      → finishes (Anthropic.handle serde event payload p).0 + flag p.done
        ≤ flag (Anthropic.handle serde event payload p).1.done
  unfolding Anthropic.handle
  handle-finishes event payload p = elim (Bool-cases p.done) [
    | inl over ↦ rw over (omega arith)
    | inr running ↦
        rw running (parsed-finishes event payload p (Anthropic.parse_payload serde payload) running)
  ]

  pub anthropic_parser-IsStamping : IsStamping (Anthropic.anthropic_parser serde)
  anthropic_parser-IsStamping = record {
    keeps_mode = λ event payload p. (handle-IsStamping event payload p).0;
    stamps = λ event payload p. (handle-IsStamping event payload p).1;
  }

  pub anthropic_parser-IsFinishing : IsFinishing (Anthropic.anthropic_parser serde)
  anthropic_parser-IsFinishing = handle-finishes

  -- Whatever events the Messages API sends, with malformed ones, transport errors and a cancellation, the
  -- stream has at most one chunk with a finish reason, and every chunk carries the mode of the parser.
  pub anthropic_stream :
      (events : List (Result Text Event)) (mode : ComputeMode) (is_cancelled : Bool)
      → (finishes (
            chunks_from_events
              (Anthropic.anthropic_parser serde)
              events
              (Anthropic.new_parser mode)
              is_cancelled)
          ≤ 1)
        × All (Stamped mode) (
            chunks_from_events
              (Anthropic.anthropic_parser serde)
              events
              (Anthropic.new_parser mode)
              is_cancelled)
  anthropic_stream events mode is_cancelled = (
    finishes-chunks_from_events (Anthropic.anthropic_parser serde) anthropic_parser-IsFinishing
        events (Anthropic.new_parser mode) is_cancelled refl,
    chunks_from_events-Stamped (Anthropic.anthropic_parser serde) anthropic_parser-IsStamping events
        (Anthropic.new_parser mode) is_cancelled,
  )
