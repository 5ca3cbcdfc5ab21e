-- ===== src/Hosted/Sse.antt =====
-- crates/mahi-compute/src/hosted/sse.rs: a parser of events and the stream that it is lifted to. The
-- events are those that arrive before the stream ends or is cancelled.
pub mod Stream
use mahi_ai.Json.{Json}
use mahi_ai.Prelude.{ℕ}
use mahi_ai.Prelude.{
  Bool, true, false, not, ◌&&◌, ◌||◌, List, [], ◌∷◌, ◌++◌, Text, text, if◌then◌else◌,
}
use mahi_ai.Contracts.Types.{ComputeMode}
use mahi_ai.Contracts.Errors.{ContractError, InferenceError, inference}
use mahi_ai.Contracts.Inference.{InferenceChunk, InferenceStream, FinishReason, finish_chunk}
use mahi_ai.Contracts.Result.{Result, ok, err}

pub record SseChunkParser (S : Type 0) : Type 0 where
  pub mode : S → ComputeMode
  pub done : S → Bool
  pub handle_event : (event_type payload : Text) → S → InferenceStream × S

-- An event with its type and payload, or the message of a transport error.
pub record Event : Type 0 where
  pub event : Text
  pub payload : Text

abbrev pub stream_error : Text → ContractError
stream_error message =
    inference (InferenceError.provider (text "SSE stream error: " ++ message) true)

module _ {S : Type 0} (parser : SseChunkParser S) where
  unfoldable pub handle_item : Result Text Event → S → InferenceStream × S
  handle_item (ok e) s = parser.handle_event e.event e.payload s
  handle_item (err message) s = (err (stream_error message) ∷ [], s)

  -- What the scan yields, the parser at its end, and whether it finished while it ran.
  unfoldable pub scan_events :
      List (Result Text Event) → S → (finished : Bool) → InferenceStream × S × Bool
  scan_events [] s finished = ([], s, finished)
  scan_events (item ∷ events) s finished =
      let out = handle_item item s in
      let rest = scan_events events out.1 (finished || parser.done out.1) in
      if parser.done s then ([], s, finished) else (out.0 ++ rest.0, rest.1, rest.2)

  unfoldable pub chunks_from_events :
      List (Result Text Event) → S → (is_cancelled : Bool) → InferenceStream
  chunks_from_events events s is_cancelled =
      let body = scan_events events s false in
      body.0
      ++ (if is_cancelled && not body.2
          then ok (finish_chunk FinishReason.cancelled (parser.mode s)) ∷ []
          else [])

-- What a provider posts, and what comes back: the status, as it is printed, the text of the body where
-- the status is an error, and the events of the body where it is not, until the end or a cancellation.
pub record Post : Type 0 where
  pub url : Text
  pub headers : List (Text × Text)
  pub body : Json

pub record Response : Type 0 where
  pub status : ℕ
  pub shown : Text
  pub detail : Text
  pub events : List (Result Text Event)
  pub is_cancelled : Bool
