-- ===== src/Hosted/Sse/Stream.antt =====
-- The stream of crates/mahi-compute/src/hosted/sse.rs, for every parser that keeps its mode and finishes
-- at most once.
use mahi_ai.Prelude.{
  ℕ, ◌+◌, ◌≤◌, ◌≡◌, refl, inl, inr, Bool, true, false, not, ◌&&◌, ◌||◌, Option, none, some, List,
  [], ◌∷◌, ◌++◌, Text, All, All-append, arith, Bool-cases, if◌then◌else◌,
}
use mathlib.Core.Path.{subst}
use mahi_ai.Contracts.Types.{ComputeMode}
use mahi_ai.Contracts.Errors.{ContractError}
use mahi_ai.Contracts.Inference.{InferenceChunk, InferenceStream, FinishReason, finish_chunk}
use mahi_ai.Contracts.Result.{Result, ok, err}
use mahi_ai.Hosted.Sse.{SseChunkParser, Event, handle_item, scan_events, chunks_from_events}

-- A chunk is stamped with this mode; an error has none.
abbrev pub Stamped : ComputeMode → Result ContractError InferenceChunk → Type 0
Stamped m (ok c) = c.active_mode ≡ m
Stamped m (err e) = Unit

abbrev pub finishes_once : Option FinishReason → ℕ
finishes_once none = 0
finishes_once (some reason) = 1

-- How many chunks of a stream carry a finish reason.
abbrev pub finishes : InferenceStream → ℕ
finishes [] = 0
finishes (ok c ∷ cs) = finishes_once c.finish_reason + finishes cs
finishes (err e ∷ cs) = finishes cs

abbrev pub flag : Bool → ℕ
flag true = 1
flag false = 0

-- What a parser promises to the stream.
pub record IsStamping {S : Type 0} (parser : SseChunkParser S) : Type 0 where
  pub keeps_mode :
      (event_type payload : Text) (s : S)
      → parser.mode (parser.handle_event event_type payload s).1 ≡ parser.mode s
  pub stamps :
      (event_type payload : Text) (s : S)
      → All (Stamped (parser.mode s)) (parser.handle_event event_type payload s).0

-- A parser gives a finish reason only when it becomes done.
abbrev pub IsFinishing : {S : Type 0} → SseChunkParser S → Type 0
IsFinishing {S} parser =
    (event_type payload : Text) (s : S)
    → finishes (parser.handle_event event_type payload s).0 + flag (parser.done s)
      ≤ flag (parser.done (parser.handle_event event_type payload s).1)

pub finishes-append : (xs ys : InferenceStream) → finishes (xs ++ ys) ≡ finishes xs + finishes ys
finishes-append [] ys = omega arith
finishes-append (ok c ∷ xs) ys = omega (arith, finishes-append xs ys)
finishes-append (err e ∷ xs) ys = finishes-append xs ys

module _ {S : Type 0} (parser : SseChunkParser S) where
  pub handle_item-stamps :
      IsStamping parser
      → (item : Result Text Event) (s : S)
      → (parser.mode (handle_item parser item s).1 ≡ parser.mode s)
        × All (Stamped (parser.mode s)) (handle_item parser item s).0
  unfolding handle_item
  handle_item-stamps law (ok e) s =
      (law.keeps_mode e.event e.payload s, law.stamps e.event e.payload s)
  handle_item-stamps law (err message) s = (refl, (tt, tt))

  scan_events-stamps :
      IsStamping parser
      → (events : List (Result Text Event)) (s : S) (finished : Bool)
      → All (Stamped (parser.mode s)) (scan_events parser events s finished).0
  unfolding scan_events
  scan_events-stamps law [] s finished = tt
  scan_events-stamps law (item ∷ events) s finished =
      let out = handle_item parser item s in
      let (kept, stamped) = handle_item-stamps law item s in
      let rest = scan_events-stamps law events out.1 (finished || parser.done out.1) in
      elim (Bool-cases (parser.done s)) [
        | inl over ↦ rw over tt
        | inr running ↦ rw running (
            All-append (Stamped (parser.mode s)) out.0
              (scan_events parser events out.1 (finished || parser.done out.1)).0 stamped
              (subst
                (λ m.
                  All (Stamped m)
                    (scan_events parser events out.1 (finished || parser.done out.1)).0)
                kept rest))
      ]

  -- Every chunk of the stream, the terminal one of a cancelled stream included, carries the mode that the
  -- parser starts with, for a parser that keeps its mode and stamps with it.
  pub chunks_from_events-Stamped :
      IsStamping parser
      → (events : List (Result Text Event)) (s : S) (is_cancelled : Bool)
      → All (Stamped (parser.mode s)) (chunks_from_events parser events s is_cancelled)
  unfolding chunks_from_events
  chunks_from_events-Stamped law events s is_cancelled =
      let body = scan_events parser events s false in
      All-append (Stamped (parser.mode s)) body.0 _ (scan_events-stamps law events s false)
        (elim (Bool-cases (is_cancelled && not body.2)) [
          | inl cut ↦ rw cut (refl, tt)
          | inr whole ↦ rw whole tt
        ])

  at_most_once :
      (cs : InferenceStream) (finished is_cancelled : Bool) (m : ComputeMode)
      → finishes cs ≤ flag finished
      → finishes (
          cs
          ++ (if is_cancelled && not finished
              then ok (finish_chunk FinishReason.cancelled m) ∷ []
              else []))
        ≤ 1
  at_most_once cs true true m h = omega (arith, h, finishes-append cs [])
  at_most_once cs true false m h = omega (arith, h, finishes-append cs [])
  at_most_once cs false true m h =
      omega (arith, h, finishes-append cs (ok (finish_chunk FinishReason.cancelled m) ∷ []))
  at_most_once cs false false m h = omega (arith, h, finishes-append cs [])

  handle_item-finishes :
      IsFinishing parser
      → (item : Result Text Event) (s : S)
      → finishes (handle_item parser item s).0 + flag (parser.done s)
        ≤ flag (parser.done (handle_item parser item s).1)
  unfolding handle_item
  handle_item-finishes law (ok e) s = law e.event e.payload s
  handle_item-finishes law (err message) s = omega arith

  scan_events-finishes :
      IsFinishing parser
      → (events : List (Result Text Event)) (s : S)
      → finishes (scan_events parser events s (parser.done s)).0 + flag (parser.done s)
        ≤ flag (scan_events parser events s (parser.done s)).2
  unfolding scan_events
  scan_events-finishes law [] s = omega arith
  scan_events-finishes law (item ∷ events) s =
      let out = handle_item parser item s in
      let now = handle_item-finishes law item s in
      let later = scan_events-finishes law events out.1 in
      elim (Bool-cases (parser.done s)) [
        | inl over ↦ rw over (omega arith)
        | inr running ↦ rw running (
            omega (
              arith,
              now,
              later,
              finishes-append out.0 (scan_events parser events out.1 (parser.done out.1)).0,
            ))
      ]

  -- The stream of a parser that gives a finish reason only when it becomes done, and is not done at the
  -- start, has at most one chunk with a finish reason, cancelled or not.
  pub finishes-chunks_from_events :
      IsFinishing parser
      → (events : List (Result Text Event)) (s : S) (is_cancelled : Bool) → parser.done s ≡ false
      → finishes (chunks_from_events parser events s is_cancelled) ≤ 1
  unfolding chunks_from_events
  finishes-chunks_from_events law events s is_cancelled fresh =
      let scanned = scan_events-finishes law events s in
      let body = scan_events parser events s false in
      let counted : finishes body.0 + 0 ≤ flag body.2 =
        subst
          (λ d.
            finishes (scan_events parser events s d).0 + flag d
            ≤ flag (scan_events parser events s d).2)
          fresh scanned in
      at_most_once body.0 body.2 is_cancelled (parser.mode s) (omega (arith, counted))
