-- ===== src/Hosted/Openai/Laws.antt =====
-- What `OpenAiSseParser` of crates/mahi-compute/src/hosted/openai.rs promises to the stream.
use mahi_ai.Prelude.{
  ℕ, ◌≤◌, ◌+◌, ◌≡◌, refl, ap, Bool, true, false, ◌||◌, inl, inr, Option, none, some, List, [], ◌∷◌,
  ◌++◌, Text, All, All-append, if_both, Bool-cases, arith, if◌then◌else◌, text, is_empty, text_eq,
  ◌==◌,
}
use mahi_ai.Prelude.Chars.{trim}
use mahi_ai.Contracts.Types.{ComputeMode}
use mahi_ai.Contracts.Inference.{InferenceStream}
use mahi_ai.Contracts.Result.{Result, ok, err}
use mahi_ai.Dict.{Dict}
use mahi_ai.Json.{Json, SerdeJson, index, as_str, as_array, unwrap_or, first_item}
use mahi_ai.Hosted.Sse.{Event, handle_item, scan_events, chunks_from_events}
use mahi_ai.Hosted.Sse.Stream.{
  Stamped, finishes, finishes-append, flag, IsStamping, chunks_from_events-Stamped,
}
use mahi_ai.Hosted.Anthropic.{malformed}
use mahi_ai.Hosted.Openai

-- A step keeps the mode, stamps with it, notes every finish reason that it has not noted, and is done only
-- where one was noted.
abbrev pub StepsWell : Openai.OpenAiSseParser → InferenceStream × Openai.OpenAiSseParser → Type 0
StepsWell p out =
    (out.1.mode ≡ p.mode)
    × All (Stamped p.mode) out.0
    × (flag out.1.finish_emitted ≤ finishes out.0 + flag p.finish_emitted)
    × (flag out.1.done ≤ flag p.done + flag out.1.finish_emitted)

finish_stream-StepsWell : (p : Openai.OpenAiSseParser) → StepsWell p (Openai.finish_stream p)
unfolding Openai.finish_stream
finish_stream-StepsWell p = elim (Bool-cases p.finish_emitted) [
  | inl noted ↦ rw noted (refl, tt, omega arith, omega arith)
  | inr unnoted ↦ rw unnoted (refl, (refl, tt), omega arith, omega arith)
]

-- Chunks of a mode without a finish reason.
abbrev IsOpen : ComputeMode → InferenceStream → Type 0
IsOpen m cs = All (Stamped m) cs × (finishes cs ≡ 0)

content_chunks-IsOpen : (o : Option Text) (m : ComputeMode) → IsOpen m (Openai.content_chunks o m)
unfolding Openai.content_chunks
content_chunks-IsOpen none m = (tt, refl)
content_chunks-IsOpen (some []) m = (tt, refl)
content_chunks-IsOpen (some (c ∷ t)) m = ((refl, tt), refl)

call_fragments-IsOpen :
    (m : ComputeMode) (calls : List Json) (known : Dict ℕ Openai.ToolCallIdentity)
    → IsOpen m (Openai.call_fragments m calls known).0
unfolding Openai.call_fragments Openai.fragment_chunk
call_fragments-IsOpen m [] known = (tt, refl)
call_fragments-IsOpen m (call ∷ calls) known =
    let rest = call_fragments-IsOpen m calls _ in ((refl, rest.0), omega (arith, rest.1))

finish_chunks-StepsWell :
    (o : Option Text) (p : Openai.OpenAiSseParser) → StepsWell p (Openai.finish_chunks o p)
unfolding Openai.finish_chunks
finish_chunks-StepsWell none p = (refl, tt, omega arith, omega arith)
finish_chunks-StepsWell (some reason) p = (refl, (refl, tt), omega arith, omega arith)

read_choice-StepsWell :
    (choice : Json) (p : Openai.OpenAiSseParser) → StepsWell p (Openai.read_choice choice p)
unfolding Openai.read_choice
read_choice-StepsWell choice p =
    let delta = index choice (text "delta") in
    let listed = unwrap_or [] (as_array (index delta (text "tool_calls"))) in
    let said = as_str (index delta (text "content")) in
    let reason = as_str (index choice (text "finish_reason")) in
    let calls = Openai.call_fragments p.mode listed p.tool_calls in
    let next : Openai.OpenAiSseParser = record (p) { tool_calls = calls.1 } in
    let fin = Openai.finish_chunks reason next in
    let (stamped_text, none_text) = content_chunks-IsOpen said p.mode in
    let (stamped_calls, none_calls) = call_fragments-IsOpen p.mode listed p.tool_calls in
    let (kept, stamped, noted, over) = finish_chunks-StepsWell reason next in
    (
      kept,
      All-append (Stamped p.mode) (Openai.content_chunks said p.mode ++ calls.0) fin.0
          (All-append (Stamped p.mode) (Openai.content_chunks said p.mode) calls.0 stamped_text
            stamped_calls)
          stamped,
      omega (
        arith,
        noted,
        none_text,
        none_calls,
        finishes-append (Openai.content_chunks said p.mode) calls.0,
        finishes-append (Openai.content_chunks said p.mode ++ calls.0) fin.0,
      ),
      over,
    )

-- What becomes of a line that was parsed.
parsed-StepsWell :
    (p : Openai.OpenAiSseParser) (r : Result Text Json)
    → StepsWell p (elim r [
      | err message ↦ (err (malformed message) ∷ [], p)
      | ok value ↦ Openai.read_choice (first_item (index value (text "choices"))) p
    ])
parsed-StepsWell p (ok value) = read_choice-StepsWell (first_item (index value (text "choices"))) p
parsed-StepsWell p (err message) = (refl, (tt, tt), omega arith, omega arith)

flag_le_one : (b : Bool) → flag b ≤ 1
flag_le_one true = omega arith
flag_le_one false = omega arith

abbrev scan_step :
    (d : Bool) (p : Openai.OpenAiSseParser) (cs : InferenceStream)
    → (Bool → InferenceStream × Openai.OpenAiSseParser × Bool)
    → InferenceStream × Openai.OpenAiSseParser × Bool
scan_step d p cs rest = if d then ([], p, d) else (cs ++ (rest d).0, (rest d).1, (rest d).2)

-- One step of the scan, which goes on with `rest` unless the parser is done.
unless_done :
    (d : Bool) (p : Openai.OpenAiSseParser) (cs : InferenceStream)
    (rest : Bool → InferenceStream × Openai.OpenAiSseParser × Bool) (n : ℕ)
    → (d ≡ false → flag (rest false).2 ≤ finishes (cs ++ (rest false).0) + n)
    → flag (scan_step d p cs rest).2 ≤ finishes (scan_step d p cs rest).0 + n + flag d
unless_done true p cs rest n h = omega arith
unless_done false p cs rest n h = omega (arith, h refl)

module _ (serde : SerdeJson) where
  read_line-StepsWell :
      (line : Text) (p : Openai.OpenAiSseParser) → StepsWell p (Openai.read_line serde line p)
  unfolding Openai.read_line
  read_line-StepsWell line p = parsed-StepsWell p (serde.from_str line)

  idle : (p : Openai.OpenAiSseParser) → StepsWell p ([], p)
  idle p = (refl, tt, omega arith, omega arith)

  handle_data-StepsWell :
      (payload : Text) (p : Openai.OpenAiSseParser)
      → StepsWell p (Openai.handle_data serde payload p)
  unfolding Openai.handle_data
  handle_data-StepsWell payload p =
      if_both (StepsWell p) p.done ([], p) _ (idle p)
        (if_both (StepsWell p) (is_empty (trim payload)) ([], p) _ (idle p)
          (if_both (StepsWell p) (trim payload == text "[DONE]") (Openai.finish_stream p)
            (Openai.read_line serde (trim payload) p) (finish_stream-StepsWell p)
            (read_line-StepsWell (trim payload) p)))

  pub openai_parser-IsStamping : IsStamping (Openai.openai_parser serde)
  openai_parser-IsStamping = record {
    keeps_mode = λ event payload p. (handle_data-StepsWell payload p).0;
    stamps = λ event payload p. (handle_data-StepsWell payload p).1;
  }

  handle_item-noted :
      (item : Result Text Event) (p : Openai.OpenAiSseParser)
      → (flag (handle_item (Openai.openai_parser serde) item p).1.finish_emitted
          ≤ finishes (handle_item (Openai.openai_parser serde) item p).0 + flag p.finish_emitted)
        × (flag (handle_item (Openai.openai_parser serde) item p).1.done
            ≤ flag p.done + flag (handle_item (Openai.openai_parser serde) item p).1.finish_emitted)
  unfolding handle_item
  handle_item-noted (ok e) p =
      let (kept, stamped, noted, over) = handle_data-StepsWell e.payload p in (noted, over)
  handle_item-noted (err message) p = (omega arith, omega arith)

  scan_events-noted :
      (events : List (Result Text Event)) (p : Openai.OpenAiSseParser)
      → flag (scan_events (Openai.openai_parser serde) events p p.done).2
        ≤ finishes (scan_events (Openai.openai_parser serde) events p p.done).0
          + flag p.finish_emitted
          + flag p.done
  unfolding scan_events
  scan_events-noted [] p = omega arith
  scan_events-noted (item ∷ events) p =
      let out = handle_item (Openai.openai_parser serde) item p in
      let rest = scan_events (Openai.openai_parser serde) events out.1 out.1.done in
      let (noted, over) = handle_item-noted item p in
      let later = scan_events-noted events out.1 in
      unless_done p.done p out.0
        (λ d. scan_events (Openai.openai_parser serde) events out.1 (d || out.1.done))
        (flag p.finish_emitted)
        (λ running. omega (
          arith,
          noted,
          over,
          later,
          ap flag running,
          flag_le_one rest.2,
          finishes-append out.0 rest.0,
        ))

  -- A chat-completions stream that the parser has finished with, that is one that sent the end marker, has at
  -- least one chunk with a finish reason, and every chunk carries the mode of the parser.
  pub openai_stream :
      (events : List (Result Text Event)) (mode : ComputeMode) (is_cancelled : Bool)
      → (scan_events (Openai.openai_parser serde) events (Openai.new_parser mode) false).2 ≡ true
      → (1
          ≤ finishes (
              chunks_from_events
                (Openai.openai_parser serde)
                events
                (Openai.new_parser mode)
                is_cancelled))
        × All (Stamped mode) (
            chunks_from_events
              (Openai.openai_parser serde)
              events
              (Openai.new_parser mode)
              is_cancelled)
  unfolding chunks_from_events
  openai_stream events mode is_cancelled ended =
      let body = scan_events (Openai.openai_parser serde) events (Openai.new_parser mode) false in
      let whole : flag body.2 ≡ 1 = rw ended refl in
      (
        omega (
          arith,
          whole,
          scan_events-noted events (Openai.new_parser mode),
          finishes-append body.0 _,
        ),
        chunks_from_events-Stamped (Openai.openai_parser serde) openai_parser-IsStamping events
            (Openai.new_parser mode) is_cancelled,
      )
