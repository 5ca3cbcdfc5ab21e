-- ===== src/Engine/Turn/Safety.antt =====
-- What a whole turn guarantees: the approval gate, the step cap and the frame of lifecycle events.
use mahi_ai.Prelude.{ℕ, suc, ◌+◌, ◌≤◌, ◌≡◌, refl, List, [], ◌∷◌, Text, arith}
use mahi_ai.Contracts.Errors.{ContractError}
use mahi_ai.Contracts.Result.{Result, ok, err}
use mahi_ai.Contracts.Inference.{FinishReason}
use mahi_ai.Engine.Env.{AgentEvent, World, Env, Turn, Runner, emitted, requested}
use mahi_ai.Engine.Tool.Effects.{IsStable}
use mahi_ai.Engine.Tool.Steps.{execute_tool_call-Reaches}
use mahi_ai.Engine.Tool.Gate.{IsGated, GatedWith, GatedWith-stable, execute_tool_call-GatedWith}
use mahi_ai.Engine.Turn.{run, drive, started, report, max_tool_steps}
use mahi_ai.Engine.Turn.Invariant.{IsTurnInvariant, drive-Reaches}

module _ {V : Type 0} where
  -- The requests for inference made so far.
  abbrev pub requests : World V → ℕ
  requests [] = 0
  requests (requested _ ∷ w) = suc (requests w)
  requests (_ ∷ w) = requests w

  -- The events so far that open or close a turn, the latest first.
  abbrev pub lifecycle : World V → List (AgentEvent V)
  lifecycle [] = []
  lifecycle (emitted (AgentEvent.turn_started c m mode) ∷ w) =
      AgentEvent.turn_started c m mode ∷ lifecycle w
  lifecycle (emitted (AgentEvent.turn_finished reason) ∷ w) =
      AgentEvent.turn_finished reason ∷ lifecycle w
  lifecycle (_ ∷ w) = lifecycle w

  -- At most so many requests beyond a number.
  abbrev AtMost : ℕ → ℕ → World V → Type 0
  AtMost base k w = requests w ≤ base + k

  AtMost-stable : (base k : ℕ) → IsStable (AtMost base k)
  AtMost-stable base k = record {
    emits_delta = λ t w h. h;
    emits_handoff = λ from to w h. h;
    emits_tool = λ e w h. h;
    emits_approval = λ id t w h. h;
    emits_error = λ t w h. h;
    appends = λ m w h. h;
    audits = λ e w h. h;
    registers = λ id w h. h;
    awaits = λ id d w h. h;
    discards = λ id w h. h;
  }

  abbrev Framed : List (AgentEvent V) → World V → Type 0
  Framed events w = lifecycle w ≡ events

  Framed-stable : (events : List (AgentEvent V)) → IsStable (Framed events)
  Framed-stable events = record {
    emits_delta = λ t w h. h;
    emits_handoff = λ from to w h. h;
    emits_tool = λ e w h. h;
    emits_approval = λ id t w h. h;
    emits_error = λ t w h. h;
    appends = λ m w h. h;
    audits = λ e w h. h;
    registers = λ id w h. h;
    awaits = λ id d w h. h;
    discards = λ id w h. h;
  }

module _ {V : Type 0} (env : Env V) (turn : Turn) where
  gate_invariant : IsTurnInvariant env turn (λ _. IsGated env.serde) (λ _. GatedWith env.serde)
  gate_invariant = record {
    grow = λ k w h. h;
    capped = λ k t w h. h;
    enter = λ k ds w h. (h, refl);
    leave = λ k ds w h. h.0;
    request = λ k ds r w h. h;
    stable = λ k ds. GatedWith-stable env.serde ds;
    exec = λ k ds message_id call s h. execute_tool_call-GatedWith env turn ds message_id call s h;
  }

  cap_invariant : (base : ℕ) → IsTurnInvariant env turn (AtMost base) (λ k ds. AtMost base k)
  cap_invariant base = record {
    grow = λ k w h. omega arith;
    capped = λ k t w h. h;
    enter = λ k ds w h. h;
    leave = λ k ds w h. h;
    request = λ k ds r w h. omega arith;
    stable = λ k ds. AtMost-stable base k;
    exec = λ k ds message_id call s h.
        execute_tool_call-Reaches env turn (AtMost base k) (AtMost-stable base k) (λ r w h'. h')
          message_id ds call s h;
  }

  frame_invariant :
      (events : List (AgentEvent V))
      → IsTurnInvariant env turn (λ _. Framed events) (λ _ _. Framed events)
  frame_invariant events = record {
    grow = λ k w h. h;
    capped = λ k t w h. h;
    enter = λ k ds w h. h;
    leave = λ k ds w h. h;
    request = λ k ds r w h. h;
    stable = λ k ds. Framed-stable events;
    exec = λ k ds message_id call s h.
        execute_tool_call-Reaches env turn (Framed events) (Framed-stable events) (λ r w h'. h')
          message_id ds call s h;
  }

  abbrev driven : Runner V → Result ContractError FinishReason × Runner V
  driven s = drive env turn max_tool_steps (started env turn s)

  report-keeps :
      (P : World V → Type 0) (r : Result ContractError FinishReason) (s : Runner V)
      → ((t : Text) (w : World V) → P w → P (emitted (AgentEvent.error t) ∷ w))
      → P s.world
      → P (report env turn r s).world
  unfolding report
  report-keeps P (ok reason) s keeps h = h
  report-keeps P (err e) s keeps h = keeps _ s.world h

  -- In a whole turn, whatever the model asks for and whatever the stores, the tools and the user
  -- answer, every tool that is invoked was listed in that round, and one that requires an approval
  -- is invoked only right after the user was shown that tool with the text of the arguments that it
  -- is invoked with (the first 200 characters of it), and approved that request, provided that this
  -- held of the calls before the turn.
  pub run-IsGated :
      (s : Runner V) → IsGated env.serde s.world → IsGated env.serde (run env turn s).world
  unfolding run
  run-IsGated s h =
      report-keeps (IsGated env.serde) (driven s).0 (driven s).1 (λ t w k. k)
        (drive-Reaches env turn (λ _. IsGated env.serde) (λ _. GatedWith env.serde) gate_invariant
          max_tool_steps 0 (started env turn s) h).at

  -- A turn makes at most eight requests for inference.
  pub requests-run :
      (s : Runner V) → requests (run env turn s).world ≤ requests s.world + max_tool_steps
  unfolding run
  requests-run s =
      report-keeps (AtMost (requests s.world) max_tool_steps) (driven s).0 (driven s).1 (λ t w k. k)
        (drive-Reaches env turn (AtMost (requests s.world)) (λ k ds. AtMost (requests s.world) k)
          (cap_invariant (requests s.world)) max_tool_steps 0 (started env turn s) (omega arith)).at

  -- A turn emits exactly one `TurnStarted`, with the mode that it starts in, and then exactly one
  -- `TurnFinished`, which is its last effect, also when a round fails.
  pub run-lifecycle :
      (s : Runner V)
      → (reason : FinishReason) × (before : World V) × ((run env turn s).world
          ≡ emitted (AgentEvent.turn_finished reason) ∷ before)
        × (lifecycle before
            ≡ AgentEvent.turn_started turn.conversation.id turn.user_message_id s.mode
              ∷ lifecycle s.world)
  unfolding run
  run-lifecycle s =
      let events : List (AgentEvent V) =
        AgentEvent.turn_started turn.conversation.id turn.user_message_id s.mode
        ∷ lifecycle s.world in
      (
        _,
        _,
        refl,
        report-keeps (Framed events) (driven s).0 (driven s).1 (λ t w k. k)
            (drive-Reaches env turn (λ _. Framed events) (λ _ _. Framed events)
              (frame_invariant events) max_tool_steps 0 (started env turn s) refl).at,
      )
