-- ===== src/Engine/Turn/Invariant.antt =====
-- One rule for the invariants of a whole turn: what every effect of it keeps.
use mahi_ai.Prelude.{
  ℕ, zero, suc, ◌+◌, Bool-cases, inl, inr, is_empty, ◌==◌, Option, none, some, List, [], ◌∷◌, Text,
  arith,
}
use mathlib.Core.Path.{subst}
use mahi_ai.Contracts.Types.{Uuid, ComputeMode, mode_eq}
use mahi_ai.Contracts.Result.{ok, err}
use mahi_ai.Contracts.Tooling.{ToolDescriptor}
use mahi_ai.Contracts.Inference.{FinishReason, InferenceChunk, InferenceRequest}
use mahi_ai.Engine.Env.{
  AgentEvent, Poll, World, Env, Turn, Runner, M, pure, perform, emitted, described, requested,
}
use mahi_ai.Engine.Stream.{
  PendingToolCall, Round, new_round, RoundOutcome, consume_inference, conclude_cases, observe,
  accumulate, handoff, show_delta,
}
use mahi_ai.Engine.Tool.{ToolStepOutcome, completed, cancelled, execute_tool_call}
use mahi_ai.Engine.Tool.Effects.{
  IsStable, Reaches, Reaches-bind, Reaches-pure, Reaches-lift, Reaches-asks, Reaches-if,
  Reaches-perform, Reaches-current_mode, Reaches-then, append_message-Reaches,
}
use mahi_ai.Engine.Turn.{
  persist_assistant_text, persist_assistant_tool_calls, run_calls, after_round, drive_round, drive,
}

module _ {V : Type 0} (P : World V → Type 0) (st : IsStable P) where
  handoff-Reaches : (active : ComputeMode) (s : Runner V) → P s.world → P (handoff active s).world
  unfolding handoff
  handoff-Reaches active s h = elim (Bool-cases (active == s.mode)) [
    | inl same ↦ rw same h
    | inr other ↦ rw other (st.emits_handoff s.mode active s.world h)
  ]

  show_delta-Reaches :
      (delta : Option Text) (s : Runner V) → P s.world → P (show_delta delta s).world
  unfolding show_delta
  show_delta-Reaches none s h = h
  show_delta-Reaches (some delta) s h = elim (Bool-cases (is_empty delta)) [
    | inl nothing ↦ rw nothing h
    | inr words ↦ rw words (st.emits_delta delta s.world h)
  ]

  observe-Reaches : (chunk : InferenceChunk) (s : Runner V) → P s.world → P (observe chunk s).world
  unfolding observe
  observe-Reaches chunk s h =
      show_delta-Reaches chunk.delta (handoff chunk.active_mode s)
        (handoff-Reaches chunk.active_mode s h)

  consume_inference-Reaches :
      (polls : List (Poll InferenceChunk)) (round : Round) (s : Runner V)
      → P s.world
      → P (consume_inference polls round s).1.world
  unfolding consume_inference
  consume_inference-Reaches [] round s h = h
  consume_inference-Reaches (Poll.fired ∷ polls) round s h = h
  consume_inference-Reaches (Poll.item (err e) ∷ polls) round s h = h
  consume_inference-Reaches (Poll.item (ok chunk) ∷ polls) round s h =
      conclude_cases (λ r. P r.1.world) chunk.finish_reason (accumulate chunk round)
        (observe chunk s) _
        (consume_inference-Reaches polls (accumulate chunk round) (observe chunk s)
          (observe-Reaches chunk s h))
        (λ reason. observe-Reaches chunk s h)

outcome-Reaches :
    {V A : Type 0} (P : World V → Type 0) (outcome : ToolStepOutcome) (m n : M V A) (s : Runner V)
    → Reaches P m s
    → Reaches P n s
    → Reaches P (elim outcome as (λ _. M V A) [ completed ↦ m | cancelled ↦ n ]) s
outcome-Reaches P completed m n s h k = h
outcome-Reaches P cancelled m n s h k = k

module _ {V : Type 0} (env : Env V) (turn : Turn) (P : World V → Type 0) (st : IsStable P) where
  persist_assistant_text-Reaches :
      (words : Text) (s : Runner V)
      → P s.world
      → Reaches P (persist_assistant_text env turn words) s
  unfolding persist_assistant_text
  persist_assistant_text-Reaches words s h =
      Reaches-if P (is_empty words) (pure tt) _ s (λ _. Reaches-pure P tt s h)
        (λ _.
          Reaches-bind P _ _ s (Reaches-lift P _ s h)
            (λ sequence t k. record { at = (append_message-Reaches env P st _ t k).at }))

  persist_assistant_tool_calls-Reaches :
      (words : Text) (calls : List PendingToolCall) (thinking : Option (Text × Text)) (s : Runner V)
      → P s.world
      → Reaches P (persist_assistant_tool_calls env turn words calls thinking) s
  unfolding persist_assistant_tool_calls
  persist_assistant_tool_calls-Reaches words calls thinking s h =
      Reaches-bind P _ _ s (Reaches-lift P _ s h) λ sequence t k.
        Reaches-bind P _ _ t (Reaches-asks P _ t k) λ id u l.
          Reaches-bind P _ _ u (record { at = (append_message-Reaches env P st _ u l).at })
            λ _ v m. Reaches-pure P id v m

  -- The calls of a round, if executing a call keeps the property.
  run_calls-Reaches :
      (ds : List (ToolDescriptor V))
      (exec : (message_id : Uuid) (call : PendingToolCall) (s : Runner V)
        → P s.world
        → P (execute_tool_call env turn message_id ds call s).1.world)
      (message_id : Uuid) (calls : List PendingToolCall) (s : Runner V)
      → P s.world
      → Reaches P (run_calls env turn message_id ds calls) s
  unfolding run_calls
  run_calls-Reaches ds exec message_id [] s h = Reaches-pure P completed s h
  run_calls-Reaches ds exec message_id (call ∷ calls) s h =
      Reaches-bind P _ _ s (Reaches-asks P _ s h) λ stop t k.
        Reaches-if P stop (pure cancelled) _ t (λ _. Reaches-pure P cancelled t k)
          (λ _.
            Reaches-bind P _ _ t (record { at = exec message_id call t k })
              (λ outcome u l.
                outcome-Reaches P outcome _ _ u (run_calls-Reaches ds exec message_id calls u l)
                  (Reaches-pure P cancelled u l)))

-- An invariant of the turn: `P k` between two rounds, after `k` requests for inference, and `D k ds`
-- inside a round whose tools are `ds`.
pub record IsTurnInvariant {V : Type 0} (env : Env V) (turn : Turn) (P : ℕ → World V → Type 0)
    (D : ℕ → List (ToolDescriptor V) → World V → Type 0) : Type 0 where
  pub grow : (k : ℕ) (w : World V) → P k w → P (suc k) w
  pub capped : (k : ℕ) (t : Text) (w : World V) → P k w → P k (emitted (AgentEvent.error t) ∷ w)
  pub enter :
      (k : ℕ) (ds : List (ToolDescriptor V)) (w : World V) → P k w → D k ds (described ds ∷ w)
  pub leave : (k : ℕ) (ds : List (ToolDescriptor V)) (w : World V) → D k ds w → P k w
  pub request :
      (k : ℕ) (ds : List (ToolDescriptor V)) (r : InferenceRequest V) (w : World V)
      → D k ds w
      → D (suc k) ds (requested r ∷ w)
  pub stable : (k : ℕ) (ds : List (ToolDescriptor V)) → IsStable (D k ds)
  pub exec :
      (k : ℕ) (ds : List (ToolDescriptor V)) (message_id : Uuid) (call : PendingToolCall)
      (s : Runner V)
      → D k ds s.world
      → D k ds (execute_tool_call env turn message_id ds call s).1.world

Reaches-weaken :
    {V A : Type 0} (P Q : World V → Type 0) (m : M V A) (s : Runner V)
    → ((w : World V) → P w → Q w)
    → Reaches P m s
    → Reaches Q m s
Reaches-weaken P Q m s f h = record { at = f _ h.at }

module _ {V : Type 0} (env : Env V) (turn : Turn) (P : ℕ → World V → Type 0)
    (D : ℕ → List (ToolDescriptor V) → World V → Type 0) (inv : IsTurnInvariant env turn P D) where
  grow_by : (n k : ℕ) (w : World V) → P k w → P (k + n) w
  grow_by zero k w h = subst (λ m. P m w) (omega arith) h
  grow_by (suc n) k w h = subst (λ m. P m w) (omega arith) (inv.grow (k + n) w (grow_by n k w h))

  after_round-Reaches :
      (ds : List (ToolDescriptor V)) (again : M V FinishReason) (outcome : RoundOutcome)
      (segment : Text) (n k : ℕ) (s : Runner V)
      → ((t : Runner V) → P k t.world → Reaches (P (k + n)) again t)
      → D k ds s.world
      → Reaches (P (k + n)) (after_round env turn ds again outcome segment) s
  unfolding after_round
  after_round-Reaches ds again (RoundOutcome.finished reason) segment n k s more h =
      Reaches-then (D k ds) (P (k + n)) _ _ s (λ w d. grow_by n k w (inv.leave k ds w d))
        (persist_assistant_text-Reaches env turn (D k ds) (inv.stable k ds) segment s h)
        λ _ t d. Reaches-pure (P (k + n)) reason t (grow_by n k t.world (inv.leave k ds t.world d))
  after_round-Reaches ds again RoundOutcome.cancelled segment n k s more h =
      Reaches-then (D k ds) (P (k + n)) _ _ s (λ w d. grow_by n k w (inv.leave k ds w d))
        (persist_assistant_text-Reaches env turn (D k ds) (inv.stable k ds) segment s h)
        λ _ t d.
          Reaches-pure (P (k + n)) FinishReason.cancelled t
            (grow_by n k t.world (inv.leave k ds t.world d))
  after_round-Reaches ds again (RoundOutcome.tool_calls calls thinking) segment n k s more h =
      Reaches-then (D k ds) (P (k + n)) _ _ s (λ w d. grow_by n k w (inv.leave k ds w d))
        (persist_assistant_tool_calls-Reaches env turn (D k ds) (inv.stable k ds) segment calls
          thinking s h)
        λ id t d.
          Reaches-then (D k ds) (P (k + n)) _ _ t (λ w d. grow_by n k w (inv.leave k ds w d))
            (run_calls-Reaches env turn (D k ds) (inv.stable k ds) ds (inv.exec k ds) id calls t d)
            λ outcome u e.
              outcome-Reaches (P (k + n)) outcome again (pure FinishReason.cancelled) u
                (more u (inv.leave k ds u.world e))
                (Reaches-pure (P (k + n)) FinishReason.cancelled u
                  (grow_by n k u.world (inv.leave k ds u.world e)))

  -- The round itself, from the assembling of the context on.
  drive_round-Reaches :
      (n k : ℕ) (ds : List (ToolDescriptor V)) (again : M V FinishReason) (s : Runner V)
      → ((t : Runner V) → P (suc k) t.world → Reaches (P (suc k + n)) again t)
      → D k ds s.world
      → Reaches (P (suc k + n)) (drive_round env turn ds again) s
  unfolding drive_round
  drive_round-Reaches n k ds again s more h =
      let Q : World V → Type 0 = P (suc k + n) in
      let before : (w : World V) → D k ds w → Q w =
        λ w d. grow_by n (suc k) w (inv.grow k w (inv.leave k ds w d)) in
      let after : (w : World V) → D (suc k) ds w → Q w =
        λ w d. grow_by n (suc k) w (inv.leave (suc k) ds w d) in
      Reaches-then (D k ds) Q _ _ s before (Reaches-lift (D k ds) _ s h) λ messages t d.
        Reaches-then (D k ds) Q _ _ t before (Reaches-asks (D k ds) _ t d) λ request u e.
          Reaches-then (D (suc k) ds) Q (perform (requested request)) _ u after
            (Reaches-perform (D (suc k) ds) _ u (inv.request k ds request u.world e))
            λ _ v f.
              Reaches-then (D (suc k) ds) Q _ _ v after (Reaches-lift (D (suc k) ds) _ v f)
                λ polls w g.
                  Reaches-then (D (suc k) ds) Q (consume_inference polls new_round) _ w after
                    (record {
                      at =
                          consume_inference-Reaches (D (suc k) ds) (inv.stable (suc k) ds) polls
                            new_round w g;
                    })
                    λ outcome x l.
                      after_round-Reaches ds again outcome.0 outcome.1 n (suc k) x more l

  pub drive-Reaches :
      (n k : ℕ) (s : Runner V) → P k s.world → Reaches (P (k + n)) (drive env turn n) s
  unfolding drive
  drive-Reaches zero k s h =
      Reaches-bind (P (k + zero)) _ _ s
        (Reaches-perform (P (k + zero)) _ s
          (inv.capped (k + zero) _ s.world (grow_by zero k s.world h)))
        λ _ t d. Reaches-pure (P (k + zero)) FinishReason.error t d
  drive-Reaches (suc n) k s h =
      let Q : World V → Type 0 = P (k + suc n) in
      let up : (w : World V) → P k w → Q w = grow_by (suc n) k in
      Reaches-then (P k) Q _ _ s up (Reaches-current_mode (P k) s h) λ mode t p.
        Reaches-then (P k) Q _ _ t up (Reaches-asks (P k) _ t p) λ ds u q.
          Reaches-then (D k ds) Q (perform (described ds)) _ u (λ w d. up w (inv.leave k ds w d))
            (Reaches-perform (D k ds) _ u (inv.enter k ds u.world q))
            λ _ v d.
              Reaches-weaken (P (suc k + n)) Q (drive_round env turn ds (drive env turn n)) v
                (λ w. subst (λ m. P m w) (omega arith))
                (drive_round-Reaches n k ds (drive env turn n) v
                  (λ x r. drive-Reaches n (suc k) x r) d)
