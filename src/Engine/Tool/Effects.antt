-- ===== src/Engine/Tool/Effects.antt =====
-- What a step of the engine does to a property of the calls made so far.
use mahi_ai.Prelude.{◌≡◌, refl, Bool, true, false, ◌∷◌, Text, if◌then◌else◌}
use mahi_ai.Contracts.Types.{Uuid, ComputeMode}
use mahi_ai.Contracts.Errors.{ContractError}
use mahi_ai.Contracts.Result.{Result, ok, err}
use mahi_ai.Contracts.Data.{Message, AuditEvent}
use mahi_ai.Contracts.Tooling.{ToolEvent}
use mahi_ai.Engine.Env.{
  AgentEvent, Decision, Effect, World, Env, Runner, M, ◌>>=◌, pure, raise, lift, asks, perform,
  current_mode, append_message, append_audit, append_message_cases, append_audit_cases, and_then,
  emitted, appended, audited, registered, awaited, discarded,
}

-- The events that open and close a turn.
abbrev pub is_lifecycle : {V : Type 0} → AgentEvent V → Bool
is_lifecycle (AgentEvent.turn_started _ _ _) = true
is_lifecycle (AgentEvent.turn_finished _) = true
is_lifecycle _ = false

-- A property that the engine's effects keep, except perhaps those that open or close a turn, list the
-- tools, request an inference, invoke a tool or write the conversation.
pub record IsStable {V : Type 0} (P : World V → Type 0) : Type 0 where
  pub emits_delta : (t : Text) (w : World V) → P w → P (emitted (AgentEvent.text_delta t) ∷ w)
  pub emits_handoff :
      (from to : ComputeMode) (w : World V)
      → P w
      → P (emitted (AgentEvent.mode_handoff from to) ∷ w)
  pub emits_tool : (e : ToolEvent V) (w : World V) → P w → P (emitted (AgentEvent.tool e) ∷ w)
  pub emits_approval :
      (id : Uuid) (t : Text) (w : World V)
      → P w
      → P (emitted (AgentEvent.approval_required id t) ∷ w)
  pub emits_error : (t : Text) (w : World V) → P w → P (emitted (AgentEvent.error t) ∷ w)
  pub appends : (m : Message V) (w : World V) → P w → P (appended m ∷ w)
  pub audits : (e : AuditEvent V) (w : World V) → P w → P (audited e ∷ w)
  pub registers : (id : Uuid) (w : World V) → P w → P (registered id ∷ w)
  pub awaits : (id : Uuid) (d : Decision) (w : World V) → P w → P (awaited id d ∷ w)
  pub discards : (id : Uuid) (w : World V) → P w → P (discarded id ∷ w)

-- The step leads from the runner to one whose world has the property, whether it fails or not.
pub record Reaches {V A : Type 0} (P : World V → Type 0) (m : M V A) (s : Runner V) : Type 0 where
  pub at : P (m s).1.world

module _ {V A : Type 0} (P : World V → Type 0) where
  pub Reaches-pure : (a : A) (s : Runner V) → P s.world → Reaches P (pure {V = V} a) s
  unfolding pure
  Reaches-pure a s h = record { at = h }

  pub Reaches-lift :
      (f : World V → Result ContractError A) (s : Runner V) → P s.world → Reaches P (lift f) s
  unfolding lift
  Reaches-lift f s h = record { at = h }

  pub Reaches-asks : (f : World V → A) (s : Runner V) → P s.world → Reaches P (asks f) s
  unfolding asks
  Reaches-asks f s h = record { at = h }

  pub Reaches-raise : (e : ContractError) (s : Runner V) → P s.world → Reaches P (raise {A = A} e) s
  unfolding raise
  Reaches-raise e s h = record { at = h }

  pub Reaches-if :
      (b : Bool) (m n : M V A) (s : Runner V)
      → (b ≡ true → Reaches P m s)
      → (b ≡ false → Reaches P n s)
      → Reaches P (if b then m else n) s
  Reaches-if true m n s h k = h refl
  Reaches-if false m n s h k = k refl

pub Reaches-perform :
    {V : Type 0} (P : World V → Type 0) (e : Effect V) (s : Runner V)
    → P (e ∷ s.world)
    → Reaches P (perform e) s
unfolding perform
Reaches-perform P e s h = record { at = h }

pub Reaches-current_mode :
    {V : Type 0} (P : World V → Type 0) (s : Runner V)
    → P s.world
    → Reaches P (current_mode {V = V}) s
unfolding current_mode
Reaches-current_mode P s h = record { at = h }

module _ {V A B : Type 0} (P : World V → Type 0) where
  pub Reaches-bind :
      (m : M V A) (f : A → M V B) (s : Runner V)
      → Reaches P m s
      → ((a : A) (t : Runner V) → P t.world → Reaches P (f a) t)
      → Reaches P (m >>= f) s
  unfolding ◌>>=◌
  Reaches-bind m f s h k = record { at = go (m s) h.at }
    where
      go : (r : Result ContractError A × Runner V) → P r.1.world → P (and_then f r).1.world
      go (ok a, t) h = (k a t h).at
      go (err e, t) h = h

-- The same rule where the first step has a property of its own.
module _ {V A B : Type 0} (P Q : World V → Type 0) where
  pub Reaches-then :
      (m : M V A) (f : A → M V B) (s : Runner V)
      → ((w : World V) → P w → Q w)
      → Reaches P m s
      → ((a : A) (t : Runner V) → P t.world → Reaches Q (f a) t)
      → Reaches Q (m >>= f) s
  unfolding ◌>>=◌
  Reaches-then m f s weaker h k = record { at = go (m s) h.at }
    where
      go : (r : Result ContractError A × Runner V) → P r.1.world → Q (and_then f r).1.world
      go (ok a, t) h = (k a t h).at
      go (err e, t) h = weaker t.world h

module _ {V : Type 0} (env : Env V) (P : World V → Type 0) (st : IsStable P) where
  pub append_message-Reaches :
      (message : Message V) (s : Runner V) → P s.world → Reaches P (append_message env message) s
  append_message-Reaches message s h = record {
    at =
        append_message_cases (λ r. P r.1.world) env message s (st.appends message s.world h)
          (λ _. h);
  }

  pub append_audit-Reaches :
      (event : AuditEvent V) (s : Runner V) → P s.world → Reaches P (append_audit env event) s
  append_audit-Reaches event s h = record {
    at = append_audit_cases (λ r. P r.1.world) env event s (st.audits event s.world h) (λ _. h);
  }
