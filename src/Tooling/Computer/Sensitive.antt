-- ===== src/Tooling/Computer/Sensitive.antt =====
-- When a tool of crates/mahi-tooling/src/tools/computer_use.rs acts on the screen.
use mahi_ai.Prelude.{
  ◌≡◌, refl, ◌⊎◌, inl, inr, Bool, true, false, List, [], ◌∷◌, All, Text, text, is_empty, if_both,
  if◌then◌else◌,
}
use mahi_ai.Prelude.Chars.{trim}
use mahi_ai.Contracts.Result.{Result, ok, err}
use mahi_ai.Json.{Json}
use mahi_ai.Tooling.Streams.{Events, parse_args, tool_error}
use mahi_ai.Tooling.Computer.{
  ComputerController, ControllerAction, Derived, UiOutcome, UiTool, screen_capture, ui_describe,
  ui_click, ui_type, ui_scroll, ui_key,
}
use mahi_ai.Tooling.Computer.Descriptors.{ui_descriptor}
use mahi_ai.Tooling.Computer.Run.{
  quiet, sensitive_refusal, click_at, type_in, press, refuse_if_sensitive, or_reported, run_click,
  run_type, run_scroll, run_key, run_ui,
}

-- A click, a text or a key.
abbrev pub is_input : ControllerAction → Bool
is_input (ControllerAction.click x y button) = true
is_input (ControllerAction.type_text t) = true
is_input (ControllerAction.key combo) = true
is_input _ = false

-- An action that is not input, or input into a context that is not sensitive, by a tool that requires an
-- approval.
abbrev pub IsAllowed : ComputerController → UiTool → ControllerAction → Type 0
IsAllowed controller tool action =
    (is_input action ≡ false)
    ⊎ ((controller.is_sensitive_context ≡ false) × ((ui_descriptor tool).requires_approval ≡ true))

-- What the arguments of a call ask for.
abbrev pub requested {ℓ} :
    {A : Type ℓ} → Result Text A → (A → List ControllerAction) → List ControllerAction
requested (ok a) k = k a
requested (err message) k = []

abbrev pub wanted : Derived → UiTool → Json → List ControllerAction
wanted derived screen_capture value = ControllerAction.screenshot ∷ []
wanted derived ui_describe value = ControllerAction.describe_ui ∷ []
wanted derived ui_click value =
    requested (parse_args derived.click_from value)
      (λ args. ControllerAction.click args.0 args.1 args.2 ∷ [])
wanted derived ui_type value =
    requested (parse_args derived.type_from value) (λ t. ControllerAction.type_text t ∷ [])
wanted derived ui_scroll value =
    requested (parse_args derived.scroll_from value)
      (λ args. ControllerAction.scroll args.0 args.1 ∷ [])
wanted derived ui_key value =
    requested (parse_args derived.key_from value)
      (λ combo. if is_empty (trim combo) then [] else ControllerAction.key combo ∷ [])

-- The actions that a context lets through: all of them, or where it is sensitive those that are not input.
abbrev pub permitted : (sensitive : Bool) → List ControllerAction → List ControllerAction
permitted false actions = actions
permitted true [] = []
permitted true (action ∷ actions) =
    if is_input action then permitted true actions else action ∷ permitted true actions

permitted_nothing : (sensitive : Bool) → [] ≡ permitted sensitive []
permitted_nothing false = refl
permitted_nothing true = refl

-- Looking and scrolling pass in every context.
permitted_other :
    (sensitive : Bool) (action : ControllerAction)
    → is_input action ≡ false
    → (action ∷ []) ≡ permitted sensitive (action ∷ [])
permitted_other false action h = refl
permitted_other true action h = rw (h) refl

permitted_input :
    (sensitive : Bool) (action : ControllerAction) (refusal : Events Json) (next : UiOutcome)
    → is_input action ≡ true
    → next.actions ≡ action ∷ []
    → (if◌then◌else◌ {A = UiOutcome} sensitive (quiet refusal) next).actions
      ≡ permitted sensitive (action ∷ [])
permitted_input false action refusal next h e = e
permitted_input true action refusal next h e = rw (h) refl

-- A call that is refused by its arguments asks for nothing.
permitted_unless :
    (refused sensitive : Bool) (refusal : Events Json) (next : UiOutcome)
    (actions : List ControllerAction)
    → next.actions ≡ permitted sensitive actions
    → (if◌then◌else◌ {A = UiOutcome} refused (quiet refusal) next).actions
      ≡ permitted sensitive (if refused then [] else actions)
permitted_unless true sensitive refusal next actions e = permitted_nothing sensitive
permitted_unless false sensitive refusal next actions e = e

module _ (derived : Derived) (controller : ComputerController) where
  or_reported-All {ℓ} :
      {A : Type ℓ} (P : ControllerAction → Type 0) (r : Result Text A) (k : A → UiOutcome)
      → ((a : A) → All P (k a).actions)
      → All P (or_reported derived controller r k).actions
  or_reported-All P (ok a) k h = h a
  or_reported-All P (err e) k h = tt

  -- What is done after the check is done in a context that is not sensitive.
  refuse_if_sensitive-All :
      (P : ControllerAction → Type 0) (next : UiOutcome)
      → (controller.is_sensitive_context ≡ false → All P next.actions)
      → All P (refuse_if_sensitive derived controller next).actions
  refuse_if_sensitive-All P next h = go controller.is_sensitive_context h
    where
      go :
          (b : Bool)
          → (b ≡ false → All P next.actions)
          → All P
              (if◌then◌else◌ {A = UiOutcome} b
                (quiet (tool_error sensitive_refusal false))
                next).actions
      go true h = tt
      go false h = h refl

  run_key-IsAllowed :
      (combo : Text) → All (IsAllowed controller ui_key) (run_key derived controller combo).actions
  run_key-IsAllowed combo =
      if_both (λ outcome. All (IsAllowed controller ui_key) outcome.actions) (is_empty (trim combo))
        (quiet (tool_error (text "combo must not be empty") false))
        (refuse_if_sensitive derived controller (press derived controller combo)) tt
        (refuse_if_sensitive-All (IsAllowed controller ui_key) (press derived controller combo)
          (λ h. (inr (h, refl), tt)))

  or_reported-requested {ℓ} :
      {A : Type ℓ} (r : Result Text A) (k : A → UiOutcome) (want : A → List ControllerAction)
      → ((a : A) → (k a).actions ≡ permitted controller.is_sensitive_context (want a))
      → (or_reported derived controller r k).actions
        ≡ permitted controller.is_sensitive_context (requested r want)
  or_reported-requested (ok a) k want h = h a
  or_reported-requested (err e) k want h = permitted_nothing controller.is_sensitive_context

  refuse_if_sensitive-permitted :
      (action : ControllerAction) (next : UiOutcome)
      → is_input action ≡ true
      → next.actions ≡ action ∷ []
      → (refuse_if_sensitive derived controller next).actions
        ≡ permitted controller.is_sensitive_context (action ∷ [])
  refuse_if_sensitive-permitted action next =
      permitted_input controller.is_sensitive_context action (tool_error sensitive_refusal false)
        next

  run_ui-wanted :
      (tool : UiTool) (value : Json)
      → (run_ui derived controller tool value).actions
        ≡ permitted controller.is_sensitive_context (wanted derived tool value)
  run_ui-wanted screen_capture value =
      permitted_other controller.is_sensitive_context ControllerAction.screenshot refl
  run_ui-wanted ui_describe value =
      permitted_other controller.is_sensitive_context ControllerAction.describe_ui refl
  run_ui-wanted ui_click value =
      or_reported-requested (parse_args derived.click_from value) (run_click derived controller) _
        (λ args.
          refuse_if_sensitive-permitted (ControllerAction.click args.0 args.1 args.2)
            (click_at derived controller args) refl refl)
  run_ui-wanted ui_type value =
      or_reported-requested (parse_args derived.type_from value) (run_type derived controller) _
        (λ t.
          refuse_if_sensitive-permitted (ControllerAction.type_text t)
            (type_in derived controller t) refl refl)
  run_ui-wanted ui_scroll value =
      or_reported-requested (parse_args derived.scroll_from value) (run_scroll derived controller) _
        (λ args.
          permitted_other controller.is_sensitive_context (ControllerAction.scroll args.0 args.1)
            refl)
  run_ui-wanted ui_key value =
      or_reported-requested (parse_args derived.key_from value) (run_key derived controller) _
        (λ combo.
          permitted_unless (is_empty (trim combo)) controller.is_sensitive_context
            (tool_error (text "combo must not be empty") false)
            (refuse_if_sensitive derived controller (press derived controller combo))
            (ControllerAction.key combo ∷ [])
            (refuse_if_sensitive-permitted (ControllerAction.key combo)
              (press derived controller combo) refl refl))

  run_ui-All :
      (tool : UiTool) (value : Json)
      → All (IsAllowed controller tool) (run_ui derived controller tool value).actions
  run_ui-All screen_capture value = (inl refl, tt)
  run_ui-All ui_describe value = (inl refl, tt)
  run_ui-All ui_click value =
      or_reported-All (IsAllowed controller ui_click) (parse_args derived.click_from value)
        (run_click derived controller)
        (λ args.
          refuse_if_sensitive-All (IsAllowed controller ui_click) (click_at derived controller args)
            (λ h. (inr (h, refl), tt)))
  run_ui-All ui_type value =
      or_reported-All (IsAllowed controller ui_type) (parse_args derived.type_from value)
        (run_type derived controller)
        (λ t.
          refuse_if_sensitive-All (IsAllowed controller ui_type) (type_in derived controller t)
            (λ h. (inr (h, refl), tt)))
  run_ui-All ui_scroll value =
      or_reported-All (IsAllowed controller ui_scroll) (parse_args derived.scroll_from value)
        (run_scroll derived controller) (λ args. (inl refl, tt))
  run_ui-All ui_key value =
      or_reported-All (IsAllowed controller ui_key) (parse_args derived.key_from value)
        (run_key derived controller) (λ combo. run_key-IsAllowed combo)

  -- Whatever a tool is given, each action that it has the controller perform is no input or is input into
  -- a context that is not sensitive by a tool that requires an approval; and what it performs is all that
  -- its arguments ask for, except, where the context is sensitive, the input.
  pub run_ui-IsAllowed :
      (tool : UiTool) (value : Json)
      → All (IsAllowed controller tool) (run_ui derived controller tool value).actions
        × ((run_ui derived controller tool value).actions
            ≡ permitted controller.is_sensitive_context (wanted derived tool value))
  run_ui-IsAllowed tool value = (run_ui-All tool value, run_ui-wanted tool value)
