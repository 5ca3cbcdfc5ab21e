-- ===== src/Tooling/Computer/Run.antt =====
-- What the tools of crates/mahi-tooling/src/tools/computer_use.rs do.
use Prim.Native.String.{String}
use mahi_ai.Prelude.{true, false, [], ◌∷◌, ◌++◌, Text, text, length, is_empty, if◌then◌else◌}
use mahi_ai.Prelude.Chars.{trim}
use mahi_ai.Prelude.Int.{ℤ}
use mahi_ai.Contracts.Errors.{ContractError}
use mahi_ai.Contracts.Result.{Result, ok, err}
use mahi_ai.Json.{Json, boolean, natural, string, entry, json_object, word}
use mahi_ai.Store.Crypto.{hex}
use mahi_ai.Tooling.Streams.{Events, ok_result, tool_error, parse_args}
use mahi_ai.Tooling.Computer.{
  Screenshot, MouseButton, left, right, middle, ComputerController, ControllerAction, Derived,
  UiOutcome, UiTool, screen_capture, ui_describe, ui_click, ui_type, ui_scroll, ui_key,
}

abbrev pub sensitive_refusal : Text
sensitive_refusal =
    text
      "refused: the focused context appears to be a login or payment screen; automated input is blocked and the user must act directly"

abbrev pub quiet : Events Json → UiOutcome
quiet events = record { actions = []; events = events }

abbrev pub button_value : MouseButton → Json
button_value left = word "left"
button_value right = word "right"
button_value middle = word "middle"

module _ (derived : Derived) (controller : ComputerController) where
  abbrev pub controller_failure : String → ContractError → Events Json
  controller_failure action e =
      tool_error
        (text "computer controller failed to " ++ text action ++ text ": " ++ derived.display e)
        true

  -- A call of the controller and what becomes of its answer.
  abbrev pub answered_by {ℓ} :
      {A : Type ℓ} → String → (A → Events Json) → Result ContractError A → Events Json
  answered_by action k (ok a) = k a
  answered_by action k (err e) = controller_failure action e

  abbrev pub acting : ControllerAction → Events Json → UiOutcome
  acting action events = record { actions = action ∷ []; events = events }

  -- `if let Some(refusal) = refuse_if_sensitive(...)`
  abbrev pub refuse_if_sensitive : UiOutcome → UiOutcome
  refuse_if_sensitive next =
      if controller.is_sensitive_context then quiet (tool_error sensitive_refusal false) else next

  abbrev pub or_reported {ℓ} : {A : Type ℓ} → Result Text A → (A → UiOutcome) → UiOutcome
  or_reported (ok a) k = k a
  or_reported (err message) k = quiet (tool_error message false)

  abbrev pub shot_value : Screenshot → Events Json
  shot_value shot = ok_result (
      json_object (
        entry "width" (natural shot.width)
        ∷ entry "height" (natural shot.height)
        ∷ entry "description" (string shot.description)
        ∷ entry "image_hex" (string (hex shot.bytes))
        ∷ []))

  abbrev pub shown_elements : Result Text Json → Events Json
  shown_elements (ok value) = ok_result (json_object (entry "elements" value ∷ []))
  shown_elements (err e) = tool_error (text "failed to serialize UI elements: " ++ e) false

  abbrev pub click_at : ℤ × ℤ × MouseButton → UiOutcome
  click_at (x, y, button) = acting (ControllerAction.click x y button) (
      answered_by "click"
        (λ _. ok_result (
          json_object (
            entry "clicked" (boolean true)
            ∷ entry "x" (derived.int_value x)
            ∷ entry "y" (derived.int_value y)
            ∷ entry "button" (button_value button)
            ∷ [])))
        (controller.click x y button))

  abbrev pub run_click : ℤ × ℤ × MouseButton → UiOutcome
  run_click args = refuse_if_sensitive (click_at args)

  abbrev pub type_in : Text → UiOutcome
  type_in t = acting (ControllerAction.type_text t) (
      answered_by "type text"
        (λ _. ok_result (json_object (entry "typed_chars" (natural (length t)) ∷ [])))
        (controller.type_text t))

  abbrev pub run_type : Text → UiOutcome
  run_type t = refuse_if_sensitive (type_in t)

  abbrev pub run_scroll : ℤ × ℤ → UiOutcome
  run_scroll (dx, dy) = acting (ControllerAction.scroll dx dy) (
      answered_by "scroll"
        (λ _. ok_result (
          json_object (
            entry "scrolled" (boolean true)
            ∷ entry "dx" (derived.int_value dx)
            ∷ entry "dy" (derived.int_value dy)
            ∷ [])))
        (controller.scroll dx dy))

  abbrev pub press : Text → UiOutcome
  press combo = acting (ControllerAction.key combo) (
      answered_by "press keys"
        (λ _.
          ok_result
            (json_object (entry "pressed" (boolean true) ∷ entry "combo" (string combo) ∷ [])))
        (controller.key combo))

  abbrev pub run_key : Text → UiOutcome
  run_key combo =
      if is_empty (trim combo)
      then quiet (tool_error (text "combo must not be empty") false)
      else refuse_if_sensitive (press combo)

  abbrev pub run_screen_capture : Json → UiOutcome
  run_screen_capture _ =
      acting ControllerAction.screenshot
        (answered_by "capture the screen" shot_value controller.screenshot)

  abbrev pub run_ui_describe : Json → UiOutcome
  run_ui_describe _ = acting ControllerAction.describe_ui (
      answered_by "describe the UI" (λ elements. shown_elements (derived.elements_value elements))
        controller.describe_ui)

  abbrev pub run_ui_click : Json → UiOutcome
  run_ui_click value = or_reported (parse_args derived.click_from value) run_click

  abbrev pub run_ui_type : Json → UiOutcome
  run_ui_type value = or_reported (parse_args derived.type_from value) run_type

  abbrev pub run_ui_scroll : Json → UiOutcome
  run_ui_scroll value = or_reported (parse_args derived.scroll_from value) run_scroll

  abbrev pub run_ui_key : Json → UiOutcome
  run_ui_key value = or_reported (parse_args derived.key_from value) run_key

  -- `Tool::run` of the six tools.
  abbrev pub run_ui : UiTool → Json → UiOutcome
  run_ui screen_capture = run_screen_capture
  run_ui ui_describe = run_ui_describe
  run_ui ui_click = run_ui_click
  run_ui ui_type = run_ui_type
  run_ui ui_scroll = run_ui_scroll
  run_ui ui_key = run_ui_key
