-- ===== src/Tooling/Computer/Examples.antt =====
-- Runs of the tools of crates/mahi-tooling/src/tools/computer_use.rs on a screen that answers every call.
use mahi_ai.Prelude.{◌≡◌, refl, Bool, true, false, [], ◌∷◌, All, text}
use mahi_ai.Prelude.Int.{pos}
use mahi_ai.Contracts.Result.{ok}
use mahi_ai.Json.{null, word}
use mahi_ai.Tooling.Streams.{tool_error}
use mahi_ai.Tooling.Computer.{
  MouseButton, ComputerController, ControllerAction, Derived, ui_click, ui_type, ui_scroll, ui_key,
}
use mahi_ai.Tooling.Computer.Run.{sensitive_refusal, quiet, run_ui}
use mahi_ai.Prelude.Chars.{trim, is_whitespace}
use mahi_ai.Tooling.Computer.Sensitive.{IsAllowed, permitted, wanted, run_ui-IsAllowed}

abbrev derived : Derived
derived = record {
  click_from = λ _. ok (pos 3, pos 4, MouseButton.left);
  type_from = λ _. ok (text "hi");
  scroll_from = λ _. ok (pos 0, pos 9);
  key_from = λ _. ok (text " ");
  elements_value = λ _. ok null;
  int_value = λ _. null;
  display = λ _. text "e";
}

abbrev screen : Bool → ComputerController
screen sensitive = record {
  screenshot =
      ok record { bytes = 137 ∷ 80 ∷ []; width = 1280; height = 800; description = text "d" };
  describe_ui = ok [];
  click = λ _ _ _. ok tt;
  move_mouse = λ _ _. ok tt;
  type_text = λ _. ok tt;
  scroll = λ _ _. ok tt;
  key = λ _. ok tt;
  is_sensitive_context = sensitive;
}

run_ui_clicks :
    (run_ui derived (screen false) ui_click null).actions
    ≡ ControllerAction.click (pos 3) (pos 4) MouseButton.left ∷ []
run_ui_clicks = refl

run_ui_refuses :
    run_ui derived (screen true) ui_type null ≡ quiet (tool_error sensitive_refusal false)
run_ui_refuses = refl

run_ui_scrolls :
    (run_ui derived (screen true) ui_scroll null).actions
    ≡ ControllerAction.scroll (pos 0) (pos 9) ∷ []
run_ui_scrolls = refl

run_ui_presses_nothing : (run_ui derived (screen false) ui_key null).actions ≡ []
unfolding trim is_whitespace
run_ui_presses_nothing = refl

run_ui-IsAllowed_example :
    All
      (IsAllowed (screen false) ui_click)
      (run_ui derived (screen false) ui_click (word "x")).actions
    × ((run_ui derived (screen false) ui_click (word "x")).actions
        ≡ permitted false (wanted derived ui_click (word "x")))
run_ui-IsAllowed_example = run_ui-IsAllowed derived (screen false) ui_click (word "x")
