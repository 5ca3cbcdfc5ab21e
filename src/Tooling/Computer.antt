-- ===== src/Tooling/Computer.antt =====
-- crates/mahi-tooling/src/tools/computer_use.rs: the tools that watch and drive the screen, over the hook
-- of computer.rs. An outcome lists the calls of the controller that look at the screen or act on it.
pub mod Descriptors
pub mod Run
pub mod Sensitive
mod Examples
use mahi_ai.Prelude.{ℕ, Bool, Option, List, Text}
use mahi_ai.Prelude.Int.{ℤ}
use mahi_ai.Contracts.Errors.{ContractError}
use mahi_ai.Contracts.Result.{Result}
use mahi_ai.Json.{Json}
use mahi_ai.Tooling.Streams.{Events}

pub record Screenshot : Type 0 where
  pub bytes : List ℕ
  pub width : ℕ
  pub height : ℕ
  pub description : Text

pub record UiBounds : Type 0 where
  pub x : ℤ
  pub y : ℤ
  pub width : ℕ
  pub height : ℕ

pub record UiElement : Type 0 where
  pub role : Text
  pub label : Option Text
  pub bounds : UiBounds
  pub focused : Bool

pub data MouseButton : Type 0 where
  left right middle : MouseButton

-- `trait ComputerController` during one call of a tool.
pub record ComputerController : Type 0 where
  pub screenshot : Result ContractError Screenshot
  pub describe_ui : Result ContractError (List UiElement)
  pub click : ℤ → ℤ → MouseButton → Result ContractError (Unit {0})
  pub move_mouse : ℤ → ℤ → Result ContractError (Unit {0})
  pub type_text : Text → Result ContractError (Unit {0})
  pub scroll : ℤ → ℤ → Result ContractError (Unit {0})
  pub key : Text → Result ContractError (Unit {0})
  pub is_sensitive_context : Bool

pub data ControllerAction : Type 0 where
  screenshot describe_ui : ControllerAction
  click : ℤ → ℤ → MouseButton → ControllerAction
  move_mouse : ℤ → ℤ → ControllerAction
  type_text : Text → ControllerAction
  scroll : ℤ → ℤ → ControllerAction
  key : Text → ControllerAction

-- What `serde` derives: the readers of the arguments and the values of elements; the value of a number
-- that may be negative; and the `Display` of an error.
pub record Derived : Type 0 where
  pub click_from : Json → Result Text (ℤ × ℤ × MouseButton)
  pub type_from : Json → Result Text Text
  pub scroll_from : Json → Result Text (ℤ × ℤ)
  pub key_from : Json → Result Text Text
  pub elements_value : List UiElement → Result Text Json
  pub int_value : ℤ → Json
  pub display : ContractError → Text

pub record UiOutcome : Type 0 where
  pub actions : List ControllerAction
  pub events : Events Json

pub data UiTool : Type 0 where
  screen_capture ui_describe ui_click ui_type ui_scroll ui_key : UiTool
