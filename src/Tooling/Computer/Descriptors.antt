-- ===== src/Tooling/Computer/Descriptors.antt =====
-- The descriptors of the tools of crates/mahi-tooling/src/tools/computer_use.rs.
use Prim.Native.String.{String}
use mahi_ai.Prelude.{Bool, true, false, List, [], ◌∷◌, Text, text}
use mahi_ai.Contracts.Types.{ComputeMode}
use mahi_ai.Contracts.Tooling.{ToolCategory, DestructiveLevel, ToolDescriptor}
use mahi_ai.Json.{Json, entry, json_object, json_array, word}
use mahi_ai.Tooling.Files.Calls.{typed, described}
use mahi_ai.Tooling.Computer.{
  UiTool, screen_capture, ui_describe, ui_click, ui_type, ui_scroll, ui_key,
}

abbrev pub computer_modes : List ComputeMode
computer_modes = ComputeMode.mac_lan ∷ ComputeMode.mac_remote ∷ []

abbrev pub observe_permissions : List Text
observe_permissions = text "computer.observe" ∷ []

abbrev pub input_permissions : List Text
input_permissions = text "computer.input" ∷ []

-- The schema of an object with these properties, and with the ones that are required.
abbrev pub object_of : List (Text × Json) → Json
object_of properties =
    json_object (entry "type" (word "object") ∷ entry "properties" (json_object properties) ∷ [])

abbrev pub requiring : List (Text × Json) → List Json → Json
requiring properties required = json_object (
    entry "type" (word "object")
    ∷ entry "properties" (json_object properties)
    ∷ entry "required" (json_array required)
    ∷ [])

-- The descriptor of a tool by what differs among the six.
abbrev pub computer_tool :
    (id display_name : String)
    → (permissions : List Text) → (input output : Json) → Bool
    → DestructiveLevel
    → ToolDescriptor Json
computer_tool id name permissions input output approval level = record {
  id = text id;
  display_name = text name;
  category = ToolCategory.computer_use;
  available_in_modes = computer_modes;
  required_permissions = permissions;
  input_schema = input;
  output_schema = output;
  requires_approval = approval;
  destructive_level = level;
}

abbrev pub button_schema : Json
button_schema = json_object (
    entry "type" (word "string")
    ∷ entry "enum" (json_array (word "left" ∷ word "right" ∷ word "middle" ∷ []))
    ∷ entry "default" (word "left")
    ∷ [])

abbrev pub elements_schema : Json
elements_schema = json_object (
    entry "type" (word "array")
    ∷ entry "items" (
        object_of (
          entry "role" (typed "string")
          ∷ entry "label"
              (json_object (entry "type" (json_array (word "string" ∷ word "null" ∷ [])) ∷ []))
          ∷ entry "bounds" (typed "object")
          ∷ entry "focused" (typed "boolean")
          ∷ []))
    ∷ [])

abbrev pub screen_capture_descriptor : ToolDescriptor Json
screen_capture_descriptor =
    computer_tool "screen_capture" "Capture Screen" observe_permissions (object_of [])
      (object_of (
        entry "width" (typed "integer")
        ∷ entry "height" (typed "integer")
        ∷ entry "description" (typed "string")
        ∷ entry "image_hex" (typed "string")
        ∷ []))
      false DestructiveLevel.low

abbrev pub ui_describe_descriptor : ToolDescriptor Json
ui_describe_descriptor =
    computer_tool "ui_describe" "Describe UI" observe_permissions (object_of [])
      (object_of (entry "elements" elements_schema ∷ [])) false DestructiveLevel.low

abbrev pub ui_click_descriptor : ToolDescriptor Json
ui_click_descriptor =
    computer_tool "ui_click" "Click" input_permissions
      (requiring
        (entry "x" (typed "integer")
          ∷ entry "y" (typed "integer")
          ∷ entry "button" button_schema
          ∷ [])
        (word "x" ∷ word "y" ∷ []))
      (object_of (entry "clicked" (typed "boolean") ∷ [])) true DestructiveLevel.high

abbrev pub ui_type_descriptor : ToolDescriptor Json
ui_type_descriptor =
    computer_tool "ui_type" "Type Text" input_permissions
      (requiring (entry "text" (typed "string") ∷ []) (word "text" ∷ []))
      (object_of (entry "typed_chars" (typed "integer") ∷ [])) true DestructiveLevel.high

abbrev pub ui_scroll_descriptor : ToolDescriptor Json
ui_scroll_descriptor =
    computer_tool "ui_scroll" "Scroll" input_permissions
      (requiring
        (entry "dx" (described "integer" "Horizontal delta (positive = right)")
          ∷ entry "dy" (described "integer" "Vertical delta (positive = down)")
          ∷ [])
        (word "dx" ∷ word "dy" ∷ []))
      (object_of (entry "scrolled" (typed "boolean") ∷ [])) false DestructiveLevel.low

abbrev pub ui_key_descriptor : ToolDescriptor Json
ui_key_descriptor =
    computer_tool "ui_key" "Press Keys" input_permissions
      (requiring
        (entry "combo" (described "string" "Key combo like cmd+s, enter, ctrl+shift+t") ∷ [])
        (word "combo" ∷ []))
      (object_of (entry "pressed" (typed "boolean") ∷ [])) true DestructiveLevel.high

abbrev pub ui_descriptor : UiTool → ToolDescriptor Json
ui_descriptor screen_capture = screen_capture_descriptor
ui_descriptor ui_describe = ui_describe_descriptor
ui_descriptor ui_click = ui_click_descriptor
ui_descriptor ui_type = ui_type_descriptor
ui_descriptor ui_scroll = ui_scroll_descriptor
ui_descriptor ui_key = ui_key_descriptor
