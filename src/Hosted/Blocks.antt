-- ===== src/Hosted/Blocks.antt =====
-- What both hosted providers do with the content of a message: crates/mahi-compute/src/hosted/anthropic.rs
-- and openai.rs.
use Prim.Native.String.{String}
use mahi_ai.Prelude.{Option, none, some, List, [], ◌∷◌, ◌++◌, Text, is_empty, if◌then◌else◌}
use mahi_ai.Contracts.Data.{ContentBlock, Message, text_content}
use mahi_ai.Json.{Json, SerdeJson, string, entry, json_object, json_array, word}

-- `tool_output_to_string`
unfoldable pub tool_output_to_string : SerdeJson → Json → Text
tool_output_to_string serde (string s) = s
tool_output_to_string serde other = serde.display other

-- The values that a function makes of the blocks that it knows, in their order.
abbrev pub filter_map : (ContentBlock Json → Option Json) → List (ContentBlock Json) → List Json
filter_map f [] = []
filter_map f (b ∷ bs) = let rest = filter_map f bs in elim (f b) [ none ↦ rest | some j ↦ j ∷ rest ]

abbrev pub text_part : Text → Json
text_part t = json_object (entry "type" (word "text") ∷ entry "text" (string t) ∷ [])

-- A message of a role with one content.
abbrev pub turn : String → Json → Json
turn role content = json_object (entry "role" (word role) ∷ entry "content" content ∷ [])

-- The user's turn: its text, or its text where there is one and its images.
unfoldable pub user_turn : (images : List Json) → Message Json → Json
user_turn [] m = turn "user" (string (text_content m.content))
user_turn (i ∷ images) m =
    let said = text_content m.content in
    turn "user" (json_array ((if is_empty said then [] else text_part said ∷ []) ++ i ∷ images))
