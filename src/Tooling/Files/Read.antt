-- ===== src/Tooling/Files/Read.antt =====
-- `FileReadTool` of crates/mahi-tooling/src/tools/file.rs.
pub mod Given
use mahi_ai.Prelude.{
  ℕ, ◌*◌, Bool, false, Option, none, some, List, [], ◌∷◌, ◌++◌, Text, text, ltb, if◌then◌else◌,
}
use mahi_ai.Contracts.Result.{Result, ok}
use mahi_ai.Contracts.Tooling.{ToolCategory, DestructiveLevel, ToolDescriptor, ToolEvent}
use mahi_ai.Json.{Json, natural, string, entry, json_object, json_array, word, unwrap_or}
use mahi_ai.Tooling.Streams.{Events, parse_args}
use mahi_ai.Tooling.Files.Path.{PathBuf}
use mahi_ai.Tooling.Files.Scope.{Disk, FileScope, display, resolve}
use mahi_ai.Tooling.Files.Calls.{
  Outcome, reads, silent, after, or_report, or_refuse, file_modes, typed, described,
  path_schema_property,
}
use mahi_ai.Tooling.Files.Bytes.{byte_len, back_to_boundary, truncate}
use mahi_ai.Contracts.Result.{map_err}

pub record FileReadArgs : Type 0 where
  pub path : Text
  pub max_bytes : Option ℕ

-- `MAX_READ_BYTES`
abbrev pub max_read_bytes : ℕ
max_read_bytes = 256 * 1024

abbrev pub read_descriptor : ToolDescriptor Json
read_descriptor = record {
  id = text "file_read";
  display_name = text "Read File";
  category = ToolCategory.built_in;
  available_in_modes = file_modes;
  required_permissions = text "fs.read" ∷ [];
  input_schema = json_object (
      entry "type" (word "object")
      ∷ entry "properties" (
          json_object (
            entry "path" path_schema_property
            ∷ entry "max_bytes" (described "integer" "Optional cap on returned bytes")
            ∷ []))
      ∷ entry "required" (json_array (word "path" ∷ []))
      ∷ []);
  output_schema = json_object (
      entry "type" (word "object")
      ∷ entry "properties" (
          json_object (
            entry "path" (typed "string")
            ∷ entry "content" (typed "string")
            ∷ entry "bytes" (typed "integer")
            ∷ []))
      ∷ []);
  requires_approval = false;
  destructive_level = DestructiveLevel.low;
}

-- The text that is given back of a file's content.
abbrev pub body_of : ℕ → Text → Text
body_of cap content =
    if ltb cap (byte_len content) then truncate content (back_to_boundary content cap) else content

abbrev pub read_result : PathBuf → ℕ → Text → Events Json
read_result path cap content =
    ok (
      ToolEvent.result
        (json_object (
          entry "path" (string (display path))
          ∷ entry "content" (string (body_of cap content))
          ∷ entry "bytes" (natural (byte_len (body_of cap content)))
          ∷ []))
        (ltb cap (byte_len content)))
    ∷ []

-- The message of a read that fails.
abbrev pub unreadable : PathBuf → Text → Text
unreadable path e = text "failed to read " ++ display path ++ text ": " ++ e

abbrev pub give_content : FileReadArgs → PathBuf → Text → Outcome
give_content args path content =
    silent (read_result path (unwrap_or max_read_bytes args.max_bytes) content)

abbrev pub read_path : Disk → FileReadArgs → PathBuf → Outcome
read_path disk args path =
    after (reads path)
      (or_report (map_err (unreadable path) (disk.read_to_string path)) (give_content args path))

abbrev pub read_args : Disk → FileScope → FileReadArgs → Outcome
read_args disk scope args = or_refuse (resolve disk scope args.path) (read_path disk args)

unfoldable pub run_read : (Json → Result Text FileReadArgs) → Disk → FileScope → Json → Outcome
run_read from_value disk scope value =
    or_report (parse_args from_value value) (read_args disk scope)
