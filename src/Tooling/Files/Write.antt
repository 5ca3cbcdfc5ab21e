-- ===== src/Tooling/Files/Write.antt =====
-- `FileWriteTool` of crates/mahi-tooling/src/tools/file.rs.
use mahi_ai.Prelude.{ℕ, Bool, true, Option, none, some, [], ◌∷◌, ◌++◌, Text, text, if◌then◌else◌}
use mahi_ai.Contracts.Result.{Result, map_err}
use mahi_ai.Contracts.Tooling.{ToolCategory, DestructiveLevel, ToolDescriptor}
use mahi_ai.Json.{Json, boolean, natural, string, entry, json_object, json_array, word}
use mahi_ai.Tooling.Streams.{ok_result, parse_args}
use mahi_ai.Tooling.Files.Path.{PathBuf, root_dir, pop}
use mahi_ai.Tooling.Files.Scope.{Disk, FileScope, display, resolve}
use mahi_ai.Tooling.Files.Calls.{
  Outcome, writes, creates, silent, after, or_report, or_refuse, file_modes, typed,
  path_schema_property,
}
use mahi_ai.Tooling.Files.Bytes.{byte_len}

-- `create_dirs` is true where the arguments leave it out (`default_true`).
pub record FileWriteArgs : Type 0 where
  pub path : Text
  pub content : Text
  pub create_dirs : Bool

abbrev pub defaulting : (type : Json) → Bool → Json
defaulting kind value = json_object (entry "type" kind ∷ entry "default" (boolean value) ∷ [])

abbrev pub write_descriptor : ToolDescriptor Json
write_descriptor = record {
  id = text "file_write";
  display_name = text "Write File";
  category = ToolCategory.built_in;
  available_in_modes = file_modes;
  required_permissions = text "fs.write" ∷ [];
  input_schema = json_object (
      entry "type" (word "object")
      ∷ entry "properties" (
          json_object (
            entry "path" path_schema_property
            ∷ entry "content" (typed "string")
            ∷ entry "create_dirs" (defaulting (word "boolean") true)
            ∷ []))
      ∷ entry "required" (json_array (word "path" ∷ word "content" ∷ []))
      ∷ []);
  output_schema = json_object (
      entry "type" (word "object")
      ∷ entry "properties" (
          json_object
            (entry "path" (typed "string") ∷ entry "bytes_written" (typed "integer") ∷ []))
      ∷ []);
  requires_approval = true;
  destructive_level = DestructiveLevel.high;
}

-- `Path::parent`
abbrev pub parent : PathBuf → Option PathBuf
parent [] = none
parent (root_dir ∷ []) = none
parent path = some (pop path)

abbrev pub dirs_error : PathBuf → Text → Text
dirs_error path e = text "failed to create parent dirs for " ++ display path ++ text ": " ++ e

-- The message of a write that fails.
abbrev pub unwritable : PathBuf → Text → Text
unwritable path e = text "failed to write " ++ display path ++ text ": " ++ e

abbrev pub report_written : PathBuf → ℕ → Unit {0} → Outcome
report_written path bytes_written _ = silent (
    ok_result (
      json_object (
        entry "path" (string (display path)) ∷ entry "bytes_written" (natural bytes_written) ∷ [])))

abbrev pub write_content : Disk → PathBuf → Text → Outcome
write_content disk path content = after (writes path content) (
    or_report (map_err (unwritable path) (disk.write path content))
      (report_written path (byte_len content)))

-- `if let Some(parent) = path.parent()`
abbrev pub create_parent : Disk → PathBuf → Option PathBuf → (Unit {0} → Outcome) → Outcome
create_parent disk path none next = next tt
create_parent disk path (some dir) next =
    after (creates dir) (or_report (map_err (dirs_error path) (disk.create_dir_all dir)) next)

abbrev pub write_path : Disk → FileWriteArgs → PathBuf → Outcome
write_path disk args path =
    if args.create_dirs
    then create_parent disk path (parent path) (λ _. write_content disk path args.content)
    else write_content disk path args.content

abbrev pub write_args : Disk → FileScope → FileWriteArgs → Outcome
write_args disk scope args = or_refuse (resolve disk scope args.path) (write_path disk args)

unfoldable pub run_write : (Json → Result Text FileWriteArgs) → Disk → FileScope → Json → Outcome
run_write from_value disk scope value =
    or_report (parse_args from_value value) (write_args disk scope)
