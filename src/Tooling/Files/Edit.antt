-- ===== src/Tooling/Files/Edit.antt =====
-- `FileEditTool` of crates/mahi-tooling/src/tools/file.rs.
pub mod Replaced
pub mod Written
use mahi_ai.Prelude.{
  ℕ, zero, suc, ◌+◌, ◌-◌, Bool, true, false, not, ◌&&◌, Option, none, some, List, [], ◌∷◌, ◌++◌,
  Text, text, text_beq, length, is_empty, nat_beq, ltb, if◌then◌else◌,
}
use mahi_ai.Prelude.Chars.{starts_with, decimal}
use mahi_ai.Contracts.Result.{Result, ok, err, ◌>>=◌, map_err}
use mahi_ai.Contracts.Tooling.{ToolCategory, DestructiveLevel, ToolDescriptor}
use mahi_ai.Json.{Json, boolean, natural, string, entry, json_object, json_array, word}
use mahi_ai.Tooling.Streams.{ok_result, parse_args}
use mahi_ai.Tooling.Files.Path.{PathBuf}
use mahi_ai.Tooling.Files.Scope.{Disk, FileScope, display, resolve}
use mahi_ai.Tooling.Files.Calls.{
  Outcome, reads, writes, silent, after, or_report, or_refuse, file_modes, typed,
  path_schema_property,
}
use mahi_ai.Tooling.Files.Read.{unreadable}
use mahi_ai.Tooling.Files.Write.{defaulting, unwritable}

-- `replace_all` is false where the arguments leave it out.
pub record FileEditArgs : Type 0 where
  pub path : Text
  pub old_string : Text
  pub new_string : Text
  pub replace_all : Bool

abbrev pub edit_descriptor : ToolDescriptor Json
edit_descriptor = record {
  id = text "file_edit";
  display_name = text "Edit File";
  category = ToolCategory.built_in;
  available_in_modes = file_modes;
  required_permissions = text "fs.write" ∷ [];
  input_schema = json_object (
      entry "type" (word "object")
      ∷ entry "properties" (
          json_object (
            entry "path" path_schema_property
            ∷ entry "old_string" (typed "string")
            ∷ entry "new_string" (typed "string")
            ∷ entry "replace_all" (defaulting (word "boolean") false)
            ∷ []))
      ∷ entry "required" (json_array (word "path" ∷ word "old_string" ∷ word "new_string" ∷ []))
      ∷ []);
  output_schema = json_object (
      entry "type" (word "object")
      ∷ entry "properties" (
          json_object (entry "path" (typed "string") ∷ entry "replacements" (typed "integer") ∷ []))
      ∷ []);
  requires_approval = true;
  destructive_level = DestructiveLevel.high;
}

-- `content.matches(old).count()` of a text that is not empty: matches do not overlap, and `skip`
-- characters belong to the match before.
unfoldable pub count_from : (old : Text) (skip : ℕ) → Text → ℕ
count_from old skip [] = 0
count_from old (suc skip) (c ∷ cs) = count_from old skip cs
count_from old zero (c ∷ cs) =
    let found = count_from old (length old - 1) cs in
    let on = count_from old zero cs in if starts_with old (c ∷ cs) then suc found else on

-- `content.replace(old, new)`
unfoldable pub replace_from : (old new : Text) (skip : ℕ) → Text → Text
replace_from old new skip [] = []
replace_from old new (suc skip) (c ∷ cs) = replace_from old new skip cs
replace_from old new zero (c ∷ cs) =
    let found = replace_from old new (length old - 1) cs in
    let on = replace_from old new zero cs in
    if starts_with old (c ∷ cs) then new ++ found else c ∷ on

abbrev pub drop_text : ℕ → Text → Text
drop_text zero t = t
drop_text (suc n) [] = []
drop_text (suc n) (c ∷ cs) = drop_text n cs

-- `content.replacen(old, new, 1)`
unfoldable pub replace_first : (old new : Text) → Text → Text
replace_first old new [] = []
replace_first old new (c ∷ cs) =
    let on = replace_first old new cs in
    if starts_with old (c ∷ cs) then new ++ drop_text (length old) (c ∷ cs) else c ∷ on

abbrev pub not_found : PathBuf → Text
not_found path = text "old_string not found in " ++ display path

abbrev pub ambiguous : ℕ → PathBuf → Text
ambiguous occurrences path =
    text "old_string matches "
    ++ decimal occurrences
    ++ text " times in "
    ++ display path
    ++ text "; pass replace_all=true or a more specific old_string"

-- The guards on the number of matches.
abbrev pub check_matches : PathBuf → Bool → ℕ → Result Text (Unit {0})
check_matches path replace_all occurrences =
    if nat_beq occurrences 0
    then err (not_found path)
    else if ltb 1 occurrences && not replace_all
    then err (ambiguous occurrences path)
    else ok tt

-- The new content, and how many matches it replaces.
abbrev pub updated : FileEditArgs → Text → Text
updated args content =
    if args.replace_all
    then replace_from args.old_string args.new_string zero content
    else replace_first args.old_string args.new_string content

abbrev pub replacements_of : FileEditArgs → Text → ℕ
replacements_of args content =
    if args.replace_all then count_from args.old_string zero content else 1

abbrev pub report_replaced : PathBuf → ℕ → Unit {0} → Outcome
report_replaced path replacements _ = silent (
    ok_result (
      json_object
        (entry "path" (string (display path)) ∷ entry "replacements" (natural replacements) ∷ [])))

abbrev pub write_updated : Disk → PathBuf → Text → ℕ → Outcome
write_updated disk path content replacements = after (writes path content) (
    or_report (map_err (unwritable path) (disk.write path content))
      (report_replaced path replacements))

-- The write after the guards.
abbrev pub replace_content : Disk → FileEditArgs → PathBuf → Text → Unit {0} → Outcome
replace_content disk args path content _ =
    write_updated disk path (updated args content) (replacements_of args content)

abbrev pub edit_content : Disk → FileEditArgs → PathBuf → Text → Outcome
edit_content disk args path content =
    or_report (check_matches path args.replace_all (count_from args.old_string zero content))
      (replace_content disk args path content)

abbrev pub edit_path : Disk → FileEditArgs → PathBuf → Outcome
edit_path disk args path =
    after (reads path) (
      or_report (map_err (unreadable path) (disk.read_to_string path))
        (edit_content disk args path))

-- The guards on the arguments.
abbrev pub check_strings : FileEditArgs → Result Text (Unit {0})
check_strings args =
    if is_empty args.old_string
    then err (text "old_string must not be empty")
    else if text_beq args.old_string args.new_string
    then err (text "old_string and new_string are identical")
    else ok tt

abbrev pub edit_checked : Disk → FileScope → FileEditArgs → Unit {0} → Outcome
edit_checked disk scope args _ = or_refuse (resolve disk scope args.path) (edit_path disk args)

abbrev pub edit_args : Disk → FileScope → FileEditArgs → Outcome
edit_args disk scope args = or_report (check_strings args) (edit_checked disk scope args)

unfoldable pub run_edit : (Json → Result Text FileEditArgs) → Disk → FileScope → Json → Outcome
run_edit from_value disk scope value =
    or_report (parse_args from_value value) (edit_args disk scope)
