-- ===== src/Tooling/Files/Examples.antt =====
-- A small file system below `/r`, with a link out of it, and runs of the file tools on it.
use mahi_ai.Prelude.Chars.{lines_from}
use mahi_ai.Prelude.{
  zero, ◌≤◌, ◌≡◌, refl, Bool, true, false, none, some, [], ◌∷◌, ◌++◌, All, Text, text, text_beq,
  text_eq, if◌then◌else◌, arith,
}
use mahi_ai.Contracts.Result.{ok, err}
use mahi_ai.Json.{Json, entry, json_object, word, index, as_str, unwrap_or}
use mahi_ai.Tooling.Files.Path.{PathBuf, root_dir, normal, components, normalize}
use mahi_ai.Tooling.Files.Scope.{FileType, Disk, FileScope, violation, resolve, display}
use mahi_ai.Tooling.Files.Calls.{reads, writes, scans}
use mahi_ai.Tooling.Files.Bytes.{byte_len}
use mahi_ai.Tooling.Files.Bytes.Cut.{Fits}
use mahi_ai.Tooling.Files.Read.{body_of}
use mahi_ai.Tooling.Files.Read.Given.{body_of-Fits}
use mahi_ai.Tooling.Files.Edit.{run_edit, count_from, replace_from, replace_first}
use mahi_ai.Tooling.Files.Edit.Written.{IsEditCall, run_edit-IsEditCall}
use mahi_ai.Tooling.Files.Search.{
  Walk, started_walk, search_tree, walk_from, visit_all, search_lines,
}
use mahi_ai.Tooling.Files.Search.Ends.{IsWalked, search_tree-ends}
use mahi_ai.Tooling.Files.Tools.{Readers, file_edit, descriptor_of_tool, run_tool}
use mahi_ai.Tooling.Files.Sandbox.{IsConfined, run_tool-IsConfined}
use mahi_ai.Tooling.Files.Approval.{changes, run_tool-requires_approval}

abbrev top : PathBuf
top = root_dir ∷ normal (text "r") ∷ []

abbrev note : PathBuf
note = top ++ normal (text "a.txt") ∷ []

abbrev link : PathBuf
link = top ++ normal (text "link") ∷ []

abbrev same_path : PathBuf → PathBuf → Bool
same_path a b = text_beq (display a) (display b)

abbrev note_text : Text
note_text = text "one two one"

-- `/r/link` is a link to the directory `/out`, which is empty.
abbrev disk : Disk
disk = record {
  current_dir = none;
  exists = λ p.
      if text_beq (display p) (text "/r/a.txt")
      then true
      else text_beq (display p) (text "/r/link");
  canonicalize =
      λ p. if text_beq (display p) (text "/r/link") then ok (components (text "/out")) else ok p;
  read_to_string = λ p.
      if text_beq (display p) (text "/r/a.txt") then ok note_text else err (text "no such file");
  create_dir_all = λ p. ok tt;
  write = λ p t. ok tt;
  read_dir = λ p.
      if text_beq (display p) (text "/r")
      then some (
          record { file_name = text "a.txt"; file_type = some FileType.file; len = some 11 }
          ∷ record { file_name = text "link"; file_type = some FileType.symlink; len = some 0 }
          ∷ [])
      else none;
}

abbrev scope : FileScope
scope = record { root = top }

abbrev text_of : Text → Json → Text
text_of key value = unwrap_or [] (as_str (index value key))

abbrev readers : Readers
readers = record {
  read_from = λ v. ok (record { path = text_of (text "path") v; max_bytes = none });
  write_from = λ v. ok (record {
    path = text_of (text "path") v;
    content = text_of (text "content") v;
    create_dirs = true;
  });
  edit_from = λ v. ok (record {
    path = text_of (text "path") v;
    old_string = text_of (text "old") v;
    new_string = text_of (text "new") v;
    replace_all = false;
  });
  search_from =
      λ v. ok (record { query = text_of (text "query") v; path = none; max_results = none });
}

escape : resolve disk scope (text "../etc/passwd") ≡ err violation
unfolding resolve components normalize
escape = refl

link_refused : resolve disk scope (text "link") ≡ err violation
unfolding resolve components normalize display
link_refused = refl

-- A new file below a link to a directory outside of the root is let through.
below_link : resolve disk scope (text "link/new.txt") ≡ ok (link ++ normal (text "new.txt") ∷ [])
unfolding resolve components normalize display
below_link = refl

abbrev edit_two : Json
edit_two =
    json_object
      (entry "path" (word "./x/../a.txt") ∷ entry "old" (word "two") ∷ entry "new" (word "2") ∷ [])

edited_note :
    (run_tool readers disk scope file_edit edit_two).calls
    ≡ reads note ∷ writes note (text "one 2 one") ∷ []
unfolding run_edit resolve components normalize display count_from replace_first
edited_note = refl

abbrev edit_one : Json
edit_one =
    json_object
      (entry "path" (word "a.txt") ∷ entry "old" (word "one") ∷ entry "new" (word "1") ∷ [])

-- Two matches are one too many.
ambiguous_edit : (run_tool readers disk scope file_edit edit_one).calls ≡ reads note ∷ []
unfolding run_edit resolve components normalize display count_from replace_first
ambiguous_edit = refl

all_replaced : replace_from (text "one") (text "1") zero note_text ≡ text "1 two 1"
unfolding replace_from
all_replaced = refl

-- Five bytes of `aé€` are the two first characters and a part of the third.
cut_note : body_of 5 (0x61 ∷ 0xe9 ∷ 0x20ac ∷ []) ≡ 0x61 ∷ 0xe9 ∷ []
cut_note = refl

abbrev found_walk : Walk
found_walk = record {
  matches = record { path = note; line = some (1, note_text) } ∷ [];
  stack = [];
  visited = 2;
  calls = scans top ∷ scans note ∷ [];
  truncated = false;
}

found_two : walk_from (text "two") 50 disk 3 (started_walk top) ≡ some found_walk
unfolding walk_from visit_all search_lines lines_from display
found_two = refl

run_tool-IsConfined_example :
    All (IsConfined disk scope) (run_tool readers disk scope file_edit edit_two).calls
run_tool-IsConfined_example = run_tool-IsConfined readers disk scope file_edit edit_two

run_tool-requires_approval_example :
    All
      (λ call. changes call ≡ true → (descriptor_of_tool file_edit).requires_approval ≡ true)
      (run_tool readers disk scope file_edit edit_two).calls
run_tool-requires_approval_example =
    run_tool-requires_approval readers disk scope file_edit edit_two

run_edit-IsEditCall_example :
    All
      (IsEditCall readers.edit_from disk edit_two)
      (run_edit readers.edit_from disk scope edit_two).calls
run_edit-IsEditCall_example = run_edit-IsEditCall readers.edit_from disk scope edit_two

body_of-Fits_example :
    Fits (0x61 ∷ 0xe9 ∷ 0x20ac ∷ []) (0x61 ∷ 0xe9 ∷ []) 5
    × (byte_len (0x61 ∷ 0xe9 ∷ 0x20ac ∷ []) ≤ 5
        → body_of 5 (0x61 ∷ 0xe9 ∷ 0x20ac ∷ []) ≡ 0x61 ∷ 0xe9 ∷ 0x20ac ∷ [])
body_of-Fits_example = body_of-Fits 5 (0x61 ∷ 0xe9 ∷ 0x20ac ∷ [])

search_tree-ends_example :
    (done : Walk) × (search_tree (text "two") 50 disk top ≡ some done) × IsWalked top 50 done
search_tree-ends_example = search_tree-ends top 50 (text "two") disk (omega arith)
