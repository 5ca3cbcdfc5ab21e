-- ===== src/Tooling/Files/Edit/Written.antt =====
-- What an edit of crates/mahi-tooling/src/tools/file.rs writes.
use mahi_ai.Prelude.{
  ℕ, zero, ◌≤◌, ◌≡◌, refl, sym, Bool, true, false, not, ◌&&◌, [], ◌∷◌, All, Text, length, is_empty,
  nat_beq, ltb, arith, if◌then◌else◌,
}
use mahi_ai.Contracts.Result.{Result, ok, map_err, map_err_ok, guard_ok}
use mahi_ai.Json.{Json}
use mahi_ai.Tooling.Streams.{parse_args}
use mahi_ai.Tooling.Files.Path.{PathBuf}
use mahi_ai.Tooling.Files.Scope.{Disk, FileScope, resolve}
use mahi_ai.Tooling.Files.Calls.{
  FsCall, reads, writes, creates, scans, or_report-found, or_report-calls, or_refuse-calls,
}
use mahi_ai.Tooling.Files.Read.{unreadable}
use mahi_ai.Tooling.Files.Write.{unwritable}
use mahi_ai.Tooling.Files.Edit.{
  FileEditArgs, count_from, replace_from, replace_first, check_matches, check_strings, updated,
  replacements_of, report_replaced, replace_content, edit_content, edit_path, edit_checked,
  edit_args, run_edit,
}
use mahi_ai.Tooling.Files.Edit.Replaced.{Edited, replace_first-Edited, replace_from_once}

-- The content with every match replaced; where not all were asked for there is one match.
abbrev pub IsEditOf : FileEditArgs → (content edited : Text) → Type 0
IsEditOf args content edited =
    (1 ≤ count_from args.old_string zero content)
    × (edited ≡ replace_from args.old_string args.new_string zero content)
    × (args.replace_all ≡ false
        → (count_from args.old_string zero content ≡ 1)
          × Edited args.old_string args.new_string content edited)

-- A write is an edit of what the same path held; nothing is created.
abbrev pub IsEditCall : (Json → Result Text FileEditArgs) → Disk → Json → FsCall → Type 0
IsEditCall from_value disk value (writes path edited) =
    (args : FileEditArgs) × (content : Text) × (from_value value ≡ ok args)
    × (disk.read_to_string path ≡ ok content)
    × IsEditOf args content edited
IsEditCall from_value disk value (creates path) = ⊥
IsEditCall from_value disk value (reads path) = Unit
IsEditCall from_value disk value (scans path) = ⊥

check_strings_ok : (args : FileEditArgs) → check_strings args ≡ ok tt → 1 ≤ length args.old_string
check_strings_ok args h = go args.old_string (guard_ok (is_empty args.old_string) _ _ tt h).0
  where
    go : (t : Text) → is_empty t ≡ false → 1 ≤ length t
    go [] h = absurd (cc h)
    go (c ∷ cs) h = omega arith

check_matches_ok :
    (path : PathBuf) (replace_all : Bool) (n : ℕ)
    → check_matches path replace_all n ≡ ok tt
    → (1 ≤ n) × (replace_all ≡ false → n ≡ 1)
check_matches_ok path replace_all n h =
    let (some_match, rest) = guard_ok (nat_beq n 0) _ _ tt h in
    let (few, _) = guard_ok (ltb 1 n && not replace_all) _ _ tt rest in
    (ground arith, λ one. ground arith)

updated-IsEditOf :
    (args : FileEditArgs) (content : Text)
    → 1 ≤ length args.old_string
    → (1 ≤ count_from args.old_string zero content)
      × (args.replace_all ≡ false → count_from args.old_string zero content ≡ 1)
    → IsEditOf args content (updated args content)
updated-IsEditOf args content long (found, once) = go args.replace_all once
  where
    go :
        (b : Bool)
        → (b ≡ false → count_from args.old_string zero content ≡ 1)
        → (1 ≤ count_from args.old_string zero content)
          × ((if b
                then replace_from args.old_string args.new_string zero content
                else replace_first args.old_string args.new_string content)
              ≡ replace_from args.old_string args.new_string zero content)
          × (b ≡ false
              → (count_from args.old_string zero content ≡ 1)
                × Edited args.old_string args.new_string content (
                    if b
                    then replace_from args.old_string args.new_string zero content
                    else replace_first args.old_string args.new_string content))
    go true once = (found, refl, λ h. absurd (cc h))
    go false once = (
      found,
      sym (replace_from_once args.old_string args.new_string content long (once refl)),
      λ h. (
        once refl,
        replace_first-Edited args.old_string args.new_string content (λ z. omega arith),
      ),
    )

-- Every write of an edit replaces the file's content by the content with all matches of the old text
-- replaced by the new one, of which there is at least one, and exactly one unless all were asked for:
-- then it stands between what is kept before it and after it.
pub run_edit-IsEditCall :
    (from_value : Json → Result Text FileEditArgs) (disk : Disk) (scope : FileScope) (value : Json)
    → All (IsEditCall from_value disk value) (run_edit from_value disk scope value).calls
unfolding run_edit
run_edit-IsEditCall from_value disk scope value =
    let P : FsCall → Type 0 = IsEditCall from_value disk value in
    or_report-found P (parse_args from_value value) (edit_args disk scope) λ args parsed.
      or_report-found P (check_strings args) (edit_checked disk scope args) λ u named.
        or_refuse-calls P (resolve disk scope args.path) (edit_path disk args) λ path resolved. (
          tt,
          or_report-found P (map_err (unreadable path) (disk.read_to_string path))
              (edit_content disk args path)
              λ content read.
                or_report-found P
                  (check_matches path args.replace_all (count_from args.old_string zero content))
                  (replace_content disk args path content)
                  λ v matched. (
                    (
                      args,
                      content,
                      map_err_ok _ (from_value value) args parsed,
                      map_err_ok _ (disk.read_to_string path) content read,
                      updated-IsEditOf args content (check_strings_ok args named) (
                          check_matches_ok path args.replace_all
                            (count_from args.old_string zero content) matched),
                    ),
                    or_report-calls P
                        (map_err (unwritable path) (disk.write path (updated args content)))
                        (report_replaced path (replacements_of args content)) (λ _. tt),
                  ),
        )
