-- ===== src/Tooling/Files/Sandbox.antt =====
-- The four file tools of crates/mahi-tooling/src/tools/file.rs together: what they touch of the file
-- system, and what they ask to be approved.
use Prim.Native.Nat.{max}
use mahi_ai.Prelude.{
  ℕ, zero, ◌≡◌, refl, sym, ap, ◌∙◌, Option, none, some, List, [], ◌∷◌, ◌++◌, append-nil,
  append_assoc, All, Text, if_both, arith,
}
use mathlib.Core.Path.{subst}
use mahi_ai.Contracts.Result.{ok, map_err}
use mahi_ai.Json.{Json, unwrap_or}
use mahi_ai.Tooling.Streams.{parse_args}
use mahi_ai.Tooling.Files.Path.{PathBuf}
use mahi_ai.Tooling.Files.Scope.{Disk, FileScope, resolve}
use mahi_ai.Tooling.Files.Scope.Confined.{Inside, IsResolved, resolve-IsResolved}
use mahi_ai.Tooling.Files.Calls.{
  FsCall, Outcome, reads, writes, creates, scans, or_report-calls, or_refuse-calls,
}
use mahi_ai.Tooling.Files.Bytes.{byte_len}
use mahi_ai.Tooling.Files.Read.{
  FileReadArgs, unreadable, give_content, read_path, read_args, run_read,
}
use mahi_ai.Tooling.Files.Write.{
  FileWriteArgs, parent, dirs_error, unwritable, report_written, write_content, create_parent,
  write_path, write_args, run_write,
}
use mahi_ai.Tooling.Files.Edit.{
  FileEditArgs, count_from, check_matches, check_strings, updated, replacements_of, report_replaced,
  replace_content, edit_content, edit_path, edit_checked, edit_args, run_edit,
}
use mahi_ai.Tooling.Files.Search.{
  FileSearchArgs, start_of, search_result, search_from, check_query, search_checked, search_args,
  run_search,
}
use mahi_ai.Tooling.Files.Tools.{
  FileTool, Readers, file_read, file_write, file_edit, file_search, run_tool,
}
use mahi_ai.Tooling.Files.Search.Bounds.{IsScanOf}
use mahi_ai.Tooling.Files.Search.Ends.{search_tree-ends}

-- A call on a path that the scope lets through, on the parent of one, or below the root.
abbrev pub IsConfined : Disk → FileScope → FsCall → Type 0
IsConfined disk scope (reads path) = IsResolved disk scope path
IsConfined disk scope (writes path content) = IsResolved disk scope path
IsConfined disk scope (creates dir) =
    (path : PathBuf) × IsResolved disk scope path × (parent path ≡ some dir)
IsConfined disk scope (scans path) = Inside scope.root path

module _ (disk : Disk) (scope : FileScope) where
  abbrev Confined : FsCall → Type 0
  Confined = IsConfined disk scope

  read-Confined : (args : FileReadArgs) → All Confined (read_args disk scope args).calls
  read-Confined args =
      or_refuse-calls Confined (resolve disk scope args.path) (read_path disk args) λ path found. (
        resolve-IsResolved disk scope args.path path found,
        or_report-calls Confined (map_err (unreadable path) (disk.read_to_string path))
            (give_content args path) (λ _. tt),
      )

  write_content-Confined :
      (path : PathBuf) (content : Text)
      → IsResolved disk scope path
      → All Confined (write_content disk path content).calls
  write_content-Confined path content resolved = (
    resolved,
    or_report-calls Confined (map_err (unwritable path) (disk.write path content))
        (report_written path (byte_len content)) (λ _. tt),
  )

  create_parent-Confined :
      (path : PathBuf) (o : Option PathBuf) (next : Unit {0} → Outcome)
      → parent path ≡ o
      → IsResolved disk scope path
      → ((u : Unit {0}) → All Confined (next u).calls)
      → All Confined (create_parent disk path o next).calls
  create_parent-Confined path none next e resolved held = held tt
  create_parent-Confined path (some dir) next e resolved held = (
    (path, resolved, e),
    or_report-calls Confined (map_err (dirs_error path) (disk.create_dir_all dir)) next held,
  )

  write-Confined : (args : FileWriteArgs) → All Confined (write_args disk scope args).calls
  write-Confined args =
      or_refuse-calls Confined (resolve disk scope args.path) (write_path disk args) λ path found.
        let resolved = resolve-IsResolved disk scope args.path path found in
        let written = write_content-Confined path args.content resolved in
        if_both (λ o. All Confined o.calls) args.create_dirs
          (create_parent disk path (parent path) (λ _. write_content disk path args.content))
          (write_content disk path args.content)
          (create_parent-Confined path (parent path) (λ _. write_content disk path args.content)
            refl resolved (λ _. written))
          written

  edit_content-Confined :
      (args : FileEditArgs) (path : PathBuf) (content : Text)
      → IsResolved disk scope path
      → All Confined (edit_content disk args path content).calls
  edit_content-Confined args path content resolved =
      or_report-calls Confined
        (check_matches path args.replace_all (count_from args.old_string zero content))
        (replace_content disk args path content)
        (λ _. (
          resolved,
          or_report-calls Confined
              (map_err (unwritable path) (disk.write path (updated args content)))
              (report_replaced path (replacements_of args content)) (λ _. tt),
        ))

  edit-Confined : (args : FileEditArgs) → All Confined (edit_args disk scope args).calls
  edit-Confined args =
      or_report-calls Confined (check_strings args) (edit_checked disk scope args) λ _.
        or_refuse-calls Confined (resolve disk scope args.path) (edit_path disk args) λ path found.
          let resolved = resolve-IsResolved disk scope args.path path found in
          (
            resolved,
            or_report-calls Confined (map_err (unreadable path) (disk.read_to_string path))
                (edit_content disk args path)
                (λ content. edit_content-Confined args path content resolved),
          )

  Inside-trans :
      (start path : PathBuf) → Inside scope.root start → Inside start path → Inside scope.root path
  Inside-trans start path (a, above) (b, below) =
      (a ++ b, below ∙ ap (λ p. p ++ b) above ∙ append_assoc scope.root a b)

  scans-Confined :
      (start : PathBuf) (calls : List FsCall)
      → Inside scope.root start
      → All (IsScanOf start) calls
      → All Confined calls
  scans-Confined start [] inside h = tt
  scans-Confined start (scans path ∷ calls) inside h =
      (Inside-trans start path inside h.0, scans-Confined start calls inside h.1)
  scans-Confined start (reads path ∷ calls) inside h = absurd h.0
  scans-Confined start (writes path content ∷ calls) inside h = absurd h.0
  scans-Confined start (creates path ∷ calls) inside h = absurd h.0

  start_of-Inside :
      (o : Option Text) (start : PathBuf)
      → start_of disk scope o ≡ ok start
      → Inside scope.root start
  start_of-Inside none start h =
      let same : scope.root ≡ start = cc h in ([], sym same ∙ sym (append-nil scope.root))
  start_of-Inside (some raw) start h = (resolve-IsResolved disk scope raw start h).0

  search_from-Confined :
      (args : FileSearchArgs) (start : PathBuf)
      → Inside scope.root start
      → All Confined (search_from disk args start).calls
  search_from-Confined args start inside =
      let limit : ℕ = max 1 (unwrap_or 50 args.max_results) in
      let (done, ends, walked) = search_tree-ends start limit args.query disk (omega arith) in
      subst (λ o. All Confined (search_result o).calls) (sym ends)
        (scans-Confined start done.calls inside walked.3)

  search-Confined : (args : FileSearchArgs) → All Confined (search_args disk scope args).calls
  search-Confined args =
      or_report-calls Confined (check_query args.query) (search_checked disk scope args) λ _.
        or_refuse-calls Confined (start_of disk scope args.path) (search_from disk args)
          λ start found. search_from-Confined args start (start_of-Inside args.path start found)

-- Whatever a file tool is given and however the file system answers, each of its calls of the file
-- system is on a path that the scope lets through, creates the parent of one, or, in a search, looks
-- at a path below the root.
pub run_tool-IsConfined :
    (readers : Readers) (disk : Disk) (scope : FileScope) (tool : FileTool) (value : Json)
    → All (IsConfined disk scope) (run_tool readers disk scope tool value).calls
unfolding run_read run_write run_edit run_search
run_tool-IsConfined readers disk scope file_read value =
    or_report-calls (IsConfined disk scope) (parse_args readers.read_from value)
      (read_args disk scope) (read-Confined disk scope)
run_tool-IsConfined readers disk scope file_write value =
    or_report-calls (IsConfined disk scope) (parse_args readers.write_from value)
      (write_args disk scope) (write-Confined disk scope)
run_tool-IsConfined readers disk scope file_edit value =
    or_report-calls (IsConfined disk scope) (parse_args readers.edit_from value)
      (edit_args disk scope) (edit-Confined disk scope)
run_tool-IsConfined readers disk scope file_search value =
    or_report-calls (IsConfined disk scope) (parse_args readers.search_from value)
      (search_args disk scope) (search-Confined disk scope)
