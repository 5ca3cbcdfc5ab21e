-- ===== src/Tooling/Files/Approval.antt =====
-- Which file tools of crates/mahi-tooling/src/tools/file.rs change the file system without asking.
use Prim.Native.Nat.{max}
use mahi_ai.Prelude.{ℕ, ◌≡◌, refl, sym, Bool, true, false, List, [], ◌∷◌, All, arith}
use mathlib.Core.Path.{subst}
use mahi_ai.Contracts.Result.{map_err}
use mahi_ai.Json.{Json, unwrap_or}
use mahi_ai.Tooling.Streams.{parse_args}
use mahi_ai.Tooling.Files.Path.{PathBuf}
use mahi_ai.Tooling.Files.Scope.{Disk, FileScope, resolve}
use mahi_ai.Tooling.Files.Calls.{
  FsCall, reads, writes, creates, scans, or_report-calls, or_refuse-calls,
}
use mahi_ai.Tooling.Files.Read.{unreadable, give_content, read_path, read_args, run_read}
use mahi_ai.Tooling.Files.Search.{
  FileSearchArgs, start_of, search_result, search_from, check_query, search_checked, search_args,
  run_search,
}
use mahi_ai.Tooling.Files.Search.Bounds.{IsScanOf}
use mahi_ai.Tooling.Files.Search.Ends.{search_tree-ends}
use mahi_ai.Tooling.Files.Tools.{
  FileTool, Readers, file_read, file_write, file_edit, file_search, descriptor_of_tool, run_tool,
}

-- A call that changes the file system.
abbrev pub changes : FsCall → Bool
changes (writes path content) = true
changes (creates path) = true
changes (reads path) = false
changes (scans path) = false

abbrev OnlyIf : Bool → FsCall → Type 0
OnlyIf b call = changes call ≡ true → b ≡ true

always : (calls : List FsCall) → All (OnlyIf true) calls
always [] = tt
always (call ∷ calls) = (λ h. refl, always calls)

scans-OnlyIf :
    (start : PathBuf) (calls : List FsCall) → All (IsScanOf start) calls → All (OnlyIf false) calls
scans-OnlyIf start [] h = tt
scans-OnlyIf start (scans path ∷ calls) h = (λ c. absurd (cc c), scans-OnlyIf start calls h.1)
scans-OnlyIf start (reads path ∷ calls) h = absurd h.0
scans-OnlyIf start (writes path content ∷ calls) h = absurd h.0
scans-OnlyIf start (creates path ∷ calls) h = absurd h.0

search_from-OnlyIf :
    (disk : Disk) (args : FileSearchArgs) (start : PathBuf)
    → All (OnlyIf false) (search_from disk args start).calls
search_from-OnlyIf disk args start =
    let limit : ℕ = max 1 (unwrap_or 50 args.max_results) in
    let (done, ends, walked) = search_tree-ends start limit args.query disk (omega arith) in
    subst (λ o. All (OnlyIf false) (search_result o).calls) (sym ends)
      (scans-OnlyIf start done.calls walked.3)

-- A file tool whose run makes a call that changes the file system is one whose descriptor requires an
-- approval.
pub run_tool-requires_approval :
    (readers : Readers) (disk : Disk) (scope : FileScope) (tool : FileTool) (value : Json)
    → All
        (λ call. changes call ≡ true → (descriptor_of_tool tool).requires_approval ≡ true)
        (run_tool readers disk scope tool value).calls
unfolding run_read run_search
run_tool-requires_approval readers disk scope file_read value =
    or_report-calls (OnlyIf false) (parse_args readers.read_from value) (read_args disk scope)
      λ args.
        or_refuse-calls (OnlyIf false) (resolve disk scope args.path) (read_path disk args)
          λ path found. (
            λ c. absurd (cc c),
            or_report-calls (OnlyIf false) (map_err (unreadable path) (disk.read_to_string path))
                (give_content args path) (λ _. tt),
          )
run_tool-requires_approval readers disk scope file_write value = always _
run_tool-requires_approval readers disk scope file_edit value = always _
run_tool-requires_approval readers disk scope file_search value =
    or_report-calls (OnlyIf false) (parse_args readers.search_from value) (search_args disk scope)
      λ args.
        or_report-calls (OnlyIf false) (check_query args.query) (search_checked disk scope args)
          λ _.
            or_refuse-calls (OnlyIf false) (start_of disk scope args.path) (search_from disk args)
              λ start found. search_from-OnlyIf disk args start
