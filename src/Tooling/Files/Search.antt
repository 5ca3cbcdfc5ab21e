-- ===== src/Tooling/Files/Search.antt =====
-- `FileSearchTool` of crates/mahi-tooling/src/tools/file.rs.
pub mod Bounds
pub mod Ends
use mahi_ai.Prelude.{
  ℕ, zero, suc, ◌+◌, ◌*◌, Bool, true, false, not, ◌||◌, Option, none, some, List, [], ◌∷◌, ◌++◌,
  Text, text, length, is_empty, take, reverse, nat_beq, ltb, leb, if◌then◌else◌,
}
use Prim.Native.Nat.{max}
use mahi_ai.Prelude.Chars.{contains, lines_from}
use mahi_ai.Contracts.Errors.{ContractError}
use mahi_ai.Contracts.Result.{Result, ok, err}
use mahi_ai.Contracts.Tooling.{ToolCategory, DestructiveLevel, ToolDescriptor, ToolEvent}
use mahi_ai.Json.{Json, null, natural, string, entry, json_object, json_array, word, unwrap_or}
use mahi_ai.Tooling.Streams.{Events, parse_args}
use mahi_ai.Tooling.Files.Path.{PathBuf, normal}
use mahi_ai.Tooling.Files.Scope.{FileType, DirEntry, Disk, FileScope, display, resolve}
use mahi_ai.Tooling.Files.Calls.{
  FsCall, Outcome, reads, scans, silent, or_report, or_refuse, file_modes, typed, described,
  path_schema_property,
}
use mahi_ai.Tooling.Files.Write.{defaulting}

pub record FileSearchArgs : Type 0 where
  pub query : Text
  pub path : Option Text
  pub max_results : Option ℕ

abbrev pub max_search_file_bytes : ℕ
max_search_file_bytes = 1024 * 1024

abbrev pub max_search_visited : ℕ
max_search_visited = 10000

abbrev pub or_null : Text → Json
or_null t = json_object (entry "type" (json_array (string t ∷ word "null" ∷ [])) ∷ [])

abbrev pub search_descriptor : ToolDescriptor Json
search_descriptor = record {
  id = text "file_search";
  display_name = text "Search Files";
  category = ToolCategory.built_in;
  available_in_modes = file_modes;
  required_permissions = text "fs.read" ∷ [];
  input_schema = json_object (
      entry "type" (word "object")
      ∷ entry "properties" (
          json_object (
            entry "query"
              (described "string" "Substring matched against file names and UTF-8 file contents")
            ∷ entry "path" path_schema_property
            ∷ entry "max_results"
                (json_object (entry "type" (word "integer") ∷ entry "default" (natural 50) ∷ []))
            ∷ []))
      ∷ entry "required" (json_array (word "query" ∷ []))
      ∷ []);
  output_schema = json_object (
      entry "type" (word "object")
      ∷ entry "properties" (
          json_object (
            entry "matches" (
              json_object (
                entry "type" (word "array")
                ∷ entry "items" (
                    json_object (
                      entry "type" (word "object")
                      ∷ entry "properties" (
                          json_object (
                            entry "path" (typed "string")
                            ∷ entry "line" (or_null (text "integer"))
                            ∷ entry "text" (or_null (text "string"))
                            ∷ []))
                      ∷ []))
                ∷ []))
            ∷ []))
      ∷ []);
  requires_approval = false;
  destructive_level = DestructiveLevel.low;
}

-- One match: a file's name, or a line of it and its number.
pub record Match : Type 0 where
  pub path : PathBuf
  pub line : Option (ℕ × Text)

-- What a walk has done: `truncated` once it has to return.
pub record Walk : Type 0 where
  pub matches : List Match
  pub stack : List PathBuf
  pub visited : ℕ
  pub calls : List FsCall
  pub truncated : Bool

abbrev pub started_walk : PathBuf → Walk
started_walk start = record {
  matches = [];
  stack = start ∷ [];
  visited = 0;
  calls = [];
  truncated = false;
}

-- Every directory but the first was visited as an entry, so that this fuel is enough.
abbrev pub walk_fuel : ℕ
walk_fuel = max_search_visited + 2

module _ (query : Text) (max_results : ℕ) where
  -- `matches.push(...)`, and the return at the limit.
  abbrev pub push_match : Match → Walk → Walk
  push_match found walk = record walk {
    matches = walk.matches ++ found ∷ [];
    truncated = leb max_results (length walk.matches + 1);
  }

  -- A step is taken unless the walk returned before.
  abbrev pub unless_truncated : Walk → (Walk → Walk) → Walk
  unless_truncated walk next = if walk.truncated then walk else next walk

  -- The loop over the lines of a file, from the line number `idx + 1`.
  unfoldable pub search_lines : PathBuf → ℕ → List Text → Walk → Walk
  search_lines path idx [] walk = walk
  search_lines path idx (line ∷ lines) walk =
      let found = push_match (record { path = path; line = some (idx + 1, take 200 line) }) walk in
      search_lines path (idx + 1) lines
        (unless_truncated walk (λ w. if contains query line then found else w))

  abbrev pub search_content : PathBuf → Result Text Text → Walk → Walk
  search_content path (ok content) walk = search_lines path 0 (lines_from [] content) walk
  search_content path (err e) walk = walk

  abbrev pub small_enough : Option ℕ → Bool
  small_enough none = false
  small_enough (some n) = leb n max_search_file_bytes

  abbrev pub scanned : PathBuf → Walk → Walk
  scanned path walk = record walk { calls = walk.calls ++ scans path ∷ [] }

  abbrev pub search_name : PathBuf → Text → Walk → Walk
  search_name path name walk =
      if contains query name then push_match (record { path = path; line = none }) walk else walk

  module _ (disk : Disk) where
    -- The scan of a file's content, where the file is small enough.
    abbrev pub search_small : PathBuf → DirEntry → Walk → Walk
    search_small path found walk =
        if small_enough found.len
        then search_content path (disk.read_to_string path) (scanned path walk)
        else walk

    abbrev pub search_file : PathBuf → DirEntry → Walk → Walk
    search_file path found walk =
        unless_truncated (search_name path found.file_name walk) (search_small path found)

    -- What becomes of an entry by its type.
    abbrev pub search_typed : PathBuf → DirEntry → Option FileType → Walk → Walk
    search_typed path found none walk = walk
    search_typed path found (some FileType.symlink) walk = walk
    search_typed path found (some FileType.dir) walk = record walk { stack = path ∷ walk.stack }
    search_typed path found (some FileType.file) walk = search_file path found walk

    -- The limits at the head of the loop over the entries.
    abbrev pub at_limit : Walk → Bool
    at_limit walk = leb max_results (length walk.matches) || leb max_search_visited walk.visited

    abbrev pub visit : PathBuf → DirEntry → Walk → Walk
    visit dir found walk =
        if at_limit walk
        then record walk { truncated = true }
        else search_typed (dir ++ normal found.file_name ∷ []) found found.file_type
            (record walk { visited = walk.visited + 1 })

    unfoldable pub visit_all : PathBuf → List DirEntry → Walk → Walk
    visit_all dir [] walk = walk
    visit_all dir (found ∷ others) walk =
        visit_all dir others (unless_truncated walk (visit dir found))

    abbrev pub open_dir : PathBuf → Option (List DirEntry) → Walk → Walk
    open_dir dir none walk = walk
    open_dir dir (some entries) walk = visit_all dir entries walk

    -- The loop `while let Some(dir) = stack.pop()`; none where the fuel is used up.
    abbrev pub popped : (Walk → Option Walk) → List PathBuf → Walk → Option Walk
    popped next [] walk = some walk
    popped next (dir ∷ stack) walk =
        if walk.truncated
        then some walk
        else next (open_dir dir (disk.read_dir dir) (scanned dir (record walk { stack = stack })))

    unfoldable pub walk_from : (fuel : ℕ) → Walk → Option Walk
    walk_from zero walk = none
    walk_from (suc fuel) walk = popped (λ w. walk_from fuel w) walk.stack walk

    unfoldable pub search_tree : PathBuf → Option Walk
    search_tree start = walk_from walk_fuel (started_walk start)

abbrev pub line_number : Option (ℕ × Text) → Json
line_number none = null
line_number (some (n, preview)) = natural n

abbrev pub line_text : Option (ℕ × Text) → Json
line_text none = null
line_text (some (n, preview)) = string preview

abbrev pub match_json : Match → Json
match_json found = json_object (
    entry "path" (string (display found.path))
    ∷ entry "line" (line_number found.line)
    ∷ entry "text" (line_text found.line)
    ∷ [])

abbrev pub matches_json : List Match → List Json
matches_json [] = []
matches_json (found ∷ others) = match_json found ∷ matches_json others

-- The result of a walk that ended; the theorem on its bounds says that each does.
abbrev pub search_result : Option Walk → Outcome
search_result none = silent []
search_result (some walk) = record {
  calls = walk.calls;
  events =
      ok (
        ToolEvent.result
          (json_object (entry "matches" (json_array (matches_json walk.matches)) ∷ []))
          walk.truncated)
      ∷ [];
}

abbrev pub search_from : Disk → FileSearchArgs → PathBuf → Outcome
search_from disk args start =
    search_result (search_tree args.query (max 1 (unwrap_or 50 args.max_results)) disk start)

-- Where the search starts.
abbrev pub start_of : Disk → FileScope → Option Text → Result ContractError PathBuf
start_of disk scope none = ok scope.root
start_of disk scope (some raw) = resolve disk scope raw

abbrev pub check_query : Text → Result Text (Unit {0})
check_query query = if is_empty query then err (text "query must not be empty") else ok tt

abbrev pub search_checked : Disk → FileScope → FileSearchArgs → Unit {0} → Outcome
search_checked disk scope args _ = or_refuse (start_of disk scope args.path) (search_from disk args)

abbrev pub search_args : Disk → FileScope → FileSearchArgs → Outcome
search_args disk scope args = or_report (check_query args.query) (search_checked disk scope args)

unfoldable pub run_search : (Json → Result Text FileSearchArgs) → Disk → FileScope → Json → Outcome
run_search from_value disk scope value =
    or_report (parse_args from_value value) (search_args disk scope)
