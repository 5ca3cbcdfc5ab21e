-- ===== src/Tooling/Files/Search/Bounds.antt =====
-- The search of crates/mahi-tooling/src/tools/file.rs keeps its limits at each step.
use mahi_ai.Prelude.{
  ℕ, ◌+◌, ◌-◌, ◌≤◌, ◌<◌, ◌≡◌, refl, ap, ◌∙◌, Bool, true, false, Option, none, some, List, [], ◌∷◌,
  ◌++◌, append_assoc, length, length-append, take, All, All-append, Text, if◌then◌else◌, if_both,
  arith,
}
use mahi_ai.Prelude.Chars.{lines_from, contains}
use mahi_ai.Contracts.Result.{Result, ok, err}
use mahi_ai.Tooling.Files.Path.{PathBuf, normal}
use mahi_ai.Tooling.Files.Scope.{FileType, DirEntry, Disk}
use mahi_ai.Tooling.Files.Scope.Confined.{Inside}
use mahi_ai.Tooling.Files.Calls.{FsCall, scans}
use mahi_ai.Tooling.Files.Search.{
  Match, Walk, max_search_visited, push_match, unless_truncated, search_lines, search_content,
  small_enough, scanned, search_name, search_small, search_file, search_typed, at_limit, visit,
  visit_all, open_dir,
}

-- A call that only looks at a path below the start.
abbrev pub IsScanOf : PathBuf → FsCall → Type 0
IsScanOf start (scans path) = Inside start path
IsScanOf start _ = ⊥

-- The limits of a walk: the entries that may still be visited and the directories that wait are at
-- most `bound`.
abbrev pub IsBounded : (start : PathBuf) → (max_results bound : ℕ) → Walk → Type 0
IsBounded start max_results bound walk =
    (walk.visited ≤ max_search_visited)
    × (length walk.stack + (max_search_visited - walk.visited) ≤ bound)
    × All (Inside start) walk.stack
    × (length walk.matches ≤ max_results)
    × (walk.truncated ≡ false → length walk.matches < max_results)
    × All (λ m. Inside start m.path) walk.matches
    × All (IsScanOf start) walk.calls

Inside-child :
    (start path : PathBuf) (name : Text)
    → Inside start path
    → Inside start (path ++ normal name ∷ [])
Inside-child start path name (rest, split) =
    (rest ++ normal name ∷ [], ap (λ p. p ++ normal name ∷ []) split ∙ append_assoc start rest _)

module _ (start : PathBuf) (max_results bound : ℕ) where
  abbrev Bounded : Walk → Type 0
  Bounded = IsBounded start max_results bound

  -- A step that keeps the bounds of a walk that goes on keeps them of any walk.
  unless_truncated-Bounded :
      (query : Text) (walk : Walk) (next : Walk → Walk)
      → Bounded walk
      → (walk.truncated ≡ false → Bounded (next walk))
      → Bounded (unless_truncated query max_results walk next)
  unless_truncated-Bounded query walk next held kept = go walk.truncated refl
    where
      go : (b : Bool) → walk.truncated ≡ b → Bounded (if b then walk else next walk)
      go true h = held
      go false h = kept h

  push_match-Bounded :
      (query : Text) (found : Match) (walk : Walk)
      → Inside start found.path
      → length walk.matches < max_results
      → Bounded walk
      → Bounded (push_match query max_results found walk)
  push_match-Bounded query found walk inside room (v, s, st, m, t, ms, cs) =
      let longer = length-append walk.matches (found ∷ []) in
      (
        v,
        s,
        st,
        omega arith,
        λ h. ground arith,
        All-append (λ m. Inside start m.path) walk.matches (found ∷ []) ms (inside, tt),
        cs,
      )

  pub scanned-Bounded :
      (query : Text) (path : PathBuf) (walk : Walk)
      → Inside start path
      → Bounded walk
      → Bounded (scanned query max_results path walk)
  scanned-Bounded query path walk inside (v, s, st, m, t, ms, cs) =
      (v, s, st, m, t, ms, All-append (IsScanOf start) walk.calls (scans path ∷ []) cs (inside, tt))

  search_lines-Bounded :
      (query : Text) (path : PathBuf) (idx : ℕ) (lines : List Text) (walk : Walk)
      → Inside start path
      → Bounded walk
      → Bounded (search_lines query max_results path idx lines walk)
  unfolding search_lines
  search_lines-Bounded query path idx [] walk inside held = held
  search_lines-Bounded query path idx (line ∷ lines) walk inside held =
      search_lines-Bounded query path (idx + 1) lines _ inside (
        unless_truncated-Bounded query walk
          (λ w.
            if contains query line
            then push_match query max_results
                (record { path = path; line = some (idx + 1, take 200 line) }) walk
            else w)
          held
          (λ going.
            if_both Bounded (contains query line) _ _
              (push_match-Bounded query _ walk inside (held.4 going) held) held))

  search_name-Bounded :
      (query : Text) (path : PathBuf) (name : Text) (walk : Walk)
      → Inside start path
      → length walk.matches < max_results
      → Bounded walk
      → Bounded (search_name query max_results path name walk)
  search_name-Bounded query path name walk inside room held =
      if_both Bounded (contains query name) _ walk
        (push_match-Bounded query (record { path = path; line = none }) walk inside room held) held

  search_content-Bounded :
      (query : Text) (path : PathBuf) (r : Result Text Text) (walk : Walk)
      → Inside start path
      → Bounded walk
      → Bounded (search_content query max_results path r walk)
  search_content-Bounded query path (ok t) walk inside held =
      search_lines-Bounded query path 0 (lines_from [] t) walk inside held
  search_content-Bounded query path (err e) walk inside held = held

  search_small-Bounded :
      (query : Text) (disk : Disk) (path : PathBuf) (found : DirEntry) (walk : Walk)
      → Inside start path
      → Bounded walk
      → Bounded (search_small query max_results disk path found walk)
  search_small-Bounded query disk path found walk inside held =
      if_both Bounded (small_enough query max_results found.len) _ walk
        (search_content-Bounded query path (disk.read_to_string path)
          (scanned query max_results path walk) inside
          (scanned-Bounded query path walk inside held))
        held

  search_file-Bounded :
      (query : Text) (disk : Disk) (path : PathBuf) (found : DirEntry) (walk : Walk)
      → Inside start path
      → length walk.matches < max_results
      → Bounded walk
      → Bounded (search_file query max_results disk path found walk)
  search_file-Bounded query disk path found walk inside room held =
      let named = search_name-Bounded query path found.file_name walk inside room held in
      unless_truncated-Bounded query (search_name query max_results path found.file_name walk)
        (search_small query max_results disk path found) named
        (λ going. search_small-Bounded query disk path found _ inside named)

  search_typed-Bounded :
      (query : Text) (disk : Disk) (path : PathBuf) (found : DirEntry) (kind : Option FileType)
      (walk : Walk)
      → Inside start path
      → length walk.matches < max_results
      → 1 + length walk.stack + (max_search_visited - walk.visited) ≤ bound
      → Bounded walk
      → Bounded (search_typed query max_results disk path found kind walk)
  search_typed-Bounded query disk path found none walk inside few room held = held
  search_typed-Bounded query disk path found (some FileType.symlink) walk inside few room held =
      held
  search_typed-Bounded query disk path found (some FileType.dir) walk inside few room held =
      (held.0, omega arith, (inside, held.2), held.3, held.4, held.5, held.6)
  search_typed-Bounded query disk path found (some FileType.file) walk inside few room held =
      search_file-Bounded query disk path found walk inside few held

  visit-Bounded :
      (query : Text) (disk : Disk) (dir : PathBuf) (found : DirEntry) (walk : Walk)
      → Inside start dir
      → Bounded walk
      → Bounded (visit query max_results disk dir found walk)
  visit-Bounded query disk dir found walk inside (v, s, st, m, t, ms, cs) =
      go (at_limit query max_results disk walk) refl
    where
      go :
          (b : Bool)
          → at_limit query max_results disk walk ≡ b
          → Bounded (
              if b
              then record walk { truncated = true }
              else search_typed query max_results disk
                  (dir ++ normal found.file_name ∷ [])
                  found
                  found.file_type
                  (record walk { visited = walk.visited + 1 }))
      go true h = (v, s, st, m, λ h. absurd (cc h), ms, cs)
      go false h =
          let few : length walk.matches < max_results = ground arith in
          let room : walk.visited < max_search_visited = ground arith in
          search_typed-Bounded query disk (dir ++ normal found.file_name ∷ []) found found.file_type
            (record walk { visited = walk.visited + 1 })
            (Inside-child start dir found.file_name inside) few (omega arith)
            (omega arith, omega arith, st, m, t, ms, cs)

  visit_all-Bounded :
      (query : Text) (disk : Disk) (dir : PathBuf) (entries : List DirEntry) (walk : Walk)
      → Inside start dir
      → Bounded walk
      → Bounded (visit_all query max_results disk dir entries walk)
  unfolding visit_all
  visit_all-Bounded query disk dir [] walk inside held = held
  visit_all-Bounded query disk dir (found ∷ others) walk inside held =
      visit_all-Bounded query disk dir others _ inside (
        unless_truncated-Bounded query walk (visit query max_results disk dir found) held
          (λ going. visit-Bounded query disk dir found walk inside held))

  pub open_dir-Bounded :
      (query : Text) (disk : Disk) (dir : PathBuf) (entries : Option (List DirEntry)) (walk : Walk)
      → Inside start dir
      → Bounded walk
      → Bounded (open_dir query max_results disk dir entries walk)
  open_dir-Bounded query disk dir none walk inside held = held
  open_dir-Bounded query disk dir (some entries) walk inside held =
      visit_all-Bounded query disk dir entries walk inside held
