-- ===== src/Tooling/Files/Search/Ends.antt =====
-- The search of crates/mahi-tooling/src/tools/file.rs ends.
use mahi_ai.Prelude.{
  ℕ, zero, suc, ◌+◌, ◌-◌, ◌≤◌, ◌<◌, ◌≡◌, refl, sym, ap, some, List, [], ◌∷◌, append-nil, length,
  All, Text, if_both, arith,
}
use mahi_ai.Tooling.Files.Path.{PathBuf}
use mahi_ai.Tooling.Files.Scope.{Disk}
use mahi_ai.Tooling.Files.Scope.Confined.{Inside}
use mahi_ai.Tooling.Files.Search.{
  Walk, max_search_visited, scanned, open_dir, popped, walk_from, started_walk, walk_fuel,
  search_tree,
}
use mahi_ai.Tooling.Files.Search.Bounds.{IsScanOf, IsBounded, scanned-Bounded, open_dir-Bounded}

-- A walk that ended within its limits.
abbrev pub IsWalked : (start : PathBuf) → (max_results : ℕ) → Walk → Type 0
IsWalked start max_results walk =
    (length walk.matches ≤ max_results)
    × (walk.visited ≤ max_search_visited)
    × All (λ m. Inside start m.path) walk.matches
    × All (IsScanOf start) walk.calls

module _ (start : PathBuf) (max_results : ℕ) (query : Text) (disk : Disk) where
  -- A walk from given directories ends when the fuel exceeds its bound.
  walk_from-ends :
      (fuel bound : ℕ) (walk : Walk)
      → bound < fuel
      → IsBounded start max_results bound walk
      → (done : Walk) × (walk_from query max_results disk fuel walk ≡ some done)
        × IsWalked start max_results done
  unfolding walk_from
  walk_from-ends zero bound walk long held = absurd (omega arith)
  walk_from-ends (suc fuel) bound walk long (v, s, st, m, t, ms, cs) =
      go walk.stack refl (walk_from-ends fuel (bound - 1))
    where
      go :
          (stack : List PathBuf)
          → walk.stack ≡ stack
          → ((w : Walk)
              → bound - 1 < fuel
              → IsBounded start max_results (bound - 1) w
              → (done : Walk) × (walk_from query max_results disk fuel w ≡ some done)
                × IsWalked start max_results done)
          → (done : Walk) × (popped query max_results disk
                (λ w. walk_from query max_results disk fuel w)
                stack
                walk
              ≡ some done)
            × IsWalked start max_results done
      go [] e ih = (walk, refl, (m, v, ms, cs))
      go (dir ∷ stack) e ih =
          let one_more = ap length e in
          let inside : All (Inside start) (dir ∷ stack) = rw e at st in
          let left : Walk = record walk { stack = stack } in
          let fewer : IsBounded start max_results (bound - 1) left =
            (v, omega arith, inside.1, m, t, ms, cs) in
          let opened =
            open_dir-Bounded start max_results (bound - 1) query disk dir (disk.read_dir dir)
              (scanned query max_results dir left) inside.0
              (scanned-Bounded start max_results (bound - 1) query dir left inside.0 fewer) in
          if_both (λ o. (done : Walk) × (o ≡ some done) × IsWalked start max_results done)
            walk.truncated (some walk)
            (walk_from query max_results disk fuel (
              open_dir query max_results disk dir (disk.read_dir dir)
                (scanned query max_results dir left)))
            (walk, refl, (m, v, ms, cs)) (ih _ (omega arith) opened)

  -- The search ends: it looks only at directories and files below its start, reports at most
  -- `max_results` matches, which lie there too, and visits at most `MAX_SEARCH_VISITED` entries.
  pub search_tree-ends :
      1 ≤ max_results
      → (done : Walk) × (search_tree query max_results disk start ≡ some done)
        × IsWalked start max_results done
  unfolding search_tree
  search_tree-ends some_result =
      walk_from-ends walk_fuel (max_search_visited + 1) (started_walk start) (omega arith) (
        omega arith,
        omega arith,
        (([], sym (append-nil start)), tt),
        omega arith,
        λ h. some_result,
        tt,
        tt,
      )
