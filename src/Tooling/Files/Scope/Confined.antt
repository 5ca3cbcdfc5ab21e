-- ===== src/Tooling/Files/Scope/Confined.antt =====
-- The paths that the scope of crates/mahi-tooling/src/tools/file.rs lets through.
use mahi_ai.Prelude.{
  ◌≡◌, refl, ap, Bool, true, false, not, ◌&&◌, if◌then◌else◌, ◌⊎◌, inl, inr, [], ◌∷◌, ◌++◌, All,
  All-append, Text, text_beq_iff, arith,
}
use mathlib.Core.Path.{subst}
use mahi_ai.Contracts.Result.{ok, ◌>>=◌, map_err, bind_ok, map_err_ok, guard_ok}
use mahi_ai.Tooling.Files.Path.{
  Component, PathBuf, root_dir, cur_dir, parent_dir, normal, normalize, normalize_from, step, pop,
  begins_with, same_component,
}
use mahi_ai.Tooling.Files.Scope.{
  Disk, FileScope, violation, check_path, check_canonical, canonical_error, joined, resolve,
}

-- The path lies in the directory.
abbrev pub Inside : PathBuf → PathBuf → Type 0
Inside root path = (rest : PathBuf) × (path ≡ root ++ rest)

-- A component that does not lead upwards.
abbrev pub IsPlain : Component → Type 0
IsPlain root_dir = Unit
IsPlain (normal n) = Unit
IsPlain cur_dir = ⊥
IsPlain parent_dir = ⊥

same_component-eq : (c d : Component) → same_component c d ≡ true → c ≡ d
same_component-eq root_dir d h = ground arith
same_component-eq cur_dir d h = ground arith
same_component-eq parent_dir d h = ground arith
same_component-eq (normal m) (normal n) h = ap normal ((text_beq_iff m n).0 h)
same_component-eq (normal m) root_dir h = absurd (cc h)
same_component-eq (normal m) cur_dir h = absurd (cc h)
same_component-eq (normal m) parent_dir h = absurd (cc h)

both_true : (a b : Bool) → (a && b) ≡ true → (a ≡ true) × (b ≡ true)
both_true a b h = ground arith

pub begins_with-Inside : (path base : PathBuf) → begins_with path base ≡ true → Inside base path
begins_with-Inside path [] h = (path, refl)
begins_with-Inside [] (d ∷ base) h = absurd (cc h)
begins_with-Inside (c ∷ path) (d ∷ base) h =
    let (same, begins) = both_true (same_component c d) (begins_with path base) h in
    let (rest, split) = begins_with-Inside path base begins in
    (rest, cc (same_component-eq c d same, split))

pop-IsPlain : (path : PathBuf) → All IsPlain path → All IsPlain (pop path)
pop-IsPlain [] h = tt
pop-IsPlain (root_dir ∷ []) h = h
pop-IsPlain (cur_dir ∷ []) h = tt
pop-IsPlain (parent_dir ∷ []) h = tt
pop-IsPlain (normal n ∷ []) h = tt
pop-IsPlain (c ∷ d ∷ rest) h = (h.0, pop-IsPlain (d ∷ rest) h.1)

step-IsPlain : (out : PathBuf) (c : Component) → All IsPlain out → All IsPlain (step out c)
step-IsPlain out root_dir h = (tt, tt)
step-IsPlain out cur_dir h = h
step-IsPlain out parent_dir h = pop-IsPlain out h
step-IsPlain out (normal n) h = All-append IsPlain out (normal n ∷ []) h (tt, tt)

normalize_from-IsPlain :
    (path out : PathBuf) → All IsPlain out → All IsPlain (normalize_from out path)
normalize_from-IsPlain [] out h = h
normalize_from-IsPlain (c ∷ path) out h =
    normalize_from-IsPlain path (step out c) (step-IsPlain out c h)

-- A normalized path has no component that leads upwards.
pub normalize-IsPlain : (path : PathBuf) → All IsPlain (normalize path)
unfolding normalize
normalize-IsPlain path = normalize_from-IsPlain path [] tt

-- What `resolve` promises of a path: it lies in the root, and it is the canonical form of an existing
-- path in the root, or it does not exist and has no component that leads upwards.
abbrev pub IsResolved : Disk → FileScope → PathBuf → Type 0
IsResolved disk scope path =
    Inside scope.root path
    × (((named : PathBuf) × Inside scope.root named
          × (disk.exists named ≡ true)
          × (disk.canonicalize named ≡ ok path))
        ⊎ ((disk.exists path ≡ false) × All IsPlain path))

module _ (disk : Disk) (scope : FileScope) where
  begins-Inside :
      (path : PathBuf) → not (begins_with path scope.root) ≡ false → Inside scope.root path
  begins-Inside path h = begins_with-Inside path scope.root (ground arith)

  check_path-IsResolved :
      (normalized path : PathBuf)
      → All IsPlain normalized
      → check_path disk scope normalized ≡ ok path
      → IsResolved disk scope path
  check_path-IsResolved normalized path plain h =
      let (begins, passed) = guard_ok (not (begins_with normalized scope.root)) _ _ path h in
      go (disk.exists normalized) refl (begins-Inside normalized begins) passed
    where
      go :
          (b : Bool)
          → disk.exists normalized ≡ b
          → Inside scope.root normalized
          → (if b
              then (map_err (canonical_error disk normalized) (disk.canonicalize normalized)
                  >>= λ canonical. check_canonical disk scope canonical)
              else ok normalized)
            ≡ ok path
          → IsResolved disk scope path
      go false absent inside h =
          let same : normalized ≡ path = cc h in
          subst (IsResolved disk scope) same (inside, inr (absent, plain))
      go true exists inside h =
          let (canonical, found, checked) =
            bind_ok (map_err (canonical_error disk normalized) (disk.canonicalize normalized))
              (check_canonical disk scope) path h in
          let (begins, passed) =
            guard_ok (not (begins_with canonical scope.root)) violation (ok canonical) path
              checked in
          let same : canonical ≡ path = cc passed in
          let real = map_err_ok (canonical_error disk normalized) _ canonical found in
          subst (IsResolved disk scope) same
            (begins-Inside canonical begins, inl (normalized, inside, exists, real))

  -- A path that `resolve` gives lies in the root, and it is the canonical form of an existing path
  -- in the root, or it does not exist and has no component that leads upwards.
  pub resolve-IsResolved :
      (raw : Text) (path : PathBuf) → resolve disk scope raw ≡ ok path → IsResolved disk scope path
  unfolding resolve
  resolve-IsResolved raw path h =
      check_path-IsResolved (normalize (joined disk scope raw)) path
        (normalize-IsPlain (joined disk scope raw)) h
