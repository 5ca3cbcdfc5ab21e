-- ===== src/Tooling/Files/Scope.antt =====
-- `FileScope` of crates/mahi-tooling/src/tools/file.rs, and the file system that the tools work on.
pub mod Confined
use mahi_ai.Prelude.{
  ℕ, Bool, true, false, not, Option, none, some, List, [], ◌∷◌, ◌++◌, Text, text, if◌then◌else◌,
}
use mahi_ai.Contracts.Errors.{ContractError, ToolError}
use mahi_ai.Contracts.Result.{Result, ok, err, ◌>>=◌, map_err}
use mahi_ai.Tooling.Files.Path.{
  Component, PathBuf, root_dir, cur_dir, parent_dir, normal, is_absolute, components, normalize,
  begins_with,
}

-- `std::fs::FileType`, as far as the search asks for it.
pub data FileType : Type 0 where
  symlink dir file : FileType

-- `std::fs::DirEntry`: its type and its length may be unknown.
pub record DirEntry : Type 0 where
  pub file_name : Text
  pub file_type : Option FileType
  pub len : Option ℕ

-- `std::fs` and `tokio::fs` during one call of a tool; an error is its text.
pub record Disk : Type 0 where
  pub current_dir : Option PathBuf
  pub exists : PathBuf → Bool
  pub canonicalize : PathBuf → Result Text PathBuf
  pub read_to_string : PathBuf → Result Text Text
  pub create_dir_all : PathBuf → Result Text (Unit {0})
  pub write : PathBuf → Text → Result Text (Unit {0})
  pub read_dir : PathBuf → Option (List DirEntry)

pub record FileScope : Type 0 where
  pub root : PathBuf

abbrev pub shown : Component → Text
shown root_dir = text "/"
shown cur_dir = text "."
shown parent_dir = text ".."
shown (normal n) = n

abbrev pub separated : Component → Text → Text
separated root_dir rest = text "/" ++ rest
separated c rest = shown c ++ text "/" ++ rest

abbrev pub display_from : PathBuf → Text
display_from [] = []
display_from (c ∷ []) = shown c
display_from (c ∷ d ∷ path) = separated c (display_from (d ∷ path))

-- `path.display()`
unfoldable pub display : PathBuf → Text
display path = display_from path

abbrev pub or_else {ℓ κ} : {E : Type ℓ} {A : Type κ} → Result E A → A → A
or_else (ok a) d = a
or_else (err e) d = d

abbrev pub violation : ContractError
violation = ContractError.tool ToolError.sandbox_violation

abbrev pub execution_error : Text → ContractError
execution_error message = ContractError.tool (ToolError.execution message)

module _ (disk : Disk) where
  -- The absolute form of the root that `FileScope::new` is given.
  abbrev pub absolute : Text → PathBuf
  absolute raw =
      if is_absolute raw
      then components raw
      else elim disk.current_dir [ none ↦ components raw | some cwd ↦ cwd ++ components raw ]

  unfoldable pub new_scope : Text → FileScope
  new_scope raw = record {
    root = or_else (disk.canonicalize (absolute raw)) (normalize (absolute raw));
  }

  -- A canonical path is given back only inside of the root.
  abbrev pub check_canonical : FileScope → PathBuf → Result ContractError PathBuf
  check_canonical scope canonical =
      if not (begins_with canonical scope.root) then err violation else ok canonical

  abbrev pub canonical_error : PathBuf → Text → ContractError
  canonical_error path e =
      execution_error (text "failed to canonicalize " ++ display path ++ text ": " ++ e)

  -- What `resolve` does with the normalized path.
  abbrev pub check_path : FileScope → PathBuf → Result ContractError PathBuf
  check_path scope normalized =
      if not (begins_with normalized scope.root)
      then err violation
      else if disk.exists normalized
      then (map_err (canonical_error normalized) (disk.canonicalize normalized) >>= λ canonical.
          check_canonical scope canonical)
      else ok normalized

  -- `self.root.join(p)` of a relative path.
  abbrev pub joined : FileScope → Text → PathBuf
  joined scope raw = if is_absolute raw then components raw else scope.root ++ components raw

  unfoldable pub resolve : FileScope → Text → Result ContractError PathBuf
  resolve scope raw = check_path scope (normalize (joined scope raw))
