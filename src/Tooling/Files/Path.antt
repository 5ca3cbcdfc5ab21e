-- ===== src/Tooling/Files/Path.antt =====
-- Paths of a Unix file system as `std::path` reads them, and `normalize` of
-- crates/mahi-tooling/src/tools/file.rs. A `PathBuf` is the list of its components.
use mahi_ai.Prelude.{
  Bool, true, false, ◌&&◌, Option, none, some, List, [], ◌∷◌, ◌++◌, Text, text, text_beq, is_empty,
  nat_beq, if◌then◌else◌,
}

-- `std::path::Component`; the prefixes of Windows are left out.
pub data Component : Type 0 where
  root_dir cur_dir parent_dir : Component
  normal : Text → Component

abbrev pub PathBuf : Type 0
PathBuf = List Component

-- The component of one segment, if it has one; a `.` is one only where the path starts with it.
abbrev pub segment : (first : Bool) → Text → Option Component
segment first t =
    if is_empty t
    then none
    else if text_beq t (text ".")
    then (if first then some cur_dir else none)
    else if text_beq t (text "..")
    then some parent_dir
    else some (normal t)

abbrev pub with_segment : Option Component → PathBuf → PathBuf
with_segment none path = path
with_segment (some c) path = c ∷ path

-- The components after the root, `part` being the segment that has been read so far.
abbrev pub segments : (first : Bool) → (part : Text) → Text → PathBuf
segments first part [] = with_segment (segment first part) []
segments first part (c ∷ cs) =
    let ended = with_segment (segment first part) (segments false [] cs) in
    let on = segments first (part ++ c ∷ []) cs in if nat_beq c b'/' then ended else on

-- `Path::is_absolute`
abbrev pub is_absolute : Text → Bool
is_absolute [] = false
is_absolute (c ∷ cs) = nat_beq c b'/'

-- `Path::components`
unfoldable pub components : Text → PathBuf
components raw = if is_absolute raw then root_dir ∷ segments false [] raw else segments true [] raw

-- What is left of a path of one component without it: the root stays.
abbrev pub without : Component → PathBuf
without root_dir = root_dir ∷ []
without _ = []

-- `PathBuf::pop`
abbrev pub pop : PathBuf → PathBuf
pop [] = []
pop (c ∷ []) = without c
pop (c ∷ d ∷ rest) = c ∷ pop (d ∷ rest)

-- `PathBuf::push` of one component; the root replaces what was there.
abbrev pub push : PathBuf → Component → PathBuf
push out root_dir = root_dir ∷ []
push out c = out ++ c ∷ []

-- One turn of the loop of `normalize`.
abbrev pub step : PathBuf → Component → PathBuf
step out parent_dir = pop out
step out cur_dir = out
step out other = push out other

abbrev pub normalize_from : PathBuf → PathBuf → PathBuf
normalize_from out [] = out
normalize_from out (c ∷ path) = normalize_from (step out c) path

unfoldable pub normalize : PathBuf → PathBuf
normalize path = normalize_from [] path

abbrev pub same_component : Component → Component → Bool
same_component root_dir root_dir = true
same_component cur_dir cur_dir = true
same_component parent_dir parent_dir = true
same_component (normal m) (normal n) = text_beq m n
same_component _ _ = false

-- `Path::starts_with`: component by component.
abbrev pub begins_with : (path base : PathBuf) → Bool
begins_with path [] = true
begins_with [] (_ ∷ _) = false
begins_with (c ∷ path) (d ∷ base) = same_component c d && begins_with path base
