-- ===== src/Tooling/Files/Bytes.antt =====
-- The UTF-8 sizes of `str`, and the cut of `file_read` in crates/mahi-tooling/src/tools/file.rs.
pub mod Cut
use mahi_ai.Prelude.{
  ℕ, zero, suc, ◌+◌, ◌-◌, Bool, true, false, List, [], ◌∷◌, Text, ltb, leb, if◌then◌else◌,
}

-- `char::len_utf8`
abbrev pub len_utf8 : ℕ → ℕ
len_utf8 c = if ltb c 0x80 then 1 else if ltb c 0x800 then 2 else if ltb c 0x10000 then 3 else 4

-- `str::len`
abbrev pub byte_len : Text → ℕ
byte_len [] = 0
byte_len (c ∷ cs) = len_utf8 c + byte_len cs

-- `str::is_char_boundary`
abbrev pub is_char_boundary : Text → ℕ → Bool
is_char_boundary cs zero = true
is_char_boundary [] (suc n) = false
is_char_boundary (c ∷ cs) (suc n) =
    let rest = is_char_boundary cs (suc n - len_utf8 c) in
    if ltb (suc n) (len_utf8 c) then false else rest

-- `while end > 0 && !body.is_char_boundary(end) { end -= 1; }`
abbrev pub back_to_boundary : Text → ℕ → ℕ
back_to_boundary body zero = zero
back_to_boundary body (suc end) =
    let rest = back_to_boundary body end in
    if is_char_boundary body (suc end) then suc end else rest

-- `String::truncate`, at a boundary.
abbrev pub truncate : Text → ℕ → Text
truncate [] end = []
truncate (c ∷ cs) end =
    let rest = truncate cs (end - len_utf8 c) in if ltb end (len_utf8 c) then [] else c ∷ rest
