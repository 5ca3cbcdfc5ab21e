-- ===== src/Engine/Texts.antt =====
-- The pure helpers at the end of engine.rs.
pub mod Bounds
use mahi_ai.Prelude.{
  ℕ, ◌+◌, ◌*◌, ◌%◌, Option, none, some, List, [], ◌∷◌, ◌++◌, Text, text, leb, length, take,
  is_empty, find_first, not, map, if◌then◌else◌, nat_beq,
}
use mahi_ai.Prelude.Chars.{trim, to_digit_16}
use mahi_ai.Engine.Env.{Serde}

-- '…'
abbrev pub ellipsis : ℕ
ellipsis = 0x2026

unfoldable pub truncate_for_summary : Text → ℕ → Text
truncate_for_summary s max_chars =
    if leb (length s) max_chars then s else take max_chars s ++ ellipsis ∷ []

-- `str::lines`: the pieces between line feeds, each without a carriage return at its end, and no
-- empty piece after a final line feed.
unfoldable pub split_lines : Text → Text → List Text
split_lines line [] = if is_empty line then [] else line ∷ []
split_lines line (c ∷ cs) =
    let here = split_lines [] cs in
    let on = split_lines (line ++ c ∷ []) cs in if nat_beq c 0x0a then line ∷ here else on

abbrev pub title_max_chars : ℕ
title_max_chars = 48

-- A carriage return that `lines` would take off is taken off by `trim`.
unfoldable pub first_line : Text → Text
unfolding split_lines
first_line t = elim (find_first (λ l. not (is_empty l)) (map trim (split_lines [] t))) [
  | none ↦ text "New conversation"
  | some l ↦ l
]

unfoldable pub title_from_text : Text → Text
title_from_text t =
    let line = first_line t in
    if leb (length line) title_max_chars then line else take title_max_chars line ++ ellipsis ∷ []

-- `decode_hex` reads two digits at a time; the length is tested first. A Rust text holds bytes, and a
-- character above 0x7f is none of the digits, whichever of its bytes is read.
unfoldable pub decode_pairs : Text → Option (List ℕ)
decode_pairs [] = some []
decode_pairs (c ∷ []) = none
decode_pairs (c ∷ d ∷ cs) =
    let rest = decode_pairs cs in
    elim (to_digit_16 c) [
      | none ↦ none
      | some hi ↦ elim (to_digit_16 d) [
        | none ↦ none
        | some lo ↦ elim rest [ none ↦ none | some bytes ↦ some ((hi * 16 + lo) % 256 ∷ bytes) ]
      ]
    ]

unfoldable pub decode_hex : Text → Option (List ℕ)
unfolding decode_pairs
decode_hex s = if nat_beq (length s % 2) 0 then decode_pairs s else none

module _ {V : Type 0} (serde : Serde V) where
  unfoldable pub parse_args : Text → V
  parse_args raw =
      if is_empty (trim raw) then serde.empty_object else elim (serde.from_str (trim raw)) [
        | none ↦ serde.empty_object
        | some v ↦ if serde.is_object v then v else serde.empty_object
      ]

  unfoldable pub screenshot_image_block : V → Option (Text × Text)
  unfolding decode_hex
  screenshot_image_block output = elim (serde.image_hex output) [
    | none ↦ none
    | some hex ↦ elim (decode_hex hex) [
      | none ↦ none
      | some bytes ↦ if is_empty bytes then none else some (text "image/png", serde.base64 bytes)
    ]
  ]
