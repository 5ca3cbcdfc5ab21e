-- ===== src/Engine/Texts/Bounds.antt =====
-- How long the texts are that the helpers of crates/mahi-agent-core/src/engine.rs make.
use mahi_ai.Prelude.{
  append-nil, ap, sym, ◌∙◌, ◌⊎◌, zero, suc, ℕ, ◌+◌, ◌*◌, ◌%◌, ◌≤◌, ◌<◌, ◌≡◌, refl, inl, inr, false,
  not, Bool-cases, Option-cases, Option, none, some, List, [], ◌∷◌, ◌++◌, All, map, arith, Text,
  leb, length, take, is_empty, find_first, length-append, length-take, if◌then◌else◌, nat_beq,
}
use mathlib.Core.Path.{subst}
use mahi_ai.Prelude.Chars.{trim, to_digit_16}
use mahi_ai.Engine.Texts.{
  ellipsis, truncate_for_summary, title_max_chars, first_line, title_from_text, decode_pairs,
  decode_hex, split_lines,
}

length_cut :
    (n : ℕ) (s : Text) → length (if leb (length s) n then s else take n s ++ ellipsis ∷ []) ≤ n + 1
length_cut n s = ground (arith, length-append (take n s) (ellipsis ∷ []), length-take n s)

take_all : (n : ℕ) (s : Text) → length s ≤ n → take n s ≡ s
take_all zero [] h = refl
take_all zero (c ∷ s) h = absurd (omega (arith, h))
take_all (suc n) [] h = refl
take_all (suc n) (c ∷ s) h = ap (λ t. c ∷ t) (take_all n s (omega (arith, h)))

-- A summary is the given number of characters of the text, and then an ellipsis exactly when the text
-- is longer than that.
pub truncate_for_summary-take :
    (s : Text) (max_chars : ℕ)
    → (tail : Text) × (truncate_for_summary s max_chars ≡ take max_chars s ++ tail)
      × (((tail ≡ []) × (length s ≤ max_chars)) ⊎ ((tail ≡ ellipsis ∷ []) × (max_chars < length s)))
unfolding truncate_for_summary
truncate_for_summary-take s max_chars = elim (Bool-cases (leb (length s) max_chars)) [
  | inl fits ↦
      let short : length s ≤ max_chars = ground (arith, fits) in
      (
        [],
        rw fits (sym (append-nil (take max_chars s) ∙ take_all max_chars s short)),
        inl (refl, short),
      )
  | inr long ↦ (ellipsis ∷ [], rw long refl, inr (refl, ground (arith, long)))
]

find_first_sound :
    (ls : List Text) (l : Text)
    → find_first (λ x. not (is_empty x)) ls ≡ some l
    → is_empty l ≡ false
find_first_sound [] l h = absurd (cc h)
find_first_sound (x ∷ ls) l h = elim (Bool-cases (is_empty x)) [
  | inl blank ↦ find_first_sound ls l (ground (arith, h, blank))
  | inr full ↦ ground (arith, h, full)
]

first_line_full : (t : Text) → is_empty (first_line t) ≡ false
unfolding first_line
first_line_full t =
    elim (Option-cases (find_first (λ l. not (is_empty l)) (map trim (split_lines [] t)))) [
      | inl absent ↦ rw (absent, first_line) refl
      | inr (l, found) ↦
          rw (found, first_line) (find_first_sound (map trim (split_lines [] t)) l found)
    ]

cut_full :
    (line : Text)
    → is_empty line ≡ false
    → is_empty (
        if leb (length line) title_max_chars
        then line
        else take title_max_chars line ++ ellipsis ∷ [])
      ≡ false
cut_full [] h = absurd (cc h)
cut_full (c ∷ line) h = elim (Bool-cases (leb (length (c ∷ line)) title_max_chars)) [
  | inl fits ↦ rw fits refl
  | inr long ↦ rw long refl
]

-- A conversation's title is never empty and has at most 48 characters and an ellipsis, whatever the
-- user wrote.
pub title_from_text_lem :
    (t : Text)
    → (length (title_from_text t) ≤ title_max_chars + 1) × (is_empty (title_from_text t) ≡ false)
unfolding title_from_text
title_from_text_lem t =
    (length_cut title_max_chars (first_line t), cut_full (first_line t) (first_line_full t))

-- What decoding a text as pairs of digits gives.
abbrev Decodes : Text → Option (List ℕ) → Type 0
Decodes s none = Unit
Decodes s (some bytes) = (length s ≡ 2 * length bytes) × All (λ b. b < 256) bytes

decode_pairs-Decodes : (s : Text) → Decodes s (decode_pairs s)
unfolding decode_pairs
decode_pairs-Decodes [] = (refl, tt)
decode_pairs-Decodes (c ∷ []) = tt
decode_pairs-Decodes (c ∷ d ∷ cs) =
    go (to_digit_16 c) (to_digit_16 d) (decode_pairs cs) (decode_pairs-Decodes cs)
  where
    go :
        (hi lo : Option ℕ) (rest : Option (List ℕ))
        → Decodes cs rest
        → Decodes (c ∷ d ∷ cs) (elim hi as (λ _. Option (List ℕ)) [
          | none ↦ none
          | some h ↦ elim lo as (λ _. Option (List ℕ)) [
            | none ↦ none
            | some l ↦ elim rest as (λ _. Option (List ℕ)) [
              | none ↦ none
              | some bytes ↦ some ((h * 16 + l) % 256 ∷ bytes)
            ]
          ]
        ])
    go none lo rest k = tt
    go (some h) none rest k = tt
    go (some h) (some l) none k = tt
    go (some h) (some l) (some bytes) k = (omega (arith, k.0), (omega arith, k.1))

decode_hex-some :
    (s : Text) (bytes : List ℕ) → decode_hex s ≡ some bytes → decode_pairs s ≡ some bytes
unfolding decode_hex
decode_hex-some s bytes h = elim (Bool-cases (nat_beq (length s % 2) 0)) [
  | inl even ↦ ground (arith, h, even)
  | inr odd ↦ absurd (ground (arith, h, odd))
]

-- Where decoding a text succeeds, it gives one byte, below 256, for every two characters.
pub length-decode_hex :
    (s : Text) (bytes : List ℕ)
    → decode_hex s ≡ some bytes
    → (length s ≡ 2 * length bytes) × All (λ b. b < 256) bytes
length-decode_hex s bytes h = subst (Decodes s) (decode_hex-some s bytes h) (decode_pairs-Decodes s)
