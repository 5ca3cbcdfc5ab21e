-- ===== src/Tooling/Files/Bytes/Cut.antt =====
-- The cut of crates/mahi-tooling/src/tools/file.rs keeps as many whole characters as fit.
use mahi_ai.Prelude.{
  ℕ, zero, suc, ◌+◌, ◌-◌, ◌≤◌, ◌<◌, ◌≡◌, refl, sym, ap, ◌∙◌, inl, inr, Bool, true, false, [], ◌∷◌,
  ◌++◌, Text, ltb, if◌then◌else◌, Bool-cases, arith,
}
use mathlib.Core.Path.{subst}
use mahi_ai.Tooling.Files.Bytes.{len_utf8, byte_len, is_char_boundary, back_to_boundary, truncate}

len_utf8-positive : (c : ℕ) → 1 ≤ len_utf8 c
len_utf8-positive c = ground arith

-- The step of the next lemma, at a first character of `w` bytes.
inside_step :
    (c w n : ℕ) (cs : Text)
    → 1 ≤ w
    → ((m : ℕ) → is_char_boundary cs (suc m) ≡ false → truncate cs (suc m) ≡ truncate cs m)
    → (if ltb (suc n) w then false else is_char_boundary cs (suc n - w)) ≡ false
    → (if ltb (suc n) w then [] else c ∷ truncate cs (suc n - w))
      ≡ (if ltb n w then [] else c ∷ truncate cs (n - w))
inside_step c w n cs wide ih h = elim (Bool-cases (ltb (suc n) w)) [
  | inl short ↦ let shorter : ltb n w ≡ true = ground arith in rw (short, shorter) refl
  | inr long ↦ go (suc n - w) refl long (rw long at h)
]
  where
    go :
        (k : ℕ)
        → suc n - w ≡ k
        → ltb (suc n) w ≡ false
        → is_char_boundary cs (suc n - w) ≡ false
        → (if ltb (suc n) w then [] else c ∷ truncate cs (suc n - w))
          ≡ (if ltb n w then [] else c ∷ truncate cs (n - w))
    go zero e long h = absurd (cc (e, h))
    go (suc m) e long h =
        let longer : ltb n w ≡ false = ground arith in
        let left : n - w ≡ m = ground arith in
        rw (long, longer, e, left) (ap (λ t. c ∷ t) (ih m (rw e at h)))

-- The byte before a place that is no boundary is cut alike.
truncate-inside :
    (t : Text) (n : ℕ) → is_char_boundary t (suc n) ≡ false → truncate t (suc n) ≡ truncate t n
truncate-inside [] n h = refl
truncate-inside (c ∷ cs) n h =
    inside_step c (len_utf8 c) n cs (len_utf8-positive c) (truncate-inside cs) h

truncate-back : (t : Text) (n : ℕ) → truncate t (back_to_boundary t n) ≡ truncate t n
truncate-back t zero = refl
truncate-back t (suc n) = go (is_char_boundary t (suc n)) refl (truncate-back t n)
  where
    go :
        (b : Bool)
        → is_char_boundary t (suc n) ≡ b
        → truncate t (back_to_boundary t n) ≡ truncate t n
        → truncate t (if b then suc n else back_to_boundary t n) ≡ truncate t (suc n)
    go true h ih = refl
    go false h ih = ih ∙ sym (truncate-inside t n h)

-- A text, what is cut off it, and that the first character cut off does not fit.
abbrev pub Fits : (t kept : Text) → ℕ → Type 0
Fits t kept n =
    (rest : Text) × (t ≡ kept ++ rest)
    × (byte_len kept ≤ n)
    × ((c : ℕ) (cs : Text) → rest ≡ c ∷ cs → n < byte_len kept + len_utf8 c)

first_overflows : (n w v : ℕ) → w ≡ v → ltb n w ≡ true → n < 0 + v
first_overflows n w v wide short = ground arith

widened : (w v k n : ℕ) → w ≡ v → ltb n w ≡ false → k ≤ n - w → v + k ≤ n
widened w v k n wide long fits = ground arith

overflows : (w v k d n : ℕ) → w ≡ v → n - w < k + d → n < v + k + d
overflows w v k d n wide next = omega arith

Fits-cons :
    (c w n : ℕ) (cs kept : Text)
    → w ≡ len_utf8 c
    → Fits cs kept (n - w)
    → Fits (c ∷ cs) (if ltb n w then [] else c ∷ kept) n
Fits-cons c w n cs kept wide (rest, split, fits, next) = go (ltb n w) refl
  where
    go : (b : Bool) → ltb n w ≡ b → Fits (c ∷ cs) (if b then [] else c ∷ kept) n
    go true short = (
      c ∷ cs,
      refl,
      omega arith,
      λ d ds h.
          let same : c ≡ d = cc h in
          first_overflows n w (len_utf8 d) (wide ∙ ap len_utf8 same) short,
    )
    go false long = (
      rest,
      ap (λ t. c ∷ t) split,
      widened w (len_utf8 c) (byte_len kept) n wide long fits,
      λ d ds h. overflows w (len_utf8 c) (byte_len kept) (len_utf8 d) n wide (next d ds h),
    )

truncate-Fits : (t : Text) (n : ℕ) → Fits t (truncate t n) n
truncate-Fits [] n = ([], refl, omega arith, λ c cs h. absurd (cc h))
truncate-Fits (c ∷ cs) n =
    Fits-cons c (len_utf8 c) n cs (truncate cs (n - len_utf8 c)) refl
      (truncate-Fits cs (n - len_utf8 c))

-- A text that is cut at the last boundary up to `n` is as long as whole characters of `n` bytes
-- allow.
pub cut-Fits : (t : Text) (n : ℕ) → Fits t (truncate t (back_to_boundary t n)) n
cut-Fits t n = subst (λ kept. Fits t kept n) (sym (truncate-back t n)) (truncate-Fits t n)
