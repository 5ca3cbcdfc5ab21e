-- ===== src/Tooling/Files/Edit/Replaced.antt =====
-- What an edit of crates/mahi-tooling/src/tools/file.rs changes in a text.
use mahi_ai.Prelude.{
  ℕ, zero, suc, ◌-◌, ◌≤◌, ◌≡◌, ◌≢◌, refl, ap, ◌∙◌, Bool, true, false, [], ◌∷◌, ◌++◌, Text,
  nat_beq_iff, length, arith, if◌then◌else◌,
}
use mahi_ai.Prelude.Chars.{starts_with}
use mahi_ai.Tooling.Files.Edit.{count_from, replace_from, replace_first, drop_text}

starts_with-split : (old t : Text) → starts_with old t ≡ true → t ≡ old ++ drop_text (length old) t
starts_with-split [] t h = refl
starts_with-split (a ∷ old) [] h = absurd (cc h)
starts_with-split (a ∷ old) (b ∷ t) h =
    let same : (a ≡ b) × (starts_with old t ≡ true) = ground (arith, nat_beq_iff a b) in
    cc (same.0, starts_with-split old t same.1)

-- The text has a match between what stands before it and after it, and the edit puts the new text
-- there.
abbrev pub Edited : (old new content edited : Text) → Type 0
Edited old new content edited =
    (before : Text) × (rest : Text) × (content ≡ before ++ (old ++ rest))
    × (edited ≡ before ++ (new ++ rest))

Edited-cons :
    (c : ℕ) (old new content edited : Text)
    → Edited old new content edited
    → Edited old new (c ∷ content) (c ∷ edited)
Edited-cons c old new content edited (before, rest, here, there) =
    (c ∷ before, rest, ap (λ t. c ∷ t) here, ap (λ t. c ∷ t) there)

-- A text with a match is edited at the first one.
pub replace_first-Edited :
    (old new content : Text)
    → count_from old zero content ≢ 0
    → Edited old new content (replace_first old new content)
unfolding count_from replace_first
replace_first-Edited old new [] some_match = absurd (some_match refl)
replace_first-Edited old new (c ∷ cs) some_match =
    go (starts_with old (c ∷ cs)) refl some_match (replace_first-Edited old new cs)
  where
    go :
        (b : Bool)
        → starts_with old (c ∷ cs) ≡ b
        → (if b then suc (count_from old (length old - 1) cs) else count_from old zero cs) ≢ 0
        → (count_from old zero cs ≢ 0 → Edited old new cs (replace_first old new cs))
        → Edited old new
            (c ∷ cs)
            (if b then new ++ drop_text (length old) (c ∷ cs) else c ∷ replace_first old new cs)
    go true h some_match ih =
        ([], drop_text (length old) (c ∷ cs), starts_with-split old (c ∷ cs) h, refl)
    go false h some_match ih = Edited-cons c old new cs (replace_first old new cs) (ih some_match)

-- Where no match follows, nothing is replaced.
replace_from_none :
    (old new : Text) (skip : ℕ) (t : Text)
    → count_from old skip t ≡ 0
    → replace_from old new skip t ≡ drop_text skip t
unfolding count_from replace_from
replace_from_none old new zero [] h = refl
replace_from_none old new (suc skip) [] h = refl
replace_from_none old new (suc skip) (c ∷ cs) h = replace_from_none old new skip cs h
replace_from_none old new zero (c ∷ cs) h =
    go (starts_with old (c ∷ cs)) h (replace_from_none old new zero cs)
  where
    go :
        (b : Bool)
        → (if b then suc (count_from old (length old - 1) cs) else count_from old zero cs) ≡ 0
        → (count_from old zero cs ≡ 0 → replace_from old new zero cs ≡ cs)
        → (if b
            then new ++ replace_from old new (length old - 1) cs
            else c ∷ replace_from old new zero cs)
          ≡ c ∷ cs
    go true h ih = absurd (omega arith)
    go false h ih = ap (λ t. c ∷ t) (ih h)

drop_text_pred : (n : ℕ) (c : ℕ) (cs : Text) → 1 ≤ n → drop_text (n - 1) cs ≡ drop_text n (c ∷ cs)
drop_text_pred zero c cs h = absurd (omega arith)
drop_text_pred (suc n) c cs h = ap (λ m. drop_text m cs) (omega arith)

-- With one match, replacing all and replacing the first is the same.
pub replace_from_once :
    (old new content : Text)
    → 1 ≤ length old
    → count_from old zero content ≡ 1
    → replace_from old new zero content ≡ replace_first old new content
unfolding count_from replace_from replace_first
replace_from_once old new [] long h = absurd (omega arith)
replace_from_once old new (c ∷ cs) long h =
    go (starts_with old (c ∷ cs)) h (replace_from_once old new cs long)
  where
    go :
        (b : Bool)
        → (if b then suc (count_from old (length old - 1) cs) else count_from old zero cs) ≡ 1
        → (count_from old zero cs ≡ 1 → replace_from old new zero cs ≡ replace_first old new cs)
        → (if b
            then new ++ replace_from old new (length old - 1) cs
            else c ∷ replace_from old new zero cs)
          ≡ (if b then new ++ drop_text (length old) (c ∷ cs) else c ∷ replace_first old new cs)
    go true h ih =
        ap (λ t. new ++ t)
          (replace_from_none old new (length old - 1) cs (omega arith)
            ∙ drop_text_pred (length old) c cs long)
    go false h ih = ap (λ t. c ∷ t) (ih h)
