-- ===== src/Store/Messages/Order.antt =====
-- The messages of crates/mahi-data/src/store.rs: numbers that `next_sequence` draws, and what `range`
-- answers after an `append` with such a number.
use mahi_ai.Prelude.{
  ℕ, zero, suc, ◌≤◌, ◌≡◌, ◌≢◌, refl, sym, ◌∙◌, ap, inl, inr, true, false, if◌then◌else◌, none, some,
  List, [], ◌∷◌, ◌++◌, Text, text_eq, ◌==◌, All, length, take, nat_beq, nat_beq_iff, Bool-cases,
  Option-cases, arith,
}
use mathlib.Core.Path.{subst}
use mahi_ai.Prelude.Int.{ℤ, pos, negsuc, leb_ℤ, i64_succ, i64_max}
use mahi_ai.Store.{MessageColumns}
use mahi_ai.Store.Rows.{Row, Table, place, order_by, select_by_id, delete_by_id}
use mahi_ai.Store.Messages.{earlier, max_sequence}

-- The successor on 64 bits is greater, unless it wraps.
pub i64_succ-leb_ℤ : (m : ℤ) → m ≢ pos i64_max → leb_ℤ (i64_succ m) m ≡ false
i64_succ-leb_ℤ (pos m) d = elim (Bool-cases (nat_beq m i64_max)) [
  | inl top ↦ absurd (d (ap pos ((nat_beq_iff m i64_max).0 top)))
  | inr below ↦ rw below (ground arith)
]
i64_succ-leb_ℤ (negsuc zero) d = refl
i64_succ-leb_ℤ (negsuc (suc m)) d = ground arith

pub leb_ℤ-refl : (a : ℤ) → leb_ℤ a a ≡ true
leb_ℤ-refl (pos a) = ground arith
leb_ℤ-refl (negsuc a) = ground arith

pub leb_ℤ-trans : (a b c : ℤ) → leb_ℤ a b ≡ true → leb_ℤ b c ≡ true → leb_ℤ a c ≡ true
leb_ℤ-trans (pos a) (pos b) (pos c) h k = ground (arith, h, k)
leb_ℤ-trans (pos a) (pos b) (negsuc c) h k = absurd (cc k)
leb_ℤ-trans (pos a) (negsuc b) c h k = absurd (cc h)
leb_ℤ-trans (negsuc a) b (pos c) h k = refl
leb_ℤ-trans (negsuc a) (pos b) (negsuc c) h k = absurd (cc k)
leb_ℤ-trans (negsuc a) (negsuc b) (negsuc c) h k = ground (arith, h, k)

pub leb_ℤ-total : (a b : ℤ) → leb_ℤ a b ≡ false → leb_ℤ b a ≡ true
leb_ℤ-total (pos a) (pos b) h = ground (arith, h)
leb_ℤ-total (pos a) (negsuc b) h = refl
leb_ℤ-total (negsuc a) (pos b) h = absurd (cc h)
leb_ℤ-total (negsuc a) (negsuc b) h = ground (arith, h)

-- Every message of the table comes before this number.
abbrev pub AllUpTo : ℤ → Table MessageColumns → Type 0
AllUpTo n rows = All (λ r. leb_ℤ r.columns.sequence_num n ≡ true) rows

AllUpTo-weaken :
    (m n : ℤ) (rows : Table MessageColumns) → leb_ℤ m n ≡ true → AllUpTo m rows → AllUpTo n rows
AllUpTo-weaken m n [] h a = tt
AllUpTo-weaken m n (r ∷ rows) h a =
    (leb_ℤ-trans r.columns.sequence_num m n a.0 h, AllUpTo-weaken m n rows h a.1)

pub max_sequence-some :
    (r : Row MessageColumns) (rows : Table MessageColumns)
    → (m : ℤ) × (max_sequence (r ∷ rows) ≡ some m)
unfolding max_sequence
max_sequence-some r rows = elim (Option-cases (max_sequence rows)) [
  | inl nothing ↦ (r.columns.sequence_num, rw nothing refl)
  | inr (n, greatest) ↦
      (if leb_ℤ r.columns.sequence_num n then n else r.columns.sequence_num, rw greatest refl)
]

none-AllUpTo : (m : ℤ) (rows : Table MessageColumns) → max_sequence rows ≡ none → AllUpTo m rows
unfolding max_sequence
none-AllUpTo m [] h = tt
none-AllUpTo m (r ∷ rows) h =
    let (n, greatest) = max_sequence-some r rows in absurd (cc (sym greatest ∙ h))

pub max_sequence-AllUpTo :
    (rows : Table MessageColumns) (m : ℤ) → max_sequence rows ≡ some m → AllUpTo m rows
unfolding max_sequence
max_sequence-AllUpTo [] m h = tt
max_sequence-AllUpTo (r ∷ rows) m h = elim (Option-cases (max_sequence rows)) [
  | inl nothing ↦
      let step : max_sequence (r ∷ rows) ≡ some r.columns.sequence_num = rw nothing refl in
      let this : r.columns.sequence_num ≡ m = cc (sym step ∙ h) in
      (rw this (leb_ℤ-refl m), none-AllUpTo m rows nothing)
  | inr (n, greatest) ↦ elim (Bool-cases (leb_ℤ r.columns.sequence_num n)) [
    | inl below ↦
        let step : max_sequence (r ∷ rows) ≡ some n = rw (greatest, below) refl in
        let this : n ≡ m = cc (sym step ∙ h) in
        subst (λ x. AllUpTo x (r ∷ rows)) this (below, max_sequence-AllUpTo rows n greatest)
    | inr above ↦
        let step : max_sequence (r ∷ rows) ≡ some r.columns.sequence_num =
          rw (greatest, above) refl in
        let this : r.columns.sequence_num ≡ m = cc (sym step ∙ h) in
        subst (λ x. AllUpTo x (r ∷ rows)) this
          (
            leb_ℤ-refl r.columns.sequence_num,
            AllUpTo-weaken n r.columns.sequence_num rows
                (leb_ℤ-total r.columns.sequence_num n above) (max_sequence-AllUpTo rows n greatest),
          )
  ]
]

place-last :
    (q r : Row MessageColumns) (rows : Table MessageColumns)
    → leb_ℤ q.columns.sequence_num r.columns.sequence_num ≡ true
    → place earlier q (rows ++ r ∷ []) ≡ place earlier q rows ++ r ∷ []
unfolding place
place-last q r [] h = rw h refl
place-last q r (x ∷ rows) h = elim (Bool-cases (earlier x q)) [
  | inl after ↦ rw (after, place-last q r rows h) refl
  | inr before ↦ rw before refl
]

pub order_by-last :
    (r : Row MessageColumns) (rows : Table MessageColumns)
    → AllUpTo r.columns.sequence_num rows
    → order_by earlier (rows ++ r ∷ []) ≡ order_by earlier rows ++ r ∷ []
unfolding order_by
order_by-last r [] h = refl
order_by-last r (q ∷ rows) h =
    rw (order_by-last r rows h.1) (place-last q r (order_by earlier rows) h.0)

length-place :
    (q : Row MessageColumns) (rows : Table MessageColumns)
    → length (place earlier q rows) ≡ suc (length rows)
unfolding place
length-place q [] = refl
length-place q (x ∷ rows) = elim (Bool-cases (earlier x q)) [
  | inl after ↦ rw (after, length-place q rows) refl
  | inr before ↦ rw before refl
]

pub length-order_by : (rows : Table MessageColumns) → length (order_by earlier rows) ≡ length rows
unfolding order_by
length-order_by [] = refl
length-order_by (q ∷ rows) =
    length-place q (order_by earlier rows) ∙ ap (λ n. suc n) (length-order_by rows)

pub take-append {ℓ} :
    {A : Type ℓ} (n : ℕ) (xs ys : List A) → n ≤ length xs → take n (xs ++ ys) ≡ take n xs
take-append zero xs ys h = refl
take-append (suc n) [] ys h = absurd (omega (arith, h))
take-append (suc n) (x ∷ xs) ys h = rw (take-append n xs ys (omega (arith, h))) refl

pub delete-fresh :
    (id : Text) (table : Table MessageColumns)
    → select_by_id id table ≡ none
    → delete_by_id id table ≡ table
unfolding select_by_id delete_by_id
delete-fresh id [] h = refl
delete-fresh id (r ∷ table) h = elim (Bool-cases (r.id == id)) [
  | inl here ↦
      let found : select_by_id id (r ∷ table) ≡ some r = rw here refl in absurd (cc (sym found ∙ h))
  | inr other ↦
      let past : select_by_id id (r ∷ table) ≡ select_by_id id table = rw other refl in
      rw other (ap (λ t. r ∷ t) (delete-fresh id table (sym past ∙ h)))
]
