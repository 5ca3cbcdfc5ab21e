-- ===== src/Store/Messages/Oldest.antt =====
-- What `ORDER BY sequence_num ASC LIMIT` of crates/mahi-data/src/store.rs picks from the rows of a
-- conversation.
use mahi_ai.Prelude.{
  ℕ, zero, suc, ◌≤◌, ◌≡◌, refl, ap, inl, inr, true, List, [], ◌∷◌, ◌++◌, All, length, take,
  Bool-cases, arith,
}
use mathlib.Core.List.{Perm}
use mathlib.Core.List.Perm
use mahi_ai.Prelude.Int.{leb_ℤ}
use mahi_ai.Store.{MessageColumns}
use mahi_ai.Store.Rows.{Row, Table, place, order_by}
use mahi_ai.Store.Messages.{earlier}
use mahi_ai.Store.Messages.Order.{leb_ℤ-trans, leb_ℤ-total}

-- Every message of the rows has this number or a greater one.
abbrev pub AllFrom : Row MessageColumns → Table MessageColumns → Type 0
AllFrom r rows = All (λ q. leb_ℤ r.columns.sequence_num q.columns.sequence_num ≡ true) rows

-- No message comes after one with a greater number.
abbrev pub Ascending : Table MessageColumns → Type 0
Ascending [] = Unit
Ascending (r ∷ rows) = AllFrom r rows × Ascending rows

AllFrom-weaken :
    (r q : Row MessageColumns) (rows : Table MessageColumns)
    → leb_ℤ r.columns.sequence_num q.columns.sequence_num ≡ true
    → AllFrom q rows
    → AllFrom r rows
AllFrom-weaken r q [] h a = tt
AllFrom-weaken r q (x ∷ rows) h a = (
  leb_ℤ-trans r.columns.sequence_num q.columns.sequence_num x.columns.sequence_num h a.0,
  AllFrom-weaken r q rows h a.1,
)

AllFrom-place :
    (q r : Row MessageColumns) (rows : Table MessageColumns)
    → leb_ℤ q.columns.sequence_num r.columns.sequence_num ≡ true
    → AllFrom q rows
    → AllFrom q (place earlier r rows)
unfolding place
AllFrom-place q r [] h a = (h, tt)
AllFrom-place q r (x ∷ rows) h a = elim (Bool-cases (earlier x r)) [
  | inl after ↦ rw after (a.0, AllFrom-place q r rows h a.1)
  | inr before ↦ rw before (h, a)
]

place-Ascending :
    (r : Row MessageColumns) (rows : Table MessageColumns)
    → Ascending rows
    → Ascending (place earlier r rows)
unfolding place
place-Ascending r [] a = (tt, tt)
place-Ascending r (q ∷ rows) a =
    elim (Bool-cases (leb_ℤ r.columns.sequence_num q.columns.sequence_num)) [
      | inl here ↦ rw here ((here, AllFrom-weaken r q rows here a.0), a)
      | inr after ↦ rw after (
        AllFrom-place q r rows (leb_ℤ-total r.columns.sequence_num q.columns.sequence_num after)
            a.0,
        place-Ascending r rows a.1,
      )
    ]

pub order_by-Ascending : (rows : Table MessageColumns) → Ascending (order_by earlier rows)
unfolding order_by
order_by-Ascending [] = tt
order_by-Ascending (r ∷ rows) = place-Ascending r (order_by earlier rows) (order_by-Ascending rows)

place-perm :
    (r : Row MessageColumns) (rows : Table MessageColumns) → Perm (place earlier r rows) (r ∷ rows)
unfolding place
place-perm r [] = Perm.rfl
place-perm r (q ∷ rows) = elim (Bool-cases (earlier q r)) [
  | inl after ↦ rw after (Perm.trans (Perm.cons q (place-perm r rows)) (Perm.swap r q rows))
  | inr before ↦ rw before Perm.rfl
]

pub order_by-perm : (rows : Table MessageColumns) → Perm (order_by earlier rows) rows
unfolding order_by
order_by-perm [] = Perm.rfl
order_by-perm (r ∷ rows) =
    Perm.trans (place-perm r (order_by earlier rows)) (Perm.cons r (order_by-perm rows))

-- The rows with the least numbers of a table, so many of them, in order.
abbrev pub Oldest : ℕ → Table MessageColumns → Table MessageColumns → Type 0
Oldest limit rows oldest =
    (length oldest ≡ limit)
    × (rest : Table MessageColumns) × Perm (oldest ++ rest) rows
    × Ascending (oldest ++ rest)

take-split :
    {A : Type 0} (n : ℕ) (xs : List A)
    → n ≤ length xs
    → (rest : List A) × (take n xs ++ rest ≡ xs) × (length (take n xs) ≡ n)
take-split zero xs h = (xs, refl, refl)
take-split (suc n) [] h = absurd (omega (arith, h))
take-split (suc n) (x ∷ xs) h =
    let (rest, whole, size) = take-split n xs (omega (arith, h)) in
    (rest, ap (λ l. x ∷ l) whole, ap (λ m. suc m) size)

pub order_by-Oldest :
    (limit : ℕ) (rows : Table MessageColumns)
    → limit ≤ length (order_by earlier rows)
    → Oldest limit rows (take limit (order_by earlier rows))
order_by-Oldest limit rows enough =
    let (rest, whole, size) = take-split limit (order_by earlier rows) enough in
    (size, rest, rw whole (order_by-perm rows), rw whole (order_by-Ascending rows))
