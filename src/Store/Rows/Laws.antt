-- ===== src/Store/Rows/Laws.antt =====
-- What a table of crates/mahi-data/src/store.rs holds after a row was written or removed.
use mahi_ai.Prelude.{
  ◌≡◌, refl, false, none, some, [], ◌∷◌, ◌++◌, Text, arith, text_eq, text_beq, text_beq_iff,
  if◌then◌else◌,
}
use mahi_ai.Store.Rows.{Row, Table, select_by_id, delete_by_id, insert_or_replace}

module _ {C : Type 0} where
  pub select-delete :
      (key j : Text) (table : Table C)
      → select_by_id j (delete_by_id key table)
        ≡ (if text_beq key j then none else select_by_id j table)
  unfolding select_by_id delete_by_id
  select-delete key j [] = ground arith
  select-delete key j (r ∷ table) = ground (
    arith,
    text_beq_iff key j,
    text_beq_iff r.id key,
    text_beq_iff r.id j,
    select-delete key j table,
  )

  select-append :
      (j : Text) (table : Table C) (row : Row C)
      → select_by_id j table ≡ none
      → select_by_id j (table ++ row ∷ []) ≡ (if text_beq row.id j then some row else none)
  unfolding select_by_id
  select-append j [] row h = refl
  select-append j (r ∷ table) row h = ground (arith, h, select-append j table row)

  select-append_other :
      (j : Text) (table : Table C) (row : Row C)
      → text_beq row.id j ≡ false
      → select_by_id j (table ++ row ∷ []) ≡ select_by_id j table
  unfolding select_by_id
  select-append_other j [] row h = ground (arith, h)
  select-append_other j (r ∷ table) row h = ground (arith, h, select-append_other j table row h)

  pub select-insert :
      (row : Row C) (j : Text) (table : Table C)
      → select_by_id j (insert_or_replace row table)
        ≡ (if text_beq row.id j then some row else select_by_id j table)
  unfolding insert_or_replace
  select-insert row j table = ground (
    arith,
    select-delete row.id j table,
    select-append j (delete_by_id row.id table) row,
    select-append_other j (delete_by_id row.id table) row,
  )
