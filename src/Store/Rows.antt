-- ===== src/Store/Rows.antt =====
-- The tables of crates/mahi-data/src/store.rs as the lists of their rows in the order of `rowid`, and
-- its SQL statements as functions on them. `C` holds the index columns of a row. Rows that a query leaves
-- unordered stand in the order of `rowid`.
pub mod Laws
use mahi_ai.Prelude.{
  ℕ, ◌^◌, Bool, not, Option, none, some, List, [], ◌∷◌, ◌++◌, Text, ltb, take, keep, find_first,
  text_eq, ◌==◌, if◌then◌else◌,
}

pub record Row (C : Type 0) : Type 0 where
  pub id : Text
  pub columns : C
  pub enc : List ℕ
  pub nonce : List ℕ

abbrev pub Table : Type 0 → Type 0
Table C = List (Row C)

module _ {C : Type 0} where
  -- `WHERE id = ?1` on the primary key
  unfoldable pub select_by_id : Text → Table C → Option (Row C)
  select_by_id key table = find_first (λ r. r.id == key) table

  -- `DELETE ... WHERE id = ?1`
  unfoldable pub delete_by_id : Text → Table C → Table C
  delete_by_id key table = keep (λ r. not (r.id == key)) table

  -- `INSERT OR REPLACE`: the row of that key goes, and the new one gets the greatest `rowid`.
  unfoldable pub insert_or_replace : Row C → Table C → Table C
  unfolding delete_by_id
  insert_or_replace row table = delete_by_id row.id table ++ row ∷ []

-- `LIMIT ?1` of a `limit as i64`: from 2^63 on the number is negative, which SQLite reads as no limit.
unfoldable pub limit_rows : {A : Type 0} → ℕ → List A → List A
limit_rows limit rows = if ltb limit (2 ^ 63) then take limit rows else rows

-- `ORDER BY`: `before a b` says that `a` comes strictly before `b`; rows that tie keep their order.
unfoldable pub place : {A : Type 0} → (A → A → Bool) → A → List A → List A
place before r [] = r ∷ []
place before r (q ∷ rows) =
    let rest = place before r rows in if before q r then q ∷ rest else r ∷ q ∷ rows

unfoldable pub order_by : {A : Type 0} → (A → A → Bool) → List A → List A
unfolding place
order_by before [] = []
order_by before (r ∷ rows) = place before r (order_by before rows)
