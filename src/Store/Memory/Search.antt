-- ===== src/Store/Memory/Search.antt =====
-- `semantic_search` of crates/mahi-data/src/store.rs: what it answers and how much.
use mahi_ai.Prelude.{
  ℕ, suc, ◌+◌, ◌≤◌, ◌≡◌, refl, sym, ◌∙◌, inl, inr, ◌⊎◌, true, false, Option, List, [], ◌∷◌, Text,
  All, length, leb, Bool-cases, arith,
}
use mathlib.Core.Path.{subst}
use mahi_ai.Contracts.Types.{Uuid}
use mahi_ai.Contracts.Errors.{ContractError}
use mahi_ai.Contracts.Records.{MemoryRecord}
use mahi_ai.Contracts.Result.{Result, ok, ◌>>=◌, bind_ok}
use mahi_ai.Store.{SqliteBackend}
use mahi_ai.Store.Crypto.{Bytes, Primitives}
use mahi_ai.Store.Rows.{Table}
use mahi_ai.Store.Sealed.{Format, Fault, statement, open_row}
use mahi_ai.Store.Memory.{
  collection, space_text, candidates, matches, consider, search_rows, semantic_search,
}

module _ (p : Primitives) (f : Format MemoryRecord) (to_lowercase : Text → Text) where
  abbrev pub AllMatch : Text → List MemoryRecord → Type 0
  AllMatch needle recs = All (λ r. matches p f to_lowercase needle r ≡ true) recs

  consider-cases :
      (needle : Text) (limit found : ℕ) (further past : Result ContractError (List MemoryRecord))
      (rec : MemoryRecord) (recs : List MemoryRecord)
      → consider p f to_lowercase needle limit found further past rec ≡ ok recs
      → (past ≡ ok recs)
        ⊎ ((matches p f to_lowercase needle rec ≡ true)
            × ((rec ∷ [] ≡ recs)
                ⊎ ((leb limit (suc found) ≡ false)
                    × (more : List MemoryRecord) × (further ≡ ok more)
                    × (rec ∷ more ≡ recs))))
  unfolding consider
  consider-cases needle limit found further past rec recs h =
      elim (Bool-cases (matches p f to_lowercase needle rec)) [
        | inr differs ↦
            let step : consider p f to_lowercase needle limit found further past rec ≡ past =
              rw differs refl in
            inl (sym step ∙ h)
        | inl fits ↦ elim (Bool-cases (leb limit (suc found))) [
          | inl reached ↦
              let step : consider p f to_lowercase needle limit found further past rec
                  ≡ ok (rec ∷ []) =
                rw (fits, reached) refl in
              inr (fits, inl (cc (sym step ∙ h)))
          | inr under ↦
              let step : consider p f to_lowercase needle limit found further past rec
                  ≡ (further >>= λ others. ok (rec ∷ others)) =
                rw (fits, under) refl in
              let (more, reached, done) =
                bind_ok further (λ others. ok (rec ∷ others)) recs (sym step ∙ h) in
              inr (fits, inr (under, more, reached, cc done))
        ]
      ]

  abbrev Bounded : Text → (limit found : ℕ) → List MemoryRecord → Type 0
  Bounded needle limit found recs =
      AllMatch needle recs × ((length recs + found ≤ limit) ⊎ (length recs ≤ 1))

  search_rows-Bounded :
      (root : Bytes) (needle : Text) (limit found : ℕ) (rows : Table (Option Text))
      (recs : List MemoryRecord)
      → search_rows p f to_lowercase root needle limit found rows ≡ ok recs
      → Bounded needle limit found recs
  unfolding search_rows
  search_rows-Bounded root needle limit found [] recs h =
      let nothing : [] ≡ recs = cc h in
      subst (Bounded needle limit found) nothing (tt, inr (omega arith))
  search_rows-Bounded root needle limit found (row ∷ rows) recs h =
      let further = search_rows p f to_lowercase root needle limit (suc found) rows in
      let past = search_rows p f to_lowercase root needle limit found rows in
      let (rec, opened, rest) =
        bind_ok (open_row p f root collection row)
          (consider p f to_lowercase needle limit found further past) recs h in
      elim (consider-cases needle limit found further past rec recs rest) [
        | inl passed ↦ search_rows-Bounded root needle limit found rows recs passed
        | inr (fits, inl only) ↦
            subst (Bounded needle limit found) only ((fits, tt), inr (omega arith))
        | inr (fits, inr (under, more, reached, whole)) ↦
            let (others, size) =
              search_rows-Bounded root needle limit (suc found) rows more reached in
            subst (Bounded needle limit found) whole
              ((fits, others), inl (ground (arith, under, size)))
      ]

  -- Every record that `semantic_search` answers fits the query, and there are at most `limit` of them, or
  -- one where the limit is 0.
  pub semantic_search-AllMatch :
      (fault : Fault) (query : Text) (space_id : Option Uuid) (limit : ℕ) (s : SqliteBackend)
      (recs : List MemoryRecord)
      → semantic_search p f to_lowercase fault query space_id limit s ≡ ok recs
      → AllMatch (to_lowercase query) recs × ((length recs ≤ limit) ⊎ (length recs ≤ 1))
  unfolding semantic_search
  semantic_search-AllMatch fault query space_id limit s recs h =
      let (rows, read, rest) =
        bind_ok (statement fault (candidates (space_text p space_id) s.memory))
          (search_rows p f to_lowercase s.root (to_lowercase query) limit 0) recs h in
      let (fits, size) = search_rows-Bounded s.root (to_lowercase query) limit 0 rows recs rest in
      (fits, ground (arith, size))
