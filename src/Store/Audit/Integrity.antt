-- ===== src/Store/Audit/Integrity.antt =====
-- What the audit log of crates/mahi-data/src/store.rs promises: when an `append` keeps the chain verified, and a
-- row taken out of the middle is noticed.
use mahi_ai.Prelude.{
  ◌≡◌, ◌↔◌, ◌≢◌, refl, sym, ◌∙◌, true, false, inl, inr, List, [], ◌∷◌, ◌++◌, text_beq_iff, Text,
  text_eq, ◌==◌, Bool-cases, length, none,
}
use mathlib.Core.Path.{subst}
use mahi_ai.Contracts.Data.{AuditEvent}
use mahi_ai.Contracts.Result.{ok}
use mahi_ai.Store.{SqliteBackend, AuditRow}
use mahi_ai.Store.Crypto.{Bytes, Primitives, OpensSealed}
use mahi_ai.Store.Sealed.{Format, Fault}
use mahi_ai.Store.Audit.{last_hash, append, verify_rows, verify_chain}
use mahi_ai.Store.Audit.Chain.{
  Rereads, verify_rows-append, verify_rows-prefix, appended, audit_row-Fits, verify_rows-Fits,
  Fits-verify_rows,
}

module _ (p : Primitives) {V : Type 0} (f : Format (AuditEvent V)) where
  -- Where the cipher opens what it sealed and the nonce has its twelve bytes: after an `append` that
  -- succeeds on a log whose chain verifies, whatever `prev_hash` the event came with, the chain verifies
  -- exactly where the JSON of the event, chained to the last hash, reads back to an event that is written
  -- with the same hash.
  pub append-verify_chain :
      OpensSealed p
      → (reading writing : Fault) (drawn : Bytes) (event : AuditEvent V) (s after : SqliteBackend)
      → length drawn ≡ 12
      → verify_chain p f none s ≡ ok true
      → append p f reading writing drawn event s ≡ ok after
      → (json : Bytes) × (f.to_vec (record (event) { prev_hash = last_hash s.audit }) ≡ ok json)
        × ((verify_chain p f none after ≡ ok true) ↔ Rereads p f json)
  unfolding verify_chain verify_rows
  append-verify_chain opens reading writing drawn event s after twelve sound h =
      let (row, made, grown, fresh) = appended p f s.root reading writing drawn event s after h in
      let (json, written, iff) =
        audit_row-Fits p f s.root opens drawn (record (event) { prev_hash = last_hash s.audit }) row
          twelve made in
      let last = verify_rows-append p f s.root [] s.audit (row ∷ []) sound in
      (
        json,
        written,
        subst (λ x. (verify_chain p f none x ≡ ok true) ↔ Rereads p f json) (sym grown)
            (
              (λ verified.
                  iff.0
                    (Fits-verify_rows p f s.root (last_hash s.audit) row []
                      (sym last ∙ verified)).0),
              (λ rereads.
                  last ∙ verify_rows-Fits p f s.root (last_hash s.audit) row [] (iff.1 rereads)),
            ),
      )

  broken_link :
      (root : Bytes) (prev : Text) (row : AuditRow) (rows : List AuditRow)
      → row.prev_hash ≢ prev
      → verify_rows p f root prev (row ∷ rows) ≡ ok false
  unfolding verify_rows
  broken_link root prev row rows differs = elim (Bool-cases (row.prev_hash == prev)) [
    | inl linked ↦ absurd (differs ((text_beq_iff row.prev_hash prev).0 linked))
    | inr broken ↦ rw broken refl
  ]

  -- Taking a row out of a log whose chain verifies, with rows after it, makes the verification answer
  -- false, unless the hash of that row is that of what stood before it.
  pub verify_chain-removed :
      (s : SqliteBackend) (front : List AuditRow) (row next : AuditRow) (rest : List AuditRow)
      → s.audit ≡ front ++ row ∷ next ∷ rest
      → verify_chain p f none s ≡ ok true
      → row.hash ≢ last_hash front
      → verify_chain p f none (record (s) { audit = front ++ next ∷ rest }) ≡ ok false
  unfolding verify_chain
  verify_chain-removed s front row next rest split sound differs =
      let whole : verify_rows p f s.root [] (front ++ row ∷ next ∷ rest) ≡ ok true =
        subst (λ x. verify_rows p f s.root [] x ≡ ok true) split sound in
      let before = verify_rows-prefix p f s.root [] front (row ∷ next ∷ rest) whole in
      let from_row =
        sym (verify_rows-append p f s.root [] front (row ∷ next ∷ rest) before) ∙ whole in
      let (fits, onward) =
        Fits-verify_rows p f s.root (last_hash front) row (next ∷ rest) from_row in
      let (linked, after) = Fits-verify_rows p f s.root row.hash next rest onward in
      verify_rows-append p f s.root [] front (next ∷ rest) before
      ∙ broken_link s.root (last_hash front) next rest (λ e. differs (sym linked.0 ∙ e))
