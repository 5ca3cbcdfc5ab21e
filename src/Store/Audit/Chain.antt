-- ===== src/Store/Audit/Chain.antt =====
-- The hash chain of crates/mahi-data/src/store.rs: what `append` and a removed row do to `verify_chain`.
use mahi_ai.Prelude.{
  ◌≡◌, ◌↔◌, refl, sym, ap, ◌∙◌, inl, inr, Bool, true, false, some, none, not, if◌then◌else◌, List,
  [], ◌∷◌, ◌++◌, Text, text_beq_iff, text_eq, ◌==◌, Bool-cases, beq_refl, length,
}
use mathlib.Core.Path.{subst}
use mahi_ai.Contracts.Errors.{ContractError}
use mahi_ai.Contracts.Data.{AuditEvent}
use mahi_ai.Contracts.Result.{Result, ok, err, ◌>>=◌, map_err, bind_ok, map_err_ok}
use mahi_ai.Store.{SqliteBackend, AuditRow}
use mahi_ai.Store.Crypto.{Bytes, Primitives, OpensSealed, record_key, encrypt, sha256_hex}
use mahi_ai.Store.Sealed.{Format, Fault, ser, enc_err, statement, statement_ok, be, unseal}
use mahi_ai.Store.Sealed.RoundTrip.{unseal-sealed}
use mahi_ai.Store.Audit.{
  collection, last_hash_from, last_hash, insert_row, audit_row, append, verify_rows, has_event,
  session_text, not_unique,
}

module _ (p : Primitives) {V : Type 0} (f : Format (AuditEvent V)) where
  -- The JSON reads back to an event that is written with the same hash.
  abbrev pub Rereads : Bytes → Type 0
  Rereads json =
      (event : AuditEvent V) × (f.from_slice json ≡ ok event)
      × (again : Bytes) × (f.to_vec event ≡ ok again)
      × (sha256_hex p again ≡ sha256_hex p json)

module _ (p : Primitives) {V : Type 0} (f : Format (AuditEvent V)) (root : Bytes) where
  -- The row opens to an event whose hash is the row's, and it is chained to `prev`.
  abbrev pub Fits : Text → AuditRow → Type 0
  Fits prev row =
      (row.prev_hash ≡ prev)
      × (event : AuditEvent V) × (unseal p f root collection row.event_id row.enc row.nonce
          ≡ ok event)
      × (json : Bytes) × (map_err ser (f.to_vec event) ≡ ok json)
      × (sha256_hex p json ≡ row.hash)

  pub verify_rows-Fits :
      (prev : Text) (row : AuditRow) (rows : List AuditRow)
      → Fits prev row
      → verify_rows p f root prev (row ∷ rows) ≡ verify_rows p f root row.hash rows
  unfolding verify_rows
  verify_rows-Fits prev row rows (linked, event, opened, json, written, hashed) =
      rw (linked, beq_refl prev, opened, written, hashed, beq_refl row.hash) refl

  -- The two steps that the loop takes with a row that is linked.
  abbrev judge_hash : AuditRow → Result ContractError Bool → Bytes → Result ContractError Bool
  judge_hash row rest json = if not (sha256_hex p json == row.hash) then ok false else rest

  abbrev judge_event :
      AuditRow → Result ContractError Bool → AuditEvent V → Result ContractError Bool
  judge_event row rest event = map_err ser (f.to_vec event) >>= judge_hash row rest

  judge_hash-true :
      (row : AuditRow) (rest : Result ContractError Bool) (json : Bytes)
      → judge_hash row rest json ≡ ok true
      → (sha256_hex p json ≡ row.hash) × (rest ≡ ok true)
  judge_hash-true row rest json h = elim (Bool-cases (sha256_hex p json == row.hash)) [
    | inl agrees ↦
        let step : judge_hash row rest json ≡ rest = rw agrees refl in
        ((text_beq_iff (sha256_hex p json) row.hash).0 agrees, sym step ∙ h)
    | inr differs ↦
        let wrong : judge_hash row rest json ≡ ok false = rw differs refl in
        absurd (cc (sym wrong ∙ h))
  ]

  pub Fits-verify_rows :
      (prev : Text) (row : AuditRow) (rows : List AuditRow)
      → verify_rows p f root prev (row ∷ rows) ≡ ok true
      → Fits prev row × (verify_rows p f root row.hash rows ≡ ok true)
  unfolding verify_rows
  Fits-verify_rows prev row rows h = elim (Bool-cases (row.prev_hash == prev)) [
    | inl linked ↦
        let opening = unseal p f root collection row.event_id row.enc row.nonce in
        let rest = verify_rows p f root row.hash rows in
        let step : verify_rows p f root prev (row ∷ rows) ≡ (opening >>= judge_event row rest) =
          rw (verify_rows, linked) refl in
        let (event, opened, judged) = bind_ok opening (judge_event row rest) true (sym step ∙ h) in
        let (json, written, hashed) =
          bind_ok (map_err ser (f.to_vec event)) (judge_hash row rest) true judged in
        let (same_hash, sound) = judge_hash-true row rest json hashed in
        (
          ((text_beq_iff row.prev_hash prev).0 linked, event, opened, json, written, same_hash),
          sound,
        )
    | inr broken ↦
        let wrong : verify_rows p f root prev (row ∷ rows) ≡ ok false =
          rw (verify_rows, broken) refl in
        absurd (cc (sym wrong ∙ h))
  ]

  pub verify_rows-append :
      (prev : Text) (xs ys : List AuditRow)
      → verify_rows p f root prev xs ≡ ok true
      → verify_rows p f root prev (xs ++ ys) ≡ verify_rows p f root (last_hash_from prev xs) ys
  verify_rows-append prev [] ys h = refl
  verify_rows-append prev (row ∷ xs) ys h =
      let (fits, rest) = Fits-verify_rows prev row xs h in
      verify_rows-Fits prev row (xs ++ ys) fits ∙ verify_rows-append row.hash xs ys rest

  pub verify_rows-prefix :
      (prev : Text) (xs ys : List AuditRow)
      → verify_rows p f root prev (xs ++ ys) ≡ ok true
      → verify_rows p f root prev xs ≡ ok true
  unfolding verify_rows
  verify_rows-prefix prev [] ys h = refl
  verify_rows-prefix prev (row ∷ xs) ys h =
      let (fits, rest) = Fits-verify_rows prev row (xs ++ ys) h in
      verify_rows-Fits prev row xs fits ∙ verify_rows-prefix row.hash xs ys rest

  abbrev audit_columns : AuditEvent V → (json ct nonce : Bytes) → AuditRow
  audit_columns event json ct nonce = record {
    event_id = p.uuid_text event.event_id;
    session_id = session_text p event.session_id;
    prev_hash = event.prev_hash;
    hash = sha256_hex p json;
    enc = ct;
    nonce = nonce;
  }

  Fits-Rereads :
      (prev : Text) (row : AuditRow) (json : Bytes)
      → row.prev_hash ≡ prev
      → sha256_hex p json ≡ row.hash
      → unseal p f root collection row.event_id row.enc row.nonce ≡ map_err ser (f.from_slice json)
      → Fits prev row ↔ Rereads p f json
  Fits-Rereads prev row json linked hashed opened = (
    λ (_, event, there, again, written, same). (
      event,
      map_err_ok ser (f.from_slice json) event (sym opened ∙ there),
      again,
      map_err_ok ser (f.to_vec event) again written,
      same ∙ sym hashed,
    ),
    λ (event, there, again, written, same). (
      linked,
      event,
      opened ∙ ap (map_err ser) there,
      again,
      ap (map_err ser) written,
      same ∙ hashed,
    ),
  )

  -- The row of an event fits exactly where its JSON reads back.
  pub audit_row-Fits :
      OpensSealed p
      → (drawn : Bytes) (event : AuditEvent V) (row : AuditRow) → length drawn ≡ 12
      → audit_row p f root drawn event ≡ ok row
      → (json : Bytes) × (f.to_vec event ≡ ok json) × (Fits event.prev_hash row ↔ Rereads p f json)
  unfolding audit_row
  audit_row-Fits opens drawn event row twelve h =
      let id = p.uuid_text event.event_id in
      let key = record_key p root collection (p.as_bytes id) in
      let (json, written, rest) = bind_ok (map_err ser (f.to_vec event)) _ row h in
      let ((ct, nonce), sealed, made) =
        bind_ok (map_err (λ _. enc_err) (encrypt p drawn key json (p.as_bytes id))) _ row rest in
      let opened =
        unseal-sealed p f root collection opens drawn id json ct nonce twelve (
          map_err_ok (λ _. enc_err) (encrypt p drawn key json (p.as_bytes id)) (ct, nonce)
            sealed) in
      let built = audit_columns event json ct nonce in
      let as_built : built ≡ row = cc made in
      (
        json,
        map_err_ok ser (f.to_vec event) json written,
        subst (λ r. Fits event.prev_hash r ↔ Rereads p f json) as_built
            (Fits-Rereads event.prev_hash built json refl refl opened),
      )

  appended_row :
      (fault : Fault) (row : AuditRow) (rows after : List AuditRow)
      → insert_row fault row rows ≡ ok after
      → (has_event row.event_id rows ≡ false) × (rows ++ row ∷ [] ≡ after)
  unfolding insert_row
  appended_row fault row rows after h = elim (Bool-cases (has_event row.event_id rows)) [
    | inl taken ↦
        let refused : insert_row fault row rows ≡ err (be not_unique) =
          rw (insert_row, taken) refl in
        absurd (cc (sym refused ∙ h))
    | inr fresh ↦
        let stored : insert_row fault row rows ≡ statement fault (rows ++ row ∷ []) =
          rw (insert_row, fresh) refl in
        (fresh, statement_ok fault (rows ++ row ∷ []) after (sym stored ∙ h))
  ]

  -- Every row that `append` adds is one that fits.
  pub appended :
      (reading writing : Fault) (drawn : Bytes) (event : AuditEvent V) (s after : SqliteBackend)
      → append p f reading writing drawn event s ≡ ok after
      → (row : AuditRow) × (audit_row p f s.root drawn
            (record (event) { prev_hash = last_hash s.audit })
          ≡ ok row)
        × (after ≡ record (s) { audit = s.audit ++ row ∷ [] })
        × (has_event row.event_id s.audit ≡ false)
  unfolding append
  appended (some m) writing drawn event s after h = absurd (cc h)
  appended none writing drawn event s after h =
      let (row, made, rest) =
        bind_ok (audit_row p f s.root drawn (record (event) { prev_hash = last_hash s.audit })) _
          after h in
      let (rows, inserted, done) = bind_ok (insert_row writing row s.audit) _ after rest in
      let (fresh, grown) = appended_row writing row s.audit rows inserted in
      let as_stored : record (s) { audit = rows } ≡ after = cc done in
      (row, made, sym as_stored ∙ ap (λ x. record (s) { audit = x }) (sym grown), fresh)
