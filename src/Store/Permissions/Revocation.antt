-- ===== src/Store/Permissions/Revocation.antt =====
-- The grants of crates/mahi-data/src/store.rs: what `check` answers after `grant` and `revoke`.
use mahi_ai.Prelude.{
  ◌≡◌, ◌≢◌, refl, sym, ◌∙◌, ap, inl, inr, true, false, Option, none, some, List, [], ◌∷◌, ◌++◌,
  Text, text_beq, text_beq_iff, text_eq, beq_refl, length, Bool-cases, Option-cases, Within,
  Within-cons, arith,
}
use mathlib.Core.Path.{subst}
use mahi_ai.Contracts.Types.{Uuid}
use mahi_ai.Contracts.Data.{PermissionGrant, PermissionSubject}
use mahi_ai.Contracts.Result.{ok, ◌>>=◌, bind_ok}
use mahi_ai.Store.{SqliteBackend, GrantColumns}
use mahi_ai.Store.Crypto.{Bytes, Primitives, OpensSealed}
use mahi_ai.Store.Rows.{Row, Table, insert_or_replace, delete_by_id}
use mahi_ai.Store.Sealed.{
  Format, ReadsBack, Fault, put, statement, statement_ok, open_found, unseal,
}
use mahi_ai.Store.Sealed.RoundTrip.{put-row, row_of}
use mahi_ai.Store.Permissions.{
  collection, subject_key, is_some, is_live, select_live, revoke_row, set_revoked, check, grant,
  revoke,
}

select_live-append :
    (subject : Text) (table : Table GrantColumns) (row : Row GrantColumns)
    → is_live subject row ≡ true
    → select_live subject (table ++ row ∷ []) ≡ some row
unfolding select_live
select_live-append subject [] row h = rw h refl
select_live-append subject (r ∷ table) row h = rw (select_live-append subject table row h) refl

some_inj : {a b : Row GrantColumns} → ◌≡◌ {A = Option (Row GrantColumns)} (some a) (some b) → a ≡ b
some_inj h = cc h

revoked_row :
    (subject id : Text) (q r : Row GrantColumns)
    → is_live subject (revoke_row id q) ≡ true
    → revoke_row id q ≡ r
    → (q ≡ r) × (is_live subject r ≡ true) × (text_beq r.id id ≡ false)
revoked_row subject id q r live made = elim (Bool-cases (text_beq q.id id)) [
  | inl gone ↦
      let dead : is_live subject (revoke_row id q) ≡ false = rw gone (ground arith) in
      absurd (cc (sym dead ∙ live))
  | inr kept ↦
      let keeps : revoke_row id q ≡ q = rw kept refl in
      let as_read : q ≡ r = sym keeps ∙ made in
      (
        as_read,
        subst (λ x. is_live subject x ≡ true) made live,
        subst (λ x. text_beq x.id id ≡ false) as_read kept,
      )
]

select_live-revoked :
    (subject id : Text) (table : Table GrantColumns) (r : Row GrantColumns)
    → select_live subject (set_revoked id table) ≡ some r
    → Within r table × (is_live subject r ≡ true) × (text_beq r.id id ≡ false)
unfolding select_live set_revoked
select_live-revoked subject id [] r h = absurd (cc h)
select_live-revoked subject id (q ∷ table) r h =
    elim (Option-cases (select_live subject (set_revoked id table))) [
      | inl nothing ↦ elim (Bool-cases (is_live subject (revoke_row id q))) [
        | inl live ↦
            let step : select_live subject (set_revoked id (q ∷ table)) ≡ some (revoke_row id q) =
              rw (nothing, live) refl in
            let (as_read, still, kept) =
              revoked_row subject id q r live (some_inj (sym step ∙ h)) in
            (([], table, ap (λ x. x ∷ table) as_read), still, kept)
        | inr dead ↦
            let step : select_live subject (set_revoked id (q ∷ table)) ≡ none =
              rw (nothing, dead) refl in
            absurd (cc (sym step ∙ h))
      ]
      | inr (later, found) ↦
          let step : select_live subject (set_revoked id (q ∷ table)) ≡ some later =
            rw found refl in
          let (within, live, kept) =
            select_live-revoked subject id table r (found ∙ sym step ∙ h) in
          (Within-cons q r table within, live, kept)
    ]

module _ (p : Primitives) (f : Format PermissionGrant) where
  opened :
      (root : Bytes) (found : Option (Row GrantColumns)) (g : PermissionGrant)
      → open_found p f root collection found ≡ ok (some g)
      → (row : Row GrantColumns) × (found ≡ some row)
        × (unseal p f root collection row.id row.enc row.nonce ≡ ok g)
  unfolding open_found
  opened root none g h = absurd (cc h)
  opened root (some row) g h =
      let (rec, unsealed, done) =
        bind_ok (unseal p f root collection row.id row.enc row.nonce) _ (some g) h in
      let as_read : rec ≡ g = cc done in (row, refl, unsealed ∙ ap ok as_read)

  -- After `revoke` of an identifier, what `check` answers for a subject is the content of a row of the
  -- table before it that has another identifier, that subject, and is not revoked itself.
  pub check-revoke :
      (writing reading : Fault) (grant_id : Uuid) (s after : SqliteBackend)
      (subject : PermissionSubject) (scope : List Text) (g : PermissionGrant)
      → revoke p writing grant_id s ≡ ok after
      → check p f reading subject scope after ≡ ok (some g)
      → (row : Row GrantColumns) × Within row s.grants
        × (row.id ≢ p.uuid_text grant_id)
        × (is_live (subject_key subject) row ≡ true)
        × (unseal p f s.root collection row.id row.enc row.nonce ≡ ok g)
  unfolding revoke check
  check-revoke writing (some m) grant_id s after subject scope g h k = absurd (cc k)
  check-revoke writing none grant_id s after subject scope g h k =
      let as_stored = statement_ok writing _ after h in
      let answered = subst (λ x. check p f none subject scope x ≡ ok (some g)) (sym as_stored) k in
      let (row, found, unsealed) = opened s.root _ g answered in
      let (within, live, kept) =
        select_live-revoked (subject_key subject) (p.uuid_text grant_id) s.grants row found in
      (
        row,
        within,
        (λ e. absurd (cc (sym kept ∙ (text_beq_iff row.id (p.uuid_text grant_id)).1 e))),
        live,
        unsealed,
      )

  -- Where the cipher opens what it sealed, the JSON reads back and the nonce has its twelve bytes, a grant
  -- that is stored and not revoked is what the next `check` of its subject answers, whatever its scope,
  -- its tier and its expiry and whatever the table held.
  pub check-grant :
      OpensSealed p
      → ReadsBack f
      → (fault : Fault) (drawn : Bytes) (g : PermissionGrant) (s after : SqliteBackend)
        (scope : List Text)
      → length drawn ≡ 12
      → g.revoked_at ≡ none
      → grant p f fault drawn g s ≡ ok after
      → check p f none g.subject scope after ≡ ok (some g)
  unfolding grant check put open_found insert_or_replace
  check-grant opens reads fault drawn g s after scope twelve valid h =
      let (table, written, done) =
        bind_ok
          (put p f s.root collection fault drawn (p.uuid_text g.grant_id)
            (record { subject = subject_key g.subject; revoked = is_some g.revoked_at }) g s.grants)
          _ after h in
      let as_stored : record (s) { grants = table } ≡ after = cc done in
      let (ct, nonce, opens_to, stored) =
        put-row p f s.root collection opens reads fault drawn (p.uuid_text g.grant_id)
          (record { subject = subject_key g.subject; revoked = is_some g.revoked_at }) g s.grants
          table twelve written in
      subst (λ x. check p f none g.subject scope x ≡ ok (some g)) as_stored
        (subst
          (λ t.
            statement none (select_live (subject_key g.subject) t)
              >>= open_found p f s.root collection
            ≡ ok (some g))
          stored
          (rw
            (
              select_live-append (subject_key g.subject)
                  (delete_by_id (p.uuid_text g.grant_id) s.grants)
                  (row_of (p.uuid_text g.grant_id)
                    (record { subject = subject_key g.subject; revoked = is_some g.revoked_at }) ct
                    nonce)
                  (rw (beq_refl (subject_key g.subject), valid) refl),
              opens_to,
            )
            refl))
