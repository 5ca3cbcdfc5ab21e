-- ===== src/Store/Sealed/RoundTrip.antt =====
-- What the shared steps of crates/mahi-data/src/store.rs give back: a row that was written, and the others.
use mahi_ai.Prelude.{
  ◌≡◌, refl, sym, none, some, Text, text_beq, length, if◌then◌else◌, Bool-cases, inl, inr,
}
use mahi_ai.Contracts.Result.{ok, map_err, bind_ok, map_err_ok}
use mahi_ai.Store.Crypto.{Bytes, Primitives, OpensSealed, record_key, encrypt, decrypt-encrypt}
use mahi_ai.Store.Rows.{Row, Table, insert_or_replace, delete_by_id}
use mahi_ai.Store.Rows.Laws.{select-insert, select-delete}
use mahi_ai.Store.Sealed.{
  Format, ReadsBack, Fault, ser, enc_err, seal, unseal, open_found, fetch, put, statement_ok,
}

abbrev pub row_of : {C : Type 0} → (id : Text) → C → (ct nonce : Bytes) → Row C
row_of id columns ct nonce = record { id = id; columns = columns; enc = ct; nonce = nonce }

module _ {A : Type 0} (p : Primitives) (f : Format A) (root : Bytes) (collection : Text) where
  pub seal-steps :
      (drawn : Bytes) (id : Text) (rec : A) (json : Bytes) (sealed : Bytes × Bytes)
      → map_err ser (f.to_vec rec) ≡ ok json
      → map_err
          (λ _. enc_err)
          (encrypt p drawn (record_key p root collection (p.as_bytes id)) json (p.as_bytes id))
        ≡ ok sealed
      → seal p f root collection drawn id rec ≡ ok sealed
  unfolding seal
  seal-steps drawn id rec json sealed written done = rw (written, done) refl

  -- What was sealed opens to what its JSON reads back as.
  pub unseal-sealed :
      OpensSealed p
      → (drawn : Bytes) (id : Text) (json ct nonce : Bytes) → length drawn ≡ 12
      → encrypt p drawn (record_key p root collection (p.as_bytes id)) json (p.as_bytes id)
        ≡ ok (ct, nonce)
      → unseal p f root collection id ct nonce ≡ map_err ser (f.from_slice json)
  unfolding unseal
  unseal-sealed opens drawn id json ct nonce twelve sealed =
      rw
        (decrypt-encrypt p opens drawn (record_key p root collection (p.as_bytes id)) json
          (p.as_bytes id) ct nonce twelve sealed)
        refl

  pub unseal-seal :
      OpensSealed p
      → ReadsBack f
      → (drawn : Bytes) (id : Text) (rec : A) (ct nonce : Bytes) → length drawn ≡ 12
      → seal p f root collection drawn id rec ≡ ok (ct, nonce)
      → unseal p f root collection id ct nonce ≡ ok rec
  unfolding seal unseal
  unseal-seal opens reads drawn id rec ct nonce twelve h =
      let key = record_key p root collection (p.as_bytes id) in
      let (json, written, rest) = bind_ok (map_err ser (f.to_vec rec)) _ (ct, nonce) h in
      let sealed =
        map_err_ok (λ _. enc_err) (encrypt p drawn key json (p.as_bytes id)) (ct, nonce) rest in
      rw
        (
          decrypt-encrypt p opens drawn key json (p.as_bytes id) ct nonce twelve sealed,
          reads rec json (map_err_ok ser (f.to_vec rec) json written),
        )
        refl

  module _ {C : Type 0} where
    pub put-insert :
        (fault : Fault) (drawn : Bytes) (id : Text) (columns : C) (rec : A) (table after : Table C)
        → put p f root collection fault drawn id columns rec table ≡ ok after
        → (ct : Bytes) × (nonce : Bytes) × (seal p f root collection drawn id rec ≡ ok (ct, nonce))
          × (insert_or_replace (row_of id columns ct nonce) table ≡ after)
    unfolding put
    put-insert fault drawn id columns rec table after h =
        let ((ct, nonce), sealed, rest) =
          bind_ok (seal p f root collection drawn id rec) _ after h in
        (
          ct,
          nonce,
          sealed,
          statement_ok fault (insert_or_replace (row_of id columns ct nonce) table) after rest,
        )

    pub put-row :
        OpensSealed p
        → ReadsBack f
        → (fault : Fault) (drawn : Bytes) (id : Text) (columns : C) (rec : A)
          (table after : Table C)
        → length drawn ≡ 12
        → put p f root collection fault drawn id columns rec table ≡ ok after
        → (ct : Bytes) × (nonce : Bytes) × (unseal p f root collection id ct nonce ≡ ok rec)
          × (insert_or_replace (row_of id columns ct nonce) table ≡ after)
    put-row opens reads fault drawn id columns rec table after twelve h =
        let (ct, nonce, sealed, stored) = put-insert fault drawn id columns rec table after h in
        (ct, nonce, unseal-seal opens reads drawn id rec ct nonce twelve sealed, stored)

    pub fetch-put :
        OpensSealed p
        → ReadsBack f
        → (fault : Fault) (drawn : Bytes) (id : Text) (columns : C) (rec : A)
          (table after : Table C)
        → length drawn ≡ 12
        → put p f root collection fault drawn id columns rec table ≡ ok after
        → (j : Text)
        → fetch p f root collection none j after
          ≡ (if text_beq id j then ok (some rec) else fetch p f root collection none j table)
    unfolding fetch open_found
    fetch-put opens reads fault drawn id columns rec table after twelve h j =
        let (ct, nonce, opened, written) =
          put-row opens reads fault drawn id columns rec table after twelve h in
        let row = row_of id columns ct nonce in
        elim (Bool-cases (text_beq id j)) [
          | inl here ↦ rw (sym written, select-insert row j table, here, opened) refl
          | inr other ↦ rw (sym written, select-insert row j table, other) refl
        ]

    pub fetch-delete :
        (key j : Text) (table : Table C)
        → fetch p f root collection none j (delete_by_id key table)
          ≡ (if text_beq key j then ok none else fetch p f root collection none j table)
    unfolding fetch open_found
    fetch-delete key j table = elim (Bool-cases (text_beq key j)) [
      | inl here ↦ rw (select-delete key j table, here) refl
      | inr other ↦ rw (select-delete key j table, other) refl
    ]
