-- ===== src/Store/Sealed.antt =====
-- crates/mahi-data/src/store.rs: the errors, `seal` and `unseal`, and the steps that its stores share: a
-- row read by its key, a row written, and a list of rows opened.
pub mod RoundTrip
use mahi_ai.Prelude.{◌≡◌, refl, sym, ◌∙◌, Option, none, some, List, [], ◌∷◌, Text, text, length}
use mahi_ai.Contracts.Errors.{ContractError, StoreError, store}
use mahi_ai.Contracts.Result.{Result, ok, err, ◌>>=◌, map_err}
use mahi_ai.Store.Crypto.{Bytes, Primitives, record_key, encrypt, decrypt}
use mahi_ai.Store.Rows.{Row, Table, select_by_id, insert_or_replace}

-- `serde_json` on one type of records; an error is its message.
pub record Format (A : Type 0) : Type 0 where
  pub to_vec : A → Result Text Bytes
  pub from_slice : Bytes → Result Text A

-- The behaviour of a format for records that hold no floating-point number: what was written reads back.
abbrev pub ReadsBack : {A : Type 0} → Format A → Type 0
ReadsBack {A} f = (a : A) (json : Bytes) → f.to_vec a ≡ ok json → f.from_slice json ≡ ok a

-- The message of the error that a statement of the database ends in, if it does.
abbrev pub Fault : Type 0
Fault = Option Text

abbrev pub be : Text → ContractError
be message = store (StoreError.backend message)

abbrev pub ser : Text → ContractError
ser message = store (StoreError.serialization message)

abbrev pub enc_err : ContractError
enc_err = store (StoreError.encryption (text "AEAD failure"))

abbrev pub statement {ℓ} : {A : Type ℓ} → Fault → A → Result ContractError A
statement none a = ok a
statement (some message) a = err (be message)

pub statement_ok {ℓ} : {A : Type ℓ} (fault : Fault) (a b : A) → statement fault a ≡ ok b → a ≡ b
statement_ok none a b h = cc h
statement_ok (some m) a b h = absurd (cc h)

module _ {A : Type 0} (p : Primitives) (f : Format A) (root : Bytes) (collection : Text) where
  unfoldable pub seal : (drawn : Bytes) (id : Text) → A → Result ContractError (Bytes × Bytes)
  seal drawn id rec = map_err ser (f.to_vec rec) >>= λ json.
      map_err (λ _. enc_err)
        (encrypt p drawn (record_key p root collection (p.as_bytes id)) json (p.as_bytes id))

  unfoldable pub unseal : (id : Text) (ct nonce : Bytes) → Result ContractError A
  unseal id ct nonce =
      map_err (λ _. enc_err)
        (decrypt p (record_key p root collection (p.as_bytes id)) ct nonce (p.as_bytes id))
      >>= λ pt. map_err ser (f.from_slice pt)

  module _ {C : Type 0} where
    abbrev pub open_row : Row C → Result ContractError A
    open_row row = unseal row.id row.enc row.nonce

    -- `match row`
    unfoldable pub open_found : Option (Row C) → Result ContractError (Option A)
    open_found none = ok none
    open_found (some row) = open_row row >>= λ rec. ok (some rec)

    unfoldable pub open_rows : List (Row C) → Result ContractError (List A)
    open_rows [] = ok []
    open_rows (row ∷ rows) =
        let rest = open_rows rows in open_row row >>= λ rec. rest >>= λ recs. ok (rec ∷ recs)

    unfoldable pub fetch : Fault → Text → Table C → Result ContractError (Option A)
    fetch fault key table = statement fault (select_by_id key table) >>= open_found

    unfoldable pub put :
        Fault → (drawn : Bytes) (id : Text) → C → A → Table C → Result ContractError (Table C)
    put fault drawn id columns rec table = seal drawn id rec >>= λ sealed. statement fault (
        insert_or_replace (record { id = id; columns = columns; enc = sealed.0; nonce = sealed.1 })
          table)
