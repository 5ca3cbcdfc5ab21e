-- ===== src/Store/Crypto.antt =====
-- crates/mahi-data/src/crypto.rs: payload encryption. A byte is a number. HKDF, AES-256-GCM, SHA-256 and
-- the encodings are parameters; the random nonce of `encrypt` is an argument.
use mahi_ai.Prelude.{
  ℕ, ◌+◌, ◌/◌, ◌%◌, ◌≡◌, refl, sym, ◌∙◌, not, if◌then◌else◌, inl, inr, Option, none, some, List, [],
  ◌∷◌, ◌++◌, Text, ltb, nat_beq, length, Option-cases,
}
use mahi_ai.Contracts.Types.{Uuid, Timestamp}
use mahi_ai.Prelude.Int.{ℤ}
use mahi_ai.Contracts.Result.{Result, ok, err}

abbrev pub Bytes : Type 0
Bytes = List ℕ

-- What the backend calls of other packages: `expand` is HKDF-SHA256 of a root key, `seal_payload` and
-- `open_payload` are the authenticated cipher (key, nonce, message, associated data), `digest` is
-- SHA-256, `as_bytes` the UTF-8 of a text, `uuid_text` the hyphenated form of an identifier.
pub record Primitives : Type 0 where
  pub expand : Bytes → Bytes → Bytes
  pub seal_payload : (key nonce payload aad : Bytes) → Option Bytes
  pub open_payload : (key nonce ciphertext aad : Bytes) → Option Bytes
  pub digest : Bytes → Bytes
  pub as_bytes : Text → Bytes
  pub uuid_text : Uuid → Text
  pub timestamp_millis : Timestamp → ℤ

-- The documented behaviour of the cipher: what it sealed opens under the same key, nonce and data.
abbrev pub OpensSealed : Primitives → Type 0
OpensSealed p =
    (key nonce payload aad ciphertext : Bytes)
    → p.seal_payload key nonce payload aad ≡ some ciphertext
    → p.open_payload key nonce ciphertext aad ≡ some payload

-- Two identifiers are not printed alike.
abbrev pub PrintsApart : Primitives → Type 0
PrintsApart p = (i j : Uuid) → p.uuid_text i ≡ p.uuid_text j → i ≡ j

abbrev pub hex_digit : ℕ → ℕ
hex_digit n = if ltb n 10 then b'0' + n else 87 + n

abbrev pub hex : Bytes → Text
hex [] = []
hex (b ∷ bs) = hex_digit (b / 16) ∷ hex_digit (b % 16) ∷ hex bs

module _ (p : Primitives) where
  abbrev pub derive_key : (root info : Bytes) → Bytes
  derive_key root info = p.expand root info

  abbrev pub record_key : (root : Bytes) (collection : Text) (id : Bytes) → Bytes
  record_key root collection id = derive_key root (p.as_bytes collection ++ 0 ∷ id)

  unfoldable pub encrypt : (nonce key plaintext aad : Bytes) → Result (Unit {0}) (Bytes × Bytes)
  encrypt nonce key plaintext aad = elim (p.seal_payload key nonce plaintext aad) [
    | none ↦ err tt
    | some ct ↦ ok (ct, nonce)
  ]

  unfoldable pub decrypt : (key ciphertext nonce aad : Bytes) → Result (Unit {0}) Bytes
  decrypt key ciphertext nonce aad =
      if not (nat_beq (length nonce) 12)
      then err tt
      else elim (p.open_payload key nonce ciphertext aad) [ none ↦ err tt | some m ↦ ok m ]

  unfoldable pub sha256_hex : Bytes → Text
  sha256_hex bytes = hex (p.digest bytes)

  pub decrypt-encrypt :
      OpensSealed p
      → (drawn key plaintext aad ct nonce : Bytes) → length drawn ≡ 12
      → encrypt drawn key plaintext aad ≡ ok (ct, nonce)
      → decrypt key ct nonce aad ≡ ok plaintext
  unfolding encrypt decrypt
  decrypt-encrypt opens drawn key plaintext aad ct nonce twelve h =
      elim (Option-cases (p.seal_payload key drawn plaintext aad)) [
        | inl failed ↦
            let never : encrypt drawn key plaintext aad ≡ err tt = rw (failed, encrypt) refl in
            absurd (cc (sym never ∙ h))
        | inr (c, sealed) ↦
            let made : encrypt drawn key plaintext aad ≡ ok (c, drawn) =
              rw (sealed, encrypt) refl in
            let as_is : nonce ≡ drawn = cc (sym made ∙ h) in
            let whole : ct ≡ c = cc (sym made ∙ h) in
            rw (as_is, whole, decrypt, twelve, opens key drawn plaintext aad c sealed) refl
      ]
