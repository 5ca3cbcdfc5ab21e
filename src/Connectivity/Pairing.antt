-- ===== src/Connectivity/Pairing.antt =====
-- crates/mahi-connectivity/src/pairing.rs: `PairingManager`.
-- The two maps behind their locks are fields. The fresh identifier, the drawn code and secret and the
-- clock are arguments; the hashes are parameters. A key is its list of bytes.
pub mod Trust
use mahi_ai.Prelude.{
  ℕ, ◌+◌, ◌/◌, ◌%◌, Bool, true, false, not, Option, none, some, List, [], ◌∷◌, ◌++◌, if◌then◌else◌,
  Text, text, text_beq, nat_eq,
}
use mahi_ai.Dict.{Dict, lookup, insert, remove}
use mahi_ai.Contracts.Types.{Uuid, Timestamp}
use mahi_ai.Contracts.Errors.{ConnectivityError}
use mahi_ai.Contracts.Result.{Result, ok, err}

pub data PairingMethod : Type 0 where
  qr proximity code : PairingMethod

pub record PlaceholderKeypair : Type 0 where
  pub public_key : List ℕ
  pub secret_key : List ℕ

pub record PairingChallenge : Type 0 where
  pub challenge_id : Uuid
  pub code : Text
  pub local_keypair : PlaceholderKeypair
  pub created_at : Timestamp

pub record TrustRecord : Type 0 where
  pub peer_id : Uuid
  pub pairing_date : Timestamp
  pub local_private_key : List ℕ
  pub peer_public_key : List ℕ
  pub pairing_method : PairingMethod
  pub revoked : Bool
  pub revoked_at : Option Timestamp

pub record PairingManager : Type 0 where
  pub pending : Dict Uuid PairingChallenge
  pub trusted : Dict Uuid TrustRecord

-- The crates `hmac`, `sha2` and `uuid`.
pub record Hashes : Type 0 where
  pub hmac_sha256 : List ℕ → List ℕ → List ℕ
  pub sha256 : List ℕ → List ℕ
  pub to_string : Uuid → Text

-- `PairingManager::new`
abbrev pub new_manager : PairingManager
new_manager = record { pending = []; trusted = [] }

-- `format!("{:06}", n)` of a number below 1_000_000
abbrev pub six_digits : ℕ → Text
six_digits n =
    (48 + n / 100_000 % 10)
    ∷ (48 + n / 10_000 % 10)
    ∷ (48 + n / 1_000 % 10)
    ∷ (48 + n / 100 % 10)
    ∷ (48 + n / 10 % 10)
    ∷ (48 + n % 10)
    ∷ []

abbrev pub trust_record : Uuid → PairingManager → Option TrustRecord
trust_record peer_id manager = lookup peer_id manager.trusted

unfoldable pub is_trusted : Uuid → PairingManager → Bool
is_trusted peer_id manager = elim (trust_record peer_id manager) [
  | none ↦ false
  | some r ↦ not r.revoked
]

unfoldable pub revoke : Uuid → Timestamp → PairingManager → Bool × PairingManager
revoke peer_id now manager = elim (trust_record peer_id manager) [
  | none ↦ (false, manager)
  | some r ↦ (
    true,
    record manager {
      trusted = insert peer_id (record r { revoked = true; revoked_at = some now }) manager.trusted;
    },
  )
]

abbrev pub mismatch : ConnectivityError
mismatch = ConnectivityError.transport (text "pairing: confirmation tag mismatch (wrong code?)")

module _ (hashes : Hashes) where
  -- `PlaceholderKeypair::generate` from the drawn secret
  abbrev pub generate : List ℕ → PlaceholderKeypair
  generate secret_key = record { public_key = hashes.sha256 secret_key; secret_key = secret_key }

  -- `id`, `number` below 1_000_000 and `secret` are what the source draws.
  unfoldable pub begin_pairing :
      Uuid → ℕ → List ℕ → Timestamp → PairingManager → PairingChallenge × PairingManager
  begin_pairing id number secret now manager =
      let challenge : PairingChallenge = record {
        challenge_id = id;
        code = six_digits number;
        local_keypair = generate secret;
        created_at = now;
      } in
      (challenge, record manager { pending = insert id challenge manager.pending })

  -- The bytes of a code, which has decimal digits only, are its scalar values.
  abbrev pub confirmation_tag : Text → List ℕ → List ℕ → List ℕ
  confirmation_tag shown initiator_public responder_public =
      hashes.hmac_sha256 shown (initiator_public ++ responder_public)

  abbrev pub trust_of : PairingChallenge → Uuid → List ℕ → PairingMethod → Timestamp → TrustRecord
  trust_of challenge peer_id peer_public_key method now = record {
    peer_id = peer_id;
    pairing_date = now;
    local_private_key = challenge.local_keypair.secret_key;
    peer_public_key = peer_public_key;
    pairing_method = method;
    revoked = false;
    revoked_at = none;
  }

  -- The challenge has already left `pending`.
  abbrev pub check_tag :
      PairingChallenge
      → Uuid
      → List ℕ
      → List ℕ
      → PairingMethod
      → Timestamp
      → PairingManager
      → Result ConnectivityError TrustRecord × PairingManager
  check_tag challenge peer_id peer_public_key peer_tag method now manager =
      if not (
        text_beq
          (confirmation_tag challenge.code challenge.local_keypair.public_key peer_public_key)
          peer_tag)
      then (err mismatch, manager)
      else (
        ok (trust_of challenge peer_id peer_public_key method now),
        record manager {
          trusted =
              insert peer_id (trust_of challenge peer_id peer_public_key method now)
                manager.trusted;
        },
      )

  unfoldable pub complete_pairing :
      Uuid
      → Uuid
      → List ℕ
      → List ℕ
      → PairingMethod
      → Timestamp
      → PairingManager
      → Result ConnectivityError TrustRecord × PairingManager
  complete_pairing challenge_id peer_id peer_public_key peer_tag method now manager =
      elim (lookup challenge_id manager.pending) [
        | none ↦ (
          err (
              ConnectivityError.transport (
                text "pairing: unknown or already-used challenge "
                ++ hashes.to_string challenge_id)),
          manager,
        )
        | some challenge ↦
            check_tag challenge peer_id peer_public_key peer_tag method now
              (record manager { pending = remove challenge_id manager.pending })
      ]
