-- ===== src/Store/Examples/Grants.antt =====
-- Two grants of one feature, the second one revoked.
use mahi_ai.Store.Examples.Formats.{state_of}
use mahi_ai.Contracts.Data.{PermissionTier, AccessLevel}
use mahi_ai.Prelude.{ℕ, ◌≡◌, ◌≢◌, refl, true, none, some, [], ◌∷◌, Within}
use mahi_ai.Contracts.Data.{PermissionGrant, PermissionSubject}
use mahi_ai.Contracts.Result.{ok}
use mahi_ai.Store.{SqliteBackend, GrantColumns}
use mahi_ai.Store.Crypto.{encrypt, decrypt}
use mahi_ai.Store.Rows.{Row, delete_by_id, insert_or_replace}
use mahi_ai.Store.Sealed.{seal, unseal, open_found, put}
use mahi_ai.Store.Permissions
use mahi_ai.Store.Permissions.Revocation.{check-revoke}
use mahi_ai.Store.Examples.Formats.{plain, empty_backend, nonce}
use mahi_ai.Store.Examples.Formats.Security.{grant_format}

abbrev camera : PermissionSubject
camera = PermissionSubject.feature (7 ∷ [])

-- Its expiry is long past.
abbrev allowed : (id : ℕ) → PermissionGrant
allowed id = record {
  grant_id = id;
  subject = camera;
  scope = [];
  tier = PermissionTier.allow_always;
  access_level = AccessLevel.full;
  device_id = 7;
  prompt_text = [];
  granted_at = 100;
  expires_at = some 101;
  revoked_at = none;
}

one_granted : SqliteBackend
one_granted = state_of (Permissions.grant plain grant_format none nonce (allowed 1) empty_backend)

two_granted : SqliteBackend
two_granted = state_of (Permissions.grant plain grant_format none nonce (allowed 2) one_granted)

second_revoked : SqliteBackend
second_revoked = state_of (Permissions.revoke plain none 2 two_granted)

granted_second :
    Permissions.grant plain grant_format none nonce (allowed 2) one_granted ≡ ok two_granted
unfolding two_granted one_granted Permissions.grant put seal encrypt insert_or_replace delete_by_id
granted_second = refl

revoked_second : Permissions.revoke plain none 2 two_granted ≡ ok second_revoked
unfolding second_revoked Permissions.revoke
revoked_second = refl

first_left :
    Permissions.check plain grant_format none camera [] second_revoked ≡ ok (some (allowed 1))
unfolding second_revoked two_granted one_granted Permissions.grant Permissions.revoke
    Permissions.set_revoked Permissions.check Permissions.select_live put seal encrypt
    insert_or_replace delete_by_id open_found unseal decrypt
first_left = refl

check-revoke_example :
    (row : Row GrantColumns) × Within row two_granted.grants
    × (row.id ≢ 2 ∷ [])
    × (Permissions.is_live (Permissions.subject_key camera) row ≡ true)
    × (unseal plain grant_format two_granted.root Permissions.collection row.id row.enc row.nonce
        ≡ ok (allowed 1))
check-revoke_example =
    check-revoke plain grant_format none none 2 two_granted second_revoked camera [] (allowed 1)
      revoked_second first_left
