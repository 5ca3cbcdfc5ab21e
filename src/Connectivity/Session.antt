-- ===== src/Connectivity/Session.antt =====
-- crates/mahi-connectivity/src/session.rs: `SessionManager` and `SessionBoundBus`.
-- The map of sessions behind its lock is the field `sessions`. Between two locks that one call takes,
-- other threads do what the argument `meanwhile` says, which is any function. What the source reads from its
-- environment is an argument: the two clocks (`Utc::now()` and `Instant::now()`), the fresh
-- identifier of a session, and the primitives of the `Platform`.
pub mod Activity
pub mod Invariant
pub mod Kill
use mahi_ai.Prelude.{
  ℕ, ◌+◌, ◌-◌, Bool, true, false, not, ◌&&◌, ◌||◌, Option, none, some, List, [], ◌∷◌, ◌++◌, map,
  any_of, keep, ltb, leb, if◌then◌else◌, Text, text, text_beq, nat_eq,
}
use mahi_ai.Prelude.Int.{ℤ, pos, leb_ℤ, offset}
use mahi_ai.Dict.{Dict, lookup, insert}
use mahi_ai.Contracts.Types.{Uuid, Timestamp}
use mahi_ai.Contracts.Errors.{ChannelId, ConnectivityError}
use mahi_ai.Contracts.Result.{Result, ok, err, is_ok}

pub data Capability : Type 0 where
  inference takeover file_xfr : Capability

-- `expires_at` may lie before the epoch, where the lifetime is negative.
pub record SessionToken : Type 0 where
  pub session_id : Uuid
  pub peer_id : Uuid
  pub issued_at : Timestamp
  pub expires_at : ℤ
  pub capabilities : List Capability
  pub hmac : List ℕ

pub record SessionEntry : Type 0 where
  pub token : SessionToken
  pub last_activity : ℕ
  pub killed : Bool
  pub controlling : Bool

pub record SessionManager : Type 0 where
  pub signing_key : List ℕ
  pub idle_timeout : ℕ
  pub default_ttl : ℤ
  pub sessions : Dict Uuid SessionEntry

-- `Utc::now()` and `Instant::now()`, in one unit.
pub record Clock : Type 0 where
  pub utc : Timestamp
  pub instant : ℕ

-- The crates `hmac`, `sha2`, `uuid` and `chrono`: HMAC-SHA256 of a key and a message, the bytes of a
-- `Uuid`, those of `timestamp_millis().to_be_bytes()`, and a `Uuid`'s `Display`.
pub record Platform : Type 0 where
  pub hmac : List ℕ → List ℕ → List ℕ
  pub as_bytes : Uuid → List ℕ
  pub millis_to_be_bytes : ℤ → List ℕ
  pub to_string : Uuid → Text

-- crates/mahi-contracts/src/connectivity.rs
pub record MultiplexedEnvelope : Type 0 where
  pub channel : ChannelId
  pub seq_no : ℕ
  pub session_id : Uuid
  pub payload_type : Text
  pub payload_bytes : List ℕ

abbrev pub is_takeover : Capability → Bool
is_takeover Capability.takeover = true
is_takeover _ = false

-- `has_capability(Capability::Takeover)`
abbrev pub has_takeover : SessionToken → Bool
has_takeover token = any_of is_takeover token.capabilities

abbrev pub capability_byte : Capability → ℕ
capability_byte Capability.inference = 1
capability_byte Capability.takeover = 2
capability_byte Capability.file_xfr = 3

unfoldable pub record_activity : Uuid → Clock → SessionManager → SessionManager
record_activity session_id clock manager = elim (lookup session_id manager.sessions) [
  | none ↦ manager
  | some entry ↦ record manager {
    sessions = insert session_id (record entry { last_activity = clock.instant }) manager.sessions;
  }
]

unfoldable pub kill : Uuid → SessionManager → Bool × SessionManager
kill session_id manager = elim (lookup session_id manager.sessions) [
  | none ↦ (false, manager)
  | some entry ↦ (
    true,
    record manager {
      sessions =
          insert session_id (record entry { killed = true; controlling = false }) manager.sessions;
    },
  )
]

abbrev pub is_controlling : Uuid → SessionManager → Bool
is_controlling session_id manager = elim (lookup session_id manager.sessions) [
  | none ↦ false
  | some entry ↦ entry.controlling && not entry.killed
]

module _ (platform : Platform) where
  abbrev pub session_err : Uuid → Text → ConnectivityError
  session_err session_id reason =
      ConnectivityError.transport
        (text "session " ++ platform.to_string session_id ++ text ": " ++ reason)

  abbrev pub canonical_bytes : SessionToken → List ℕ
  canonical_bytes token =
      platform.as_bytes token.session_id
      ++ platform.as_bytes token.peer_id
      ++ platform.millis_to_be_bytes (pos token.issued_at)
      ++ platform.millis_to_be_bytes token.expires_at
      ++ map capability_byte token.capabilities

  abbrev pub sign : SessionManager → SessionToken → List ℕ
  sign manager token = platform.hmac manager.signing_key (canonical_bytes token)

  abbrev pub unsigned : Uuid → Uuid → List Capability → ℤ → Clock → SessionToken
  unsigned id peer_id capabilities ttl clock = record {
    session_id = id;
    peer_id = peer_id;
    issued_at = clock.utc;
    expires_at = offset clock.utc ttl;
    capabilities = capabilities;
    hmac = [];
  }

  -- `id` is the fresh identifier that the source draws.
  unfoldable pub issue_with_ttl :
      Uuid → Uuid → List Capability → ℤ → Clock → SessionManager → SessionToken × SessionManager
  issue_with_ttl id peer_id capabilities ttl clock manager =
      let token : SessionToken = record (unsigned id peer_id capabilities ttl clock) {
        hmac = sign manager (unsigned id peer_id capabilities ttl clock);
      } in
      (
        token,
        record manager {
          sessions =
              insert id
                (record {
                  token = token;
                  last_activity = clock.instant;
                  killed = false;
                  controlling = false;
                })
                manager.sessions;
        },
      )

  abbrev pub issue :
      Uuid → Uuid → List Capability → Clock → SessionManager → SessionToken × SessionManager
  issue id peer_id capabilities clock manager =
      issue_with_ttl id peer_id capabilities manager.default_ttl clock manager

  -- The state of one session: kill, expiry, idle.
  abbrev pub entry_active : Uuid → ℕ → Clock → SessionEntry → Result ConnectivityError (Unit {0})
  entry_active session_id idle_timeout clock entry =
      if entry.killed
      then err (session_err session_id (text "session was killed"))
      else if leb_ℤ entry.token.expires_at (pos clock.utc)
      then err (session_err session_id (text "session token expired"))
      else if ltb idle_timeout (clock.instant - entry.last_activity)
      then err (session_err session_id (text "session idle timeout exceeded"))
      else ok tt

  unfoldable pub ensure_active : Uuid → Clock → SessionManager → Result ConnectivityError (Unit {0})
  ensure_active session_id clock manager = elim (lookup session_id manager.sessions) [
    | none ↦ err (session_err session_id (text "unknown session"))
    | some entry ↦ entry_active session_id manager.idle_timeout clock entry
  ]

  -- `verify_slice` compares the tag with that of the message.
  unfoldable pub validate :
      SessionToken → Clock → SessionManager → Result ConnectivityError (Unit {0})
  validate token clock manager =
      if not (text_beq (sign manager token) token.hmac)
      then err (session_err token.session_id (text "invalid token signature"))
      else ensure_active token.session_id clock manager

  abbrev pub control_entry :
      Uuid
      → Bool
      → SessionManager
      → SessionEntry
      → Result ConnectivityError (Unit {0}) × SessionManager
  control_entry session_id controlling manager entry =
      if controlling && not (has_takeover entry.token)
      then (err (session_err session_id (text "session lacks takeover capability")), manager)
      else (
        ok tt,
        record manager {
          sessions =
              insert session_id (record entry { controlling = controlling }) manager.sessions;
        },
      )

  -- What `set_controlling` does under its second lock.
  unfoldable pub switch :
      Uuid → Bool → SessionManager → Result ConnectivityError (Unit {0}) × SessionManager
  switch session_id controlling manager = elim (lookup session_id manager.sessions) [
    | none ↦ (err (session_err session_id (text "unknown session")), manager)
    | some entry ↦ control_entry session_id controlling manager entry
  ]

  unfoldable pub set_controlling :
      (SessionManager → SessionManager)
      → Uuid
      → Bool
      → Clock
      → SessionManager
      → Result ConnectivityError (Unit {0}) × SessionManager
  set_controlling meanwhile session_id controlling clock manager =
      elim (ensure_active session_id clock manager) [
        | err e ↦ (err e, manager)
        | ok _ ↦ switch session_id controlling (meanwhile manager)
      ]

  abbrev pub active_sessions : Clock → SessionManager → List Uuid
  active_sessions clock manager =
      keep (λ id. is_ok (ensure_active id clock manager)) (map (λ e. e.0) manager.sessions)

  -- `SessionBoundBus::send`: the answer, the manager, and what was sent on the inner bus, whose
  -- `send` is a parameter.
  unfoldable pub send :
      (MultiplexedEnvelope → Result ConnectivityError (Unit {0}))
      → (SessionManager → SessionManager)
      → Uuid
      → MultiplexedEnvelope
      → Clock
      → SessionManager
      → Result ConnectivityError (Unit {0}) × SessionManager × Option MultiplexedEnvelope
  send inner meanwhile session_id envelope clock manager =
      elim (ensure_active session_id clock manager) [
        | err e ↦ (err e, manager, none)
        | ok _ ↦
            let stamped : MultiplexedEnvelope = record envelope { session_id = session_id } in
            (inner stamped, record_activity session_id clock (meanwhile manager), some stamped)
      ]
