-- ===== src/Store.antt =====
-- crates/mahi-data/src/store.rs, `SqliteBackend`: its tables, with the index columns that its schema
-- names, and the formats of its records.
pub mod Crypto
pub mod Rows
pub mod Sealed
pub mod Conversations
pub mod Messages
pub mod Memory
pub mod Skills
pub mod Tasks
pub mod Artifacts
pub mod Settings
pub mod Checkpoints
pub mod Audit
pub mod Permissions
mod Examples
use mahi_ai.Prelude.{Bool, Option, List, Text}
use mahi_ai.Prelude.Int.{ℤ}
use mahi_ai.Contracts.Types.{Timestamp}
use mahi_ai.Store.Crypto.{Bytes}
use mahi_ai.Store.Rows.{Table}

pub record MessageColumns : Type 0 where
  pub conversation_id : Text
  pub sequence_num : ℤ

pub record CheckpointColumns : Type 0 where
  pub conversation_id : Text
  pub captured_at : ℤ

pub record GrantColumns : Type 0 where
  pub subject : Text
  pub revoked : Bool

-- A row of the audit table; the `seq` column is the place in the list.
pub record AuditRow : Type 0 where
  pub event_id : Text
  pub session_id : Option Text
  pub prev_hash : Text
  pub hash : Text
  pub enc : Bytes
  pub nonce : Bytes

pub record SqliteBackend : Type 0 where
  pub conversations : Table ℤ
  pub messages : Table MessageColumns
  pub memory : Table (Option Text)
  pub skills : Table Text
  pub settings : Table (Unit {0})
  pub tasks : Table (Unit {0})
  pub artifacts : Table (Unit {0})
  pub checkpoints : Table CheckpointColumns
  pub audit : List AuditRow
  pub grants : Table GrantColumns
  pub root : Bytes
