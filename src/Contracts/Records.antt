-- ===== src/Contracts/Records.antt =====
-- crates/mahi-contracts/src/data.rs: the other records that the stores keep: memory, skills, tasks,
-- artifacts, settings and checkpoints. `V` is the type of JSON values.
use mahi_ai.Prelude.{ℕ, Bool, Option, List, Text}
use mahi_ai.Contracts.Types.{Uuid, Timestamp, ComputeMode}

pub data MemoryKind : Type 0 where
  fact preference project_note system : MemoryKind

pub record MemoryRecord : Type 0 where
  pub id : Uuid
  pub space_id : Option Uuid
  pub kind : MemoryKind
  pub content : Text
  pub embedding_ref : Option Uuid
  pub source_message_id : Option Uuid
  pub created_at : Timestamp
  pub updated_at : Timestamp
  pub user_visible : Bool
  pub user_confirmed : Bool

pub data SkillScope : Type 0 where
  global : SkillScope
  space user : Uuid → SkillScope

pub record Skill : Type 0 where
  pub id : Uuid
  pub slug : Text
  pub scope : SkillScope
  pub source_markdown : Text
  pub installed_by : Uuid
  pub version : Text
  pub created_at : Timestamp
  pub updated_at : Timestamp

pub data TaskStatus : Type 0 where
  pending running awaiting_approval completed cancelled failed : TaskStatus

pub record TaskItem : Type 0 where
  pub task_id : Uuid
  pub origin_device : Uuid
  pub assigned_device : Option Uuid
  pub status : TaskStatus
  pub summary : Text
  pub capabilities_required : List Text
  pub created_at : Timestamp
  pub updated_at : Timestamp
  pub expires_at : Option Timestamp

pub record Artifact : Type 0 where
  pub id : Uuid
  pub conversation_id : Option Uuid
  pub kind : Text
  pub content_type : Text
  pub bytes : List ℕ
  pub created_at : Timestamp

pub record Setting (V : Type 0) : Type 0 where
  pub key : Text
  pub value : V
  pub updated_at : Timestamp

pub record Checkpoint (V : Type 0) : Type 0 where
  pub id : Uuid
  pub conversation_id : Uuid
  pub captured_at : Timestamp
  pub mode_at_capture : ComputeMode
  pub state : V
