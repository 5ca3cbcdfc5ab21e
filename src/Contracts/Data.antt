-- ===== src/Contracts/Data.antt =====
-- crates/mahi-contracts/src/data.rs: conversations, messages, audit events and permission grants.
-- `V` is the type of JSON values (`serde_json::Value`).
use mahi_ai.Prelude.{Option, none, List, [], ◌∷◌, ◌++◌, Text}
use mahi_ai.Prelude.Int.{ℤ}
use mahi_ai.Contracts.Types.{Uuid, Timestamp, ComputeMode}

pub record Conversation : Type 0 where
  pub id : Uuid
  pub space_id : Option Uuid
  pub title : Option Text
  pub created_at : Timestamp
  pub updated_at : Timestamp
  pub mode_at_creation : ComputeMode
  pub system_prompt : Option Text
  pub persona_id : Option Uuid
  pub active_checkpoint_id : Option Uuid

pub data MessageRole : Type 0 where
  user assistant tool system : MessageRole

pub data ContentBlock (V : Type 0) : Type 0 where
  text : Text → ContentBlock V
  tool_call : (call_id tool_id : Text) → V → ContentBlock V
  tool_result : (call_id : Text) → V → ContentBlock V
  artifact_ref : Uuid → ContentBlock V
  image : (media_type payload : Text) → ContentBlock V
  thinking : (thinking signature : Text) → ContentBlock V

pub record Message (V : Type 0) : Type 0 where
  pub id : Uuid
  pub conversation_id : Uuid
  pub role : MessageRole
  pub content : List (ContentBlock V)
  pub model_id : Option Text
  pub mode : ComputeMode
  pub created_at : Timestamp
  pub sequence_num : ℤ
  pub approval_refs : List Uuid

-- `Message::text`; the fresh id and the clock are arguments.
abbrev pub text_message :
    {V : Type 0} → Uuid → Timestamp → Uuid → MessageRole → Text → ComputeMode → ℤ → Message V
text_message fresh now conversation_id role words mode sequence_num = record {
  id = fresh;
  conversation_id = conversation_id;
  role = role;
  content = text words ∷ [];
  model_id = none;
  mode = mode;
  created_at = now;
  sequence_num = sequence_num;
  approval_refs = [];
}

-- `Message::text_content`
unfoldable pub text_content : {V : Type 0} → List (ContentBlock V) → Text
text_content [] = []
text_content (text t ∷ bs) = t ++ text_content bs
text_content (tool_call _ _ _ ∷ bs) = text_content bs
text_content (tool_result _ _ ∷ bs) = text_content bs
text_content (artifact_ref _ ∷ bs) = text_content bs
text_content (image _ _ ∷ bs) = text_content bs
text_content (thinking _ _ ∷ bs) = text_content bs

pub data AuditOutcome : Type 0 where
  allowed denied pending : AuditOutcome

pub data AuditEventType : Type 0 where
  tool_call file_access ui_action sync_op permission_change hard_rule_block approval_wall :
      AuditEventType

pub data AuditActor : Type 0 where
  user agent system : AuditActor

pub record AuditEvent (V : Type 0) : Type 0 where
  pub event_id : Uuid
  pub device_id : Uuid
  pub session_id : Option Uuid
  pub event_type : AuditEventType
  pub actor : AuditActor
  pub resource_ref : Option Text
  pub outcome : AuditOutcome
  pub metadata : V
  pub timestamp : Timestamp
  pub prev_hash : Text

pub data PermissionSubject : Type 0 where
  tool feature : Text → PermissionSubject

pub data PermissionTier : Type 0 where
  allow_once allow_always deny : PermissionTier

pub data AccessLevel : Type 0 where
  read_only click full : AccessLevel

pub record PermissionGrant : Type 0 where
  pub grant_id : Uuid
  pub subject : PermissionSubject
  pub scope : List Text
  pub tier : PermissionTier
  pub access_level : AccessLevel
  pub device_id : Uuid
  pub prompt_text : Text
  pub granted_at : Timestamp
  pub expires_at : Option Timestamp
  pub revoked_at : Option Timestamp
