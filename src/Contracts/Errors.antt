-- ===== src/Contracts/Errors.antt =====
-- crates/mahi-contracts/src/error.rs: the errors that cross a contract boundary, and connectivity.rs'
-- channels, which one of them names.
use mahi_ai.Prelude.{◌≡◌, ◌↔◌, Bool, true, false, List, arith, Text, Eq}
use mahi_ai.Contracts.Types.{Uuid, ComputeMode}

pub data ChannelId : Type 0 where
  control inference sync approval stream_video input file_xfr audio : ChannelId

pub data InferenceError : Type 0 where
  no_capable_provider : InferenceError
  pin_violation : ComputeMode → InferenceError
  provider : Text → Bool → InferenceError
  thermal_throttle : InferenceError

pub data ToolError : Type 0 where
  not_found : Text → ToolError
  unavailable_in_mode : Text → ComputeMode → ToolError
  schema_validation : Text → ToolError
  sandbox_violation : ToolError
  execution : Text → ToolError

pub data StoreError : Type 0 where
  not_found : Uuid → StoreError
  backend : Text → StoreError
  encryption : Text → StoreError
  serialization : Text → StoreError

pub data ConnectivityError : Type 0 where
  peer_unreachable : Uuid → ConnectivityError
  channel_closed : ChannelId → ConnectivityError
  transport : Text → ConnectivityError

pub data PermissionError : Type 0 where
  denied : Text → List Text → PermissionError
  hard_rule_blocked : Text → PermissionError
  backend : Text → PermissionError

pub data ContractError : Type 0 where
  inference : InferenceError → ContractError
  tool : ToolError → ContractError
  store : StoreError → ContractError
  connectivity : ConnectivityError → ContractError
  permission : PermissionError → ContractError
  cancelled : ContractError
  other : Text → ContractError

abbrev pub channel_beq : ChannelId → ChannelId → Bool
channel_beq control control = true
channel_beq inference inference = true
channel_beq sync sync = true
channel_beq approval approval = true
channel_beq stream_video stream_video = true
channel_beq input input = true
channel_beq file_xfr file_xfr = true
channel_beq audio audio = true
channel_beq _ _ = false

pub channel_beq_iff : (a b : ChannelId) → (channel_beq a b ≡ true) ↔ (a ≡ b)
channel_beq_iff a b = ground arith

instance abbrev pub channel_eq : Eq ChannelId
channel_eq = record { same = channel_beq; same_iff = channel_beq_iff }
