-- ===== src/Contracts/Types.antt =====
-- crates/mahi-contracts/src/types.rs and error.rs: the types that every domain shares.
-- A `Uuid` is a number, a `DateTime<Utc>` is its count of milliseconds.
use mahi_ai.Prelude.{ℕ, ◌≡◌, ◌↔◌, Bool, true, false, Option, List, arith, Text, Eq}

abbrev pub Uuid : Type 0
Uuid = ℕ

abbrev pub Timestamp : Type 0
Timestamp = ℕ

pub data ComputeMode : Type 0 where
  on_device mac_lan mac_remote hosted : ComputeMode

abbrev pub requires_network : ComputeMode → Bool
requires_network on_device = false
requires_network _ = true

abbrev pub mode_beq : ComputeMode → ComputeMode → Bool
mode_beq on_device on_device = true
mode_beq mac_lan mac_lan = true
mode_beq mac_remote mac_remote = true
mode_beq hosted hosted = true
mode_beq _ _ = false

pub mode_beq_iff : (a b : ComputeMode) → (mode_beq a b ≡ true) ↔ (a ≡ b)
mode_beq_iff a b = ground arith

instance abbrev pub mode_eq : Eq ComputeMode
mode_eq = record { same = mode_beq; same_iff = mode_beq_iff }

pub record CapabilitySet : Type 0 where
  pub vision : Bool
  pub tool_calling : Bool
  pub min_context_window : ℕ
  pub code_gen : Bool
  pub thinking : Bool

pub data ModelSource : Type 0 where
  on_device : ModelSource
  mac_local : ModelSource
  mac_remote : ModelSource
  hosted : Text → ModelSource

-- `tok_per_sec` is the bit pattern of an `f32`; that of 0.0 is 0.
pub record PerfProfile : Type 0 where
  pub ttft_ms : ℕ
  pub tok_per_sec : ℕ

pub data LimitationLabel : Type 0 where
  no_local_repo : LimitationLabel
  max_images : ℕ → LimitationLabel
  max_context_window : ℕ → LimitationLabel
  no_complex_code_gen : LimitationLabel
  custom : Text → LimitationLabel

pub record ModelDescriptor : Type 0 where
  pub id : Text
  pub display_name : Text
  pub context_window : ℕ
  pub capabilities : CapabilitySet
  pub limitations : List LimitationLabel
  pub size_bytes : Option ℕ
  pub quantization : Option Text
  pub source : ModelSource
  pub perf_profile : PerfProfile

pub record ModeCapability : Type 0 where
  pub available : Bool
  pub models : List ModelDescriptor
  pub tool_ids : List Text
