-- ===== src/Contracts/Capabilities.antt =====
-- The operations on `CapabilitySet` in types.rs.
use mahi_ai.Prelude.{◌-◌, ◌≡◌, ◌↔◌, true, false, Bool, not, ◌&&◌, ◌||◌, arith, leb}
use mahi_ai.Contracts.Types.{CapabilitySet}

-- `CapabilitySet::none`
abbrev pub empty : CapabilitySet
empty = record {
  vision = false;
  tool_calling = false;
  min_context_window = 0;
  code_gen = false;
  thinking = false;
}

unfoldable pub missing_from : CapabilitySet → CapabilitySet → CapabilitySet
missing_from self other = record {
  vision = self.vision && not other.vision;
  tool_calling = self.tool_calling && not other.tool_calling;
  min_context_window = self.min_context_window - other.min_context_window;
  code_gen = self.code_gen && not other.code_gen;
  thinking = self.thinking && not other.thinking;
}

unfoldable pub satisfied_by : CapabilitySet → CapabilitySet → Bool
satisfied_by self other =
    (not self.vision || other.vision)
    && (not self.tool_calling || other.tool_calling)
    && (not self.code_gen || other.code_gen)
    && (not self.thinking || other.thinking)
    && leb self.min_context_window other.min_context_window

-- A capability set is satisfied by another exactly when nothing of it is missing from the other.
pub satisfied_by_iff-missing_from :
    (self other : CapabilitySet)
    → (satisfied_by self other ≡ true) ↔ (missing_from self other ≡ empty)
unfolding satisfied_by missing_from
satisfied_by_iff-missing_from self other = ground arith
