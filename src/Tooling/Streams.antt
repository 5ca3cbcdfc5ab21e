-- ===== src/Tooling/Streams.antt =====
-- The helpers of crates/mahi-tooling/src/tool.rs that build a tool's stream, which is the list of its
-- items.
use mahi_ai.Prelude.{Bool, false, List, [], ◌∷◌, ◌++◌, Text, text}
use mahi_ai.Contracts.Errors.{ContractError}
use mahi_ai.Contracts.Result.{Result, ok, err, map_err}
use mahi_ai.Contracts.Tooling.{ToolEvent}

-- `ToolEventStream`
abbrev pub Events : Type 0 → Type 0
Events V = List (Result ContractError (ToolEvent V))

module _ {V : Type 0} where
  abbrev pub ok_result : V → Events V
  ok_result output = ok (ToolEvent.result output false) ∷ []

  abbrev pub tool_error : Text → Bool → Events V
  tool_error message retryable = ok (ToolEvent.error message retryable) ∷ []

  abbrev pub contract_error : ContractError → Events V
  contract_error e = err e ∷ []

  -- The reader of the arguments, which `serde` derives from their struct, is the argument `from_value`.
  abbrev pub parse_args {ℓ} : {A : Type ℓ} → (V → Result Text A) → V → Result Text A
  parse_args from_value args =
      map_err (λ e. text "input schema validation failed: " ++ e) (from_value args)
