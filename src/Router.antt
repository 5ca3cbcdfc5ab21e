-- ===== src/Router.antt =====
-- crates/mahi-compute/src/router.rs: the mode-selection engine.
-- `HashMap<ComputeMode, Arc<dyn InferenceProvider>>` is a `Dict`, the lock round `last_active` is
-- the state that `generate` returns.
pub mod Capability
pub mod Selection
pub mod Streaming
mod Examples
use mahi_ai.Prelude.{
  ℕ, ◌≡◌, Bool, true, false, Option, none, some, List, [], ◌∷◌, map, Text, text, if◌then◌else◌,
  keep,
}
use mahi_ai.Dict.{Dict, lookup, insert, contains_key}
use mahi_ai.Contracts.Types.{
  ComputeMode, mode_eq, on_device, mac_lan, mac_remote, hosted, ModelDescriptor, ModelSource,
  LimitationLabel,
}
use mahi_ai.Contracts.Types
use mahi_ai.Contracts.Capabilities
use mahi_ai.Contracts.Errors.{ContractError, InferenceError}
use mahi_ai.Contracts.Result.{Result, ok, err}
use mahi_ai.Contracts.Inference.{
  InferenceChunk, InferenceStream, CanHandleResult, InferenceRequest, InferenceProvider,
}

abbrev pub preference_order : List ComputeMode
preference_order = mac_lan ∷ mac_remote ∷ hosted ∷ on_device ∷ []

pub record InferenceRouter (V : Type 0) : Type 0 where
  pub providers : Dict ComputeMode (InferenceProvider V)
  pub pin : Option ComputeMode
  pub last_active : Option ComputeMode

-- `InferenceRouter::unavailable_descriptor`
abbrev pub unavailable_descriptor : ModelDescriptor
unavailable_descriptor = record {
  id = text "mahi-router/no-active-provider";
  display_name = text "Mahi Router (no active provider)";
  context_window = 0;
  capabilities = Capabilities.empty;
  limitations =
      LimitationLabel.custom (text "no provider registered or pinned mode unavailable") ∷ [];
  size_bytes = none;
  quantization = none;
  source = ModelSource.on_device;
  perf_profile = record { ttft_ms = 0; tok_per_sec = 0 };
}

abbrev pub Selected : Type 0 → Type 0
Selected V = ComputeMode × InferenceProvider V

abbrev pub refuse : {V : Type 0} → InferenceError → Result ContractError (Selected V)
refuse e = err (ContractError.inference e)

-- `item.map(|mut chunk| { chunk.active_mode = mode; chunk })`
abbrev pub stamp :
    ComputeMode → Result ContractError InferenceChunk → Result ContractError InferenceChunk
stamp mode (ok chunk) = ok (record chunk { active_mode = mode })
stamp mode (err e) = err e

stamp_stream :
    ComputeMode → Result ContractError InferenceStream → Result ContractError InferenceStream
stamp_stream mode (ok inner) = ok (map (stamp mode) inner)
stamp_stream mode (err e) = err e

module _ {V : Type 0} where
  -- The branch of a pinned mode in `select`.
  select_pinned :
      InferenceRouter V → InferenceRequest V → ComputeMode → Result ContractError (Selected V)
  select_pinned r req pinned = elim (lookup pinned r.providers) [
    | none ↦ refuse (InferenceError.pin_violation pinned)
    | some provider ↦
        if (provider.can_handle req).capable
        then ok (pinned, provider)
        else refuse (InferenceError.pin_violation pinned)
  ]

  -- The loop over `PREFERENCE_ORDER` in `select`.
  select_first :
      InferenceRouter V → InferenceRequest V → List ComputeMode → Result ContractError (Selected V)
  select_first r req [] = refuse InferenceError.no_capable_provider
  select_first r req (mode ∷ modes) =
      let rest = select_first r req modes in
      elim (lookup mode r.providers) [
        | none ↦ rest
        | some provider ↦ if (provider.can_handle req).capable then ok (mode, provider) else rest
      ]

  pub select : InferenceRouter V → InferenceRequest V → Result ContractError (Selected V)
  unfolding select_pinned select_first
  select r req = elim r.pin [
    | some pinned ↦ select_pinned r req pinned
    | none ↦ select_first r req preference_order
  ]

  first_registered : InferenceRouter V → List ComputeMode → Option (InferenceProvider V)
  first_registered r [] = none
  first_registered r (mode ∷ modes) =
      let rest = first_registered r modes in
      elim (lookup mode r.providers) [ none ↦ rest | some provider ↦ some provider ]

  active_unpinned : InferenceRouter V → Option ComputeMode → Option (InferenceProvider V)
  unfolding first_registered
  active_unpinned r none = first_registered r preference_order
  active_unpinned r (some mode) = elim (lookup mode r.providers) [
    | none ↦ first_registered r preference_order
    | some provider ↦ some provider
  ]

  pub active_provider : InferenceRouter V → Option (InferenceProvider V)
  unfolding active_unpinned
  active_provider r = elim r.pin [
    | some pinned ↦ lookup pinned r.providers
    | none ↦ active_unpinned r r.last_active
  ]

  pub descriptor : InferenceRouter V → ModelDescriptor
  unfolding active_provider
  descriptor r = elim (active_provider r) [ none ↦ unavailable_descriptor | some p ↦ p.descriptor ]

  abbrev pub incapable : InferenceRequest V → CanHandleResult
  incapable req = record {
    capable = false;
    missing_caps = req.required_caps;
    escalation_hint = none;
  }

  -- The loop of `can_handle`, with the first failure so far.
  probe_first :
      InferenceRouter V
      → InferenceRequest V
      → List ComputeMode
      → Option CanHandleResult
      → CanHandleResult
  probe_first r req [] none = incapable req
  probe_first r req [] (some failure) = failure
  probe_first r req (mode ∷ modes) first_failure =
      let skip = probe_first r req modes first_failure in
      elim (lookup mode r.providers) [
        | none ↦ skip
        | some p ↦
            let result = p.can_handle req in
            let next =
              probe_first r req modes
                (elim first_failure [ none ↦ some result | some f ↦ some f ]) in
            if result.capable then result else next
      ]

  pub can_handle : InferenceRouter V → InferenceRequest V → CanHandleResult
  unfolding probe_first
  can_handle r req = elim r.pin [
    | some pinned ↦ elim (lookup pinned r.providers) [
      | some p ↦ p.can_handle req
      | none ↦ incapable req
    ]
    | none ↦ probe_first r req preference_order none
  ]

  -- `last_active` is written once a provider is selected, before it generates.
  generate_selected :
      InferenceRouter V
      → InferenceRequest V
      → Result ContractError (Selected V)
      → InferenceRouter V × Result ContractError InferenceStream
  unfolding stamp_stream
  generate_selected r req (err e) = (r, err e)
  generate_selected r req (ok (mode, provider)) =
      (record r { last_active = some mode }, stamp_stream mode (provider.generate req))

  pub generate :
      InferenceRouter V
      → InferenceRequest V
      → InferenceRouter V × Result ContractError InferenceStream
  unfolding generate_selected
  generate r req = generate_selected r req (select r req)

  -- `InferenceRouterBuilder`: `builder`, `add_provider`, `pin`, `build` on the router they make.
  abbrev pub builder : InferenceRouter V
  builder = record { providers = []; pin = none; last_active = none }

  unfoldable pub add_provider :
      ComputeMode → InferenceProvider V → InferenceRouter V → InferenceRouter V
  add_provider mode provider b = record b { providers = insert mode provider b.providers }

  abbrev pub with_pin : Option ComputeMode → InferenceRouter V → InferenceRouter V
  with_pin mode b = record b { pin = mode }

  pub registered_modes : InferenceRouter V → List ComputeMode
  registered_modes r = keep (λ m. contains_key m r.providers) preference_order
