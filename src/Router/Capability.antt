-- ===== src/Router/Capability.antt =====
-- crates/mahi-compute/src/capability.rs: the capability snapshot of the registered providers.
use mahi_ai.Prelude.{
  ◌≡◌, refl, Bool-cases, inl, inr, true, false, Option, none, some, List, [], ◌∷◌, ◌++◌, map,
  append_assoc, append-nil, arith, ◌==◌, keep, is_empty, not, ◌||◌,
}
use mahi_ai.Dict.{Dict, lookup, insert, lookup-insert}
use mahi_ai.Contracts.Types.{
  ComputeMode, mode_eq, mode_beq_iff, on_device, mac_lan, mac_remote, hosted, ModelDescriptor,
  ModeCapability,
}
use mahi_ai.Contracts.Inference.{InferenceProvider}

abbrev all_modes : List ComputeMode
all_modes = on_device ∷ mac_lan ∷ mac_remote ∷ hosted ∷ []

abbrev pub unavailable : ModeCapability
unavailable = record { available = false; models = []; tool_ids = [] }

abbrev pub no_modes : Dict ComputeMode ModeCapability
no_modes = map (λ m. (m, unavailable)) all_modes

-- `modes.entry(mode).or_insert_with(...)`
abbrev entry : Option ModeCapability → ModeCapability
entry none = unavailable
entry (some c) = c

module _ {V : Type 0} where
  abbrev with_model : InferenceProvider V → ModeCapability → ModeCapability
  with_model p c = record c { available = true; models = c.models ++ p.descriptor ∷ [] }

  publish :
      Dict ComputeMode ModeCapability
      → List (ComputeMode × InferenceProvider V)
      → Dict ComputeMode ModeCapability
  publish modes [] = modes
  publish modes ((mode, provider) ∷ rest) =
      publish (insert mode (with_model provider (entry (lookup mode modes))) modes) rest

  -- The `modes` of the snapshot; its device id and time stamp are copied from the caller.
  pub build_capability_snapshot :
      List (ComputeMode × InferenceProvider V) → Dict ComputeMode ModeCapability
  unfolding publish
  build_capability_snapshot providers = publish no_modes providers

  abbrev pub descriptors_for :
      ComputeMode → List (ComputeMode × InferenceProvider V) → List ModelDescriptor
  descriptors_for m ps = map (λ x. x.1.descriptor) (keep (λ x. x.0 == m) ps)

  publish_lem :
      (m : ComputeMode) (modes : Dict ComputeMode ModeCapability)
      (ps : List (ComputeMode × InferenceProvider V)) (c : ModeCapability)
      → lookup m modes ≡ some c
      → lookup m (publish modes ps)
        ≡ some (record c {
          available = c.available || not (is_empty (descriptors_for m ps));
          models = c.models ++ descriptors_for m ps;
        })
  unfolding publish
  publish_lem m modes [] c h = ground (arith, append-nil c.models)
  publish_lem m modes ((mode, p) ∷ rest) c h =
      let new : ModeCapability = with_model p (entry (lookup mode modes)) in
      let added : Dict ComputeMode ModeCapability = insert mode new modes in
      elim (Bool-cases (mode == m)) [
        | inl same ↦ ground (
          arith,
          mode_beq_iff mode m,
          lookup-insert mode m new modes,
          publish_lem m added rest (with_model p c),
          append_assoc c.models (p.descriptor ∷ []) (descriptors_for m rest),
        )
        | inr other ↦ ground (arith, lookup-insert mode m new modes, publish_lem m added rest c)
      ]

  -- The snapshot reports every mode: available exactly if a provider of it is registered, and with
  -- the descriptors of the providers of that mode, in their order.
  pub lookup-build_capability_snapshot :
      (m : ComputeMode) (ps : List (ComputeMode × InferenceProvider V))
      → lookup m (build_capability_snapshot ps)
        ≡ some (record {
          available = not (is_empty (descriptors_for m ps));
          models = descriptors_for m ps;
          tool_ids = [];
        })
  unfolding build_capability_snapshot lookup
  lookup-build_capability_snapshot on_device ps = publish_lem on_device no_modes ps unavailable refl
  lookup-build_capability_snapshot mac_lan ps = publish_lem mac_lan no_modes ps unavailable refl
  lookup-build_capability_snapshot mac_remote ps =
      publish_lem mac_remote no_modes ps unavailable refl
  lookup-build_capability_snapshot hosted ps = publish_lem hosted no_modes ps unavailable refl
