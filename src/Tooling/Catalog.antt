-- ===== src/Tooling/Catalog.antt =====
-- The catalogue that crates/mahi-tooling/src/registry.rs keeps: what it lists and what it runs.
use mahi_ai.Prelude.{
  ◌≡◌, ◌↔◌, ◌⊎◌, refl, sym, ◌∙◌, ap, inl, inr, true, false, Bool-cases, Option, none, some, List,
  [], ◌∷◌, All, map, keep, find_first, arith, Text, text_beq, text_beq_iff, text_eq, if◌then◌else◌,
  ◌==◌,
}
use mathlib.Core.Path.{subst}
use mahi_ai.Dict.{Dict, lookup}
use mahi_ai.Dict.Sorted.{
  text_ltb, insert_sorted, lookup-insert_sorted, AllAfter, IsSorted, insert_sorted-IsSorted,
}
use mahi_ai.Contracts.Types.{ComputeMode}
use mahi_ai.Contracts.Result.{ok, err, is_ok}
use mahi_ai.Contracts.Tooling.{ToolDescriptor, ToolInvocation}
use mahi_ai.Tooling.Registry.{
  Tool, ToolRegistry, registered, already_registered, register, available, describe, dispatch,
  invoke,
}

text_ltb_irrefl : (a : Text) → text_ltb a a ≡ false
text_ltb_irrefl [] = refl
text_ltb_irrefl (x ∷ a) = ground (arith, text_ltb_irrefl a)

module _ {V : Type 0} where
  -- Every tool stands under its own id.
  abbrev pub Keyed : Dict Text (Tool V) → Type 0
  Keyed tools = All (λ e. e.1.descriptor.id ≡ e.0) tools

  abbrev pub IsCatalog : ToolRegistry V → Type 0
  IsCatalog registry = IsSorted registry.tools × Keyed registry.tools

  insert_sorted-Keyed :
      (tool : Tool V) (tools : Dict Text (Tool V))
      → Keyed tools
      → Keyed (insert_sorted tool.descriptor.id tool tools)
  unfolding insert_sorted
  insert_sorted-Keyed tool [] h = (refl, tt)
  insert_sorted-Keyed tool ((j, t) ∷ tools) h = elim (Bool-cases (text_beq j tool.descriptor.id)) [
    | inl here ↦ rw here (refl, h.1)
    | inr other ↦ rw other (elim (Bool-cases (text_ltb tool.descriptor.id j)) [
      | inl before ↦ rw before (refl, h)
      | inr past ↦ rw past (h.0, insert_sorted-Keyed tool tools h.1)
    ])
  ]

  -- Registering a tool succeeds exactly when its id is free; then the id leads to the tool and every
  -- other id to what it led to. Otherwise the registry does not change. A catalogue stays one.
  pub register-IsCatalog :
      (tool : Tool V) (registry : ToolRegistry V)
      → IsCatalog registry
      → IsCatalog (register tool registry).1
        × (((registered tool.descriptor.id registry ≡ false)
              × ((register tool registry).0 ≡ ok tt)
              × ((j : Text)
                  → lookup j (register tool registry).1.tools ≡ (
                      if text_beq tool.descriptor.id j
                      then some tool
                      else lookup j registry.tools)))
            ⊎ ((registered tool.descriptor.id registry ≡ true)
                × (register tool registry
                    ≡ (err (already_registered tool.descriptor.id), registry))))
  unfolding register
  register-IsCatalog tool registry h = elim (Bool-cases (registered tool.descriptor.id registry)) [
    | inl old ↦ rw (old, register) (h, inr (refl, refl))
    | inr new ↦
        rw (new, register)
          (
            (
              insert_sorted-IsSorted tool.descriptor.id tool registry.tools h.0,
              insert_sorted-Keyed tool registry.tools h.1,
            ),
            inl (refl, refl, λ j. lookup-insert_sorted tool.descriptor.id j tool registry.tools),
          )
  ]

  -- What a mode lists of an entry of the map.
  abbrev pub offered : ComputeMode → Option (Tool V) → Option (ToolDescriptor V)
  offered mode none = none
  offered mode (some tool) = if available mode tool.descriptor then some tool.descriptor else none

  abbrev listed : ComputeMode → Dict Text (Tool V) → List (ToolDescriptor V)
  listed mode tools = keep (available mode) (map (λ e. e.1.descriptor) tools)

  absent_after :
      (mode : ComputeMode) (id : Text) (tools : Dict Text (Tool V))
      → AllAfter id tools
      → Keyed tools
      → find_first (λ d. d.id == id) (listed mode tools) ≡ none
  absent_after mode id [] a h = refl
  absent_after mode id ((j, t) ∷ tools) a h =
      let later = absent_after mode id tools a.1 h.1 in
      let other : text_beq t.descriptor.id id ≡ false = ground (
        arith,
        h.0,
        a.0,
        text_beq_iff t.descriptor.id id,
        ap (text_ltb id) h.0,
        text_ltb_irrefl id,
      ) in
      elim (Bool-cases (available mode t.descriptor)) [
        | inl fits ↦ rw fits (rw other later)
        | inr hidden ↦ rw hidden later
      ]

  find_listed :
      (mode : ComputeMode) (id : Text) (tools : Dict Text (Tool V))
      → IsSorted tools
      → Keyed tools
      → find_first (λ d. d.id == id) (listed mode tools) ≡ offered mode (lookup id tools)
  unfolding lookup
  find_listed mode id [] s h = refl
  find_listed mode id ((j, t) ∷ tools) s h =
      let later = find_listed mode id tools s.1 h.1 in
      let at : text_beq t.descriptor.id id ≡ text_beq j id = ap (λ x. text_beq x id) h.0 in
      elim (Bool-cases (text_beq j id)) [
        | inl here ↦
            let gone : find_first (λ d. d.id == id) (listed mode tools) ≡ none =
              absent_after mode id tools
                (subst (λ x. AllAfter x tools) ((text_beq_iff j id).0 here) s.0) h.1 in
            elim (Bool-cases (available mode t.descriptor)) [
              | inl fits ↦ rw (fits, here) (rw (at, here, fits) refl)
              | inr hidden ↦ rw (hidden, here) (rw hidden gone)
            ]
        | inr other ↦ elim (Bool-cases (available mode t.descriptor)) [
          | inl fits ↦ rw (fits, other) (rw (at, other) later)
          | inr hidden ↦ rw (hidden, other) later
        ]
      ]

  -- In a catalogue, looking an id up in what a mode lists gives the descriptor of the tool registered
  -- under it, where that tool is available in the mode, and nothing otherwise.
  pub find_first-describe :
      (mode : ComputeMode) (id : Text) (registry : ToolRegistry V)
      → IsCatalog registry
      → find_first (λ d. d.id == id) (describe mode registry)
        ≡ offered mode (lookup id registry.tools)
  unfolding describe
  find_first-describe mode id registry h = find_listed mode id registry.tools h.0 h.1

  dispatch_iff-offered :
      (call : ToolInvocation V) (o : Option (Tool V))
      → (is_ok (dispatch call o) ≡ true)
        ↔ ((d : ToolDescriptor V) × (offered call.compute_mode o ≡ some d))
  dispatch_iff-offered call none = (λ h. absurd (cc h), λ (d, e). absurd (cc e))
  dispatch_iff-offered call (some tool) =
      elim (Bool-cases (available call.compute_mode tool.descriptor)) [
        | inl fits ↦ rw fits (λ h. (tool.descriptor, refl), λ h. refl)
        | inr hidden ↦ rw hidden (λ h. absurd (cc h), λ (d, e). absurd (cc e))
      ]

  -- In a catalogue, an invocation is accepted exactly when its tool is listed for its mode.
  pub invoke_iff-describe :
      (call : ToolInvocation V) (registry : ToolRegistry V)
      → IsCatalog registry
      → (is_ok (invoke call registry) ≡ true) ↔ (
          (d : ToolDescriptor V) × (find_first
              (λ x. x.id == call.tool_id)
              (describe call.compute_mode registry)
            ≡ some d))
  unfolding invoke
  invoke_iff-describe call registry h =
      subst (λ o. (is_ok (invoke call registry) ≡ true) ↔ ((d : ToolDescriptor V) × (o ≡ some d)))
        (sym (find_first-describe call.compute_mode call.tool_id registry h))
        (dispatch_iff-offered call (lookup call.tool_id registry.tools))

  ids_after :
      (mode : ComputeMode) (k : Text) (tools : Dict Text (Tool V))
      → AllAfter k tools
      → Keyed tools
      → All (λ d. text_ltb k d.id ≡ true) (listed mode tools)
  ids_after mode k [] a h = tt
  ids_after mode k ((j, t) ∷ tools) a h = elim (Bool-cases (available mode t.descriptor)) [
    | inl fits ↦ rw fits (ap (text_ltb k) h.0 ∙ a.0, ids_after mode k tools a.1 h.1)
    | inr hidden ↦ rw hidden (ids_after mode k tools a.1 h.1)
  ]

  -- The ids of a list of descriptors increase.
  abbrev pub Increasing : List (ToolDescriptor V) → Type 0
  Increasing [] = Unit
  Increasing (d ∷ ds) = All (λ x. text_ltb d.id x.id ≡ true) ds × Increasing ds

  listed-Increasing :
      (mode : ComputeMode) (tools : Dict Text (Tool V))
      → IsSorted tools
      → Keyed tools
      → Increasing (listed mode tools)
  listed-Increasing mode [] s h = tt
  listed-Increasing mode ((j, t) ∷ tools) s h =
      let later = listed-Increasing mode tools s.1 h.1 in
      elim (Bool-cases (available mode t.descriptor)) [
        | inl fits ↦ rw fits (
          ids_after mode t.descriptor.id tools (subst (λ x. AllAfter x tools) (sym h.0) s.0) h.1,
          later,
        )
        | inr hidden ↦ rw hidden later
      ]

  -- What a mode lists of a catalogue is ordered by id, without repetition.
  pub describe-Increasing :
      (mode : ComputeMode) (registry : ToolRegistry V)
      → IsCatalog registry
      → Increasing (describe mode registry)
  unfolding describe
  describe-Increasing mode registry h = listed-Increasing mode registry.tools h.0 h.1
