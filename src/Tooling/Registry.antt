-- ===== src/Tooling/Registry.antt =====
-- crates/mahi-tooling/src/registry.rs: `ToolRegistry`, with the adapter of connector.rs.
-- The two collections behind their locks are fields. A tool's stream is the list of what it yields
-- while the registry also watches the cancellation token.
use mahi_ai.Prelude.{
  ℕ, suc, length, Bool, not, Option, none, some, List, [], ◌∷◌, ◌++◌, map, keep, any_of, Text, text,
  text_eq, if◌then◌else◌,
}
use mahi_ai.Dict.{Dict, lookup, contains_key}
use mahi_ai.Dict.Sorted.{insert_sorted}
use mahi_ai.Contracts.Types.{ComputeMode, mode_beq}
use mahi_ai.Contracts.Errors.{ContractError, ToolError}
use mahi_ai.Contracts.Result.{Result, ok, err}
use mahi_ai.Contracts.Stream.{Poll}
use mahi_ai.Contracts.Tooling.{ToolDescriptor, ToolEvent, ToolInvocation}

-- crates/mahi-tooling/src/tool.rs: `trait Tool`
pub record Tool (V : Type 0) : Type 0 where
  pub descriptor : ToolDescriptor V
  pub run : V → List (Poll (ToolEvent V))

-- crates/mahi-tooling/src/connector.rs: `trait Connector`
pub record Connector (V : Type 0) : Type 0 where
  pub id : Text
  pub display_name : Text
  pub tools : List (ToolDescriptor V)
  pub invoke : Text → V → List (Poll (ToolEvent V))

pub record ToolRegistry (V : Type 0) : Type 0 where
  pub tools : Dict Text (Tool V)
  pub connectors : List (Connector V)

abbrev pub already_registered : Text → ContractError
already_registered id = ContractError.other (text "tool `" ++ id ++ text "` is already registered")

abbrev pub taken_error : Text → Text → ContractError
taken_error connector id = ContractError.other (
    text "connector `"
    ++ connector
    ++ text "` contributes tool `"
    ++ id
    ++ text "` which is already registered")

module _ {V : Type 0} where
  abbrev pub empty : ToolRegistry V
  empty = record { tools = []; connectors = [] }

  abbrev pub registered : Text → ToolRegistry V → Bool
  registered id registry = contains_key id registry.tools

  unfoldable pub register :
      Tool V → ToolRegistry V → Result ContractError (Unit {0}) × ToolRegistry V
  register tool registry =
      if registered tool.descriptor.id registry
      then (err (already_registered tool.descriptor.id), registry)
      else (ok tt, record registry { tools = insert_sorted tool.descriptor.id tool registry.tools })

  abbrev pub after_register :
      (ToolRegistry V → Result ContractError (Unit {0}) × ToolRegistry V)
      → Result ContractError (Unit {0}) × ToolRegistry V
      → Result ContractError (Unit {0}) × ToolRegistry V
  after_register rest (ok _, registry) = rest registry
  after_register rest (err e, registry) = (err e, registry)

  -- `for tool in tools { registry.register(tool)?; }`
  unfoldable pub register_each :
      List (Tool V) → ToolRegistry V → Result ContractError (Unit {0}) × ToolRegistry V
  register_each [] registry = (ok tt, registry)
  register_each (tool ∷ tools) registry =
      after_register (register_each tools) (register tool registry)

  -- The same loop, with what other threads do to the registry before each `register`; the number is that
  -- of the tools that are left.
  unfoldable pub register_between :
      (meanwhile : ℕ → ToolRegistry V → ToolRegistry V)
      → List (Tool V)
      → ToolRegistry V
      → Result ContractError (Unit {0}) × ToolRegistry V
  register_between meanwhile [] registry = (ok tt, registry)
  register_between meanwhile (tool ∷ tools) registry =
      after_register (register_between meanwhile tools)
        (register tool (meanwhile (suc (length tools)) registry))

  -- `ConnectorTool`
  abbrev pub connector_tool : Connector V → ToolDescriptor V → Tool V
  connector_tool connector descriptor = record {
    descriptor = descriptor;
    run = connector.invoke descriptor.id;
  }

  -- The check before the connector's tools are registered: the first id that is taken.
  abbrev pub taken : List (ToolDescriptor V) → ToolRegistry V → Option Text
  taken [] registry = none
  taken (d ∷ ds) registry = if registered d.id registry then some d.id else taken ds registry

  abbrev pub push_connector : Connector V → ToolRegistry V → ToolRegistry V
  push_connector connector registry = record registry {
    connectors = registry.connectors ++ connector ∷ [];
  }

  -- The check holds a lock of its own, and so does each `register` after it; `meanwhile` is what other
  -- threads do in between.
  unfoldable pub mount_connector :
      (meanwhile : ℕ → ToolRegistry V → ToolRegistry V)
      → Connector V
      → ToolRegistry V
      → Result ContractError (Unit {0}) × ToolRegistry V
  mount_connector meanwhile connector registry = elim (taken connector.tools registry) [
    | some id ↦ (err (taken_error connector.id id), registry)
    | none ↦
        after_register (λ r. (ok tt, push_connector connector (meanwhile 0 r)))
          (register_between meanwhile (map (connector_tool connector) connector.tools) registry)
  ]

  abbrev pub connector_ids : ToolRegistry V → List Text
  connector_ids registry = map (λ c. c.id) registry.connectors

  -- `descriptor.available_in_modes.contains(&mode)`
  abbrev pub available : ComputeMode → ToolDescriptor V → Bool
  available mode d = any_of (λ m. mode_beq m mode) d.available_in_modes

  unfoldable pub describe : ComputeMode → ToolRegistry V → List (ToolDescriptor V)
  describe mode registry = keep (available mode) (map (λ e. e.1.descriptor) registry.tools)

  -- A stream that ends with a single `Cancelled` once the token fires.
  unfoldable pub with_cancellation :
      List (Poll (ToolEvent V)) → List (Result ContractError (ToolEvent V))
  with_cancellation [] = []
  with_cancellation (Poll.fired ∷ polls) = ok ToolEvent.cancelled ∷ []
  with_cancellation (Poll.item event ∷ polls) = event ∷ with_cancellation polls

  -- What becomes of an invocation, once its tool is looked up.
  abbrev pub dispatch :
      ToolInvocation V
      → Option (Tool V)
      → Result ContractError (List (Result ContractError (ToolEvent V)))
  dispatch call none = err (ContractError.tool (ToolError.not_found call.tool_id))
  dispatch call (some tool) =
      if not (available call.compute_mode tool.descriptor)
      then err (ContractError.tool (ToolError.unavailable_in_mode call.tool_id call.compute_mode))
      else ok (with_cancellation (tool.run call.args))

  unfoldable pub invoke :
      ToolInvocation V
      → ToolRegistry V
      → Result ContractError (List (Result ContractError (ToolEvent V)))
  invoke call registry = dispatch call (lookup call.tool_id registry.tools)
