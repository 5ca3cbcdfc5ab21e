-- ===== src/Tooling/Mcp/Adapter/Guarded.antt =====
-- What mounting the MCP servers of crates/mahi-tooling/src/registry.rs adds to a registry.
use mahi_ai.Prelude.{
  ◌≡◌, refl, sym, ap, ◌∙◌, ◌⊎◌, inl, inr, Bool, true, false, Bool-cases, Option, none, some, List,
  [], ◌∷◌, map, All, Text, text_beq, text_beq_iff, text_eq, if◌then◌else◌,
}
use mathlib.Core.Path.{subst}
use mahi_ai.Dict.{lookup}
use mahi_ai.Dict.Sorted.{insert_sorted, lookup-insert_sorted}
use mahi_ai.Contracts.Types.{ComputeMode}
use mahi_ai.Contracts.Errors.{ContractError}
use mahi_ai.Contracts.Result.{Result, ok, err}
use mahi_ai.Json.{Json}
use mahi_ai.Tooling.Registry.{
  Tool, ToolRegistry, register, register_each, after_register, already_registered, available,
}
use mahi_ai.Tooling.Mcp.{McpError}
use mahi_ai.Tooling.Mcp.Protocol.{ToolInfo}
use mahi_ai.Tooling.Mcp.Config.{McpServerConfig}
use mahi_ai.Tooling.Mcp.Client.{McpClient}
use mahi_ai.Tooling.Mcp.Adapter.{
  adapter_descriptor, adapter, tool_ids, first_taken, attached, attach_free, attach_mcp_server,
  add_ids, add_server, add_servers, mount_mcp_servers_from_config,
}

-- A tool that asks for an approval and is only offered where a Mac runs the tools.
abbrev pub IsGuarded : Tool Json → Type 0
IsGuarded tool =
    (tool.descriptor.requires_approval ≡ true)
    × (available ComputeMode.on_device tool.descriptor ≡ false)
    × (available ComputeMode.hosted tool.descriptor ≡ false)

-- The tools that were there stay, and every other one is guarded.
abbrev pub Extends : ToolRegistry Json → ToolRegistry Json → Type 0
Extends before after =
    ((j : Text) (tool : Tool Json)
      → lookup j before.tools ≡ some tool
      → lookup j after.tools ≡ some tool)
    × ((j : Text) (tool : Tool Json)
        → lookup j after.tools ≡ some tool
        → (lookup j before.tools ≡ some tool) ⊎ IsGuarded tool)

Extends-refl : (registry : ToolRegistry Json) → Extends registry registry
Extends-refl registry = (λ j tool h. h, λ j tool h. inl h)

Extends-trans : (a b c : ToolRegistry Json) → Extends a b → Extends b c → Extends a c
Extends-trans a b c (keeps, adds) (keeps', adds') = (
  λ j tool h. keeps' j tool (keeps j tool h),
  λ j tool h. elim (adds' j tool h) [ inl before ↦ adds j tool before | inr guarded ↦ inr guarded ],
)

insert-Extends :
    (tool : Tool Json) (registry : ToolRegistry Json)
    → IsGuarded tool
    → lookup tool.descriptor.id registry.tools ≡ none
    → Extends registry
        (record registry { tools = insert_sorted tool.descriptor.id tool registry.tools })
insert-Extends tool registry guarded free =
    let id : Text = tool.descriptor.id in
    (
      λ j old h. elim (Bool-cases (text_beq id j)) [
        | inl here ↦
            let same = ap (λ k. lookup k registry.tools) ((text_beq_iff id j).0 here) in
            absurd (cc (same, free, h))
        | inr other ↦
            lookup-insert_sorted id j tool registry.tools
            ∙ ap (λ b. if b then some tool else lookup j registry.tools) other
            ∙ h
      ],
      λ j new h. elim (Bool-cases (text_beq id j)) [
        | inl here ↦
            let found = lookup-insert_sorted id j tool registry.tools in
            let same : tool ≡ new = cc (here, found, h) in inr (subst IsGuarded same guarded)
        | inr other ↦
            let found = lookup-insert_sorted id j tool registry.tools in
            inl (
              ap (λ b. if b then some tool else lookup j registry.tools) (sym other)
              ∙ sym found
              ∙ h)
      ],
    )

register-Extends :
    (tool : Tool Json) (registry : ToolRegistry Json)
    → IsGuarded tool
    → Extends registry (register tool registry).1
unfolding register
register-Extends tool registry guarded = go (lookup tool.descriptor.id registry.tools) refl
  where
    go :
        (o : Option (Tool Json))
        → lookup tool.descriptor.id registry.tools ≡ o
        → Extends registry
            (if◌then◌else◌ {A = Result ContractError (Unit {0}) × ToolRegistry Json}
              (elim o as (λ _. Bool) [ none ↦ false | some _ ↦ true ])
              (err (already_registered tool.descriptor.id), registry)
              (
                ok tt,
                record registry { tools = insert_sorted tool.descriptor.id tool registry.tools },
              )).1
    go none free = insert-Extends tool registry guarded free
    go (some old) taken = Extends-refl registry

register_each-Extends :
    (tools : List (Tool Json)) (registry : ToolRegistry Json)
    → All IsGuarded tools
    → Extends registry (register_each tools registry).1
unfolding register_each
register_each-Extends [] registry guarded = Extends-refl registry
register_each-Extends (tool ∷ tools) registry guarded =
    go (register tool registry) (register-Extends tool registry guarded.0)
      (λ next. register_each-Extends tools next guarded.1)
  where
    go :
        (r : Result ContractError (Unit {0}) × ToolRegistry Json)
        → Extends registry r.1
        → ((next : ToolRegistry Json) → Extends next (register_each tools next).1)
        → Extends registry (after_register (register_each tools) r).1
    go (ok _, next) first rest =
        Extends-trans registry next (register_each tools next).1 first (rest next)
    go (err e, next) first rest = first

module _ (answer : Text → Text → Json → Result McpError Text) (cancelled : Bool) where
  adapters-IsGuarded :
      (server : Text) (tools : List ToolInfo)
      → All IsGuarded (map (adapter answer cancelled server) tools)
  unfolding adapter_descriptor
  adapters-IsGuarded server [] = tt
  adapters-IsGuarded server (tool ∷ tools) = ((refl, refl, refl), adapters-IsGuarded server tools)

  attached-Extends :
      (ids : List Text) (before : ToolRegistry Json)
      (r : Result ContractError (Unit {0}) × ToolRegistry Json)
      → Extends before r.1
      → Extends before (attached answer cancelled ids r).1
  attached-Extends ids before (ok _, after) h = h
  attached-Extends ids before (err e, after) h = h

  attach_mcp_server-Extends :
      (client : McpClient) (registry : ToolRegistry Json)
      → Extends registry (attach_mcp_server answer cancelled client registry).1
  unfolding attach_mcp_server
  attach_mcp_server-Extends client registry =
      go (first_taken answer cancelled (tool_ids answer cancelled client) registry)
    where
      go : (o : Option Text) → Extends registry (attach_free answer cancelled client o registry).1
      go (some id) = Extends-refl registry
      go none =
          attached-Extends (tool_ids answer cancelled client) registry
            (register_each (map (adapter answer cancelled client.server_name) client.tools)
              registry)
            (register_each-Extends (map (adapter answer cancelled client.server_name) client.tools)
              registry (adapters-IsGuarded client.server_name client.tools))

  add_ids-Extends :
      (ids : List Text) (before : ToolRegistry Json)
      (r : Result ContractError (List Text) × ToolRegistry Json)
      → Extends before r.1
      → Extends before (add_ids answer cancelled ids r).1
  add_ids-Extends ids before (ok more, after) h = h
  add_ids-Extends ids before (err e, after) h = h

  add_server-Extends :
      (r : Result McpError McpClient) (ids : List Text) (registry : ToolRegistry Json)
      → Extends registry (add_server answer cancelled r (ids, registry)).1
  add_server-Extends (ok client) ids registry =
      add_ids-Extends ids registry (attach_mcp_server answer cancelled client registry)
        (attach_mcp_server-Extends client registry)
  add_server-Extends (err e) ids registry = Extends-refl registry

  add_servers-Extends :
      (connect : McpServerConfig → Result McpError McpClient) (servers : List McpServerConfig)
      (mounted : List Text × ToolRegistry Json)
      → Extends mounted.1 (add_servers answer cancelled connect servers mounted).1
  unfolding add_servers
  add_servers-Extends connect [] mounted = Extends-refl mounted.1
  add_servers-Extends connect (server ∷ servers) (ids, registry) =
      Extends-trans registry (add_server answer cancelled (connect server) (ids, registry)).1
        (add_servers answer cancelled connect servers
          (add_server answer cancelled (connect server) (ids, registry))).1
        (add_server-Extends (connect server) ids registry)
        (add_servers-Extends connect servers
          (add_server answer cancelled (connect server) (ids, registry)))

  -- Mounting the configured MCP servers, whichever of them connect, whatever tools they advertise and
  -- wherever one fails, replaces no tool and adds only tools that require an approval and are offered
  -- neither on the device nor in the hosted mode.
  pub mount_mcp_servers_from_config-Extends :
      (connect : McpServerConfig → Result McpError McpClient)
      (configs : Result McpError (List McpServerConfig)) (registry : ToolRegistry Json)
      → Extends registry (mount_mcp_servers_from_config answer cancelled connect configs registry).1
  unfolding mount_mcp_servers_from_config
  mount_mcp_servers_from_config-Extends connect (err e) registry = Extends-refl registry
  mount_mcp_servers_from_config-Extends connect (ok servers) registry =
      add_servers-Extends connect servers ([], registry)
