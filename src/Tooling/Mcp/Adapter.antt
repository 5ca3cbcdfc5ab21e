-- ===== src/Tooling/Mcp/Adapter.antt =====
-- crates/mahi-tooling/src/mcp/adapter.rs: `McpToolAdapter`, and the registration of a server's tools in
-- crates/mahi-tooling/src/registry.rs. The answer of the server to a call is the argument `answer`, and
-- `cancelled` says whether the token fires before it comes.
pub mod Guarded
use mahi_ai.Prelude.{
  Bool, true, false, Option, none, some, List, [], ◌∷◌, ◌++◌, map, Text, text, is_empty,
  if◌then◌else◌,
}
use mahi_ai.Prelude.Chars.{lines_from}
use mahi_ai.Contracts.Types.{ComputeMode}
use mahi_ai.Contracts.Errors.{ContractError}
use mahi_ai.Contracts.Result.{Result, ok, err}
use mahi_ai.Contracts.Stream.{Poll}
use mahi_ai.Contracts.Tooling.{ToolCategory, DestructiveLevel, ToolDescriptor, ToolEvent}
use mahi_ai.Json.{
  Json, null, boolean, natural, real, string, array, object, entry, json_object, word,
}
use mahi_ai.Tooling.Registry.{Tool, ToolRegistry, registered, register_each}
use mahi_ai.Tooling.Mcp.{McpError, error_text, retryable, mcp_tool_id}
use mahi_ai.Tooling.Mcp.Protocol.{ToolInfo}
use mahi_ai.Tooling.Mcp.Config.{McpServerConfig}
use mahi_ai.Tooling.Mcp.Client.{McpClient}

-- `MCP_MODES`
abbrev pub mcp_modes : List ComputeMode
mcp_modes = ComputeMode.mac_lan ∷ ComputeMode.mac_remote ∷ []

abbrev pub head_or : Text → List Text → Text
head_or d [] = d
head_or d (line ∷ lines) = line

abbrev pub shown_name : (server name : Text) → Option Text → Text
shown_name server name none = server ++ text ": " ++ name
shown_name server name (some description) =
    if is_empty description
    then server ++ text ": " ++ name
    else head_or name (lines_from [] description)

-- `McpToolAdapter::new`
unfoldable pub adapter_descriptor : Text → ToolInfo → ToolDescriptor Json
adapter_descriptor server tool = record {
  id = mcp_tool_id server tool.name;
  display_name = shown_name server tool.name tool.description;
  category = ToolCategory.connector;
  available_in_modes = mcp_modes;
  required_permissions = (text "mcp:" ++ server) ∷ [];
  input_schema = tool.input_schema;
  output_schema = json_object (
      entry "type" (word "object")
      ∷ entry "properties"
          (json_object (entry "content" (json_object (entry "type" (word "string") ∷ [])) ∷ []))
      ∷ []);
  requires_approval = true;
  destructive_level = DestructiveLevel.high;
}

-- No arguments are an empty object.
abbrev pub as_arguments : Json → Json
as_arguments null = json_object []
as_arguments args = args

abbrev pub answered : Result McpError Text → ToolEvent Json
answered (ok t) = ToolEvent.result (json_object (entry "content" (string t) ∷ [])) false
answered (err e) = ToolEvent.error (error_text e) (retryable e)

module _ (answer : Text → Text → Json → Result McpError Text) (cancelled : Bool) where
  -- `McpToolAdapter::run`
  abbrev pub run_adapter : (server name : Text) → Json → List (Poll (ToolEvent Json))
  run_adapter server name args =
      Poll.item (
        ok (
          if cancelled
          then ToolEvent.cancelled
          else answered (answer server name (as_arguments args))))
      ∷ []

  abbrev pub adapter : Text → ToolInfo → Tool Json
  adapter server tool = record {
    descriptor = adapter_descriptor server tool;
    run = run_adapter server tool.name;
  }

  abbrev pub tool_ids : McpClient → List Text
  tool_ids client = map (λ tool. mcp_tool_id client.server_name tool.name) client.tools

  abbrev pub first_taken : List Text → ToolRegistry Json → Option Text
  first_taken [] registry = none
  first_taken (id ∷ ids) registry =
      if registered id registry then some id else first_taken ids registry

  abbrev pub collision : (server id : Text) → ContractError
  collision server id = ContractError.other (
      text "MCP server `"
      ++ server
      ++ text "` contributes tool `"
      ++ id
      ++ text "` which is already registered")

  abbrev pub attached :
      List Text
      → Result ContractError (Unit {0}) × ToolRegistry Json
      → Result ContractError (List Text) × ToolRegistry Json
  attached ids (ok _, registry) = (ok ids, registry)
  attached ids (err e, registry) = (err e, registry)

  abbrev pub attach_free :
      McpClient
      → Option Text
      → ToolRegistry Json
      → Result ContractError (List Text) × ToolRegistry Json
  attach_free client (some id) registry = (err (collision client.server_name id), registry)
  attach_free client none registry =
      attached (tool_ids client)
        (register_each (map (adapter client.server_name) client.tools) registry)

  -- `ToolRegistry::attach_mcp_server`
  unfoldable pub attach_mcp_server :
      McpClient → ToolRegistry Json → Result ContractError (List Text) × ToolRegistry Json
  attach_mcp_server client registry =
      attach_free client (first_taken (tool_ids client) registry) registry

  -- The ids of a server whose tools were attached; one that failed is skipped.
  abbrev pub add_ids :
      List Text
      → Result ContractError (List Text) × ToolRegistry Json
      → List Text × ToolRegistry Json
  add_ids all_ids (ok ids, registry) = (all_ids ++ ids, registry)
  add_ids all_ids (err e, registry) = (all_ids, registry)

  abbrev pub add_server :
      Result McpError McpClient → List Text × ToolRegistry Json → List Text × ToolRegistry Json
  add_server (ok client) (all_ids, registry) = add_ids all_ids (attach_mcp_server client registry)
  add_server (err e) (all_ids, registry) = (all_ids, registry)

  unfoldable pub add_servers :
      (McpServerConfig → Result McpError McpClient)
      → List McpServerConfig
      → List Text × ToolRegistry Json
      → List Text × ToolRegistry Json
  add_servers connect [] mounted = mounted
  add_servers connect (server ∷ servers) mounted =
      add_servers connect servers (add_server (connect server) mounted)

  abbrev pub unreadable_config : McpError → ContractError
  unreadable_config e = ContractError.other (text "failed to read MCP config: " ++ error_text e)

  abbrev pub mount_configs :
      (McpServerConfig → Result McpError McpClient)
      → Result McpError (List McpServerConfig)
      → ToolRegistry Json
      → Result ContractError (List Text) × ToolRegistry Json
  mount_configs connect (err e) registry = (err (unreadable_config e), registry)
  mount_configs connect (ok servers) registry =
      let (all_ids, next) = add_servers connect servers ([], registry) in (ok all_ids, next)

  -- `ToolRegistry::mount_mcp_servers_from_config`; `connect` spawns a server and shakes hands.
  unfoldable pub mount_mcp_servers_from_config :
      (McpServerConfig → Result McpError McpClient)
      → Result McpError (List McpServerConfig)
      → ToolRegistry Json
      → Result ContractError (List Text) × ToolRegistry Json
  mount_mcp_servers_from_config connect configs registry = mount_configs connect configs registry
