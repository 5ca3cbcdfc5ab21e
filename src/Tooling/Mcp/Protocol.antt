-- ===== src/Tooling/Mcp/Protocol.antt =====
-- crates/mahi-tooling/src/mcp/protocol.rs: the messages of JSON-RPC and of MCP.
use mahi_ai.Prelude.{
  ℕ, Bool, Option, none, some, List, [], ◌∷◌, ◌++◌, map, Text, text, text_beq, if◌then◌else◌,
}
use mahi_ai.Prelude.Int.{ℤ}
use mahi_ai.Json.{Json, string, entry, json_object, word, index, as_str, unwrap_or}

pub record Request : Type 0 where
  pub jsonrpc : Text
  pub id : ℕ
  pub method : Text
  pub params : Option Json

pub record Notification : Type 0 where
  pub jsonrpc : Text
  pub method : Text
  pub params : Option Json

pub record RpcError : Type 0 where
  pub code : ℤ
  pub message : Text
  pub data_value : Option Json

pub record Response : Type 0 where
  pub id : ℕ
  pub result : Option Json
  pub error : Option RpcError

pub record ToolInfo : Type 0 where
  pub name : Text
  pub description : Option Text
  pub input_schema : Json

pub record ListToolsResult : Type 0 where
  pub tools : List ToolInfo

pub data ContentItem : Type 0 where
  text_item : Text → ContentItem
  other_item : (kind : Text) → ContentItem

pub record CallToolResult : Type 0 where
  pub content : List ContentItem
  pub is_error : Bool

abbrev pub jsonrpc_version : Text
jsonrpc_version = text "2.0"

-- `Request::new`
abbrev pub new_request : ℕ → Text → Option Json → Request
new_request id method params = record {
  jsonrpc = jsonrpc_version;
  id = id;
  method = method;
  params = params;
}

-- `Notification::new`
abbrev pub new_notification : Text → Option Json → Notification
new_notification method params = record {
  jsonrpc = jsonrpc_version;
  method = method;
  params = params;
}

-- `version` is the version of the package.
abbrev pub initialize_params : (version : Text) → Json
initialize_params version = json_object (
    entry "protocolVersion" (word "2024-11-05")
    ∷ entry "capabilities" (json_object [])
    ∷ entry "clientInfo"
        (json_object (entry "name" (word "mahi") ∷ entry "version" (string version) ∷ []))
    ∷ [])

-- The item of a kind and of the text it may have.
abbrev pub item_of : (kind : Text) → Option Text → ContentItem
item_of kind none = other_item kind
item_of kind (some t) = if text_beq kind (text "text") then text_item t else other_item kind

-- `ContentItem::deserialize`
unfoldable pub content_item : Json → ContentItem
content_item value =
    item_of (unwrap_or (text "unknown") (as_str (index value (text "type"))))
      (as_str (index value (text "text")))

abbrev pub rendered : ContentItem → Text
rendered (text_item t) = t
rendered (other_item kind) = text "[" ++ kind ++ text " content]"

-- `join("\n")`
abbrev pub join_lines : List Text → Text
join_lines [] = []
join_lines (t ∷ []) = t
join_lines (t ∷ u ∷ ts) = t ++ 0x0a ∷ join_lines (u ∷ ts)

unfoldable pub render_content : List ContentItem → Text
render_content content = join_lines (map rendered content)
