-- ===== src/Tooling/Mcp.antt =====
-- crates/mahi-tooling/src/mcp/mod.rs: the errors of the MCP client and the ids of its tools.
pub mod Protocol
pub mod Config
pub mod Client
pub mod Adapter
mod Examples
use mahi_ai.Prelude.{ℕ, suc, Bool, true, false, ◌++◌, Text, text}
use mahi_ai.Prelude.Chars.{decimal}
use mahi_ai.Prelude.Int.{ℤ, pos, negsuc}

-- An I/O error is its text.
pub data McpError : Type 0 where
  spawn : (command source : Text) → McpError
  io : Text → McpError
  protocol : Text → McpError
  rpc : (code : ℤ) → (message : Text) → McpError
  timeout : (method : Text) → (after_ms : ℕ) → McpError
  closed : McpError
  tool_failed : (name message : Text) → McpError
  config : Text → McpError

abbrev decimal_int : ℤ → Text
decimal_int (pos n) = decimal n
decimal_int (negsuc n) = text "-" ++ decimal (suc n)

-- `McpError`'s `Display`
unfoldable pub error_text : McpError → Text
error_text (spawn command source) =
    text "failed to spawn MCP server command `" ++ command ++ text "`: " ++ source
error_text (io e) = text "MCP transport I/O error: " ++ e
error_text (protocol e) = text "MCP protocol error: " ++ e
error_text (rpc code message) =
    text "MCP server returned JSON-RPC error " ++ decimal_int code ++ text ": " ++ message
error_text (timeout method after_ms) =
    text "MCP request `" ++ method ++ text "` timed out after " ++ decimal after_ms ++ text " ms"
error_text closed = text "MCP connection closed by server"
error_text (tool_failed name message) =
    text "MCP tool `" ++ name ++ text "` reported an error: " ++ message
error_text (config e) = text "invalid MCP config: " ++ e

abbrev pub retryable : McpError → Bool
retryable (io e) = true
retryable (timeout method after_ms) = true
retryable closed = true
retryable _ = false

abbrev pub mcp_tool_id : (server tool : Text) → Text
mcp_tool_id server tool = text "mcp__" ++ server ++ text "__" ++ tool
