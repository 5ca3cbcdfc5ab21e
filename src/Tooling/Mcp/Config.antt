-- ===== src/Tooling/Mcp/Config.antt =====
-- crates/mahi-tooling/src/mcp/config.rs: the configured servers. Reading the file and the reader that
-- `serde` derives are arguments; the latter gives the two maps in the order of their keys, as a
-- `BTreeMap` does.
use mahi_ai.Prelude.{List, [], map, ◌++◌, Text, text}
use mahi_ai.Contracts.Result.{Result, ok, err, ◌>>=◌, map_err}
use mahi_ai.Tooling.Mcp.{McpError}

pub record McpServerConfig : Type 0 where
  pub name : Text
  pub command : Text
  pub args : List Text
  pub env : List (Text × Text)

pub record ServerEntry : Type 0 where
  pub command : Text
  pub args : List Text
  pub env : List (Text × Text)

-- A failed read of a file: it is not there, or another error.
pub data ReadFailure : Type 0 where
  missing : ReadFailure
  failed : Text → ReadFailure

-- `McpServerConfig::new` and `with_args`
abbrev pub new_config : (name command : Text) → McpServerConfig
new_config name command = record { name = name; command = command; args = []; env = [] }

abbrev pub with_args : List Text → McpServerConfig → McpServerConfig
with_args args server = record server { args = args }

abbrev pub config_of : Text × ServerEntry → McpServerConfig
config_of (name, found) = record {
  name = name;
  command = found.command;
  args = found.args;
  env = found.env;
}

abbrev pub unparsable : Text → McpError
unparsable e = McpError.config (text "failed to parse mcp_servers.json: " ++ e)

abbrev pub parse_mcp_config :
    (Text → Result Text (List (Text × ServerEntry))) → Text → Result McpError (List McpServerConfig)
parse_mcp_config from_str contents =
    map_err unparsable (from_str contents) >>= λ servers. ok (map config_of servers)

-- `path` is the printed path.
unfoldable pub load_mcp_config :
    (Text → Result Text (List (Text × ServerEntry)))
    → (path : Text) → Result ReadFailure Text
    → Result McpError (List McpServerConfig)
load_mcp_config from_str path (ok contents) = parse_mcp_config from_str contents
load_mcp_config from_str path (err missing) = ok []
load_mcp_config from_str path (err (failed e)) =
    err (McpError.config (text "failed to read " ++ path ++ text ": " ++ e))
