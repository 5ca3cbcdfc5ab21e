-- ===== src/Tooling/Mcp/Client.antt =====
-- crates/mahi-tooling/src/mcp/client.rs: `McpClient`. The lines of the server arrive as texts. The
-- one-shot channel of a request bears the request's id, `pending` maps an id to its channel, and
-- `delivered` lists the responses that were put into channels, the latest first.
pub mod Matching
use mahi_ai.Prelude.{
  ℕ, ◌+◌, ◌*◌, ◌%◌, ◌^◌, Bool, true, false, not, ◌&&◌, ◌||◌, Option, none, some, List, [], ◌∷◌,
  ◌++◌, Text, text, is_empty, nat_beq, nat_eq, if◌then◌else◌,
}
use mahi_ai.Prelude.Chars.{trim}
use mahi_ai.Dict.{Dict, lookup, insert, remove}
use mahi_ai.Contracts.Result.{Result, ok, err, ◌>>=◌, map_err}
use mahi_ai.Json.{
  Json, null, natural, string, object, entry, has_key, json_object, unwrap_or, index,
}
use mahi_ai.Tooling.Mcp.{McpError}
use mahi_ai.Tooling.Mcp.Protocol.{
  Request, Notification, Response, RpcError, ToolInfo, ListToolsResult, CallToolResult, new_request,
  new_notification, initialize_params, render_content,
}

-- The crate `serde_json`: the writers of the two kinds of messages, the reader of a value, and the
-- readers that are derived for the results.
pub record Wire : Type 0 where
  pub request_text : Request → Result Text Text
  pub notification_text : Notification → Result Text Text
  pub from_str : Text → Result Text Json
  pub response_from : Json → Result Text Response
  pub list_from : Json → Result Text ListToolsResult
  pub call_from : Json → Result Text CallToolResult
  pub version : Text

pub record McpClient : Type 0 where
  pub server_name : Text
  pub next_id : ℕ
  pub pending : Dict ℕ ℕ
  pub written : List Text
  pub delivered : List (ℕ × Response)
  pub tools : List ToolInfo

abbrev pub new_client : Text → McpClient
new_client name = record {
  server_name = name;
  next_id = 1;
  pending = [];
  written = [];
  delivered = [];
  tools = [];
}

abbrev pub default_request_timeout : ℕ
default_request_timeout = 30 * 1000

abbrev pub call_tool_timeout : ℕ
call_tool_timeout = 120 * 1000

unfoldable pub remove_pending : ℕ → McpClient → McpClient
remove_pending id client = record client { pending = remove id client.pending }

-- The server's output ended, or the client was shut down: the waiters are dropped.
abbrev pub clear_pending : McpClient → McpClient
clear_pending client = record client { pending = [] }

-- `send_line`; a fault is the error of writing the line.
abbrev pub send_line : Option Text → Text → McpClient → Result McpError (Unit {0}) × McpClient
send_line none payload client = (ok tt, record client { written = client.written ++ payload ∷ [] })
send_line (some e) payload client = (err (McpError.io e), client)

-- `AtomicU64::fetch_add(1)`
abbrev pub count_up : McpClient → McpClient
count_up client = record client { next_id = (client.next_id + 1) % 2 ^ 64 }

abbrev pub unencodable : Text → Text → McpError
unencodable method e = McpError.protocol (text "failed to encode `" ++ method ++ text "`: " ++ e)

-- The waiter goes where its request could not be written.
abbrev pub unless_sent : ℕ → Result McpError (Unit {0}) × McpClient → Result McpError ℕ × McpClient
unless_sent id (ok _, client) = (ok id, client)
unless_sent id (err e, client) = (err e, remove_pending id client)

abbrev pub register_and_send :
    Option Text → ℕ → Result McpError Text → McpClient → Result McpError ℕ × McpClient
register_and_send fault id (err e) client = (err e, client)
register_and_send fault id (ok payload) client =
    unless_sent id
      (send_line fault payload (record client { pending = insert id id client.pending }))

-- What a waiting request sees: its time is up, its sender is gone, or a response.
pub data Waited : Type 0 where
  elapsed dropped : Waited
  received : Response → Waited

-- What happens while a request waits: the lines that arrive, and whether the output then ends.
pub record Exchange : Type 0 where
  pub fault : Option Text
  pub lines : List Text
  pub ends : Bool

abbrev pub send_encoded :
    Option Text → Result McpError Text → McpClient → Result McpError (Unit {0}) × McpClient
send_encoded fault (err e) client = (err e, client)
send_encoded fault (ok payload) client = send_line fault payload client

abbrev pub is_u64 : Json → Bool
is_u64 (natural n) = true
is_u64 _ = false

-- A message with an id and a result or an error.
abbrev pub is_response : Json → Bool
is_response (object fs) =
    is_u64 (index (object fs) (text "id"))
    && (has_key (text "result") fs || has_key (text "error") fs)
is_response _ = false

-- `receives` says whether the waiter of a response is still there.
abbrev pub deliver : Bool → Response → Option ℕ → McpClient → McpClient
deliver receives response none client = client
deliver receives response (some tx) client =
    if receives
    then record client {
      pending = remove response.id client.pending;
      delivered = (tx, response) ∷ client.delivered;
    }
    else remove_pending response.id client

abbrev pub route_response : Bool → Result Text Response → McpClient → McpClient
route_response receives (err e) client = client
route_response receives (ok response) client =
    deliver receives response (lookup response.id client.pending) client

abbrev pub response_value : Response → Option RpcError → Result McpError Json
response_value response none = ok (unwrap_or null response.result)
response_value response (some e) = err (McpError.rpc e.code e.message)

-- The last part of `request`.
unfoldable pub finish_request : Text → ℕ → ℕ → Waited → McpClient → Result McpError Json × McpClient
finish_request method after_ms id elapsed client =
    (err (McpError.timeout method after_ms), remove_pending id client)
finish_request method after_ms id dropped client = (err McpError.closed, client)
finish_request method after_ms id (received response) client =
    (response_value response response.error, client)

-- The response in the channel of a request.
abbrev pub in_channel : ℕ → List (ℕ × Response) → Option Response
in_channel id [] = none
in_channel id ((tx, response) ∷ delivered) =
    if nat_beq tx id then some response else in_channel id delivered

abbrev pub waited : Bool → Option Response → Waited
waited ends (some response) = received response
waited true none = dropped
waited false none = elapsed

abbrev pub tool_outcome : Text → CallToolResult → Result McpError Text
tool_outcome name call =
    if call.is_error
    then err (McpError.tool_failed name (render_content call.content))
    else ok (render_content call.content)

abbrev pub call_error : Text → McpError
call_error e = McpError.protocol (text "invalid tools/call result: " ++ e)

abbrev pub call_params : Text → Json → Json
call_params name arguments =
    json_object (entry "name" (string name) ∷ entry "arguments" arguments ∷ [])

abbrev pub list_error : Text → McpError
list_error e = McpError.protocol (text "invalid tools/list result: " ++ e)

abbrev pub with_tools : Result McpError ListToolsResult → McpClient → Result McpError McpClient
with_tools (err e) client = err e
with_tools (ok list) client = ok (record client { tools = list.tools })

module _ (wire : Wire) where
  -- The first part of `request`: the id of the request that was sent.
  unfoldable pub begin_request :
      Option Text → Text → Option Json → McpClient → Result McpError ℕ × McpClient
  begin_request fault method params client =
      register_and_send fault client.next_id
        (map_err (unencodable method)
          (wire.request_text (new_request client.next_id method params)))
        (count_up client)

  unfoldable pub notify :
      Option Text → Text → Option Json → McpClient → Result McpError (Unit {0}) × McpClient
  notify fault method params client =
      send_encoded fault
        (map_err (unencodable method) (wire.notification_text (new_notification method params)))
        client

  abbrev pub route_value : Bool → Result Text Json → McpClient → McpClient
  route_value receives (err e) client = client
  route_value receives (ok value) client =
      if not (is_response value)
      then client
      else route_response receives (wire.response_from value) client

  unfoldable pub route_line : Bool → Text → McpClient → McpClient
  route_line receives line client =
      if is_empty (trim line)
      then client
      else route_value receives (wire.from_str (trim line)) client

  unfoldable pub route_lines : List Text → McpClient → McpClient
  route_lines [] client = client
  route_lines (line ∷ lines) client = route_lines lines (route_line true line client)

  abbrev pub meanwhile : Exchange → McpClient → McpClient
  meanwhile exchange client =
      if exchange.ends
      then clear_pending (route_lines exchange.lines client)
      else route_lines exchange.lines client

  abbrev pub await :
      Exchange → Text → ℕ → Result McpError ℕ × McpClient → Result McpError Json × McpClient
  await exchange method after_ms (err e, client) = (err e, client)
  await exchange method after_ms (ok id, client) =
      let next : McpClient = meanwhile exchange client in
      finish_request method after_ms id (waited exchange.ends (in_channel id next.delivered)) next

  -- `request`, when no other request is made meanwhile.
  unfoldable pub request :
      Exchange → Text → Option Json → ℕ → McpClient → Result McpError Json × McpClient
  request exchange method params after_ms client =
      await exchange method after_ms (begin_request exchange.fault method params client)

  -- What `call_tool` makes of the result of its request.
  abbrev pub call_result :
      Text → Result McpError Json × McpClient → Result McpError Text × McpClient
  call_result name (result, client) = (
    result >>= λ value.
        map_err call_error (wire.call_from value) >>= λ call. tool_outcome name call,
    client,
  )

  unfoldable pub call_tool : Exchange → Text → Json → McpClient → Result McpError Text × McpClient
  call_tool exchange name arguments client = call_result name (
      request exchange (text "tools/call") (some (call_params name arguments)) call_tool_timeout
        client)

  abbrev pub listed : Result McpError Json × McpClient → Result McpError McpClient
  listed (result, client) =
      with_tools (result >>= λ value. map_err list_error (wire.list_from value)) client

  abbrev pub then_list :
      Exchange → Result McpError (Unit {0}) × McpClient → Result McpError McpClient
  then_list exchange (err e, client) = err e
  then_list exchange (ok _, client) =
      listed (request exchange (text "tools/list") none default_request_timeout client)

  abbrev pub then_notify :
      Option Text → Exchange → Result McpError Json × McpClient → Result McpError McpClient
  then_notify fault exchange (err e, client) = err e
  then_notify fault exchange (ok value, client) =
      then_list exchange (notify fault (text "notifications/initialized") none client)

  -- The handshake of `connect` with a server that was spawned: the two exchanges, and the fault of
  -- the notification between them.
  unfoldable pub handshake :
      (first : Exchange) → Option Text → (second : Exchange) → Text → Result McpError McpClient
  handshake first fault second name = then_notify fault second (
      request first (text "initialize") (some (initialize_params wire.version))
        default_request_timeout (new_client name))
