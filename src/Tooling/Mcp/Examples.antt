-- ===== src/Tooling/Mcp/Examples.antt =====
-- An MCP server that answers two requests in the other order, and the tools that it contributes.
use mahi_ai.Prelude.{
  ℕ, ◌-◌, ◌≤◌, ◌≡◌, refl, true, false, none, some, List, [], ◌∷◌, All, Text, text, text_beq,
  text_eq, nat_eq, if◌then◌else◌, arith,
}
use mahi_ai.Prelude.Chars.{trim, trim_start, is_whitespace, decimal, lines_from}
use mahi_ai.Dict.{lookup, insert, remove}
use mahi_ai.Dict.Sorted.{insert_sorted}
use mahi_ai.Contracts.Result.{Result, ok, err}
use mahi_ai.Json.{Json, natural, string, entry, json_object, word, index, as_u64, unwrap_or}
use mahi_ai.Tooling.Registry.{empty, register, register_each}
use mahi_ai.Tooling.Mcp.{McpError, mcp_tool_id}
use mahi_ai.Tooling.Mcp.Protocol.{Response, content_item, render_content}
use mahi_ai.Tooling.Mcp.Config.{McpServerConfig, new_config, load_mcp_config, missing}
use mahi_ai.Tooling.Mcp.Client.{
  Wire, McpClient, Exchange, new_client, begin_request, request, route_line, route_lines,
  finish_request,
}
use mahi_ai.Tooling.Mcp.Client.Matching.{Op, times, apply_each, apply_each-matched}
use mahi_ai.Tooling.Mcp.Adapter.{
  shown_name, adapter_descriptor, attach_mcp_server, add_servers, mount_mcp_servers_from_config,
}
use mahi_ai.Tooling.Mcp.Adapter.Guarded.{Extends, mount_mcp_servers_from_config-Extends}

abbrev response_of : Json → Response
response_of value = record {
  id = unwrap_or 0 (as_u64 (index value (text "id")));
  result = some (index value (text "result"));
  error = none;
}

-- A line is the digit of an id and a text.
abbrev parsed : Text → Result Text Json
parsed [] = err (text "empty")
parsed (c ∷ cs) = ok (json_object (entry "id" (natural (c - 48)) ∷ entry "result" (string cs) ∷ []))

abbrev wire : Wire
wire = record {
  request_text = λ r. ok (decimal r.id);
  notification_text = λ n. ok n.method;
  from_str = parsed;
  response_from = λ value. ok (response_of value);
  list_from = λ value. ok (record { tools = [] });
  call_from = λ value. ok (record { content = content_item value ∷ []; is_error = false });
  version = text "1";
}

abbrev crossed : List Op
crossed =
    Op.sending none (text "a") none
    ∷ Op.sending none (text "b") none
    ∷ Op.routing true (text " 2late ")
    ∷ Op.routing true (text "2again")
    ∷ Op.routing true (text "1soon")
    ∷ Op.ending
    ∷ []

abbrev answer_of : ℕ → Text → Response
answer_of n t = record { id = n; result = some (string t); error = none }

crossed-delivered :
    (apply_each wire crossed (new_client (text "s"))).delivered
    ≡ (1, answer_of 1 (text "soon")) ∷ (2, answer_of 2 (text "late")) ∷ []
unfolding begin_request route_line trim trim_start is_whitespace lookup insert remove
crossed-delivered = refl

abbrev quiet : Exchange
quiet = record { fault = none; lines = text "7other" ∷ []; ends = false }

-- A response with another id does not end the wait.
timed_out :
    (request wire quiet (text "a") none 30 (new_client (text "s"))).0
    ≡ err (McpError.timeout (text "a") 30)
unfolding request begin_request route_lines route_line trim trim_start is_whitespace lookup insert
    remove finish_request
timed_out = refl

abbrev chatty : Exchange
chatty = record { fault = none; lines = text "7other" ∷ text "1hello" ∷ []; ends = true }

answered_before_end :
    (request wire chatty (text "a") none 30 (new_client (text "s"))).0 ≡ ok (string (text "hello"))
unfolding request begin_request route_lines route_line trim trim_start is_whitespace lookup insert
    remove finish_request
answered_before_end = refl

rendered_mixed :
    render_content (
      content_item (json_object (entry "type" (word "text") ∷ entry "text" (word "hello") ∷ []))
      ∷ content_item (json_object (entry "type" (word "image") ∷ []))
      ∷ content_item (json_object [])
      ∷ [])
    ≡ text "hello\n[image content]\n[unknown content]"
unfolding render_content content_item
rendered_mixed = refl

-- Two tools of two servers may have one id.
one_id_twice : mcp_tool_id (text "a__b") (text "c") ≡ mcp_tool_id (text "a") (text "b__c")
one_id_twice = refl

named_by_description : shown_name (text "s") (text "t") (some (text "First\nSecond")) ≡ text "First"
unfolding lines_from
named_by_description = refl

missing_config : load_mcp_config (λ t. err t) (text "x") (err missing) ≡ ok []
unfolding load_mcp_config
missing_config = refl

abbrev offering : McpClient
offering = record (new_client (text "s")) {
  tools = record { name = text "t"; description = none; input_schema = json_object [] } ∷ [];
}

abbrev answer : Text → Text → Json → Result McpError Text
answer server name args = ok name

abbrev connect : McpServerConfig → Result McpError McpClient
connect server = if text_beq server.name (text "s") then ok offering else err McpError.closed

abbrev configured : List McpServerConfig
configured = new_config (text "down") (text "x") ∷ new_config (text "s") (text "y") ∷ []

mounted_one :
    (mount_mcp_servers_from_config answer false connect (ok configured) empty).0
    ≡ ok (text "mcp__s__t" ∷ [])
unfolding mount_mcp_servers_from_config add_servers attach_mcp_server register_each register lookup
    insert_sorted adapter_descriptor
mounted_one = refl

apply_each-matched_example :
    ((c : ℕ) → times c (apply_each wire crossed (new_client (text "s"))).delivered ≤ 1)
    × All (λ d. d.1.id ≡ d.0) (apply_each wire crossed (new_client (text "s"))).delivered
    × ((k c : ℕ)
        → lookup k (apply_each wire crossed (new_client (text "s"))).pending ≡ some c
        → times k (apply_each wire crossed (new_client (text "s"))).delivered ≡ 0)
apply_each-matched_example = apply_each-matched wire crossed (text "s") (omega arith)

mount_mcp_servers_from_config-Extends_example :
    Extends empty (mount_mcp_servers_from_config answer false connect (ok configured) empty).1
mount_mcp_servers_from_config-Extends_example =
    mount_mcp_servers_from_config-Extends answer false connect (ok configured) empty
