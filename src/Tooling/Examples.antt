-- ===== src/Tooling/Examples.antt =====
-- A registry with one tool, onto which a connector with two tools is mounted.
use mahi_ai.Prelude.{
  map, ◌≡◌, ◌↔◌, ◌⊎◌, refl, true, false, some, List, [], ◌∷◌, find_first, Text, text, text_eq, ◌==◌,
}
use mahi_ai.Dict.{lookup}
use mahi_ai.Dict.Sorted.{insert_sorted}
use mahi_ai.Contracts.Types.{mac_lan, hosted}
use mahi_ai.Contracts.Errors.{ContractError}
use mahi_ai.Contracts.Result.{ok, err, is_ok}
use mahi_ai.Contracts.Stream.{Poll}
use mahi_ai.Contracts.Tooling.{
  ToolDescriptor, ToolEvent, ToolInvocation, ToolCategory, DestructiveLevel,
}
use mahi_ai.Tooling.Registry.{
  Tool, Connector, ToolRegistry, register, register_between, already_registered, mount_connector,
  push_connector, connector_tool, describe, invoke, empty,
}
use mahi_ai.Tooling.Catalog.{IsCatalog, invoke_iff-describe}
use mahi_ai.Tooling.Mounting.{DistinctIds, Mounts, mount_connector-Mounts}

abbrev U : Type 0
U = Unit {0}

abbrev described : Text → ToolDescriptor U
described id = record {
  id = id;
  display_name = id;
  category = ToolCategory.built_in;
  available_in_modes = mac_lan ∷ [];
  required_permissions = [];
  input_schema = tt;
  output_schema = tt;
  requires_approval = false;
  destructive_level = DestructiveLevel.low;
}

abbrev answers : List (Poll (ToolEvent U))
answers = Poll.item (ok (ToolEvent.result tt false)) ∷ []

abbrev file_read : Tool U
file_read = record { descriptor = described (text "file_read"); run = λ args. answers }

abbrev github : List (ToolDescriptor U) → Connector U
github tools = record {
  id = text "github";
  display_name = text "GitHub";
  tools = tools;
  invoke = λ id args. answers;
}

abbrev issues : List (ToolDescriptor U)
issues = described (text "github.list") ∷ described (text "github.close") ∷ []

abbrev one : ToolRegistry U
one = record { tools = (text "file_read", file_read) ∷ []; connectors = [] }

one-IsCatalog : IsCatalog one
one-IsCatalog = ((tt, tt), (refl, tt))

distinct : DistinctIds issues
distinct = (((λ e. absurd (cc e)), tt), (tt, tt))

-- A connector that contributes one id twice is mounted halfway.
halfway :
    mount_connector (λ n r. r) (github (described (text "a") ∷ described (text "a") ∷ [])) empty ≡ (
      err (already_registered (text "a")),
      record {
        tools =
            (
              text "a",
              connector_tool
                  (github (described (text "a") ∷ described (text "a") ∷ []))
                  (described (text "a")),
            )
            ∷ [];
        connectors = [];
      },
    )
unfolding mount_connector register_between register insert_sorted lookup
halfway = refl

-- Another thread registers one of the tools after the check: the other one stays behind.
squeezed :
    map
      (λ e. e.0)
      (mount_connector
        (λ n r. (register (record file_read { descriptor = described (text "github.close") }) r).1)
        (github issues)
        one).1.tools
    ≡ text "file_read" ∷ text "github.close" ∷ text "github.list" ∷ []
unfolding mount_connector register_between register insert_sorted lookup
squeezed = refl

abbrev call : ToolInvocation U
call = record {
  invocation_id = 1;
  tool_id = text "file_read";
  args = tt;
  session_id = 2;
  conversation_id = 2;
  message_id = 3;
  compute_mode = hosted;
  trace_id = 4;
  stream = true;
}

invoke_iff-describe_example : (is_ok (invoke call one) ≡ true) ↔ (
    (d : ToolDescriptor U) × (find_first (λ x. x.id == text "file_read") (describe hosted one)
      ≡ some d))
invoke_iff-describe_example = invoke_iff-describe call one one-IsCatalog

mount_connector-Mounts_example :
    ((after : ToolRegistry U) × (mount_connector (λ n r. r) (github issues) one
        ≡ (ok tt, push_connector (github issues) after))
      × Mounts (github issues) issues one after)
    ⊎ ((e : ContractError) × (mount_connector (λ n r. r) (github issues) one ≡ (err e, one)))
mount_connector-Mounts_example =
    mount_connector-Mounts (λ n r. r) (github issues) one (λ n r. refl) distinct
