-- ===== src/Engine/Examples.antt =====
-- A turn in which the model streams some text and calls a tool that needs an approval, which the
-- user gives, and then answers.
use mahi_ai.Prelude.{
  Bool, ℕ, zero, suc, ◌+◌, ◌≤◌, ◌≡◌, ◌≢◌, refl, true, false, none, some, List, [], ◌∷◌, Text, text,
}
use mahi_ai.Prelude.Int.{pos}
use mahi_ai.Contracts.Types.{mac_lan, hosted, ModelDescriptor, ModelSource}
use mahi_ai.Contracts.Capabilities.{empty}
use mahi_ai.Contracts.Result.{ok}
use mahi_ai.Contracts.Data.{Conversation}
use mahi_ai.Contracts.Tooling.{ToolDescriptor, ToolEvent, ToolCategory, DestructiveLevel}
use mahi_ai.Contracts.Inference.{FinishReason, InferenceChunk, text_chunk, finish_chunk}
use mahi_ai.Engine.Env.{
  AgentEvent, Poll, Decision, Effect, World, Serde, Env, Turn, Runner, emitted,
}
use mahi_ai.Engine.Stream.{PendingToolCall, RoundOutcome, new_round, consume_inference}
use mahi_ai.Engine.Stream.Deltas.{ShowsSegment, consume_inference-ShowsSegment}
use mahi_ai.Engine.Stream.Calls.{Distinct, args_of, args_sent, deltas, consume_inference-tool_calls}
use mahi_ai.Engine.Tool.{execute_tool_call}
use mahi_ai.Engine.Tool.Gate.{GatedWith, IsGated, execute_tool_call-GatedWith}
use mahi_ai.Engine.Tool.Account.{Settles, invocations}
use mahi_ai.Engine.Tool.Settling.{execute_tool_call-Settles}
use mahi_ai.Engine.Turn.{run, max_tool_steps}
use mahi_ai.Engine.Turn.Safety.{requests, lifecycle, run-IsGated, requests-run, run-lifecycle}
use mahi_ai.Contracts.Types.{Uuid}
use mahi_ai.Engine.Approval.{ApprovalRegistry, no_approvals, register, resolve}
use mahi_ai.Engine.Approval.Once.{Op, times, apply_all, times-apply_all}
use mahi_ai.Engine.Texts.{decode_hex, decode_pairs}
use mahi_ai.Prelude.Chars.{to_digit_16}

abbrev U : Type 0
U = Unit {0}

abbrev serde : Serde U
serde = record {
  from_str = λ t. some tt;
  is_object = λ v. true;
  empty_object = tt;
  null = tt;
  error_object = λ t. tt;
  denied_object = tt;
  image_hex = λ v. none;
  strip_image = λ v. v;
  audit_metadata = λ id args trace ref. tt;
  content_len = λ blocks. 1;
  base64 = λ bytes. [];
}

abbrev model : ModelDescriptor
model = record {
  id = text "m";
  display_name = text "M";
  context_window = 8192;
  capabilities = empty;
  limitations = [];
  size_bytes = none;
  quantization = none;
  source = ModelSource.mac_local;
  perf_profile = record { ttft_ms = 0; tok_per_sec = 0 };
}

abbrev shell : ToolDescriptor U
shell = record {
  id = text "shell_exec";
  display_name = text "Shell";
  category = ToolCategory.built_in;
  available_in_modes = mac_lan ∷ [];
  required_permissions = [];
  input_schema = tt;
  output_schema = tt;
  requires_approval = true;
  destructive_level = DestructiveLevel.high;
}

abbrev call_delta : Text → Text → InferenceChunk
call_delta id args = record {
  delta = none;
  tool_call_delta = some (record { call_id = id; tool_id = text "shell_exec"; args_delta = args });
  thinking_delta = none;
  finish_reason = none;
  active_mode = hosted;
  latency_hint_ms = none;
}

abbrev asking : List (Poll InferenceChunk)
asking =
    Poll.item (ok (text_chunk (text "on it") mac_lan))
    ∷ Poll.item (ok (call_delta (text "a") (text "{")))
    ∷ Poll.item (ok (call_delta (text "b") (text "{}")))
    ∷ Poll.item (ok (call_delta (text "a") (text "}")))
    ∷ Poll.item (ok (finish_chunk FinishReason.tool_call hosted))
    ∷ []

abbrev answering : ℕ → List (Poll InferenceChunk)
answering zero = asking
answering (suc n) = Poll.item (ok (finish_chunk FinishReason.stop hosted)) ∷ []

abbrev env : Env U
env = record {
  serde = serde;
  device_id = 1;
  context_budget_chars = 16_000;
  default_system_prompt = text "You are Mahi";
  to_string = λ e. [];
  new_id = λ w. 7;
  synthetic_id = λ w n. n;
  now = λ w. 0;
  is_cancelled = λ w. false;
  model = λ w. model;
  describe = λ w mode. shell ∷ [];
  semantic_search = λ w query space limit. ok [];
  range = λ w id limit. ok [];
  next_sequence = λ w id. ok (pos 0);
  append_message = λ w m. none;
  append_audit = λ w e. none;
  generate = λ w r. ok (answering (invocations w));
  decide = λ w id. Decision.resolved true;
  invoke = λ w r. ok (Poll.item (ok (ToolEvent.result tt false)) ∷ []);
}

abbrev conversation : Conversation
conversation = record {
  id = 1;
  space_id = none;
  title = none;
  created_at = 0;
  updated_at = 0;
  mode_at_creation = mac_lan;
  system_prompt = none;
  persona_id = none;
  active_checkpoint_id = none;
}

abbrev turn : Turn
turn = record {
  conversation = conversation;
  user_text = text "list the files";
  user_message_id = 2;
  trace_id = 3;
}

abbrev fresh : Runner U
fresh = record { world = []; mode = mac_lan }

abbrev call_a : PendingToolCall
call_a = record { call_id = text "a"; tool_id = text "shell_exec"; args_raw = text "{}" }

abbrev call_b : PendingToolCall
call_b = record { call_id = text "b"; tool_id = text "shell_exec"; args_raw = text "{}" }

abbrev listed : Runner U
listed = record { world = Effect.described (shell ∷ []) ∷ []; mode = mac_lan }

asking_ends :
    (consume_inference asking new_round fresh).0
    ≡ ok (RoundOutcome.tool_calls (call_a ∷ call_b ∷ []) none, text "on it")
unfolding consume_inference
asking_ends = refl

consume_inference-ShowsSegment_example :
    ShowsSegment [] [] (consume_inference asking new_round fresh)
consume_inference-ShowsSegment_example = consume_inference-ShowsSegment asking new_round fresh

consume_inference-tool_calls_example :
    (call_a ∷ call_b ∷ [] ≢ [])
    × Distinct (call_a ∷ call_b ∷ [])
    × ((id : Text) → args_of id (call_a ∷ call_b ∷ []) ≡ args_sent id (deltas asking))
consume_inference-tool_calls_example = consume_inference-tool_calls asking fresh asking_ends

execute_tool_call-GatedWith_example :
    GatedWith env.serde
      (shell ∷ [])
      (execute_tool_call env turn 5 (shell ∷ []) call_a listed).1.world
execute_tool_call-GatedWith_example =
    execute_tool_call-GatedWith env turn (shell ∷ []) 5 call_a listed (tt, refl)

execute_tool_call-Settles_example :
    Settles call_a fresh.world (execute_tool_call env turn 5 (shell ∷ []) call_a fresh)
execute_tool_call-Settles_example = execute_tool_call-Settles env turn 5 (shell ∷ []) call_a fresh

run-IsGated_example : IsGated env.serde (run env turn fresh).world
run-IsGated_example = run-IsGated env turn fresh tt

requests-run_example : requests (run env turn fresh).world ≤ 0 + max_tool_steps
requests-run_example = requests-run env turn fresh

run-lifecycle_example :
    (reason : FinishReason) × (before : World U) × ((run env turn fresh).world
      ≡ emitted (AgentEvent.turn_finished reason) ∷ before)
    × (lifecycle before ≡ AgentEvent.turn_started 1 2 mac_lan ∷ [])
run-lifecycle_example = run-lifecycle env turn fresh

abbrev shown_id : Uuid → Text
shown_id id = id ∷ []

abbrev always : ℕ → Bool
always c = true

times-apply_all_example :
    times 0
      (apply_all shown_id always
        (Op.registering 4 ∷ Op.registering 4 ∷ Op.resolving 4 true ∷ Op.resolving 4 false ∷ [])
        no_approvals).sent
    ≤ 1
times-apply_all_example =
    times-apply_all shown_id always
      (Op.registering 4 ∷ Op.registering 4 ∷ Op.resolving 4 true ∷ Op.resolving 4 false ∷ []) 0

abbrev answered : ApprovalRegistry
answered = (resolve shown_id always 4 true (register 4 no_approvals).1).1

abbrev two_bytes : List ℕ
two_bytes = 0x0f ∷ 0xa0 ∷ []

hex_decodes : decode_hex (text "0fA0") ≡ some two_bytes
unfolding decode_hex decode_pairs to_digit_16
hex_decodes = refl
