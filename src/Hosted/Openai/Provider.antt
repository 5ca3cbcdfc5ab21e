-- ===== src/Hosted/Openai/Provider.antt =====
-- crates/mahi-compute/src/hosted/openai.rs: `OpenAiCompatProvider`. The HTTP client is a parameter.
use mahi_ai.Prelude.{ℕ, true, false, not, none, [], ◌∷◌, ◌++◌, Text, text, if◌then◌else◌}
use mahi_ai.Contracts.Types.{ComputeMode, hosted, ModelDescriptor, ModelSource}
use mahi_ai.Contracts.Capabilities.{missing_from, satisfied_by}
use mahi_ai.Contracts.Errors.{ContractError}
use mahi_ai.Contracts.Inference.{
  InferenceRequest, InferenceStream, InferenceProvider, CanHandleResult, capable_result,
}
use mahi_ai.Contracts.Result.{Result, ok, err}
use mahi_ai.Hosted.{TransportFailure, transport_error, http_error}
use mahi_ai.Json.{Json, SerdeJson}
use mahi_ai.Hosted.Sse.{Post, Response, chunks_from_events}
use mahi_ai.Hosted.Openai.{openai_parser, new_parser}
use mahi_ai.Hosted.Openai.Request.{chat_completions_url, request_body}
use mahi_ai.Hosted.Anthropic.Provider.{is_success}

pub record OpenAiCompatProvider : Type 0 where
  pub base_url : Text
  pub api_key : Text
  pub model : Text
  pub mode : ComputeMode

-- `OpenAiCompatProvider::new`
abbrev pub new_provider : (base_url api_key model : Text) → OpenAiCompatProvider
new_provider base_url api_key model = record {
  base_url = base_url;
  api_key = api_key;
  model = model;
  mode = hosted;
}

abbrev pub with_mode : ComputeMode → OpenAiCompatProvider → OpenAiCompatProvider
with_mode mode p = record (p) { mode = mode }

-- The bits of 80.0 as an `f32`.
abbrev pub tok_per_sec_bits : ℕ
tok_per_sec_bits = 0x42a00000

unfoldable pub descriptor : OpenAiCompatProvider → ModelDescriptor
descriptor p = record {
  id = p.model;
  display_name = text "Hosted (OpenAI-compat): " ++ p.model;
  context_window = 128000;
  capabilities = record {
    vision = true;
    tool_calling = true;
    min_context_window = 128000;
    code_gen = true;
    thinking = true;
  };
  limitations = [];
  size_bytes = none;
  quantization = none;
  source = ModelSource.hosted (text "openai-compat");
  perf_profile = record { ttft_ms = 600; tok_per_sec = tok_per_sec_bits };
}

unfoldable pub can_handle : OpenAiCompatProvider → InferenceRequest Json → CanHandleResult
unfolding descriptor
can_handle p req =
    let offered = (descriptor p).capabilities in
    if satisfied_by req.required_caps offered then capable_result else (record {
      capable = false;
      missing_caps = missing_from req.required_caps offered;
      escalation_hint = none;
    })

module _ (serde : SerdeJson) (client : Post → Result TransportFailure Response) where
  -- What becomes of a response.
  unfoldable pub read_response : ComputeMode → Response → Result ContractError InferenceStream
  read_response mode response =
      if not (is_success response.status)
      then err (http_error (text "openai-compat") response.status response.shown response.detail)
      else ok (
          chunks_from_events (openai_parser serde) response.events (new_parser mode)
            response.is_cancelled)

  unfoldable pub generate :
      OpenAiCompatProvider → InferenceRequest Json → Result ContractError InferenceStream
  generate p req =
      let posted : Post = record {
        url = chat_completions_url p.base_url;
        headers = (text "authorization", text "Bearer " ++ p.api_key) ∷ [];
        body = request_body serde p.model req;
      } in
      elim (client posted) [
        | err failure ↦ err (transport_error failure)
        | ok response ↦ read_response p.mode response
      ]

  -- The provider as the router sees it.
  abbrev pub openai_provider : OpenAiCompatProvider → InferenceProvider Json
  openai_provider p = record {
    descriptor = descriptor p;
    can_handle = can_handle p;
    generate = generate p;
  }
