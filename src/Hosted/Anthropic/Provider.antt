-- ===== src/Hosted/Anthropic/Provider.antt =====
-- crates/mahi-compute/src/hosted/anthropic.rs: `AnthropicProvider`. The HTTP client is a parameter.
use mahi_ai.Prelude.{
  ℕ, Bool, true, false, not, ◌&&◌, none, [], ◌∷◌, ◌++◌, Text, text, leb, ltb, if◌then◌else◌,
}
use mahi_ai.Contracts.Types.{hosted, ModelDescriptor, ModelSource}
use mahi_ai.Contracts.Capabilities.{missing_from, satisfied_by}
use mahi_ai.Contracts.Errors.{ContractError}
use mahi_ai.Contracts.Inference.{
  InferenceRequest, InferenceStream, InferenceProvider, CanHandleResult, capable_result,
}
use mahi_ai.Contracts.Result.{Result, ok, err}
use mahi_ai.Hosted.{TransportFailure, transport_error, http_error}
use mahi_ai.Json.{Json, SerdeJson}
use mahi_ai.Hosted.Sse.{Post, Response, chunks_from_events}
use mahi_ai.Hosted.Anthropic.{anthropic_parser, new_parser}
use mahi_ai.Hosted.Anthropic.Request.{request_body}

pub record AnthropicProvider : Type 0 where
  pub api_key : Text
  pub model : Text

abbrev pub anthropic_messages_url : Text
anthropic_messages_url = text "https://api.anthropic.com/v1/messages"

abbrev pub anthropic_version : Text
anthropic_version = text "2023-06-01"

abbrev pub default_model : Text
default_model = text "claude-fable-5"

-- `AnthropicProvider::new` and `with_model`
abbrev pub with_model : (api_key model : Text) → AnthropicProvider
with_model api_key model = record { api_key = api_key; model = model }

abbrev pub new_provider : (api_key : Text) → AnthropicProvider
new_provider api_key = with_model api_key default_model

-- The bits of 70.0 as an `f32`.
abbrev pub tok_per_sec_bits : ℕ
tok_per_sec_bits = 0x428c0000

unfoldable pub descriptor : AnthropicProvider → ModelDescriptor
descriptor p = record {
  id = p.model;
  display_name = text "Hosted (Anthropic): " ++ p.model;
  context_window = 200000;
  capabilities = record {
    vision = true;
    tool_calling = true;
    min_context_window = 200000;
    code_gen = true;
    thinking = true;
  };
  limitations = [];
  size_bytes = none;
  quantization = none;
  source = ModelSource.hosted (text "anthropic");
  perf_profile = record { ttft_ms = 700; tok_per_sec = tok_per_sec_bits };
}

unfoldable pub can_handle : AnthropicProvider → InferenceRequest Json → CanHandleResult
unfolding descriptor
can_handle p req =
    let offered = (descriptor p).capabilities in
    if satisfied_by req.required_caps offered then capable_result else (record {
      capable = false;
      missing_caps = missing_from req.required_caps offered;
      escalation_hint = none;
    })

-- `status.is_success()`
abbrev pub is_success : ℕ → Bool
is_success status = leb 200 status && ltb status 300

module _ (serde : SerdeJson) (client : Post → Result TransportFailure Response) where
  -- What becomes of a response.
  unfoldable pub read_response : Response → Result ContractError InferenceStream
  read_response response =
      if not (is_success response.status)
      then err (http_error (text "anthropic") response.status response.shown response.detail)
      else ok (
          chunks_from_events (anthropic_parser serde) response.events (new_parser hosted)
            response.is_cancelled)

  unfoldable pub generate :
      AnthropicProvider → InferenceRequest Json → Result ContractError InferenceStream
  generate p req =
      let posted : Post = record {
        url = anthropic_messages_url;
        headers =
            (text "x-api-key", p.api_key) ∷ (text "anthropic-version", anthropic_version) ∷ [];
        body = request_body serde p.model req;
      } in
      elim (client posted) [
        | err failure ↦ err (transport_error failure)
        | ok response ↦ read_response response
      ]

  -- The provider as the router sees it.
  abbrev pub anthropic_provider : AnthropicProvider → InferenceProvider Json
  anthropic_provider p = record {
    descriptor = descriptor p;
    can_handle = can_handle p;
    generate = generate p;
  }
