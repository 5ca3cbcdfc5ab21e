-- ===== src/Router/Examples.antt =====
-- A router with a Mac on the LAN that cannot see images, and a hosted model that can.
use mahi_ai.Prelude.{◌≡◌, ◌↔◌, refl, Bool, true, false, none, some, [], ◌∷◌, All, length, text}
use mahi_ai.Dict.{lookup}
use mahi_ai.Contracts.Types.{
  ComputeMode, mode_eq, on_device, mac_lan, hosted, CapabilitySet, ModelDescriptor, ModelSource,
}
use mahi_ai.Contracts.Capabilities.{empty, missing_from, satisfied_by}
use mahi_ai.Contracts.Errors.{InferenceError}
use mahi_ai.Contracts.Result.{ok, is_ok}
use mahi_ai.Contracts.Inference.{
  InferenceRequest, InferenceProvider, InferenceStream, text_chunk, finish_chunk, FinishReason,
}
use mahi_ai.Router.{
  active_provider, InferenceRouter, with_pin, select, refuse, generate, can_handle,
}
use mahi_ai.Router.Selection.{usable, select_sound, select-pin_violation, can_handle_iff-select}
use mahi_ai.Router.Streaming.{Carries, generate-Carries}

abbrev needs : Bool → CapabilitySet
needs sees = record empty { vision = sees }

abbrev model : Bool → ModelDescriptor
model sees = record {
  id = text "m";
  display_name = text "M";
  context_window = 8192;
  capabilities = needs sees;
  limitations = [];
  size_bytes = none;
  quantization = none;
  source = ModelSource.mac_local;
  perf_profile = record { ttft_ms = 0; tok_per_sec = 0 };
}

abbrev answer : InferenceStream
answer = ok (text_chunk (text "hi") on_device) ∷ ok (finish_chunk FinishReason.stop on_device) ∷ []

abbrev provider : Bool → InferenceProvider (Unit {0})
provider sees = record {
  descriptor = model sees;
  can_handle = λ req. record {
    capable = satisfied_by req.required_caps (needs sees);
    missing_caps = missing_from req.required_caps (needs sees);
    escalation_hint = none;
  };
  generate = λ req. ok answer;
}

abbrev two : InferenceRouter (Unit {0})
two = record {
  providers = (mac_lan, provider false) ∷ (hosted, provider true) ∷ [];
  pin = none;
  last_active = none;
}

abbrev ask : Bool → InferenceRequest (Unit {0})
ask sees = record {
  request_id = 1;
  messages = [];
  tools = none;
  max_tokens = none;
  temperature = none;
  streaming_hint = true;
  required_caps = needs sees;
  thinking = none;
}

abbrev pinned : InferenceRouter (Unit {0})
pinned = with_pin (some mac_lan) two

two-sees : select two (ask true) ≡ ok (hosted, provider true)
unfolding select satisfied_by lookup
two-sees = refl

two-blind : select two (ask false) ≡ ok (mac_lan, provider false)
unfolding select satisfied_by lookup
two-blind = refl

select_sound_example :
    (lookup hosted two.providers ≡ some (provider true))
    × (((provider true).can_handle (ask true)).capable ≡ true)
    × ((q : ComputeMode) → two.pin ≡ some q → hosted ≡ q)
select_sound_example = select_sound two (ask true) two-sees

select-pin_violation_example :
    ((usable pinned (ask true) mac_lan ≡ true) ↔ (
      (p : InferenceProvider (Unit {0})) × (lookup mac_lan pinned.providers ≡ some p)
      × (select pinned (ask true) ≡ ok (mac_lan, p))))
    × ((usable pinned (ask true) mac_lan ≡ false)
        ↔ (select pinned (ask true) ≡ refuse (InferenceError.pin_violation mac_lan)))
select-pin_violation_example = select-pin_violation pinned (ask true) mac_lan refl

can_handle_iff-select_example :
    ((can_handle two (ask true)).capable ≡ true) ↔ (is_ok (select two (ask true)) ≡ true)
can_handle_iff-select_example = can_handle_iff-select two (ask true)

generate-Carries_example :
    (s : InferenceStream) × ((generate two (ask true)).1 ≡ ok s)
    × All (Carries hosted) s
    × (length s ≡ length answer)
    × (active_provider (generate two (ask true)).0 ≡ some (provider true))
generate-Carries_example = generate-Carries two (ask true) two-sees refl
