-- ===== src/Hosted.antt =====
-- crates/mahi-compute/src/hosted/mod.rs: the errors of the hosted providers.
pub mod Sse
pub mod Blocks
pub mod Anthropic
pub mod Openai
mod Examples
use mahi_ai.Prelude.{ℕ, Bool, ◌||◌, ◌&&◌, ◌++◌, Text, text, nat_beq, leb, ltb}
use mahi_ai.Contracts.Errors.{ContractError, InferenceError, inference}

-- What a failed request says of itself.
pub record TransportFailure : Type 0 where
  pub message : Text
  pub is_timeout : Bool
  pub is_connect : Bool

unfoldable pub transport_error : TransportFailure → ContractError
transport_error failure = inference (
    InferenceError.provider (text "transport error: " ++ failure.message)
      (failure.is_timeout || failure.is_connect))

-- `shown` is the printed status.
unfoldable pub http_error : (provider : Text) (status : ℕ) (shown body : Text) → ContractError
http_error provider status shown body = inference (
    InferenceError.provider (provider ++ text " HTTP " ++ shown ++ text ": " ++ body)
      ((leb 500 status && ltb status 600) || nat_beq status 429))
