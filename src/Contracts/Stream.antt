-- ===== src/Contracts/Stream.antt =====
-- The streams of crates/mahi-contracts/src (compute.rs, tooling.rs) as a consumer sees them that also
-- watches a cancellation token.
use mahi_ai.Contracts.Errors.{ContractError}
use mahi_ai.Contracts.Result.{Result}

-- One round of a biased `select!` over the cancellation token and a stream. A stream that has no
-- more polls has ended.
pub data Poll (A : Type 0) : Type 0 where
  fired : Poll A
  item : Result ContractError A → Poll A
