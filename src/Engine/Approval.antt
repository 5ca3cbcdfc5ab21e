-- ===== src/Engine/Approval.antt =====
-- crates/mahi-agent-core/src/approval.rs: `ApprovalRegistry`.
-- A one-shot channel of `tokio` is a number; `oneshot::channel()` gives the `next` one. `sent` lists the
-- decisions that were put into channels, the latest first: what the parked turns may receive. Whether
-- the turn of a channel still waits for it is a parameter.
pub mod Once
use mahi_ai.Prelude.{
  ℕ, ◌+◌, ◌≤◌, ◌<◌, ◌≡◌, ◌≢◌, refl, sym, ◌∙◌, ap, inl, inr, Bool, true, false, Bool-cases,
  Option-cases, Option, none, some, List, [], ◌∷◌, ◌++◌, suc, arith, nat_beq, nat_eq, Text, text,
  if◌then◌else◌,
}
use mathlib.Core.Path.{subst}
use mahi_ai.Dict.{Dict, lookup, insert, remove, lookup-insert, lookup-remove}
use mahi_ai.Contracts.Types.{Uuid}
use mahi_ai.Contracts.Errors.{ContractError}
use mahi_ai.Contracts.Result.{Result, ok, err, is_ok}

pub record ApprovalRegistry : Type 0 where
  pub pending : Dict Uuid ℕ
  pub next : ℕ
  pub sent : List (ℕ × Bool)

abbrev pub no_approvals : ApprovalRegistry
no_approvals = record { pending = []; next = 0; sent = [] }

-- `id` is the fresh identifier; the answer is it and the receiving half of the channel.
unfoldable pub register : Uuid → ApprovalRegistry → (Uuid × ℕ) × ApprovalRegistry
register id registry = (
  (id, registry.next),
  record registry { pending = insert id registry.next registry.pending; next = suc registry.next },
)

unfoldable pub discard : Uuid → ApprovalRegistry → ApprovalRegistry
discard id registry = record registry { pending = remove id registry.pending }

abbrev pub not_pending : (Uuid → Text) → Uuid → ContractError
not_pending to_string id = ContractError.other (text "no pending approval with id " ++ to_string id)

module _ (to_string : Uuid → Text) (waits : ℕ → Bool) where
  -- `tx.send(approved)`, which fails where the receiver is gone.
  abbrev pub deliver :
      ℕ → Uuid → Bool → ApprovalRegistry → Result ContractError (Unit {0}) × ApprovalRegistry
  deliver tx id approved registry = (
    if waits tx
        then ok tt
        else err (ContractError.other (text "approval waiter gone (turn ended or was cancelled)")),
    record registry { pending = remove id registry.pending; sent = (tx, approved) ∷ registry.sent },
  )

  unfoldable pub resolve :
      Uuid → Bool → ApprovalRegistry → Result ContractError (Unit {0}) × ApprovalRegistry
  resolve id approved registry = elim (lookup id registry.pending) [
    | none ↦ (err (not_pending to_string id), registry)
    | some tx ↦ deliver tx id approved registry
  ]
