-- ===== src/Engine/Approval/Once.antt =====
-- What crates/mahi-agent-core/src/approval.rs makes of the decisions of the user.
use mahi_ai.Prelude.{
  ℕ, ◌≤◌, ◌<◌, ◌≡◌, refl, sym, ◌∙◌, ap, inl, inr, Bool, Bool-cases, Option-cases, none, some, List,
  [], ◌∷◌, suc, arith, nat_beq, nat_eq, Text, if◌then◌else◌,
}
use mathlib.Core.Path.{subst}
use mahi_ai.Dict.{lookup, remove, lookup-insert, lookup-remove}
use mahi_ai.Contracts.Types.{Uuid}
use mahi_ai.Contracts.Errors.{ContractError}
use mahi_ai.Contracts.Result.{err, is_ok}
use mahi_ai.Engine.Approval.{
  ApprovalRegistry, no_approvals, register, discard, deliver, resolve, not_pending,
}

pub data Op : Type 0 where
  registering : Uuid → Op
  resolving : Uuid → Bool → Op
  discarding : Uuid → Op

-- The decisions put into a channel.
abbrev pub times : ℕ → List (ℕ × Bool) → ℕ
times c [] = 0
times c ((d, _) ∷ sent) = if nat_beq d c then suc (times c sent) else times c sent

-- Channels are used once: the pending ones are old, distinct and still unused.
abbrev pub IsFair : ApprovalRegistry → Type 0
IsFair registry =
    ((id : Uuid) (c : ℕ)
      → lookup id registry.pending ≡ some c
      → (c < registry.next) × (times c registry.sent ≡ 0))
    × ((id other : Uuid) (c : ℕ)
        → lookup id registry.pending ≡ some c
        → lookup other registry.pending ≡ some c
        → id ≡ other)
    × ((c : ℕ) → times c registry.sent ≤ 1)
    × ((c : ℕ) → registry.next ≤ c → times c registry.sent ≡ 0)

register-IsFair :
    (id : Uuid) (registry : ApprovalRegistry) → IsFair registry → IsFair (register id registry).1
unfolding register
register-IsFair id registry (old, distinct, once, unused) = (
  λ j c h. elim (Bool-cases (nat_beq id j)) [
    | inl here ↦
        ground (arith, h, here, lookup-insert id j registry.next registry.pending, unused c)
    | inr other ↦
        ground (arith, h, other, lookup-insert id j registry.next registry.pending, old j c)
  ],
  λ j k c h i. ground (
    arith,
    h,
    i,
    lookup-insert id j registry.next registry.pending,
    lookup-insert id k registry.next registry.pending,
    distinct j k c,
    old j c,
    old k c,
  ),
  once,
  λ c h. unused c (ground arith),
)

pending-register :
    (id : Uuid) (registry : ApprovalRegistry)
    → lookup id (register id registry).1.pending ≡ some registry.next
unfolding register
pending-register id registry = ground (arith, lookup-insert id id registry.next registry.pending)

sent-register :
    (id : Uuid) (registry : ApprovalRegistry) → (register id registry).1.sent ≡ registry.sent
unfolding register
sent-register id registry = refl

discard-IsFair :
    (id : Uuid) (registry : ApprovalRegistry) → IsFair registry → IsFair (discard id registry)
unfolding discard
discard-IsFair id registry (old, distinct, once, unused) = (
  λ j c h. ground (arith, h, lookup-remove id j registry.pending, old j c),
  λ j k c h i. ground (
    arith,
    h,
    i,
    lookup-remove id j registry.pending,
    lookup-remove id k registry.pending,
    distinct j k c,
  ),
  once,
  unused,
)

module _ (to_string : Uuid → Text) (waits : ℕ → Bool) where
  deliver-IsFair :
      (tx : ℕ) (id : Uuid) (approved : Bool) (registry : ApprovalRegistry)
      → lookup id registry.pending ≡ some tx
      → IsFair registry
      → IsFair (deliver to_string waits tx id approved registry).1
  deliver-IsFair tx id approved registry found (old, distinct, once, unused) = (
    λ j c h.
        ground (arith, h, found, lookup-remove id j registry.pending, old j c, distinct id j tx),
    λ j k c h i. ground (
      arith,
      h,
      i,
      lookup-remove id j registry.pending,
      lookup-remove id k registry.pending,
      distinct j k c,
    ),
    λ c. ground (arith, once c, old id tx found),
    λ c h. ground (arith, unused c h, old id tx found),
  )

  abbrev pub apply : Op → ApprovalRegistry → ApprovalRegistry
  apply (Op.registering id) registry = (register id registry).1
  apply (Op.resolving id approved) registry = (resolve to_string waits id approved registry).1
  apply (Op.discarding id) registry = discard id registry

  abbrev pub apply_all : List Op → ApprovalRegistry → ApprovalRegistry
  apply_all [] registry = registry
  apply_all (op ∷ ops) registry = apply_all ops (apply op registry)

  apply-IsFair :
      (op : Op) (registry : ApprovalRegistry) → IsFair registry → IsFair (apply op registry)
  unfolding resolve
  apply-IsFair (Op.registering id) registry h = register-IsFair id registry h
  apply-IsFair (Op.discarding id) registry h = discard-IsFair id registry h
  apply-IsFair (Op.resolving id approved) registry h =
      elim (Option-cases (lookup id registry.pending)) [
        | inl absent ↦ rw (absent, apply, resolve) h
        | inr (tx, found) ↦
            rw (found, apply, resolve) (deliver-IsFair tx id approved registry found h)
      ]

  resolve_absent :
      (id : Uuid) (approved : Bool) (registry : ApprovalRegistry)
      → lookup id registry.pending ≡ none
      → (e : ContractError) × (resolve to_string waits id approved registry ≡ (err e, registry))
  unfolding resolve
  resolve_absent id approved registry absent = (not_pending to_string id, rw (absent, resolve) refl)

  resolve_present :
      (id : Uuid) (approved : Bool) (registry : ApprovalRegistry) (tx : ℕ)
      → lookup id registry.pending ≡ some tx
      → resolve to_string waits id approved registry
        ≡ deliver to_string waits tx id approved registry
  unfolding resolve
  resolve_present id approved registry tx found = rw (found, resolve) refl

  apply_all-IsFair :
      (ops : List Op) (registry : ApprovalRegistry)
      → IsFair registry
      → IsFair (apply_all ops registry)
  apply_all-IsFair [] registry h = h
  apply_all-IsFair (op ∷ ops) registry h =
      apply_all-IsFair ops (apply op registry) (apply-IsFair op registry h)

  no_approvals-IsFair : IsFair no_approvals
  unfolding lookup
  no_approvals-IsFair =
      (λ id c h. absurd (cc h), λ id other c h k. absurd (cc h), λ c. ground arith, λ c h. refl)

  -- Whatever is registered, resolved and discarded from an empty registry on, in any order and under
  -- any identifiers, also colliding ones, every parked turn is sent at most one decision.
  pub times-apply_all : (ops : List Op) (c : ℕ) → times c (apply_all ops no_approvals).sent ≤ 1
  times-apply_all ops c = (apply_all-IsFair ops no_approvals no_approvals-IsFair).2 c

  -- Resolving an approval that was just registered sends the decision, and only it, into the channel
  -- of that registration; the answer is an error exactly when that turn no longer waits.
  pub resolve-register :
      (id : Uuid) (approved : Bool) (registry : ApprovalRegistry)
      → let r = resolve to_string waits id approved (register id registry).1 in
        (r.1.sent ≡ (registry.next, approved) ∷ registry.sent) × (is_ok r.0 ≡ waits registry.next)
  resolve-register id approved registry =
      let fresh : ApprovalRegistry = (register id registry).1 in
      let made = resolve_present id approved fresh registry.next (pending-register id registry) in
      subst
        (λ r.
          (r.1.sent ≡ (registry.next, approved) ∷ registry.sent)
          × (is_ok r.0 ≡ waits registry.next))
        (sym made)
        (ap (λ s. (registry.next, approved) ∷ s) (sent-register id registry), ground arith)

  -- An approval that was resolved, whether it was pending or not, cannot be resolved again: a second
  -- decision is an error and changes nothing.
  pub resolve-resolve :
      (id : Uuid) (first second : Bool) (registry : ApprovalRegistry)
      → let after = (resolve to_string waits id first registry).1 in
        (e : ContractError) × (resolve to_string waits id second after ≡ (err e, after))
  resolve-resolve id first second registry = elim (Option-cases (lookup id registry.pending)) [
    | inl absent ↦
        let kept = ap (λ r. r.1) (resolve_absent id first registry absent).1 in
        resolve_absent id second (resolve to_string waits id first registry).1
          (ap (λ r. lookup id r.pending) kept ∙ absent)
    | inr (tx, found) ↦
        let sent = ap (λ r. r.1) (resolve_present id first registry tx found) in
        resolve_absent id second (resolve to_string waits id first registry).1 (
          ap (λ r. lookup id r.pending) sent ∙ ground (arith, lookup-remove id id registry.pending))
  ]

  -- A discarded approval cannot be resolved.
  pub resolve-discard :
      (id : Uuid) (approved : Bool) (registry : ApprovalRegistry)
      → (e : ContractError) × (resolve to_string waits id approved (discard id registry)
          ≡ (err e, discard id registry))
  unfolding discard
  resolve-discard id approved registry =
      resolve_absent id approved (record registry { pending = remove id registry.pending })
        (ground (arith, lookup-remove id id registry.pending))
