-- ===== src/Connectivity/Session/Invariant.antt =====
-- Histories of a manager of crates/mahi-connectivity/src/session.rs: any sequence of what its operations
-- do under one lock, at any time and from either side, and what holds after all of them. An operation that
-- takes two locks is two steps, with any steps in between.
use mahi_ai.Prelude.{
  ℕ, ◌≡◌, refl, sym, Bool, true, false, not, ◌&&◌, inl, inr, nat_beq, Bool-cases, Option-cases,
  Option, some, List, [], ◌∷◌, ◌++◌, arith, nat_eq,
}
use mathlib.Core.Path.{subst}
use mahi_ai.Prelude.Int.{ℤ}
use mahi_ai.Dict.{lookup, insert, lookup-insert}
use mahi_ai.Contracts.Types.{Uuid}
use mahi_ai.Contracts.Errors.{ConnectivityError}
use mahi_ai.Contracts.Result.{Result, Result-cases}
use mahi_ai.Connectivity.Session.{
  Capability, SessionToken, SessionEntry, SessionManager, Clock, Platform, MultiplexedEnvelope,
  has_takeover, issue_with_ttl, ensure_active, record_activity, kill, set_controlling, send,
  control_entry, switch, is_controlling,
}

-- The steps that change a manager: `switching` is the second one of `set_controlling`, and `recording` is
-- also the second one of `send`.
pub data Op : Type 0 where
  issuing : (id peer_id : Uuid) → List Capability → ℤ → Clock → Op
  recording : Uuid → Clock → Op
  killing : Uuid → Op
  switching : Uuid → Bool → Op

module _ (platform : Platform) where
  abbrev pub apply : Op → SessionManager → SessionManager
  apply (Op.issuing id peer_id capabilities ttl clock) manager =
      (issue_with_ttl platform id peer_id capabilities ttl clock manager).1
  apply (Op.recording id clock) manager = record_activity id clock manager
  apply (Op.killing id) manager = (kill id manager).1
  apply (Op.switching id controlling) manager = (switch platform id controlling manager).1

  abbrev pub apply_all : List Op → SessionManager → SessionManager
  apply_all [] manager = manager
  apply_all (op ∷ ops) manager = apply_all ops (apply op manager)

-- The operation issues a token for this session.
abbrev pub Issues : Uuid → Op → Type 0
Issues id (Op.issuing new peer_id capabilities ttl clock) = new ≡ id
Issues id _ = ⊥

-- How an operation may change the entry of a session, if there was one.
pub data Change (op : Op) (id : Uuid) : Option SessionEntry → SessionEntry → Type 0 where
  issued :
      {o : Option SessionEntry} (t : SessionToken) (at : ℕ)
      → Issues id op
      → Change op id o
          (record { token = t; last_activity = at; killed = false; controlling = false })
  renewed : (e : SessionEntry) (at : ℕ) → Change op id (some e) (record e { last_activity = at })
  stopped :
      (e : SessionEntry) → Change op id (some e) (record e { killed = true; controlling = false })
  switched :
      (e : SessionEntry) (on : Bool)
      → (on ≡ true → has_takeover e.token ≡ true)
      → Change op id (some e) (record e { controlling = on })

-- What an operation makes of a manager: the same one, or one with the entry of one session changed.
pub data After (op : Op) (before : SessionManager) : SessionManager → Type 0 where
  unchanged : After op before before
  changed :
      (id : Uuid) (entry : SessionEntry)
      → Change op id (lookup id before.sessions) entry
      → After op before (record before { sessions = insert id entry before.sessions })

record_activity-After :
    (op : Op) (id : Uuid) (clock : Clock) (manager : SessionManager)
    → After op manager (record_activity id clock manager)
unfolding record_activity
record_activity-After op id clock manager = elim (Option-cases (lookup id manager.sessions)) [
  | inl absent ↦ rw (absent, record_activity) After.unchanged
  | inr (e, found) ↦
      rw (found, record_activity) (After.changed id _ (rw found (Change.renewed e clock.instant)))
]

kill-After : (op : Op) (id : Uuid) (manager : SessionManager) → After op manager (kill id manager).1
unfolding kill
kill-After op id manager = elim (Option-cases (lookup id manager.sessions)) [
  | inl absent ↦ rw (absent, kill) After.unchanged
  | inr (e, found) ↦ rw (found, kill) (After.changed id _ (rw found (Change.stopped e)))
]

module _ (platform : Platform) where
  control_entry-After :
      (op : Op) (id : Uuid) (controlling : Bool) (manager : SessionManager) (e : SessionEntry)
      → lookup id manager.sessions ≡ some e
      → After op manager (control_entry platform id controlling manager e).1
  control_entry-After op id controlling manager e found =
      elim (Bool-cases (controlling && not (has_takeover e.token))) [
        | inl lacking ↦ rw lacking After.unchanged
        | inr may ↦ rw may (
            After.changed id _
              (rw found (Change.switched e controlling (λ on. ground (arith, may, on)))))
      ]

  switch-After :
      (op : Op) (id : Uuid) (controlling : Bool) (manager : SessionManager)
      → After op manager (switch platform id controlling manager).1
  unfolding switch
  switch-After op id controlling manager = elim (Option-cases (lookup id manager.sessions)) [
    | inl absent ↦ rw (absent, switch) After.unchanged
    | inr (e, found) ↦ rw (found, switch) (control_entry-After op id controlling manager e found)
  ]

  pub apply-After :
      (op : Op) (manager : SessionManager) → After op manager (apply platform op manager)
  unfolding issue_with_ttl
  apply-After (Op.issuing id peer_id capabilities ttl clock) manager =
      After.changed id _ (Change.issued _ clock.instant refl)
  apply-After (Op.recording id clock) manager = record_activity-After _ id clock manager
  apply-After (Op.killing id) manager = kill-After _ id manager
  apply-After (Op.switching id controlling) manager = switch-After _ id controlling manager

  apply_all-append :
      (ops more : List Op) (manager : SessionManager)
      → apply_all platform (ops ++ more) manager
        ≡ apply_all platform more (apply_all platform ops manager)
  apply_all-append [] more manager = refl
  apply_all-append (op ∷ ops) more manager = apply_all-append ops more (apply platform op manager)

  -- A call of `set_controlling`, with any steps between its two locks, is a history.
  set_controlling-apply_all :
      (ops : List Op) (id : Uuid) (controlling : Bool) (clock : Clock) (manager : SessionManager)
      → (history : List Op) × ((set_controlling platform
            (apply_all platform ops)
            id
            controlling
            clock
            manager).1
          ≡ apply_all platform history manager)
  unfolding set_controlling
  set_controlling-apply_all ops id controlling clock manager =
      elim (Result-cases (ensure_active platform id clock manager)) [
        | inl active ↦ (
          ops ++ Op.switching id controlling ∷ [],
          rw (active, set_controlling)
              (sym (apply_all-append ops (Op.switching id controlling ∷ []) manager)),
        )
        | inr (e, refused) ↦ ([], rw (refused, set_controlling) refl)
      ]

  -- So is a call of `send`.
  send-apply_all :
      (inner : MultiplexedEnvelope → Result ConnectivityError (Unit {0})) (ops : List Op)
      (id : Uuid) (envelope : MultiplexedEnvelope) (clock : Clock) (manager : SessionManager)
      → (history : List Op) × ((send platform inner
            (apply_all platform ops)
            id
            envelope
            clock
            manager).1
          ≡ apply_all platform history manager)
  unfolding send
  send-apply_all inner ops id envelope clock manager =
      elim (Result-cases (ensure_active platform id clock manager)) [
        | inl active ↦ (
          ops ++ Op.recording id clock ∷ [],
          rw (active, send) (sym (apply_all-append ops (Op.recording id clock ∷ []) manager)),
        )
        | inr (e, refused) ↦ ([], rw (refused, send) refl)
      ]

-- A session that is marked as controlling the device has the takeover capability.
abbrev pub IsWellFormed : SessionManager → Type 0
IsWellFormed manager =
    (id : Uuid) (entry : SessionEntry)
    → lookup id manager.sessions ≡ some entry
    → entry.controlling ≡ true
    → has_takeover entry.token ≡ true

Change-IsWellFormed :
    (op : Op) (id : Uuid) (before : SessionManager) (entry : SessionEntry)
    → Change op id (lookup id before.sessions) entry
    → IsWellFormed before
    → entry.controlling ≡ true
    → has_takeover entry.token ≡ true
Change-IsWellFormed op id before entry change h on = go (lookup id before.sessions) refl change on
  where
    go :
        (o : Option SessionEntry) {entry : SessionEntry}
        → lookup id before.sessions ≡ o
        → Change op id o entry
        → entry.controlling ≡ true
        → has_takeover entry.token ≡ true
    go o found (Change.issued t at new) on = absurd (cc on)
    go (some e) found (Change.renewed _ at) on = h id e found on
    go (some e) found (Change.stopped _) on = absurd (cc on)
    go (some e) found (Change.switched _ c may) on = may on

After-IsWellFormed :
    (op : Op) (before after : SessionManager)
    → After op before after
    → IsWellFormed before
    → IsWellFormed after
After-IsWellFormed op before after After.unchanged h = h
After-IsWellFormed op before after (After.changed id entry change) h = λ j e found on.
    elim (Bool-cases (nat_beq id j)) [
      | inl same ↦
          let here : entry ≡ e =
            ground (arith, same, found, lookup-insert id j entry before.sessions) in
          subst (λ x. has_takeover x.token ≡ true) here
            (Change-IsWellFormed op id before entry change h
              (subst (λ x. x.controlling ≡ true) (sym here) on))
      | inr other ↦
          h j e (ground (arith, other, found, lookup-insert id j entry before.sessions)) on
    ]

-- The session is there, is not killed and has the takeover capability.
abbrev pub MayControl : Uuid → SessionManager → Type 0
MayControl id manager =
    (entry : SessionEntry) × (lookup id manager.sessions ≡ some entry)
    × (entry.killed ≡ false)
    × (has_takeover entry.token ≡ true)

is_controlling-MayControl :
    (id : Uuid) (manager : SessionManager)
    → IsWellFormed manager
    → is_controlling id manager ≡ true
    → MayControl id manager
is_controlling-MayControl id manager h on = elim (Option-cases (lookup id manager.sessions)) [
  | inl absent ↦ absurd (ground (arith, absent, on))
  | inr (e, found) ↦ (e, found, ground (arith, found, on), h id e found (ground (arith, found, on)))
]

module _ (platform : Platform) where
  apply_all-IsWellFormed :
      (ops : List Op) (manager : SessionManager)
      → IsWellFormed manager
      → IsWellFormed (apply_all platform ops manager)
  apply_all-IsWellFormed [] manager h = h
  apply_all-IsWellFormed (op ∷ ops) manager h =
      apply_all-IsWellFormed ops (apply platform op manager)
        (After-IsWellFormed op manager _ (apply-After platform op manager) h)

  -- After any history of a manager in which only sessions with the takeover capability were marked as
  -- controlling, for instance of one with no session, and however the steps of calls that take two locks
  -- interleave, `is_controlling` says of a session that it controls the device only if it is there, is not
  -- killed, and has the takeover capability.
  pub apply_all-MayControl :
      (ops : List Op) (id : Uuid) (manager : SessionManager)
      → IsWellFormed manager
      → is_controlling id (apply_all platform ops manager) ≡ true
      → MayControl id (apply_all platform ops manager)
  apply_all-MayControl ops id manager h =
      is_controlling-MayControl id (apply_all platform ops manager)
        (apply_all-IsWellFormed ops manager h)
