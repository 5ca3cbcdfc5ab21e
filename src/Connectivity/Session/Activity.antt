-- ===== src/Connectivity/Session/Activity.antt =====
-- When a session of crates/mahi-connectivity/src/session.rs is active, and what depends on it.
use mahi_ai.Prelude.{
  ℕ, ◌-◌, ◌≤◌, ◌<◌, ◌≡◌, ◌↔◌, ◌⊎◌, refl, sym, Bool, true, false, inl, inr, Option, none, some, List,
  arith, text, text_beq, text_beq_iff, not, if◌then◌else◌, nat_eq,
}
use mathlib.Core.Path.{subst}
use mahi_ai.Prelude.Int.{ℤ, pos, negsuc}
use mahi_ai.Dict.{lookup, lookup-insert}
use mahi_ai.Contracts.Types.{Uuid}
use mahi_ai.Contracts.Errors.{ConnectivityError}
use mahi_ai.Contracts.Result.{Result, ok, err, Result-cases}
use mahi_ai.Connectivity.Session.{
  Capability, SessionToken, SessionEntry, SessionManager, Clock, Platform, MultiplexedEnvelope,
  session_err, sign, issue_with_ttl, entry_active, ensure_active, validate, record_activity, send,
}

-- A point in time lies before a limit.
abbrev pub Before : ℕ → ℤ → Type 0
Before now (pos limit) = now < limit
Before now (negsuc limit) = ⊥

-- The state of a session that may be used.
abbrev pub IsUsable : ℕ → Clock → SessionEntry → Type 0
IsUsable idle_timeout clock entry =
    (entry.killed ≡ false)
    × Before clock.utc entry.token.expires_at
    × (clock.instant - entry.last_activity ≤ idle_timeout)

abbrev pub IsActive : Uuid → Clock → SessionManager → Type 0
IsActive session_id clock manager =
    (entry : SessionEntry) × (lookup session_id manager.sessions ≡ some entry)
    × IsUsable manager.idle_timeout clock entry

module _ (platform : Platform) where
  entry_active_iff-IsUsable :
      (session_id : Uuid) (idle : ℕ) (clock : Clock) (entry : SessionEntry)
      → (entry_active platform session_id idle clock entry ≡ ok tt) ↔ IsUsable idle clock entry
  entry_active_iff-IsUsable session_id idle clock entry = ground arith

  -- The check of a session succeeds exactly when the session exists, is not killed, has not expired
  -- and was not idle for longer than the timeout.
  pub ensure_active_iff-IsActive :
      (session_id : Uuid) (clock : Clock) (manager : SessionManager)
      → (ensure_active platform session_id clock manager ≡ ok tt)
        ↔ IsActive session_id clock manager
  unfolding ensure_active
  ensure_active_iff-IsActive session_id clock manager = go (lookup session_id manager.sessions)
    where
      go :
          (o : Option SessionEntry)
          → ((elim o as (λ _. Result ConnectivityError (Unit {0})) [
            | none ↦ err (session_err platform session_id (text "unknown session"))
            | some entry ↦ entry_active platform session_id manager.idle_timeout clock entry
          ])
              ≡ ok tt)
            ↔ ((entry : SessionEntry) × (o ≡ some entry)
                × IsUsable manager.idle_timeout clock entry)
      go none = (λ h. absurd (cc h), λ h. absurd (cc h.1))
      go (some entry) =
          let iff = entry_active_iff-IsUsable session_id manager.idle_timeout clock entry in
          (
            λ h. (entry, refl, iff.0 h),
            λ h.
                let same : h.0 ≡ entry = cc h.1 in
                iff.1 (subst (IsUsable manager.idle_timeout clock) same h.2),
          )

  guarded_iff :
      {Q P : Type 0} (b : Bool) (e : ConnectivityError) (r : Result ConnectivityError (Unit {0}))
      → (b ≡ true) ↔ Q
      → (r ≡ ok tt) ↔ P
      → ((if not b then err e else r) ≡ ok tt) ↔ (Q × P)
  guarded_iff true e r q p = (λ h. (q.0 refl, p.0 h), λ h. p.1 h.1)
  guarded_iff false e r q p = (λ h. absurd (cc h), λ h. absurd (cc (q.1 h.0)))

  -- A token is valid exactly when it carries the manager's own signature over its fields and its
  -- session is active.
  pub validate_iff-IsActive :
      (token : SessionToken) (clock : Clock) (manager : SessionManager)
      → (validate platform token clock manager ≡ ok tt)
        ↔ ((sign platform manager token ≡ token.hmac) × IsActive token.session_id clock manager)
  unfolding validate
  validate_iff-IsActive token clock manager =
      guarded_iff (text_beq (sign platform manager token) token.hmac) _ _
        (text_beq_iff (sign platform manager token) token.hmac)
        (ensure_active_iff-IsActive token.session_id clock manager)

  -- A token that was just issued is valid from then on as long as its lifetime has not passed and
  -- no more than the idle timeout, also if its session was known before.
  pub validate-issue_with_ttl :
      (id peer_id : Uuid) (capabilities : List Capability) (ttl : ℤ) (issued now : Clock)
      (manager : SessionManager)
      → let made = issue_with_ttl platform id peer_id capabilities ttl issued manager in
        (validate platform made.0 now made.1 ≡ ok tt)
        ↔ (Before now.utc made.0.expires_at × (now.instant - issued.instant ≤ manager.idle_timeout))
  unfolding issue_with_ttl
  validate-issue_with_ttl id peer_id capabilities ttl issued now manager =
      let made = issue_with_ttl platform id peer_id capabilities ttl issued manager in
      let entry : SessionEntry = record {
        token = made.0;
        last_activity = issued.instant;
        killed = false;
        controlling = false;
      } in
      let found : lookup id made.1.sessions ≡ some entry =
        ground (arith, lookup-insert id id entry manager.sessions) in
      let iff = validate_iff-IsActive made.0 now made.1 in
      (
        λ h.
            let (e, at, usable) = (iff.0 h).1 in
            let same : entry ≡ e = cc (found, at) in
            let held = subst (IsUsable manager.idle_timeout now) (sym same) usable in
            (held.1, held.2),
        λ h. iff.1 (refl, (entry, found, (refl, h.0, h.1))),
      )

  -- Sending on a session's bus: the envelope reaches the inner bus exactly when the session is
  -- active; it then carries that session's identifier, the answer is the inner bus's, and the
  -- session's idle time starts anew, on what other threads made of the manager meanwhile. Otherwise the answer
  -- is an error and nothing has changed.
  pub send-IsActive :
      (inner : MultiplexedEnvelope → Result ConnectivityError (Unit {0}))
      (meanwhile : SessionManager → SessionManager) (session_id : Uuid)
      (envelope : MultiplexedEnvelope) (clock : Clock) (manager : SessionManager)
      → let stamped : MultiplexedEnvelope = record envelope { session_id = session_id } in
        let r = send platform inner meanwhile session_id envelope clock manager in
        (IsActive session_id clock manager
          × (r ≡ (
            inner stamped,
            record_activity session_id clock (meanwhile manager),
            some stamped,
          )))
        ⊎ ((¬ IsActive session_id clock manager)
            × ((e : ConnectivityError) × (r ≡ (err e, manager, none))))
  unfolding send
  send-IsActive inner meanwhile session_id envelope clock manager =
      let iff = ensure_active_iff-IsActive session_id clock manager in
      elim (Result-cases (ensure_active platform session_id clock manager)) [
        | inl active ↦ inl (iff.0 active, rw (active, send) refl)
        | inr (e, refused) ↦ inr (λ h. absurd (cc (refused, iff.1 h)), (e, rw (refused, send) refl))
      ]

  -- Right after it sent something, and if nothing else happened meanwhile, a session that has not expired is active for the whole timeout.
  pub send-renews :
      (inner : MultiplexedEnvelope → Result ConnectivityError (Unit {0})) (session_id : Uuid)
      (envelope : MultiplexedEnvelope) (sent now : Clock) (manager : SessionManager)
      (active : IsActive session_id sent manager)
      → Before now.utc active.0.token.expires_at
      → now.instant - sent.instant ≤ manager.idle_timeout
      → IsActive session_id now (send platform inner (λ m. m) session_id envelope sent manager).1
  unfolding send record_activity
  send-renews inner session_id envelope sent now manager active early soon =
      let ok_ = (ensure_active_iff-IsActive session_id sent manager).1 active in
      let (entry, found, (alive, unexpired, recent)) = active in
      rw (ok_, found, send, record_activity)
        (
          record entry { last_activity = sent.instant },
          ground (
            arith,
            lookup-insert session_id session_id (record entry { last_activity = sent.instant })
                manager.sessions,
          ),
          (alive, early, soon),
        )
