-- ===== src/Connectivity/Session/Kill.antt =====
-- The kill switch of crates/mahi-connectivity/src/session.rs.
use mahi_ai.Prelude.{
  ◌≡◌, refl, nat_beq, true, false, inl, inr, Bool-cases, Option-cases, ◌≢◌, Option, none, some,
  List, [], ◌∷◌, All, arith, nat_eq,
}
use mathlib.Core.Path.{subst}
use mahi_ai.Dict.{lookup, lookup-insert}
use mahi_ai.Contracts.Types.{Uuid}
use mahi_ai.Contracts.Errors.{ConnectivityError}
use mahi_ai.Contracts.Result.{Result, ok}
use mahi_ai.Connectivity.Session.{
  SessionEntry, SessionManager, Clock, Platform, MultiplexedEnvelope, SessionToken, kill,
  ensure_active, validate, send,
}
use mahi_ai.Connectivity.Session.Activity.{
  IsActive, ensure_active_iff-IsActive, validate_iff-IsActive, send-IsActive,
}
use mahi_ai.Connectivity.Session.Invariant.{
  Op, Issues, Change, After, apply, apply_all, apply-After,
}

-- The session is not there, or killed.
abbrev IsDead : Uuid → SessionManager → Type 0
IsDead id manager =
    (entry : SessionEntry) → lookup id manager.sessions ≡ some entry → entry.killed ≡ true

kill-IsDead : (id : Uuid) (manager : SessionManager) → IsDead id (kill id manager).1
unfolding kill lookup
kill-IsDead id manager = elim (Option-cases (lookup id manager.sessions)) [
  | inl absent ↦ rw (absent, kill) (λ e found. absurd (cc (absent, found)))
  | inr (e, found) ↦
      rw (found, kill)
        (λ x there. ground (
          arith,
          there,
          lookup-insert id id (record e { killed = true; controlling = false }) manager.sessions,
        ))
]

After-IsDead :
    (id : Uuid) (op : Op) (before after : SessionManager)
    → ¬ Issues id op
    → After op before after
    → IsDead id before
    → IsDead id after
After-IsDead id op before after other After.unchanged h = h
After-IsDead id op before after other (After.changed j entry change) h = λ e found.
    elim (Bool-cases (nat_beq j id)) [
      | inl here ↦
          let this : entry ≡ e =
            ground (arith, here, found, lookup-insert j id entry before.sessions) in
          let at : j ≡ id = ground (arith, here) in
          subst (λ x. x.killed ≡ true) this (go (lookup j before.sessions) at refl change)
      | inr away ↦ h e (ground (arith, away, found, lookup-insert j id entry before.sessions))
    ]
  where
    go :
        (o : Option SessionEntry) {entry : SessionEntry}
        → j ≡ id
        → lookup j before.sessions ≡ o
        → Change op j o entry
        → entry.killed ≡ true
    go o at there (Change.issued t time new) = absurd (other (subst (λ i. Issues i op) at new))
    go (some e) at there (Change.renewed _ time) =
        h e (subst (λ i. lookup i before.sessions ≡ some e) at there)
    go (some e) at there (Change.stopped _) = refl
    go (some e) at there (Change.switched _ c may) =
        h e (subst (λ i. lookup i before.sessions ≡ some e) at there)

module _ (platform : Platform) where
  apply_all-IsDead :
      (id : Uuid) (ops : List Op) (manager : SessionManager)
      → All (λ op. ¬ Issues id op) ops
      → IsDead id manager
      → IsDead id (apply_all platform ops manager)
  apply_all-IsDead id [] manager none_issues h = h
  apply_all-IsDead id (op ∷ ops) manager (not_this, none_issues) h =
      apply_all-IsDead id ops (apply platform op manager) none_issues
        (After-IsDead id op manager _ not_this (apply-After platform op manager) h)

  kill-IsActive :
      (id : Uuid) (manager : SessionManager) (ops : List Op) (clock : Clock)
      → All (λ op. ¬ Issues id op) ops
      → ¬ IsActive id clock (apply_all platform ops (kill id manager).1)
  kill-IsActive id manager ops clock none_issues (entry, found, (alive, _, _)) = absurd (
      cc (
        alive,
        apply_all-IsDead id ops (kill id manager).1 none_issues (kill-IsDead id manager) entry
            found,
      ))

  -- A killed session is not resumable: whatever is done with the manager afterwards, at any time, the
  -- check of the session fails, so does the validation of any token that names it, and a bus that is bound
  -- to it sends nothing, unless a token is issued under the same identifier.
  pub kill-final :
      (inner : MultiplexedEnvelope → Result ConnectivityError (Unit {0}))
      (meanwhile : SessionManager → SessionManager) (id : Uuid) (manager : SessionManager)
      (ops : List Op) (clock : Clock) (token : SessionToken) (envelope : MultiplexedEnvelope)
      → All (λ op. ¬ Issues id op) ops
      → let after = apply_all platform ops (kill id manager).1 in
        (ensure_active platform id clock after ≢ ok tt)
        × (validate platform (record token { session_id = id }) clock after ≢ ok tt)
        × ((send platform inner meanwhile id envelope clock after).2 ≡ none)
  kill-final inner meanwhile id manager ops clock token envelope none_issues =
      let after = apply_all platform ops (kill id manager).1 in
      let dead = kill-IsActive id manager ops clock none_issues in
      (
        (λ h. dead ((ensure_active_iff-IsActive platform id clock after).0 h)),
        (λ h.
            dead
              ((validate_iff-IsActive platform (record token { session_id = id }) clock after).0
                h).1),
        elim (send-IsActive platform inner meanwhile id envelope clock after) [
          | inl (active, made) ↦ absurd (dead active)
          | inr (_, (e, made)) ↦ rw made refl
        ],
      )
