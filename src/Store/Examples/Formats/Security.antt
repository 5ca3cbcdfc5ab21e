-- ===== src/Store/Examples/Formats/Security.antt =====
-- Formats of some audit events and of some grants.
use mahi_ai.Prelude.{
  zero, suc, ℕ, ◌≡◌, refl, Bool, true, false, ◌&&◌, arith, Option, none, some, [], ◌∷◌, Text,
}
use mathlib.Core.Path.{subst}
use mahi_ai.Contracts.Data.{
  AuditEvent, AuditEventType, AuditActor, AuditOutcome, PermissionGrant, PermissionSubject,
  PermissionTier, AccessLevel,
}
use mahi_ai.Contracts.Result.{Result, ok, err}
use mahi_ai.Store.Crypto.{Bytes}
use mahi_ai.Store.Sealed.{Format, ReadsBack}
use mahi_ai.Store.Examples.Formats.{
  written_if, written_if-true, nothing, nothing-none, none_of, none_of-nil, both,
}

abbrev calls_tool : AuditEventType → Bool
calls_tool AuditEventType.tool_call = true
calls_tool _ = false

calls_tool-only : (x : AuditEventType) → calls_tool x ≡ true → AuditEventType.tool_call ≡ x
calls_tool-only x h = ground (arith, h)

abbrev by_agent : AuditActor → Bool
by_agent AuditActor.agent = true
by_agent _ = false

by_agent-only : (x : AuditActor) → by_agent x ≡ true → AuditActor.agent ≡ x
by_agent-only x h = ground (arith, h)

abbrev was_allowed : AuditOutcome → Bool
was_allowed AuditOutcome.allowed = true
was_allowed _ = false

was_allowed-only : (x : AuditOutcome) → was_allowed x ≡ true → AuditOutcome.allowed ≡ x
was_allowed-only x h = ground (arith, h)

abbrev pub read_event : Bytes → Result Text (AuditEvent (Unit {0}))
read_event (id ∷ device ∷ time ∷ prev) = ok (record {
  event_id = id;
  device_id = device;
  session_id = none;
  event_type = AuditEventType.tool_call;
  actor = AuditActor.agent;
  resource_ref = none;
  outcome = AuditOutcome.allowed;
  metadata = tt;
  timestamp = time;
  prev_hash = prev;
})
read_event _ = err []

abbrev pub event_format : Format (AuditEvent (Unit {0}))
event_format = record {
  to_vec = λ x.
      written_if
        (nothing x.session_id
          && calls_tool x.event_type
          && by_agent x.actor
          && nothing x.resource_ref
          && was_allowed x.outcome)
        (x.event_id ∷ x.device_id ∷ x.timestamp ∷ x.prev_hash);
  from_slice = read_event;
}

pub event_format-ReadsBack : ReadsBack event_format
event_format-ReadsBack x json h =
    let (fits, made) = written_if-true _ _ json h in
    let (f4, e5) = both _ _ fits in
    let (f3, e4) = both _ _ f4 in
    let (f2, e3) = both _ _ f3 in
    let (e1, e2) = both _ _ f2 in
    subst (λ y. read_event y ≡ ok x) made
      (λ i. ok (record {
        event_id = x.event_id;
        device_id = x.device_id;
        session_id = nothing-none x.session_id e1 i;
        event_type = calls_tool-only x.event_type e2 i;
        actor = by_agent-only x.actor e3 i;
        resource_ref = nothing-none x.resource_ref e4 i;
        outcome = was_allowed-only x.outcome e5 i;
        metadata = tt;
        timestamp = x.timestamp;
        prev_hash = x.prev_hash;
      }))

abbrev always : PermissionTier → Bool
always PermissionTier.allow_always = true
always _ = false

always-only : (x : PermissionTier) → always x ≡ true → PermissionTier.allow_always ≡ x
always-only x h = ground (arith, h)

abbrev fully : AccessLevel → Bool
fully AccessLevel.full = true
fully _ = false

fully-only : (x : AccessLevel) → fully x ≡ true → AccessLevel.full ≡ x
fully-only x h = ground (arith, h)

abbrev is_feature : PermissionSubject → Bool
is_feature (PermissionSubject.feature t) = true
is_feature _ = false

abbrev feature_name : PermissionSubject → Text
feature_name (PermissionSubject.feature t) = t
feature_name _ = []

is_feature-only :
    (x : PermissionSubject) → is_feature x ≡ true → PermissionSubject.feature (feature_name x) ≡ x
is_feature-only (PermissionSubject.feature t) h = refl
is_feature-only (PermissionSubject.tool t) h = absurd (cc h)

abbrev write_opt : Option ℕ → ℕ
write_opt none = 0
write_opt (some n) = suc n

abbrev read_opt : ℕ → Option ℕ
read_opt zero = none
read_opt (suc n) = some n

read-write_opt : (o : Option ℕ) → read_opt (write_opt o) ≡ o
read-write_opt none = refl
read-write_opt (some n) = refl

abbrev pub read_grant : Bytes → Result Text PermissionGrant
read_grant (id ∷ device ∷ time ∷ expires ∷ name) = ok (record {
  grant_id = id;
  subject = PermissionSubject.feature name;
  scope = [];
  tier = PermissionTier.allow_always;
  access_level = AccessLevel.full;
  device_id = device;
  prompt_text = [];
  granted_at = time;
  expires_at = read_opt expires;
  revoked_at = none;
})
read_grant _ = err []

abbrev pub grant_format : Format PermissionGrant
grant_format = record {
  to_vec = λ x.
      written_if
        (is_feature x.subject
          && none_of x.scope
          && always x.tier
          && fully x.access_level
          && none_of x.prompt_text
          && nothing x.revoked_at)
        (x.grant_id ∷ x.device_id ∷ x.granted_at ∷ write_opt x.expires_at ∷ feature_name x.subject);
  from_slice = read_grant;
}

pub grant_format-ReadsBack : ReadsBack grant_format
grant_format-ReadsBack x json h =
    let (fits, made) = written_if-true _ _ json h in
    let (f5, e6) = both _ _ fits in
    let (f4, e5) = both _ _ f5 in
    let (f3, e4) = both _ _ f4 in
    let (f2, e3) = both _ _ f3 in
    let (e1, e2) = both _ _ f2 in
    subst (λ y. read_grant y ≡ ok x) made
      (λ i. ok (record {
        grant_id = x.grant_id;
        subject = is_feature-only x.subject e1 i;
        scope = none_of-nil x.scope e2 i;
        tier = always-only x.tier e3 i;
        access_level = fully-only x.access_level e4 i;
        device_id = x.device_id;
        prompt_text = none_of-nil x.prompt_text e5 i;
        granted_at = x.granted_at;
        expires_at = read-write_opt x.expires_at i;
        revoked_at = nothing-none x.revoked_at e6 i;
      }))
