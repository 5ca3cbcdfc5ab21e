-- ===== src/Connectivity/Examples.antt =====
-- One session that is issued, used and killed, and one pairing.
mod Wire
use mahi_ai.Prelude.{
  ℕ, ◌≤◌, ◌≡◌, ◌≢◌, map, ◌↔◌, ◌⊎◌, refl, ◌-◌, true, false, none, some, List, [], ◌∷◌, ◌++◌, text,
  arith,
}
use mahi_ai.Prelude.Int.{pos}
use mahi_ai.Dict.{lookup, insert}
use mahi_ai.Contracts.Errors.{ChannelId, ConnectivityError}
use mahi_ai.Contracts.Result.{Result, ok, err}
use mahi_ai.Connectivity.Session.{
  Capability, SessionToken, SessionManager, Clock, Platform, MultiplexedEnvelope, sign,
  issue_with_ttl, validate, kill, send, switch, set_controlling, is_controlling, ensure_active,
  record_activity,
}
use mahi_ai.Connectivity.Session.Activity.{
  Before, IsActive, validate_iff-IsActive, validate-issue_with_ttl, send-IsActive,
}
use mahi_ai.Connectivity.Session.Invariant.{
  Op, IsWellFormed, MayControl, apply_all, apply_all-MayControl,
}
use mahi_ai.Connectivity.Session.Kill.{kill-final}
use mahi_ai.Connectivity.Pairing.{
  PairingMethod, PairingManager, Hashes, begin_pairing, complete_pairing, confirmation_tag,
  is_trusted, six_digits, new_manager,
}
use mahi_ai.Connectivity.Pairing.Trust.{
  Completes, PairsWith, complete_pairing-Completes, is_trusted-apply, is_trusted-revoke,
}
use mahi_ai.Connectivity.Pairing.Trust as Trust

abbrev platform : Platform
platform = record {
  hmac = λ key bytes. key ++ bytes;
  as_bytes = λ id. id ∷ [];
  millis_to_be_bytes = λ t. [];
  to_string = λ id. id ∷ [];
}

abbrev at_time : ℕ → Clock
at_time t = record { utc = t; instant = t }

abbrev empty_manager : SessionManager
empty_manager = record {
  signing_key = 7 ∷ [];
  idle_timeout = 100;
  default_ttl = pos 1000;
  sessions = [];
}

abbrev taking_over : List Capability
taking_over = Capability.inference ∷ Capability.takeover ∷ []

abbrev inner : MultiplexedEnvelope → Result ConnectivityError (Unit {0})
inner envelope = ok tt

abbrev hello : MultiplexedEnvelope
hello = record {
  channel = ChannelId.control;
  seq_no = 1;
  session_id = 0;
  payload_type = text "Hello";
  payload_bytes = [];
}

abbrev busy : SessionManager
busy = apply_all platform (Op.issuing 3 4 taking_over (pos 1000) (at_time 10) ∷ []) empty_manager

abbrev busy_is_active : IsActive 3 (at_time 20) busy
unfolding issue_with_ttl insert lookup
busy_is_active = (_, refl, (refl, ground arith, ground arith))

abbrev issued_token : SessionToken
issued_token = (issue_with_ttl platform 3 4 taking_over (pos 1000) (at_time 10) empty_manager).0

abbrev stamped : MultiplexedEnvelope
stamped = record hello { session_id = 3 }

nobody : IsWellFormed empty_manager
unfolding lookup
nobody id entry found on = absurd (cc found)

abbrev taken_over : List Op
taken_over = Op.issuing 3 4 taking_over (pos 1000) (at_time 10) ∷ Op.switching 3 true ∷ []

controls : is_controlling 3 (apply_all platform taken_over empty_manager) ≡ true
unfolding issue_with_ttl insert lookup switch
controls = refl

apply_all-MayControl_example : MayControl 3 (apply_all platform taken_over empty_manager)
apply_all-MayControl_example =
    apply_all-MayControl platform taken_over 3 empty_manager nobody controls

abbrev later : List Op
later =
    Op.recording 3 (at_time 25) ∷ Op.switching 3 true ∷ Op.issuing 5 4 [] (pos 9) (at_time 26) ∷ []

-- The session is killed between the two locks of `set_controlling`: it stays marked, and does not control.
killed_between :
    let after = (set_controlling platform (λ m. (kill 3 m).1) 3 true (at_time 20) busy).1 in
    (map (λ e. e.1.controlling) after.sessions ≡ true ∷ []) × (is_controlling 3 after ≡ false)
unfolding issue_with_ttl insert lookup switch set_controlling kill ensure_active
killed_between = (refl, refl)

kill-final_example :
    let after = apply_all platform later (kill 3 busy).1 in
    (ensure_active platform 3 (at_time 30) after ≢ ok tt)
    × (validate platform (record issued_token { session_id = 3 }) (at_time 30) after ≢ ok tt)
    × ((send platform inner (λ m. m) 3 hello (at_time 30) after).2 ≡ none)
kill-final_example =
    kill-final platform inner (λ m. m) 3 busy later (at_time 30) issued_token hello
      ((λ h. h), ((λ h. h), ((λ h. ground (arith, h)), tt)))

abbrev hashes : Hashes
hashes = record {
  hmac_sha256 = λ key message. key ++ message;
  sha256 = λ secret. 1 ∷ secret;
  to_string = λ id. id ∷ [];
}

abbrev waiting : PairingManager
waiting = (begin_pairing hashes 8 1_234 (5 ∷ []) 0 new_manager).1

abbrev right_tag : List ℕ
right_tag = confirmation_tag hashes (six_digits 1_234) (1 ∷ 5 ∷ []) (6 ∷ [])

not_yet : is_trusted 4 waiting ≡ false
unfolding is_trusted begin_pairing lookup
not_yet = refl

now_trusted :
    is_trusted 4 (complete_pairing hashes 8 4 (6 ∷ []) right_tag PairingMethod.code 1 waiting).1
    ≡ true
unfolding is_trusted begin_pairing complete_pairing lookup insert
now_trusted = refl

is_trusted-apply_example :
    PairsWith hashes 4 (Trust.Op.completing 8 4 (6 ∷ []) right_tag PairingMethod.code 1) waiting
is_trusted-apply_example =
    is_trusted-apply hashes (Trust.Op.completing 8 4 (6 ∷ []) right_tag PairingMethod.code 1) 4
      waiting not_yet now_trusted
