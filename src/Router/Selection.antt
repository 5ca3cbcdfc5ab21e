-- ===== src/Router/Selection.antt =====
-- Which provider `InferenceRouter::select` picks (DECISIONS.md D1: local first, a pin is never
-- overridden), and how the probe `can_handle` agrees with it.
use mahi_ai.Prelude.{ℕ, ◌≡◌, ◌<◌, ◌↔◌, Bool, true, false, none, some, Option-cases, inl, inr, arith}
use mahi_ai.Dict.{lookup}
use mahi_ai.Contracts.Types.{ComputeMode, mode_eq, on_device, mac_lan, mac_remote, hosted}
use mahi_ai.Contracts.Errors.{InferenceError}
use mahi_ai.Contracts.Result.{ok, is_ok}
use mahi_ai.Contracts.Inference.{InferenceRequest, InferenceProvider}
use mahi_ai.Router.{InferenceRouter, refuse, select, can_handle}

-- The place of a mode in the local-first order of DECISIONS.md D1.
abbrev pub rank : ComputeMode → ℕ
rank mac_lan = 0
rank mac_remote = 1
rank hosted = 2
rank on_device = 3

module _ {V : Type 0} where
  -- A provider is registered for the mode and can handle the request.
  abbrev pub usable : InferenceRouter V → InferenceRequest V → ComputeMode → Bool
  usable r req m = elim (lookup m r.providers) [
    | none ↦ false
    | some p ↦ (p.can_handle req).capable
  ]

  -- A selected provider is the one registered for the selected mode, it can handle the request, and
  -- under a pin the mode is the pinned one.
  pub select_sound :
      (r : InferenceRouter V) (req : InferenceRequest V) {m : ComputeMode} {p : InferenceProvider V}
      → select r req ≡ ok (m, p)
      → (lookup m r.providers ≡ some p)
        × ((p.can_handle req).capable ≡ true)
        × ((q : ComputeMode) → r.pin ≡ some q → m ≡ q)
  unfolding select
  select_sound r req h = (ground arith, ground arith, λ q e. ground arith)

  -- Without a pin, every mode that precedes the selected one in the local-first order has no
  -- provider that can handle the request.
  pub select-prefers_local :
      (r : InferenceRouter V) (req : InferenceRequest V) {m : ComputeMode} {p : InferenceProvider V}
      → r.pin ≡ none
      → select r req ≡ ok (m, p)
      → (n : ComputeMode) → rank n < rank m
      → usable r req n ≡ false
  unfolding select
  select-prefers_local r req unpinned h n before = ground arith

  -- A pinned request is served exactly when the pinned mode is usable, and then by the provider that is
  -- registered for it; it fails exactly when the mode is not usable, and then by a pin violation that
  -- names the pinned mode, whatever other providers could have served it.
  pub select-pin_violation :
      (r : InferenceRouter V) (req : InferenceRequest V) (q : ComputeMode)
      → r.pin ≡ some q
      → ((usable r req q ≡ true) ↔ (
          (p : InferenceProvider V) × (lookup q r.providers ≡ some p) × (select r req ≡ ok (q, p))))
        × ((usable r req q ≡ false) ↔ (select r req ≡ refuse (InferenceError.pin_violation q)))
  unfolding select
  select-pin_violation r req q pinned = elim (Option-cases (lookup q r.providers)) [
    | inl absent ↦ (ground arith, ground arith)
    | inr (p, found) ↦ ((λ h. (p, found, ground arith), λ (p', e, h). ground arith), ground arith)
  ]

  -- An unpinned request is refused exactly when no mode at all is usable, and then because no
  -- provider is capable.
  pub select-no_capable_provider :
      (r : InferenceRouter V) (req : InferenceRequest V)
      → r.pin ≡ none
      → ((m : ComputeMode) → usable r req m ≡ false)
        ↔ (select r req ≡ refuse InferenceError.no_capable_provider)
  unfolding select
  select-no_capable_provider r req unpinned =
      (λ h. ground (arith, h mac_lan, h mac_remote, h hosted, h on_device), λ h m. ground arith)

  -- The probe of the router says that it is capable exactly when a selection succeeds.
  pub can_handle_iff-select :
      (r : InferenceRouter V) (req : InferenceRequest V)
      → ((can_handle r req).capable ≡ true) ↔ (is_ok (select r req) ≡ true)
  unfolding can_handle select
  can_handle_iff-select r req = ground arith
