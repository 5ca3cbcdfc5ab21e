-- ===== src/Router/Streaming.antt =====
-- What `InferenceRouter::generate` streams and records, and what `descriptor` reports afterwards.
use mahi_ai.Prelude.{
  suc, Option-cases, inl, inr, ◌≡◌, refl, ap, some, [], ◌∷◌, map, arith, All, length,
}
use mahi_ai.Contracts.Types.{ComputeMode, mode_eq}
use mahi_ai.Contracts.Errors.{ContractError}
use mahi_ai.Contracts.Result.{Result, ok, err}
use mahi_ai.Contracts.Inference.{
  InferenceChunk, InferenceStream, InferenceRequest, InferenceProvider,
}
use mahi_ai.Router.{
  InferenceRouter, select, generate, generate_selected, stamp, active_provider, descriptor,
}
use mahi_ai.Router.Selection.{select_sound}

-- An item of the stream is an error, or a chunk that carries the mode.
abbrev pub Carries : ComputeMode → Result ContractError InferenceChunk → Type 0
Carries m (ok chunk) = chunk.active_mode ≡ m
Carries m (err e) = Unit

map-stamp-All : (m : ComputeMode) (s : InferenceStream) → All (Carries m) (map (stamp m) s)
map-stamp-All m [] = tt
map-stamp-All m (ok c ∷ s) = (refl, map-stamp-All m s)
map-stamp-All m (err e ∷ s) = (tt, map-stamp-All m s)

length-map-stamp : (m : ComputeMode) (s : InferenceStream) → length (map (stamp m) s) ≡ length s
length-map-stamp m [] = refl
length-map-stamp m (x ∷ s) = ap suc (length-map-stamp m s)

module _ {V : Type 0} (r : InferenceRouter V) (req : InferenceRequest V) where
  generate-eq :
      {m : ComputeMode} {p : InferenceProvider V}
      → select r req ≡ ok (m, p)
      → generate r req ≡ generate_selected r req (ok (m, p))
  unfolding generate
  generate-eq h = rw h

  -- After a request was routed, whether or not the provider's own `generate` failed, `descriptor`
  -- is that of the provider that was selected.
  pub descriptor-generate :
      {m : ComputeMode} {p : InferenceProvider V}
      → select r req ≡ ok (m, p)
      → descriptor (generate r req).0 ≡ p.descriptor
  unfolding generate_selected descriptor
  descriptor-generate {m} {p} h = rw (generate-eq h) (elim (Option-cases r.pin) [
    | inl unpinned ↦ ground (arith, (select_sound r req h).0)
    | inr (q, pinned) ↦ ground (arith, (select_sound r req h).0, (select_sound r req h).2 q pinned)
  ])

  -- After a request was routed, the provider that was selected is the active one.
  active_provider-generate :
      {m : ComputeMode} {p : InferenceProvider V}
      → select r req ≡ ok (m, p)
      → active_provider (generate r req).0 ≡ some p
  unfolding generate_selected active_provider
  active_provider-generate {m} {p} h = rw (generate-eq h) (elim (Option-cases r.pin) [
    | inl unpinned ↦ ground (arith, (select_sound r req h).0)
    | inr (q, pinned) ↦ ground (arith, (select_sound r req h).0, (select_sound r req h).2 q pinned)
  ])

  -- Once a provider is selected and starts a stream, the router streams as many items as the
  -- provider did, every chunk of them carries the selected mode whatever the provider stamped, and after the call the router's active provider is the selected one.
  pub generate-Carries :
      {m : ComputeMode} {p : InferenceProvider V} {inner : InferenceStream}
      → select r req ≡ ok (m, p)
      → p.generate req ≡ ok inner
      → (s : InferenceStream) × ((generate r req).1 ≡ ok s)
        × All (Carries m) s
        × (length s ≡ length inner)
        × (active_provider (generate r req).0 ≡ some p)
  unfolding generate_selected
  generate-Carries {m} {p} {inner} h g = (
    map (stamp m) inner,
    rw (generate-eq h) (rw g),
    map-stamp-All m inner,
    length-map-stamp m inner,
    active_provider-generate h,
  )
