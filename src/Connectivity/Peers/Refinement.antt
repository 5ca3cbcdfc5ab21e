-- ===== src/Connectivity/Peers/Refinement.antt =====
-- The registry of crates/mahi-connectivity/src/peers.rs as a partial map of descriptors by their ids.
use mahi_ai.Prelude.{
  ℕ, ◌≡◌, refl, sym, ap, ◌∙◌, Bool, true, false, Option, none, some, List, [], ◌∷◌, ◌==◌,
  if◌then◌else◌, nat_eq,
}
use mahi_ai.Dict.{lookup, insert, lookup-insert, lookup-remove}
use mahi_ai.Contracts.Types.{Uuid, Timestamp}
use mahi_ai.Connectivity.Peers.{
  Reachability, PeerDescriptor, PeerRegistry, upsert, get, remove_peer, change, seen, measured,
  loaded, mark_seen, record_latency, record_load_hint,
}

-- The calls that change the registry.
pub data Op : Type 0 where
  upserted : PeerDescriptor → Op
  removed : Uuid → Op
  marked : Uuid → Timestamp → Reachability → Op
  timed : Uuid → ℕ → Op
  hinted : Uuid → ℕ → Op

-- `Option::map`
abbrev pub updated :
    (PeerDescriptor → PeerDescriptor) → Option PeerDescriptor → Option PeerDescriptor
updated f none = none
updated f (some peer) = some (f peer)

-- What a change of the peer `j` leaves of the peer `id` in a plain map.
abbrev pub changed :
    Uuid → (PeerDescriptor → PeerDescriptor) → Uuid → Option PeerDescriptor → Option PeerDescriptor
changed j f id old = if j == id then updated f old else old

module _ (clamp : ℕ → ℕ) where
  unfoldable pub apply_call : Op → PeerRegistry → PeerRegistry
  apply_call (Op.upserted descriptor) registry = upsert descriptor registry
  apply_call (Op.removed j) registry = (remove_peer j registry).1
  apply_call (Op.marked j now level) registry = mark_seen j now level registry
  apply_call (Op.timed j latency) registry = record_latency j latency registry
  apply_call (Op.hinted j load) registry = record_load_hint clamp j load registry

  unfoldable pub apply_calls : List Op → PeerRegistry → PeerRegistry
  apply_calls [] registry = registry
  apply_calls (op ∷ ops) registry = apply_calls ops (apply_call op registry)

  unfoldable pub meaning : Op → Uuid → Option PeerDescriptor → Option PeerDescriptor
  meaning (Op.upserted descriptor) id old =
      if descriptor.peer_id == id then some descriptor else old
  meaning (Op.removed j) id old = if j == id then none else old
  meaning (Op.marked j now level) id old =
      changed j (λ peer. record peer { last_seen = now; reachability = level }) id old
  meaning (Op.timed j latency) id old =
      changed j (λ peer. record peer { latency_ms = some latency }) id old
  meaning (Op.hinted j load) id old =
      changed j (λ peer. record peer { load_hint = some (clamp load) }) id old

  unfoldable pub meaning_all : List Op → Uuid → Option PeerDescriptor → Option PeerDescriptor
  meaning_all [] id old = old
  meaning_all (op ∷ ops) id old = meaning_all ops id (meaning op id old)

module _ (f : PeerDescriptor → PeerDescriptor) where
  absent :
      (b : Bool) (o : Option PeerDescriptor)
      → (b ≡ true → o ≡ none)
      → o ≡ (if b then updated f o else o)
  absent false o h = refl
  absent true o h = rw (h refl) refl

  present :
      (b : Bool) (o : Option PeerDescriptor) (peer : PeerDescriptor)
      → (b ≡ true → o ≡ some peer)
      → (if b then some (f peer) else o) ≡ (if b then updated f o else o)
  present false o peer h = refl
  present true o peer h = rw (h refl) refl

get-change :
    (j id : Uuid) (f : PeerDescriptor → PeerDescriptor) (registry : PeerRegistry)
    → get id (change j f registry) ≡ changed j f id (get id registry)
unfolding get change
get-change j id f registry = go (lookup j registry.peers) refl
  where
    moved :
        {o : Option PeerDescriptor}
        → lookup j registry.peers ≡ o
        → (j == id) ≡ true
        → lookup id registry.peers ≡ o
    moved h same = ap (λ k. lookup k registry.peers) (sym ((nat_eq.same_iff j id).0 same)) ∙ h

    go :
        (o : Option PeerDescriptor)
        → lookup j registry.peers ≡ o
        → lookup id
            (elim o as (λ _. PeerRegistry) [
              | none ↦ registry
              | some peer ↦ record { peers = insert j (f peer) registry.peers }
            ]).peers
          ≡ changed j f id (lookup id registry.peers)
    go none h = absent f (j == id) (lookup id registry.peers) (moved h)
    go (some peer) h =
        lookup-insert j id (f peer) registry.peers
        ∙ present f (j == id) (lookup id registry.peers) peer (moved h)

stored :
    (descriptor : PeerDescriptor) (registry : PeerRegistry) (id : Uuid)
    → get id (upsert descriptor registry)
      ≡ (if descriptor.peer_id == id then some descriptor else get id registry)
unfolding get upsert
stored descriptor registry id = lookup-insert descriptor.peer_id id descriptor registry.peers

dropped :
    (j : Uuid) (registry : PeerRegistry) (id : Uuid)
    → get id (remove_peer j registry).1 ≡ (if j == id then none else get id registry)
unfolding get remove_peer
dropped j registry id = lookup-remove j id registry.peers

get-apply_call :
    (clamp : ℕ → ℕ) (op : Op) (registry : PeerRegistry) (id : Uuid)
    → get id (apply_call clamp op registry) ≡ meaning clamp op id (get id registry)
unfolding apply_call meaning mark_seen record_latency record_load_hint
get-apply_call clamp (Op.upserted descriptor) registry id = stored descriptor registry id
get-apply_call clamp (Op.removed j) registry id = dropped j registry id
get-apply_call clamp (Op.marked j now level) registry id = get-change j id (seen now level) registry
get-apply_call clamp (Op.timed j latency) registry id = get-change j id (measured latency) registry
get-apply_call clamp (Op.hinted j load) registry id = get-change j id (loaded (clamp load)) registry

-- After any calls on any registry, `get` gives what the same calls leave in a plain map from ids to
-- descriptors: the last descriptor upserted for the id and not removed since, with the later marks,
-- latencies and clamped load hints of that id, and no others, written into it.
pub get-apply_calls :
    (clamp : ℕ → ℕ) (ops : List Op) (registry : PeerRegistry) (id : Uuid)
    → get id (apply_calls clamp ops registry) ≡ meaning_all clamp ops id (get id registry)
unfolding apply_calls meaning_all
get-apply_calls clamp [] registry id = refl
get-apply_calls clamp (op ∷ ops) registry id =
    get-apply_calls clamp ops (apply_call clamp op registry) id
    ∙ ap (meaning_all clamp ops id) (get-apply_call clamp op registry id)
