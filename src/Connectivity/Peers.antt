-- ===== src/Connectivity/Peers.antt =====
-- crates/mahi-connectivity/src/peers.rs: the registry of known peers. The map behind its lock is the
-- field `peers`; the time of `Utc::now()` is an argument. An `f32` is its bit pattern, and
-- `f32::clamp` to `0.0..=1.0` is an argument.
pub mod Refinement
use mahi_ai.Prelude.{
  ℕ, Bool, Option, none, some, List, [], ◌∷◌, map, length, is_empty, Text, nat_eq,
}
use mahi_ai.Dict.{Dict, lookup, insert, remove}
use mahi_ai.Contracts.Types.{Uuid, Timestamp}

pub data PeerTransport : Type 0 where
  mdns quic_direct relay tcp : PeerTransport

pub record PeerAddress : Type 0 where
  pub transport : PeerTransport
  pub addr : Text

pub data Reachability : Type 0 where
  unknown reachable unreachable : Reachability

pub record PeerDescriptor : Type 0 where
  pub peer_id : Uuid
  pub display_name : Text
  pub public_key : List ℕ
  pub addresses : List PeerAddress
  pub reachability : Reachability
  pub last_seen : Timestamp
  pub latency_ms : Option ℕ
  pub load_hint : Option ℕ

pub record PeerRegistrySnapshot : Type 0 where
  pub taken_at : Timestamp
  pub peers : List PeerDescriptor

pub record PeerRegistry : Type 0 where
  pub peers : Dict Uuid PeerDescriptor

-- `PeerDescriptor::new`
abbrev pub new_descriptor : Uuid → Text → List ℕ → Timestamp → PeerDescriptor
new_descriptor id name key now = record {
  peer_id = id;
  display_name = name;
  public_key = key;
  addresses = [];
  reachability = Reachability.unknown;
  last_seen = now;
  latency_ms = none;
  load_hint = none;
}

-- `PeerRegistry::new`
abbrev pub new_registry : PeerRegistry
new_registry = record { peers = [] }

unfoldable pub upsert : PeerDescriptor → PeerRegistry → PeerRegistry
upsert descriptor registry = record { peers = insert descriptor.peer_id descriptor registry.peers }

unfoldable pub get : Uuid → PeerRegistry → Option PeerDescriptor
get id registry = lookup id registry.peers

-- The removed descriptor, and the registry without it.
unfoldable pub remove_peer : Uuid → PeerRegistry → Option PeerDescriptor × PeerRegistry
remove_peer id registry = (lookup id registry.peers, record { peers = remove id registry.peers })

-- `if let Some(peer) = peers.get_mut(&peer_id)`
unfoldable pub change : Uuid → (PeerDescriptor → PeerDescriptor) → PeerRegistry → PeerRegistry
change id f registry = elim (lookup id registry.peers) [
  | none ↦ registry
  | some peer ↦ record { peers = insert id (f peer) registry.peers }
]

abbrev pub seen : Timestamp → Reachability → PeerDescriptor → PeerDescriptor
seen now level peer = record peer { last_seen = now; reachability = level }

abbrev pub measured : ℕ → PeerDescriptor → PeerDescriptor
measured latency peer = record peer { latency_ms = some latency }

abbrev pub loaded : ℕ → PeerDescriptor → PeerDescriptor
loaded load peer = record peer { load_hint = some load }

unfoldable pub mark_seen : Uuid → Timestamp → Reachability → PeerRegistry → PeerRegistry
mark_seen id now level = change id (seen now level)

unfoldable pub record_latency : Uuid → ℕ → PeerRegistry → PeerRegistry
record_latency id latency = change id (measured latency)

unfoldable pub record_load_hint : (ℕ → ℕ) → Uuid → ℕ → PeerRegistry → PeerRegistry
record_load_hint clamp id load = change id (loaded (clamp load))

abbrev descriptor_of : Uuid × PeerDescriptor → PeerDescriptor
descriptor_of (id, peer) = peer

-- The order of `HashMap::values` is not specified; here it is the order of the association list.
unfoldable pub snapshot : Timestamp → PeerRegistry → PeerRegistrySnapshot
snapshot now registry = record { taken_at = now; peers = map descriptor_of registry.peers }

unfoldable pub len : PeerRegistry → ℕ
len registry = length registry.peers

unfoldable pub has_none : PeerRegistry → Bool
has_none registry = is_empty registry.peers
