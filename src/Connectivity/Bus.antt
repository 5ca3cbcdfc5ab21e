-- ===== src/Connectivity/Bus.antt =====
-- crates/mahi-connectivity/src/bus.rs: `LocalBus`. The two queues behind the senders are lists,
-- first in first out, and `published` is what the router has fanned out so far, in its order; the
-- subscribers of the crate `tokio` are not modelled. A sender waits while its queue is full.
pub mod Draining
pub mod Fifo
use mahi_ai.Prelude.{
  ℕ, zero, suc, Bool, true, false, Option, none, some, List, [], ◌∷◌, ◌++◌, length, ltb,
  if◌then◌else◌,
}
use mahi_ai.Contracts.Errors.{ChannelId, ConnectivityError}
use mahi_ai.Contracts.Result.{Result, ok, err, ◌>>=◌}
use mahi_ai.Connectivity.Session.{MultiplexedEnvelope}

-- `closed` says that the senders are gone (`queues` is `None`).
pub record LocalBus : Type 0 where
  pub closed : Bool
  pub control_queue : List MultiplexedEnvelope
  pub normal_queue : List MultiplexedEnvelope
  pub published : List MultiplexedEnvelope

-- The sender of one of the two queues.
pub data Sender : Type 0 where
  control_tx normal_tx : Sender

abbrev pub new_bus : LocalBus
new_bus = record { closed = false; control_queue = []; normal_queue = []; published = [] }

-- `SendQueues::for_channel`
abbrev pub for_channel : ChannelId → Sender
for_channel ChannelId.control = Sender.control_tx
for_channel _ = Sender.normal_tx

unfoldable pub pick_sender : LocalBus → ChannelId → Result ConnectivityError Sender
pick_sender bus channel =
    if bus.closed then err (ConnectivityError.channel_closed channel) else ok (for_channel channel)

-- A queue with one more envelope, and none where it is full.
abbrev pub queued :
    ℕ → List MultiplexedEnvelope → MultiplexedEnvelope → Option (List MultiplexedEnvelope)
queued depth queue envelope =
    if ltb (length queue) depth then some (queue ++ envelope ∷ []) else none

abbrev pub enqueue : ℕ → MultiplexedEnvelope → LocalBus → Sender → Option LocalBus
enqueue depth envelope bus Sender.control_tx = elim (queued depth bus.control_queue envelope) [
  | none ↦ none
  | some queue ↦ some (record bus { control_queue = queue })
]
enqueue depth envelope bus Sender.normal_tx = elim (queued depth bus.normal_queue envelope) [
  | none ↦ none
  | some queue ↦ some (record bus { normal_queue = queue })
]

-- `MultiplexedBus::send`; none while the sender waits for room in its queue.
unfoldable pub send_on :
    ℕ → MultiplexedEnvelope → LocalBus → Result ConnectivityError (Option LocalBus)
send_on depth envelope bus =
    pick_sender bus envelope.channel >>= λ tx. ok (enqueue depth envelope bus tx)

unfoldable pub close : LocalBus → LocalBus
close bus = record bus { closed = true }

unfoldable pub is_closed : LocalBus → Bool
is_closed bus = bus.closed

-- One turn of the biased `select!`: the control queue first, then the other; none where both are
-- empty, when the loop waits on an open bus and ends on a closed one.
abbrev pub next_turn :
    Bool → (control normal published : List MultiplexedEnvelope) → Option LocalBus
next_turn closed (envelope ∷ control) normal published = some (record {
  closed = closed;
  control_queue = control;
  normal_queue = normal;
  published = published ++ envelope ∷ [];
})
next_turn closed [] (envelope ∷ normal) published = some (record {
  closed = closed;
  control_queue = [];
  normal_queue = normal;
  published = published ++ envelope ∷ [];
})
next_turn closed [] [] published = none

unfoldable pub turn_bus : LocalBus → Option LocalBus
turn_bus bus = next_turn bus.closed bus.control_queue bus.normal_queue bus.published

-- The loop of `dispatch` without a send in between.
unfoldable pub dispatch_queued : ℕ → LocalBus → LocalBus
dispatch_queued zero bus = bus
dispatch_queued (suc fuel) bus = elim (turn_bus bus) [
  | none ↦ bus
  | some next ↦ dispatch_queued fuel next
]
