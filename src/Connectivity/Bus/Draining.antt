-- ===== src/Connectivity/Bus/Draining.antt =====
-- How the loop of crates/mahi-connectivity/src/bus.rs empties the queues.
use mahi_ai.Prelude.{
  ℕ, zero, suc, ◌+◌, ◌≤◌, ◌≡◌, sym, ap, ◌∙◌, Bool, List, [], ◌∷◌, ◌++◌, append_assoc, append-nil,
  length, arith,
}
use mahi_ai.Connectivity.Session.{MultiplexedEnvelope}
use mahi_ai.Connectivity.Bus.{LocalBus, turn_bus, dispatch_queued}

-- A bus by its fields.
abbrev bus_with : Bool → (control normal published : List MultiplexedEnvelope) → LocalBus
bus_with closed control normal published = record {
  closed = closed;
  control_queue = control;
  normal_queue = normal;
  published = published;
}

drains :
    (fuel : ℕ) (closed : Bool) (control normal published : List MultiplexedEnvelope)
    → length control + length normal ≤ fuel
    → dispatch_queued fuel (bus_with closed control normal published)
      ≡ bus_with closed [] [] (published ++ (control ++ normal))
unfolding dispatch_queued turn_bus
drains zero closed [] [] published h = ap (bus_with closed [] []) (sym (append-nil published))
drains zero closed [] (x ∷ normal) published h = absurd (omega arith)
drains zero closed (x ∷ control) normal published h = absurd (omega arith)
drains (suc fuel) closed [] [] published h = ap (bus_with closed [] []) (sym (append-nil published))
drains (suc fuel) closed [] (x ∷ normal) published h =
    drains fuel closed [] normal (published ++ x ∷ []) (omega arith)
    ∙ ap (bus_with closed [] []) (append_assoc published (x ∷ []) normal)
drains (suc fuel) closed (x ∷ control) normal published h =
    drains fuel closed control normal (published ++ x ∷ []) (omega arith)
    ∙ ap (bus_with closed [] []) (append_assoc published (x ∷ []) (control ++ normal))

-- With a turn for each queued envelope, a loop that no send interrupts ends with both queues empty,
-- and has published every queued envelope once: the control envelopes first, then the others, each
-- in the order of their queue. The bus stays open or closed as it was.
pub dispatch_queued-drains :
    (bus : LocalBus) (fuel : ℕ)
    → length bus.control_queue + length bus.normal_queue ≤ fuel
    → dispatch_queued fuel bus ≡ record {
      closed = bus.closed;
      control_queue = [];
      normal_queue = [];
      published = bus.published ++ (bus.control_queue ++ bus.normal_queue);
    }
dispatch_queued-drains bus fuel h =
    drains fuel bus.closed bus.control_queue bus.normal_queue bus.published h
