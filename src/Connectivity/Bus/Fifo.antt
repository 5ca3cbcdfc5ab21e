-- ===== src/Connectivity/Bus/Fifo.antt =====
-- The order in which the bus of crates/mahi-connectivity/src/bus.rs publishes what was sent, when
-- sends, turns of the dispatcher and the closing of the bus come in any order.
use mahi_ai.Prelude.{
  ℕ, ◌≡◌, refl, sym, ap, ◌∙◌, Bool, true, false, not, Option, none, some, List, [], ◌∷◌, ◌++◌,
  append_assoc, append-nil, keep, arith, All, All-append, length, ltb, if◌then◌else◌,
}
use mathlib.Core.Path.{subst}
use mahi_ai.Contracts.Errors.{ChannelId, ConnectivityError}
use mahi_ai.Contracts.Result.{ok, err, ◌>>=◌}
use mahi_ai.Connectivity.Session.{MultiplexedEnvelope}
use mahi_ai.Connectivity.Bus.{
  LocalBus, Sender, new_bus, for_channel, pick_sender, queued, enqueue, send_on, close, next_turn,
  turn_bus,
}

-- The envelopes that were accepted, in their order, and the bus that they and the turns of the
-- dispatcher lead to. A send that waited for room picked its sender from an earlier state of the bus.
pub data Runs (depth : ℕ) : List MultiplexedEnvelope → LocalBus → Type 0 where
  started : Runs depth [] new_bus
  accepted :
      {es : List MultiplexedEnvelope} {bus next : LocalBus} (envelope : MultiplexedEnvelope)
      → Runs depth es bus
      → send_on depth envelope bus ≡ ok (some next)
      → Runs depth (es ++ envelope ∷ []) next
  accepted_late :
      {es : List MultiplexedEnvelope} {bus next : LocalBus} (earlier : LocalBus) (tx : Sender)
      (envelope : MultiplexedEnvelope)
      → Runs depth es bus
      → pick_sender earlier envelope.channel ≡ ok tx
      → enqueue depth envelope bus tx ≡ some next
      → Runs depth (es ++ envelope ∷ []) next
  turned :
      {es : List MultiplexedEnvelope} {bus next : LocalBus}
      → Runs depth es bus
      → turn_bus bus ≡ some next
      → Runs depth es next
  ended :
      {es : List MultiplexedEnvelope} {bus : LocalBus}
      → Runs depth es bus
      → Runs depth es (close bus)

abbrev is_control_tx : Sender → Bool
is_control_tx Sender.control_tx = true
is_control_tx Sender.normal_tx = false

-- An envelope is a control one if it goes over the control channel.
abbrev pub on_control : MultiplexedEnvelope → Bool
on_control envelope = elim envelope.channel [ ChannelId.control ↦ true | _ ↦ false ]

for_channel-on_control :
    (envelope : MultiplexedEnvelope)
    → is_control_tx (for_channel envelope.channel) ≡ on_control envelope
for_channel-on_control envelope = ground arith

abbrev pub on_normal : MultiplexedEnvelope → Bool
on_normal envelope = not (on_control envelope)

-- What was published of a kind, followed by its queue, is what was accepted of that kind.
abbrev pub IsFifo :
    List MultiplexedEnvelope → (control normal published : List MultiplexedEnvelope) → Type 0
IsFifo es control normal published =
    (keep on_control published ++ control ≡ keep on_control es)
    × (keep on_normal published ++ normal ≡ keep on_normal es)
    × All (λ e. on_control e ≡ true) control
    × All (λ e. on_control e ≡ false) normal

front :
    (b : Bool) (y : MultiplexedEnvelope) (whole xs ys : List MultiplexedEnvelope)
    → whole ≡ xs ++ ys
    → (if b then y ∷ whole else whole) ≡ (if b then y ∷ xs else xs) ++ ys
front true y whole xs ys h = ap (λ zs. y ∷ zs) h
front false y whole xs ys h = h

keep-append :
    (p : MultiplexedEnvelope → Bool) (xs ys : List MultiplexedEnvelope)
    → keep p (xs ++ ys) ≡ keep p xs ++ keep p ys
keep-append p [] ys = refl
keep-append p (x ∷ xs) ys =
    front (p x) x (keep p (xs ++ ys)) (keep p xs) (keep p ys) (keep-append p xs ys)

module _ (p : MultiplexedEnvelope → Bool) (x : MultiplexedEnvelope) where
  kept : (xs : List MultiplexedEnvelope) → p x ≡ true → keep p (xs ++ x ∷ []) ≡ keep p xs ++ x ∷ []
  kept xs h = keep-append p xs (x ∷ []) ∙ ap (λ b. keep p xs ++ (if b then x ∷ [] else [])) h

  skipped : (xs : List MultiplexedEnvelope) → p x ≡ false → keep p (xs ++ x ∷ []) ≡ keep p xs
  skipped xs h =
      keep-append p xs (x ∷ [])
      ∙ ap (λ b. keep p xs ++ (if b then x ∷ [] else [])) h
      ∙ append-nil (keep p xs)

  -- A send of the kind: the queue and the accepted ones grow alike.
  grows :
      (es queue published : List MultiplexedEnvelope)
      → p x ≡ true
      → keep p published ++ queue ≡ keep p es
      → keep p published ++ (queue ++ x ∷ []) ≡ keep p (es ++ x ∷ [])
  grows es queue published h fifo =
      sym (append_assoc (keep p published) queue (x ∷ []))
      ∙ ap (λ zs. zs ++ x ∷ []) fifo
      ∙ sym (kept es h)

  -- A turn of the kind: the head of the queue becomes the last one published.
  moves :
      (es queue published : List MultiplexedEnvelope)
      → p x ≡ true
      → keep p published ++ x ∷ queue ≡ keep p es
      → keep p (published ++ x ∷ []) ++ queue ≡ keep p es
  moves es queue published h fifo =
      ap (λ zs. zs ++ queue) (kept published h)
      ∙ append_assoc (keep p published) (x ∷ []) queue
      ∙ fifo

-- A queue that took an envelope has it last.
queued_ok :
    (depth : ℕ) (queue : List MultiplexedEnvelope) (x : MultiplexedEnvelope)
    (grown : List MultiplexedEnvelope)
    → queued depth queue x ≡ some grown
    → queue ++ x ∷ [] ≡ grown
queued_ok depth queue x grown h = go (ltb (length queue) depth) h
  where
    go :
        (b : Bool)
        → (if b then some (queue ++ x ∷ []) else none) ≡ some grown
        → queue ++ x ∷ [] ≡ grown
    go true h = cc h
    go false h = absurd (cc h)

abbrev FifoBus : List MultiplexedEnvelope → LocalBus → Type 0
FifoBus es bus = IsFifo es bus.control_queue bus.normal_queue bus.published

same_bus : {a b : LocalBus} → some a ≡ some b → a ≡ b
same_bus h = cc h

next_turn-IsFifo :
    (es : List MultiplexedEnvelope) (closed : Bool)
    (control normal published : List MultiplexedEnvelope) (next : LocalBus)
    → IsFifo es control normal published
    → next_turn closed control normal published ≡ some next
    → FifoBus es next
next_turn-IsFifo es closed [] [] published next fifo h = absurd (cc h)
next_turn-IsFifo es closed (x ∷ control) normal published next (c, n, cs, ns) h =
    subst (FifoBus es) (same_bus h) (
      moves on_control x es control published cs.0 c,
      ap (λ zs. zs ++ normal) (skipped on_normal x published (ap not cs.0)) ∙ n,
      cs.1,
      ns,
    )
next_turn-IsFifo es closed [] (x ∷ normal) published next (c, n, cs, ns) h =
    subst (FifoBus es) (same_bus h) (
      ap (λ zs. zs ++ []) (skipped on_control x published ns.0) ∙ c,
      moves on_normal x es normal published (ap not ns.0) n,
      cs,
      ns.1,
    )

-- An envelope that a queue took.
enqueue-IsFifo :
    (depth : ℕ) (es : List MultiplexedEnvelope) (x : MultiplexedEnvelope) (bus next : LocalBus)
    (tx : Sender)
    → is_control_tx tx ≡ on_control x
    → FifoBus es bus
    → enqueue depth x bus tx ≡ some next
    → FifoBus (es ++ x ∷ []) next
enqueue-IsFifo depth es x bus next Sender.control_tx kind (c, n, cs, ns) h =
    go (queued depth bus.control_queue x) (queued_ok depth bus.control_queue x) h
  where
    go :
        (o : Option (List MultiplexedEnvelope))
        → ((grown : List MultiplexedEnvelope)
            → o ≡ some grown
            → bus.control_queue ++ x ∷ [] ≡ grown)
        → (elim o as (λ _. Option LocalBus) [
          | none ↦ none
          | some queue ↦ some (record bus { control_queue = queue })
        ])
          ≡ some next
        → FifoBus (es ++ x ∷ []) next
    go none took h = absurd (cc h)
    go (some queue) took h =
        subst (FifoBus (es ++ x ∷ []))
          (ap (λ q. record bus { control_queue = q }) (took queue refl) ∙ same_bus h)
          (
            grows on_control x es bus.control_queue bus.published (sym kind) c,
            n ∙ sym (skipped on_normal x es (ap not (sym kind))),
            All-append (λ e. on_control e ≡ true) bus.control_queue (x ∷ []) cs (sym kind, tt),
            ns,
          )
enqueue-IsFifo depth es x bus next Sender.normal_tx kind (c, n, cs, ns) h =
    go (queued depth bus.normal_queue x) (queued_ok depth bus.normal_queue x) h
  where
    go :
        (o : Option (List MultiplexedEnvelope))
        → ((grown : List MultiplexedEnvelope) → o ≡ some grown → bus.normal_queue ++ x ∷ [] ≡ grown)
        → (elim o as (λ _. Option LocalBus) [
          | none ↦ none
          | some queue ↦ some (record bus { normal_queue = queue })
        ])
          ≡ some next
        → FifoBus (es ++ x ∷ []) next
    go none took h = absurd (cc h)
    go (some queue) took h =
        subst (FifoBus (es ++ x ∷ []))
          (ap (λ q. record bus { normal_queue = q }) (took queue refl) ∙ same_bus h)
          (
            c ∙ sym (skipped on_control x es (sym kind)),
            grows on_normal x es bus.normal_queue bus.published (ap not (sym kind)) n,
            cs,
            All-append (λ e. on_control e ≡ false) bus.normal_queue (x ∷ []) ns (sym kind, tt),
          )

send_on_ok :
    (depth : ℕ) (x : MultiplexedEnvelope) (bus next : LocalBus)
    → send_on depth x bus ≡ ok (some next)
    → enqueue depth x bus (for_channel x.channel) ≡ some next
unfolding send_on pick_sender
send_on_ok depth x bus next h = go bus.closed h
  where
    go :
        (b : Bool)
        → ((if b
              then err (ConnectivityError.channel_closed x.channel)
              else ok (for_channel x.channel))
            >>= λ tx. ok (enqueue depth x bus tx))
          ≡ ok (some next)
        → enqueue depth x bus (for_channel x.channel) ≡ some next
    go true h = absurd (cc h)
    go false h = cc h

picked :
    (channel : ChannelId) (bus : LocalBus) (tx : Sender)
    → pick_sender bus channel ≡ ok tx
    → for_channel channel ≡ tx
unfolding pick_sender
picked channel bus tx h = go bus.closed h
  where
    go :
        (b : Bool)
        → (if b then err (ConnectivityError.channel_closed channel) else ok (for_channel channel))
          ≡ ok tx
        → for_channel channel ≡ tx
    go true h = absurd (cc h)
    go false h = cc h

-- However sends, turns of the dispatcher and the closing of the bus follow each other, the control
-- envelopes published so far, followed by the control queue, are the accepted control envelopes in
-- their order, and so for the other envelopes and the other queue; each queue holds envelopes of
-- its own kind only.
pub Runs-IsFifo :
    (depth : ℕ) (es : List MultiplexedEnvelope) (bus : LocalBus)
    → Runs depth es bus
    → IsFifo es bus.control_queue bus.normal_queue bus.published
unfolding turn_bus close
Runs-IsFifo depth es bus Runs.started = (refl, refl, tt, tt)
Runs-IsFifo depth es bus (Runs.accepted {es = old} {bus = before} x runs h) =
    enqueue-IsFifo depth old x before bus (for_channel x.channel) (for_channel-on_control x)
      (Runs-IsFifo depth old before runs) (send_on_ok depth x before bus h)
Runs-IsFifo depth es bus (Runs.accepted_late {es = old} {bus = before} earlier tx x runs h took) =
    enqueue-IsFifo depth old x before bus tx
      (ap is_control_tx (sym (picked x.channel earlier tx h)) ∙ for_channel-on_control x)
      (Runs-IsFifo depth old before runs) took
Runs-IsFifo depth es bus (Runs.turned {bus = before} runs h) =
    next_turn-IsFifo es before.closed before.control_queue before.normal_queue before.published bus
      (Runs-IsFifo depth es before runs) h
Runs-IsFifo depth es bus (Runs.ended {bus = before} runs) = Runs-IsFifo depth es before runs
