-- ===== src/Connectivity/Examples/Wire.antt =====
-- Two envelopes on one TCP connection, and a peer that is seen.
use mahi_ai.Connectivity.Bus.Fifo.{Runs, IsFifo, Runs-IsFifo}
use mahi_ai.Prelude.{true, false, arith}
use mahi_ai.Contracts.Errors.{ConnectivityError}
use mahi_ai.Connectivity.Bus.Draining.{dispatch_queued-drains}
use mahi_ai.Connectivity.Bus.{LocalBus, new_bus, send_on, pick_sender, turn_bus, dispatch_queued}
use mahi_ai.Dict.{lookup, insert}
use mahi_ai.Prelude.{
  ℕ, ◌≡◌, refl, sym, ap, ◌∙◌, Option, none, some, List, [], ◌∷◌, ◌++◌, length, take, Text, text,
}
use mahi_ai.Contracts.Errors.{ChannelId}
use mahi_ai.Contracts.Result.{Result, ok, err, ◌>>=◌}
use mahi_ai.Connectivity.Session.{MultiplexedEnvelope}
use mahi_ai.Connectivity.Peers.{
  Reachability, PeerDescriptor, new_descriptor, new_registry, upsert, get, change, mark_seen,
  record_latency, record_load_hint,
}
use mahi_ai.Connectivity.Peers.Refinement.{
  Op, apply_call, apply_calls, meaning_all, get-apply_calls,
}
use mahi_ai.Connectivity.Transport.{
  ErrorKind, IoError, Writer, Serde, drop, io_error, too_long_in, to_be_bytes, write_all,
  read_exact, write_bytes, read_body, write_frame, read_frame, write_frames, read_frames,
}
use mahi_ai.Connectivity.Transport.Framing.{
  IsCodec, new_writer, take-append, drop-append, read_frames-write_frames,
}

abbrev channel_byte : ChannelId → ℕ
channel_byte ChannelId.control = 0
channel_byte ChannelId.inference = 1
channel_byte ChannelId.sync = 2
channel_byte ChannelId.approval = 3
channel_byte ChannelId.stream_video = 4
channel_byte ChannelId.input = 5
channel_byte ChannelId.file_xfr = 6
channel_byte ChannelId.audio = 7

abbrev channels : List ChannelId
channels =
    ChannelId.control ∷ ChannelId.inference ∷ ChannelId.sync ∷ ChannelId.approval
    ∷ ChannelId.stream_video ∷ ChannelId.input ∷ ChannelId.file_xfr ∷ ChannelId.audio ∷ []

abbrev first_channel : List ChannelId → ChannelId
first_channel [] = ChannelId.control
first_channel (channel ∷ rest) = channel

abbrev channel_of : ℕ → ChannelId
channel_of n = first_channel (drop n channels)

channel_of-channel_byte : (channel : ChannelId) → channel_of (channel_byte channel) ≡ channel
channel_of-channel_byte ChannelId.control = refl
channel_of-channel_byte ChannelId.inference = refl
channel_of-channel_byte ChannelId.sync = refl
channel_of-channel_byte ChannelId.approval = refl
channel_of-channel_byte ChannelId.stream_video = refl
channel_of-channel_byte ChannelId.input = refl
channel_of-channel_byte ChannelId.file_xfr = refl
channel_of-channel_byte ChannelId.audio = refl

abbrev encoded : MultiplexedEnvelope → List ℕ
encoded e =
    channel_byte e.channel
    ∷ e.seq_no
    ∷ e.session_id
    ∷ length e.payload_type
    ∷ (e.payload_type ++ e.payload_bytes)

abbrev decoded : List ℕ → Result Text MultiplexedEnvelope
decoded (c ∷ n ∷ id ∷ long ∷ rest) = ok (record {
  channel = channel_of c;
  seq_no = n;
  session_id = id;
  payload_type = take long rest;
  payload_bytes = drop long rest;
})
decoded _ = err (text "cut short")

abbrev serde : Serde
serde = record { to_vec = λ e. ok (encoded e); from_slice = decoded }

serde-IsCodec : IsCodec serde
serde-IsCodec e bytes h =
    let same : encoded e ≡ bytes = cc h in
    ap decoded (sym same) ∙ (λ i. ok (record {
      channel = channel_of-channel_byte e.channel i;
      seq_no = e.seq_no;
      session_id = e.session_id;
      payload_type = take-append e.payload_type e.payload_bytes i;
      payload_bytes = drop-append e.payload_type e.payload_bytes i;
    }))

abbrev token : MultiplexedEnvelope
token = record {
  channel = ChannelId.inference;
  seq_no = 1;
  session_id = 9;
  payload_type = text "Tok";
  payload_bytes = 5 ∷ [];
}

abbrev stop : MultiplexedEnvelope
stop = record {
  channel = ChannelId.control;
  seq_no = 2;
  session_id = 9;
  payload_type = text "K";
  payload_bytes = [];
}

abbrev both : List MultiplexedEnvelope
both = token ∷ stop ∷ []

abbrev hung_up : IoError
hung_up = io_error ErrorKind.unexpected_eof (text "early eof")

abbrev on_the_wire : List ℕ
on_the_wire = to_be_bytes 8 ++ encoded token ++ to_be_bytes 5 ++ encoded stop

abbrev after_both : Writer
after_both = record { written = on_the_wire; broken = none }

both-written : write_frames serde both new_writer ≡ ok after_both
unfolding write_frames write_frame write_bytes write_all
both-written = refl

-- The prefix of a frame that is cut in its middle ends the stream without an error.
cut_prefix :
    read_frame serde (record { bytes = 0 ∷ 0 ∷ []; ended = hung_up })
    ≡ ok (none, record { bytes = []; ended = hung_up })
unfolding read_frame read_exact
cut_prefix = refl

-- A frame that is cut behind its prefix is an error.
cut_frame :
    read_frame serde (record { bytes = to_be_bytes 3 ++ 7 ∷ []; ended = hung_up }) ≡ err hung_up
unfolding read_frame read_exact read_body
cut_frame = refl

-- A length above the limit is refused before the frame is read.
long_prefix :
    read_frame serde (record { bytes = to_be_bytes 16777217 ++ 7 ∷ []; ended = hung_up })
    ≡ err (too_long_in 16777217)
unfolding read_frame read_exact read_body
long_prefix = refl

read_frames-write_frames_example :
    read_frames serde 22 (record { bytes = on_the_wire; ended = hung_up }) ≡ both
read_frames-write_frames_example =
    read_frames-write_frames serde serde-IsCodec both after_both hung_up both-written

abbrev halved : ℕ → ℕ
halved load = 1

abbrev mac : PeerDescriptor
mac = new_descriptor 4 (text "Mac") [] 10

abbrev calls : List Op
calls =
    Op.upserted mac
    ∷ Op.marked 4 20 Reachability.reachable
    ∷ Op.timed 5 3
    ∷ Op.timed 4 12
    ∷ Op.hinted 4 7
    ∷ []

abbrev mac_now : PeerDescriptor
mac_now = record mac {
  reachability = Reachability.reachable;
  last_seen = 20;
  latency_ms = some 12;
  load_hint = some 1;
}

mac_seen : get 4 (apply_calls halved calls new_registry) ≡ some mac_now
unfolding get apply_calls apply_call upsert mark_seen record_latency record_load_hint change lookup
    insert
mac_seen = refl

get-apply_calls_example :
    get 4 (apply_calls halved calls new_registry) ≡ meaning_all halved calls 4 (get 4 new_registry)
get-apply_calls_example = get-apply_calls halved calls new_registry 4

abbrev busy : LocalBus
busy = record {
  closed = true;
  control_queue = stop ∷ [];
  normal_queue = token ∷ [];
  published = [];
}

-- A stop that is sent after a token is published before it.
busy-sent :
    (send_on 4 token new_bus >>= λ first.
    elim first as (λ _. Result ConnectivityError (Option LocalBus)) [
      | none ↦ ok none
      | some bus ↦ send_on 4 stop bus
    ])
    ≡ ok (some (record busy { closed = false }))
unfolding send_on pick_sender
busy-sent = refl

refused : send_on 4 token busy ≡ err (ConnectivityError.channel_closed ChannelId.inference)
unfolding send_on pick_sender
refused = refl

dispatch_queued-drains_example :
    dispatch_queued 2 busy
    ≡ record { closed = true; control_queue = []; normal_queue = []; published = stop ∷ token ∷ [] }
dispatch_queued-drains_example = dispatch_queued-drains busy 2 (omega arith)

abbrev with_token : LocalBus
with_token = record new_bus { normal_queue = token ∷ [] }

abbrev with_both : LocalBus
with_both = record with_token { control_queue = stop ∷ [] }

abbrev after_stop : LocalBus
after_stop = record with_both { control_queue = []; published = stop ∷ [] }

token-sent : send_on 4 token new_bus ≡ ok (some with_token)
unfolding send_on pick_sender
token-sent = refl

stop-sent : send_on 4 stop with_token ≡ ok (some with_both)
unfolding send_on pick_sender
stop-sent = refl

stop-published : turn_bus with_both ≡ some after_stop
unfolding turn_bus
stop-published = refl

Runs-IsFifo_example :
    IsFifo both (after_stop.control_queue) (after_stop.normal_queue) (after_stop.published)
Runs-IsFifo_example = Runs-IsFifo 4 both after_stop (
    Runs.turned (Runs.accepted stop (Runs.accepted token Runs.started token-sent) stop-sent)
      stop-published)
