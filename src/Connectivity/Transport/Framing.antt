-- ===== src/Connectivity/Transport/Framing.antt =====
-- What the reader of a TCP connection gets of the frames that the writer sent, for
-- crates/mahi-connectivity/src/transport.rs.
use mahi_ai.Prelude.{
  ℕ, zero, suc, ◌%◌, ◌^◌, ◌≤◌, ◌<◌, ◌≡◌, refl, sym, ap, ◌∙◌, false, Option, none, some, List, [],
  ◌∷◌, ◌++◌, append_assoc, append-nil, length, length-append, take, ltb, arith,
}
use mahi_ai.Contracts.Result.{Result, ok, err, bind_ok, map_err_ok, guard_ok}
use mahi_ai.Connectivity.Session.{MultiplexedEnvelope}
use mahi_ai.Connectivity.Transport.{
  ErrorKind, IoError, Writer, Reader, Serde, max_frame_len, to_be_bytes, from_be_bytes, drop,
  write_all, read_exact, write_bytes, read_body, read_prefixed, on_length_error, publish_and,
  write_frame, read_frame, write_frames, read_frames,
}

-- The writer's result after some bytes.
abbrev extended : Writer → List ℕ → Writer
extended writer bytes = record { written = writer.written ++ bytes; broken = none }

-- What `serde_json` promises: an encoded envelope is decoded to itself.
abbrev pub IsCodec : Serde → Type 0
IsCodec serde =
    (envelope : MultiplexedEnvelope) (bytes : List ℕ)
    → serde.to_vec envelope ≡ ok bytes
    → serde.from_slice bytes ≡ ok envelope

from_be_bytes-to_be_bytes : (n : ℕ) → n < 2 ^ 32 → from_be_bytes (to_be_bytes n) ≡ n
from_be_bytes-to_be_bytes n h = omega arith

pub take-append : (xs ys : List ℕ) → take (length xs) (xs ++ ys) ≡ xs
take-append [] ys = refl
take-append (x ∷ xs) ys = ap (λ zs. x ∷ zs) (take-append xs ys)

pub drop-append : (xs ys : List ℕ) → drop (length xs) (xs ++ ys) ≡ ys
drop-append [] ys = refl
drop-append (x ∷ xs) ys = drop-append xs ys

enough : (xs ys : List ℕ) → ltb (length (xs ++ ys)) (length xs) ≡ false
enough xs ys = let h = length-append xs ys in ground arith

read_exact-append :
    (xs ys : List ℕ) (e : IoError)
    → read_exact (length xs) (record { bytes = xs ++ ys; ended = e })
      ≡ ok (xs, record { bytes = ys; ended = e })
unfolding read_exact
read_exact-append xs ys e = rw (enough xs ys, take-append xs ys, drop-append xs ys) refl

write_all_ok :
    (bytes : List ℕ) (writer sent : Writer)
    → write_all bytes writer ≡ ok sent
    → sent ≡ extended writer bytes
unfolding write_all
write_all_ok bytes writer sent h = go writer.broken h
  where
    go :
        (broken : Option IoError)
        → ((elim broken as (λ _. Result IoError Writer) [
          | none ↦ ok (extended writer bytes)
          | some e ↦ err e
        ])
            ≡ ok sent)
        → sent ≡ extended writer bytes
    go none h = cc h
    go (some e) h = absurd (cc h)

small : (n : ℕ) → n ≤ max_frame_len → n % 2 ^ 32 ≡ n
small n h = omega arith

write_bytes_ok :
    (bytes : List ℕ) (writer sent : Writer)
    → write_bytes bytes writer ≡ ok sent
    → (length bytes ≤ max_frame_len)
      × (sent ≡ extended writer (to_be_bytes (length bytes) ++ bytes))
unfolding write_bytes
write_bytes_ok bytes writer sent h =
    let (fits, passed) = guard_ok (ltb max_frame_len (length bytes)) _ _ sent h in
    let bound : length bytes ≤ max_frame_len = ground arith in
    let (mid, first, second) = bind_ok _ _ sent passed in
    let prefix : List ℕ = to_be_bytes (length bytes) in
    let start : mid ≡ extended writer prefix =
      write_all_ok _ writer mid first
      ∙ ap (λ n. extended writer (to_be_bytes n)) (small (length bytes) bound) in
    (
      bound,
      write_all_ok bytes mid sent second
          ∙ ap (λ w. extended w bytes) start
          ∙ ap (λ b. record { written = b; broken = none })
              (append_assoc writer.written prefix bytes),
    )

abbrev frame : List ℕ → List ℕ
frame bytes = to_be_bytes (length bytes) ++ bytes

abbrev arriving : List ℕ → IoError → Reader
arriving bytes e = record { bytes = bytes; ended = e }

read_body-append :
    (serde : Serde) (envelope : MultiplexedEnvelope) (bytes rest : List ℕ) (e : IoError)
    → length bytes ≤ max_frame_len
    → serde.from_slice bytes ≡ ok envelope
    → read_body serde.from_slice (length bytes) (arriving (bytes ++ rest) e)
      ≡ ok (some envelope, arriving rest e)
unfolding read_body
read_body-append serde envelope bytes rest e fits decoded =
    let inside : ltb max_frame_len (length bytes) ≡ false = ground arith in
    rw (inside, read_exact-append bytes rest e, decoded) refl

-- The frame of an envelope, with the bytes that follow it.
read_frame-frame :
    (serde : Serde) (envelope : MultiplexedEnvelope) (bytes rest : List ℕ) (e : IoError)
    → length bytes ≤ max_frame_len
    → serde.from_slice bytes ≡ ok envelope
    → read_frame serde (arriving (frame bytes ++ rest) e) ≡ ok (some envelope, arriving rest e)
unfolding read_frame
read_frame-frame serde envelope bytes rest e fits decoded =
    let reader : Reader = arriving (frame bytes ++ rest) e in
    let len : from_be_bytes (to_be_bytes (length bytes)) ≡ length bytes =
      from_be_bytes-to_be_bytes (length bytes) (omega arith) in
    ap (λ r. read_prefixed serde.from_slice r reader)
      (read_exact-append (to_be_bytes (length bytes)) (bytes ++ rest) e)
    ∙ ap (λ n. read_body serde.from_slice n (arriving (bytes ++ rest) e)) len
    ∙ read_body-append serde envelope bytes rest e fits decoded

-- A frame that was sent.
abbrev IsFrame : Serde → MultiplexedEnvelope → List ℕ → Type 0
IsFrame serde envelope bytes = (length bytes ≤ max_frame_len) × (serde.to_vec envelope ≡ ok bytes)

write_frame_ok :
    (serde : Serde) (envelope : MultiplexedEnvelope) (writer sent : Writer)
    → write_frame serde envelope writer ≡ ok sent
    → (bytes : List ℕ) × (sent ≡ extended writer (frame bytes)) × IsFrame serde envelope bytes
unfolding write_frame
write_frame_ok serde envelope writer sent h =
    let (bytes, encoded, written) = bind_ok _ _ sent h in
    let (fits, extends) = write_bytes_ok bytes writer sent written in
    (bytes, extends, (fits, map_err_ok _ _ bytes encoded))

read_frames-end :
    (serde : Serde) (fuel : ℕ) (e : IoError) → read_frames serde fuel (arriving [] e) ≡ []
unfolding read_frames read_frame read_exact
read_frames-end serde zero e = refl
read_frames-end serde (suc fuel) e = go e.kind
  where
    go :
        (k : ErrorKind)
        → publish_and (λ rest. read_frames serde fuel rest) (on_length_error k e (arriving [] e))
          ≡ []
    go ErrorKind.unexpected_eof = refl
    go ErrorKind.invalid_data = refl
    go ErrorKind.invalid_input = refl
    go ErrorKind.other = refl

-- One frame at the front is published, and the reading goes on behind it.
read_frames-frame :
    (serde : Serde) (envelope : MultiplexedEnvelope) (bytes rest : List ℕ) (e : IoError) (fuel : ℕ)
    → length bytes ≤ max_frame_len
    → serde.from_slice bytes ≡ ok envelope
    → read_frames serde (suc fuel) (arriving (frame bytes ++ rest) e)
      ≡ envelope ∷ read_frames serde fuel (arriving rest e)
unfolding read_frames
read_frames-frame serde envelope bytes rest e fuel fits decoded =
    ap (publish_and (λ reader. read_frames serde fuel reader))
      (read_frame-frame serde envelope bytes rest e fits decoded)

-- The bytes that give a list of envelopes back, with a step for a byte and one for the end.
abbrev Gives : Serde → List MultiplexedEnvelope → List ℕ → Type 0
Gives serde envelopes wire =
    (fuel : ℕ) (e : IoError)
    → length wire < fuel
    → read_frames serde fuel (arriving wire e) ≡ envelopes

Gives-frame :
    (serde : Serde) (envelope : MultiplexedEnvelope) (envelopes : List MultiplexedEnvelope)
    (bytes rest : List ℕ)
    → length bytes ≤ max_frame_len
    → serde.from_slice bytes ≡ ok envelope
    → Gives serde envelopes rest
    → Gives serde (envelope ∷ envelopes) (frame bytes ++ rest)
Gives-frame serde envelope envelopes bytes rest fits decoded gives zero e h = absurd (omega arith)
Gives-frame serde envelope envelopes bytes rest fits decoded gives (suc fuel) e h =
    let long = length-append (frame bytes) rest in
    read_frames-frame serde envelope bytes rest e fuel fits decoded
    ∙ ap (λ found. envelope ∷ found) (gives fuel e (omega arith))

-- What was written grows by bytes that give the envelopes back.
write_frames_ok :
    (serde : Serde)
    → IsCodec serde
    → (envelopes : List MultiplexedEnvelope) (writer sent : Writer)
    → write_frames serde envelopes writer ≡ ok sent
    → (wire : List ℕ) × (sent.written ≡ writer.written ++ wire) × Gives serde envelopes wire
unfolding write_frames
write_frames_ok serde codec [] writer sent h =
    let same : sent ≡ writer = cc h in
    (
      [],
      ap (λ w. w.written) same ∙ sym (append-nil writer.written),
      λ fuel e long. read_frames-end serde fuel e,
    )
write_frames_ok serde codec (envelope ∷ envelopes) writer sent h =
    let (mid, first, others) = bind_ok _ _ sent h in
    let (bytes, extends, (fits, encoded)) = write_frame_ok serde envelope writer mid first in
    let (wire, longer, gives) = write_frames_ok serde codec envelopes mid sent others in
    let decoded = codec envelope bytes encoded in
    (
      frame bytes ++ wire,
      longer ∙ ap (λ w. w.written ++ wire) extends ∙ append_assoc writer.written (frame bytes) wire,
      Gives-frame serde envelope envelopes bytes wire fits decoded gives,
    )

abbrev pub new_writer : Writer
new_writer = record { written = []; broken = none }

-- The envelopes that one end writes without an error, on a codec that decodes what it encodes, are
-- those that the other end publishes, in the same order, whichever error ends the connection; one
-- step for a byte and one for the end are enough.
pub read_frames-write_frames :
    (serde : Serde)
    → IsCodec serde
    → (envelopes : List MultiplexedEnvelope) (sent : Writer) (e : IoError)
    → write_frames serde envelopes new_writer ≡ ok sent
    → read_frames serde (suc (length sent.written)) (record { bytes = sent.written; ended = e })
      ≡ envelopes
read_frames-write_frames serde codec envelopes sent e h =
    let (wire, written, gives) = write_frames_ok serde codec envelopes new_writer sent h in
    ap (λ bytes. read_frames serde (suc (length bytes)) (arriving bytes e)) written
    ∙ gives (suc (length wire)) e (omega arith)
