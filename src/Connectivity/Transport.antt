-- ===== src/Connectivity/Transport.antt =====
-- crates/mahi-connectivity/src/transport.rs: the frames of the TCP transport. One direction of a
-- connection is the list of its bytes. Its write half fails for good at the error `broken`; its read
-- half gives the bytes that arrive and then `ended`, the end of the file or an error of the socket.
pub mod Framing
use mahi_ai.Prelude.{
  ℕ, zero, suc, ◌+◌, ◌*◌, ◌/◌, ◌%◌, ◌^◌, Option, none, some, List, [], ◌∷◌, ◌++◌, length, take, ltb,
  Text, text, if◌then◌else◌,
}
use mahi_ai.Prelude.Chars.{decimal}
use mahi_ai.Contracts.Result.{Result, ok, err, ◌>>=◌, map_err}
use mahi_ai.Connectivity.Session.{MultiplexedEnvelope}

-- `std::io::ErrorKind`, with the kinds of a socket's own errors in one.
pub data ErrorKind : Type 0 where
  invalid_data invalid_input unexpected_eof other : ErrorKind

pub record IoError : Type 0 where
  pub kind : ErrorKind
  pub message : Text

pub record Writer : Type 0 where
  pub written : List ℕ
  pub broken : Option IoError

pub record Reader : Type 0 where
  pub bytes : List ℕ
  pub ended : IoError

-- The crate `serde_json`; an error is its text.
pub record Serde : Type 0 where
  pub to_vec : MultiplexedEnvelope → Result Text (List ℕ)
  pub from_slice : List ℕ → Result Text MultiplexedEnvelope

abbrev pub max_frame_len : ℕ
max_frame_len = 16 * 1024 * 1024

abbrev pub io_error : ErrorKind → Text → IoError
io_error k shown = record { kind = k; message = shown }

-- `u32::to_be_bytes`
abbrev pub to_be_bytes : ℕ → List ℕ
to_be_bytes n = (n / 16777216 % 256) ∷ (n / 65536 % 256) ∷ (n / 256 % 256) ∷ (n % 256) ∷ []

-- `u32::from_be_bytes`, on the four bytes that `read_u32` reads.
abbrev pub from_be_bytes : List ℕ → ℕ
from_be_bytes (a ∷ b ∷ c ∷ d ∷ []) = ((a * 256 + b) * 256 + c) * 256 + d
from_be_bytes _ = 0

abbrev pub drop {ℓ} : {A : Type ℓ} → ℕ → List A → List A
drop zero xs = xs
drop (suc n) [] = []
drop (suc n) (x ∷ xs) = drop n xs

-- `AsyncWriteExt::write_all`
unfoldable pub write_all : List ℕ → Writer → Result IoError Writer
write_all bytes writer = elim writer.broken [
  | none ↦ ok (record { written = writer.written ++ bytes; broken = none })
  | some e ↦ err e
]

-- `AsyncReadExt::read_exact`
unfoldable pub read_exact : ℕ → Reader → Result IoError (List ℕ × Reader)
read_exact n reader =
    if ltb (length reader.bytes) n
    then err reader.ended
    else ok (take n reader.bytes, record reader { bytes = drop n reader.bytes })

abbrev pub too_long_out : ℕ → IoError
too_long_out n =
    io_error ErrorKind.invalid_input
      (text "frame of " ++ decimal n ++ text " bytes exceeds MAX_FRAME_LEN")

abbrev pub too_long_in : ℕ → IoError
too_long_in n =
    io_error ErrorKind.invalid_data
      (text "incoming frame of " ++ decimal n ++ text " bytes exceeds MAX_FRAME_LEN")

-- The frame of an encoded envelope; its length is cast to `u32`.
unfoldable pub write_bytes : List ℕ → Writer → Result IoError Writer
write_bytes bytes writer =
    if ltb max_frame_len (length bytes)
    then err (too_long_out (length bytes))
    else (write_all (to_be_bytes (length bytes % 2 ^ 32)) writer >>= write_all bytes)

-- What `read_frame` does after the length of the frame.
unfoldable pub read_body :
    (List ℕ → Result Text MultiplexedEnvelope)
    → ℕ
    → Reader
    → Result IoError (Option MultiplexedEnvelope × Reader)
read_body from_slice len reader =
    if ltb max_frame_len len
    then err (too_long_in len)
    else (read_exact len reader >>= λ (buf, rest).
        (map_err (io_error ErrorKind.invalid_data) (from_slice buf) >>= λ envelope.
        ok (some envelope, rest)))

abbrev pub on_length_error :
    ErrorKind → IoError → Reader → Result IoError (Option MultiplexedEnvelope × Reader)
on_length_error ErrorKind.unexpected_eof e reader = ok (none, record reader { bytes = [] })
on_length_error _ e reader = err e

-- What `read_frame` does with the result of `read_u32`.
abbrev pub read_prefixed :
    (List ℕ → Result Text MultiplexedEnvelope)
    → Result IoError (List ℕ × Reader)
    → Reader
    → Result IoError (Option MultiplexedEnvelope × Reader)
read_prefixed from_slice (ok (prefix, rest)) reader =
    read_body from_slice (from_be_bytes prefix) rest
read_prefixed from_slice (err e) reader = on_length_error e.kind e reader

-- What the reading loop publishes: a frame and then the `next` ones, or nothing at an end.
abbrev pub publish_and :
    (Reader → List MultiplexedEnvelope)
    → Result IoError (Option MultiplexedEnvelope × Reader)
    → List MultiplexedEnvelope
publish_and next (ok (some envelope, rest)) = envelope ∷ next rest
publish_and next (ok (none, rest)) = []
publish_and next (err e) = []

module _ (serde : Serde) where
  unfoldable pub write_frame : MultiplexedEnvelope → Writer → Result IoError Writer
  write_frame envelope writer =
      map_err (io_error ErrorKind.invalid_data) (serde.to_vec envelope) >>= λ bytes.
      write_bytes bytes writer

  unfoldable pub read_frame : Reader → Result IoError (Option MultiplexedEnvelope × Reader)
  read_frame reader = read_prefixed serde.from_slice (read_exact 4 reader) reader

  -- The writing loop of `pump`, on the envelopes in the order the queues give them.
  unfoldable pub write_frames : List MultiplexedEnvelope → Writer → Result IoError Writer
  write_frames [] writer = ok writer
  write_frames (envelope ∷ envelopes) writer =
      write_frame envelope writer >>= write_frames envelopes

  -- The reading loop of `pump`: what it publishes until the end or an error. Every frame takes four
  -- bytes at least, so that one step for a byte and one for the end are enough.
  unfoldable pub read_frames : ℕ → Reader → List MultiplexedEnvelope
  read_frames zero reader = []
  read_frames (suc fuel) reader = publish_and (λ rest. read_frames fuel rest) (read_frame reader)
