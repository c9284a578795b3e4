-- ===== src/Wire/Stream.antt =====
-- monitor-v2/api_bridge/grpc_web.py: the body of `GrpcWebStream` without chunked transfer encoding,
-- `_fill_raw`, `_pump`, `_read_exact`, `_read_frame`, and the envelope that `connect` puts around a request.
-- What the socket brings is a list of arrivals; after its end the peer has closed.
pub mod Framing
use install_singboxhysteria.Wire.Varint.{Bytes}
use install_singboxhysteria.Common.{
  ℕ, [], ◌∷◌, List, Bool, true, false, ◌++◌, ◌+◌, ◌*◌, ◌/◌, ◌%◌, leb, length, take, drop,
  if◌then◌else◌, ◌==◌, none, some, zero, suc, inl, inr, refl, ◌≡◌, arith,
}

-- A read of the socket: at least one byte, nothing within the timeout, or an error.
pub data Arrival : Type 0 where
  data_read : (first : ℕ) (more : Bytes) → Arrival
  idle_read : Arrival
  socket_error : Arrival

pub record Stream : Type 0 where
  pub raw : Bytes
  pub buffer : Bytes
  pub arrivals : List Arrival

-- What a read answers: `_Idle`, `EOFError` and `StreamError` are the last three.
pub data Outcome {ℓ} (A : Type ℓ) : Type ℓ where
  got : A → Outcome A
  idle : Outcome A
  ended : Outcome A
  stream_error : Outcome A

-- The first `count` bytes of the buffer.
abbrev pub taken : ℕ → Stream → Outcome Bytes × Stream
taken count st = (got (take count st.buffer), record st { buffer = drop count st.buffer })

-- The end of the body, within a frame or between two.
abbrev pub at_end : Bytes → Outcome Bytes
at_end [] = ended
at_end (b ∷ bs) = stream_error

-- `while len(self._buffer) < count`, after `_raw` has been moved to the buffer.
unfoldable pub read_loop : ℕ → Bytes → List Arrival → Outcome Bytes × Stream
read_loop count buffer [] =
    let st : Stream = record { raw = []; buffer = buffer; arrivals = [] } in
    if leb count (length buffer) then taken count st else (at_end buffer, st)
read_loop count buffer (data_read first more ∷ later) =
    let rest = read_loop count (buffer ++ (first ∷ more)) later in
    let st : Stream = record {
      raw = [];
      buffer = buffer;
      arrivals = data_read first more ∷ later;
    } in
    if leb count (length buffer) then taken count st else rest
read_loop count buffer (idle_read ∷ later) =
    if leb count (length buffer)
    then taken count (record { raw = []; buffer = buffer; arrivals = idle_read ∷ later })
    else (idle, record { raw = []; buffer = buffer; arrivals = later })
read_loop count buffer (socket_error ∷ later) =
    if leb count (length buffer)
    then taken count (record { raw = []; buffer = buffer; arrivals = socket_error ∷ later })
    else (stream_error, record { raw = []; buffer = buffer; arrivals = later })

-- `_read_exact`.
unfoldable pub read_exact : ℕ → Stream → Outcome Bytes × Stream
unfolding read_loop
read_exact count st =
    if leb count (length st.buffer)
    then taken count st
    else read_loop count (st.buffer ++ st.raw) st.arrivals

-- `int.from_bytes(header[1:5], "big")`.
abbrev pub from_bytes : ℕ → ℕ → ℕ → ℕ → ℕ
from_bytes a b c d = ((a * 256 + b) * 256 + c) * 256 + d

-- The payload after its header, which was taken from the buffer.
unfoldable pub read_payload : ℕ → ℕ → Stream → Outcome (ℕ × Bytes) × Stream
unfolding read_exact
read_payload flags zero st = (got (flags, []), st)
read_payload flags (suc n) st =
    let o = read_exact (suc n) st in
    let answer : Outcome (ℕ × Bytes) = elim o.0 [
      | got payload ↦ got (flags, payload)
      | idle ↦ idle
      | ended ↦ ended
      | stream_error ↦ stream_error
    ] in
    (answer, o.1)

abbrev pub after_header : Outcome Bytes → Stream → Outcome (ℕ × Bytes) × Stream
after_header (got (flags ∷ a ∷ b ∷ c ∷ d ∷ [])) st = read_payload flags (from_bytes a b c d) st
after_header (got bytes) st = (stream_error, st)
after_header idle st = (idle, st)
after_header ended st = (ended, st)
after_header stream_error st = (stream_error, st)

-- `_read_frame`.
unfoldable pub read_frame : Stream → Outcome (ℕ × Bytes) × Stream
unfolding read_exact read_payload
read_frame st = let o = read_exact 5 st in after_header o.0 o.1

-- `to_bytes(4, "big")` of a length that fits.
abbrev pub to_bytes : ℕ → Bytes
to_bytes n = (n / 16777216) ∷ (n / 65536 % 256) ∷ (n / 256 % 256) ∷ (n % 256) ∷ []

-- The envelope of a message: its flags, its length and itself.
unfoldable pub framed : ℕ → Bytes → Bytes
framed flags payload = flags ∷ (to_bytes (length payload) ++ payload)
