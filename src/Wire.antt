-- ===== src/Wire.antt =====
-- gateway/src/wireProtocol.ts: length-prefixed frames on the TCP stream to the C++ server. A byte
-- is a number; a Buffer is a list of them.
pub mod Header
pub mod Rounds
pub mod Streams
pub mod RoundTrip
mod Tests
use thread_link.Prelude.{
  ℕ, zero, suc, ◌+◌, ◌*◌, ◌/◌, ◌%◌, ◌^◌, Bool, true, false, List, [], ◌∷◌, ◌++◌, ltb, nat_beq,
  if◌then◌else◌, length, take, drop,
}

abbrev pub frame_header_size : ℕ
frame_header_size = 4

-- The state of a FrameDecoder: its buffer. `maxPayloadSize` never changes and is an argument.
pub record FrameDecoder : Type 0 where
  pub buffer : List ℕ

pub record PushResult : Type 0 where
  pub frames : List (List ℕ)
  pub too_large : Bool

-- `buffer.readUInt32BE(0)`.
unfoldable pub read_uint32_be : List ℕ → ℕ
read_uint32_be (a ∷ b ∷ c ∷ d ∷ rest) = a * 16777216 + b * 65536 + c * 256 + d
read_uint32_be _ = 0

-- `header.writeUInt32BE(n, 0)`, for n below 2 ^ 32.
unfoldable pub write_uint32_be : ℕ → List ℕ
write_uint32_be n = (n / 16777216) % 256 ∷ (n / 65536) % 256 ∷ (n / 256) % 256 ∷ n % 256 ∷ []

-- The state of the loop of `push`: the frames found so far, the buffer, and how it ended.
pub data LoopEnd : Type 0 where
  starved oversized no_fuel : LoopEnd

pub record Loop : Type 0 where
  pub frames : List (List ℕ)
  pub buffer : List ℕ
  pub ended : LoopEnd

abbrev pub found : List ℕ → Loop → Loop
found frame l = record { frames = frame ∷ l.frames; buffer = l.buffer; ended = l.ended }

-- The `for (;;)` of `push`. Each round that goes on drops at least the header, so that a round
-- more than the buffer has bytes is enough fuel.
unfoldable pub push_loop : ℕ → ℕ → List ℕ → Loop
push_loop zero max buffer = record { frames = []; buffer = buffer; ended = no_fuel }
push_loop (suc fuel) max buffer =
    let size = read_uint32_be buffer in
    let rest = push_loop fuel max (drop (frame_header_size + size) buffer) in
    if ltb (length buffer) frame_header_size
    then record { frames = []; buffer = buffer; ended = starved }
    else if ltb max size
    then record { frames = []; buffer = buffer; ended = oversized }
    else if ltb (length buffer) (frame_header_size + size)
    then record { frames = []; buffer = buffer; ended = starved }
    else found (take size (drop frame_header_size buffer)) rest

abbrev pub is_oversized : LoopEnd → Bool
is_oversized oversized = true
is_oversized _ = false

-- `this.buffer.length === 0 ? chunk : Buffer.concat([this.buffer, chunk])`.
abbrev pub joined : List ℕ → List ℕ → List ℕ
joined buffer chunk = if nat_beq (length buffer) 0 then chunk else buffer ++ chunk

unfoldable pub push : ℕ → FrameDecoder → List ℕ → PushResult × FrameDecoder
push max d chunk =
    let bytes = joined d.buffer chunk in
    let l = push_loop (suc (length bytes)) max bytes in
    (record { frames = l.frames; too_large = is_oversized l.ended }, record { buffer = l.buffer })

abbrev pub new_decoder : FrameDecoder
new_decoder = record { buffer = [] }

-- `encodeFrame` on the bytes of its payload.
unfoldable pub encode_frame : List ℕ → List ℕ
encode_frame body = write_uint32_be (length body) ++ body

-- The `data` handler of BackendConnection over the chunks that a socket delivers, in order: it emits
-- the frames of each, and closes the connection on an error, after which no chunk is read.
unfoldable pub receive : ℕ → FrameDecoder → List (List ℕ) → PushResult
receive max d [] = record { frames = []; too_large = false }
receive max d (chunk ∷ chunks) =
    let (r, d') = push max d chunk in
    let rest = receive max d' chunks in
    if r.too_large
    then r
    else record { frames = r.frames ++ rest.frames; too_large = rest.too_large }
