-- ===== src/ChatServer/Frames.antt =====
-- src/Protocol.cpp: how the server reads frames from its socket. The bytes come in pieces; an error of
-- the socket is not among what comes.
use thread_link.Prelude.{
  ℕ, zero, suc, ◌-◌, List, [], ◌∷◌, ◌++◌, ltb, nat_beq, if◌then◌else◌, length, take, drop,
}
use mathlib.Core.List.{flatten}
use thread_link.Wire.{read_uint32_be}

-- The IoStatus, with the bytes that were read and what has not been read yet.
pub data Received : Type 0 where
  ok : List ℕ → List (List ℕ) → Received
  closed_by_peer too_large : Received

abbrev pub behind : List ℕ → Received → Received
behind bytes (ok more rest) = ok (bytes ++ more) rest
behind bytes closed_by_peer = closed_by_peer
behind bytes too_large = too_large

-- The loop of `recv_exact`: a `recv` gives what has come, up to what is asked for, and nothing at the
-- end of the stream.
unfoldable pub recv_exact : ℕ → List (List ℕ) → Received
recv_exact len [] = if nat_beq len 0 then ok [] [] else closed_by_peer
recv_exact len (piece ∷ pieces) =
    let more = recv_exact (len - length piece) pieces in
    if nat_beq len 0
    then ok [] (piece ∷ pieces)
    else if ltb (length piece) len
    then behind piece more
    else ok (take len piece) (drop len piece ∷ pieces)

abbrev pub recv_body : ℕ → Received → Received
recv_body max (ok header rest) =
    let len = read_uint32_be header in
    if ltb max len then too_large else if nat_beq len 0 then ok [] rest else recv_exact len rest
recv_body max closed_by_peer = closed_by_peer
recv_body max too_large = too_large

unfoldable pub recv_frame : ℕ → List (List ℕ) → Received
unfolding recv_exact read_uint32_be
recv_frame max pieces = recv_body max (recv_exact 4 pieces)

pub data ReadEnd : Type 0 where
  by_peer by_size no_fuel : ReadEnd

pub record Reading : Type 0 where
  pub payloads : List (List ℕ)
  pub ended : ReadEnd

abbrev pub read_on : (List (List ℕ) → Reading) → Received → Reading
read_on more (ok payload rest) =
    let later = more rest in record { payloads = payload ∷ later.payloads; ended = later.ended }
read_on more closed_by_peer = record { payloads = []; ended = by_peer }
read_on more too_large = record { payloads = []; ended = by_size }

-- The loop of `handle_client`, as far as it reads: every payload, and why it stops. Each round takes at
-- least a header, so that a round more than there are bytes is enough fuel.
unfoldable pub read_loop : ℕ → ℕ → List (List ℕ) → Reading
unfolding recv_frame
read_loop zero max pieces = record { payloads = []; ended = no_fuel }
read_loop (suc fuel) max pieces = read_on (read_loop fuel max) (recv_frame max pieces)

unfoldable pub read_frames : ℕ → List (List ℕ) → Reading
unfolding read_loop
read_frames max pieces = read_loop (suc (length (flatten pieces))) max pieces
