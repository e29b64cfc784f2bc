-- ===== src/BackendConnection.antt =====
-- gateway/src/backendConnection.ts: one BackendConnection, its socket and its listeners. What it emits
-- and writes goes to `emitted`, in order. UTF-8 is a parameter.
pub mod Streams
pub mod Closing
pub mod Mirror
mod Tests
use thread_link.Prelude.{
  ℕ, Bool, true, false, not, ◌&&◌, List, [], ◌∷◌, ◌++◌, map, if◌then◌else◌, Text,
}
use thread_link.Wire.{FrameDecoder, new_decoder, push, encode_frame}
use thread_link.BackendMessages.{BackendEvent, parse_backend_line}

-- `socket`: null; being connected; with the listeners of `wireSocket`; with none after an error.
pub data Socket : Type 0 where
  no_socket dialing wired unwired : Socket

pub data Emission : Type 0 where
  -- `emit("event", …)`, `emit("close")`, `emit("error", …)` with the error's text
  event : BackendEvent → Emission
  close : Emission
  error : Text → Emission
  -- the bytes that go to the socket, and `destroy` of the socket
  written : List ℕ → Emission
  destroyed : Emission

pub record Connection : Type 0 where
  pub socket : Socket
  pub decoder : FrameDecoder
  pub closed : Bool
  pub emitted : List Emission

-- `toString("utf8")` and `Buffer.from(…, "utf8")`.
pub record Utf8 : Type 0 where
  pub to_text : List ℕ → Text
  pub to_bytes : Text → List ℕ

unfoldable pub new_connection : Connection
new_connection = record { socket = no_socket; decoder = new_decoder; closed = false; emitted = [] }

abbrev pub emits : List Emission → Connection → Connection
emits es c = record c { emitted = c.emitted ++ es }

abbrev pub is_null : Socket → Bool
is_null no_socket = true
is_null _ = false

abbrev pub is_dialing : Socket → Bool
is_dialing dialing = true
is_dialing _ = false

abbrev pub is_wired : Socket → Bool
is_wired wired = true
is_wired _ = false

-- `connect`, to the wait. It is called once, on a new connection, by `handleAuth`: another call would
-- make a second Socket.
unfoldable pub dial : Connection → Connection
dial c = record c { socket = dialing }

-- `close`
unfoldable pub close_connection : Connection → Connection
close_connection c =
    if c.closed
    then c
    else if is_null c.socket
    then record c { closed = true }
    else emits (destroyed ∷ []) (record c { closed = true })

-- The listener to "close".
unfoldable pub on_socket_close : Connection → Connection
on_socket_close c = if c.closed then c else emits (close ∷ []) (record c { closed = true })

-- What is called after `connect` and what the socket reports. A socket that was destroyed reports no connection, no
-- refusal and no data any more; one without listeners is not heard.
pub data Happening : Type 0 where
  close_called : Happening
  line_sent : Text → Happening
  connected refused socket_closed : Happening
  data_came : List ℕ → Happening
  socket_failed : Text → Happening

abbrev pub event_of : Utf8 → List ℕ → Emission
event_of utf8 frame = event (parse_backend_line (utf8.to_text frame))

module _ (utf8 : Utf8) (max_message_bytes : ℕ) where
  -- The listener to "data".
  unfoldable pub on_data : List ℕ → Connection → Connection
  on_data chunk c =
      let (r, decoder) = push max_message_bytes c.decoder chunk in
      let c' = emits (map (event_of utf8) r.frames) (record c { decoder = decoder }) in
      if r.too_large then close_connection c' else c'

  -- `sendLine`, and whether it throws; Node keeps what is written before the socket is connected.
  unfoldable pub write_line : Text → Connection → Connection × Bool
  write_line line c =
      if is_null c.socket
      then (c, true)
      else if c.closed
      then (c, true)
      else (emits (written (encode_frame (utf8.to_bytes line)) ∷ []) c, false)

  unfoldable pub happen : Connection → Happening → Connection
  happen c close_called = close_connection c
  happen c (line_sent line) = (write_line line c).0
  happen c connected =
      if is_dialing c.socket && not c.closed then record c { socket = wired } else c
  happen c refused =
      if is_dialing c.socket && not c.closed then record c { socket = unwired } else c
  happen c socket_closed = if is_wired c.socket then on_socket_close c else c
  happen c (data_came chunk) = if is_wired c.socket && not c.closed then on_data chunk c else c
  happen c (socket_failed text) = if is_wired c.socket then emits (error text ∷ []) c else c

  unfoldable pub happen_all : Connection → List Happening → Connection
  happen_all c [] = c
  happen_all c (h ∷ hs) = happen_all (happen c h) hs
