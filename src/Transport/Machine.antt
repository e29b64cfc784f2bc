-- ===== src/Transport/Machine.antt =====
-- The events of a ThreadLinkClient: its methods, the callbacks of its WebSockets, its timer.
use thread_link.Prelude.{
  ℕ, Bool, false, Option, none, some, List, [], ◌∷◌, if◌then◌else◌, nat_beq, Text,
}
use thread_link.Protocol.{ClientMessage}
use thread_link.Transport.{
  Socket, ReadyState, is_open, is_closing, Client, Browser, connect, on_message, on_open, on_error,
  on_close, disconnect, send,
}

pub data Event : Type 0 where
  connect_called disconnect_called : Event
  send_called : ClientMessage → Event
  timer_fired : Event
  -- of the WebSocket with the number: it is open, begins to close, has failed, brings data, is closed
  opened closing errored : ℕ → Event
  received : ℕ → Option Text → Event
  closed : ℕ → Event

-- Whether the WebSocket is the client's: only then it has the client's callbacks.
abbrev pub is_current : Option Socket → ℕ → Bool
is_current none n = false
is_current (some s) n = nat_beq s.number n

abbrev pub set_ready_state : ReadyState → Client → Client
set_ready_state ready c = elim c.socket [
  | none ↦ c
  | some s ↦ record c { socket = some (record s { ready_state = ready }) }
]

module _ (browser : Browser) where
  unfoldable pub step : Client → Event → Client
  step c connect_called = connect browser c
  step c disconnect_called = disconnect c
  step c (send_called m) = (send m c).0
  step c timer_fired = if c.reconnect_timer then connect browser c else c
  step c (opened n) = if is_current c.socket n then on_open (set_ready_state is_open c) else c
  step c (closing n) = if is_current c.socket n then set_ready_state is_closing c else c
  step c (errored n) = if is_current c.socket n then on_error c else c
  step c (received n payload) = if is_current c.socket n then on_message browser payload c else c
  step c (closed n) = if is_current c.socket n then on_close c else c

  unfoldable pub run : Client → List Event → Client
  run c [] = c
  run c (e ∷ es) = run (step c e) es
