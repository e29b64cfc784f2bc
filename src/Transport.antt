-- ===== src/Transport.antt =====
-- frontend/lib/websocket-client.ts: a ThreadLinkClient, and `parseInbound` of
-- frontend/types/protocol.ts. A WebSocket is named by how many were made before it. What the client
-- does to the outside, its three callbacks included, is written to `log`.
pub mod Machine
pub mod Sound
pub mod Phases
pub mod Retries
mod Tests
use thread_link.Prelude.{
  ℕ, suc, ◌+◌, ◌*◌, ◌-◌, ◌^◌, Bool, true, false, ◌&&◌, Option, none, some, List, [], ◌∷◌, ◌++◌,
  if◌then◌else◌, ltb, leb, nat_beq, Text, js,
}
use thread_link.Protocol.{ClientMessage, ServerMessage}
use thread_link.ClientProtocol.{tag_of, is_object}
use thread_link.ClientProtocol.Values.{Json, field_of}
use thread_link.ChatState.{
  ConnectionStatus, idle, connecting, connected, disconnected, reconnecting, failed,
}

-- `readyState`
pub data ReadyState : Type 0 where
  in_progress is_open is_closing is_closed : ReadyState

pub record Socket : Type 0 where
  pub number : ℕ
  pub ready_state : ReadyState

pub data Output : Type 0 where
  -- `onStatusChange`, `onEvent`, `onError`
  status_changed : ConnectionStatus → Output
  event_raised : ServerMessage → Output
  error_raised : Text → Output
  -- `new WebSocket(url)`, `close` and `send` of the WebSocket with the number
  socket_made socket_closed : ℕ → Output
  sent : ℕ → ClientMessage → Output
  -- `setTimeout` with the delay, `clearTimeout`
  timer_set : ℕ → Output
  timer_cleared : Output

pub record Client : Type 0 where
  pub socket : Option Socket
  pub url : Text
  pub status : ConnectionStatus
  pub reconnect_enabled : Bool
  pub max_reconnect_attempts : ℕ
  pub reconnect_attempts : ℕ
  -- whether it is not null: it is set, and has not fired
  pub reconnect_timer : Bool
  pub intentional_close : Bool
  -- how many WebSockets were made
  pub made : ℕ
  pub log : List Output

-- What the browser provides. `refusal` is the error with which the n-th `new WebSocket` throws, if it
-- does; `as_server_message` is what a parsed value is taken for.
pub record Browser : Type 0 where
  pub refusal : ℕ → Option Text
  pub parse_json : Text → Option Json
  pub as_server_message : Json → ServerMessage

abbrev pub is_some {ℓ} : {A : Type ℓ} → Option A → Bool
is_some none = false
is_some (some a) = true

abbrev or_default {ℓ} : {A : Type ℓ} → Option A → A → A
or_default none d = d
or_default (some a) d = a

-- The constructor.
unfoldable pub new_client : Text → Option Bool → Option ℕ → Client
new_client url reconnect max_reconnect_attempts = record {
  socket = none;
  url = url;
  status = idle;
  reconnect_enabled = or_default reconnect true;
  max_reconnect_attempts = or_default max_reconnect_attempts 5;
  reconnect_attempts = 0;
  reconnect_timer = false;
  intentional_close = false;
  made = 0;
  log = [];
}

abbrev pub out : Output → Client → Client
out o c = record c { log = c.log ++ o ∷ [] }

abbrev pub set_status : ConnectionStatus → Client → Client
set_status status c = out (status_changed status) (record c { status = status })

unfoldable pub clear_reconnect_timer : Client → Client
clear_reconnect_timer c =
    if c.reconnect_timer then out timer_cleared (record c { reconnect_timer = false }) else c

-- `readyState` is OPEN or CONNECTING.
abbrev is_alive : ReadyState → Bool
is_alive in_progress = true
is_alive is_open = true
is_alive _ = false

abbrev is_failed : ConnectionStatus → Bool
is_failed failed = true
is_failed _ = false

-- The callbacks of the WebSocket are taken off: what happens to it is not noticed any more.
unfoldable pub close_socket : Bool → Client → Client
close_socket update_status c = elim c.socket [
  | none ↦ c
  | some s ↦
      let detached = record c { socket = none } in
      let closed =
        if is_alive s.ready_state then out (socket_closed s.number) detached else detached in
      if update_status
      then (if is_failed closed.status then closed else set_status disconnected closed)
      else closed
]

module _ (browser : Browser) where
  -- `connect` from `new WebSocket` on.
  unfoldable pub make_socket : Client → Client
  make_socket c = elim (browser.refusal c.made) [
    | some text ↦ out (error_raised text) (set_status failed (record c { made = suc c.made }))
    | none ↦ out (socket_made c.made) (record c {
      socket = some (record { number = c.made; ready_state = in_progress });
      made = suc c.made;
    })
  ]

  unfoldable pub connect : Client → Client
  connect c = make_socket (
      set_status connecting
        (close_socket false (clear_reconnect_timer (record c { intentional_close = false }))))

  -- The checks of `parseInbound`: an object whose `type` is a string.
  abbrev pub is_server_message : Json → Bool
  is_server_message j = is_object j && is_some (tag_of (field_of j (js "type")))

  unfoldable pub parse_inbound : Text → Option ServerMessage
  parse_inbound text = elim (browser.parse_json text) [
    | none ↦ none
    | some j ↦ if is_server_message j then some (browser.as_server_message j) else none
  ]

  abbrev pub raise_event : Option ServerMessage → Client → Client
  raise_event none c = c
  raise_event (some m) c = out (event_raised m) c

  -- `onmessage`; data that is no string counts as empty.
  unfoldable pub on_message : Option Text → Client → Client
  on_message none c = c
  on_message (some []) c = c
  on_message (some (u ∷ text)) c = raise_event (parse_inbound (u ∷ text)) c

-- `onopen`
unfoldable pub on_open : Client → Client
on_open c = set_status connected (record c { reconnect_attempts = 0 })

abbrev is_connecting : ConnectionStatus → Bool
is_connecting connecting = true
is_connecting _ = false

-- `onerror`
unfoldable pub on_error : Client → Client
on_error c =
    let c' = if is_connecting c.status then set_status failed c else c in
    out (error_raised (js "WebSocket connection error")) c'

-- Milliseconds.
abbrev pub delay_after : ℕ → ℕ
delay_after attempts =
    let delay = 1000 * 2 ^ (attempts - 1) in if leb delay 10000 then delay else 10000

unfoldable pub schedule_reconnect : Client → Client
schedule_reconnect c =
    let c' = set_status reconnecting c in
    let attempts = c'.reconnect_attempts + 1 in
    out (timer_set (delay_after attempts))
      (record c' { reconnect_attempts = attempts; reconnect_timer = true })

-- `onclose`
unfoldable pub on_close : Client → Client
on_close c =
    let c' = record c { socket = none } in
    if c'.intentional_close
    then set_status disconnected c'
    else if c'.reconnect_enabled && ltb c'.reconnect_attempts c'.max_reconnect_attempts
    then schedule_reconnect c'
    else set_status (if ltb 0 c'.reconnect_attempts then failed else disconnected) c'

unfoldable pub disconnect : Client → Client
disconnect c =
    set_status disconnected
      (close_socket true (clear_reconnect_timer (record c { intentional_close = true })))

abbrev is_open_state : ReadyState → Bool
is_open_state is_open = true
is_open_state _ = false

abbrev pub open_number : Option Socket → Option ℕ
open_number none = none
open_number (some s) = if is_open_state s.ready_state then some s.number else none

-- `send`, which all the methods that send a message are; and whether it was sent.
unfoldable pub send : ClientMessage → Client → Client × Bool
send m c = elim (open_number c.socket) [
  | none ↦ (out (error_raised (js "Not connected to gateway")) c, false)
  | some n ↦ (out (sent n m) c, true)
]

abbrev is_connected_status : ConnectionStatus → Bool
is_connected_status connected = true
is_connected_status _ = false

unfoldable pub is_connected : Client → Bool
is_connected c = is_connected_status c.status && is_some (open_number c.socket)
