-- ===== src/Gateway.antt =====
-- gateway/src/gatewayServer.ts: the state of a GatewayServer, and what it does to the outside.
pub mod Actions
pub mod Messaging
pub mod BackendEvents
pub mod Login
pub mod Steps
pub mod Safety
pub mod Delivery
pub mod Once
pub mod Sends
pub mod LateLogin
pub mod Grows
pub mod Kept
pub mod LoginRun
pub mod Shutdown
pub mod Queueing
pub mod Gate
pub mod Worlds
mod Tests
use thread_link.Prelude.{
  ℕ, suc, Bool, true, false, Option, none, some, List, [], ◌∷◌, ◌++◌, if◌then◌else◌, nat_beq, Text,
  js,
}
use thread_link.Protocol.{ClientMessage, ServerMessage}
use thread_link.Database.{Db, UserRow}
use thread_link.Auth.{PasswordRecord}
use thread_link.Sessions.{Session, Heap, Roster, update, Backend, connecting, connected}

-- What leaves the gateway, for the session with the number.
pub data Effect : Type 0 where
  -- a message on the WebSocket
  sent : ℕ → ServerMessage → Effect
  -- `ws.close` with the code
  ws_closed : ℕ → ℕ → Effect
  -- a connection to the backend is made, and destroyed
  backend_opened backend_destroyed : ℕ → Effect
  -- a line to the backend
  line : ℕ → Text → Effect
  -- an exception or a rejected promise that nothing handles: the process ends
  rejected : ℕ → Effect

-- A `handleAuth` that waits for scrypt: for `register`, the name and the record that it will store;
-- for `login`, the row that it read and the password.
pub data AuthTask : Type 0 where
  registering : Text → PasswordRecord → AuthTask
  verifying : UserRow → Text → AuthTask

pub record Gateway : Type 0 where
  pub db : Db
  pub heap : Heap
  pub roster : Roster
  -- the waiting calls of `handleAuth`, each with its session
  pub tasks : List (ℕ × AuthTask)
  -- how many sessions there were, and how often a fresh value was drawn
  pub opened : ℕ
  pub drawn : ℕ
  -- everything that was done to the outside, oldest first
  pub log : List Effect

abbrev pub emit : Effect → Gateway → Gateway
emit e g = record g { log = g.log ++ e ∷ [] }

abbrev pub set_session : ℕ → Session → Gateway → Gateway
set_session r s g = record g { heap = update g.heap r s }

abbrev pub draw : Gateway → Gateway
draw g = record g { drawn = suc g.drawn }

-- `sendTo`
unfoldable pub send_to : ℕ → ServerMessage → Gateway → Gateway
send_to r m g = if (g.heap r).ws_open then emit (sent r m) g else g

-- `ws.close(code)`; on a socket that is closing already it does nothing.
unfoldable pub close_ws : ℕ → ℕ → Gateway → Gateway
close_ws r code g =
    if (g.heap r).ws_open
    then emit (ws_closed r code) (set_session r (record (g.heap r) { ws_open = false }) g)
    else g

-- `!this.socket || this.closed` fails: Node buffers what is written before the socket is connected.
abbrev pub is_writable : Backend → Bool
is_writable connecting = true
is_writable connected = true
is_writable _ = false

-- `session.backend!.sendLine(line)` where nothing handles the rejection.
unfoldable pub send_line : ℕ → Text → Gateway → Gateway
send_line r text g =
    if is_writable (g.heap r).backend then emit (line r text) g else emit (rejected r) g
