-- ===== src/Sessions.antt =====
-- gateway/src/session.ts, sessionManager.ts and the connection state of backendConnection.ts. A
-- Session is an object that the roster, the handlers and the sockets share: it is named by a number,
-- and `Heap` says what it holds now.
use thread_link.Prelude.{
  ℕ, Bool, true, false, ◌&&◌, Option, none, some, List, [], ◌∷◌, ◌++◌, if◌then◌else◌, nat_beq, Text,
  js, ◌==◌, Dict, get, put, delete,
}
use thread_link.Protocol.{Presence, online, ClientMessage, UserSummary}

-- `session.backend`: null, or a BackendConnection that is connecting, connected or closed.
pub data Backend : Type 0 where
  absent connecting connected closed : Backend

pub record Session : Type 0 where
  pub id : Text
  pub authenticated : Bool
  pub backend : Backend
  pub nickname : Text
  pub desired_username : Option Text
  pub ready_announced : Bool
  pub presence : Presence
  pub welcomed : Bool
  pub closed : Bool
  pub pending : List ClientMessage
  -- `ws.readyState === WebSocket.OPEN`
  pub ws_open : Bool

-- A Session as it is constructed, on an open WebSocket.
unfoldable pub new_session : Text → Session
new_session uuid = record {
  id = js "pending:" ++ uuid;
  authenticated = false;
  backend = absent;
  nickname = [];
  desired_username = none;
  ready_announced = false;
  presence = online;
  welcomed = false;
  closed = false;
  pending = [];
  ws_open = true;
}

unfoldable pub create_backend_connection : Session → Session
create_backend_connection s = record s { backend = connecting }

unfoldable pub queue_until_ready : ClientMessage → Session → Session
queue_until_ready m s = record s { pending = s.pending ++ m ∷ [] }

-- `drainQueue`: the queue, and the session without it.
unfoldable pub drain_queue : Session → List ClientMessage × Session
drain_queue s = (s.pending, record s { pending = [] })

-- `BackendConnection.close`, through `session.backend?.close()`.
abbrev pub close_backend : Backend → Backend
close_backend absent = absent
close_backend _ = closed

abbrev pub Heap : Type 0
Heap = ℕ → Session

abbrev pub update : Heap → ℕ → Session → Heap
update heap r s q = if nat_beq r q then s else heap q

-- `byId`: the sessions by account id.
abbrev pub Roster : Type 0
Roster = Dict ℕ

unfoldable pub add : ℕ → Heap → Roster → Roster
add r heap roster = put (heap r).id r roster

unfoldable pub remove : Text → Roster → Roster
remove id roster = delete id roster

unfoldable pub find_session : Text → Roster → Option ℕ
find_session id roster = get id roster

-- `findByNickname`: the first welcomed session with the nickname.
unfoldable pub find_by_nickname : Text → Heap → Roster → Option ℕ
find_by_nickname nickname heap [] = none
find_by_nickname nickname heap ((id, r) ∷ roster) =
    if (heap r).welcomed && (heap r).nickname == nickname
    then some r
    else find_by_nickname nickname heap roster

-- `all()`
unfoldable pub all_sessions : Roster → List ℕ
all_sessions [] = []
all_sessions ((id, r) ∷ roster) = r ∷ all_sessions roster

abbrev pub summary_of : Session → UserSummary
summary_of s = record { id = s.id; username = s.nickname; presence = s.presence }

unfoldable pub welcomed_users : Heap → Roster → List UserSummary
welcomed_users heap [] = []
welcomed_users heap ((id, r) ∷ roster) =
    let rest = welcomed_users heap roster in
    if (heap r).welcomed then summary_of (heap r) ∷ rest else rest
