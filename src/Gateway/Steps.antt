-- ===== src/Gateway/Steps.antt =====
-- The gateway as a machine of events: what sockets, timers and libraries call, one at a time, in any
-- order. Between the events the handlers of gatewayServer.ts run to their next `await`.
use thread_link.Prelude.{ℕ, zero, suc, Option, none, some, List, [], ◌∷◌}
use thread_link.BackendMessages.{BackendEvent}
use thread_link.Database.{Db}
use thread_link.Sessions.{new_session}
use thread_link.Environment.{Environment}
use thread_link.Gateway.{Gateway, AuthTask}
use thread_link.Gateway.BackendEvents.{on_backend_event, backend_socket_closed}
use thread_link.Gateway.Login.{
  on_connection, on_client_raw, resume, connect_failed, connect_resolved, on_client_closed, close,
  destroy_backend,
}

pub data Event : Type 0 where
  -- a browser connects
  opened : Event
  -- a message, a close of the WebSocket of a session
  received : ℕ → List ℕ → Event
  ws_ended : ℕ → Event
  -- the waiting `handleAuth` at the position goes on
  resumed : ℕ → Event
  -- the connection to the backend is made, fails, brings a line, ends
  backend_up backend_failed : ℕ → Event
  backend_says : ℕ → BackendEvent → Event
  backend_down : ℕ → Event
  -- it sends a frame that is too large, on which it is closed from this side
  backend_overflows : ℕ → Event
  -- `close`
  shutdown : Event

unfoldable pub task_at : ℕ → List (ℕ × AuthTask) → Option (ℕ × AuthTask)
task_at n [] = none
task_at zero (t ∷ ts) = some t
task_at (suc n) (t ∷ ts) = task_at n ts

unfoldable pub without_task : ℕ → List (ℕ × AuthTask) → List (ℕ × AuthTask)
without_task n [] = []
without_task zero (t ∷ ts) = ts
without_task (suc n) (t ∷ ts) = t ∷ without_task n ts

module _ (env : Environment) (limit : ℕ) where
  unfoldable pub step : Gateway → Event → Gateway
  step g opened = on_connection env g
  step g (received r raw) = on_client_raw env limit r raw g
  step g (ws_ended r) = on_client_closed r g
  step g (resumed n) = elim (task_at n g.tasks) [
    | none ↦ g
    | some (r, task) ↦ resume env r task (record g { tasks = without_task n g.tasks })
  ]
  step g (backend_up r) = connect_resolved r g
  step g (backend_failed r) = connect_failed r g
  step g (backend_says r event) = on_backend_event env r event g
  step g (backend_down r) = backend_socket_closed r g
  step g (backend_overflows r) = destroy_backend r g
  step g shutdown = close g

  unfoldable pub run : Gateway → List Event → Gateway
  run g [] = g
  run g (e ∷ es) = run (step g e) es

-- A gateway on a database, before any connection.
unfoldable pub start : Environment → Db → Gateway
start env db = record {
  db = db;
  heap = λ r. new_session [];
  roster = [];
  tasks = [];
  opened = 0;
  drawn = 0;
  log = [];
}
