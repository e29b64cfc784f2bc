-- ===== src/Gateway/Safety/Reachable.antt =====
-- The events of Gateway/Steps that can happen, and the states that they lead to.
use thread_link.Prelude.{
  ℕ, zero, suc, ◌≡◌, refl, subst, ◌≢◌, ◌<◌, Option, none, some, List, [], ◌∷◌, All,
}
use thread_link.Database.{Db}
use thread_link.Sessions.{absent, new_session}
use thread_link.Environment.{Environment}
use thread_link.Gateway.{Gateway, AuthTask}
use thread_link.Gateway.Login.{resume}
use thread_link.Gateway.Steps.{
  Event, opened, received, ws_ended, resumed, backend_up, backend_failed, backend_says,
  backend_down, backend_overflows, shutdown, task_at, without_task, step, start,
}
use thread_link.Gateway.Safety.{Safe, Good}
use thread_link.Gateway.Safety.BackendEvents.{Good-on_backend_event, Good-backend_socket_closed}
use thread_link.Gateway.Safety.Login.{Safe-on_connection, Safe-on_client_raw, Safe-resume}
use thread_link.Gateway.Safety.Closing.{
  Good-destroy_backend, Good-connect_failed, Good-connect_resolved, Safe-on_client_closed,
  Safe-close,
}

-- A WebSocket acts once it is open, a backend connection once it was created.
abbrev pub IsPossible : Gateway → Event → Type 0
IsPossible g (received r raw) = r < g.opened
IsPossible g (ws_ended r) = r < g.opened
IsPossible g (backend_up r) = (g.heap r).backend ≢ absent
IsPossible g (backend_failed r) = (g.heap r).backend ≢ absent
IsPossible g (backend_says r event) = (g.heap r).backend ≢ absent
IsPossible g (backend_down r) = (g.heap r).backend ≢ absent
IsPossible g (backend_overflows r) = (g.heap r).backend ≢ absent
IsPossible g _ = Unit

pub data Reachable (env : Environment) (limit : ℕ) (db : Db) : Gateway → Type 0 where
  started : Reachable env limit db (start env db)
  stepped :
      (g : Gateway) (e : Event)
      → Reachable env limit db g
      → IsPossible g e
      → Reachable env limit db (step env limit g e)

Safe-start : (env : Environment) (db : Db) → Safe (start env db)
unfolding start new_session
Safe-start env db = record {
  roster_live = tt;
  log_allowed = tt;
  backend_live = λ r h. absurd (h refl);
  tasks_opened = tt;
}

All-without_task :
    (P : ℕ × AuthTask → Type 0) (n : ℕ) (ts : List (ℕ × AuthTask))
    → All P ts
    → All P (without_task n ts)
unfolding without_task
All-without_task P n [] h = tt
All-without_task P zero (t ∷ ts) (p, h) = h
All-without_task P (suc n) (t ∷ ts) (p, h) = (p, All-without_task P n ts h)

All-task_at :
    (P : ℕ × AuthTask → Type 0) (n : ℕ) (t : ℕ × AuthTask) (ts : List (ℕ × AuthTask))
    → All P ts
    → task_at n ts ≡ some t
    → P t
unfolding task_at
All-task_at P n t [] h e = absurd cc
All-task_at P zero t (s ∷ ts) (p, h) e = let same : s ≡ t = cc in subst P same p
All-task_at P (suc n) t (s ∷ ts) (p, h) e = All-task_at P n t ts h e

Safe-without_task :
    (n : ℕ) (g : Gateway) → Safe g → Safe (record g { tasks = without_task n g.tasks })
Safe-without_task n g s = record {
  roster_live = s.roster_live;
  log_allowed = s.log_allowed;
  backend_live = s.backend_live;
  tasks_opened = All-without_task (λ (t : ℕ × AuthTask). t.0 < g.opened) n g.tasks s.tasks_opened;
}

Safe-resumed :
    (env : Environment) (n : ℕ) (g : Gateway) (o : Option (ℕ × AuthTask))
    → Safe g
    → task_at n g.tasks ≡ o
    → Safe (elim o [
      | none ↦ g
      | some (r, task) ↦ resume env r task (record g { tasks = without_task n g.tasks })
    ])
Safe-resumed env n g none h e = h
Safe-resumed env n g (some (r, task)) h e =
    Safe-resume env r task _ (Safe-without_task n g h)
      (All-task_at (λ (t : ℕ × AuthTask). t.0 < g.opened) n (r, task) g.tasks h.tasks_opened e)

with_backend : (r : ℕ) (g : Gateway) → Safe g → (g.heap r).backend ≢ absent → Good r g
with_backend r g h k = record { safe = h; live = h.backend_live r k }

step-Safe :
    (env : Environment) (limit : ℕ) (g : Gateway) (e : Event)
    → Safe g
    → IsPossible g e
    → Safe (step env limit g e)
unfolding step
step-Safe env limit g opened h k = Safe-on_connection env g h
step-Safe env limit g (received r raw) h k = Safe-on_client_raw env r limit raw g h k
step-Safe env limit g (ws_ended r) h k = Safe-on_client_closed r g h k
step-Safe env limit g (resumed n) h k = Safe-resumed env n g (task_at n g.tasks) h refl
step-Safe env limit g (backend_up r) h k = (Good-connect_resolved r g (with_backend r g h k)).safe
step-Safe env limit g (backend_failed r) h k = (Good-connect_failed r g (with_backend r g h k)).safe
step-Safe env limit g (backend_says r event) h k =
    (Good-on_backend_event env r event g (with_backend r g h k)).safe
step-Safe env limit g (backend_down r) h k =
    (Good-backend_socket_closed r g (with_backend r g h k)).safe
step-Safe env limit g (backend_overflows r) h k =
    (Good-destroy_backend r g (with_backend r g h k)).safe
step-Safe env limit g shutdown h k = Safe-close g h

-- In every state that the gateway can reach, whatever the order of the events: only sessions that
-- have logged in are in the roster or have a backend connection, and a session that has not logged
-- in was sent nothing but error messages.
pub Reachable-Safe :
    (env : Environment) (limit : ℕ) (db : Db) (g : Gateway) → Reachable env limit db g → Safe g
Reachable-Safe env limit db g started = Safe-start env db
Reachable-Safe env limit db g (stepped g' e h k) =
    step-Safe env limit g' e (Reachable-Safe env limit db g' h) k
