-- ===== src/Gateway/Safety/Login.antt =====
-- Connections and authentication keep the invariant.
use thread_link.Prelude.{
  ℕ, suc, refl, ◌<◌, true, false, ◌&&◌, Option, none, some, List, [], ◌∷◌, ◌++◌, All, All-append,
  All-imp, arith, Text, if◌then◌else◌, ◌==◌, put,
}
use thread_link.Protocol.{
  ClientMessage, register, login, logout, set_nickname, send_message, create_group, set_presence,
  request_state,
}
use thread_link.ClientProtocol.{ok, refused, threw, Validation, validate_client_message}
use thread_link.ClientProtocol.Values.{Json}
use thread_link.Database.{Db, user_by_username}
use thread_link.Users.{UserRecord, Result, done, thrown, register_check, login_verify}
use thread_link.Sessions.{Roster, add, new_session, queue_until_ready, create_backend_connection}
use thread_link.Environment.{Environment}
use thread_link.Gateway.{
  Gateway, rejected, AuthTask, registering, verifying, backend_opened, set_session,
}
use thread_link.Gateway.Login.{
  on_connection, sign_in, registered, handle_register, handle_login, handle_logout, dispatch,
  on_parsed, on_client_raw, resume,
}
use thread_link.Gateway.Safety.{
  Safe, Good, IsLive, IsAllowed, IsAllowed-imp, Safe-if, Safe-branch, Safe-error, Safe-set_session,
  Good-emit, Good-send, Safe-set_db, Safe-emit,
}
use thread_link.Gateway.Safety.Actions.{Good-close_ws}
use thread_link.Gateway.Safety.Messaging.{Good-handle_client_message}

All-put :
    (P : Text × ℕ → Type 0) (k : Text) (r : ℕ) (m : Roster) → P (k, r) → All P m → All P (put k r m)
unfolding put
All-put P k r [] p h = (p, tt)
All-put P k r ((j, q) ∷ m) p (l, h) =
    elim (j == k) as (λ b. All P (if b then (k, r) ∷ m else (j, q) ∷ put k r m)) [
      | true ↦ (p, h)
      | false ↦ (l, All-put P k r m p h)
    ]

pub Safe-roster :
    (roster : Roster) (g : Gateway)
    → Safe g
    → All (λ (e : Text × ℕ). IsLive g e.1) roster
    → Safe (record g { roster = roster })
Safe-roster roster g s h = record {
  roster_live = h;
  log_allowed = s.log_allowed;
  backend_live = s.backend_live;
  tasks_opened = s.tasks_opened;
}

Good-add : (r : ℕ) (g : Gateway) → Good r g → Good r (record g { roster = add r g.heap g.roster })
unfolding add
Good-add r g h = record {
  safe =
      Safe-roster (put (g.heap r).id r g.roster) g h.safe
        (All-put (λ e. IsLive g e.1) (g.heap r).id r g.roster h.live h.safe.roster_live);
  live = h.live;
}

pub Safe-on_connection : (env : Environment) (g : Gateway) → Safe g → Safe (on_connection env g)
unfolding on_connection new_session
Safe-on_connection env g h =
    let g' = on_connection env g in
    let keep : (q : ℕ) → IsLive g q → IsLive g' q = λ q k. ground arith in
    record {
      roster_live =
          All-imp (λ (e : Text × ℕ). IsLive g e.1) (λ (e : Text × ℕ). IsLive g' e.1) g.roster
            (λ e. keep e.1) h.roster_live;
      log_allowed =
          All-imp (IsAllowed g) (IsAllowed g') g.log (IsAllowed-imp g g' keep) h.log_allowed;
      backend_live = λ q k. ground (arith, h.backend_live q);
      tasks_opened =
          All-imp (λ (t : ℕ × AuthTask). t.0 < g.opened) (λ (t : ℕ × AuthTask). t.0 < g'.opened)
            g.tasks (λ t k. omega arith) h.tasks_opened;
    }

Safe-wait :
    (r : ℕ) (task : AuthTask) (n : ℕ) (g : Gateway)
    → Safe g
    → r < g.opened
    → Safe (record g { tasks = g.tasks ++ (r, task) ∷ []; drawn = n })
Safe-wait r task n g s h = record {
  roster_live = s.roster_live;
  log_allowed = s.log_allowed;
  backend_live = s.backend_live;
  tasks_opened =
      All-append (λ (t : ℕ × AuthTask). t.0 < g.opened) g.tasks ((r, task) ∷ []) s.tasks_opened
        (h, tt);
}

pub Safe-sign_in :
    (r : ℕ) (account : UserRecord) (g : Gateway)
    → Safe g
    → r < g.opened
    → Safe (sign_in r account g)
unfolding sign_in create_backend_connection
Safe-sign_in r account g h k =
    let s = create_backend_connection (record (g.heap r) {
      id = account.id;
      authenticated = true;
      desired_username = some account.username;
    }) in
    let g' = set_session r s g in
    let good : Good r g' = record {
      safe = Safe-set_session r s g h (λ _. refl) (λ _. (refl, k));
      live = ground arith;
    } in
    Safe-if _ _ _ (Safe-error r _ _ none g h)
      (Good-emit r (backend_opened r) _ (Good-add r g' good) tt).safe

Safe-registered :
    (r : ℕ) (g : Gateway) (o : Db × Result UserRecord)
    → Safe g
    → r < g.opened
    → Safe (registered r g o)
unfolding registered
Safe-registered r g (db, thrown e) h k = Safe-error r _ e none _ (Safe-set_db db (suc g.drawn) g h)
Safe-registered r g (db, done account) h k =
    Safe-sign_in r account _ (Safe-set_db db (suc g.drawn) g h) k

Safe-option :
    {A : Type 0} (o : Option A) (a : Gateway) (f : A → Gateway)
    → Safe a
    → ((x : A) → Safe (f x))
    → Safe (elim o [ none ↦ a | some x ↦ f x ])
Safe-option none a f h k = h
Safe-option (some x) a f h k = k x

Safe-validation :
    (v : Validation ClientMessage) (f : Text → Gateway) (a : Gateway) (k : ClientMessage → Gateway)
    → ((e : Text) → Safe (f e))
    → Safe a
    → ((m : ClientMessage) → Safe (k m))
    → Safe (elim v [ refused e ↦ f e | threw ↦ a | ok m ↦ k m ])
Safe-validation (refused e) f a k h t l = h e
Safe-validation threw f a k h t l = t
Safe-validation (ok m) f a k h t l = l m

module _ (env : Environment) (r : ℕ) where
  Safe-handle_register :
      (username password : Text) (g : Gateway)
      → Safe g
      → r < g.opened
      → Safe (handle_register env r username password g)
  unfolding handle_register
  Safe-handle_register username password g h k =
      Safe-option (register_check g.db username password) _ _ (Safe-wait r _ (suc g.drawn) g h k)
        (λ e. Safe-error r _ e none g h)

  Safe-handle_login :
      (username password : Text) (g : Gateway)
      → Safe g
      → r < g.opened
      → Safe (handle_login env r username password g)
  unfolding handle_login
  Safe-handle_login username password g h k =
      Safe-option (user_by_username username g.db.users) _ _ (Safe-error r _ _ none g h)
        (λ row. Safe-wait r (verifying row password) g.drawn g h k)

  Safe-handle_logout : (g : Gateway) → Safe g → r < g.opened → Safe (handle_logout env r g)
  unfolding handle_logout
  Safe-handle_logout g h k =
      Safe-branch (g.heap r).authenticated _ _
        (λ a. (Good-close_ws r 1000 _ (Good-send r _ g (record { safe = h; live = (a, k) }))).safe)
        (λ _. Safe-error r _ _ none g h)

  Safe-gated :
      (m : ClientMessage) (g a : Gateway)
      → Safe g
      → r < g.opened
      → (Good r g → Good r a)
      → Safe (
          if (g.heap r).authenticated && (g.heap r).welcomed
          then a
          else set_session r (queue_until_ready m (g.heap r)) g)
  unfolding queue_until_ready
  Safe-gated m g a h k f =
      Safe-branch ((g.heap r).authenticated && (g.heap r).welcomed) _ _
        (λ e. (f (record { safe = h; live = (ground arith, k) })).safe)
        (λ _. Safe-set_session r (queue_until_ready m (g.heap r)) g h (λ e. e) (h.backend_live r))

  Safe-dispatch :
      (m : ClientMessage) (g : Gateway) → Safe g → r < g.opened → Safe (dispatch env r m g)
  unfolding dispatch
  Safe-dispatch (register username password) g h k =
      Safe-if _ _ _ (Safe-error r _ _ none g h) (Safe-handle_register username password g h k)
  Safe-dispatch (login username password) g h k =
      Safe-if _ _ _ (Safe-error r _ _ none g h) (Safe-handle_login username password g h k)
  Safe-dispatch logout g h k = Safe-handle_logout g h k
  Safe-dispatch (set_nickname n) g h k =
      Safe-gated _ g _ h k (Good-handle_client_message env r (set_nickname n) g)
  Safe-dispatch (send_message t s) g h k =
      Safe-gated _ g _ h k (Good-handle_client_message env r (send_message t s) g)
  Safe-dispatch (create_group n ids) g h k =
      Safe-gated _ g _ h k (Good-handle_client_message env r (create_group n ids) g)
  Safe-dispatch (set_presence p) g h k =
      Safe-gated _ g _ h k (Good-handle_client_message env r (set_presence p) g)
  Safe-dispatch request_state g h k =
      Safe-gated _ g _ h k (Good-handle_client_message env r request_state g)

  Safe-on_parsed :
      (o : Option Json) (g : Gateway) → Safe g → r < g.opened → Safe (on_parsed env r o g)
  unfolding on_parsed
  Safe-on_parsed none g h k = Safe-error r _ _ none g h
  Safe-on_parsed (some raw) g h k =
      Safe-validation (validate_client_message raw) _ _ _ (λ e. Safe-error r _ e none g h)
        (Safe-emit (rejected r) g h tt) (λ m. Safe-dispatch m g h k)

  pub Safe-on_client_raw :
      (limit : ℕ) (raw : List ℕ) (g : Gateway)
      → Safe g
      → r < g.opened
      → Safe (on_client_raw env limit r raw g)
  unfolding on_client_raw
  Safe-on_client_raw limit raw g h k =
      Safe-if _ _ _ (Safe-error r _ _ none g h) (Safe-on_parsed (env.parse_json raw) g h k)

  pub Safe-resume :
      (task : AuthTask) (g : Gateway) → Safe g → r < g.opened → Safe (resume env r task g)
  unfolding resume
  Safe-resume (registering username stored) g h k = Safe-registered r g _ h k
  Safe-resume (verifying row password) g h k =
      Safe-option (login_verify env.scrypt password row) _ _ (Safe-error r _ _ none g h)
        (λ account. Safe-sign_in r account g h k)
