-- ===== src/Gateway/Login.antt =====
-- `onConnection`, `onClientRaw`, `handleAuth`, `handleLogout` and `onClientClosed` of
-- gatewayServer.ts, cut at their `await`s.
use thread_link.Prelude.{
  ℕ, suc, Bool, true, false, ◌&&◌, not, Option, none, some, List, [], ◌∷◌, ◌++◌, length, ltb,
  nat_beq, if◌then◌else◌, Text, js, decimal,
}
use thread_link.Protocol.{ClientMessage, register, login, logout, error, logged_out, user_offline}
use thread_link.ClientProtocol.{threw, ok, refused, validate_client_message}
use thread_link.ClientProtocol.Values.{Json}
use thread_link.Database.{Db, user_by_username}
use thread_link.Auth.{hash_password}
use thread_link.Users.{
  UserRecord, Result, done, thrown, register_check, register_insert, login_verify,
}
use thread_link.Sessions.{
  new_session, queue_until_ready, create_backend_connection, add, remove, find_session,
  all_sessions, Heap, closed, connecting, connected,
}
use thread_link.Environment.{Environment}
use thread_link.Gateway.{
  Gateway, backend_opened, backend_destroyed, AuthTask, registering, verifying, emit, set_session,
  draw, send_to, close_ws, rejected,
}
use thread_link.Gateway.Actions.{broadcast_to_all}
use thread_link.Gateway.Messaging.{handle_client_message}

-- What fails while a `register` or a `login` is handled.
abbrev register_failed : ℕ → Text → Gateway → Gateway
register_failed r text g = send_to r (error (js "REGISTER_FAILED") text none) g

abbrev login_failed : ℕ → Gateway → Gateway
login_failed r g = send_to r (error (js "LOGIN_FAILED") (js "Invalid username or password.") none) g

abbrev wait_for : ℕ → AuthTask → Gateway → Gateway
wait_for r task g = record g { tasks = g.tasks ++ (r, task) ∷ [] }

-- `existing && !existing.closed`
abbrev pub is_in_use : Option ℕ → Heap → Bool
is_in_use none heap = false
is_in_use (some r) heap = not (heap r).closed

abbrev mark_closed : ℕ → Gateway → Gateway
mark_closed r g =
    emit (backend_destroyed r) (set_session r (record (g.heap r) { backend = closed }) g)

-- `session.backend?.close()`
abbrev pub destroy_backend : ℕ → Gateway → Gateway
destroy_backend r g = elim (g.heap r).backend [
  | connecting ↦ mark_closed r g
  | connected ↦ mark_closed r g
  | _ ↦ g
]

-- `onConnection`
unfoldable pub on_connection : Environment → Gateway → Gateway
on_connection env g = draw (record g {
  heap = λ q. if nat_beq g.opened q then new_session (env.random_uuid g.drawn) else g.heap q;
  opened = suc g.opened;
})

-- `handleAuth` from the account on, up to `await backend.connect()`.
unfoldable pub sign_in : ℕ → UserRecord → Gateway → Gateway
sign_in r account g =
    if is_in_use (find_session account.id g.roster) g.heap
    then send_to r
        (error (js "ALREADY_LOGGED_IN") (js "This account is already connected elsewhere.") none) g
    else (let s = create_backend_connection (record (g.heap r) {
      id = account.id;
      authenticated = true;
      desired_username = some account.username;
    }) in
        let g' = set_session r s g in
        emit (backend_opened r) (record g' { roster = add r g'.heap g'.roster }))

-- `handleAuth` from the answer of `register` on.
unfoldable pub registered : ℕ → Gateway → Db × Result UserRecord → Gateway
registered r g (db, thrown e) = register_failed r e (draw (record g { db = db }))
registered r g (db, done account) = sign_in r account (draw (record g { db = db }))

module _ (env : Environment) where
  -- `handleAuth` up to the first `await` that waits for scrypt.
  unfoldable pub handle_register : ℕ → Text → Text → Gateway → Gateway
  handle_register r username password g = elim (register_check g.db username password) [
    | some e ↦ register_failed r e g
    | none ↦
        wait_for r
          (registering username (hash_password env.scrypt (env.random_salt g.drawn) password))
          (draw g)
  ]

  unfoldable pub handle_login : ℕ → Text → Text → Gateway → Gateway
  handle_login r username password g = elim (user_by_username username g.db.users) [
    | none ↦ login_failed r g
    | some row ↦ wait_for r (verifying row password) g
  ]

  abbrev already_authenticated : ℕ → Gateway → Gateway
  already_authenticated r g =
      send_to r (error (js "ALREADY_AUTHENTICATED") (js "Already logged in.") none) g

  unfoldable pub handle_logout : ℕ → Gateway → Gateway
  handle_logout r g =
      if (g.heap r).authenticated
      then close_ws r 1000 (send_to r logged_out g)
      else send_to r (error (js "NOT_AUTHENTICATED") (js "Not logged in.") none) g

  unfoldable pub dispatch : ℕ → ClientMessage → Gateway → Gateway
  dispatch r (register username password) g =
      if (g.heap r).authenticated
      then already_authenticated r g
      else handle_register r username password g
  dispatch r (login username password) g =
      if (g.heap r).authenticated
      then already_authenticated r g
      else handle_login r username password g
  dispatch r logout g = handle_logout r g
  dispatch r m g =
      if (g.heap r).authenticated && (g.heap r).welcomed
      then handle_client_message env r m g
      else set_session r (queue_until_ready m (g.heap r)) g

  unfoldable pub on_parsed : ℕ → Option Json → Gateway → Gateway
  on_parsed r none g = send_to r (error (js "BAD_JSON") (js "Message was not valid JSON.") none) g
  on_parsed r (some raw) g = elim (validate_client_message raw) [
    | refused e ↦ send_to r (error (js "BAD_MESSAGE") e none) g
    | threw ↦ emit (rejected r) g
    | ok m ↦ dispatch r m g
  ]

  -- `onClientRaw`, under `maxClientMessageBytes`.
  unfoldable pub on_client_raw : ℕ → ℕ → List ℕ → Gateway → Gateway
  on_client_raw limit r raw g =
      if ltb limit (length raw)
      then send_to r
          (error (js "MESSAGE_TOO_LARGE")
            (js "Message exceeds the " ++ (decimal limit ++ js "-byte limit.")) none)
          g
      else on_parsed r (env.parse_json raw) g

  -- `handleAuth` resumed after scrypt.
  unfoldable pub resume : ℕ → AuthTask → Gateway → Gateway
  resume r (registering username stored) g = registered r g (
      register_insert env.constraint_message g.db username stored (env.random_uuid g.drawn)
        (env.iso_now g.drawn))
  resume r (verifying row password) g = elim (login_verify env.scrypt password row) [
    | none ↦ login_failed r g
    | some account ↦ sign_in r account g
  ]

-- `await backend.connect()` rejects.
unfoldable pub connect_failed : ℕ → Gateway → Gateway
connect_failed r g =
    let told =
      send_to r
        (error (js "BACKEND_UNAVAILABLE") (js "Could not reach the ThreadLink server.") none) g in
    let g' = close_ws r 1011 told in record g' { roster = remove (g'.heap r).id g'.roster }

-- `await backend.connect()` resolves; a connection that was closed meanwhile stays closed.
unfoldable pub connect_resolved : ℕ → Gateway → Gateway
connect_resolved r g = elim (g.heap r).backend [
  | connecting ↦ set_session r (record (g.heap r) { backend = connected }) g
  | _ ↦ g
]

abbrev announce_offline : ℕ → Gateway → Gateway
announce_offline r g =
    if (g.heap r).welcomed
    then broadcast_to_all (user_offline (g.heap r).id) (some (g.heap r).id) g
    else g

-- `onClientClosed`
unfoldable pub on_client_closed : ℕ → Gateway → Gateway
on_client_closed r g =
    if (g.heap r).closed
    then g
    else (let g₁ = set_session r (record (g.heap r) { closed = true; ws_open = false }) g in
        if (g.heap r).authenticated
        then (let g₂ = destroy_backend r g₁ in
            announce_offline r (record g₂ { roster = remove (g₂.heap r).id g₂.roster }))
        else g₁)

-- The loop of `close`.
unfoldable pub close_sessions : List ℕ → Gateway → Gateway
close_sessions [] g = g
close_sessions (r ∷ rs) g = close_sessions rs (close_ws r 1001 (destroy_backend r g))

unfoldable pub close : Gateway → Gateway
close g = close_sessions (all_sessions g.roster) g
