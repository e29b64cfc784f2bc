-- ===== src/Gateway/LoginRun.antt =====
-- A login from the account on to the `ready` that its browser waits for.
use mathlib.Core.List.{append_assoc}
use thread_link.Prelude.{
  ℕ, ◌≡◌, refl, sym, ap, ◌∙◌, subst, true, false, some, List, [], ◌∷◌, ◌++◌, map, arith, nat_beq,
  nat_beq_iff, eq_refl, Text, ◌==◌,
}
use thread_link.Protocol.{Ready, ready, user_update}
use thread_link.BackendMessages.{format_nick_command, welcome, nick}
use thread_link.Users.{UserRecord}
use thread_link.Conversations.{public_conversation, conversations_for}
use thread_link.Messages.{history_for_user}
use thread_link.Sessions.{
  find_session, welcomed_users, create_backend_connection, drain_queue, all_sessions, connecting,
  connected,
}
use thread_link.Environment.{Environment}
use thread_link.Gateway.{
  Gateway, Effect, backend_opened, line, sent, send_to, set_session, send_line,
}
use thread_link.Gateway.Actions.{summarize, broadcast_to_all, send_ready, ready_message}
use thread_link.Gateway.BackendEvents.{
  settle, on_backend_event, on_welcome, on_nick, announce_ready, handle_all,
}
use thread_link.Gateway.Login.{is_in_use, sign_in, connect_resolved}
use thread_link.Gateway.Grows.{Grows, Grows-broadcast_from}
use thread_link.Gateway.Steps.{backend_up, backend_says, step}

-- A session that has its account, and waits to be ready with nothing in its queue.
record Waiting (r : ℕ) (account : UserRecord) (log : List Effect) (g : Gateway) : Type 0 where
  is_open : (g.heap r).ws_open ≡ true
  own_id : (g.heap r).id ≡ account.id
  not_ready : (g.heap r).ready_announced ≡ false
  idle : (g.heap r).pending ≡ []
  logged : g.log ≡ log

self : (r : ℕ) → nat_beq r r ≡ true
self r = (nat_beq_iff r r).1 refl

Waiting-sign_in :
    (r : ℕ) (account : UserRecord) (g : Gateway)
    → is_in_use (find_session account.id g.roster) g.heap ≡ false
    → (g.heap r).ws_open ≡ true
    → (g.heap r).ready_announced ≡ false
    → (g.heap r).pending ≡ []
    → Waiting r account (g.log ++ backend_opened r ∷ []) (sign_in r account g)
      × (((sign_in r account g).heap r).backend ≡ connecting)
      × (((sign_in r account g).heap r).desired_username ≡ some account.username)
unfolding sign_in create_backend_connection
Waiting-sign_in r account g free h k p = ground (arith, self r)

Waiting-backend_up :
    (env : Environment) (limit r : ℕ) (account : UserRecord) (log : List Effect) (g : Gateway)
    → Waiting r account log g
    → (g.heap r).backend ≡ connecting
    → let s = (step env limit g (backend_up r)).heap r in
      Waiting r account log (step env limit g (backend_up r))
      × (s.backend ≡ connected)
      × (s.desired_username ≡ (g.heap r).desired_username)
unfolding step connect_resolved
Waiting-backend_up env limit r account log g w b = ground (arith, self r)

Waiting-on_welcome :
    (env : Environment) (r : ℕ) (account : UserRecord) (log : List Effect) (g : Gateway)
    (nickname : Text) (c : ℕ) (s : Text)
    → Waiting r account log g
    → (g.heap r).backend ≡ connected
    → (g.heap r).desired_username ≡ some (c ∷ s)
    → ((c ∷ s) == nickname) ≡ false
    → Waiting r account
        (log ++ line r (format_nick_command (c ∷ s)) ∷ [])
        (on_welcome env r nickname g)
      × (((on_welcome env r nickname g).heap r).nickname ≡ nickname)
unfolding on_welcome send_line
Waiting-on_welcome env r account log g nickname c s w b desired other = ground (arith, self r)

-- What `announceReady` does to a session with nothing in its queue.
pub record IsReady (r : ℕ) (account : UserRecord) (log : List Effect) (g : Gateway) : Type 0 where
  pub message : Ready
  pub told_id : message.user_id ≡ account.id
  pub told_username : message.username ≡ account.username
  pub rest : List Effect
  pub logged : g.log ≡ log ++ sent r (ready message) ∷ rest
  pub announced : (g.heap r).ready_announced ≡ true

-- The end of `announceReady`, behind the broadcast.
abbrev drained : Environment → ℕ → Gateway → Gateway
drained env r g =
    let (queued, s) = drain_queue (g.heap r) in handle_all env r queued (set_session r s g)

IsReady-drained :
    (env : Environment) (r : ℕ) (account : UserRecord) (log es : List Effect) (told : Ready)
    (g : Gateway)
    → (g.heap r).pending ≡ []
    → (g.heap r).ready_announced ≡ true
    → told.user_id ≡ account.id
    → told.username ≡ account.username
    → g.log ≡ log ++ sent r (ready told) ∷ []
    → IsReady r account log (drained env r (record g { log = g.log ++ es }))
unfolding handle_all drain_queue
IsReady-drained env r account log es told g idle done id username logged = record {
  message = told;
  told_id = id;
  told_username = username;
  rest = es;
  logged = rw idle (ap (λ l. l ++ es) logged ∙ append_assoc log (sent r (ready told) ∷ []) es);
  announced = rw idle (ground (arith, self r));
}

told_of : Environment → ℕ → Gateway → Ready
told_of env r g =
    let users = welcomed_users g.heap g.roster in
    record {
      user_id = (g.heap r).id;
      username = (g.heap r).nickname;
      users = users;
      conversations =
          public_conversation (map (λ u. u.id) users) ∷ conversations_for (g.heap r).id g.db;
      messages = history_for_user env.by_created_at (g.heap r).id g.db;
    }

IsReady-announce :
    (env : Environment) (r : ℕ) (account : UserRecord) (log : List Effect) (g : Gateway)
    → Waiting r account log g
    → (g.heap r).nickname ≡ account.username
    → IsReady r account log (announce_ready env r g)
unfolding announce_ready send_ready ready_message broadcast_to_all Grows told_of
IsReady-announce env r account log g w named =
    let g₁ = set_session r (record (g.heap r) { ready_announced = true }) g in
    let g₂ = send_to r (ready (told_of env r g₁)) g₁ in
    let m = user_update (summarize r g₂) in
    let (es, e) = Grows-broadcast_from (all_sessions g₂.roster) m (some (g₂.heap r).id) g₂ in
    subst (IsReady r account log) (sym (ap (drained env r) e)) (
      unfold send_to in
      IsReady-drained env r account log es (told_of env r g₁) g₂ (ground (arith, self r, w.idle))
        (ground (arith, self r)) (ground (arith, self r, w.own_id)) (ground (arith, self r, named))
        (ground (arith, self r, w.is_open, w.logged)))

-- The session between the gateway's "/nick" and the server's NICK.
IsReady-on_nick :
    (env : Environment) (r : ℕ) (account : UserRecord) (log : List Effect) (g : Gateway)
    (nickname : Text)
    → Waiting r account log g
    → (g.heap r).nickname ≡ nickname
    → IsReady r account log (on_nick env r nickname account.username g)
unfolding on_nick
IsReady-on_nick env r account log g nickname w named =
    let s = g.heap r in
    let renamed =
      set_session r
        (record s {
          nickname = account.username;
          desired_username = settle s.desired_username account.username;
        })
        g in
    let same : on_nick env r nickname account.username g ≡ announce_ready env r renamed =
      ground (arith, w.not_ready, named, eq_refl nickname) in
    let w' : Waiting r account log renamed =
      ground (arith, self r, w.logged, w.idle, w.not_ready, w.own_id, w.is_open) in
    subst (IsReady r account log) (sym same)
      (IsReady-announce env r account log renamed w' (ground (arith, self r)))

-- The run of the gateway from the account on: the login, the connection to the backend, the welcome under
-- a nickname of the server's, and the change to the account's name.
abbrev pub login_run : Environment → ℕ → ℕ → UserRecord → Text → Gateway → Gateway
login_run env limit r account nickname g =
    let g₁ = sign_in r account g in
    let g₂ = step env limit g₁ (backend_up r) in
    let g₃ = step env limit g₂ (backend_says r (welcome nickname)) in
    step env limit g₃ (backend_says r (nick nickname account.username))

-- A login runs to its end: when the account is not in use, and the session is open, not ready yet and has
-- nothing in its queue, then after the connection to the backend, its welcome under another nickname and
-- the change to the account's name the browser is told `ready`, with the id and the name of the account.
-- Before that the connection is opened and the name is asked for, and nothing else leaves the gateway.
pub login_run-IsReady :
    (env : Environment) (limit r : ℕ) (account : UserRecord) (nickname : Text) (g : Gateway) (c : ℕ)
    (s : Text)
    → account.username ≡ c ∷ s
    → ((c ∷ s) == nickname) ≡ false
    → is_in_use (find_session account.id g.roster) g.heap ≡ false
    → (g.heap r).ws_open ≡ true
    → (g.heap r).ready_announced ≡ false
    → (g.heap r).pending ≡ []
    → IsReady r account
        ((g.log ++ backend_opened r ∷ []) ++ line r (format_nick_command (c ∷ s)) ∷ [])
        (login_run env limit r account nickname g)
unfolding step on_backend_event
login_run-IsReady env limit r account nickname g c s named other free is_open not_ready idle =
    let log₁ = g.log ++ backend_opened r ∷ [] in
    let g₁ = sign_in r account g in
    let g₂ = connect_resolved r g₁ in
    let g₃ = on_welcome env r nickname g₂ in
    let (w₁, b₁, d₁) = Waiting-sign_in r account g free is_open not_ready idle in
    let (w₂, b₂, d₂) = Waiting-backend_up env limit r account log₁ g₁ w₁ b₁ in
    let desired = d₂ ∙ d₁ ∙ ap some named in
    let (w₃, n₃) = Waiting-on_welcome env r account log₁ g₂ nickname c s w₂ b₂ desired other in
    IsReady-on_nick env r account _ g₃ nickname w₃ n₃
