-- ===== src/Gateway/BackendEvents.antt =====
-- `onBackendEvent`, `announceReady` and `onBackendClosed` of gatewayServer.ts.
use thread_link.Prelude.{
  ℕ, Bool, true, false, ◌&&◌, not, Option, none, some, List, [], ◌∷◌, if◌then◌else◌, Text, js, ◌==◌,
}
use thread_link.BackendMessages.{
  BackendEvent, welcome, sys, msg, priv, priv_sent, nick, list, err, unknown, format_nick_command,
}
use thread_link.Protocol.{ClientMessage, MessageSummary, chat, user_update, message, error}
use thread_link.Database.{public_conversation_id}
use thread_link.Users.{rename}
use thread_link.Conversations.{ensure_direct}
use thread_link.Sessions.{Session, drain_queue, find_by_nickname, closed}
use thread_link.Environment.{Environment}
use thread_link.Gateway.{Gateway, set_session, draw, send_to, close_ws, send_line}
use thread_link.Gateway.Actions.{broadcast_to_all, summarize, send_ready}
use thread_link.Gateway.Messaging.{handle_client_message}

abbrev id_of : Option ℕ → Gateway → Option Text
id_of none g = none
id_of (some r) g = some (g.heap r).id

-- `this.sessions.findByNickname(name)?.id`
abbrev pub id_by_nickname : Text → Gateway → Option Text
id_by_nickname name g = id_of (find_by_nickname name g.heap g.roster) g

abbrev or_name : Option Text → Text → Text
or_name none name = name
or_name (some id) name = id

-- `desired && desired !== nickname`
abbrev pub wants_other : Option Text → Text → Bool
wants_other none nickname = false
wants_other (some []) nickname = false
wants_other (some (c ∷ s)) nickname = not ((c ∷ s) == nickname)

abbrev claim_line : Option Text → Text
claim_line none = []
claim_line (some name) = format_nick_command name

-- `if (desiredUsername === newNick) desiredUsername = undefined;`
abbrev pub settle : Option Text → Text → Option Text
settle none new_nick = none
settle (some d) new_nick = if d == new_nick then none else some d

module _ (env : Environment) where
  -- The loop over the drained queue.
  unfoldable pub handle_all : ℕ → List ClientMessage → Gateway → Gateway
  handle_all r [] g = g
  handle_all r (m ∷ ms) g = handle_all r ms (handle_client_message env r m g)

  unfoldable pub announce_ready : ℕ → Gateway → Gateway
  announce_ready r g =
      let g₁ = set_session r (record (g.heap r) { ready_announced = true }) g in
      let g₂ = send_ready env r g₁ in
      let g₃ = broadcast_to_all (user_update (summarize r g₂)) (some (g₂.heap r).id) g₂ in
      let (queued, s) = drain_queue (g₃.heap r) in handle_all r queued (set_session r s g₃)

  unfoldable pub on_welcome : ℕ → Text → Gateway → Gateway
  on_welcome r nickname g =
      let s = record (g.heap r) { welcomed = true; nickname = nickname } in
      let g' = set_session r s g in
      if wants_other s.desired_username nickname
      then send_line r (claim_line s.desired_username) g'
      else announce_ready r g'

  -- The rename of a session that is ready, announced and persisted.
  unfoldable pub persist_rename : ℕ → Text → Gateway → Gateway
  persist_rename r new_nick g =
      let g' = broadcast_to_all (user_update (summarize r g)) none g in
      record g' { db = (rename env.constraint_message g'.db (g'.heap r).id new_nick).0 }

  unfoldable pub on_nick : ℕ → Text → Text → Gateway → Gateway
  on_nick r old_nick new_nick g =
      let s = g.heap r in
      let renamed =
        set_session r
          (record s { nickname = new_nick; desired_username = settle s.desired_username new_nick })
          g in
      if old_nick == s.nickname
      then (if s.ready_announced
          then persist_rename r new_nick renamed
          else announce_ready r renamed)
      else g

  abbrev pub summary : Gateway → Text → Option Text → Option Text → Text → MessageSummary
  summary g conversation sender_id sender_username text = record {
    id = env.random_uuid g.drawn;
    conversation_id = conversation;
    kind = chat;
    sender_id = sender_id;
    sender_username = sender_username;
    text = text;
    timestamp = env.iso_now g.drawn;
  }

  unfoldable pub on_msg : ℕ → Text → Text → Gateway → Gateway
  on_msg r sender text g =
      send_to r
        (message (summary g public_conversation_id (id_by_nickname sender g) (some sender) text))
        (draw g)

  unfoldable pub on_priv : ℕ → Text → Text → Gateway → Gateway
  on_priv r sender text g =
      let sender_id = id_by_nickname sender g in
      let (db, c) =
        ensure_direct (env.iso_now g.drawn) (g.heap r).id (or_name sender_id sender) g.db in
      send_to r (message (summary g c.id sender_id (some sender) text))
        (draw (record g { db = db }))

  unfoldable pub on_priv_sent : ℕ → Text → Text → Gateway → Gateway
  on_priv_sent r recipient text g =
      let s = g.heap r in
      let other = or_name (id_by_nickname recipient g) recipient in
      let (db, c) = ensure_direct (env.iso_now g.drawn) s.id other g.db in
      send_to r (message (summary g c.id (some s.id) (some s.nickname) text))
        (draw (record g { db = db }))

  abbrev pub conflict_message : Text
  conflict_message = js "This account appears to be connected elsewhere already. Try again shortly."

  unfoldable pub on_err : ℕ → Text → Text → Gateway → Gateway
  on_err r code text g =
      if not (g.heap r).ready_announced && code == js "NICK_TAKEN"
      then close_ws r 1011 (send_to r (error (js "LOGIN_FAILED") conflict_message none) g)
      else send_to r (error code text none) g

  unfoldable pub on_backend_event : ℕ → BackendEvent → Gateway → Gateway
  on_backend_event r (welcome nickname) g = on_welcome r nickname g
  on_backend_event r (nick old_nick new_nick) g = on_nick r old_nick new_nick g
  on_backend_event r (msg sender text) g = on_msg r sender text g
  on_backend_event r (priv sender text) g = on_priv r sender text g
  on_backend_event r (priv_sent recipient text) g = on_priv_sent r recipient text g
  on_backend_event r (err code text) g = on_err r code text g
  on_backend_event r (sys text) g = g
  on_backend_event r (list count names) g = g
  on_backend_event r (unknown raw) g = g

-- The socket to the backend closes from the other side: BackendConnection marks itself closed, and
-- the listener runs. A connection that the gateway closed emits nothing.
abbrev is_live : Session → Bool
is_live s = elim s.backend [ closed ↦ false | _ ↦ true ]

unfoldable pub on_backend_closed : ℕ → Gateway → Gateway
on_backend_closed r g =
    if (g.heap r).closed
    then g
    else close_ws r 1011 (
        send_to r
          (error (js "BACKEND_DISCONNECTED") (js "Lost connection to the ThreadLink server.") none)
          g)

unfoldable pub backend_socket_closed : ℕ → Gateway → Gateway
unfolding on_backend_closed
backend_socket_closed r g =
    if is_live (g.heap r)
    then on_backend_closed r (set_session r (record (g.heap r) { backend = closed }) g)
    else g
