-- ===== src/Gateway/Safety/BackendEvents.antt =====
-- What the backend says keeps the invariant.
use thread_link.Prelude.{ℕ, suc, true, none, List, [], ◌∷◌, Text}
use thread_link.BackendMessages.{
  BackendEvent, welcome, sys, msg, priv, priv_sent, nick, list, err, unknown,
}
use thread_link.Protocol.{ClientMessage, ServerMessage, user_update}
use thread_link.Database.{Db}
use thread_link.Sessions.{drain_queue, closed}
use thread_link.Environment.{Environment}
use thread_link.Gateway.{Gateway, set_session, send_to, draw}
use thread_link.Gateway.Actions.{broadcast_to_all, summarize, send_ready}
use thread_link.Gateway.Messaging.{handle_client_message}
use thread_link.Gateway.BackendEvents.{
  handle_all, announce_ready, on_welcome, persist_rename, on_nick, on_msg, on_priv, on_priv_sent,
  on_err, on_backend_event, on_backend_closed, backend_socket_closed,
}
use thread_link.Gateway.Safety.{Good, Good-if, Good-send, Good-set_session, Good-set_db}
use thread_link.Gateway.Safety.Actions.{
  Good-send_line, Good-send_ready, Good-broadcast_to_all, Good-close_ws,
}
use thread_link.Gateway.Safety.Messaging.{Good-handle_client_message}

module _ (env : Environment) (r : ℕ) where
  Good-handle_all :
      (ms : List ClientMessage) (g : Gateway) → Good r g → Good r (handle_all env r ms g)
  unfolding handle_all
  Good-handle_all [] g h = h
  Good-handle_all (m ∷ ms) g h =
      Good-handle_all ms (handle_client_message env r m g) (Good-handle_client_message env r m g h)

  Good-announce_ready : (g : Gateway) → Good r g → Good r (announce_ready env r g)
  unfolding announce_ready drain_queue
  Good-announce_ready g h =
      let s = record (g.heap r) { ready_announced = true } in
      let h₁ = Good-set_session r s g h h.live.0 in
      let h₂ = Good-send_ready env r (set_session r s g) h₁ in
      let h₃ = Good-broadcast_to_all r _ _ (send_ready env r (set_session r s g)) h₂ in
      Good-handle_all _ _ (Good-set_session r _ _ h₃ h₃.live.0)

  Good-on_welcome : (name : Text) (g : Gateway) → Good r g → Good r (on_welcome env r name g)
  unfolding on_welcome
  Good-on_welcome name g h =
      let s = record (g.heap r) { welcomed = true; nickname = name } in
      let h' = Good-set_session r s g h h.live.0 in
      Good-if r _ _ _ (Good-send_line r _ (set_session r s g) h')
        (Good-announce_ready (set_session r s g) h')

  Good-persist_rename :
      (name : Text) (g : Gateway) → Good r g → Good r (persist_rename env r name g)
  unfolding persist_rename
  Good-persist_rename name g h =
      let g' = broadcast_to_all (user_update (summarize r g)) none g in
      Good-set_db r _ g'.drawn g' (Good-broadcast_to_all r _ none g h)

  Good-on_nick : (old new : Text) (g : Gateway) → Good r g → Good r (on_nick env r old new g)
  unfolding on_nick
  Good-on_nick old new g h =
      let h' = Good-set_session r _ g h h.live.0 in
      Good-if r _ _ _ (Good-if r _ _ _ (Good-persist_rename new _ h') (Good-announce_ready _ h')) h

  Good-deliver :
      (m : ServerMessage) (db : Db) (g : Gateway)
      → Good r g
      → Good r (send_to r m (draw (record g { db = db })))
  Good-deliver m db g h = Good-send r m _ (Good-set_db r db (suc g.drawn) g h)

  Good-on_err : (code text : Text) (g : Gateway) → Good r g → Good r (on_err env r code text g)
  unfolding on_err
  Good-on_err code text g h =
      Good-if r _ _ _ (Good-close_ws r 1011 _ (Good-send r _ g h)) (Good-send r _ g h)

  pub Good-on_backend_event :
      (e : BackendEvent) (g : Gateway) → Good r g → Good r (on_backend_event env r e g)
  unfolding on_backend_event on_msg on_priv on_priv_sent
  Good-on_backend_event (welcome name) g h = Good-on_welcome name g h
  Good-on_backend_event (nick old new) g h = Good-on_nick old new g h
  Good-on_backend_event (msg sender text) g h = Good-deliver _ g.db g h
  Good-on_backend_event (priv sender text) g h = Good-deliver _ _ g h
  Good-on_backend_event (priv_sent recipient text) g h = Good-deliver _ _ g h
  Good-on_backend_event (err code text) g h = Good-on_err code text g h
  Good-on_backend_event (sys text) g h = h
  Good-on_backend_event (list count names) g h = h
  Good-on_backend_event (unknown raw) g h = h

pub Good-backend_socket_closed :
    (r : ℕ) (g : Gateway) → Good r g → Good r (backend_socket_closed r g)
unfolding backend_socket_closed on_backend_closed
Good-backend_socket_closed r g h =
    let h' = Good-set_session r (record (g.heap r) { backend = closed }) g h h.live.0 in
    Good-if r _ _ _ (Good-if r _ _ _ h' (Good-close_ws r 1011 _ (Good-send r _ _ h'))) h
