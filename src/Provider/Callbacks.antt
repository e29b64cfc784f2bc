-- ===== src/Provider/Callbacks.antt =====
-- What ChatProvider.tsx does when its client calls back keeps the invariant.
use thread_link.Prelude.{Option, none, some, List, [], ◌∷◌, All, Text}
use thread_link.Protocol.{
  ClientMessage, ServerMessage, ready, logged_out, user_update, user_offline, conversation_created,
  message, error,
}
use thread_link.ChatState.{
  ready_received, conversation_announced, user_updated, user_gone, message_received, error_message,
  set_status, set_error, auth_failed, left, ConnectionStatus, idle, connecting, connected,
  disconnected, reconnecting, failed,
}
use thread_link.Transport.{
  Client, Output, status_changed, event_raised, error_raised, socket_made, socket_closed, sent,
  timer_set, timer_cleared, connect, send,
}
use thread_link.Provider.{
  App, PendingAuth, World, handle_server_event, notify_errors, send_now, send_pending,
  on_server_error, on_status_change, notify, notify_all, run_client, ensure_client, with_client,
}
use thread_link.Provider.Invariant.{
  IsSoundMessage, IsSoundOutput, Fine, Fine-dispatch, Fine-if, Fine-client, log-connect,
}

Fine-notify_errors : (os : List Output) (app : App) → Fine app → Fine (notify_errors os app)
unfolding notify_errors
Fine-notify_errors [] app h = h
Fine-notify_errors (error_raised text ∷ os) app h =
    Fine-notify_errors os _ (Fine-dispatch (set_error (some text)) app h tt)
Fine-notify_errors (status_changed s ∷ os) app h = Fine-notify_errors os app h
Fine-notify_errors (event_raised m ∷ os) app h = Fine-notify_errors os app h
Fine-notify_errors (socket_made n ∷ os) app h = Fine-notify_errors os app h
Fine-notify_errors (socket_closed n ∷ os) app h = Fine-notify_errors os app h
Fine-notify_errors (sent n m ∷ os) app h = Fine-notify_errors os app h
Fine-notify_errors (timer_set n ∷ os) app h = Fine-notify_errors os app h
Fine-notify_errors (timer_cleared ∷ os) app h = Fine-notify_errors os app h

Fine-sent :
    (m : ClientMessage) (app : App) (o : Option Client)
    → Fine app
    → Fine (elim o [
      | none ↦ app
      | some c ↦
          let c' = (send m (record c { log = [] })).0 in
          notify_errors c'.log (with_client c' c.log app)
    ])
Fine-sent m app none h = h
Fine-sent m app (some c) h = Fine-notify_errors _ _ (Fine-client _ c.log app h)

pub Fine-send_now : (m : ClientMessage) (app : App) → Fine app → Fine (send_now m app)
unfolding send_now
Fine-send_now m app h = Fine-sent m app app.client h

Fine-send_pending : (o : Option PendingAuth) (app : App) → Fine app → Fine (send_pending o app)
Fine-send_pending none app h = h
Fine-send_pending (some p) app h = Fine-send_now _ _ (record { keyed = h.keyed; shown = h.shown })

Fine-on_status_change :
    (s : ConnectionStatus) (app : App) → Fine app → Fine (on_status_change s app)
unfolding on_status_change
Fine-on_status_change connected app h =
    Fine-send_pending app.pending_auth _ (Fine-dispatch (set_status connected) app h tt)
Fine-on_status_change failed app h =
    let h' = Fine-dispatch (set_status failed) app h tt in
    Fine-if _ _ _ (Fine-dispatch left _ h' tt) h'
Fine-on_status_change idle app h = Fine-dispatch (set_status idle) app h tt
Fine-on_status_change connecting app h = Fine-dispatch (set_status connecting) app h tt
Fine-on_status_change disconnected app h = Fine-dispatch (set_status disconnected) app h tt
Fine-on_status_change reconnecting app h = Fine-dispatch (set_status reconnecting) app h tt

module _ (world : World) where
  Fine-server_error :
      (user : Option Text) (code text : Text) (conversation : Option Text) (app : App)
      → Fine app
      → Fine (on_server_error world user code text conversation app)
  Fine-server_error none code text conversation app h = Fine-dispatch (auth_failed text) app h tt
  Fine-server_error (some id) code text conversation app h =
      Fine-dispatch (error_message _ _ text conversation) _
        (record { keyed = h.keyed; shown = h.shown }) tt

  Fine-handle_server_event :
      (m : ServerMessage) (app : App)
      → Fine app
      → IsSoundMessage m
      → Fine (handle_server_event world m app)
  unfolding handle_server_event
  Fine-handle_server_event (ready r) app h s =
      let h' = Fine-dispatch (ready_received r) app h s in
      record { keyed = h'.keyed; shown = h'.shown }
  Fine-handle_server_event logged_out app h s = Fine-dispatch left app h tt
  Fine-handle_server_event (user_update u) app h s = Fine-dispatch (user_updated u) app h tt
  Fine-handle_server_event (user_offline id) app h s = Fine-dispatch (user_gone id) app h tt
  Fine-handle_server_event (conversation_created c) app h s =
      Fine-dispatch (conversation_announced c) app h s
  Fine-handle_server_event (message m) app h s = Fine-dispatch (message_received m) app h tt
  Fine-handle_server_event (error code text conversation) app h s =
      Fine-server_error app.state_ref.user_id code text conversation app h

  Fine-notify : (o : Output) (app : App) → Fine app → IsSoundOutput o → Fine (notify world o app)
  Fine-notify (status_changed s) app h k = Fine-on_status_change s app h
  Fine-notify (event_raised m) app h k = Fine-handle_server_event m app h k
  Fine-notify (error_raised text) app h k = Fine-dispatch (set_error (some text)) app h tt
  Fine-notify (socket_made n) app h k = h
  Fine-notify (socket_closed n) app h k = h
  Fine-notify (sent n m) app h k = h
  Fine-notify (timer_set n) app h k = h
  Fine-notify timer_cleared app h k = h

  Fine-notify_all :
      (os : List Output) (app : App)
      → Fine app
      → All IsSoundOutput os
      → Fine (notify_all world os app)
  unfolding notify_all
  Fine-notify_all [] app h k = h
  Fine-notify_all (o ∷ os) app h (s, k) = Fine-notify_all os _ (Fine-notify o app h s) k

  Fine-ran :
      (operation : Client → Client) (app : App) (o : Option Client)
      → Fine app
      → ((c : Client) → All IsSoundOutput (operation (record c { log = [] })).log)
      → Fine (elim o [
        | none ↦ app
        | some c ↦
            let c' = operation (record c { log = [] }) in
            notify_all world c'.log (with_client c' c.log app)
      ])
  Fine-ran operation app none h k = h
  Fine-ran operation app (some c) h k = Fine-notify_all _ _ (Fine-client _ c.log app h) (k c)

  pub Fine-run_client :
      (operation : Client → Client) (app : App)
      → Fine app
      → ((c : Client) → All IsSoundOutput (operation (record c { log = [] })).log)
      → Fine (run_client world operation app)
  unfolding run_client
  Fine-run_client operation app h k = Fine-ran operation app app.client h k

  Fine-ensured :
      (app a : App) (o : Option Client)
      → Fine app
      → Fine a
      → Fine (elim o [ some c ↦ app | none ↦ a ])
  Fine-ensured app a none h k = k
  Fine-ensured app a (some c) h k = h

  pub Fine-ensure_client : (app : App) → Fine app → Fine (ensure_client world app)
  unfolding ensure_client
  Fine-ensure_client app h = Fine-ensured app _ app.client h (
      Fine-run_client (connect world.browser) _ (record { keyed = h.keyed; shown = h.shown })
        (log-connect world.browser))
