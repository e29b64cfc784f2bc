-- ===== src/Provider.antt =====
-- frontend/context/ChatProvider.tsx: the state of the browser's application, with the client of
-- Transport in it. A dispatch applies the reducer at once; `stateRef` keeps up with the state only when
-- React has rendered.
pub mod Actions
pub mod Reads
pub mod Invariant
pub mod Reconnect
pub mod GivenUp
pub mod Callbacks
pub mod Stays
mod Tests
use thread_link.Prelude.{
  ℕ, suc, Bool, true, false, not, ◌&&◌, Option, none, some, List, [], ◌∷◌, ◌++◌, if◌then◌else◌,
  Text,
}
use thread_link.Protocol.{
  ClientMessage, register, login, ServerMessage, ready, logged_out, user_update, user_offline,
  conversation_created, message, error,
}
use thread_link.ChatState.{
  ChatState, ChatAction, set_status, ready_received, user_updated, user_gone,
  conversation_announced, message_received, error_message, set_error, auth_failed, left,
  ConnectionStatus, connected, failed, create_initial_state,
}
use thread_link.ChatState.Reducer.{chat_reducer}
use thread_link.Transport.{
  Client, Browser, Output, status_changed, event_raised, error_raised, new_client, connect, send,
}

pub data PendingAuth : Type 0 where
  pending_register pending_login : Text → Text → PendingAuth

pub record App : Type 0 where
  pub state : ChatState
  pub state_ref : ChatState
  pub client : Option Client
  pub pending_auth : Option PendingAuth
  -- what `saveLastUsername` stored
  pub saved_username : Option Text
  -- how often an id and a time were drawn
  pub drawn : ℕ

-- What the browser provides to the application: `createId("err")` and `new Date()`, the n-th time.
pub record World : Type 0 where
  pub browser : Browser
  pub error_id : ℕ → Text
  pub now : ℕ → Text

unfoldable pub new_app : Text → App
new_app gateway_url = record {
  state = create_initial_state gateway_url;
  state_ref = create_initial_state gateway_url;
  client = none;
  pending_auth = none;
  saved_username = none;
  drawn = 0;
}

abbrev pub dispatch : ChatAction → App → App
dispatch a app = record app { state = chat_reducer app.state a }

-- `if (id)` of a string that may be missing.
abbrev pub is_truthy : Option Text → Bool
is_truthy none = false
is_truthy (some []) = false
is_truthy (some (c ∷ s)) = true

-- The callbacks that an operation of the client calls, after it, in their order; of `send`, which
-- `onStatusChange` itself calls, only `onError` is one.
unfoldable pub notify_errors : List Output → App → App
notify_errors [] app = app
notify_errors (error_raised text ∷ os) app = notify_errors os (dispatch (set_error (some text)) app)
notify_errors (_ ∷ os) app = notify_errors os app

abbrev pub with_client : Client → List Output → App → App
with_client c earlier app = record app { client = some (record c { log = earlier ++ c.log }) }

unfoldable pub send_now : ClientMessage → App → App
send_now m app = elim app.client [
  | none ↦ app
  | some c ↦
      let c' = (send m (record c { log = [] })).0 in notify_errors c'.log (with_client c' c.log app)
]

abbrev auth_message : PendingAuth → ClientMessage
auth_message (pending_register username password) = register username password
auth_message (pending_login username password) = login username password

abbrev pub send_pending : Option PendingAuth → App → App
send_pending none app = app
send_pending (some p) app = send_now (auth_message p) (record app { pending_auth = none })

-- `onStatusChange`
unfoldable pub on_status_change : ConnectionStatus → App → App
on_status_change connected app = send_pending app.pending_auth (dispatch (set_status connected) app)
on_status_change failed app =
    let app' = dispatch (set_status failed) app in
    if is_truthy app'.state_ref.user_id then dispatch left app' else app'
on_status_change status app = dispatch (set_status status) app

module _ (world : World) where
  -- The case "error" of `handleServerEvent`.
  abbrev pub on_server_error : Option Text → Text → Text → Option Text → App → App
  on_server_error none code text conversation app = dispatch (auth_failed text) app
  on_server_error (some id) code text conversation app =
      dispatch (error_message (world.error_id app.drawn) (world.now app.drawn) text conversation)
        (record app { drawn = suc app.drawn })

  unfoldable pub handle_server_event : ServerMessage → App → App
  handle_server_event (ready r) app = record (dispatch (ready_received r) app) {
    saved_username = some r.username;
  }
  handle_server_event logged_out app = dispatch left app
  handle_server_event (user_update u) app = dispatch (user_updated u) app
  handle_server_event (user_offline id) app = dispatch (user_gone id) app
  handle_server_event (conversation_created c) app = dispatch (conversation_announced c) app
  handle_server_event (message m) app = dispatch (message_received m) app
  handle_server_event (error code text conversation) app =
      on_server_error app.state_ref.user_id code text conversation app

  abbrev pub notify : Output → App → App
  notify (status_changed status) app = on_status_change status app
  notify (event_raised m) app = handle_server_event m app
  notify (error_raised text) app = dispatch (set_error (some text)) app
  notify _ app = app

  unfoldable pub notify_all : List Output → App → App
  notify_all [] app = app
  notify_all (o ∷ os) app = notify_all os (notify o app)

  -- An operation of the client, and then what it called.
  unfoldable pub run_client : (Client → Client) → App → App
  run_client operation app = elim app.client [
    | none ↦ app
    | some c ↦
        let c' = operation (record c { log = [] }) in notify_all c'.log (with_client c' c.log app)
  ]

  unfoldable pub ensure_client : App → App
  ensure_client app = elim app.client [
    | some c ↦ app
    | none ↦
        run_client (connect world.browser)
          (record app { client = some (new_client app.state_ref.gateway_url (some true) none) })
  ]
