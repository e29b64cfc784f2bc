-- ===== src/Provider/Actions.antt =====
-- What the components call of ChatProvider.tsx, what they read of it, and its events.
use thread_link.Prelude.{
  Bool, true, false, not, Option, none, some, List, [], ◌∷◌, if◌then◌else◌, Text, js, ◌==◌, get,
  trim, Dict,
}
use thread_link.Protocol.{
  MessageTarget, to_public, to_direct, to_group, ClientMessage, register, login, logout,
  set_nickname, send_message, create_group, set_presence, Presence, ConversationKind, public,
  direct, group,
}
use thread_link.Database.{public_conversation_id}
use thread_link.Conversations.{direct_conversation_id}
use thread_link.ChatState.{
  Conversation, set_error, set_authenticating, set_active_conversation, conversation_announced,
  set_sidebar_open, set_nickname_modal, set_new_group_modal, mark_pending_group_creation,
}
use thread_link.Transport.{Client, send, is_connected}
use thread_link.Transport.Machine
use thread_link.Provider.{
  App, PendingAuth, pending_register, pending_login, World, dispatch, send_now, run_client,
  ensure_client,
}

abbrev pub client_connected : Option Client → Bool
client_connected none = false
client_connected (some c) = is_connected c

-- A peer id that is missing or empty is none.
abbrev direct_target : Option Text → Option MessageTarget
direct_target none = none
direct_target (some []) = none
direct_target (some (c ∷ id)) = some (to_direct (c ∷ id))

-- Where a message in a conversation is sent.
abbrev pub target_of_kind : ConversationKind → Conversation → Option MessageTarget
target_of_kind public c = some to_public
target_of_kind direct c = direct_target c.peer_id
target_of_kind group c = some (to_group c.id)

abbrev pub target_in : Option Conversation → Option MessageTarget
target_in none = none
target_in (some c) = target_of_kind c.kind c

abbrev is_empty : Text → Bool
is_empty [] = true
is_empty (c ∷ s) = false

module _ (world : World) where
  -- `client.isConnected()` decides between sending now and when it is connected.
  abbrev pub authenticate : PendingAuth → ClientMessage → App → App
  authenticate p m app =
      let app' = ensure_client world (dispatch (set_authenticating true) app) in
      if client_connected app'.client
      then send_now m app'
      else record app' { pending_auth = some p }

  unfoldable pub register_user : Text → Text → App → App
  register_user username password app =
      authenticate (pending_register username password) (register username password) app

  unfoldable pub login_user : Text → Text → App → App
  login_user username password app =
      authenticate (pending_login username password) (login username password) app

unfoldable pub logout_user : App → App
logout_user app = send_now logout app

abbrev pub send_to_target : Option MessageTarget → Text → App → App
send_to_target none text app = app
send_to_target (some t) text app = send_now (send_message t text) app

unfoldable pub send_text : Text → App → App
send_text content app =
    let trimmed = trim content in
    let current = app.state_ref in
    if is_empty trimmed
    then app
    else if not (client_connected app.client)
    then dispatch (set_error (some (js "Not connected to gateway"))) app
    else send_to_target (target_in (get current.active_conversation_id current.conversations))
        trimmed app

-- Whether `setNickname` returns true.
abbrev would_send : Option Client → ClientMessage → Bool
would_send none m = false
would_send (some c) m = (send m c).1

unfoldable pub change_nickname : Text → App → App
change_nickname nickname app =
    let trimmed = trim nickname in
    if is_empty trimmed
    then dispatch (set_error (some (js "Nickname cannot be empty"))) app
    else (let app' = send_now (set_nickname trimmed) app in
        if would_send app.client (set_nickname trimmed)
        then dispatch (set_nickname_modal false) app'
        else app')

unfoldable pub change_presence : Presence → App → App
change_presence presence app = send_now (set_presence presence) app

unfoldable pub new_group : Text → List Text → App → App
new_group name [] app = app
new_group name (m ∷ ms) app =
    let trimmed = trim name in
    if is_empty trimmed
    then app
    else send_now (create_group trimmed (m ∷ ms)) (dispatch mark_pending_group_creation app)

abbrev pub has_conversation : Text → Dict Conversation → Bool
has_conversation id cs = elim (get id cs) [ none ↦ false | some c ↦ true ]

abbrev open_direct : Text → Text → App → App
open_direct own peer app =
    let id = direct_conversation_id own peer in
    dispatch (set_active_conversation id) (
      if has_conversation id app.state_ref.conversations
      then app
      else dispatch
          (conversation_announced
            (record { id = id; kind = direct; title = []; member_ids = own ∷ peer ∷ [] }))
          app)

unfoldable pub start_direct_conversation : Text → Option Text → App → App
start_direct_conversation peer none app = app
start_direct_conversation peer (some []) app = app
start_direct_conversation peer (some (c ∷ own)) app =
    if peer == c ∷ own then app else open_direct (c ∷ own) peer app

-- What the user does, what React does, and what happens to the client.
pub data AppEvent : Type 0 where
  mounted rendered : AppEvent
  registers logs_in : Text → Text → AppEvent
  logs_out : AppEvent
  sends renames : Text → AppEvent
  sets_presence : Presence → AppEvent
  selects starts_direct : Text → AppEvent
  creates_group : Text → List Text → AppEvent
  opens_public : AppEvent
  opens_sidebar opens_nickname opens_new_group : Bool → AppEvent
  happens : Machine.Event → AppEvent

-- What happens to a client without its being called.
abbrev pub is_external : Machine.Event → Bool
is_external Machine.connect_called = false
is_external Machine.disconnect_called = false
is_external (Machine.send_called m) = false
is_external _ = true

module _ (world : World) where
  unfoldable pub app_step : App → AppEvent → App
  app_step app mounted = ensure_client world app
  app_step app rendered = record app { state_ref = app.state }
  app_step app (registers username password) = register_user world username password app
  app_step app (logs_in username password) = login_user world username password app
  app_step app logs_out = logout_user app
  app_step app (sends content) = send_text content app
  app_step app (renames nickname) = change_nickname nickname app
  app_step app (sets_presence presence) = change_presence presence app
  app_step app (selects id) = dispatch (set_active_conversation id) app
  app_step app (starts_direct peer) = start_direct_conversation peer app.state_ref.user_id app
  app_step app (creates_group name ids) = new_group name ids app
  app_step app opens_public = dispatch (set_active_conversation public_conversation_id) app
  app_step app (opens_sidebar value) = dispatch (set_sidebar_open value) app
  app_step app (opens_nickname value) = dispatch (set_nickname_modal value) app
  app_step app (opens_new_group value) = dispatch (set_new_group_modal value) app
  app_step app (happens e) =
      if is_external e then run_client world (λ c. Machine.step world.browser c e) app else app

  unfoldable pub app_run : App → List AppEvent → App
  app_run app [] = app
  app_run app (e ∷ es) = app_run (app_step app e) es
