-- ===== src/Provider/Stays.antt =====
-- What the user does keeps the invariant.
use thread_link.Conversations.{direct_conversation_id}
use thread_link.Prelude.{trim, true, false, Option, none, some, List, [], ◌∷◌, Text}
use thread_link.Protocol.{
  ClientMessage, MessageTarget, direct, logout, set_nickname, send_message, set_presence,
}
use thread_link.ClientProtocol.Values.{Json}
use thread_link.ChatState.{
  conversation_announced, set_error, set_authenticating, set_active_conversation, set_sidebar_open,
  set_nickname_modal, set_new_group_modal, mark_pending_group_creation, create_initial_state,
}
use thread_link.ChatState.Reducer.Keyed.{IsKeyed-public}
use thread_link.ChatState.Reducer.Shown.{IsShown-public}
use thread_link.Transport.Machine
use thread_link.Provider.{App, PendingAuth, World, new_app, dispatch, send_now, ensure_client}
use thread_link.Provider.Actions.{
  register_user, login_user, logout_user, send_text, change_nickname, change_presence, new_group,
  start_direct_conversation, AppEvent, mounted, rendered, registers, logs_in, logs_out, sends,
  renames, sets_presence, selects, starts_direct, creates_group, opens_public, opens_sidebar,
  opens_nickname, opens_new_group, happens, app_step, app_run, send_to_target, authenticate,
  client_connected,
}
use thread_link.Provider.Invariant.{IsSoundMessage, Fine, Fine-dispatch, Fine-if, log-step}
use thread_link.Provider.Callbacks.{Fine-send_now, Fine-run_client, Fine-ensure_client}

Fine-send_to_target :
    (o : Option MessageTarget) (text : Text) (app : App)
    → Fine app
    → Fine (send_to_target o text app)
Fine-send_to_target none text app h = h
Fine-send_to_target (some t) text app h = Fine-send_now (send_message t text) app h

Fine-send_text : (text : Text) (app : App) → Fine app → Fine (send_text text app)
unfolding send_text
Fine-send_text text app h =
    Fine-if _ _ _ h
      (Fine-if _ _ _ (Fine-dispatch (set_error _) app h tt) (Fine-send_to_target _ _ app h))

Fine-change_nickname : (name : Text) (app : App) → Fine app → Fine (change_nickname name app)
unfolding change_nickname
Fine-change_nickname name app h =
    let h' = Fine-send_now (set_nickname (trim name)) app h in
    Fine-if _ _ _ (Fine-dispatch (set_error _) app h tt)
      (Fine-if _ _ _ (Fine-dispatch (set_nickname_modal false) _ h' tt) h')

Fine-new_group :
    (name : Text) (ids : List Text) (app : App) → Fine app → Fine (new_group name ids app)
unfolding new_group
Fine-new_group name [] app h = h
Fine-new_group name (m ∷ ms) app h =
    Fine-if _ _ _ h (Fine-send_now _ _ (Fine-dispatch mark_pending_group_creation app h tt))

Fine-start_direct :
    (peer : Text) (own : Option Text) (app : App)
    → Fine app
    → Fine (start_direct_conversation peer own app)
unfolding start_direct_conversation
Fine-start_direct peer none app h = h
Fine-start_direct peer (some []) app h = h
Fine-start_direct peer (some (c ∷ own)) app h = Fine-if _ _ _ h (
    Fine-dispatch (set_active_conversation _) _
      (Fine-if _ _ _ h (
        Fine-dispatch
          (conversation_announced (record {
            id = direct_conversation_id (c ∷ own) peer;
            kind = direct;
            title = [];
            member_ids = (c ∷ own) ∷ peer ∷ [];
          }))
          app h (λ e. cc)))
      tt)

module _ (world : World) where
  Fine-authenticate :
      (p : PendingAuth) (m : ClientMessage) (app : App)
      → Fine app
      → Fine (authenticate world p m app)
  Fine-authenticate p m app h =
      let h' = Fine-ensure_client world _ (Fine-dispatch (set_authenticating true) app h tt) in
      let app' = ensure_client world (dispatch (set_authenticating true) app) in
      Fine-if (client_connected app'.client) (send_now m app')
        (record app' { pending_auth = some p }) (Fine-send_now m app' h')
        (record { keyed = h'.keyed; shown = h'.shown })

  module _ (sound : (j : Json) → IsSoundMessage (world.browser.as_server_message j)) where
    app_step-Fine : (app : App) (e : AppEvent) → Fine app → Fine (app_step world app e)
    unfolding app_step register_user login_user logout_user change_presence
    app_step-Fine app mounted h = Fine-ensure_client world app h
    app_step-Fine app rendered h = record { keyed = h.keyed; shown = h.shown }
    app_step-Fine app (registers username password) h = Fine-authenticate _ _ app h
    app_step-Fine app (logs_in username password) h = Fine-authenticate _ _ app h
    app_step-Fine app logs_out h = Fine-send_now logout app h
    app_step-Fine app (sends content) h = Fine-send_text content app h
    app_step-Fine app (renames nickname) h = Fine-change_nickname nickname app h
    app_step-Fine app (sets_presence presence) h = Fine-send_now (set_presence presence) app h
    app_step-Fine app (selects id) h = Fine-dispatch (set_active_conversation id) app h tt
    app_step-Fine app (starts_direct peer) h = Fine-start_direct peer app.state_ref.user_id app h
    app_step-Fine app (creates_group name ids) h = Fine-new_group name ids app h
    app_step-Fine app opens_public h = Fine-dispatch (set_active_conversation _) app h tt
    app_step-Fine app (opens_sidebar value) h = Fine-dispatch (set_sidebar_open value) app h tt
    app_step-Fine app (opens_nickname value) h = Fine-dispatch (set_nickname_modal value) app h tt
    app_step-Fine app (opens_new_group value) h = Fine-dispatch (set_new_group_modal value) app h tt
    app_step-Fine app (happens e) h =
        Fine-if _ _ _
          (Fine-run_client world (λ c. Machine.step world.browser c e) app h
            (λ c. log-step world.browser sound c e))
          h

    app_run-Fine : (app : App) (es : List AppEvent) → Fine app → Fine (app_run world app es)
    unfolding app_run
    app_run-Fine app [] h = h
    app_run-Fine app (e ∷ es) h = app_run-Fine (app_step world app e) es (app_step-Fine app e h)

    -- From the start and after any events, whatever the user does, whatever becomes of the WebSockets and
    -- whatever the gateway sends: every conversation is kept under its own id, and the conversation that is
    -- shown exists and has nothing unread. The gateway announces kind "public" under the public id only.
    pub app_run-new_app :
        (gateway_url : Text) (es : List AppEvent) → Fine (app_run world (new_app gateway_url) es)
    unfolding new_app create_initial_state
    app_run-new_app gateway_url es =
        app_run-Fine _ es (record { keyed = IsKeyed-public []; shown = IsShown-public [] })
