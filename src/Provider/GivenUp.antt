-- ===== src/Provider/GivenUp.antt =====
-- The application after its client has given up: `ensureClient` connects only the first time.
use thread_link.Prelude.{
  ℕ, ◌≡◌, refl, subst, sym, Bool, true, false, Option, none, some, List, [], ◌∷◌, arith,
  if◌then◌else◌, Text, trim,
}
use thread_link.Protocol.{
  ClientMessage, logout, set_nickname, send_message, set_presence, MessageTarget,
}
use thread_link.ChatState.{
  ChatAction, set_authenticating, set_nickname_modal, set_error, set_active_conversation,
  conversation_announced, set_sidebar_open, set_new_group_modal, mark_pending_group_creation,
}
use thread_link.Transport.{
  Client, Output, status_changed, event_raised, error_raised, socket_made, socket_closed, sent,
  timer_set, timer_cleared, send,
}
use thread_link.Transport.Machine
use thread_link.Provider.{
  App, World, PendingAuth, dispatch, notify_errors, notify_all, send_now, run_client, ensure_client,
  with_client,
}
use thread_link.Provider.Actions.{
  AppEvent, mounted, rendered, registers, logs_in, logs_out, sends, renames, sets_presence, selects,
  starts_direct, creates_group, opens_public, opens_sidebar, opens_nickname, opens_new_group,
  happens, app_step, app_run, send_text, send_to_target, change_nickname, change_presence,
  new_group, logout_user, register_user, login_user, authenticate, client_connected, is_external,
  start_direct_conversation,
}

abbrev IsDeadClient : ℕ → Option Client → Type 0
IsDeadClient n none = ⊥
IsDeadClient n (some c) = (c.socket ≡ none) × (c.reconnect_timer ≡ false) × (c.made ≡ n)

-- The client has called `new WebSocket` `n` times, and has neither a WebSocket nor a timer.
pub record HasGivenUp (n : ℕ) (app : App) : Type 0 where
  pub dead : IsDeadClient n app.client

dead-dispatch :
    (n : ℕ) (a : ChatAction) (app : App) → HasGivenUp n app → HasGivenUp n (dispatch a app)
dead-dispatch n a app h = record { dead = h.dead }

HasGivenUp-if :
    (n : ℕ) (b : Bool) (x y : App)
    → HasGivenUp n x
    → HasGivenUp n y
    → HasGivenUp n (if b then x else y)
HasGivenUp-if n true x y h k = h
HasGivenUp-if n false x y h k = k

client-notify_errors : (os : List Output) (app : App) → (notify_errors os app).client ≡ app.client
unfolding notify_errors
client-notify_errors [] app = refl
client-notify_errors (error_raised text ∷ os) app = client-notify_errors os _
client-notify_errors (status_changed s ∷ os) app = client-notify_errors os app
client-notify_errors (event_raised m ∷ os) app = client-notify_errors os app
client-notify_errors (socket_made n ∷ os) app = client-notify_errors os app
client-notify_errors (socket_closed n ∷ os) app = client-notify_errors os app
client-notify_errors (sent n m ∷ os) app = client-notify_errors os app
client-notify_errors (timer_set n ∷ os) app = client-notify_errors os app
client-notify_errors (timer_cleared ∷ os) app = client-notify_errors os app

dead-send :
    (n : ℕ) (m : ClientMessage) (c : Client)
    → IsDeadClient n (some c)
    → IsDeadClient n (some (send m c).0)
unfolding send
dead-send n m c h = ground arith

dead-sent :
    (n : ℕ) (m : ClientMessage) (app : App) (o : Option Client)
    → IsDeadClient n o
    → HasGivenUp n (elim o [
      | none ↦ app
      | some c ↦
          let c' = (send m (record c { log = [] })).0 in
          notify_errors c'.log (with_client c' c.log app)
    ])
dead-sent n m app none h = absurd h
dead-sent n m app (some c) h =
    let c' = (send m (record c { log = [] })).0 in
    record {
      dead =
          subst (IsDeadClient n) (sym (client-notify_errors c'.log (with_client c' c.log app)))
            (dead-send n m (record c { log = [] }) h);
    }

dead-send_now :
    (n : ℕ) (m : ClientMessage) (app : App) → HasGivenUp n app → HasGivenUp n (send_now m app)
unfolding send_now
dead-send_now n m app h = dead-sent n m app app.client h.dead

dead-send_to_target :
    (n : ℕ) (o : Option MessageTarget) (text : Text) (app : App)
    → HasGivenUp n app
    → HasGivenUp n (send_to_target o text app)
dead-send_to_target n none text app h = h
dead-send_to_target n (some t) text app h = dead-send_now n (send_message t text) app h

dead-send_text :
    (n : ℕ) (text : Text) (app : App) → HasGivenUp n app → HasGivenUp n (send_text text app)
unfolding send_text
dead-send_text n text app h =
    HasGivenUp-if n _ _ _ h (
      HasGivenUp-if n _ _ _ (dead-dispatch n (set_error _) app h) (dead-send_to_target n _ _ app h))

dead-change_nickname :
    (n : ℕ) (name : Text) (app : App) → HasGivenUp n app → HasGivenUp n (change_nickname name app)
unfolding change_nickname
dead-change_nickname n name app h =
    let h' = dead-send_now n (set_nickname (trim name)) app h in
    HasGivenUp-if n _ _ _ (dead-dispatch n (set_error _) app h)
      (HasGivenUp-if n _ _ _ (dead-dispatch n (set_nickname_modal false) _ h') h')

dead-new_group :
    (n : ℕ) (name : Text) (ids : List Text) (app : App)
    → HasGivenUp n app
    → HasGivenUp n (new_group name ids app)
unfolding new_group
dead-new_group n name [] app h = h
dead-new_group n name (m ∷ ms) app h = HasGivenUp-if n _ _ _ h (
    dead-send_now n _ (dispatch mark_pending_group_creation app)
      (dead-dispatch n mark_pending_group_creation app h))

dead-start_direct :
    (n : ℕ) (peer : Text) (own : Option Text) (app : App)
    → HasGivenUp n app
    → HasGivenUp n (start_direct_conversation peer own app)
unfolding start_direct_conversation
dead-start_direct n peer none app h = h
dead-start_direct n peer (some []) app h = h
dead-start_direct n peer (some (c ∷ own)) app h = HasGivenUp-if n _ _ _ h (
    dead-dispatch n (set_active_conversation _) _
      (HasGivenUp-if n _ _ _ h (dead-dispatch n (conversation_announced _) app h)))

module _ (world : World) where
  dead-ensured :
      (n : ℕ) (app a : App) (o : Option Client)
      → IsDeadClient n o
      → HasGivenUp n app
      → HasGivenUp n (elim o [ some c ↦ app | none ↦ a ])
  dead-ensured n app a none h k = absurd h
  dead-ensured n app a (some c) h k = k

  dead-ensure_client :
      (n : ℕ) (app : App) → HasGivenUp n app → HasGivenUp n (ensure_client world app)
  unfolding ensure_client
  dead-ensure_client n app h = dead-ensured n app _ app.client h.dead h

  dead-authenticate :
      (n : ℕ) (p : PendingAuth) (m : ClientMessage) (app : App)
      → HasGivenUp n app
      → HasGivenUp n (authenticate world p m app)
  dead-authenticate n p m app h =
      let app' = ensure_client world (dispatch (set_authenticating true) app) in
      let h' = dead-ensure_client n _ (dead-dispatch n (set_authenticating true) app h) in
      HasGivenUp-if n (client_connected app'.client) (send_now m app')
        (record app' { pending_auth = some p }) (dead-send_now n m app' h')
        (record { dead = h'.dead })

  -- No event of a WebSocket or a timer reaches a client without them.
  dead-step :
      (n : ℕ) (c : Client) (e : Machine.Event)
      → is_external e ≡ true
      → IsDeadClient n (some c)
      → Machine.step world.browser c e ≡ c
  unfolding Machine.step
  dead-step n c e x h = ground arith

  dead-ran :
      (n : ℕ) (e : Machine.Event) (app : App) (o : Option Client)
      → is_external e ≡ true
      → IsDeadClient n o
      → HasGivenUp n (elim o [
        | none ↦ app
        | some c ↦
            let c' = Machine.step world.browser (record c { log = [] }) e in
            notify_all world c'.log (with_client c' c.log app)
      ])
  dead-ran n e app none x h = absurd h
  dead-ran n e app (some c) x h =
      subst (λ c'. HasGivenUp n (notify_all world c'.log (with_client c' c.log app)))
        (sym (dead-step n (record c { log = [] }) e x h)) (unfold notify_all in record { dead = h })

  dead-happens :
      (n : ℕ) (e : Machine.Event) (app : App)
      → is_external e ≡ true
      → HasGivenUp n app
      → HasGivenUp n (run_client world (λ c. Machine.step world.browser c e) app)
  unfolding run_client
  dead-happens n e app x h = dead-ran n e app app.client x h.dead

  dead-event :
      (n : ℕ) (b : Bool) (e : Machine.Event) (app : App)
      → is_external e ≡ b
      → HasGivenUp n app
      → HasGivenUp n (if b then run_client world (λ c. Machine.step world.browser c e) app else app)
  dead-event n true e app x h = dead-happens n e app x h
  dead-event n false e app x h = h

  dead-app_step :
      (n : ℕ) (app : App) (e : AppEvent) → HasGivenUp n app → HasGivenUp n (app_step world app e)
  unfolding app_step register_user login_user logout_user change_presence
  dead-app_step n app mounted h = dead-ensure_client n app h
  dead-app_step n app rendered h = record { dead = h.dead }
  dead-app_step n app (registers username password) h = dead-authenticate n _ _ app h
  dead-app_step n app (logs_in username password) h = dead-authenticate n _ _ app h
  dead-app_step n app logs_out h = dead-send_now n logout app h
  dead-app_step n app (sends content) h = dead-send_text n content app h
  dead-app_step n app (renames nickname) h = dead-change_nickname n nickname app h
  dead-app_step n app (sets_presence presence) h = dead-send_now n (set_presence presence) app h
  dead-app_step n app (selects id) h = dead-dispatch n (set_active_conversation id) app h
  dead-app_step n app (starts_direct peer) h = dead-start_direct n peer app.state_ref.user_id app h
  dead-app_step n app (creates_group name ids) h = dead-new_group n name ids app h
  dead-app_step n app opens_public h = dead-dispatch n (set_active_conversation _) app h
  dead-app_step n app (opens_sidebar value) h = dead-dispatch n (set_sidebar_open value) app h
  dead-app_step n app (opens_nickname value) h = dead-dispatch n (set_nickname_modal value) app h
  dead-app_step n app (opens_new_group value) h = dead-dispatch n (set_new_group_modal value) app h
  dead-app_step n app (happens e) h = dead-event n (is_external e) e app refl h

  -- Once the client has neither a WebSocket nor a timer, that is for ever: whatever the user does, also
  -- register and log in, and whatever else happens, no further WebSocket is made.
  pub app_run-HasGivenUp :
      (n : ℕ) (es : List AppEvent) (app : App)
      → HasGivenUp n app
      → HasGivenUp n (app_run world app es)
  unfolding app_run
  app_run-HasGivenUp n [] app h = h
  app_run-HasGivenUp n (e ∷ es) app h =
      app_run-HasGivenUp n es (app_step world app e) (dead-app_step n app e h)
