-- ===== src/Provider/Reconnect.antt =====
-- What becomes of a logged-in user when the connection is lost and tried again.
use thread_link.Prelude.{ℕ, ◌≡◌, true, none, some, [], ◌∷◌, ◌++◌, arith, Text}
use thread_link.Database.{public_conversation_id}
use thread_link.ChatState.{connecting, connected, create_public_conversation}
use thread_link.ChatState.Reducer.{chat_reducer, on_left}
use thread_link.Transport.{Client, is_open, status_changed, on_open, on_error}
use thread_link.Transport.Machine
use thread_link.Transport.Machine.{is_current, set_ready_state}
use thread_link.Provider.{App, World, notify_all, run_client, on_status_change}
use thread_link.Provider.Actions.{happens, app_step}

module _ (world : World) (app : App) (c : Client) (n : ℕ)
    (current : is_current c.socket n ≡ true) where
  -- The first attempt to connect again that fails logs a user out, whatever attempts are left: an error
  -- while the client is connecting makes its status "failed", on which the application forgets the
  -- account, the users and all conversations but an empty public one.
  pub errored-logs_out :
      (u : ℕ) (id : Text)
      → app.client ≡ some c
      → c.status ≡ connecting
      → app.state_ref.user_id ≡ some (u ∷ id)
      → let state' = (app_step world app (happens (Machine.errored n))).state in
        (state'.user_id ≡ none)
        × (state'.users ≡ [])
        × (state'.conversations ≡ (public_conversation_id, create_public_conversation []) ∷ [])
  unfolding app_step run_client Machine.step on_error notify_all on_status_change chat_reducer
      on_left
  errored-logs_out u id same busy user = ground arith

  -- When a connection is made and no login waits for it, the application says that it is connected, the
  -- user stays whom the application shows, and nothing is sent: in particular no login.
  pub opened-sends_nothing :
      app.client ≡ some c
      → app.pending_auth ≡ none
      → app_step world app (happens (Machine.opened n)) ≡ record app {
        state = record app.state { connection_status = connected };
        client = some (record (set_ready_state is_open c) {
          status = connected;
          reconnect_attempts = 0;
          log = c.log ++ status_changed connected ∷ [];
        });
      }
  unfolding app_step run_client Machine.step on_open notify_all on_status_change chat_reducer
  opened-sends_nothing same pending = ground arith
