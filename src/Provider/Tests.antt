-- ===== src/Provider/Tests.antt =====
-- Examples for the application, in a browser in which nothing throws and nothing parses.
use thread_link.Prelude.{◌≡◌, refl, true, none, some, [], ◌∷◌, Text, js}
use thread_link.Protocol.{logged_out}
use thread_link.Database.{public_conversation_id}
use thread_link.ChatState.{connecting, connected, create_initial_state, create_public_conversation}
use thread_link.Transport.{Client, in_progress, new_client, is_open, status_changed}
use thread_link.Transport.Machine
use thread_link.Transport.Machine.{set_ready_state}
use thread_link.Provider.{App, World, new_app}
use thread_link.Provider.Actions.{mounted, logs_in, happens, app_step, app_run}
use thread_link.Provider.GivenUp.{HasGivenUp, app_run-HasGivenUp}
use thread_link.Provider.Reconnect.{errored-logs_out, opened-sends_nothing}

abbrev calm : World
calm = record {
  browser = record {
    refusal = λ n. none;
    parse_json = λ text. none;
    as_server_message = λ j. logged_out;
  };
  error_id = λ n. js "err";
  now = λ n. js "now";
}

abbrev url : Text
url = js "ws://chat"

-- A client that has made six WebSockets, all lost.
abbrev lost : App
lost = record (new_app url) {
  client = some (record (new_client url (some true) none) { made = 6 });
}

app_run-HasGivenUp_example :
    HasGivenUp 6 (app_run calm lost (mounted ∷ logs_in (js "amy") (js "password") ∷ []))
unfolding new_client new_app
app_run-HasGivenUp_example = app_run-HasGivenUp calm 6 _ lost (record { dead = (refl, refl, refl) })

-- The client of a logged-in user tries for the first time to connect again.
abbrev again : Client
again = record (new_client url (some true) none) {
  socket = some (record { number = 1; ready_state = in_progress });
  status = connecting;
  reconnect_attempts = 1;
  made = 2;
}

abbrev with_amy : App
with_amy = record (new_app url) {
  state = record (create_initial_state url) { user_id = some (js "amy") };
  state_ref = record (create_initial_state url) { user_id = some (js "amy") };
  client = some again;
}

errored-logs_out_example :
    let state' = (app_step calm with_amy (happens (Machine.errored 1))).state in
    (state'.user_id ≡ none)
    × (state'.users ≡ [])
    × (state'.conversations ≡ (public_conversation_id, create_public_conversation []) ∷ [])
unfolding new_client new_app create_initial_state
errored-logs_out_example = errored-logs_out calm with_amy again 1 refl b'a' (js "my") refl refl refl

opened-sends_nothing_example :
    app_step calm with_amy (happens (Machine.opened 1)) ≡ record with_amy {
      state = record with_amy.state { connection_status = connected };
      client = some (record (set_ready_state is_open again) {
        status = connected;
        reconnect_attempts = 0;
        log = status_changed connected ∷ [];
      });
    }
unfolding new_client new_app create_initial_state
opened-sends_nothing_example = opened-sends_nothing calm with_amy again 1 refl refl refl
