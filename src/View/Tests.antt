-- ===== src/View/Tests.antt =====
-- Examples for the components.
use thread_link.Prelude.{refl, true, none, some, [], ◌∷◌, All, js, ◌==◌}
use thread_link.Protocol.{to_public, send_message, direct, logged_out}
use thread_link.ClientProtocol.RoundTrip.{to_json}
use thread_link.ChatState.{ChatState, Conversation, connected, failed, create_initial_state}
use thread_link.Transport.{Client, is_open, new_client}
use thread_link.Provider.{App, World, new_app}
use thread_link.View.{Locale}
use thread_link.View.Sidebar.{sidebar}
use thread_link.View.Offline.{IsHarmless, sidebar-IsHarmless}
use thread_link.Environment.{Environment}
use thread_link.Gateway.Worlds.{toy}
use thread_link.View.Forms.{NewGroupForm}

abbrev calm : World
calm = record {
  browser = record {
    refusal = λ n. none;
    parse_json = λ text. none;
    as_server_message = λ j. logged_out;
  };
  error_id = λ n. js "err";
  now = λ n. js "now";
}

abbrev plain : Locale
plain = record {
  to_upper_case = λ s. s;
  to_lower_case = λ s. s;
  contains = λ s t. s == t;
  message_time = λ t. t;
}

abbrev client : Client
client = record (new_client (js "ws://chat") none none) {
  socket = some (record { number = 0; ready_state = is_open });
  status = connected;
  made = 1;
}

abbrev at_work : App
at_work = record (new_app (js "ws://chat")) {
  state = record (create_initial_state (js "ws://chat")) {
    connection_status = connected;
    user_id = some (js "amy");
  };
  client = some client;
}

-- A gateway that reads all bytes as that message.
abbrev reading : Environment
reading = record toy { parse_json = λ raw. some (to_json (send_message to_public (js "hi"))) }

abbrev form : NewGroupForm
form = record { name = js " G "; selected = js "bo" ∷ js "cy" ∷ [] }

abbrev with_bo : Conversation
with_bo = record {
  id = js "direct:amy:bo";
  kind = direct;
  title = js "Bo";
  peer_id = some (js "bo");
  member_ids = none;
  messages = [];
  unread_count = 0;
}

-- A state that shows a conversation with somebody who is offline, and is not connected.
abbrev alone : ChatState
alone = record (create_initial_state (js "ws://chat")) {
  connection_status = failed;
  conversations = (js "direct:amy:bo", with_bo) ∷ [];
  active_conversation_id = js "direct:amy:bo";
}

sidebar-IsHarmless_example : All (IsHarmless calm) (sidebar plain true (js "b") alone)
unfolding create_initial_state
sidebar-IsHarmless_example = sidebar-IsHarmless calm alone refl plain true (js "b")
