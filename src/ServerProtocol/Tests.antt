-- ===== src/ServerProtocol/Tests.antt =====
-- A message that has a list of each kind in it.
use thread_link.Prelude.{◌≡◌, none, some, [], ◌∷◌, js}
use thread_link.Protocol.{online, public, chat, ready, ServerMessage}
use thread_link.ServerProtocol.{server_to_json}
use thread_link.ServerProtocol.Shapes.{server_message}
use thread_link.ServerProtocol.Conforms.{server_message-server_to_json}

abbrev welcome_back : ServerMessage
welcome_back = ready (record {
  user_id = js "u1";
  username = js "amy";
  users = record { id = js "u1"; username = js "amy"; presence = online } ∷ [];
  conversations =
      record { id = js "public"; kind = public; title = js "Public"; member_ids = js "u1" ∷ [] }
      ∷ [];
  messages =
      record {
        id = js "m1";
        conversation_id = js "public";
        kind = chat;
        sender_id = none;
        sender_username = some (js "bo");
        text = js "hi";
        timestamp = js "t";
      }
      ∷ [];
})

server_message-server_to_json_example :
    server_message (server_to_json welcome_back) ≡ some welcome_back
server_message-server_to_json_example = server_message-server_to_json welcome_back
