-- ===== src/System/Tests.antt =====
-- Concrete runs of the gateway with the server: amy logs in beside bo, and says something to him.
use thread_link.Prelude.{
  ℕ, ◌++◌, ap, ◌≡◌, refl, true, false, none, some, List, [], ◌∷◌, arith, js, ◌==◌, any, find,
  decimal, get,
}
use thread_link.Protocol.{message, error}
use thread_link.Database.{public_conversation_id}
use thread_link.BackendMessages.{format_nick_command, parse_backend_line}
use thread_link.Users.{validate_username, matches_username}
use thread_link.Sessions.{find_session, new_session}
use thread_link.Gateway.{sent, line, backend_opened, ws_closed}
use thread_link.Gateway.Worlds.{toy, amy, logging_in, chatting}
use thread_link.Gateway.LoginRun.{IsReady}
use thread_link.Gateway.BackendEvents.{summary, conflict_message}
use thread_link.Gateway.Steps.{backend_says, step}
use thread_link.Gateway.Steps
use thread_link.ChatServer.{
  ServerConfig, ClientRecord, Server, Job, sending, broadcasting, find_client,
  assign_default_nickname,
}
use thread_link.ChatServer.Commands.{is_taken_by_other, handle_line}
use thread_link.ChatServer.Threads.{accept_one, broadcast}
use thread_link.ChatServer.Delivery.{framed_to}
use thread_link.System.Dialogue.{told_lines, renamed, told_lines-IsReady, taken_name_lem}
use thread_link.Protocol.{MessageSummary, logged_out}
use thread_link.Messages.{or_else}
use thread_link.ChatState.{create_initial_state}
use thread_link.ChatState.Summaries.{message_from_summary}
use thread_link.ChatState.Reducer.Keyed.{IsKeyed-public}
use thread_link.ChatState.Reducer.Selected.{home}
use thread_link.Transport.{Client, new_client, is_open}
use thread_link.Transport.Machine.{received}
use thread_link.Provider.{App, World, new_app}
use thread_link.Provider.Actions.{happens, app_step}
use thread_link.ServerProtocol.{server_to_json}
use thread_link.ServerProtocol.Shapes.{server_message}
use thread_link.System.Shown.{app_step-received}
use thread_link.BackendConnection.{Utf8}
use thread_link.ChatServer.{connection, Input}
use thread_link.ChatServer.{closed_by_peer}

abbrev small : ServerConfig
small = record { max_clients = 2; max_message_size = 200 }

abbrev client_bo : ClientRecord
client_bo = record { fd = 5; nickname = js "bo"; welcomed = true }

abbrev client_new : ClientRecord
client_new = record { fd = 4; nickname = js "User1"; welcomed = true }

abbrev client_amy : ClientRecord
client_amy = record { fd = 4; nickname = js "amy"; welcomed = true }

abbrev server_of : List ClientRecord → Server
server_of clients = record { clients = clients; wire = [] }

abbrev both : Server
both = server_of (client_amy ∷ client_bo ∷ [])

told_lines-IsReady_example :
    let later = server_of (client_new ∷ client_bo ∷ []) in
    ((rest : List Job) × ((accept_one small 4 (server_of (client_bo ∷ []))).1
        ≡ sending 4 (js "WELCOME User1") ∷ rest))
    × (handle_line 4 (format_nick_command (js "amy")) later
        ≡ ((renamed 4 (js "amy") later, broadcasting (js "NICK User1 amy") none ∷ []), true))
    × (framed_to 4 (broadcast (js "NICK User1 amy") none (renamed 4 (js "amy") later))
        ≡ js "NICK User1 amy" ∷ [])
    × IsReady 0 amy
        (backend_opened 0 ∷ line 0 (format_nick_command (js "amy")) ∷ [])
        (told_lines toy 100 0 amy (js "WELCOME User1") (js "NICK User1 amy") logging_in)
unfolding get assign_default_nickname decimal find_client find is_taken_by_other any find_session
    new_session Steps.start validate_username matches_username ◌==◌
told_lines-IsReady_example =
    told_lines-IsReady small 4 (server_of (client_bo ∷ []))
      (server_of (client_new ∷ client_bo ∷ [])) client_new toy 100 0 amy logging_in b'a' (js "my")
      refl refl refl refl (((omega arith, λ h. cc), tt), (tt, tt)) refl refl refl refl refl refl
      refl refl

taken_name_lem_example :
    let g' = step toy 100 logging_in (
      backend_says 0 (parse_backend_line (js "ERR NICK_TAKEN Nickname 'amy' is already in use"))) in
    (handle_line 6 (format_nick_command (js "amy")) both
      ≡ ((both, sending 6 (js "ERR NICK_TAKEN Nickname 'amy' is already in use") ∷ []), true))
    × (g'.log
        ≡ sent 0 (error (js "LOGIN_FAILED") (conflict_message toy) none) ∷ ws_closed 0 1011 ∷ [])
    × ((g'.heap 0).ws_open ≡ false)
unfolding is_taken_by_other any new_session Steps.start validate_username matches_username ◌==◌
taken_name_lem_example =
    taken_name_lem 6 both toy 100 0 logging_in b'a' (js "my") refl refl refl refl

-- A UTF-8 for ASCII texts.
abbrev ascii : Utf8
ascii = record { to_text = λ bytes. bytes; to_bytes = λ text. text }

-- The message that bo gets, in a browser that reads every text as it.
abbrev hello : MessageSummary
hello = summary toy chatting public_conversation_id (some (js "amy")) (some (js "amy")) (js "hi")

abbrev world_of_bo : World
world_of_bo = record {
  browser = record {
    refusal = λ n. none;
    parse_json = λ text. some (server_to_json (message hello));
    as_server_message = λ j. or_else (server_message j) logged_out;
  };
  error_id = λ n. [];
  now = λ n. [];
}

abbrev client_of_bo : Client
client_of_bo = record (new_client (js "ws") none none) {
  socket = some (record { number = 0; ready_state = is_open });
}

abbrev app_of_bo : App
app_of_bo = record (new_app (js "ws")) { client = some client_of_bo }

app_step-received_example :
    let app' = app_step world_of_bo app_of_bo (happens (received 0 (some (js "{}")))) in
    let before = home hello app_of_bo.state in
    get (js "public") app'.state.conversations
    ≡ some (record before {
      messages = before.messages ++ message_from_summary hello [] ∷ [];
      unread_count = 0;
    })
unfolding new_app create_initial_state ◌==◌
app_step-received_example =
    app_step-received world_of_bo app_of_bo client_of_bo
      (record { number = 0; ready_state = is_open }) b'{' (js "}") hello (js "public") refl refl
      (λ j m h. ap (λ o. or_else o logged_out) h) refl (IsKeyed-public [])

-- 4 is accepted, is told its nickname and asks for the list; its WELCOME comes in two pieces.
abbrev listing : List (ℕ × Input)
listing = (0, connection 4) ∷ (0, closed_by_peer) ∷ (0, closed_by_peer) ∷ []

abbrev pieces : List (List ℕ)
pieces = (0 ∷ 0 ∷ []) ∷ (0 ∷ 13 ∷ js "WELCOME User1") ∷ []
