-- ===== src/Gateway/Tests.antt =====
-- Tests and examples for the gateway, in the worlds of Worlds.
use thread_link.Prelude.{
  eq_iff, ◌⊎◌, ◌≡◌, refl, true, false, some, [], ◌∷◌, arith, js, ◌==◌, get, lt_text, any,
}
use thread_link.Protocol.{request_state, message}
use thread_link.ClientProtocol.Values.{obj, str, arr, cons, nil, property, end}
use thread_link.Database.{
  MessageRow, empty_db, has_message, conversation_by_id, public_conversation_id,
}
use thread_link.Conversations.{direct_conversation_id, has_direct}
use thread_link.Messages.{to_summary}
use thread_link.Sessions.{new_session, find_session, all_sessions}
use thread_link.Environment.{Environment}
use thread_link.Gateway.{Gateway, sent, line, draw}
use thread_link.BackendMessages.{format_chat_line, format_msg_command}
use thread_link.BackendMessages.Server.{read_line, chat, handle_msg}
use thread_link.Gateway.Worlds.{toy, group_db, chatting, amy}
use mathlib.Core.List.{flatten}
use thread_link.Wire.{encode_frame, write_uint32_be}
use thread_link.BackendConnection.{Utf8}
use thread_link.ChatServer.Frames.{read_frames}
use thread_link.Gateway.Sends.{EndsWith, send_public-delivers, send_direct-delivers}
use thread_link.Gateway.Messaging.{send_public, send_direct}
use thread_link.Gateway.Login.{close, sign_in, on_client_closed, on_connection}
use thread_link.Gateway.Steps.{opened, received, step, start}
use thread_link.Gateway.Safety.{Safe}
use thread_link.Gateway.Safety.Reachable.{Reachable, started, stepped, Reachable-Safe}
use thread_link.Gateway.Delivery.{stored_row}
use thread_link.Gateway.Once.{IsSingle, IsSpread, IsDenied, send_group-reaches}
use thread_link.Gateway.Shutdown.{ended, heap-close}
use thread_link.ClientProtocol.RoundTrip.{to_json}
use thread_link.Gateway.LateLogin.{sign_in-closed}

abbrev one_open : Gateway
one_open = step toy 100 (start toy empty_db) opened

one_open-Reachable : Reachable toy 100 empty_db one_open
one_open-Reachable = stepped (start toy empty_db) opened started tt

Reachable-Safe_example : Safe (step toy 100 one_open (received 0 (js "no")))
unfolding step on_connection start
Reachable-Safe_example =
    Reachable-Safe toy 100 empty_db _
      (stepped one_open (received 0 (js "no")) one_open-Reachable (omega arith))

abbrev hi_row : MessageRow
hi_row = stored_row toy 0 (js "group:g") (js "hi") chatting

chatting-IsSingle : IsSingle chatting.roster
unfolding find_session get start new_session
chatting-IsSingle i j q h k = ground (
  arith,
  eq_iff (js "amy") i,
  eq_iff (js "cy") i,
  eq_iff (js "bo") i,
  eq_iff (js "amy") j,
  eq_iff (js "cy") j,
  eq_iff (js "bo") j,
)

send_group-reaches_example :
    IsSpread toy 0 (js "group:g") (js "hi") chatting
    ⊎ IsDenied toy 0 (js "group:g") (js "hi") chatting
unfolding has_message start
send_group-reaches_example =
    send_group-reaches toy 0 (js "group:g") (js "hi") chatting refl chatting-IsSingle

-- A session whose WebSocket has closed while its login waited.
abbrev gone : Gateway
gone = record (start toy empty_db) {
  heap = λ r. record (new_session []) { closed = true; ws_open = false };
  opened = 1;
}

sign_in-closed_example :
    find_session (js "u1") (on_client_closed 0 (sign_in 0 amy gone)).roster ≡ some 0
unfolding find_session get start
sign_in-closed_example = sign_in-closed 0 amy gone refl refl

-- A world in which every text is a request to create a group.
abbrev eager : Environment
eager = record toy {
  parse_json = λ raw. some (
      obj (
        property (js "type") (str (js "createGroup")) (
          property (js "name") (str (js "G"))
            (property (js "memberIds") (arr (cons (str (js "amy")) nil)) end))));
}

abbrev public_row : MessageRow
public_row = stored_row toy 0 public_conversation_id (js "hi") chatting

-- A UTF-8 for ASCII texts.
abbrev ascii : Utf8
ascii = record { to_text = λ bytes. bytes; to_bytes = λ text. text }

send_public-delivers_example :
    let g' = send_public toy 0 (js "hi") chatting in
    (g'.db ≡ record group_db { messages = public_row ∷ [] })
    × (g'.log ≡ sent 0 (message (to_summary public_row)) ∷ line 0 (format_chat_line (js "hi")) ∷ [])
    × ((read_frames 200 ((0 ∷ 0 ∷ []) ∷ (0 ∷ 2 ∷ js "hi") ∷ [])).payloads ≡ js "hi" ∷ [])
    × (read_line (js "hi") ≡ chat (js "hi"))
unfolding start has_message new_session encode_frame format_chat_line write_uint32_be flatten
send_public-delivers_example =
    send_public-delivers toy 0 chatting refl ascii 200 b'h' (js "i") (js "hi")
      ((0 ∷ 0 ∷ []) ∷ (0 ∷ 2 ∷ js "hi") ∷ []) refl refl (omega arith) refl (omega arith)
      (omega arith) (omega arith) refl

-- amy writes to bo for the first time.
send_direct-delivers_example :
    let g' = send_direct toy 0 2 (js "hi") chatting in
    let id = direct_conversation_id (js "amy") (js "bo") in
    let l = format_msg_command (js "bo") (js "hi") in
    (g'.db.messages ≡ stored_row toy 0 id (js "hi") (draw chatting) ∷ [])
    × (has_direct id g'.db ≡ true)
    × EndsWith g' (line 0 l)
    × ((read_frames 200 ((0 ∷ 0 ∷ []) ∷ (0 ∷ 10 ∷ js "/msg bo hi") ∷ [])).payloads
        ≡ js "/msg bo hi" ∷ [])
    × (read_line (js "/msg bo hi") ≡ handle_msg (js "bo") (js "hi"))
unfolding start has_message new_session conversation_by_id direct_conversation_id ◌==◌ lt_text
    encode_frame format_msg_command write_uint32_be flatten
send_direct-delivers_example =
    send_direct-delivers toy 0 chatting refl ascii 200 2 b'h' (js "i") (js "hi")
      ((0 ∷ 0 ∷ []) ∷ (0 ∷ 10 ∷ js "/msg bo hi") ∷ []) refl refl (omega arith) (λ c s h. refl)
      (omega arith) (ground arith) refl (omega arith) (ground arith) refl

heap-close_example : (close chatting).heap 2 ≡ ended (chatting.heap 2)
unfolding all_sessions start new_session any
heap-close_example = heap-close 2 chatting

-- A world in which every text asks for the state.
abbrev asking : Environment
asking = record toy { parse_json = λ raw. some (to_json request_state) }
