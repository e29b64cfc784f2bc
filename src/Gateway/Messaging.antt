-- ===== src/Gateway/Messaging.antt =====
-- `handleClientMessage`, `handleCreateGroup` and `handleSendMessage` of gatewayServer.ts.
use thread_link.Prelude.{
  ℕ, Bool, true, false, not, Option, none, some, List, [], ◌∷◌, ◌++◌, keep, if◌then◌else◌, Text, js,
  includes,
}
use thread_link.Protocol.{
  MessageTarget, to_public, to_direct, to_group, ClientMessage, register, login, logout,
  set_nickname, send_message, create_group, set_presence, request_state, ConversationSummary, chat,
  ServerMessage, user_update, conversation_created, message, error, Presence,
}
use thread_link.BackendMessages.{format_nick_command, format_msg_command, format_chat_line}
use thread_link.Database.{Db, public_conversation_id}
use thread_link.Conversations
use thread_link.Conversations.{
  direct_conversation_id, has_direct, ensure_direct, get_group, GroupConversation, to_set,
}
use thread_link.Messages.{Draft, append}
use thread_link.Sessions.{Session, Heap, find_session}
use thread_link.Environment.{Environment}
use thread_link.Gateway.{Gateway, rejected, emit, set_session, draw, send_to, send_line}
use thread_link.Gateway.Actions.{broadcast_to_all, summarize, send_ready}

-- `this.sessions.get(id)?.welcomed`
abbrev welcomed_at : Option ℕ → Heap → Bool
welcomed_at none heap = false
welcomed_at (some r) heap = (heap r).welcomed

abbrev pub is_online : Gateway → Text → Bool
is_online g id = welcomed_at (find_session id g.roster) g.heap

-- `ids.join(", ")`
unfoldable pub join_commas : List Text → Text
join_commas [] = []
join_commas (x ∷ []) = x
join_commas (x ∷ y ∷ ys) = x ++ (js ", " ++ join_commas (y ∷ ys))

abbrev pub send_if : Option ℕ → ServerMessage → Gateway → Gateway
send_if none m g = g
send_if (some r) m g = send_to r m g

-- A loop over ids that sends to the session of each, if there is one.
unfoldable pub send_to_ids : List Text → ServerMessage → Gateway → Gateway
send_to_ids [] m g = g
send_to_ids (id ∷ ids) m g = send_to_ids ids m (send_if (find_session id g.roster) m g)

abbrev set_db : Db → Gateway → Gateway
set_db db g = record g { db = db }

-- What `append` is given at each of its calls.
abbrev pub draft : Text → Session → Text → Draft
draft conversation session text = record {
  id = none;
  conversation_id = conversation;
  kind = chat;
  sender_id = some session.id;
  sender_username = some session.nickname;
  text = text;
  timestamp = none;
}

module _ (env : Environment) where
  -- Storing a message; a failing INSERT rejects the promise of the handler.
  unfoldable pub store_then : ℕ → Draft → (ServerMessage → Gateway → Gateway) → Gateway → Gateway
  store_then r d continue g = elim (append (env.random_uuid g.drawn) (env.iso_now g.drawn) d g.db) [
    | none ↦ emit (rejected r) (draw g)
    | some (db, m) ↦ continue (message m) (draw (set_db db g))
  ]

  unfoldable pub handle_create_group : ℕ → Text → List Text → Gateway → Gateway
  unfolding keep
  handle_create_group r name member_ids g =
      let unique = to_set ((g.heap r).id ∷ member_ids) in
      let strangers = keep (λ id. not (is_online g id)) unique in
      elim strangers [
        | id ∷ ids ↦
            send_to r
              (error (js "UNKNOWN_MEMBER")
                (js "Unknown or offline user id(s): " ++ join_commas (id ∷ ids)) none)
              g
        | [] ↦
            elim (Conversations.create_group (env.random_uuid g.drawn) (env.iso_now g.drawn) name
              unique g.db) [
                | none ↦ emit (rejected r) (draw g)
                | some (db, conversation) ↦
                    send_to_ids unique (conversation_created conversation) (draw (set_db db g))
              ]
      ]

  unfoldable pub send_public : ℕ → Text → Gateway → Gateway
  send_public r text g =
      store_then r (draft public_conversation_id (g.heap r) text)
        (λ m g'. send_line r (format_chat_line text) (send_to r m g')) g

  abbrev pub announce_new : Bool → ℕ → ℕ → ConversationSummary → Gateway → Gateway
  announce_new true r peer c g =
      send_to peer (conversation_created c) (send_to r (conversation_created c) g)
  announce_new false r peer c g = g

  -- The direct branch, where the peer's session is known and welcomed.
  unfoldable pub send_direct : ℕ → ℕ → Text → Gateway → Gateway
  send_direct r peer text g =
      let own = (g.heap r).id in
      let other = (g.heap peer).id in
      let is_new = not (has_direct (direct_conversation_id own other) g.db) in
      let (db, c) = ensure_direct (env.iso_now g.drawn) own other g.db in
      store_then r (draft c.id (g.heap r) text)
        (λ m g'. send_line r (format_msg_command (g'.heap peer).nickname text) g')
        (announce_new is_new r peer c (draw (set_db db g)))

  unfoldable pub not_online : ℕ → Text → Gateway → Gateway
  not_online r peer_id g =
      send_to r
        (error (js "USER_NOT_FOUND") (js "That user is not currently online.")
          (some (direct_conversation_id (g.heap r).id peer_id)))
        g

  unfoldable pub not_a_member : ℕ → Text → Gateway → Gateway
  not_a_member r group_id g =
      send_to r
        (error (js "NOT_A_MEMBER") (js "You are not a member of that group.") (some group_id)) g

  unfoldable pub send_group : ℕ → Text → Text → Gateway → Gateway
  send_group r group_id text g = elim (get_group group_id g.db) [
    | none ↦ not_a_member r group_id g
    | some group ↦
        if includes group.member_ids (g.heap r).id
        then store_then r (draft group.id (g.heap r) text)
            (λ m g'. send_to_ids group.member_ids m g') g
        else not_a_member r group_id g
  ]

  unfoldable pub handle_send_message : ℕ → MessageTarget → Text → Gateway → Gateway
  handle_send_message r to_public text g = send_public r text g
  handle_send_message r (to_direct peer_id) text g = elim (find_session peer_id g.roster) [
    | none ↦ not_online r peer_id g
    | some peer ↦
        if (g.heap peer).welcomed then send_direct r peer text g else not_online r peer_id g
  ]
  handle_send_message r (to_group group_id) text g = send_group r group_id text g

  unfoldable pub handle_set_presence : ℕ → Presence → Gateway → Gateway
  handle_set_presence r presence g =
      let g' = set_session r (record (g.heap r) { presence = presence }) g in
      broadcast_to_all (user_update (summarize r g')) none g'

  unfoldable pub handle_client_message : ℕ → ClientMessage → Gateway → Gateway
  handle_client_message r (set_nickname nickname) g = send_line r (format_nick_command nickname) g
  handle_client_message r (set_presence presence) g = handle_set_presence r presence g
  handle_client_message r request_state g = send_ready env r g
  handle_client_message r (create_group name member_ids) g = handle_create_group r name member_ids g
  handle_client_message r (send_message target text) g = handle_send_message r target text g
  handle_client_message r (register username password) g = g
  handle_client_message r (login username password) g = g
  handle_client_message r logout g = g
