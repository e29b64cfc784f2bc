-- ===== src/Gateway/Safety/Messaging.antt =====
-- What a welcomed session asks for keeps the invariant.
use thread_link.Prelude.{
  ℕ, suc, ◌≡◌, refl, Bool, true, false, not, Option, none, some, List, [], ◌∷◌, if◌then◌else◌, Text,
  js, ◌++◌, includes,
}
use thread_link.Protocol.{
  MessageTarget, to_public, to_direct, to_group, ClientMessage, register, login, logout,
  set_nickname, send_message, create_group, set_presence, request_state, ConversationSummary,
  ServerMessage, error, user_update, conversation_created, message, MessageSummary, Presence,
}
use thread_link.BackendMessages.{format_chat_line}
use thread_link.Database.{Db}
use thread_link.Conversations
use thread_link.Conversations.{
  direct_conversation_id, has_direct, ensure_direct, get_group, GroupConversation, to_set,
}
use thread_link.Messages.{Draft, append}
use thread_link.Sessions.{find_session}
use thread_link.Environment.{Environment}
use thread_link.Gateway.{Gateway, emit, draw, rejected, send_to, set_session}
use thread_link.Gateway.Actions.{summarize}
use thread_link.Gateway.Messaging.{
  join_commas, send_to_ids, draft, store_then, handle_create_group, send_public, announce_new,
  send_direct, not_online, not_a_member, send_group, handle_send_message, handle_set_presence,
  handle_client_message,
}
use thread_link.Gateway.Safety.{
  Good, IsLive, Good-if, Good-emit, Good-send, Good-send_to, Good-set_session, Good-set_db,
  IsLive-send_to,
}
use thread_link.Gateway.Safety.Actions.{
  Good-send_line, Good-send_ready, Good-send_to_ids, Good-broadcast_to_all, find_session-IsLive,
}

Good-stored :
    (r : ℕ) (g : Gateway) (k : ServerMessage → Gateway → Gateway) (o : Option (Db × MessageSummary))
    → ((m : ServerMessage) (g' : Gateway) → Good r g' → Good r (k m g'))
    → Good r g
    → Good r (elim o [
      | none ↦ emit (rejected r) (draw g)
      | some (db, m) ↦ k (message m) (draw (record g { db = db }))
    ])
Good-stored r g k none f h =
    Good-emit r (rejected r) (draw g) (Good-set_db r g.db (suc g.drawn) g h) tt
Good-stored r g k (some (db, m)) f h = f (message m) _ (Good-set_db r db (suc g.drawn) g h)

Good-created :
    (r : ℕ) (unique : List Text) (g : Gateway) (o : Option (Db × ConversationSummary))
    → Good r g
    → Good r (elim o [
      | none ↦ emit (rejected r) (draw g)
      | some (db, c) ↦ send_to_ids unique (conversation_created c) (draw (record g { db = db }))
    ])
Good-created r unique g none h =
    Good-emit r (rejected r) (draw g) (Good-set_db r g.db (suc g.drawn) g h) tt
Good-created r unique g (some (db, c)) h =
    Good-send_to_ids r unique (conversation_created c) _ (Good-set_db r db (suc g.drawn) g h)

module _ (env : Environment) (r : ℕ) where
  Good-not_online : (id : Text) (g : Gateway) → Good r g → Good r (not_online env r id g)
  unfolding not_online
  Good-not_online id g h = Good-send r _ g h

  Good-not_a_member : (id : Text) (g : Gateway) → Good r g → Good r (not_a_member env r id g)
  unfolding not_a_member
  Good-not_a_member id g h = Good-send r _ g h

  Good-set_presence :
      (p : Presence) (g : Gateway) → Good r g → Good r (handle_set_presence env r p g)
  unfolding handle_set_presence
  Good-set_presence p g h =
      let g' = set_session r (record (g.heap r) { presence = p }) g in
      Good-broadcast_to_all r (user_update (summarize r g')) none g'
        (Good-set_session r (record (g.heap r) { presence = p }) g h h.live.0)

  Good-announce :
      (is_new : Bool) (peer : ℕ) (c : ConversationSummary) (g : Gateway)
      → Good r g
      → IsLive g peer
      → Good r (announce_new env is_new r peer c g)
  Good-announce true peer c g h k =
      let m = conversation_created c in
      Good-send_to r peer m (send_to r m g) (Good-send r m g h) (IsLive-send_to peer r m g k)
  Good-announce false peer c g h k = h

  Good-store_then :
      (d : Draft) (k : ServerMessage → Gateway → Gateway) (g : Gateway)
      → ((m : ServerMessage) (g' : Gateway) → Good r g' → Good r (k m g'))
      → Good r g
      → Good r (store_then env r d k g)
  unfolding store_then
  Good-store_then d k g f h =
      Good-stored r g k (append (env.random_uuid g.drawn) (env.iso_now g.drawn) d g.db) f h

  Good-send_public : (text : Text) (g : Gateway) → Good r g → Good r (send_public env r text g)
  unfolding send_public
  Good-send_public text g h =
      Good-store_then _ _ g
        (λ m g' k. Good-send_line r (format_chat_line text) (send_to r m g') (Good-send r m g' k)) h

  Good-send_direct :
      (peer : ℕ) (text : Text) (g : Gateway)
      → Good r g
      → IsLive g peer
      → Good r (send_direct env r peer text g)
  unfolding send_direct
  Good-send_direct peer text g h k =
      let (db, c) = ensure_direct (env.iso_now g.drawn) (g.heap r).id (g.heap peer).id g.db in
      let g' = draw (record g { db = db }) in
      Good-store_then _ _ _ (λ m g'' l. Good-send_line r _ g'' l)
        (Good-announce
          (not (has_direct (direct_conversation_id (g.heap r).id (g.heap peer).id) g.db)) peer c g'
          (Good-set_db r db (suc g.drawn) g h) k)

  Good-to_group :
      (id text : Text) (g : Gateway) (o : Option GroupConversation)
      → Good r g
      → Good r (elim o [
        | none ↦ not_a_member env r id g
        | some group ↦
            if includes group.member_ids (g.heap r).id
            then store_then env r
                (draft group.id (g.heap r) text)
                (λ m g'. send_to_ids group.member_ids m g')
                g
            else not_a_member env r id g
      ])
  Good-to_group id text g none h = Good-not_a_member id g h
  Good-to_group id text g (some group) h =
      Good-if r _ _ _
        (Good-store_then _ _ g (λ m g' k. Good-send_to_ids r group.member_ids m g' k) h)
        (Good-not_a_member id g h)

  Good-to_direct :
      (id text : Text) (g : Gateway) (o : Option ℕ)
      → Good r g
      → find_session id g.roster ≡ o
      → Good r (elim o [
        | none ↦ not_online env r id g
        | some peer ↦
            if (g.heap peer).welcomed then send_direct env r peer text g else not_online env r id g
      ])
  Good-to_direct id text g none h e = Good-not_online id g h
  Good-to_direct id text g (some peer) h e =
      Good-if r _ _ _ (Good-send_direct peer text g h (find_session-IsLive g id peer h.safe e))
        (Good-not_online id g h)

  Good-send_message :
      (t : MessageTarget) (text : Text) (g : Gateway)
      → Good r g
      → Good r (handle_send_message env r t text g)
  unfolding handle_send_message send_group
  Good-send_message to_public text g h = Good-send_public text g h
  Good-send_message (to_direct id) text g h =
      Good-to_direct id text g (find_session id g.roster) h refl
  Good-send_message (to_group id) text g h = Good-to_group id text g (get_group id g.db) h

  Good-strangers :
      (name : Text) (unique strangers : List Text) (g : Gateway)
      → Good r g
      → Good r (elim strangers [
        | id ∷ ids ↦
            send_to r
              (error
                (js "UNKNOWN_MEMBER")
                (js "Unknown or offline user id(s): " ++ join_commas (id ∷ ids))
                none)
              g
        | [] ↦
            elim (Conversations.create_group
              (env.random_uuid g.drawn)
              (env.iso_now g.drawn)
              name
              unique
              g.db) [
                | none ↦ emit (rejected r) (draw g)
                | some (db, conversation) ↦
                    send_to_ids unique
                      (conversation_created conversation)
                      (draw (record g { db = db }))
              ]
      ])
  Good-strangers name unique [] g h = Good-created r unique g _ h
  Good-strangers name unique (id ∷ ids) g h = Good-send r _ g h

  Good-create_group :
      (name : Text) (ids : List Text) (g : Gateway)
      → Good r g
      → Good r (handle_create_group env r name ids g)
  unfolding handle_create_group
  Good-create_group name ids g h = Good-strangers name _ _ g h

  pub Good-handle_client_message :
      (m : ClientMessage) (g : Gateway) → Good r g → Good r (handle_client_message env r m g)
  unfolding handle_client_message
  Good-handle_client_message (set_nickname nickname) g h = Good-send_line r _ g h
  Good-handle_client_message (set_presence p) g h = Good-set_presence p g h
  Good-handle_client_message request_state g h = Good-send_ready env r g h
  Good-handle_client_message (create_group name ids) g h = Good-create_group name ids g h
  Good-handle_client_message (send_message t text) g h = Good-send_message t text g h
  Good-handle_client_message (register username password) g h = h
  Good-handle_client_message (login username password) g h = h
  Good-handle_client_message logout g h = h
