-- ===== src/Gateway/Kept/Requests.antt =====
-- What a welcomed session asks for leaves the records of the connections.
use thread_link.Prelude.{
  ℕ, refl, Bool, true, false, not, none, some, List, [], ◌∷◌, ◌++◌, Text, keep, js,
}
use thread_link.Protocol.{
  ClientMessage, register, login, logout, set_nickname, send_message, create_group, set_presence,
  request_state, MessageTarget, to_public, to_direct, to_group, ServerMessage, ConversationSummary,
  conversation_created, message, error,
}
use thread_link.Conversations.{get_group, to_set, has_direct, direct_conversation_id, ensure_direct}
use thread_link.Sessions.{find_session}
use thread_link.Environment.{Environment}
use thread_link.Gateway.{Gateway, rejected, emit, draw, set_session, send_to}
use thread_link.Gateway.Actions.{send_ready}
use thread_link.Gateway.Messaging.{
  is_online, join_commas, send_to_ids, store_then, handle_create_group, send_public, send_direct,
  send_group, not_online, not_a_member, handle_send_message, handle_set_presence,
  handle_client_message, announce_new,
}
use thread_link.Messages.{append, Draft}
use thread_link.Conversations
use thread_link.Gateway.Kept.{
  Kept, Kept-trans, Kept-draw, Kept-send_to, Kept-send_line, Kept-set_session, Kept-broadcast,
  Kept-if, Kept-option, Kept-send_to_ids,
}

module _ (env : Environment) where
  Kept-announce_new :
      (b : Bool) (r peer : ℕ) (c : ConversationSummary) (g : Gateway)
      → Kept g (announce_new env b r peer c g)
  Kept-announce_new false r peer c g = record { at = λ q. refl }
  Kept-announce_new true r peer c g =
      let m = conversation_created c in
      Kept-trans g (send_to r m g) _ (Kept-send_to r m g) (Kept-send_to peer m (send_to r m g))

  Kept-store_then :
      (r : ℕ) (d : Draft) (k : ServerMessage → Gateway → Gateway) (g : Gateway)
      → ((m : ServerMessage) (g' : Gateway) → Kept g' (k m g'))
      → Kept g (store_then env r d k g)
  unfolding store_then
  Kept-store_then r d k g h =
      Kept-option g (append (env.random_uuid g.drawn) (env.iso_now g.drawn) d g.db) _ _
        (record { at = λ q. refl })
        (λ x. Kept-draw x.0 g _ (h (message x.1) (draw (record g { db = x.0 }))))

  Kept-create_group :
      (r : ℕ) (name : Text) (ids : List Text) (g : Gateway)
      → Kept g (handle_create_group env r name ids g)
  unfolding handle_create_group
  Kept-create_group r name ids g =
      let unique = to_set ((g.heap r).id ∷ ids) in
      strangers_or unique (keep (λ id. not (is_online g id)) unique)
    where
      strangers_or :
          (unique strangers : List Text)
          → Kept g (elim strangers [
            | id ∷ more ↦
                send_to r
                  (error
                    (js "UNKNOWN_MEMBER")
                    (js "Unknown or offline user id(s): " ++ join_commas (id ∷ more))
                    none)
                  g
            | [] ↦
                elim (Conversations.create_group
                  (env.random_uuid g.drawn)
                  (env.iso_now g.drawn)
                  name
                  unique
                  g.db) [
                    | none ↦ emit (rejected r) (draw g)
                    | some (db, conversation) ↦
                        send_to_ids unique
                          (conversation_created conversation)
                          (draw (record g { db = db }))
                  ]
          ])
      strangers_or unique (id ∷ more) = Kept-send_to r _ g
      strangers_or unique [] =
          Kept-option g
            (Conversations.create_group (env.random_uuid g.drawn) (env.iso_now g.drawn) name unique
              g.db)
            _ _ (record { at = λ q. refl })
            (λ x.
              Kept-draw x.0 g _
                (Kept-send_to_ids unique (conversation_created x.1) (draw (record g { db = x.0 }))))

  Kept-send_public : (r : ℕ) (text : Text) (g : Gateway) → Kept g (send_public env r text g)
  unfolding send_public
  Kept-send_public r text g = Kept-store_then r _ _ g (λ m g'.
      Kept-trans g' (send_to r m g') _ (Kept-send_to r m g') (Kept-send_line r _ (send_to r m g')))

  Kept-send_direct :
      (r peer : ℕ) (text : Text) (g : Gateway) → Kept g (send_direct env r peer text g)
  unfolding send_direct
  Kept-send_direct r peer text g =
      let own = (g.heap r).id in
      let other = (g.heap peer).id in
      let is_new = not (has_direct (direct_conversation_id own other) g.db) in
      let (db, c) = ensure_direct (env.iso_now g.drawn) own other g.db in
      let g' = draw (record g { db = db }) in
      Kept-trans g (announce_new env is_new r peer c g') _
        (Kept-draw db g _ (Kept-announce_new is_new r peer c g'))
        (Kept-store_then r _ _ (announce_new env is_new r peer c g')
          (λ m g'. Kept-send_line r _ g'))

  Kept-send_group : (r : ℕ) (id text : Text) (g : Gateway) → Kept g (send_group env r id text g)
  unfolding send_group not_a_member
  Kept-send_group r id text g = Kept-option g (get_group id g.db) _ _ (Kept-send_to r _ g) (λ group.
      Kept-if _ g _ _ (Kept-store_then r _ _ g (λ m g'. Kept-send_to_ids group.member_ids m g'))
        (Kept-send_to r _ g))

  Kept-send_message :
      (r : ℕ) (target : MessageTarget) (text : Text) (g : Gateway)
      → Kept g (handle_send_message env r target text g)
  unfolding handle_send_message not_online
  Kept-send_message r to_public text g = Kept-send_public r text g
  Kept-send_message r (to_direct id) text g =
      Kept-option g (find_session id g.roster) _ _ (Kept-send_to r _ g)
        (λ peer. Kept-if _ g _ _ (Kept-send_direct r peer text g) (Kept-send_to r _ g))
  Kept-send_message r (to_group id) text g = Kept-send_group r id text g

  pub Kept-client_message :
      (r : ℕ) (m : ClientMessage) (g : Gateway) → Kept g (handle_client_message env r m g)
  unfolding handle_client_message handle_set_presence send_ready
  Kept-client_message r (set_nickname nickname) g = Kept-send_line r _ g
  Kept-client_message r (set_presence presence) g =
      let g' = set_session r (record (g.heap r) { presence = presence }) g in
      Kept-trans g g' _ (Kept-set_session r (record (g.heap r) { presence = presence }) g refl)
        (Kept-broadcast _ none g')
  Kept-client_message r request_state g = Kept-send_to r _ g
  Kept-client_message r (create_group name ids) g = Kept-create_group r name ids g
  Kept-client_message r (send_message target text) g = Kept-send_message r target text g
  Kept-client_message r (register username password) g = record { at = λ q. refl }
  Kept-client_message r (login username password) g = record { at = λ q. refl }
  Kept-client_message r logout g = record { at = λ q. refl }
