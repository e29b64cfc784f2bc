-- ===== src/Gateway/Kept.antt =====
-- What the backend says never changes the gateway's record of a connection to it.
pub mod Requests
pub mod Events
use thread_link.Prelude.{
  ℕ, ◌≡◌, refl, ap, ◌∙◌, Bool, true, false, not, Option, none, some, List, [], ◌∷◌, ◌++◌,
  if◌then◌else◌, arith, Text, ◌==◌, keep, js,
}
use thread_link.Protocol.{
  ClientMessage, register, login, logout, set_nickname, send_message, create_group, set_presence,
  request_state, MessageTarget, to_public, to_direct, to_group, ServerMessage, ConversationSummary,
  conversation_created, message, error, user_update,
}
use thread_link.BackendMessages.{
  BackendEvent, welcome, sys, msg, priv, priv_sent, nick, list, err, unknown,
}
use thread_link.Conversations.{get_group, to_set, has_direct, direct_conversation_id, ensure_direct}
use thread_link.Sessions.{Session, find_session, drain_queue}
use thread_link.Database.{Db}
use thread_link.Environment.{Environment}
use thread_link.Gateway.{Gateway, rejected, emit, draw, set_session, send_to, send_line, close_ws}
use thread_link.Gateway.Actions.{broadcast_to_all, send_ready, summarize}
use thread_link.Gateway.Messaging.{
  is_online, join_commas, send_if, send_to_ids, store_then, handle_create_group, send_public,
  send_direct, send_group, not_online, not_a_member, handle_send_message, handle_set_presence,
  handle_client_message, announce_new,
}
use thread_link.Gateway.BackendEvents.{
  settle, conflict_message, handle_all, announce_ready, on_welcome, persist_rename, on_nick, on_msg,
  on_priv, on_priv_sent, on_err, on_backend_event,
}
use thread_link.Gateway.Login.{connect_failed}
use thread_link.Gateway.Grows.{Grows, Grows-broadcast_from}
use thread_link.Messages.{append, Draft}
use thread_link.Conversations

pub record Kept (g g' : Gateway) : Type 0 where
  pub at : (q : ℕ) → (g'.heap q).backend ≡ (g.heap q).backend

pub Kept-trans : (g g' g'' : Gateway) → Kept g g' → Kept g' g'' → Kept g g''
Kept-trans g g' g'' h k = record { at = λ q. k.at q ∙ h.at q }

-- Rows and fresh values do not matter.
pub Kept-draw : (db : Db) (g g' : Gateway) → Kept (draw (record g { db = db })) g' → Kept g g'
Kept-draw db g g' h = record { at = h.at }

pub Kept-send_to : (r : ℕ) (m : ServerMessage) (g : Gateway) → Kept g (send_to r m g)
unfolding send_to
Kept-send_to r m g = record { at = λ q. ground arith }

pub Kept-send_line : (r : ℕ) (text : Text) (g : Gateway) → Kept g (send_line r text g)
unfolding send_line
Kept-send_line r text g = record { at = λ q. ground arith }

pub Kept-close_ws : (r code : ℕ) (g : Gateway) → Kept g (close_ws r code g)
unfolding close_ws
Kept-close_ws r code g = record { at = λ q. ground arith }

pub Kept-set_session :
    (r : ℕ) (s : Session) (g : Gateway)
    → s.backend ≡ (g.heap r).backend
    → Kept g (set_session r s g)
Kept-set_session r s g h = record { at = λ q. ground arith }

pub Kept-broadcast :
    (m : ServerMessage) (x : Option Text) (g : Gateway) → Kept g (broadcast_to_all m x g)
unfolding broadcast_to_all Grows
Kept-broadcast m x g =
    let (es, e) = Grows-broadcast_from _ m x g in
    record { at = λ q. ap (λ (h : Gateway). (h.heap q).backend) e }

pub Kept-if : (b : Bool) (g x y : Gateway) → Kept g x → Kept g y → Kept g (if b then x else y)
Kept-if true g x y h k = h
Kept-if false g x y h k = k

pub Kept-option :
    {A : Type 0} (g : Gateway) (o : Option A) (a : Gateway) (f : A → Gateway)
    → Kept g a
    → ((x : A) → Kept g (f x))
    → Kept g (elim o [ none ↦ a | some x ↦ f x ])
Kept-option g none a f h k = h
Kept-option g (some x) a f h k = k x

pub Kept-send_if : (o : Option ℕ) (m : ServerMessage) (g : Gateway) → Kept g (send_if o m g)
Kept-send_if none m g = record { at = λ q. refl }
Kept-send_if (some r) m g = Kept-send_to r m g

pub Kept-send_to_ids :
    (ids : List Text) (m : ServerMessage) (g : Gateway) → Kept g (send_to_ids ids m g)
unfolding send_to_ids
Kept-send_to_ids [] m g = record { at = λ q. refl }
Kept-send_to_ids (id ∷ ids) m g =
    let g' = send_if (find_session id g.roster) m g in
    Kept-trans g g' _ (Kept-send_if (find_session id g.roster) m g) (Kept-send_to_ids ids m g')

pub Kept-connect_failed : (r : ℕ) (g : Gateway) → Kept g (connect_failed r g)
unfolding connect_failed
Kept-connect_failed r g =
    let m = error (js "BACKEND_UNAVAILABLE") (js "Could not reach the ThreadLink server.") none in
    let h =
      Kept-trans g (send_to r m g) _ (Kept-send_to r m g) (Kept-close_ws r 1011 (send_to r m g)) in
    record { at = h.at }
