-- ===== src/ChatState/Reducer/Shown.antt =====
-- The conversation that the browser shows is there, and nothing in it is unread.
use thread_link.Prelude.{
  ◌≡◌, refl, subst, inl, inr, Bool-cases, Bool, true, false, not, ◌&&◌, Option, none, some, List,
  [], ◌∷◌, ◌++◌, if◌then◌else◌, arith, Text, ◌==◌, eq_iff, eq_refl, Dict, get, put, get-put,
  includes, keep,
}
use thread_link.Protocol.{
  MessageSummary, ConversationSummary, ConversationKind, public, direct, group,
}
use thread_link.Database.{public_conversation_id}
use thread_link.Messages.{or_else}
use thread_link.ChatState.{
  Conversation, Message, ChatState, ChatAction, set_status, ready_received, user_updated, user_gone,
  conversation_announced, message_received, error_message, set_active_conversation,
  set_sidebar_open, set_nickname_modal, set_new_group_modal, mark_pending_group_creation, set_error,
  set_authenticating, auth_failed, left, create_public_conversation,
}
use thread_link.ChatState.Summaries.{conversation_from_summary, from_kind}
use thread_link.ChatState.Reducer.{
  push_message, push_if, map_public, merge, is_none, is_group, unknown_conversation,
  collect_conversations, collect_messages, on_ready, on_user_updated, on_user_gone,
  on_conversation_announced, announce, on_message_received, on_error_message, select_conversation,
  on_left, chat_reducer,
}
use thread_link.ChatState.Reducer.Keyed.{IsAnnounced, IsSound, id-from_summary}

pub record IsShown (active : Text) (cs : Dict Conversation) : Type 0 where
  pub shown : Conversation
  pub found : get active cs ≡ some shown
  pub read : shown.unread_count ≡ 0

pub IsShown-public :
    (ids : List Text)
    → IsShown public_conversation_id ((public_conversation_id, create_public_conversation ids) ∷ [])
unfolding get create_public_conversation
IsShown-public ids = record {
  shown = create_public_conversation ids;
  found = ground (arith, eq_refl public_conversation_id);
  read = refl;
}

IsShown-put :
    (active k : Text) (c : Conversation) (cs : Dict Conversation)
    → IsShown active cs
    → (k ≡ active → c.unread_count ≡ 0)
    → IsShown active (put k c cs)
IsShown-put active k c cs h e = elim (Bool-cases (k == active)) [
  | inl t ↦ record {
    shown = c;
    found = ground (arith, get-put k active c cs);
    read = e ((eq_iff k active).0 t);
  }
  | inr f ↦ record {
    shown = h.shown;
    found = ground (arith, get-put k active c cs, h.found);
    read = h.read;
  }
]

-- What is found under the shown id has nothing unread.
read_found :
    (active k : Text) (c : Conversation) (cs : Dict Conversation)
    → IsShown active cs
    → get k cs ≡ some c
    → k ≡ active
    → c.unread_count ≡ 0
read_found active k c cs h e same =
    let e' : get active cs ≡ some c = subst (λ j. get j cs ≡ some c) same e in
    let found = h.found in let read = h.read in ground arith

unread-from_kind :
    (kind : ConversationKind) (s : ConversationSummary) (self : Text)
    → (from_kind kind self s).unread_count ≡ 0
unfolding create_public_conversation
unread-from_kind public s self = refl
unread-from_kind direct s self = refl
unread-from_kind group s self = refl

unread-from_summary :
    (s : ConversationSummary) (self : Text) → (conversation_from_summary s self).unread_count ≡ 0
unfolding conversation_from_summary
unread-from_summary s self = unread-from_kind s.kind s self

IsShown-collect_conversations :
    (active : Text) (ss : List ConversationSummary) (self : Text) (cs : Dict Conversation)
    → IsShown active cs
    → IsShown active (collect_conversations ss self cs)
unfolding collect_conversations
IsShown-collect_conversations active [] self cs h = h
IsShown-collect_conversations active (s ∷ ss) self cs h =
    IsShown-collect_conversations active ss self _
      (elim (s.id == public_conversation_id)
        as (λ b.
          IsShown active (if b then cs else put s.id (conversation_from_summary s self) cs)) [
            | true ↦ h
            | false ↦ IsShown-put active s.id _ cs h (λ _. unread-from_summary s self)
          ])

IsShown-push_if :
    (active : Text) (o : Option Conversation) (id : Text) (m : Message) (cs : Dict Conversation)
    → IsShown active cs
    → get id cs ≡ o
    → IsShown active (push_if o id m cs)
IsShown-push_if active none id m cs h e = h
IsShown-push_if active (some c) id m cs h e =
    IsShown-put active id (push_message m c) cs h (read_found active id c cs h e)

IsShown-collect_messages :
    (active : Text) (ms : List MessageSummary) (self : Text) (cs : Dict Conversation)
    → IsShown active cs
    → IsShown active (collect_messages ms self cs)
unfolding collect_messages
IsShown-collect_messages active [] self cs h = h
IsShown-collect_messages active (m ∷ ms) self cs h =
    IsShown-collect_messages active ms self _
      (IsShown-push_if active (get m.conversation_id cs) m.conversation_id _ cs h refl)

IsShown-map_public :
    (active : Text) (f : List Text → List Text) (o : Option Conversation) (cs : Dict Conversation)
    → IsShown active cs
    → get public_conversation_id cs ≡ o
    → IsShown active (map_public f o cs)
IsShown-map_public active f none cs h e = h
IsShown-map_public active f (some c) cs h e =
    IsShown-put active public_conversation_id _ cs h
      (read_found active public_conversation_id c cs h e)

IsShown-select :
    (o : Option Conversation) (id : Text) (state : ChatState)
    → IsShown state.active_conversation_id state.conversations
    → let state' = select_conversation o id state in
      IsShown state'.active_conversation_id state'.conversations
unfolding select_conversation
IsShown-select none id state h = h
IsShown-select (some c) id state h =
    let c' = record c { unread_count = 0 } in
    record {
      shown = c';
      found = ground (arith, get-put id id c' state.conversations, eq_refl id);
      read = refl;
    }

-- The conversation that was announced, put under its id, which is shown from now on or is not.
IsShown-merged :
    (active : Text) (o : Option Conversation) (s : ConversationSummary) (self : Text)
    (cs : Dict Conversation) (p q r : Bool)
    → IsShown active cs
    → IsAnnounced s
    → get s.id cs ≡ o
    → let merged = merge o (conversation_from_summary s self) in
      IsShown (if p && (q && (r && is_none o)) then merged.id else active) (put merged.id merged cs)
IsShown-merged active none s self cs p q r h a e =
    let merged = conversation_from_summary s self in
    let unread = unread-from_summary s self in
    elim (p && (q && (r && true)))
      as (λ b. IsShown (if b then merged.id else active) (put merged.id merged cs)) [
        | true ↦ record {
          shown = merged;
          found = ground (arith, get-put merged.id merged.id merged cs, eq_refl merged.id);
          read = unread;
        }
        | false ↦ IsShown-put active merged.id merged cs h (λ _. unread)
      ]
IsShown-merged active (some c) s self cs p q r h a e =
    let merged = merge (some c) (conversation_from_summary s self) in
    let same = id-from_summary s self a in
    let b : (p && (q && (r && false))) ≡ false = ground arith in
    rw b (
      IsShown-put active merged.id merged cs h
        (λ k. read_found active s.id c cs h e (ground arith)))

IsShown-announced :
    (s : ConversationSummary) (o : Option Text) (state : ChatState)
    → IsShown state.active_conversation_id state.conversations
    → IsAnnounced s
    → let state' = on_conversation_announced s o state in
      IsShown state'.active_conversation_id state'.conversations
unfolding on_conversation_announced announce
IsShown-announced s none state h a = h
IsShown-announced s (some []) state h a = h
IsShown-announced s (some (c ∷ id)) state h a =
    IsShown-merged state.active_conversation_id (get s.id state.conversations) s (c ∷ id)
      state.conversations state.pending_group_creation (is_group s.kind)
      (includes s.member_ids (c ∷ id)) h a refl

IsShown-received :
    (m : MessageSummary) (state : ChatState)
    → IsShown state.active_conversation_id state.conversations
    → IsShown state.active_conversation_id (on_message_received m state).conversations
unfolding on_message_received
IsShown-received m state h =
    let c = or_else (get m.conversation_id state.conversations) (unknown_conversation m) in
    IsShown-put state.active_conversation_id c.id _ state.conversations h
      (λ e. ground (arith, eq_iff state.active_conversation_id c.id))

-- Whatever the browser is told or does, the conversation that it shows is there and has nothing
-- unread, if that was so and the gateway announces a conversation of kind "public" under the public
-- id only.
pub chat_reducer-IsShown :
    (state : ChatState) (a : ChatAction)
    → IsShown state.active_conversation_id state.conversations
    → IsSound a
    → let state' = chat_reducer state a in
      IsShown state'.active_conversation_id state'.conversations
unfolding chat_reducer on_ready on_user_updated on_user_gone on_message_received on_error_message
    on_left
chat_reducer-IsShown state (ready_received r) h k =
    IsShown-collect_messages public_conversation_id r.messages r.user_id _ (
      IsShown-collect_conversations public_conversation_id r.conversations r.user_id _
        (IsShown-public _))
chat_reducer-IsShown state (user_updated u) h k =
    IsShown-map_public state.active_conversation_id
      (λ ids. if includes ids u.id then ids else ids ++ u.id ∷ [])
      (get public_conversation_id state.conversations) state.conversations h refl
chat_reducer-IsShown state (user_gone id) h k =
    IsShown-map_public state.active_conversation_id (λ ids. keep (λ member. not (member == id)) ids)
      (get public_conversation_id state.conversations) state.conversations h refl
chat_reducer-IsShown state (conversation_announced s) h k =
    IsShown-announced s state.user_id state h k
chat_reducer-IsShown state (message_received m) h k = IsShown-received m state h
chat_reducer-IsShown state (error_message id now text conversation) h k =
    let target = or_else conversation state.active_conversation_id in
    IsShown-push_if state.active_conversation_id (get target state.conversations) target _
      state.conversations h refl
chat_reducer-IsShown state (set_active_conversation id) h k =
    IsShown-select (get id state.conversations) id state h
chat_reducer-IsShown state left h k = IsShown-public []
chat_reducer-IsShown state (set_status status) h k = h
chat_reducer-IsShown state (set_sidebar_open value) h k = h
chat_reducer-IsShown state (set_nickname_modal value) h k = h
chat_reducer-IsShown state (set_new_group_modal value) h k = h
chat_reducer-IsShown state mark_pending_group_creation h k = h
chat_reducer-IsShown state (set_error e) h k = h
chat_reducer-IsShown state (set_authenticating value) h k = h
chat_reducer-IsShown state (auth_failed e) h k = h
