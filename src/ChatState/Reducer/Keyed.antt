-- ===== src/ChatState/Reducer/Keyed.antt =====
-- Every conversation of the browser's state is kept under its own id.
use thread_link.Prelude.{
  ◌≡◌, refl, sym, true, false, Option, none, some, List, [], ◌∷◌, ◌++◌, if◌then◌else◌, arith, Text,
  ◌==◌, eq_iff, Dict, get, put, get-put, All, includes, keep, not,
}
use thread_link.Protocol.{
  MessageSummary, ConversationSummary, ConversationKind, public, direct, group,
}
use thread_link.Database.{public_conversation_id}
use thread_link.ChatState.Summaries.{conversation_from_summary, from_kind}
use thread_link.Messages.{or_else}
use thread_link.ChatState.{
  Conversation, Message, ChatState, ChatAction, set_status, ready_received, user_updated, user_gone,
  conversation_announced, message_received, error_message, set_active_conversation,
  set_sidebar_open, set_nickname_modal, set_new_group_modal, mark_pending_group_creation, set_error,
  set_authenticating, auth_failed, left, create_public_conversation,
}
use thread_link.ChatState.Reducer.{
  push_message, push_if, map_public, collect_conversations, collect_messages, on_ready,
  on_user_updated, on_user_gone, on_conversation_announced, announce, on_message_received,
  on_error_message, select_conversation, on_left, chat_reducer,
}

abbrev pub IsKeyed : Dict Conversation → Type 0
IsKeyed cs = (k : Text) (c : Conversation) → get k cs ≡ some c → c.id ≡ k

-- The public conversation is announced under its id only.
abbrev pub IsAnnounced : ConversationSummary → Type 0
IsAnnounced s = s.kind ≡ public → s.id ≡ public_conversation_id

-- What the gateway announces is announced rightly.
abbrev pub IsSound : ChatAction → Type 0
IsSound (ready_received r) = All IsAnnounced r.conversations
IsSound (conversation_announced s) = IsAnnounced s
IsSound _ = Unit

IsKeyed-put :
    (k : Text) (c : Conversation) (cs : Dict Conversation)
    → IsKeyed cs
    → c.id ≡ k
    → IsKeyed (put k c cs)
IsKeyed-put k c cs h e j d g = ground (arith, get-put k j c cs, eq_iff k j, h j d)

pub IsKeyed-public :
    (ids : List Text) → IsKeyed ((public_conversation_id, create_public_conversation ids) ∷ [])
unfolding get create_public_conversation
IsKeyed-public ids k c h = ground (arith, eq_iff public_conversation_id k)

id-from_kind :
    (kind : ConversationKind) (s : ConversationSummary) (self : Text)
    → (kind ≡ public → s.id ≡ public_conversation_id)
    → (from_kind kind self s).id ≡ s.id
unfolding create_public_conversation
id-from_kind public s self h = sym (h refl)
id-from_kind direct s self h = refl
id-from_kind group s self h = refl

pub id-from_summary :
    (s : ConversationSummary) (self : Text)
    → IsAnnounced s
    → (conversation_from_summary s self).id ≡ s.id
unfolding conversation_from_summary
id-from_summary s self h = id-from_kind s.kind s self h

IsKeyed-collect_conversations :
    (ss : List ConversationSummary) (self : Text) (cs : Dict Conversation)
    → IsKeyed cs
    → All IsAnnounced ss
    → IsKeyed (collect_conversations ss self cs)
unfolding collect_conversations
IsKeyed-collect_conversations [] self cs h k = h
IsKeyed-collect_conversations (s ∷ ss) self cs h (a, k) =
    IsKeyed-collect_conversations ss self _
      (elim (s.id == public_conversation_id)
        as (λ b. IsKeyed (if b then cs else put s.id (conversation_from_summary s self) cs)) [
          | true ↦ h
          | false ↦ IsKeyed-put s.id _ cs h (id-from_summary s self a)
        ])
      k

IsKeyed-push_if :
    (o : Option Conversation) (id : Text) (m : Message) (cs : Dict Conversation)
    → IsKeyed cs
    → get id cs ≡ o
    → IsKeyed (push_if o id m cs)
IsKeyed-push_if none id m cs h e = h
IsKeyed-push_if (some c) id m cs h e = IsKeyed-put id (push_message m c) cs h (h id c e)

IsKeyed-collect_messages :
    (ms : List MessageSummary) (self : Text) (cs : Dict Conversation)
    → IsKeyed cs
    → IsKeyed (collect_messages ms self cs)
unfolding collect_messages
IsKeyed-collect_messages [] self cs h = h
IsKeyed-collect_messages (m ∷ ms) self cs h =
    IsKeyed-collect_messages ms self _
      (IsKeyed-push_if (get m.conversation_id cs) m.conversation_id _ cs h refl)

IsKeyed-map_public :
    (f : List Text → List Text) (o : Option Conversation) (cs : Dict Conversation)
    → IsKeyed cs
    → get public_conversation_id cs ≡ o
    → IsKeyed (map_public f o cs)
IsKeyed-map_public f none cs h e = h
IsKeyed-map_public f (some c) cs h e =
    IsKeyed-put public_conversation_id _ cs h (h public_conversation_id c e)

IsKeyed-select :
    (o : Option Conversation) (id : Text) (state : ChatState)
    → IsKeyed state.conversations
    → get id state.conversations ≡ o
    → IsKeyed (select_conversation o id state).conversations
unfolding select_conversation
IsKeyed-select none id state h e = h
IsKeyed-select (some c) id state h e = IsKeyed-put id _ state.conversations h (h id c e)

IsKeyed-announced :
    (s : ConversationSummary) (o : Option Text) (state : ChatState)
    → IsKeyed state.conversations
    → IsKeyed (on_conversation_announced s o state).conversations
unfolding on_conversation_announced announce
IsKeyed-announced s none state h = h
IsKeyed-announced s (some []) state h = h
IsKeyed-announced s (some (c ∷ id)) state h = IsKeyed-put _ _ state.conversations h refl

-- Whatever the browser is told or does, its conversations stay under their own ids, if the gateway
-- announces a conversation of kind "public" under the public id only.
pub chat_reducer-IsKeyed :
    (state : ChatState) (a : ChatAction)
    → IsKeyed state.conversations
    → IsSound a
    → IsKeyed (chat_reducer state a).conversations
unfolding chat_reducer on_ready on_user_updated on_user_gone on_message_received on_error_message
    on_left
chat_reducer-IsKeyed state (ready_received r) h k =
    IsKeyed-collect_messages r.messages r.user_id _
      (IsKeyed-collect_conversations r.conversations r.user_id _ (IsKeyed-public _) k)
chat_reducer-IsKeyed state (user_updated u) h k =
    IsKeyed-map_public (λ ids. if includes ids u.id then ids else ids ++ u.id ∷ [])
      (get public_conversation_id state.conversations) state.conversations h refl
chat_reducer-IsKeyed state (user_gone id) h k =
    IsKeyed-map_public (λ ids. keep (λ member. not (member == id)) ids)
      (get public_conversation_id state.conversations) state.conversations h refl
chat_reducer-IsKeyed state (conversation_announced s) h k =
    IsKeyed-announced s state.user_id state h
chat_reducer-IsKeyed state (message_received m) h k = IsKeyed-put _ _ state.conversations h refl
chat_reducer-IsKeyed state (error_message id now text conversation) h k =
    let target = or_else conversation state.active_conversation_id in
    IsKeyed-push_if (get target state.conversations) target _ state.conversations h refl
chat_reducer-IsKeyed state (set_active_conversation id) h k =
    IsKeyed-select (get id state.conversations) id state h refl
chat_reducer-IsKeyed state left h k = IsKeyed-public []
chat_reducer-IsKeyed state (set_status status) h k = h
chat_reducer-IsKeyed state (set_sidebar_open value) h k = h
chat_reducer-IsKeyed state (set_nickname_modal value) h k = h
chat_reducer-IsKeyed state (set_new_group_modal value) h k = h
chat_reducer-IsKeyed state mark_pending_group_creation h k = h
chat_reducer-IsKeyed state (set_error e) h k = h
chat_reducer-IsKeyed state (set_authenticating value) h k = h
chat_reducer-IsKeyed state (auth_failed e) h k = h
