-- ===== src/ChatState/Reducer.antt =====
-- `chatReducer` of frontend/context/chatState.ts.
pub mod Selected
pub mod Keyed
pub mod Shown
mod Tests
use thread_link.Prelude.{
  ℕ, suc, Bool, true, false, not, ◌&&◌, Option, none, some, List, [], ◌∷◌, ◌++◌, map, find, keep,
  includes, if◌then◌else◌, Text, js, ◌==◌, Dict, get, put, delete,
}
use thread_link.Protocol.{
  online, MessageKind, chat, system, ConversationKind, public, direct, group, UserSummary,
  ConversationSummary, MessageSummary, Ready,
}
use thread_link.Database.{public_conversation_id}
use thread_link.Messages.{or_else}
use thread_link.ChatState.Summaries.{
  conversation_from_summary, is_self, message_from_summary, user_of,
}
use thread_link.ChatState.{
  User, Message, ShownKind, chat_kind, system_kind, error_kind, Conversation, ChatState, ChatAction,
  set_status, ready_received, user_updated, user_gone, conversation_announced, message_received,
  error_message, set_active_conversation, set_sidebar_open, set_nickname_modal, set_new_group_modal,
  mark_pending_group_creation, set_error, set_authenticating, auth_failed, left,
  create_public_conversation,
}

abbrev push_message : Message → Conversation → Conversation
push_message m c = record c { messages = c.messages ++ m ∷ [] }

-- The three loops of READY.
unfoldable pub collect_users : List UserSummary → Dict User → Dict User
collect_users [] users = users
collect_users (u ∷ us) users = collect_users us (put u.id (user_of u) users)

unfoldable pub collect_conversations :
    List ConversationSummary → Text → Dict Conversation → Dict Conversation
collect_conversations [] self cs = cs
collect_conversations (s ∷ ss) self cs =
    collect_conversations ss self (
      if s.id == public_conversation_id then cs else put s.id (conversation_from_summary s self) cs)

abbrev push_if : Option Conversation → Text → Message → Dict Conversation → Dict Conversation
push_if none id m cs = cs
push_if (some c) id m cs = put id (push_message m c) cs

unfoldable pub collect_messages : List MessageSummary → Text → Dict Conversation → Dict Conversation
collect_messages [] self cs = cs
collect_messages (m ∷ ms) self cs =
    collect_messages ms self
      (push_if (get m.conversation_id cs) m.conversation_id (message_from_summary m self) cs)

unfoldable pub on_ready : Ready → ChatState → ChatState
on_ready r state = record state {
  user_id = some r.user_id;
  nickname = r.username;
  presence = online;
  users = collect_users r.users [];
  conversations = collect_messages r.messages r.user_id (
      collect_conversations r.conversations r.user_id
        ((public_conversation_id, create_public_conversation (map (λ u. u.id) r.users)) ∷ []));
  active_conversation_id = public_conversation_id;
  authenticating = false;
  auth_error = none;
  has_connected_once = true;
}

-- What becomes of the members of the public conversation, if it is there.
abbrev map_public :
    (List Text → List Text) → Option Conversation → Dict Conversation → Dict Conversation
map_public f none cs = cs
map_public f (some c) cs =
    put public_conversation_id (record c { member_ids = some (f (or_else c.member_ids [])) }) cs

unfoldable pub on_user_updated : UserSummary → ChatState → ChatState
on_user_updated u state =
    let own = is_self state.user_id u.id in
    record state {
      users = put u.id (user_of u) state.users;
      nickname = if own then u.username else state.nickname;
      presence = if own then u.presence else state.presence;
      conversations =
          map_public (λ ids. if includes ids u.id then ids else ids ++ u.id ∷ [])
            (get public_conversation_id state.conversations) state.conversations;
    }

unfoldable pub on_user_gone : Text → ChatState → ChatState
on_user_gone id state = record state {
  users = delete id state.users;
  conversations =
      map_public (λ ids. keep (λ member. not (member == id)) ids)
        (get public_conversation_id state.conversations) state.conversations;
}

abbrev pub merge : Option Conversation → Conversation → Conversation
merge none incoming = incoming
merge (some c) incoming = record incoming { messages = c.messages; unread_count = c.unread_count }

abbrev pub is_none {ℓ} : {A : Type ℓ} → Option A → Bool
is_none none = true
is_none (some a) = false

abbrev pub is_group : ConversationKind → Bool
is_group group = true
is_group _ = false

unfoldable pub announce : ConversationSummary → Text → ChatState → ChatState
announce s self state =
    let existing = get s.id state.conversations in
    let merged = merge existing (conversation_from_summary s self) in
    let just_created =
      state.pending_group_creation
      && (is_group s.kind && (includes s.member_ids self && is_none existing)) in
    record state {
      conversations = put merged.id merged state.conversations;
      active_conversation_id = if just_created then merged.id else state.active_conversation_id;
      pending_group_creation = if just_created then false else state.pending_group_creation;
      new_group_modal_open = if just_created then false else state.new_group_modal_open;
    }

-- `if (!state.userId) return state;`
unfoldable pub on_conversation_announced : ConversationSummary → Option Text → ChatState → ChatState
on_conversation_announced s none state = state
on_conversation_announced s (some []) state = state
on_conversation_announced s (some (c ∷ id)) state = announce s (c ∷ id) state

-- The conversation that a message is put into if there is none with its id.
abbrev unknown_conversation : MessageSummary → Conversation
unknown_conversation m =
    if m.conversation_id == public_conversation_id then create_public_conversation [] else record {
      id = m.conversation_id;
      kind = direct;
      title = or_else m.sender_username (js "Unknown");
      peer_id = none;
      member_ids = none;
      messages = [];
      unread_count = 0;
    }

unfoldable pub on_message_received : MessageSummary → ChatState → ChatState
on_message_received m state =
    let c = or_else (get m.conversation_id state.conversations) (unknown_conversation m) in
    let shown = message_from_summary m (or_else state.user_id []) in
    let is_active = state.active_conversation_id == c.id in
    record state {
      conversations =
          put c.id
            (record (push_message shown c) {
              unread_count = if is_active then 0 else suc c.unread_count;
            })
            state.conversations;
    }

unfoldable pub on_error_message : Text → Text → Text → Option Text → ChatState → ChatState
on_error_message id now text conversation state =
    let target = or_else conversation state.active_conversation_id in
    let shown : Message = record {
      id = id;
      kind = error_kind;
      sender_id = none;
      sender = none;
      content = text;
      timestamp = now;
      is_own = false;
    } in
    record state {
      last_error = some text;
      conversations = push_if (get target state.conversations) target shown state.conversations;
    }

unfoldable pub select_conversation : Option Conversation → Text → ChatState → ChatState
select_conversation none id state = state
select_conversation (some c) id state = record state {
  active_conversation_id = id;
  conversations = put id (record c { unread_count = 0 }) state.conversations;
  sidebar_open = false;
}

unfoldable pub on_left : ChatState → ChatState
on_left state = record state {
  user_id = none;
  nickname = [];
  presence = online;
  users = [];
  conversations = (public_conversation_id, create_public_conversation []) ∷ [];
  active_conversation_id = public_conversation_id;
  authenticating = false;
  last_error = none;
}

unfoldable pub chat_reducer : ChatState → ChatAction → ChatState
chat_reducer state (set_status status) = record state { connection_status = status }
chat_reducer state (ready_received r) = on_ready r state
chat_reducer state (user_updated u) = on_user_updated u state
chat_reducer state (user_gone id) = on_user_gone id state
chat_reducer state (conversation_announced s) = on_conversation_announced s state.user_id state
chat_reducer state (message_received m) = on_message_received m state
chat_reducer state (error_message id now text conversation) =
    on_error_message id now text conversation state
chat_reducer state (set_active_conversation id) =
    select_conversation (get id state.conversations) id state
chat_reducer state (set_sidebar_open value) = record state { sidebar_open = value }
chat_reducer state (set_nickname_modal value) = record state { nickname_modal_open = value }
chat_reducer state (set_new_group_modal value) = record state { new_group_modal_open = value }
chat_reducer state mark_pending_group_creation = record state { pending_group_creation = true }
chat_reducer state (set_error e) = record state { last_error = e }
chat_reducer state (set_authenticating value) = record state {
  authenticating = value;
  auth_error = if value then none else state.auth_error;
}
chat_reducer state (auth_failed e) = record state { authenticating = false; auth_error = some e }
chat_reducer state left = on_left state
