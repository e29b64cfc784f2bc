-- ===== src/ChatState/Summaries.antt =====
-- What the reducer of frontend/context/chatState.ts makes of the summaries of the gateway.
use thread_link.Prelude.{Bool, false, not, Option, none, some, [], find, Text, ◌==◌}
use thread_link.Protocol.{
  MessageKind, chat, system, ConversationKind, public, direct, group, UserSummary,
  ConversationSummary, MessageSummary,
}
use thread_link.ChatState.{
  User, Message, ShownKind, chat_kind, system_kind, Conversation, create_public_conversation,
}

abbrev pub from_kind : ConversationKind → Text → ConversationSummary → Conversation
from_kind public self summary = create_public_conversation summary.member_ids
from_kind direct self summary = record {
  id = summary.id;
  kind = direct;
  title = summary.title;
  peer_id = find (λ id. not (id == self)) summary.member_ids;
  member_ids = none;
  messages = [];
  unread_count = 0;
}
from_kind group self summary = record {
  id = summary.id;
  kind = group;
  title = summary.title;
  peer_id = none;
  member_ids = some summary.member_ids;
  messages = [];
  unread_count = 0;
}

unfoldable pub conversation_from_summary : ConversationSummary → Text → Conversation
conversation_from_summary summary self = from_kind summary.kind self summary

abbrev pub is_self : Option Text → Text → Bool
is_self none self = false
is_self (some id) self = id == self

abbrev shown_kind : MessageKind → ShownKind
shown_kind chat = chat_kind
shown_kind system = system_kind

unfoldable pub message_from_summary : MessageSummary → Text → Message
message_from_summary m self = record {
  id = m.id;
  kind = shown_kind m.kind;
  sender_id = m.sender_id;
  sender = m.sender_username;
  content = m.text;
  timestamp = m.timestamp;
  is_own = is_self m.sender_id self;
}

abbrev pub user_of : UserSummary → User
user_of u = record { id = u.id; nickname = u.username; presence = u.presence }
