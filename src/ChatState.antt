-- ===== src/ChatState.antt =====
-- frontend/types/chat.ts and the state and actions of frontend/context/chatState.ts. A Record is a
-- Dict in the order in which its keys were set; a Date is the text that it was made from.
pub mod Summaries
pub mod Reducer
use thread_link.Prelude.{ℕ, Bool, true, false, Option, none, some, List, [], ◌∷◌, Text, js, Dict}
use thread_link.Protocol.{
  Presence, online, ConversationKind, public, UserSummary, ConversationSummary, MessageSummary,
  Ready,
}
use thread_link.Database.{public_conversation_id}

pub data ConnectionStatus : Type 0 where
  idle connecting connected disconnected reconnecting failed : ConnectionStatus

-- `MessageKind` of the browser
pub data ShownKind : Type 0 where
  chat_kind system_kind error_kind : ShownKind

pub record User : Type 0 where
  pub id : Text
  pub nickname : Text
  pub presence : Presence

pub record Message : Type 0 where
  pub id : Text
  pub kind : ShownKind
  pub sender_id : Option Text
  pub sender : Option Text
  pub content : Text
  pub timestamp : Text
  pub is_own : Bool

pub record Conversation : Type 0 where
  pub id : Text
  pub kind : ConversationKind
  pub title : Text
  pub peer_id : Option Text
  pub member_ids : Option (List Text)
  pub messages : List Message
  pub unread_count : ℕ

pub record ChatState : Type 0 where
  pub connection_status : ConnectionStatus
  pub gateway_url : Text
  pub user_id : Option Text
  pub nickname : Text
  pub presence : Presence
  pub users : Dict User
  pub conversations : Dict Conversation
  pub active_conversation_id : Text
  pub sidebar_open : Bool
  pub nickname_modal_open : Bool
  pub new_group_modal_open : Bool
  pub pending_group_creation : Bool
  pub authenticating : Bool
  pub auth_error : Option Text
  pub last_error : Option Text
  pub has_connected_once : Bool

-- `error_message` has the id of `createId("err")` and the time of `new Date()` as well.
pub data ChatAction : Type 0 where
  set_status : ConnectionStatus → ChatAction
  ready_received : Ready → ChatAction
  user_updated : UserSummary → ChatAction
  user_gone : Text → ChatAction
  conversation_announced : ConversationSummary → ChatAction
  message_received : MessageSummary → ChatAction
  error_message : Text → Text → Text → Option Text → ChatAction
  set_active_conversation : Text → ChatAction
  set_sidebar_open set_nickname_modal set_new_group_modal : Bool → ChatAction
  mark_pending_group_creation : ChatAction
  set_error : Option Text → ChatAction
  set_authenticating : Bool → ChatAction
  auth_failed : Text → ChatAction
  left : ChatAction

unfoldable pub create_public_conversation : List Text → Conversation
create_public_conversation member_ids = record {
  id = public_conversation_id;
  kind = public;
  title = js "Public Chat";
  peer_id = none;
  member_ids = some member_ids;
  messages = [];
  unread_count = 0;
}

unfoldable pub create_initial_state : Text → ChatState
create_initial_state gateway_url = record {
  connection_status = idle;
  gateway_url = gateway_url;
  user_id = none;
  nickname = [];
  presence = online;
  users = [];
  conversations = (public_conversation_id, create_public_conversation []) ∷ [];
  active_conversation_id = public_conversation_id;
  sidebar_open = false;
  nickname_modal_open = false;
  new_group_modal_open = false;
  pending_group_creation = false;
  authenticating = false;
  auth_error = none;
  last_error = none;
  has_connected_once = false;
}
