-- ===== src/Protocol.antt =====
-- The types of the browser protocol: gateway/src/clientProtocol.ts, mirrored by
-- frontend/types/protocol.ts. An optional or nullable field is an `Option`.
use thread_link.Prelude.{Option, List, Text}

pub data MessageTarget : Type 0 where
  to_public : MessageTarget
  to_direct : Text → MessageTarget
  to_group : Text → MessageTarget

-- "online" | "away" | "offline"; a client can only set the first two.
pub data Presence : Type 0 where
  online away offline : Presence

pub data ClientMessage : Type 0 where
  register : Text → Text → ClientMessage
  login : Text → Text → ClientMessage
  logout : ClientMessage
  set_nickname : Text → ClientMessage
  send_message : MessageTarget → Text → ClientMessage
  create_group : Text → List Text → ClientMessage
  set_presence : Presence → ClientMessage
  request_state : ClientMessage

pub record UserSummary : Type 0 where
  pub id : Text
  pub username : Text
  pub presence : Presence

pub data ConversationKind : Type 0 where
  public direct group : ConversationKind

pub record ConversationSummary : Type 0 where
  pub id : Text
  pub kind : ConversationKind
  pub title : Text
  pub member_ids : List Text

pub data MessageKind : Type 0 where
  chat system : MessageKind

pub record MessageSummary : Type 0 where
  pub id : Text
  pub conversation_id : Text
  pub kind : MessageKind
  pub sender_id : Option Text
  pub sender_username : Option Text
  pub text : Text
  pub timestamp : Text

pub record Ready : Type 0 where
  pub user_id : Text
  pub username : Text
  pub users : List UserSummary
  pub conversations : List ConversationSummary
  pub messages : List MessageSummary

pub data ServerMessage : Type 0 where
  ready : Ready → ServerMessage
  logged_out : ServerMessage
  user_update : UserSummary → ServerMessage
  user_offline : Text → ServerMessage
  conversation_created : ConversationSummary → ServerMessage
  message : MessageSummary → ServerMessage
  error : Text → Text → Option Text → ServerMessage
