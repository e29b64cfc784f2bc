-- ===== src/ChatState/Reducer/Tests.antt =====
-- Tests and examples for the browser's reducer.
use thread_link.Prelude.{ℕ, ◌≡◌, refl, Option, none, some, [], js, ◌==◌, get, put}
use thread_link.Protocol.{MessageSummary, chat}
use thread_link.ChatState.{
  Conversation, ChatState, create_initial_state, create_public_conversation, message_received,
}
use thread_link.ChatState.Reducer.{chat_reducer, on_message_received}
use thread_link.ChatState.Summaries.{message_from_summary}
use thread_link.ChatState.Reducer.Keyed.{IsKeyed, IsKeyed-public}
use thread_link.ChatState.Reducer.Shown.{IsShown, IsShown-public, chat_reducer-IsShown}

abbrev from_bo : MessageSummary
from_bo = record {
  id = js "m1";
  conversation_id = js "direct:amy:bo";
  kind = chat;
  sender_id = some (js "bo");
  sender_username = some (js "bo");
  text = js "hi";
  timestamp = js "t";
}

abbrev fresh : ChatState
fresh = create_initial_state (js "ws://localhost")

fresh-IsKeyed : IsKeyed fresh.conversations
unfolding create_initial_state
fresh-IsKeyed = IsKeyed-public []

abbrev unread : Option Conversation → Option ℕ
unread none = none
unread (some c) = some c.unread_count

unread_one :
    unread (get (js "direct:amy:bo") (chat_reducer fresh (message_received from_bo)).conversations)
    ≡ some 1
unfolding create_initial_state create_public_conversation chat_reducer on_message_received get put
    message_from_summary ◌==◌
unread_one = refl

chat_reducer-IsShown_example :
    let state = chat_reducer fresh (message_received from_bo) in
    IsShown state.active_conversation_id state.conversations
unfolding create_initial_state
chat_reducer-IsShown_example =
    chat_reducer-IsShown fresh (message_received from_bo) (IsShown-public []) tt
