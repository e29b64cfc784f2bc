-- ===== src/ChatState/Reducer/Selected.antt =====
-- The conversation that is shown, and where messages go.
use thread_link.Prelude.{
  suc, ◌≡◌, refl, Option, none, some, [], ◌∷◌, ◌++◌, if◌then◌else◌, arith, Text, ◌==◌, eq_iff, get,
  get-put,
}
use thread_link.Protocol.{MessageSummary}
use thread_link.Database.{public_conversation_id}
use thread_link.ChatState.Summaries.{message_from_summary}
use thread_link.Messages.{or_else}
use thread_link.ChatState.{Conversation, ChatState, create_public_conversation, message_received}
use thread_link.ChatState.Reducer.Keyed.{IsKeyed}
use thread_link.ChatState.Reducer.{unknown_conversation, on_message_received, chat_reducer}

-- The conversation of a message under which it is stored.
abbrev pub home : MessageSummary → ChatState → Conversation
home m state = or_else (get m.conversation_id state.conversations) (unknown_conversation m)

id-unknown : (m : MessageSummary) → (unknown_conversation m).id ≡ m.conversation_id
unfolding create_public_conversation
id-unknown m = ground (arith, eq_iff m.conversation_id public_conversation_id)

id-home :
    (m : MessageSummary) (state : ChatState) (o : Option Conversation)
    → IsKeyed state.conversations
    → get m.conversation_id state.conversations ≡ o
    → (or_else o (unknown_conversation m)).id ≡ m.conversation_id
id-home m state none h e = id-unknown m
id-home m state (some c) h e = h m.conversation_id c e

-- A received message goes to the end of the conversation with its id, which comes to exist if it does
-- not, and every other conversation stays as it is; what is unread counts one more, but for the
-- conversation that is shown, where nothing is unread. Conversations are kept under their ids.
pub get-on_message_received :
    (m : MessageSummary) (state : ChatState) (k : Text)
    → IsKeyed state.conversations
    → let c = home m state in
      let shown = message_from_summary m (or_else state.user_id []) in
      get k (chat_reducer state (message_received m)).conversations ≡ (
        if m.conversation_id == k
        then some (record c {
          messages = c.messages ++ shown ∷ [];
          unread_count =
              if state.active_conversation_id == m.conversation_id then 0 else suc c.unread_count;
        })
        else get k state.conversations)
unfolding chat_reducer on_message_received
get-on_message_received m state k h =
    rw (get-put, id-home m state (get m.conversation_id state.conversations) h refl)
