-- ===== src/Messages/Tests.antt =====
-- Tests and examples for the messages.
use thread_link.Prelude.{◌≡◌, refl, none, some, [], ◌∷◌, if◌then◌else◌, js, keep}
use thread_link.Protocol.{chat}
use thread_link.Database.{
  Db, MessageRow, empty_db, insert_message, has_message, public_conversation_id,
}
use thread_link.Messages.{Draft, append, row_of, to_summary, is_visible, history_for_user}
use thread_link.Messages.History.{history-append}

abbrev hello : Draft
hello = record {
  id = none;
  conversation_id = public_conversation_id;
  kind = chat;
  sender_id = some (js "u1");
  sender_username = some (js "amy");
  text = js "hello";
  timestamp = none;
}

abbrev hello_row : MessageRow
hello_row = row_of (js "m1") (js "t1") hello

abbrev hello_db : Db
hello_db = record empty_db { messages = hello_row ∷ [] }

history-append_example :
    history_for_user (λ rows. rows) (js "u2") hello_db
    ≡ (if is_visible (js "u2") empty_db hello_row then to_summary hello_row ∷ [] else [])
unfolding insert_message has_message history_for_user append keep
history-append_example =
    history-append (λ rows. rows) (js "u2") (js "m1") (js "t1") hello empty_db hello_db
      (to_summary hello_row) refl refl
