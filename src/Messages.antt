-- ===== src/Messages.antt =====
-- gateway/src/messageStore.ts: the persisted messages.
pub mod History
mod Tests
use thread_link.Prelude.{Bool, ◌||◌, Option, none, some, List, map, keep, Text, ◌==◌}
use thread_link.Protocol.{MessageKind, MessageSummary}
use thread_link.Database.{Db, MessageRow, insert_message, is_member, public_conversation_id}

unfoldable pub to_summary : MessageRow → MessageSummary
to_summary row = record {
  id = row.id;
  conversation_id = row.conversation_id;
  kind = row.kind;
  sender_id = row.sender_id;
  sender_username = row.sender_username;
  text = row.text;
  timestamp = row.created_at;
}

-- What `append` is given: a summary whose id and timestamp may be left out.
pub record Draft : Type 0 where
  pub id : Option Text
  pub conversation_id : Text
  pub kind : MessageKind
  pub sender_id : Option Text
  pub sender_username : Option Text
  pub text : Text
  pub timestamp : Option Text

-- `a ?? b`
abbrev pub or_else {ℓ} : {A : Type ℓ} → Option A → A → A
or_else none b = b
or_else (some a) b = a

abbrev pub row_of : Text → Text → Draft → MessageRow
row_of uuid now m = record {
  id = or_else m.id uuid;
  conversation_id = m.conversation_id;
  kind = m.kind;
  sender_id = m.sender_id;
  sender_username = m.sender_username;
  text = m.text;
  created_at = or_else m.timestamp now;
}

-- `none` where the INSERT throws.
unfoldable pub append : Text → Text → Draft → Db → Option (Db × MessageSummary)
unfolding to_summary
append uuid now m db = elim (insert_message (row_of uuid now m) db) [
  | none ↦ none
  | some db' ↦ some (db', to_summary (row_of uuid now m))
]

-- The WHERE clause of the history.
unfoldable pub is_visible : Text → Db → MessageRow → Bool
is_visible user db row =
    row.conversation_id == public_conversation_id || is_member row.conversation_id user db.members

-- `order` is ORDER BY created_at ASC.
unfoldable pub history_for_user :
    (List MessageRow → List MessageRow) → Text → Db → List MessageSummary
unfolding keep
history_for_user order user db = map to_summary (order (keep (is_visible user db) db.messages))
