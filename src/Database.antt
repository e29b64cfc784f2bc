-- ===== src/Database.antt =====
-- gateway/src/db.ts: the four tables of the SQLite file as lists of rows in the order of insertion,
-- and the statements that the gateway prepares. `none` is a violated PRIMARY KEY or UNIQUE
-- constraint, on which `run` throws.
use thread_link.Prelude.{
  Bool, true, false, ◌||◌, Option, none, some, List, [], ◌∷◌, ◌++◌, if◌then◌else◌, Text, js, ◌==◌,
}
use thread_link.Protocol.{ConversationKind, public, direct, group, MessageKind}

pub record UserRow : Type 0 where
  pub id : Text
  pub username : Text
  pub password_hash : Text
  pub password_salt : Text
  pub created_at : Text

pub record ConversationRow : Type 0 where
  pub id : Text
  pub kind : ConversationKind
  pub title : Text
  pub created_at : Text

pub record MemberRow : Type 0 where
  pub conversation_id : Text
  pub user_id : Text

pub record MessageRow : Type 0 where
  pub id : Text
  pub conversation_id : Text
  pub kind : MessageKind
  pub sender_id : Option Text
  pub sender_username : Option Text
  pub text : Text
  pub created_at : Text

pub record Db : Type 0 where
  pub users : List UserRow
  pub conversations : List ConversationRow
  pub members : List MemberRow
  pub messages : List MessageRow

abbrev pub kind_eq : ConversationKind → ConversationKind → Bool
kind_eq public public = true
kind_eq direct direct = true
kind_eq group group = true
kind_eq _ _ = false

-- WHERE username = ?
unfoldable pub user_by_username : Text → List UserRow → Option UserRow
user_by_username name [] = none
user_by_username name (u ∷ us) = if u.username == name then some u else user_by_username name us

-- WHERE id = ?
unfoldable pub user_by_id : Text → List UserRow → Option UserRow
user_by_id id [] = none
user_by_id id (u ∷ us) = if u.id == id then some u else user_by_id id us

-- Some row has the id or the username of `row`.
unfoldable pub user_clashes : UserRow → List UserRow → Bool
user_clashes row [] = false
user_clashes row (u ∷ us) = u.id == row.id || u.username == row.username || user_clashes row us

-- INSERT INTO users
unfoldable pub insert_user : UserRow → Db → Option Db
unfolding user_clashes
insert_user row db =
    if user_clashes row db.users then none else some (record db { users = db.users ++ row ∷ [] })

-- Some other row than that of `id` has the username.
unfoldable pub name_clashes : Text → Text → List UserRow → Bool
name_clashes id name [] = false
name_clashes id name (u ∷ us) =
    (if u.id == id then false else u.username == name) || name_clashes id name us

unfoldable pub set_username : Text → Text → List UserRow → List UserRow
set_username id name [] = []
set_username id name (u ∷ us) =
    (if u.id == id then record u { username = name } else u) ∷ set_username id name us

-- UPDATE users SET username = ? WHERE id = ?; with no such row nothing is changed or violated.
unfoldable pub update_username : Text → Text → Db → Option Db
unfolding name_clashes set_username user_by_id
update_username id name db = elim (user_by_id id db.users) [
  | none ↦ some db
  | some u ↦
      if name_clashes id name db.users
      then none
      else some (record db { users = set_username id name db.users })
]

-- SELECT … FROM conversations WHERE id = ?
unfoldable pub conversation_by_id : Text → List ConversationRow → Option ConversationRow
conversation_by_id id [] = none
conversation_by_id id (c ∷ cs) = if c.id == id then some c else conversation_by_id id cs

-- INSERT OR IGNORE INTO conversations
unfoldable pub ensure_conversation : ConversationRow → Db → Db
unfolding conversation_by_id
ensure_conversation row db = elim (conversation_by_id row.id db.conversations) [
  | none ↦ record db { conversations = db.conversations ++ row ∷ [] }
  | some c ↦ db
]

-- INSERT INTO conversations
unfoldable pub insert_conversation : ConversationRow → Db → Option Db
unfolding conversation_by_id
insert_conversation row db = elim (conversation_by_id row.id db.conversations) [
  | none ↦ some (record db { conversations = db.conversations ++ row ∷ [] })
  | some c ↦ none
]

unfoldable pub is_member : Text → Text → List MemberRow → Bool
is_member conversation user [] = false
is_member conversation user (m ∷ ms) =
    if m.conversation_id == conversation
    then (if m.user_id == user then true else is_member conversation user ms)
    else is_member conversation user ms

-- INSERT OR IGNORE INTO conversation_members
unfoldable pub ensure_member : Text → Text → Db → Db
ensure_member conversation user db =
    if is_member conversation user db.members then db else record db {
      members = db.members ++ record { conversation_id = conversation; user_id = user } ∷ [];
    }

-- SELECT user_id FROM conversation_members WHERE conversation_id = ?
unfoldable pub members_of : Text → List MemberRow → List Text
members_of conversation [] = []
members_of conversation (m ∷ ms) =
    let rest = members_of conversation ms in
    if m.conversation_id == conversation then m.user_id ∷ rest else rest

unfoldable pub has_message : Text → List MessageRow → Bool
has_message id [] = false
has_message id (m ∷ ms) = m.id == id || has_message id ms

-- INSERT INTO messages
unfoldable pub insert_message : MessageRow → Db → Option Db
insert_message row db =
    if has_message row.id db.messages
    then none
    else some (record db { messages = db.messages ++ row ∷ [] })

abbrev pub public_conversation_id : Text
public_conversation_id = js "public"

-- The row that `openDatabase` inserts.
abbrev pub public_row : Text → ConversationRow
public_row now = record {
  id = public_conversation_id;
  kind = public;
  title = js "Public Chat";
  created_at = now;
}

-- `openDatabase` on what the file holds; a new file holds no rows.
unfoldable pub open_database : Text → Db → Db
unfolding ensure_conversation
open_database now db = ensure_conversation (public_row now) db

abbrev pub empty_db : Db
empty_db = record { users = []; conversations = []; members = []; messages = [] }
