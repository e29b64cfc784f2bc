-- ===== src/Conversations.antt =====
-- gateway/src/conversationManager.ts: existence and membership of conversations, in the database.
pub mod DirectId
pub mod Pairs
pub mod Direct
pub mod Groups
mod Tests
use thread_link.Prelude.{
  ℕ, ◌≡◌, Bool, true, false, ◌&&◌, ◌||◌, Option, none, some, List, [], ◌∷◌, ◌++◌, if◌then◌else◌,
  nat_beq, Text, js, ◌==◌, lt_text, includes,
}
use thread_link.Protocol.{ConversationKind, public, direct, group, ConversationSummary}
use thread_link.Database.{
  Db, ConversationRow, MemberRow, conversation_by_id, ensure_conversation, insert_conversation,
  ensure_member, is_member, members_of, kind_eq, public_conversation_id,
}
use thread_link.Users.{UserRecord, find_by_id}

-- `direct:${[a, b].sort().join(":")}`
unfoldable pub direct_conversation_id : Text → Text → Text
direct_conversation_id a b =
    if lt_text b a then js "direct:" ++ (b ++ b':' ∷ a) else js "direct:" ++ (a ++ b':' ∷ b)

unfoldable pub public_conversation : List Text → ConversationSummary
public_conversation online = record {
  id = public_conversation_id;
  kind = public;
  title = js "Public Chat";
  member_ids = online;
}

abbrev is_direct : Option ConversationRow → Bool
is_direct none = false
is_direct (some c) = kind_eq c.kind direct

unfoldable pub has_direct : Text → Db → Bool
has_direct id db = is_direct (conversation_by_id id db.conversations)

abbrev direct_row : Text → Text → ConversationRow
direct_row id now = record { id = id; kind = direct; title = []; created_at = now }

abbrev direct_summary : Text → Text → Text → ConversationSummary
direct_summary id a b = record { id = id; kind = direct; title = []; member_ids = a ∷ b ∷ [] }

unfoldable pub ensure_direct : Text → Text → Text → Db → Db × ConversationSummary
ensure_direct now a b db =
    let id = direct_conversation_id a b in
    (
      if has_direct id db
          then db
          else ensure_member id b (ensure_member id a (ensure_conversation (direct_row id now) db)),
      direct_summary id a b,
    )

-- `for (const memberId of memberIds) this.addMember(id, memberId);`
unfoldable pub add_members : Text → List Text → Db → Db
add_members id [] db = db
add_members id (m ∷ ms) db = add_members id ms (ensure_member id m db)

abbrev group_row : Text → Text → Text → ConversationRow
group_row id name now = record { id = id; kind = group; title = name; created_at = now }

unfoldable pub group_id : Text → Text
group_id uuid = js "group:" ++ uuid

-- `none` where the INSERT throws.
unfoldable pub create_group :
    Text → Text → Text → List Text → Db → Option (Db × ConversationSummary)
create_group uuid now name member_ids db =
    let id = group_id uuid in
    elim (insert_conversation (group_row id name now) db) [
      | none ↦ none
      | some db' ↦ some (
        add_members id member_ids db',
        record { id = id; kind = group; title = name; member_ids = member_ids },
      )
    ]

-- The elements of `new Set(xs)`, in order.
unfoldable pub set_from : List Text → List Text → List Text
set_from seen [] = []
set_from seen (x ∷ xs) = if includes seen x then set_from seen xs else x ∷ set_from (x ∷ seen) xs

unfoldable pub to_set : List Text → List Text
unfolding set_from
to_set xs = set_from [] xs

pub record GroupConversation : Type 0 where
  pub id : Text
  pub name : Text
  pub member_ids : List Text

abbrev pub group_of : Option ConversationRow → Db → Option GroupConversation
group_of none db = none
group_of (some c) db =
    if kind_eq c.kind group
    then some
        (record { id = c.id; name = c.title; member_ids = to_set (members_of c.id db.members) })
    else none

unfoldable pub get_group : Text → Db → Option GroupConversation
get_group id db = group_of (conversation_by_id id db.conversations) db

-- The first id that is another's.
unfoldable pub other_member : Text → List Text → Option Text
other_member user [] = none
other_member user (m ∷ ms) = if m == user then other_member user ms else some m

-- `(a && b) || title` of texts: an empty one does not count.
abbrev or_title : Option UserRecord → Text → Text
or_title none title = title
or_title (some u) title = if u.username == [] then title else u.username

abbrev other_title : Option Text → Db → Text → Text
other_title none db title = title
other_title (some []) db title = title
other_title (some (c ∷ id)) db title = or_title (find_by_id db (c ∷ id)) title

abbrev title_for : Text → Db → ConversationRow → List Text → Text
title_for user db c members =
    if kind_eq c.kind direct then other_title (other_member user members) db c.title else c.title

unfoldable pub summary_for : Text → Db → ConversationRow → ConversationSummary
unfolding other_member
summary_for user db c =
    let members = members_of c.id db.members in
    record { id = c.id; kind = c.kind; title = title_for user db c members; member_ids = members }

-- The SELECT joins each conversation with its one row for the user. Its order is the database's;
-- here it is that of the conversations.
abbrev is_listed : Text → Db → ConversationRow → Bool
is_listed user db c =
    is_member c.id user db.members && (kind_eq c.kind direct || kind_eq c.kind group)

unfoldable pub summaries_from : Text → Db → List ConversationRow → List ConversationSummary
unfolding summary_for
summaries_from user db [] = []
summaries_from user db (c ∷ cs) =
    let rest = summaries_from user db cs in
    if is_listed user db c then summary_for user db c ∷ rest else rest

unfoldable pub conversations_for : Text → Db → List ConversationSummary
unfolding summaries_from
conversations_for user db = summaries_from user db db.conversations
