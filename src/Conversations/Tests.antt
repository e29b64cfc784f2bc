-- ===== src/Conversations/Tests.antt =====
-- Tests and examples for the conversations.
use mathlib.Core.Quot
use thread_link.Prelude.{◌≡◌, refl, some, List, [], ◌∷◌, Text, js, lt_text, ◌==◌, arith}
use thread_link.Protocol.{group}
use thread_link.Database.{
  Db, empty_db, conversation_by_id, insert_conversation, ensure_member, is_member, members_of,
}
use thread_link.Conversations.{
  direct_conversation_id, group_id, create_group, add_members, get_group, to_set,
}
use thread_link.Conversations.Pairs.{AccountId, Pair, id_of_pair, id_of_pair_inj}
use thread_link.Conversations.Groups.{get_group-create}

direct_id : direct_conversation_id (js "u2") (js "u1") ≡ js "direct:u1:u2"
unfolding direct_conversation_id lt_text
direct_id = refl

abbrev three : List Text
three = js "u1" ∷ js "u2" ∷ js "u1" ∷ []

abbrev group_db : Db
group_db = record empty_db {
  conversations =
      record { id = js "group:7"; kind = group; title = js "G"; created_at = js "t" } ∷ [];
  members =
      record { conversation_id = js "group:7"; user_id = js "u1" }
      ∷ record { conversation_id = js "group:7"; user_id = js "u2" }
      ∷ [];
}

get_group-create_example :
    get_group (group_id (js "7")) group_db
    ≡ some (record { id = group_id (js "7"); name = js "G"; member_ids = to_set three })
unfolding members_of create_group group_id insert_conversation conversation_by_id add_members
    ensure_member is_member ◌==◌
get_group-create_example =
    get_group-create (js "7") (js "t") (js "G") three empty_db group_db
      (record { id = js "group:7"; kind = group; title = js "G"; member_ids = three }) refl refl

abbrev account_one : AccountId
account_one = (js "u1", (omega arith, (omega arith, tt)))

abbrev account_two : AccountId
account_two = (js "u2", (omega arith, (omega arith, tt)))

-- The two orders of one pair.
id_of_pair_inj_example :
    ◌≡◌ {A = Pair} (Quot.mk (account_one, account_two)) (Quot.mk (account_two, account_one))
unfolding id_of_pair direct_conversation_id lt_text
id_of_pair_inj_example =
    id_of_pair_inj (Quot.mk (account_one, account_two)) (Quot.mk (account_two, account_one)) refl
