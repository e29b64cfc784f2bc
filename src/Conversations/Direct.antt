-- ===== src/Conversations/Direct.antt =====
-- Direct conversations come to exist once.
use thread_link.Prelude.{
  ◌≡◌, refl, inl, inr, Bool-cases, Bool, true, false, Option, none, some, List, [], ◌∷◌, ◌++◌,
  if◌then◌else◌, arith, Text, ◌==◌, eq_refl,
}
use thread_link.Protocol.{direct}
use thread_link.Database.{
  Db, ConversationRow, conversation_by_id, ensure_conversation, ensure_member, kind_eq,
}
use thread_link.Conversations.{direct_conversation_id, has_direct, ensure_direct}
use thread_link.Conversations.DirectId.{direct_conversation_id_comm}

pub conversation_by_id-append :
    (id : Text) (cs : List ConversationRow) (c : ConversationRow)
    → conversation_by_id id cs ≡ none
    → conversation_by_id id (cs ++ c ∷ []) ≡ (if c.id == id then some c else none)
unfolding conversation_by_id
conversation_by_id-append id [] c h = refl
conversation_by_id-append id (d ∷ cs) c h = ground (arith, conversation_by_id-append id cs c)

pub conversations-ensure_member :
    (id user : Text) (db : Db) → (ensure_member id user db).conversations ≡ db.conversations
unfolding ensure_member
conversations-ensure_member id user db = ground arith

abbrev pub is_free : Option ConversationRow → Bool
is_free none = true
is_free (some c) = kind_eq c.kind direct

has_direct-ensure_conversation :
    (row : ConversationRow) (db : Db)
    → kind_eq row.kind direct ≡ true
    → conversation_by_id row.id db.conversations ≡ none
    → has_direct row.id (ensure_conversation row db) ≡ true
unfolding has_direct ensure_conversation
has_direct-ensure_conversation row db h k =
    ground (arith, conversation_by_id-append row.id db.conversations row, eq_refl row.id)

has_direct-ensure_member :
    (id c user : Text) (db : Db) → has_direct id (ensure_member c user db) ≡ has_direct id db
unfolding has_direct
has_direct-ensure_member id c user db = rw (conversations-ensure_member c user db)

free-not_direct :
    (id : Text) (db : Db)
    → is_free (conversation_by_id id db.conversations) ≡ true
    → has_direct id db ≡ false
    → conversation_by_id id db.conversations ≡ none
unfolding has_direct
free-not_direct id db h k = ground arith

pub has_direct-ensure_direct :
    (now a b : Text) (db : Db)
    → is_free (conversation_by_id (direct_conversation_id a b) db.conversations) ≡ true
    → has_direct (direct_conversation_id a b) (ensure_direct now a b db).0 ≡ true
unfolding ensure_direct
has_direct-ensure_direct now a b db h =
    let id = direct_conversation_id a b in
    elim (Bool-cases (has_direct id db)) [
      | inl k ↦ rw k k
      | inr k ↦ rw k (
          rw (has_direct-ensure_member, has_direct-ensure_member)
            (has_direct-ensure_conversation _ db refl (free-not_direct id db h k)))
    ]

ensure_direct_of_has :
    (now a b : Text) (db : Db)
    → has_direct (direct_conversation_id a b) db ≡ true
    → (ensure_direct now a b db).0 ≡ db
unfolding ensure_direct
ensure_direct_of_has now a b db h = ground arith

-- After `ensureDirect` the pair has its conversation, and `ensureDirect` in either order of the
-- members changes nothing more, if the id was free or that of a direct conversation.
pub ensure_direct_idem :
    (now later a b : Text) (db : Db)
    → is_free (conversation_by_id (direct_conversation_id a b) db.conversations) ≡ true
    → let db' = (ensure_direct now a b db).0 in
      (has_direct (direct_conversation_id a b) db' ≡ true)
      × ((ensure_direct later a b db').0 ≡ db')
      × ((ensure_direct later b a db').0 ≡ db')
ensure_direct_idem now later a b db h =
    let has = has_direct-ensure_direct now a b db h in
    (
      has,
      ensure_direct_of_has later a b _ has,
      ensure_direct_of_has later b a _ (rw (direct_conversation_id_comm b a) has),
    )
