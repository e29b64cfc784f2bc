-- ===== src/Conversations/Groups.antt =====
-- A group that was created is found again, with its members.
use mathlib.Core.List.{append_assoc, append-nil}
use thread_link.Prelude.{
  ◌≡◌, refl, sym, ap, ◌∙◌, inl, inr, Bool-cases, none, some, List, [], ◌∷◌, ◌++◌, if◌then◌else◌,
  arith, Text, eq_refl, includes,
}
use thread_link.Protocol.{ConversationSummary, group}
use thread_link.Database.{
  Db, ConversationRow, MemberRow, conversation_by_id, insert_conversation, ensure_member, is_member,
  members_of,
}
use thread_link.Conversations.{group_id, create_group, add_members, get_group, set_from, to_set}
use thread_link.Conversations.Direct.{conversation_by_id-append, conversations-ensure_member}

includes-append : (xs : List Text) (x t : Text) → includes (xs ++ x ∷ []) t ≡ includes (x ∷ xs) t
unfolding includes
includes-append [] x t = refl
includes-append (y ∷ xs) x t = ground (arith, includes-append xs x t)

includes-cons :
    (x t : Text) (s s' : List Text)
    → includes s t ≡ includes s' t
    → includes (x ∷ s) t ≡ includes (x ∷ s') t
unfolding includes
includes-cons x t s s' h = ground arith

set_from-cong :
    (s s' xs : List Text)
    → ((t : Text) → includes s t ≡ includes s' t)
    → set_from s xs ≡ set_from s' xs
unfolding set_from
set_from-cong s s' [] h = refl
set_from-cong s s' (x ∷ xs) h = rw (
  h x,
  set_from-cong s s' xs h,
  set_from-cong (x ∷ s) (x ∷ s') xs (λ t. includes-cons x t s s' (h t)),
)

set_from_idem : (s xs : List Text) → set_from s (set_from s xs) ≡ set_from s xs
unfolding set_from
set_from_idem s [] = refl
set_from_idem s (x ∷ xs) = ground (arith, set_from_idem s xs, set_from_idem (x ∷ s) xs)

is_member-eq-includes :
    (id user : Text) (ms : List MemberRow) → is_member id user ms ≡ includes (members_of id ms) user
unfolding is_member members_of includes
is_member-eq-includes id user [] = refl
is_member-eq-includes id user (m ∷ ms) = ground (arith, is_member-eq-includes id user ms)

members_of-append :
    (id user : Text) (ms : List MemberRow)
    → members_of id (ms ++ record { conversation_id = id; user_id = user } ∷ [])
      ≡ members_of id ms ++ user ∷ []
unfolding members_of
members_of-append id user [] = ground (arith, eq_refl id)
members_of-append id user (m ∷ ms) = ground (arith, members_of-append id user ms)

members_of-ensure :
    (id user : Text) (db : Db)
    → members_of id (ensure_member id user db).members ≡ (
        if includes (members_of id db.members) user
        then members_of id db.members
        else members_of id db.members ++ user ∷ [])
unfolding ensure_member
members_of-ensure id user db =
    ground (arith, is_member-eq-includes id user db.members, members_of-append id user db.members)

set_from-step :
    (old ms : List Text) (m : Text)
    → let now = if includes old m then old else old ++ m ∷ [] in
      now ++ set_from now ms ≡ old ++ set_from old (m ∷ ms)
unfolding set_from
set_from-step old ms m = elim (Bool-cases (includes old m)) [
  | inl h ↦ rw h
  | inr h ↦ rw h (
      append_assoc old (m ∷ []) (set_from (old ++ m ∷ []) ms)
      ∙ ap (λ l. old ++ (m ∷ l))
          (set_from-cong (old ++ m ∷ []) (m ∷ old) ms (includes-append old m)))
]

members_of-add :
    (id : Text) (ms : List Text) (db : Db)
    → members_of id (add_members id ms db).members
      ≡ members_of id db.members ++ set_from (members_of id db.members) ms
unfolding add_members
members_of-add id [] db = unfold set_from in sym (append-nil (members_of id db.members))
members_of-add id (m ∷ ms) db =
    members_of-add id ms (ensure_member id m db)
    ∙ ap (λ l. l ++ set_from l ms) (members_of-ensure id m db)
    ∙ set_from-step (members_of id db.members) ms m

conversations-add :
    (id : Text) (ms : List Text) (db : Db) → (add_members id ms db).conversations ≡ db.conversations
unfolding add_members
conversations-add id [] db = refl
conversations-add id (m ∷ ms) db =
    conversations-add id ms (ensure_member id m db) ∙ conversations-ensure_member id m db

abbrev created_row : Text → Text → Text → ConversationRow
created_row uuid now name = record {
  id = group_id uuid;
  kind = group;
  title = name;
  created_at = now;
}

abbrev with_row : ConversationRow → Db → Db
with_row row db = record db { conversations = db.conversations ++ row ∷ [] }

created :
    (uuid now name : Text) (ids : List Text) (db db' : Db) (c : ConversationSummary)
    → create_group uuid now name ids db ≡ some (db', c)
    → (conversation_by_id (group_id uuid) db.conversations ≡ none)
      × (db' ≡ add_members (group_id uuid) ids (with_row (created_row uuid now name) db))
unfolding create_group insert_conversation
created uuid now name ids db db' c h = ground arith

-- A group that `createGroup` has stored under an id without members so far is found under that id,
-- with the given name, and its members are exactly the given ones, each once.
pub get_group-create :
    (uuid now name : Text) (ids : List Text) (db db' : Db) (c : ConversationSummary)
    → members_of (group_id uuid) db.members ≡ []
    → create_group uuid now name ids db ≡ some (db', c)
    → get_group (group_id uuid) db'
      ≡ some (record { id = group_id uuid; name = name; member_ids = to_set ids })
unfolding get_group to_set
get_group-create uuid now name ids db db' c h e =
    let id = group_id uuid in
    let row = created_row uuid now name in
    let (fresh, same) = created uuid now name ids db db' c e in
    rw (
      same,
      conversations-add id ids (with_row row db),
      conversation_by_id-append id db.conversations row fresh,
      eq_refl id,
      members_of-add id ids (with_row row db),
      h,
      set_from_idem [] ids,
    )
