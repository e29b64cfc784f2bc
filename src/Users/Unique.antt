-- ===== src/Users/Unique.antt =====
-- Usernames and account ids stay distinct, and what a rename does.
use thread_link.Prelude.{
  ◌≡◌, refl, sym, subst, ◌≢◌, inl, inr, ◌⊎◌, Bool, true, false, Bool-cases, Option, none, some,
  List, [], ◌∷◌, ◌++◌, arith, if◌then◌else◌, All, Text, ◌==◌, eq_iff,
}
use thread_link.Database.{
  Db, UserRow, user_by_username, user_by_id, insert_user, user_clashes, update_username,
  set_username, name_clashes,
}
use thread_link.Auth.{PasswordRecord}
use thread_link.Users.{
  done, thrown, row_of, find_by_username, register_insert, rename, validate_username, taken_message,
}

abbrev Apart : UserRow → UserRow → Type 0
Apart u v = (u.id ≢ v.id) × (u.username ≢ v.username)

-- No two rows share an id or a username: the PRIMARY KEY and the UNIQUE column of `users`.
abbrev pub AreDistinct : List UserRow → Type 0
AreDistinct [] = Unit
AreDistinct (u ∷ us) = All (Apart u) us × AreDistinct us

Apart-append :
    (u row : UserRow) (us : List UserRow)
    → All (Apart u) us
    → Apart u row
    → All (Apart u) (us ++ row ∷ [])
Apart-append u row [] h k = (k, tt)
Apart-append u row (v ∷ us) (p, h) k = (p, Apart-append u row us h k)

AreDistinct-append :
    (us : List UserRow) (row : UserRow)
    → AreDistinct us
    → user_clashes row us ≡ false
    → AreDistinct (us ++ row ∷ [])
unfolding user_clashes
AreDistinct-append [] row d h = (tt, tt)
AreDistinct-append (u ∷ us) row (p, d) h = (
  Apart-append u row us p
      (ground (arith, eq_iff u.id row.id), ground (arith, eq_iff u.username row.username)),
  AreDistinct-append us row d (ground arith),
)

users-register_insert :
    (constraint_message : Text) (db : Db) (username : Text) (r : PasswordRecord) (id now : Text)
    → let row = row_of id username r now in
      (register_insert constraint_message db username r id now).0.users
      ≡ (if user_clashes row db.users then db.users else db.users ++ row ∷ [])
unfolding register_insert insert_user
users-register_insert constraint_message db username r id now = ground arith

AreDistinct-insert :
    (us : List UserRow) (row : UserRow)
    → AreDistinct us
    → AreDistinct (if user_clashes row us then us else us ++ row ∷ [])
AreDistinct-insert us row d = elim (Bool-cases (user_clashes row us)) [
  | inl h ↦ subst AreDistinct (rw h) d
  | inr h ↦ subst AreDistinct (rw h) (AreDistinct-append us row d h)
]

-- Registration keeps the ids and the usernames distinct, also if other registrations ran during its
-- `await`: this is what it does after the `await`, on any database.
pub register_insert-AreDistinct :
    (constraint_message : Text) (db : Db) (username : Text) (r : PasswordRecord) (id now : Text)
    → AreDistinct db.users
    → AreDistinct (register_insert constraint_message db username r id now).0.users
register_insert-AreDistinct constraint_message db username r id now d =
    subst AreDistinct (sym (users-register_insert constraint_message db username r id now))
      (AreDistinct-insert db.users (row_of id username r now) d)

renamed_row : Text → Text → UserRow → UserRow
renamed_row id name u = if u.id == id then record u { username = name } else u

set-cons :
    (id name : Text) (u : UserRow) (us : List UserRow)
    → set_username id name (u ∷ us) ≡ renamed_row id name u ∷ set_username id name us
unfolding set_username renamed_row
set-cons id name u us = refl

Apart-set :
    (id name : Text) (u : UserRow) (us : List UserRow)
    → All (Apart u) us
    → name_clashes id name (u ∷ us) ≡ false
    → All (Apart (renamed_row id name u)) (set_username id name us)
unfolding set_username renamed_row name_clashes
Apart-set id name u [] h k = tt
Apart-set id name u (v ∷ us) ((p, q), h) k = (
  ground (arith, eq_iff u.id id, eq_iff v.id id, eq_iff u.username name, eq_iff v.username name),
  Apart-set id name u us h (ground arith),
)

name_clashes-tail :
    (id name : Text) (u : UserRow) (us : List UserRow)
    → name_clashes id name (u ∷ us) ≡ false
    → name_clashes id name us ≡ false
unfolding name_clashes
name_clashes-tail id name u us h = ground arith

set-AreDistinct :
    (id name : Text) (us : List UserRow)
    → AreDistinct us
    → name_clashes id name us ≡ false
    → AreDistinct (set_username id name us)
unfolding set_username
set-AreDistinct id name [] d h = tt
set-AreDistinct id name (u ∷ us) (p, d) h =
    subst AreDistinct (sym (set-cons id name u us))
      (Apart-set id name u us p h, set-AreDistinct id name us d (name_clashes-tail id name u us h))

no_clash :
    (u : UserRow) (id : Text) (us : List UserRow)
    → All (Apart u) us
    → name_clashes id u.username us ≡ false
unfolding name_clashes
no_clash u id [] h = refl
no_clash u id (v ∷ us) ((p, q), h) =
    ground (arith, eq_iff v.username u.username, eq_iff v.id id, no_clash u id us h)

abbrev held_by_other : Option UserRow → Text → Bool
held_by_other none id = false
held_by_other (some v) id = if v.id == id then false else true

-- The SELECT of `rename` finds another holder of the name exactly where the UPDATE would fail.
clash-eq-held :
    (id name : Text) (us : List UserRow)
    → AreDistinct us
    → name_clashes id name us ≡ held_by_other (user_by_username name us) id
unfolding name_clashes user_by_username
clash-eq-held id name [] d = refl
clash-eq-held id name (u ∷ us) (p, d) = elim (Bool-cases (u.username == name)) [
  | inl e ↦
      let same : u.username ≡ name = (eq_iff u.username name).0 e in
      let free : name_clashes id name us ≡ false =
        subst (λ n. name_clashes id n us ≡ false) same (no_clash u id us p) in
      ground arith
  | inr e ↦ ground (arith, clash-eq-held id name us d)
]

set_absent :
    (id name : Text) (us : List UserRow) → user_by_id id us ≡ none → set_username id name us ≡ us
unfolding user_by_id set_username
set_absent id name [] h = refl
set_absent id name (u ∷ us) h = ground (arith, set_absent id name us)

-- What `rename` does where ids and usernames are distinct: it throws for an invalid name and for one
-- that another account has, and otherwise sets the name of the account, if there is one. So the
-- database's own constraint error never comes up.
pub rename_lem :
    (constraint_message : Text) (db : Db) (id name : Text)
    → AreDistinct db.users
    → rename constraint_message db id name ≡ elim (validate_username name) [
      | some e ↦ (db, thrown e)
      | none ↦
          if held_by_other (user_by_username name db.users) id
          then (db, thrown taken_message)
          else (record db { users = set_username id name db.users }, done tt)
    ]
unfolding rename update_username find_by_username
rename_lem constraint_message db id name d =
    ground (arith, clash-eq-held id name db.users d, set_absent id name db.users)

users-rename :
    (constraint_message : Text) (db : Db) (id name : Text)
    → let users = (rename constraint_message db id name).0.users in
      (users ≡ db.users)
      ⊎ ((name_clashes id name db.users ≡ false) × (users ≡ set_username id name db.users))
unfolding rename update_username
users-rename constraint_message db id name = ground arith

-- A rename keeps the ids and the usernames distinct.
pub rename-AreDistinct :
    (constraint_message : Text) (db : Db) (id name : Text)
    → AreDistinct db.users
    → AreDistinct (rename constraint_message db id name).0.users
rename-AreDistinct constraint_message db id name d =
    elim (users-rename constraint_message db id name) [
      | inl same ↦ subst AreDistinct (sym same) d
      | inr (free, set) ↦ subst AreDistinct (sym set) (set-AreDistinct id name db.users d free)
    ]
