-- ===== src/Users.antt =====
-- gateway/src/users.ts: accounts. An `async` method is cut at its `await`: `register_check` is what
-- `register` does before `hashPassword`, `register_insert` what it does after.
pub mod Validation
pub mod Accounts
pub mod Unique
mod Tests
use thread_link.Prelude.{
  ℕ, ◌≡◌, Bool, true, false, ◌&&◌, ◌||◌, Option, none, some, List, [], ◌∷◌, ltb, leb, nat_beq,
  if◌then◌else◌, length, all, Text, js, ◌==◌,
}
use thread_link.Database.{Db, UserRow, user_by_username, user_by_id, insert_user, update_username}
use thread_link.Auth.{PasswordRecord, Scrypt, hash_password, verify_password}

pub record UserRecord : Type 0 where
  pub id : Text
  pub username : Text

-- A value, or the message of the Error that was thrown.
pub data Result {ℓ} (A : Type ℓ) : Type ℓ where
  done : A → Result A
  thrown : Text → Result A

-- [A-Za-z0-9_-]
unfoldable pub is_username_unit : ℕ → Bool
is_username_unit c =
    (leb b'A' c && leb c b'Z')
    || (leb b'a' c && leb c b'z')
    || (leb b'0' c && leb c b'9')
    || nat_beq c b'_'
    || nat_beq c b'-'

-- USERNAME_RE.test
unfoldable pub matches_username : Text → Bool
unfolding all is_username_unit
matches_username s = leb 1 (length s) && leb (length s) 24 && all is_username_unit s

abbrev pub min_password_length : ℕ
min_password_length = 8

abbrev pub max_password_length : ℕ
max_password_length = 256

-- `none` is null: no error.
unfoldable pub validate_username : Text → Option Text
unfolding matches_username
validate_username s =
    if matches_username s
    then none
    else some (js "Username must be 1-24 characters: letters, digits, '_' or '-' only.")

unfoldable pub validate_password : Text → Option Text
validate_password s =
    if ltb (length s) min_password_length
    then some (js "Password must be at least 8 characters.")
    else if ltb max_password_length (length s)
    then some (js "Password is too long.")
    else none

abbrev pub user_record : UserRow → UserRecord
user_record row = record { id = row.id; username = row.username }

abbrev map_row : Option UserRow → Option UserRecord
map_row none = none
map_row (some row) = some (user_record row)

unfoldable pub find_by_username : Db → Text → Option UserRecord
unfolding user_by_username
find_by_username db username = map_row (user_by_username username db.users)

unfoldable pub find_by_id : Db → Text → Option UserRecord
unfolding user_by_id
find_by_id db id = map_row (user_by_id id db.users)

abbrev pub taken_message : Text
taken_message = js "That username is already taken."

-- `register` up to its `await`: the error that it throws, if any.
unfoldable pub register_check : Db → Text → Text → Option Text
unfolding validate_username validate_password find_by_username
register_check db username password = elim (validate_username username) [
  | some e ↦ some e
  | none ↦ elim (validate_password password) [
    | some e ↦ some e
    | none ↦ elim (find_by_username db username) [ some u ↦ some taken_message | none ↦ none ]
  ]
]

abbrev pub row_of : Text → Text → PasswordRecord → Text → UserRow
row_of id username r now = record {
  id = id;
  username = username;
  password_hash = r.hash;
  password_salt = r.salt;
  created_at = now;
}

-- `register` from its `await` on, with the message of the database's error if the row clashes.
unfoldable pub register_insert :
    Text → Db → Text → PasswordRecord → Text → Text → Db × Result UserRecord
register_insert constraint_message db username r id now =
    elim (insert_user (row_of id username r now) db) [
      | none ↦ (db, thrown constraint_message)
      | some db' ↦ (db', done (record { id = id; username = username }))
    ]

-- `register` where nothing else runs during the `await`.
unfoldable pub register :
    Text → Scrypt → List ℕ → Db → Text → Text → Text → Text → Db × Result UserRecord
register constraint_message scrypt salt db username password id now =
    elim (register_check db username password) [
      | some e ↦ (db, thrown e)
      | none ↦
          register_insert constraint_message db username (hash_password scrypt salt password) id now
    ]

abbrev pub stored_password : UserRow → PasswordRecord
stored_password row = record { hash = row.password_hash; salt = row.password_salt }

-- `login` from its `await` on, over the row that it read before.
unfoldable pub login_verify : Scrypt → Text → UserRow → Option UserRecord
login_verify scrypt password row =
    if verify_password scrypt password (stored_password row) then some (user_record row) else none

unfoldable pub login : Scrypt → Db → Text → Text → Option UserRecord
login scrypt db username password = elim (user_by_username username db.users) [
  | none ↦ none
  | some row ↦ login_verify scrypt password row
]

-- The account that has the name is another one.
abbrev is_other : Option UserRecord → Text → Bool
is_other none id = false
is_other (some u) id = if u.id == id then false else true

unfoldable pub rename : Text → Db → Text → Text → Db × Result (Unit {0})
rename constraint_message db id new_username = elim (validate_username new_username) [
  | some e ↦ (db, thrown e)
  | none ↦
      if is_other (find_by_username db new_username) id
      then (db, thrown taken_message)
      else elim (update_username id new_username db) [
        | none ↦ (db, thrown constraint_message)
        | some db' ↦ (db', done tt)
      ]
]
