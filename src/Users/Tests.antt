-- ===== src/Users/Tests.antt =====
-- Tests and examples for the accounts. The key derivation of the examples is no scrypt: it appends
-- the salt to the password.
use thread_link.Prelude.{
  ℕ, ◌≡◌, refl, some, List, [], ◌∷◌, ◌++◌, arith, ◌≢◌, false, eq_iff, Text, js, ◌==◌, all,
}
use thread_link.Database.{Db, UserRow, empty_db, insert_user, user_clashes, user_by_username}
use thread_link.Auth.{PasswordRecord, Scrypt}
use thread_link.Users.{
  done, thrown, register, register_check, register_insert, login, rename, matches_username,
  validate_username, validate_password, find_by_username, taken_message, is_username_unit,
}
use thread_link.Users.Accounts.{login-register}
use thread_link.Users.Unique.{AreDistinct, rename_lem}

abbrev toy_scrypt : Scrypt
toy_scrypt password salt = password ++ salt

abbrev toy_salt : List ℕ
toy_salt = 7 ∷ 200 ∷ []

abbrev amy : UserRow
amy = record {
  id = js "u1";
  username = js "amy";
  password_hash = js "ff";
  password_salt = js "00";
  created_at = js "t0";
}

abbrev bo : UserRow
bo = record {
  id = js "u2";
  username = js "bo";
  password_hash = js "ff";
  password_salt = js "00";
  created_at = js "t1";
}

abbrev two_users : Db
two_users = record empty_db { users = amy ∷ bo ∷ [] }

apart : (a b : Text) → (a == b) ≡ false → a ≢ b
apart a b h e = ground (arith, eq_iff a b)

two_users-AreDistinct : AreDistinct two_users.users
unfolding ◌==◌
two_users-AreDistinct =
    (((apart (js "u1") (js "u2") refl, apart (js "amy") (js "bo") refl), tt), (tt, tt))

register_cy :
    (register
      (js "UNIQUE")
      toy_scrypt
      toy_salt
      two_users
      (js "cy")
      (js "password")
      (js "u3")
      (js "t2")).1
    ≡ done (record { id = js "u3"; username = js "cy" })
unfolding register register_check register_insert matches_username all is_username_unit
    validate_username validate_password find_by_username user_by_username insert_user user_clashes
    ◌==◌
register_cy = refl

login-register_example :
    login toy_scrypt
      (register
        (js "UNIQUE")
        toy_scrypt
        toy_salt
        two_users
        (js "cy")
        (js "password")
        (js "u3")
        (js "t2")).0
      (js "cy")
      (js "password")
    ≡ some (record { id = js "u3"; username = js "cy" })
unfolding ◌==◌
login-register_example =
    login-register (js "UNIQUE") toy_scrypt toy_salt two_users (js "cy") (js "password") (js "u3")
      (js "t2") (record { id = js "u3"; username = js "cy" }) (js "cy") (js "password")
      (omega arith) (omega arith) register_cy

register_bo :
    (register
      (js "UNIQUE")
      toy_scrypt
      toy_salt
      two_users
      (js "bo")
      (js "password")
      (js "u3")
      (js "t2")).1
    ≡ thrown taken_message
unfolding register register_check register_insert matches_username all is_username_unit
    validate_username validate_password find_by_username user_by_username insert_user user_clashes
    ◌==◌
register_bo = refl

abbrev any_record : PasswordRecord
any_record = record { hash = js "aa"; salt = js "bb" }

rename_lem_example :
    rename (js "UNIQUE") two_users (js "u2") (js "amy") ≡ (two_users, thrown taken_message)
unfolding matches_username all is_username_unit validate_username user_by_username ◌==◌
rename_lem_example = rename_lem (js "UNIQUE") two_users (js "u2") (js "amy") two_users-AreDistinct
