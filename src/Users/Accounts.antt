-- ===== src/Users/Accounts.antt =====
-- Registration, login and renaming together.
use thread_link.Prelude.{
  ℕ, ◌≡◌, refl, false, Option, none, some, List, [], ◌∷◌, ◌++◌, arith, if◌then◌else◌, All, Text,
  ◌==◌, eq_iff,
}
use thread_link.Wire.Header.{IsByte}
use thread_link.Database.{Db, UserRow, user_by_username, insert_user, user_clashes}
use thread_link.Auth.{Scrypt, hash_password}
use thread_link.Auth.Passwords.{verify-hash_iff}
use thread_link.Users.{
  UserRecord, Result, done, thrown, row_of, register_insert, register, login_verify, login,
}

-- A row that is put behind the others is found by its name, if no other row has it.
by_username-append :
    (name : Text) (us : List UserRow) (row : UserRow)
    → user_clashes row us ≡ false
    → user_by_username name (us ++ row ∷ [])
      ≡ (if row.username == name then some row else user_by_username name us)
unfolding user_by_username user_clashes
by_username-append name [] row h = refl
by_username-append name (u ∷ us) row h = ground (
  arith,
  by_username-append name us row,
  eq_iff u.username name,
  eq_iff row.username name,
  eq_iff u.username row.username,
)

not_found-clashes :
    (us : List UserRow) (row : UserRow)
    → user_clashes row us ≡ false
    → user_by_username row.username us ≡ none
unfolding user_by_username user_clashes
not_found-clashes [] row h = refl
not_found-clashes (u ∷ us) row h = ground (arith, not_found-clashes us row)

abbrev login_result : Scrypt → List ℕ → Text → Text → UserRecord → Option UserRecord
login_result scrypt salt registered given r =
    if scrypt given salt == scrypt registered salt then some r else none

login_verify-hash :
    (scrypt : Scrypt) (salt : List ℕ) (id username password given now : Text)
    → All IsByte salt
    → All IsByte (scrypt password salt)
    → login_verify scrypt given (row_of id username (hash_password scrypt salt password) now)
      ≡ login_result scrypt salt password given (record { id = id; username = username })
unfolding login_verify
login_verify-hash scrypt salt id username password given now hs hk = ground (
  arith,
  verify-hash_iff scrypt salt password given hs hk,
  eq_iff (scrypt given salt) (scrypt password salt),
)

module _ (constraint_message : Text) (scrypt : Scrypt) (salt : List ℕ) (db : Db)
    (username password id now : Text) where
  abbrev after_register : Db × Result UserRecord
  after_register = register constraint_message scrypt salt db username password id now

  abbrev new_row : UserRow
  new_row = row_of id username (hash_password scrypt salt password) now

  register_done :
      (r : UserRecord)
      → after_register.1 ≡ done r
      → (user_clashes new_row db.users ≡ false)
        × (after_register.0 ≡ record db { users = db.users ++ new_row ∷ [] })
        × (r ≡ record { id = id; username = username })
  unfolding register register_insert insert_user
  register_done r h = ground arith

  -- After a successful registration, logging in as the new name succeeds, with the account's record,
  -- exactly for the passwords from which scrypt derives the same key, the registered one among them;
  -- logging in under any other name gives what it gave before. scrypt and the salt give bytes.
  pub login-register :
      (r : UserRecord) (name given : Text)
      → All IsByte salt
      → All IsByte (scrypt password salt)
      → after_register.1 ≡ done r
      → login scrypt after_register.0 name given ≡ (
          if username == name
          then login_result scrypt salt password given r
          else login scrypt db name given)
  login-register r name given hs hk h =
      let (fresh, same_db, same_r) = register_done r h in
      rw (same_db, same_r)
        (unfold login in
          ground (
            arith,
            by_username-append name db.users new_row fresh,
            login_verify-hash scrypt salt id username password given now hs hk,
          ))

  -- A registration that throws has changed no row.
  pub register_thrown : (e : Text) → after_register.1 ≡ thrown e → after_register.0 ≡ db
  unfolding register register_insert
  register_thrown e h = ground arith
