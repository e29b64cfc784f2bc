-- ===== src/Environment.antt =====
-- What the gateway takes from Node and SQLite and does not implement itself. The n-th call of a
-- source of fresh values is its value at n.
use thread_link.Prelude.{ℕ, Option, List, Text}
use thread_link.Auth.{Scrypt}
use thread_link.ClientProtocol.Values.{Json}
use thread_link.Database.{MessageRow}

pub record Environment : Type 0 where
  -- `randomUUID()`
  pub random_uuid : ℕ → Text
  -- `new Date().toISOString()`
  pub iso_now : ℕ → Text
  -- `randomBytes(16)`
  pub random_salt : ℕ → List ℕ
  pub scrypt : Scrypt
  -- the message of the database's error on a violated constraint
  pub constraint_message : Text
  -- ORDER BY created_at ASC
  pub by_created_at : List MessageRow → List MessageRow
  -- `toLowerCase()`
  pub to_lower_case : Text → Text
  -- `JSON.parse(raw.toString("utf8"))`; `none` where it throws
  pub parse_json : List ℕ → Option Json
