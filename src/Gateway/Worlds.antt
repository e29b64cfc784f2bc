-- ===== src/Gateway/Worlds.antt =====
-- Small worlds for the tests: scrypt appends the salt to the password, fresh values are counted in
-- unary, and JSON is empty.
use thread_link.Prelude.{ℕ, zero, suc, true, none, [], ◌∷◌, ◌++◌, if◌then◌else◌, nat_beq, Text, js}
use thread_link.Protocol.{group}
use thread_link.Database.{Db, empty_db}
use thread_link.Users.{UserRecord}
use thread_link.Sessions.{Session, connected, new_session}
use thread_link.Environment.{Environment}
use thread_link.Gateway.{Gateway}
use thread_link.Gateway.Steps.{start}

abbrev pub unary : ℕ → Text
unary zero = []
unary (suc n) = b'i' ∷ unary n

abbrev pub toy : Environment
toy = record {
  random_uuid = unary;
  iso_now = unary;
  random_salt = unary;
  scrypt = λ password salt. password ++ salt;
  constraint_message = js "UNIQUE";
  by_created_at = λ rows. rows;
  to_lower_case = λ text. text;
  parse_json = λ raw. none;
}

abbrev pub member : Text → Session
member id = record (new_session []) {
  id = id;
  authenticated = true;
  backend = connected;
  nickname = id;
  welcomed = true;
}

abbrev pub group_db : Db
group_db = record empty_db {
  conversations =
      record { id = js "group:g"; kind = group; title = js "G"; created_at = js "t" } ∷ [];
  members =
      record { conversation_id = js "group:g"; user_id = js "amy" }
      ∷ record { conversation_id = js "group:g"; user_id = js "bo" }
      ∷ [];
}

-- amy and bo, who are in the group, and cy, who is not, are connected.
abbrev pub chatting : Gateway
chatting = record (start toy group_db) {
  heap = λ r.
      if nat_beq r 0
      then member (js "amy")
      else if nat_beq r 1
      then member (js "cy")
      else member (js "bo");
  roster = (js "amy", 0) ∷ (js "cy", 1) ∷ (js "bo", 2) ∷ [];
  opened = 3;
}

abbrev pub amy : UserRecord
amy = record { id = js "u1"; username = js "amy" }

-- A session that is logging in, and nobody else.
abbrev pub logging_in : Gateway
logging_in = record (start toy empty_db) { opened = 1 }
