-- ===== src/ChatServer/Commands.antt =====
-- The commands of src/Server.cpp: handle_line, handle_nick, handle_msg and handle_list.
use thread_link.Prelude.{
  ℕ, Bool, true, false, not, ◌&&◌, ◌||◌, Option, none, some, List, [], ◌∷◌, ◌++◌, ltb, leb, nat_beq,
  if◌then◌else◌, length, keep, find, all, any, Text, js, ◌==◌, lt_text, decimal,
}
use thread_link.BackendMessages.{space}
use thread_link.BackendMessages.Server.{Action, read_line}
use thread_link.ChatServer.{
  ClientRecord, Server, Job, sending, broadcasting, nicknames, find_client, is_empty, modify,
  rename_to, send_error,
}

-- 'isalnum' of the "C" locale, '_' or '-'.
unfoldable pub is_nickname_char : ℕ → Bool
is_nickname_char c =
    (leb b'0' c && leb c b'9')
    || (leb b'A' c && leb c b'Z')
    || (leb b'a' c && leb c b'z')
    || nat_beq c b'_'
    || nat_beq c b'-'

unfoldable pub is_valid_nickname : Text → Bool
unfolding all is_nickname_char
is_valid_nickname nick =
    if nat_beq (length nick) 0 || ltb 24 (length nick) then false else all is_nickname_char nick

-- `isspace` of the "C" locale.
abbrev is_space : ℕ → Bool
is_space c = nat_beq c 32 || (leb 9 c && leb c 13)

abbrev next_unit : ℕ → Bool → List Text → List Text
next_unit c true words = (c ∷ []) ∷ words
next_unit c false [] = (c ∷ []) ∷ []
next_unit c false (w ∷ words) = (c ∷ w) ∷ words

abbrev starts_blank : Text → Bool
starts_blank [] = true
starts_blank (c ∷ s) = is_space c

-- What `iss >> word` brings, one call after the other.
unfoldable pub words_of : Text → List Text
words_of [] = []
words_of (c ∷ s) =
    let words = words_of s in if is_space c then words else next_unit c (starts_blank s) words

-- Whether another client has the nickname.
unfoldable pub is_taken_by_other : ℕ → Text → List ClientRecord → Bool
unfolding any
is_taken_by_other fd nickname = any (λ c. not (nat_beq c.fd fd) && c.nickname == nickname)

abbrev pub store_nickname : ℕ → Text → Option ClientRecord → Server → Server × List Job
store_nickname fd new_nick none server = (server, [])
store_nickname fd new_nick (some c) server = (
  record server { clients = modify (rename_to new_nick) fd server.clients },
  broadcasting (js "NICK " ++ (c.nickname ++ space ∷ new_nick)) none ∷ [],
)

-- The nickname is the first word; a second one is refused.
unfoldable pub set_nickname : ℕ → List Text → Server → Server × List Job
unfolding is_valid_nickname is_taken_by_other find_client modify
set_nickname fd [] server =
    (server, send_error fd (js "NICK_EMPTY") (js "Usage: /nick <name>") ∷ [])
set_nickname fd (new_nick ∷ []) server =
    if not (is_valid_nickname new_nick)
    then (
      server,
      send_error fd (js "NICK_INVALID")
            (js "Nickname must be 1-24 characters: letters, digits, '_' or '-' only")
          ∷ [],
    )
    else if is_taken_by_other fd new_nick server.clients
    then (
      server,
      send_error fd (js "NICK_TAKEN") (js "Nickname '" ++ (new_nick ++ js "' is already in use"))
          ∷ [],
    )
    else store_nickname fd new_nick (find_client fd server.clients) server
set_nickname fd (new_nick ∷ junk ∷ more) server =
    (server, send_error fd (js "NICK_INVALID") (js "Nickname must not contain spaces") ∷ [])

unfoldable pub handle_nick : ℕ → Text → Server → Server × List Job
unfolding words_of set_nickname
handle_nick fd args = set_nickname fd (words_of args)

abbrev pub has_name : Text → ClientRecord → Bool
has_name target c = c.welcomed && c.nickname == target

abbrev pub deliver : ℕ → Text → Text → Option ClientRecord → Option ClientRecord → List Job
deliver fd target text none to = []
deliver fd target text (some self) none =
    send_error fd (js "USER_NOT_FOUND") (js "User '" ++ (target ++ js "' not found")) ∷ []
deliver fd target text (some self) (some c) =
    if nat_beq c.fd fd
    then send_error fd (js "MSG_SELF") (js "You cannot send a private message to yourself") ∷ []
    else sending c.fd (js "PRIV " ++ (self.nickname ++ space ∷ text))
      ∷ sending fd (js "PRIV_SENT " ++ (target ++ space ∷ text))
      ∷ []

-- `split_first(args, target, text)` is made by `read_line`.
unfoldable pub handle_msg : ℕ → Text → Text → Server → List Job
unfolding find_client find
handle_msg fd target text server =
    if is_empty target || is_empty text
    then send_error fd (js "MSG_USAGE") (js "Usage: /msg <nickname> <message>") ∷ []
    else deliver fd target text (find_client fd server.clients)
        (find (has_name target) server.clients)

-- `std::sort`: the order of `<` on strings is total, so that any way to sort gives this list.
unfoldable pub insert_sorted : Text → List Text → List Text
insert_sorted s [] = s ∷ []
insert_sorted s (t ∷ ts) =
    let rest = insert_sorted s ts in if lt_text t s then t ∷ rest else s ∷ t ∷ ts

unfoldable pub sort : List Text → List Text
unfolding insert_sorted
sort [] = []
sort (s ∷ ss) = insert_sorted s (sort ss)

unfoldable pub append_names : Text → List Text → Text
append_names payload [] = payload
append_names payload (n ∷ names) = append_names (payload ++ space ∷ n) names

unfoldable pub list_payload : List Text → Text
unfolding append_names
list_payload names = append_names (js "LIST " ++ decimal (length names)) names

unfoldable pub handle_list : ℕ → Server → List Job
unfolding keep sort list_payload
handle_list fd server =
    sending fd (list_payload (sort (nicknames (keep (λ c. c.welcomed) server.clients)))) ∷ []

abbrev pub say : ℕ → Text → Option ClientRecord → List Job
say fd said none = []
say fd said (some c) = broadcasting (js "MSG " ++ (c.nickname ++ space ∷ said)) (some fd) ∷ []

-- What a line makes the server do; whether the loop of the client goes on.
unfoldable pub act : ℕ → Action → Server → (Server × List Job) × Bool
unfolding handle_nick handle_msg handle_list find_client
act fd Action.ignore server = ((server, []), true)
act fd Action.leave server = ((server, []), false)
act fd Action.send_list server = ((server, handle_list fd server), true)
act fd (Action.chat said) server = ((server, say fd said (find_client fd server.clients)), true)
act fd (Action.handle_nick args) server = (handle_nick fd args server, true)
act fd (Action.handle_msg target text) server = ((server, handle_msg fd target text server), true)
act fd (Action.bad_cmd cmd) server =
    ((server, send_error fd (js "BAD_CMD") (js "Unknown command '" ++ (cmd ++ js "'")) ∷ []), true)

unfoldable pub handle_line : ℕ → Text → Server → (Server × List Job) × Bool
unfolding read_line act
handle_line fd raw = act fd (read_line raw)
