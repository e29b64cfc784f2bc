-- ===== src/ChatServer/Nicknames.antt =====
-- The nickname command: what the server takes for a nickname, and what "/nick" does.
use thread_link.Prelude.{
  ℕ, ◌≡◌, refl, ap, ◌∙◌, ◌↔◌, ◌⊎◌, ◌≢◌, any, All, eq_iff, true, false, inl, inr, none, some, List,
  [], ◌∷◌, ◌++◌, arith, Bool-cases, if◌then◌else◌, nat_beq, find, all, Text, js,
}
use thread_link.BackendMessages.{space, format_nick_command, parse_backend_line, nick, err}
use thread_link.BackendMessages.RoundTrip.{IsWord, parse-render}
use thread_link.BackendMessages.Server.{IsStripped, read-format_nick}
use thread_link.Users.{validate_username, matches_username, is_username_unit}
use thread_link.ChatServer.{
  ClientRecord, Server, sending, broadcasting, find_client, modify, rename_to, send_error,
}
use thread_link.ChatServer.Commands.{
  is_valid_nickname, is_nickname_char, is_taken_by_other, words_of, set_nickname, store_nickname,
  handle_nick, handle_line, act,
}

char-unit : (c : ℕ) → is_nickname_char c ≡ is_username_unit c
unfolding is_nickname_char is_username_unit
char-unit c = ground arith

all-units : (s : Text) → all is_nickname_char s ≡ all is_username_unit s
unfolding all
all-units [] = refl
all-units (c ∷ s) = rw (char-unit c, all-units s) refl

-- The gateway and the server agree on names: a text is a username of the gateway exactly when it is a
-- nickname of the server.
pub is_valid_nickname_iff : (s : Text) → (is_valid_nickname s ≡ true) ↔ (validate_username s ≡ none)
unfolding is_valid_nickname validate_username matches_username
is_valid_nickname_iff s = ground (arith, all-units s)

words_of-chars :
    (c : ℕ) (s : Text) → all is_nickname_char (c ∷ s) ≡ true → words_of (c ∷ s) ≡ (c ∷ s) ∷ []
unfolding words_of all is_nickname_char
words_of-chars c [] h = ground arith
words_of-chars c (d ∷ s) h = rw (words_of-chars d s (ground arith)) (ground arith)

IsStripped-chars : (c : ℕ) (s : Text) → all is_nickname_char (c ∷ s) ≡ true → IsStripped (c ∷ s)
unfolding all is_nickname_char
IsStripped-chars c [] h = (ground arith, ground arith)
IsStripped-chars c (d ∷ s) h = IsStripped-chars d s (ground arith)

valid_chars : (s : Text) → is_valid_nickname s ≡ true → all is_nickname_char s ≡ true
unfolding is_valid_nickname
valid_chars s h = ground arith

pub find_client-rename :
    (fd d : ℕ) (name : Text) (c : ClientRecord) (cs : List ClientRecord)
    → find_client fd cs ≡ some c
    → find_client d (modify (rename_to name) fd cs)
      ≡ (if nat_beq d fd then some (rename_to name c) else find_client d cs)
unfolding find_client find modify
find_client-rename fd d name c [] h = cc
find_client-rename fd d name c (e ∷ cs) h = ground (arith, find_client-rename fd d name c cs)

-- No other client has the name.
abbrev pub IsFree : ℕ → Text → List ClientRecord → Type 0
IsFree fd name = All (λ d. d.fd ≢ fd → d.nickname ≢ name)

is_taken_by_other-IsFree :
    (fd : ℕ) (name : Text) (cs : List ClientRecord)
    → is_taken_by_other fd name cs ≡ false
    → IsFree fd name cs
unfolding is_taken_by_other any
is_taken_by_other-IsFree fd name [] h = tt
is_taken_by_other-IsFree fd name (d ∷ cs) h = (
  λ apart. ground (arith, eq_iff d.nickname name),
  is_taken_by_other-IsFree fd name cs (ground arith),
)

is_taken_by_other-not_IsFree :
    (fd : ℕ) (name : Text) (cs : List ClientRecord)
    → is_taken_by_other fd name cs ≡ true
    → ¬ IsFree fd name cs
unfolding is_taken_by_other any
is_taken_by_other-not_IsFree fd name [] h free = cc
is_taken_by_other-not_IsFree fd name (d ∷ cs) h (p, free) =
    elim (Bool-cases (is_taken_by_other fd name cs)) [
      | inl e ↦ is_taken_by_other-not_IsFree fd name cs e free
      | inr e ↦ unfold is_taken_by_other any in ground (arith, p, eq_iff d.nickname name)
    ]

-- What a successful "/nick" is.
pub record IsRenamed (fd : ℕ) (args : Text) (c : ClientRecord) (server : Server) : Type 0 where
  pub name : Text
  pub only : words_of args ≡ name ∷ []
  pub valid : validate_username name ≡ none
  pub free : IsFree fd name server.clients
  pub told :
      (handle_nick fd args server).1
      ≡ broadcasting (js "NICK " ++ (c.nickname ++ space ∷ name)) none ∷ []
  pub unsent : (handle_nick fd args server).0.wire ≡ server.wire
  pub found :
      (d : ℕ)
      → find_client d (handle_nick fd args server).0.clients
        ≡ (if nat_beq d fd then some (rename_to name c) else find_client d server.clients)

-- Why a "/nick" with these words is refused, with the code of the error.
pub data IsReason (fd : ℕ) (cs : List ClientRecord) : List Text → Text → Type 0 where
  no_word : IsReason fd cs [] (js "NICK_EMPTY")
  more_words : {w v : Text} {words : List Text} → IsReason fd cs (w ∷ v ∷ words) (js "NICK_INVALID")
  not_a_name : {w : Text} → validate_username w ≢ none → IsReason fd cs (w ∷ []) (js "NICK_INVALID")
  not_free :
      {w : Text}
      → validate_username w ≡ none
      → ¬ IsFree fd w cs
      → IsReason fd cs (w ∷ []) (js "NICK_TAKEN")

-- What a refused one is.
pub record IsRefused (fd : ℕ) (args : Text) (server : Server) : Type 0 where
  pub code : Text
  pub text : Text
  pub reason : IsReason fd server.clients (words_of args) code
  pub answer : handle_nick fd args server ≡ (server, send_error fd code text ∷ [])

IsRenamed-word :
    (fd : ℕ) (args w : Text) (c : ClientRecord) (server : Server)
    → words_of args ≡ w ∷ []
    → find_client fd server.clients ≡ some c
    → is_valid_nickname w ≡ true
    → is_taken_by_other fd w server.clients ≡ false
    → IsRenamed fd args c server
unfolding handle_nick set_nickname
IsRenamed-word fd args w c server only h valid free =
    let same : handle_nick fd args server ≡ store_nickname fd w (some c) server =
      rw (only, valid, free, h) refl in
    record {
      name = w;
      only = only;
      valid = (is_valid_nickname_iff w).0 valid;
      free = is_taken_by_other-IsFree fd w server.clients free;
      told = ap (λ r. r.1) same;
      unsent = ap (λ r. r.0.wire) same;
      found = λ d.
          ap (λ r. find_client d r.0.clients) same ∙ find_client-rename fd d w c server.clients h;
    }

nick_outcome :
    (fd : ℕ) (args : Text) (c : ClientRecord) (server : Server) (words : List Text)
    → words_of args ≡ words
    → find_client fd server.clients ≡ some c
    → IsRenamed fd args c server ⊎ IsRefused fd args server
unfolding handle_nick set_nickname
nick_outcome fd args c server [] e h = inr (record {
  code = js "NICK_EMPTY";
  text = js "Usage: /nick <name>";
  reason = rw e no_word;
  answer = rw e refl;
})
nick_outcome fd args c server (w ∷ v ∷ words) e h = inr (record {
  code = js "NICK_INVALID";
  text = js "Nickname must not contain spaces";
  reason = rw e more_words;
  answer = rw e refl;
})
nick_outcome fd args c server (w ∷ []) e h = elim (Bool-cases (is_valid_nickname w)) [
  | inl valid ↦ elim (Bool-cases (is_taken_by_other fd w server.clients)) [
    | inl taken ↦ inr (record {
      code = js "NICK_TAKEN";
      text = js "Nickname '" ++ (w ++ js "' is already in use");
      reason = rw e (
          not_free ((is_valid_nickname_iff w).0 valid)
            (is_taken_by_other-not_IsFree fd w server.clients taken));
      answer = rw (e, valid, taken) refl;
    })
    | inr free ↦ inl (IsRenamed-word fd args w c server e h valid free)
  ]
  | inr bad ↦ inr (record {
    code = js "NICK_INVALID";
    text = js "Nickname must be 1-24 characters: letters, digits, '_' or '-' only";
    reason = rw e (not_a_name (λ v. cc ((is_valid_nickname_iff w).1 v)));
    answer = rw (e, bad) refl;
  })
]

-- A client's "/nick" renames it, when its argument is one word that the gateway takes for a username and
-- that no other client has: then all are told "NICK" with both names, and every other client is as
-- before. Otherwise it is refused: nothing changes, and the client alone gets one error, NICK_EMPTY for
-- no word, NICK_INVALID for more than one word or no username, and NICK_TAKEN for the name of another.
pub handle_nick_lem :
    (fd : ℕ) (args : Text) (c : ClientRecord) (server : Server)
    → find_client fd server.clients ≡ some c
    → IsRenamed fd args c server ⊎ IsRefused fd args server
handle_nick_lem fd args c server h = nick_outcome fd args c server (words_of args) refl h

-- What the gateway asks for with a username of its own is granted, if no other client has it; the line
-- that all clients get is read as the change from the old name to the new one.
pub handle_line-format_nick :
    (fd : ℕ) (u : ℕ) (s : Text) (c : ClientRecord) (server : Server)
    → validate_username (u ∷ s) ≡ none
    → find_client fd server.clients ≡ some c
    → IsWord c.nickname
    → is_taken_by_other fd (u ∷ s) server.clients ≡ false
    → let line = js "NICK " ++ (c.nickname ++ space ∷ u ∷ s) in
      (handle_line fd (format_nick_command (u ∷ s)) server ≡ (
        (
          record server { clients = modify (rename_to (u ∷ s)) fd server.clients },
          broadcasting line none ∷ [],
        ),
        true,
      ))
      × (parse_backend_line line ≡ nick c.nickname (u ∷ s))
unfolding handle_line act handle_nick set_nickname
handle_line-format_nick fd u s c server username h word free =
    let valid = (is_valid_nickname_iff (u ∷ s)).1 username in
    let chars = valid_chars (u ∷ s) valid in
    (
      rw
          (
            read-format_nick u s (IsStripped-chars u s chars),
            words_of-chars u s chars,
            valid,
            free,
            h,
          )
          refl,
      parse-render (nick c.nickname (u ∷ s)) word,
    )

-- What the gateway asks for is refused, if another client has the name: nothing changes, and the answer
-- is read as the error NICK_TAKEN.
pub handle_line-format_nick_taken :
    (fd : ℕ) (u : ℕ) (s : Text) (server : Server)
    → validate_username (u ∷ s) ≡ none
    → is_taken_by_other fd (u ∷ s) server.clients ≡ true
    → let text = js "Nickname '" ++ ((u ∷ s) ++ js "' is already in use") in
      let answer = js "ERR " ++ (js "NICK_TAKEN" ++ space ∷ text) in
      (handle_line fd (format_nick_command (u ∷ s)) server
        ≡ ((server, sending fd answer ∷ []), true))
      × (parse_backend_line answer ≡ err (js "NICK_TAKEN") text)
unfolding handle_line act handle_nick set_nickname send_error
handle_line-format_nick_taken fd u s server username taken =
    let text = js "Nickname '" ++ ((u ∷ s) ++ js "' is already in use") in
    let valid = (is_valid_nickname_iff (u ∷ s)).1 username in
    let chars = valid_chars (u ∷ s) valid in
    (
      rw (read-format_nick u s (IsStripped-chars u s chars), words_of-chars u s chars, valid, taken)
          refl,
      parse-render (err (js "NICK_TAKEN") text) (ground arith),
    )
