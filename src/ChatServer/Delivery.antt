-- ===== src/ChatServer/Delivery.antt =====
-- Who gets what is said: broadcasts and private messages.
use mathlib.Core.Option.{some_inj}
use thread_link.Prelude.{
  ℕ, ◌≡◌, refl, sym, ap, ◌∙◌, subst, ◌≢◌, true, false, not, ◌&&◌, inl, inr, Option, none, some,
  List, [], ◌∷◌, ◌++◌, map, arith, Bool-cases, if◌then◌else◌, nat_beq, nat_beq_iff, keep, find, All,
  Text, js, eq_iff, eq_refl,
}
use thread_link.BackendMessages.{
  space, format_chat_line, format_msg_command, parse_backend_line, msg, priv, priv_sent,
}
use thread_link.BackendMessages.RoundTrip.{IsWord, parse-render}
use thread_link.BackendMessages.Server.{IsStripped, read-format_msg, read-format_chat_iff}
use thread_link.ChatServer.{ClientRecord, Server, Job, sending, framing, broadcasting, find_client}
use thread_link.ChatServer.Commands.{has_name, handle_msg, handle_line, act}
use thread_link.ChatServer.Threads.{broadcast, is_left_out}
use thread_link.ChatServer.Unique.{AreApart, Apart}
use thread_link.ChatServer.Named.{IsName, IsNamed, IsWord-of_name}

-- The frames among the jobs that go to a descriptor.
unfoldable pub framed_to : ℕ → List Job → List Text
framed_to fd [] = []
framed_to fd (framing d payload ∷ jobs) =
    let rest = framed_to fd jobs in if nat_beq d fd then payload ∷ rest else rest
framed_to fd (_ ∷ jobs) = framed_to fd jobs

abbrev pub reaches : Option ℕ → Text → Option ClientRecord → List Text
reaches exclude_fd payload none = []
reaches exclude_fd payload (some c) =
    if not (is_left_out exclude_fd c.fd) && c.welcomed then payload ∷ [] else []

targets : Option ℕ → Text → List ClientRecord → List Job
unfolding keep
targets exclude_fd payload cs =
    map (λ c. framing c.fd payload) (keep (λ c. not (is_left_out exclude_fd c.fd) && c.welcomed) cs)

framed_none :
    (fd : ℕ) (exclude_fd : Option ℕ) (payload : Text) (c : ClientRecord) (cs : List ClientRecord)
    → c.fd ≡ fd
    → All (Apart c) cs
    → framed_to fd (targets exclude_fd payload cs) ≡ []
unfolding targets framed_to keep
framed_none fd exclude_fd payload c [] e h = refl
framed_none fd exclude_fd payload c (d ∷ cs) e ((p, _), h) =
    ground (arith, framed_none fd exclude_fd payload c cs e h)

framed-targets :
    (fd : ℕ) (exclude_fd : Option ℕ) (payload : Text) (cs : List ClientRecord)
    → AreApart cs
    → framed_to fd (targets exclude_fd payload cs) ≡ reaches exclude_fd payload (find_client fd cs)
unfolding targets framed_to keep find_client find
framed-targets fd exclude_fd payload [] h = refl
framed-targets fd exclude_fd payload (c ∷ cs) (p, h) =
    ground
      (arith, framed_none fd exclude_fd payload c cs, framed-targets fd exclude_fd payload cs h, p)

-- A broadcast is one frame for each welcomed client that is not left out, and none for any other
-- descriptor.
pub broadcast_lem :
    (fd : ℕ) (payload : Text) (exclude_fd : Option ℕ) (server : Server)
    → AreApart server.clients
    → framed_to fd (broadcast payload exclude_fd server)
      ≡ reaches exclude_fd payload (find_client fd server.clients)
unfolding broadcast targets
broadcast_lem fd payload exclude_fd server h = framed-targets fd exclude_fd payload server.clients h

-- A public message of the gateway is broadcast by the server in one line, which the gateway reads as a
-- message with that text from that nickname: if it is not empty, does not begin with "/" and does not
-- end in a line break, and the nickname of its connection is a word. The broadcast
-- is one frame with that line for every other welcomed client, and none for its own connection or any
-- other descriptor.
pub handle_line-format_chat :
    (fd : ℕ) (u : ℕ) (text : Text) (c : ClientRecord) (server : Server)
    → AreApart server.clients
    → find_client fd server.clients ≡ some c
    → IsWord c.nickname
    → u ≢ b'/'
    → IsStripped (u ∷ text)
    → let line = js "MSG " ++ (c.nickname ++ space ∷ u ∷ text) in
      (handle_line fd (format_chat_line (u ∷ text)) server
        ≡ ((server, broadcasting line (some fd) ∷ []), true))
      × (parse_backend_line line ≡ msg c.nickname (u ∷ text))
      × ((d : ℕ)
          → framed_to d (broadcast line (some fd) server)
            ≡ reaches (some fd) line (find_client d server.clients))
unfolding handle_line act
handle_line-format_chat fd u text c server apart h word plain stripped = (
  rw ((read-format_chat_iff u text).1 (plain, stripped), h) refl,
  parse-render (msg c.nickname (u ∷ text)) word,
  λ d. broadcast_lem d _ (some fd) server apart,
)

none-ne : {A : Type 0} (a : A) → ◌≢◌ {A = Option A} none (some a)
none-ne a h = cc

-- What holds of every client holds of the one that is found.
pub found-All :
    (P : ClientRecord → Type 0) (d : ℕ) (c : ClientRecord) (cs : List ClientRecord)
    → find_client d cs ≡ some c
    → All P cs
    → P c
unfolding find_client find
found-All P d c [] h all_of = absurd (none-ne c h)
found-All P d c (e ∷ cs) h (p, all_of) = elim (Bool-cases (nat_beq e.fd d)) [
  | inl k ↦ subst P (some_inj.0 (rw k at h)) p
  | inr k ↦ found-All P d c cs (rw k at h) all_of
]

-- A welcomed client is the one that is found by its nickname.
find-has_name :
    (d : ℕ) (c : ClientRecord) (cs : List ClientRecord)
    → AreApart cs
    → find_client d cs ≡ some c
    → c.welcomed ≡ true
    → find (has_name c.nickname) cs ≡ some c
unfolding find_client find
find-has_name d c [] apart h w = absurd (none-ne c h)
find-has_name d c (e ∷ cs) (p, apart) h w = elim (Bool-cases (nat_beq e.fd d)) [
  | inl k ↦
      let same = some_inj.0 (rw k at h) in
      subst
        (λ x. (if has_name c.nickname x then some x else find (has_name c.nickname) cs) ≡ some c)
        (sym same) (rw (w, eq_refl c.nickname) refl)
  | inr k ↦
      let (_, other) = found-All (Apart e) d c cs (rw k at h) p in
      ground (arith, eq_iff e.nickname c.nickname, find-has_name d c cs apart (rw k at h) w)
]

pub find_client-fd :
    (d : ℕ) (c : ClientRecord) (cs : List ClientRecord) → find_client d cs ≡ some c → c.fd ≡ d
unfolding find_client find
find_client-fd d c [] h = absurd (none-ne c h)
find_client-fd d c (e ∷ cs) h = elim (Bool-cases (nat_beq e.fd d)) [
  | inl k ↦ subst (λ x. x.fd ≡ d) (some_inj.0 (rw k at h)) ((nat_beq_iff e.fd d).0 k)
  | inr k ↦ find_client-fd d c cs (rw k at h)
]

handle_msg_named :
    (fd : ℕ) (target : Text) (u : ℕ) (text : Text) (c e : ClientRecord) (server : Server)
    → IsName target
    → find_client fd server.clients ≡ some c
    → find (has_name target) server.clients ≡ some e
    → nat_beq e.fd fd ≡ false
    → handle_msg fd target (u ∷ text) server
      ≡ sending e.fd (js "PRIV " ++ (c.nickname ++ space ∷ u ∷ text))
        ∷ sending fd (js "PRIV_SENT " ++ (target ++ space ∷ u ∷ text))
        ∷ []
unfolding handle_msg
handle_msg_named fd [] u text c e server n h k other = absurd n
handle_msg_named fd (t ∷ target) u text c e server n h k other = rw (h, k, other) refl

-- A private message of the gateway to a welcomed client is to be sent to the connection of that client
-- and to no other, and a receipt to its sender; the gateway reads them as the message from the sender's nickname
-- and the receipt of the target's. The text is not empty and does not end in a line break, the two
-- are different clients, clients share no nickname or descriptor, and nicknames are names.
pub handle_line-format_msg :
    (fd d : ℕ) (u : ℕ) (text : Text) (c e : ClientRecord) (server : Server)
    → AreApart server.clients
    → All IsNamed server.clients
    → find_client fd server.clients ≡ some c
    → find_client d server.clients ≡ some e
    → e.welcomed ≡ true
    → nat_beq d fd ≡ false
    → IsStripped (u ∷ text)
    → let to_target = js "PRIV " ++ (c.nickname ++ space ∷ u ∷ text) in
      let to_sender = js "PRIV_SENT " ++ (e.nickname ++ space ∷ u ∷ text) in
      (handle_line fd (format_msg_command e.nickname (u ∷ text)) server
        ≡ ((server, sending d to_target ∷ sending fd to_sender ∷ []), true))
      × (parse_backend_line to_target ≡ priv c.nickname (u ∷ text))
      × (parse_backend_line to_sender ≡ priv_sent e.nickname (u ∷ text))
unfolding handle_line act
handle_line-format_msg fd d u text c e server apart named h k w other stripped =
    let own = find_client-fd d e server.clients k in
    let c_name = found-All IsNamed fd c server.clients h named in
    let e_name = found-All IsNamed d e server.clients k named in
    let found = find-has_name d e server.clients apart k w in
    let jobs =
      handle_msg_named fd e.nickname u text c e server e_name h found
        (ap (λ i. nat_beq i fd) own ∙ other) in
    (
      rw (read-format_msg e.nickname u text (IsWord-of_name e.nickname e_name) stripped, jobs, own)
          refl,
      parse-render (priv c.nickname (u ∷ text)) (IsWord-of_name c.nickname c_name),
      parse-render (priv_sent e.nickname (u ∷ text)) (IsWord-of_name e.nickname e_name),
    )
