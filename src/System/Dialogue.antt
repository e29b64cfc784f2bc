-- ===== src/System/Dialogue.antt =====
-- The login as a dialogue of the gateway and the server over one connection.
use thread_link.Prelude.{
  ℕ, ◌≡◌, refl, sym, ap, ◌∙◌, subst, true, false, none, some, List, [], ◌∷◌, ◌++◌, arith, leb,
  nat_beq_iff, length, Text, js, ◌==◌,
}
use thread_link.Protocol.{error}
use thread_link.BackendMessages.{space, format_nick_command, parse_backend_line, welcome, nick}
use thread_link.BackendMessages.RoundTrip.{IsWord, parse-render}
use thread_link.Users.{UserRecord, validate_username}
use thread_link.Sessions.{find_session}
use thread_link.Environment.{Environment}
use thread_link.Gateway.{Gateway, backend_opened, line, sent, ws_closed, send_to, close_ws}
use thread_link.Gateway.Login.{is_in_use, sign_in}
use thread_link.Gateway.BackendEvents.{on_err, on_backend_event, conflict_message}
use thread_link.Gateway.Steps.{backend_up, backend_says, step}
use thread_link.Gateway.LoginRun.{IsReady, login_run-IsReady}
use thread_link.ChatServer.{
  ServerConfig, ClientRecord, Server, Job, sending, welcoming, spawning, broadcasting, find_client,
  assign_default_nickname, modify, rename_to,
}
use thread_link.ChatServer.Names.{assign_default_nickname_lem}
use thread_link.ChatServer.Commands.{is_taken_by_other, handle_line}
use thread_link.ChatServer.Threads.{accept_one, broadcast}
use thread_link.ChatServer.Unique.{AreApart, AreApart-rename}
use thread_link.ChatServer.Named.{IsName, IsWord-of_name, default_nickname-IsName}
use thread_link.ChatServer.Nicknames.{
  find_client-rename, handle_line-format_nick, handle_line-format_nick_taken,
}
use thread_link.ChatServer.Delivery.{framed_to, broadcast_lem}

abbrev pub welcome_line : Server → Text
welcome_line server = js "WELCOME " ++ assign_default_nickname server.clients

abbrev pub nick_line : Text → Text → Text
nick_line old_nick new_nick = js "NICK " ++ (old_nick ++ space ∷ new_nick)

-- The gateway from the account on, told two lines of the server.
abbrev pub told_lines : Environment → ℕ → ℕ → UserRecord → Text → Text → Gateway → Gateway
told_lines env limit r account first second g =
    let g₁ = sign_in r account g in
    let g₂ = step env limit g₁ (backend_up r) in
    let g₃ = step env limit g₂ (backend_says r (parse_backend_line first)) in
    step env limit g₃ (backend_says r (parse_backend_line second))

-- The client of a connection after its nickname has been changed.
abbrev pub renamed : ℕ → Text → Server → Server
renamed fd name server = record server { clients = modify (rename_to name) fd server.clients }

find_client-renamed :
    (fd : ℕ) (name : Text) (c : ClientRecord) (cs : List ClientRecord)
    → find_client fd cs ≡ some c
    → find_client fd (modify (rename_to name) fd cs) ≡ some (rename_to name c)
find_client-renamed fd name c cs h =
    find_client-rename fd fd name c cs h ∙ rw ((nat_beq_iff fd fd).1 refl) refl

accept_first :
    (config : ServerConfig) (fd : ℕ) (server : Server)
    → leb config.max_clients (length server.clients) ≡ false
    → (rest : List Job) × ((accept_one config fd server).1
        ≡ sending fd (welcome_line server) ∷ rest)
unfolding accept_one
accept_first config fd server room =
    let joined = js "SYS " ++ (assign_default_nickname server.clients ++ js " has joined.") in
    (welcoming fd ∷ spawning fd ∷ broadcasting joined (some fd) ∷ [], rw room refl)

-- The login succeeds over the real lines. A server that has room accepts the connection and first
-- sends its WELCOME; the gateway answers with its nickname command; at that time the client has been
-- welcomed and no other has the username, whatever else has happened; the server renames the client and
-- sends one NICK line over this connection. Then the gateway has told the browser `ready`. The username is
-- valid and not the nickname in WELCOME, no two clients share a nickname, the account is not in use,
-- and the session is open and as new.
pub told_lines-IsReady :
    (config : ServerConfig) (fd : ℕ) (server later : Server) (k : ClientRecord) (env : Environment)
    (limit r : ℕ) (account : UserRecord) (g : Gateway) (c : ℕ) (s : Text)
    → leb config.max_clients (length server.clients) ≡ false
    → find_client fd later.clients ≡ some k
    → k.nickname ≡ assign_default_nickname server.clients
    → k.welcomed ≡ true
    → AreApart later.clients
    → is_taken_by_other fd (c ∷ s) later.clients ≡ false
    → account.username ≡ c ∷ s
    → validate_username (c ∷ s) ≡ none
    → ((c ∷ s) == assign_default_nickname server.clients) ≡ false
    → is_in_use (find_session account.id g.roster) g.heap ≡ false
    → (g.heap r).ws_open ≡ true
    → (g.heap r).ready_announced ≡ false
    → (g.heap r).pending ≡ []
    → let first = welcome_line server in
      let asked = format_nick_command (c ∷ s) in
      let second = nick_line (assign_default_nickname server.clients) (c ∷ s) in
      ((rest : List Job) × ((accept_one config fd server).1 ≡ sending fd first ∷ rest))
      × (handle_line fd asked later
          ≡ ((renamed fd (c ∷ s) later, broadcasting second none ∷ []), true))
      × (framed_to fd (broadcast second none (renamed fd (c ∷ s) later)) ≡ second ∷ [])
      × IsReady r account
          ((g.log ++ backend_opened r ∷ []) ++ line r asked ∷ [])
          (told_lines env limit r account first second g)
told_lines-IsReady config fd server later k env limit r account g c s room found at_first welcomed
      apart free named valid other unused is_open not_ready idle =
    let name = assign_default_nickname server.clients in
    let (_, _, _, chosen, _, _) = assign_default_nickname_lem server.clients in
    let word : IsWord name =
      IsWord-of_name name (subst IsName (sym chosen) (default_nickname-IsName _)) in
    let (granted, read) =
      subst
        (λ n.
          (handle_line fd (format_nick_command (c ∷ s)) later
            ≡ ((renamed fd (c ∷ s) later, broadcasting (nick_line n (c ∷ s)) none ∷ []), true))
          × (parse_backend_line (nick_line n (c ∷ s)) ≡ nick n (c ∷ s)))
        at_first
        (handle_line-format_nick fd c s k later valid found (subst IsWord (sym at_first) word)
          free) in
    let read_first : parse_backend_line (welcome_line server) ≡ welcome name =
      parse-render (welcome name) tt in
    let read_second : parse_backend_line (nick_line name (c ∷ s)) ≡ nick name account.username =
      read ∙ ap (nick name) (sym named) in
    (
      accept_first config fd server room,
      granted,
      broadcast_lem fd (nick_line name (c ∷ s)) none (renamed fd (c ∷ s) later)
            (AreApart-rename fd (c ∷ s) later.clients free apart)
          ∙ rw (find_client-renamed fd (c ∷ s) k later.clients found, welcomed) refl,
      rw (read_first, read_second)
          (login_run-IsReady env limit r account name g c s named other unused is_open not_ready
            idle),
    )

taken_gateway :
    (env : Environment) (r : ℕ) (text : Text) (g : Gateway)
    → (g.heap r).ws_open ≡ true
    → (g.heap r).ready_announced ≡ false
    → let g' = on_err env r (js "NICK_TAKEN") text g in
      (g'.log
        ≡ (g.log ++ sent r (error (js "LOGIN_FAILED") (conflict_message env) none) ∷ [])
          ++ ws_closed r 1011 ∷ [])
      × ((g'.heap r).ws_open ≡ false)
unfolding on_err send_to close_ws ◌==◌
taken_gateway env r text g is_open not_ready = ground (arith, (nat_beq_iff r r).1 refl)

-- The login fails over the real lines, if another client of the server has the username: the server
-- answers the gateway's nickname command with one error and changes nothing, and the gateway, told that
-- error by a session that is open and not ready, tells the browser LOGIN_FAILED and closes its WebSocket.
pub taken_name_lem :
    (fd : ℕ) (server : Server) (env : Environment) (limit r : ℕ) (g : Gateway) (c : ℕ) (s : Text)
    → is_taken_by_other fd (c ∷ s) server.clients ≡ true
    → validate_username (c ∷ s) ≡ none
    → (g.heap r).ws_open ≡ true
    → (g.heap r).ready_announced ≡ false
    → let text = js "Nickname '" ++ ((c ∷ s) ++ js "' is already in use") in
      let answer = js "ERR " ++ (js "NICK_TAKEN" ++ space ∷ text) in
      let g' = step env limit g (backend_says r (parse_backend_line answer)) in
      (handle_line fd (format_nick_command (c ∷ s)) server
        ≡ ((server, sending fd answer ∷ []), true))
      × (g'.log
          ≡ (g.log ++ sent r (error (js "LOGIN_FAILED") (conflict_message env) none) ∷ [])
            ++ ws_closed r 1011 ∷ [])
      × ((g'.heap r).ws_open ≡ false)
unfolding step on_backend_event
taken_name_lem fd server env limit r g c s taken valid is_open not_ready =
    let (refused, read) = handle_line-format_nick_taken fd c s server valid taken in
    let (logged, ended) =
      taken_gateway env r (js "Nickname '" ++ ((c ∷ s) ++ js "' is already in use")) g is_open
        not_ready in
    (refused, rw read logged, rw read ended)
