-- ===== src/ChatServer/Interleaved.antt =====
-- A predicate of the clients that every change of them keeps holds in every interleaving.
use thread_link.Prelude.{
  ℕ, zero, suc, ◌≡◌, refl, sym, subst, Bool, true, false, inl, inr, Option, none, some, List, [],
  ◌∷◌, arith, Bool-cases, length, Text, leb,
}
use thread_link.BackendMessages.Server.{Action, read_line}
use thread_link.ChatServer.{
  ServerConfig, ClientRecord, Server, Job, accepting, serving, sending, framing, welcoming,
  spawning, leaving, broadcasting, Input, connection, shutdown, frame, closed_by_peer,
  receive_error, frame_too_large, find_client, assign_default_nickname, emplace, modify, rename_to,
  mark_welcomed, erase,
}
use thread_link.ChatServer.Commands.{
  store_nickname, handle_line, handle_nick, set_nickname, act, words_of, is_valid_nickname,
  is_taken_by_other,
}
use thread_link.ChatServer.Threads.{
  send_frame, next_round, run_job, turn, interleave, tear_down, accept_loop, accept_one,
  handle_client,
}

-- What the changes are: a new client under the nickname that is assigned, a valid nickname that no
-- other client has, the mark behind WELCOME, and the end of a client.
pub record Keeps (K : List ClientRecord → Type 0) : Type 0 where
  pub emplaced :
      (fd : ℕ) (cs : List ClientRecord) → K cs → K (emplace fd (assign_default_nickname cs) cs)
  pub renamed :
      (fd : ℕ) (name : Text) (cs : List ClientRecord)
      → is_valid_nickname name ≡ true
      → is_taken_by_other fd name cs ≡ false
      → K cs
      → K (modify (rename_to name) fd cs)
  pub marked : (fd : ℕ) (cs : List ClientRecord) → K cs → K (modify mark_welcomed fd cs)
  pub erased : (fd : ℕ) (cs : List ClientRecord) → K cs → K (erase fd cs)

module _ (K : List ClientRecord → Type 0) (k : Keeps K) where
  accept_one-keeps :
      (config : ServerConfig) (fd : ℕ) (server : Server)
      → K server.clients
      → K (accept_one config fd server).0.clients
  unfolding accept_one
  accept_one-keeps config fd server h =
      elim (Bool-cases (leb config.max_clients (length server.clients))) [
        | inl e ↦ rw e h
        | inr e ↦ rw e (k.emplaced fd server.clients h)
      ]

  change-keeps :
      (fd : ℕ) (name : Text) (o : Option ClientRecord) (server : Server)
      → K server.clients
      → is_valid_nickname name ≡ true
      → is_taken_by_other fd name server.clients ≡ false
      → K (store_nickname fd name o server).0.clients
  change-keeps fd name none server h valid free = h
  change-keeps fd name (some c) server h valid free = k.renamed fd name server.clients valid free h

  set_nickname-keeps :
      (fd : ℕ) (words : List Text) (server : Server)
      → K server.clients
      → K (set_nickname fd words server).0.clients
  unfolding set_nickname
  set_nickname-keeps fd [] server h = h
  set_nickname-keeps fd (w ∷ []) server h = elim (Bool-cases (is_valid_nickname w)) [
    | inl e ↦ elim (Bool-cases (is_taken_by_other fd w server.clients)) [
      | inl j ↦ rw (e, j) h
      | inr j ↦ rw (e, j) (change-keeps fd w (find_client fd server.clients) server h e j)
    ]
    | inr e ↦ rw e h
  ]
  set_nickname-keeps fd (w ∷ v ∷ words) server h = h

  act-keeps :
      (fd : ℕ) (action : Action) (server : Server)
      → K server.clients
      → K (act fd action server).0.0.clients
  unfolding act handle_nick
  act-keeps fd (Action.handle_nick args) server h = set_nickname-keeps fd (words_of args) server h
  act-keeps fd Action.ignore server h = h
  act-keeps fd Action.leave server h = h
  act-keeps fd Action.send_list server h = h
  act-keeps fd (Action.chat said) server h = h
  act-keeps fd (Action.handle_msg target text) server h = h
  act-keeps fd (Action.bad_cmd cmd) server h = h

  clients-next_round :
      (fd : ℕ) (r : (Server × List Job) × Bool) → (next_round fd r).0.clients ≡ r.0.0.clients
  clients-next_round fd ((server, jobs), true) = refl
  clients-next_round fd ((server, jobs), false) = refl

  handle_client-keeps :
      (input : Input) (fd : ℕ) (server : Server)
      → K server.clients
      → K (handle_client input fd server).0.clients
  unfolding handle_client handle_line
  handle_client-keeps (frame payload) fd server h =
      subst K (sym (clients-next_round fd (act fd (read_line payload) server)))
        (act-keeps fd (read_line payload) server h)
  handle_client-keeps (connection _) fd server h = h
  handle_client-keeps shutdown fd server h = h
  handle_client-keeps closed_by_peer fd server h = h
  handle_client-keeps receive_error fd server h = h
  handle_client-keeps frame_too_large fd server h = h

  run_job-keeps :
      (config : ServerConfig) (input : Input) (job : Job) (server : Server)
      → K server.clients
      → K (run_job config input job server).0.clients
  unfolding run_job accept_loop tear_down send_frame
  run_job-keeps config (connection fd) accepting server h = accept_one-keeps config fd server h
  run_job-keeps config shutdown accepting server h = h
  run_job-keeps config (frame _) accepting server h = h
  run_job-keeps config closed_by_peer accepting server h = h
  run_job-keeps config receive_error accepting server h = h
  run_job-keeps config frame_too_large accepting server h = h
  run_job-keeps config input (serving fd) server h = handle_client-keeps input fd server h
  run_job-keeps config input (leaving fd) server h = k.erased fd server.clients h
  run_job-keeps config input (sending fd payload) server h = h
  run_job-keeps config input (framing fd payload) server h = ground arith
  run_job-keeps config input (welcoming fd) server h = k.marked fd server.clients h
  run_job-keeps config input (spawning fd) server h = h
  run_job-keeps config input (broadcasting payload exclude_fd) server h = h

  turn-keeps :
      (config : ServerConfig) (input : Input) (n : ℕ) (threads : List (List Job)) (server : Server)
      → K server.clients
      → K (turn config input n threads server).0.clients
  unfolding turn
  turn-keeps config input n [] server h = h
  turn-keeps config input zero ([] ∷ threads) server h = h
  turn-keeps config input zero ((job ∷ jobs) ∷ threads) server h =
      run_job-keeps config input job server h
  turn-keeps config input (suc n) (thread ∷ threads) server h =
      turn-keeps config input n threads server h

  pub interleave-keeps :
      (config : ServerConfig) (turns : List (ℕ × Input)) (server : Server)
      (threads : List (List Job))
      → K server.clients
      → K (interleave config turns (server, threads)).0.clients
  unfolding interleave
  interleave-keeps config [] server threads h = h
  interleave-keeps config ((n, input) ∷ turns) server threads h =
      interleave-keeps config turns _ _ (turn-keeps config input n threads server h)
