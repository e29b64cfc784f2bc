-- ===== src/ChatServer/Threads.antt =====
-- The threads of src/Server.cpp, one job at a time: the accept loop, the clients' threads, sending.
use thread_link.Prelude.{
  ℕ, zero, suc, Bool, true, false, not, ◌&&◌, Option, none, some, List, [], ◌∷◌, ◌++◌, map, ltb,
  leb, nat_beq, if◌then◌else◌, length, keep, Text, js,
}
use thread_link.ChatServer.{
  ServerConfig, ClientRecord, Server, Job, accepting, serving, sending, framing, welcoming,
  spawning, leaving, broadcasting, Input, connection, shutdown, frame, closed_by_peer,
  receive_error, frame_too_large, find_client, is_present, is_empty, assign_default_nickname,
  emplace, modify, mark_welcomed, erase, send_error,
}
use thread_link.ChatServer.Commands.{handle_line}

unfoldable pub accept_one : ServerConfig → ℕ → Server → Server × List Job
unfolding assign_default_nickname emplace
accept_one config fd server =
    let nickname = assign_default_nickname server.clients in
    if leb config.max_clients (length server.clients)
    then (server, framing fd (js "ERR SERVER_FULL Server is full, try again later") ∷ [])
    else (
      record server { clients = emplace fd nickname server.clients },
      sending fd (js "WELCOME " ++ nickname)
          ∷ welcoming fd
          ∷ spawning fd
          ∷ broadcasting (js "SYS " ++ (nickname ++ js " has joined.")) (some fd)
          ∷ [],
    )

abbrev pub farewell : ℕ → Option ClientRecord → List Job
farewell fd none = []
farewell fd (some c) =
    if is_empty c.nickname
    then []
    else broadcasting (js "SYS " ++ (c.nickname ++ js " has left.")) (some fd) ∷ []

-- `handle_client` behind its loop.
unfoldable pub tear_down : ℕ → Server → Server × List Job
unfolding find_client erase
tear_down fd server = (
  record server { clients = erase fd server.clients },
  farewell fd (find_client fd server.clients),
)

-- Behind a line: the next round of the loop, or its end. The record is erased by another job, since
-- what the line sends comes first.
abbrev pub next_round : ℕ → (Server × List Job) × Bool → Server × List Job
next_round fd ((server, jobs), true) = (server, jobs ++ serving fd ∷ [])
next_round fd ((server, jobs), false) = (server, jobs ++ leaving fd ∷ [])

unfoldable pub handle_client : Input → ℕ → Server → Server × List Job
unfolding handle_line
handle_client (frame payload) fd server = next_round fd (handle_line fd payload server)
handle_client frame_too_large fd server = (
  server,
  send_error fd (js "FRAME_TOO_LARGE") (js "Message exceeds the server's maximum size")
      ∷ leaving fd
      ∷ [],
)
handle_client closed_by_peer fd server = (server, leaving fd ∷ [])
handle_client receive_error fd server = (server, leaving fd ∷ [])
handle_client _ fd server = (server, serving fd ∷ [])

abbrev then_accept : Server × List Job → Server × List Job
then_accept (server, jobs) = (server, jobs ++ accepting ∷ [])

-- A connection is accepted; the shutdown ends the loop.
unfoldable pub accept_loop : ServerConfig → Input → Server → Server × List Job
unfolding accept_one
accept_loop config (connection fd) server = then_accept (accept_one config fd server)
accept_loop config shutdown server =
    (server, broadcasting (js "SYS Server is shutting down. Goodbye!") none ∷ [])
accept_loop config _ server = (server, accepting ∷ [])

unfoldable pub send_to_fd : ℕ → Text → Server → List Job
unfolding find_client
send_to_fd fd payload server =
    if is_present (find_client fd server.clients) then framing fd payload ∷ [] else []

-- A payload that is too large is not sent. Its size is in bytes: a text of the server is the bytes of a
-- `std::string`.
unfoldable pub send_frame : ServerConfig → ℕ → Text → Server → Server
send_frame config fd payload server =
    if ltb config.max_message_size (length payload)
    then server
    else record server { wire = server.wire ++ (fd, payload) ∷ [] }

abbrev pub is_left_out : Option ℕ → ℕ → Bool
is_left_out none fd = false
is_left_out (some e) fd = nat_beq fd e

-- The targets are read under the lock, and the frames are sent one by one.
unfoldable pub broadcast : Text → Option ℕ → Server → List Job
unfolding keep
broadcast payload exclude_fd server =
    map (λ c. framing c.fd payload)
      (keep (λ c. not (is_left_out exclude_fd c.fd) && c.welcomed) server.clients)

-- One job of a thread: the server behind it, and what the thread does next.
unfoldable pub run_job : ServerConfig → Input → Job → Server → Server × List Job
unfolding accept_loop handle_client tear_down send_to_fd send_frame modify broadcast
run_job config input accepting server = accept_loop config input server
run_job config input (serving fd) server = handle_client input fd server
run_job config input (leaving fd) server = tear_down fd server
run_job config input (sending fd payload) server = (server, send_to_fd fd payload server)
run_job config input (framing fd payload) server = (send_frame config fd payload server, [])
run_job config input (welcoming fd) server =
    (record server { clients = modify mark_welcomed fd server.clients }, [])
run_job config input (spawning fd) server = (server, [])
run_job config input (broadcasting payload exclude_fd) server =
    (server, broadcast payload exclude_fd server)

-- The threads that a job starts.
abbrev pub spawned : Job → List (List Job)
spawned (spawning fd) = (serving fd ∷ []) ∷ []
spawned _ = []

-- The thread of that number does its next job.
unfoldable pub turn : ServerConfig → Input → ℕ → List (List Job) → Server → Server × List (List Job)
unfolding run_job
turn config input n [] server = (server, [])
turn config input zero ([] ∷ threads) server = (server, [] ∷ threads)
turn config input zero ((job ∷ jobs) ∷ threads) server =
    let (server', next) = run_job config input job server in
    (server', (next ++ jobs) ∷ threads ++ spawned job)
turn config input (suc n) (thread ∷ threads) server =
    let (server', threads') = turn config input n threads server in (server', thread ∷ threads')

-- Any interleaving of the threads, with whatever each is told when it waits.
unfoldable pub interleave :
    ServerConfig → List (ℕ × Input) → Server × List (List Job) → Server × List (List Job)
unfolding turn
interleave config [] (server, threads) = (server, threads)
interleave config ((n, input) ∷ turns) (server, threads) =
    interleave config turns (turn config input n threads server)

-- No client, nothing sent, and the accept loop.
abbrev pub at_start : Server × List (List Job)
at_start = (record { clients = []; wire = [] }, (accepting ∷ []) ∷ [])
