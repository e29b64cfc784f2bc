-- ===== src/ChatServer/Greeting/Wire.antt =====
-- What was sent stays sent: a job adds frames behind those that were sent before.
use mathlib.Core.List.{append-nil}
use thread_link.Prelude.{
  ℕ, zero, suc, ◌≡◌, refl, sym, ◌∙◌, Bool, true, false, inl, inr, Option, none, some, List, [], ◌∷◌,
  ◌++◌, arith, Bool-cases, Text, length, ltb,
}
use thread_link.BackendMessages.Server.{Action, read_line}
use thread_link.ChatServer.{
  ServerConfig, ClientRecord, Server, Job, accepting, serving, sending, framing, welcoming,
  spawning, leaving, broadcasting, Input, connection, shutdown, frame, closed_by_peer,
  receive_error, frame_too_large, find_client,
}
use thread_link.ChatServer.Commands.{
  store_nickname, set_nickname, words_of, act, handle_nick, handle_line,
}
use thread_link.ChatServer.Threads.{
  next_round, handle_client, accept_one, accept_loop, tear_down, send_frame, run_job, turn,
}

abbrev pub Grown : List (ℕ × Text) → List (ℕ × Text) → Type 0
Grown wire wire' = (more : List (ℕ × Text)) × (wire' ≡ wire ++ more)

Grown-same : (wire wire' : List (ℕ × Text)) → wire' ≡ wire → Grown wire wire'
Grown-same wire wire' e = ([], e ∙ sym (append-nil wire))

wire-change :
    (d : ℕ) (name : Text) (o : Option ClientRecord) (server : Server)
    → (store_nickname d name o server).0.wire ≡ server.wire
wire-change d name none server = refl
wire-change d name (some c) server = refl

wire-set_nickname :
    (d : ℕ) (words : List Text) (server : Server)
    → (set_nickname d words server).0.wire ≡ server.wire
unfolding set_nickname
wire-set_nickname d [] server = refl
wire-set_nickname d (w ∷ v ∷ words) server = refl
wire-set_nickname d (w ∷ []) server =
    ground (arith, wire-change d w (find_client d server.clients) server)

wire-act :
    (d : ℕ) (action : Action) (server : Server) → (act d action server).0.0.wire ≡ server.wire
unfolding act handle_nick
wire-act d (Action.handle_nick args) server = wire-set_nickname d (words_of args) server
wire-act d Action.ignore server = refl
wire-act d Action.leave server = refl
wire-act d Action.send_list server = refl
wire-act d (Action.chat said) server = refl
wire-act d (Action.handle_msg target text) server = refl
wire-act d (Action.bad_cmd cmd) server = refl

wire-next_round : (d : ℕ) (r : (Server × List Job) × Bool) → (next_round d r).0.wire ≡ r.0.0.wire
wire-next_round d ((server, jobs), true) = refl
wire-next_round d ((server, jobs), false) = refl

pub wire-handle_client :
    (input : Input) (d : ℕ) (server : Server) → (handle_client input d server).0.wire ≡ server.wire
unfolding handle_client handle_line
wire-handle_client (frame payload) d server =
    wire-next_round d (act d (read_line payload) server) ∙ wire-act d (read_line payload) server
wire-handle_client frame_too_large d server = refl
wire-handle_client closed_by_peer d server = refl
wire-handle_client receive_error d server = refl
wire-handle_client (connection _) d server = refl
wire-handle_client shutdown d server = refl

pub wire-accept_loop :
    (config : ServerConfig) (input : Input) (server : Server)
    → (accept_loop config input server).0.wire ≡ server.wire
unfolding accept_loop accept_one
wire-accept_loop config (connection d) server = ground arith
wire-accept_loop config shutdown server = refl
wire-accept_loop config (frame _) server = refl
wire-accept_loop config closed_by_peer server = refl
wire-accept_loop config receive_error server = refl
wire-accept_loop config frame_too_large server = refl

Grown-send_frame :
    (config : ServerConfig) (d : ℕ) (payload : Text) (server : Server)
    → Grown server.wire (send_frame config d payload server).wire
unfolding send_frame
Grown-send_frame config d payload server =
    elim (Bool-cases (ltb config.max_message_size (length payload))) [
      | inl e ↦ rw e (Grown-same server.wire server.wire refl)
      | inr e ↦ rw e ((d, payload) ∷ [], refl)
    ]

Grown-run_job :
    (config : ServerConfig) (input : Input) (job : Job) (server : Server)
    → Grown server.wire (run_job config input job server).0.wire
unfolding run_job tear_down
Grown-run_job config input accepting server =
    Grown-same server.wire _ (wire-accept_loop config input server)
Grown-run_job config input (serving d) server =
    Grown-same server.wire _ (wire-handle_client input d server)
Grown-run_job config input (leaving d) server = Grown-same server.wire _ refl
Grown-run_job config input (sending d payload) server = Grown-same server.wire _ refl
Grown-run_job config input (framing d payload) server = Grown-send_frame config d payload server
Grown-run_job config input (welcoming d) server = Grown-same server.wire _ refl
Grown-run_job config input (spawning d) server = Grown-same server.wire _ refl
Grown-run_job config input (broadcasting payload exclude_fd) server = Grown-same server.wire _ refl

pub Grown-turn :
    (config : ServerConfig) (input : Input) (n : ℕ) (threads : List (List Job)) (server : Server)
    → Grown server.wire (turn config input n threads server).0.wire
unfolding turn
Grown-turn config input n [] server = Grown-same server.wire _ refl
Grown-turn config input zero ([] ∷ threads) server = Grown-same server.wire _ refl
Grown-turn config input zero ((job ∷ jobs) ∷ threads) server = Grown-run_job config input job server
Grown-turn config input (suc n) (thread ∷ threads) server = Grown-turn config input n threads server
