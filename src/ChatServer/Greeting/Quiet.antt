-- ===== src/ChatServer/Greeting/Quiet.antt =====
-- A job that belongs to another descriptor leaves a client that has not been greeted alone.
use thread_link.Prelude.{
  ℕ, refl, ◌∙◌, ◌≢◌, Bool, true, false, inl, inr, Option, none, some, List, [], ◌∷◌, ◌++◌, arith,
  Bool-cases, All, All-append, Text, leb, length, ltb,
}
use thread_link.BackendMessages.Server.{read_line}
use thread_link.ChatServer.{
  ServerConfig, ClientRecord, Server, Job, accepting, serving, sending, framing, welcoming,
  spawning, leaving, broadcasting, Input, connection, shutdown, frame, closed_by_peer,
  receive_error, frame_too_large, find_client, mark_welcomed, assign_default_nickname, send_error,
}
use thread_link.ChatServer.Commands.{act, handle_line}
use thread_link.ChatServer.Threads.{
  farewell, next_round, handle_client, accept_one, accept_loop, tear_down, send_to_fd, send_frame,
  run_job,
}
use thread_link.ChatServer.Unique.{All-erase}
use thread_link.ChatServer.Greeting.{frames_to, IsQuiet, IsHidden, IsOther, Unseen}
use thread_link.ChatServer.Greeting.Hidden.{
  IsHidden-emplace, IsHidden-mark, present-modify, present-erase, present-emplace,
  IsQuiet-broadcast, frames_to-append,
}
use thread_link.ChatServer.Greeting.Answers.{Alone, Alone-same, Alone-act}

module _ (fd : ℕ) where
  Alone-next_round :
      (d : ℕ) (server : Server) (r : (Server × List Job) × Bool)
      → d ≢ fd
      → Alone fd server r.0.0 r.0.1
      → Alone fd server (next_round d r).0 (next_round d r).1
  Alone-next_round d server ((server', jobs), true) ne a = record {
    unseen = a.unseen;
    quiet = All-append (IsQuiet fd) jobs (serving d ∷ []) a.quiet (ne, tt);
    present = a.present;
  }
  Alone-next_round d server ((server', jobs), false) ne a = record {
    unseen = a.unseen;
    quiet = All-append (IsQuiet fd) jobs (leaving d ∷ []) a.quiet (ne, tt);
    present = a.present;
  }

  Alone-handle_client :
      (input : Input) (d : ℕ) (server : Server)
      → d ≢ fd
      → Unseen fd server
      → let r = handle_client input d server in Alone fd server r.0 r.1
  unfolding handle_client handle_line send_error
  Alone-handle_client (frame payload) d server ne u =
      Alone-next_round d server (act d (read_line payload) server) ne
        (Alone-act fd d (read_line payload) server ne u)
  Alone-handle_client frame_too_large d server ne u = Alone-same fd server _ u (ne, (ne, tt))
  Alone-handle_client closed_by_peer d server ne u = Alone-same fd server _ u (ne, tt)
  Alone-handle_client receive_error d server ne u = Alone-same fd server _ u (ne, tt)
  Alone-handle_client (connection _) d server ne u = Alone-same fd server _ u (ne, tt)
  Alone-handle_client shutdown d server ne u = Alone-same fd server _ u (ne, tt)

  Alone-accept_one :
      (config : ServerConfig) (d : ℕ) (server : Server)
      → d ≢ fd
      → Unseen fd server
      → let r = accept_one config d server in Alone fd server r.0 (r.1 ++ accepting ∷ [])
  unfolding accept_one
  Alone-accept_one config d server ne u =
      let name = assign_default_nickname server.clients in
      elim (Bool-cases (leb config.max_clients (length server.clients))) [
        | inl e ↦ rw e (Alone-same fd server _ u (ne, (tt, tt)))
        | inr e ↦ rw e (record {
          unseen = record {
            hidden = IsHidden-emplace fd d name server.clients u.hidden;
            silent = u.silent;
          };
          quiet = (ne, (ne, (ne, (tt, (tt, tt)))));
          present = present-emplace fd d name server.clients ne;
        })
      ]

  IsQuiet-farewell : (d : ℕ) (o : Option ClientRecord) → All (IsQuiet fd) (farewell d o)
  IsQuiet-farewell d none = tt
  IsQuiet-farewell d (some c) = ground arith

  IsQuiet-send_to_fd :
      (d : ℕ) (payload : Text) (server : Server)
      → d ≢ fd
      → All (IsQuiet fd) (send_to_fd d payload server)
  unfolding send_to_fd
  IsQuiet-send_to_fd d payload server ne = ground arith

  Unseen-send_frame :
      (config : ServerConfig) (d : ℕ) (payload : Text) (server : Server)
      → d ≢ fd
      → Unseen fd server
      → Alone fd server (send_frame config d payload server) []
  unfolding send_frame frames_to
  Unseen-send_frame config d payload server ne u =
      elim (Bool-cases (ltb config.max_message_size (length payload))) [
        | inl e ↦ rw e (Alone-same fd server _ u tt)
        | inr e ↦ rw e (record {
          unseen = record {
            hidden = u.hidden;
            silent =
                frames_to-append fd server.wire ((d, payload) ∷ []) ∙ rw u.silent (ground arith);
          };
          quiet = tt;
          present = refl;
        })
      ]

  pub Alone-run_job :
      (config : ServerConfig) (input : Input) (job : Job) (server : Server)
      → IsOther fd input
      → IsQuiet fd job
      → Unseen fd server
      → let r = run_job config input job server in Alone fd server r.0 r.1
  unfolding run_job accept_loop tear_down
  Alone-run_job config (connection d) accepting server o q u = Alone-accept_one config d server o u
  Alone-run_job config shutdown accepting server o q u = Alone-same fd server _ u (tt, tt)
  Alone-run_job config (frame _) accepting server o q u = Alone-same fd server _ u (tt, tt)
  Alone-run_job config closed_by_peer accepting server o q u = Alone-same fd server _ u (tt, tt)
  Alone-run_job config receive_error accepting server o q u = Alone-same fd server _ u (tt, tt)
  Alone-run_job config frame_too_large accepting server o q u = Alone-same fd server _ u (tt, tt)
  Alone-run_job config input (serving d) server o q u = Alone-handle_client input d server q u
  Alone-run_job config input (leaving d) server o q u = record {
    unseen = record {
      hidden = All-erase (IsHidden fd) d server.clients u.hidden;
      silent = u.silent;
    };
    quiet = IsQuiet-farewell d (find_client d server.clients);
    present = present-erase fd d server.clients q;
  }
  Alone-run_job config input (sending d payload) server o q u =
      Alone-same fd server _ u (IsQuiet-send_to_fd d payload server q)
  Alone-run_job config input (framing d payload) server o q u =
      Unseen-send_frame config d payload server q u
  Alone-run_job config input (welcoming d) server o q u = record {
    unseen = record { hidden = IsHidden-mark fd d server.clients q u.hidden; silent = u.silent };
    quiet = tt;
    present = present-modify fd mark_welcomed d server.clients (λ c. refl);
  }
  Alone-run_job config input (spawning d) server o q u = Alone-same fd server _ u tt
  Alone-run_job config input (broadcasting payload exclude_fd) server o q u =
      Alone-same fd server _ u (IsQuiet-broadcast fd payload exclude_fd server u.hidden)
