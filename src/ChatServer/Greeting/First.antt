-- ===== src/ChatServer/Greeting/First.antt =====
-- What is first on the wire of a client, whatever the other threads do meanwhile.
use thread_link.Prelude.{
  ℕ, zero, suc, ◌<◌, ◌≡◌, refl, sym, ap, ◌∙◌, subst, Bool, true, false, inl, inr, ◌⊎◌, List, [],
  ◌∷◌, ◌++◌, arith, Bool-cases, All, All-append, Text, js, leb, length, length-decimal_le,
}
use thread_link.ChatServer.{
  ServerConfig, Server, Job, accepting, serving, sending, framing, welcoming, spawning, leaving,
  broadcasting, Input, connection, shutdown, assign_default_nickname,
}
use thread_link.ChatServer.Threads.{
  accept_one, accept_loop, send_to_fd, send_frame, run_job, spawned, turn,
}
use thread_link.ChatServer.Names.{assign_default_nickname_lem}
use thread_link.ChatServer.Greeting.{IsConfigured, frames_to, IsGreeted, IsQuiet, IsOther, Unseen}
use thread_link.ChatServer.Greeting.Hidden.{IsHidden-emplace, present-emplaced, frames_to-append}
use thread_link.ChatServer.Greeting.Answers.{Alone}
use thread_link.ChatServer.Greeting.Quiet.{Alone-run_job}
use thread_link.ChatServer.Greeting.Others.{
  AreQuiet, Answer, Greets, OneGreets, present_in, quiet-spawned, OneGreets-append, Still-turn,
}

module _ (config : ServerConfig) (fd : ℕ) (large : IsConfigured config) where
  -- Behind a turn: the descriptor is as unknown as before, or a thread is about to greet it.
  abbrev pub Reached : Server → List (List Job) → Type 0
  Reached server threads =
      Unseen fd server
      × (AreQuiet config fd threads ⊎ OneGreets config fd (present_in config fd server) threads)

  -- The welcome is short enough to be sent, as the number in it is at most `max_clients`.
  welcome-fits :
      (server : Server)
      → leb config.max_clients (length server.clients) ≡ false
      → Answer config fd fd (js "WELCOME " ++ assign_default_nickname server.clients)
  welcome-fits server room =
      let (n, _, few, chosen, _, _) = assign_default_nickname_lem server.clients in
      let room_left : length server.clients < config.max_clients = ground (arith, room) in
      let small : n < 100000 = omega (arith, large.1, few, room_left) in
      record {
        own = refl;
        greets = inl (n, ap (λ s. js "WELCOME " ++ s) chosen);
        fits = rw chosen (omega (arith, large.0, length-decimal_le n 4 small));
      }

  connect-accept :
      (server : Server)
      → Unseen fd server
      → let r = accept_loop config (connection fd) server in
        Unseen fd r.0 × Greets config fd (present_in config fd r.0) r.1
  unfolding accept_loop accept_one
  connect-accept server u =
      let name = assign_default_nickname server.clients in
      elim (Bool-cases (leb config.max_clients (length server.clients))) [
        | inl e ↦ rw e (u, record { own = refl; greets = inr refl; fits = omega (arith, large) })
        | inr e ↦ rw e (
          record {
            hidden = IsHidden-emplace fd fd name server.clients u.hidden;
            silent = u.silent;
          },
          (welcome-fits server e, present-emplaced fd name server.clients),
        )
      ]

  Greets-append :
      (present : Bool) (next jobs : List Job)
      → Greets config fd present next
      → Greets config fd present (next ++ jobs)
  Greets-append present (sending d payload ∷ next) jobs g = g
  Greets-append present (framing d payload ∷ next) jobs g = g
  Greets-append present [] jobs g = absurd g
  Greets-append present (accepting ∷ next) jobs g = absurd g
  Greets-append present (serving d ∷ next) jobs g = absurd g
  Greets-append present (leaving d ∷ next) jobs g = absurd g
  Greets-append present (welcoming d ∷ next) jobs g = absurd g
  Greets-append present (spawning d ∷ next) jobs g = absurd g
  Greets-append present (broadcasting payload exclude_fd ∷ next) jobs g = absurd g

  -- Only the accept loop takes the connection.
  connect-job :
      (job : Job) (server : Server)
      → IsQuiet fd job
      → Unseen fd server
      → let r = run_job config (connection fd) job server in
        Alone fd server r.0 r.1 ⊎ (Unseen fd r.0 × Greets config fd (present_in config fd r.0) r.1)
  unfolding run_job
  connect-job accepting server q u = inr (connect-accept server u)
  connect-job (serving d) server q u =
      inl (Alone-run_job fd config shutdown (serving d) server tt q u)
  connect-job (leaving d) server q u =
      inl (Alone-run_job fd config shutdown (leaving d) server tt q u)
  connect-job (sending d payload) server q u =
      inl (Alone-run_job fd config shutdown (sending d payload) server tt q u)
  connect-job (framing d payload) server q u =
      inl (Alone-run_job fd config shutdown (framing d payload) server tt q u)
  connect-job (welcoming d) server q u =
      inl (Alone-run_job fd config shutdown (welcoming d) server tt q u)
  connect-job (spawning d) server q u =
      inl (Alone-run_job fd config shutdown (spawning d) server tt q u)
  connect-job (broadcasting payload e) server q u =
      inl (Alone-run_job fd config shutdown (broadcasting payload e) server tt q u)

  pub connect-turn :
      (n : ℕ) (threads : List (List Job)) (server : Server)
      → Unseen fd server
      → AreQuiet config fd threads
      → let r = turn config (connection fd) n threads server in Reached r.0 r.1
  unfolding turn
  connect-turn n [] server u q = (u, inl tt)
  connect-turn zero ([] ∷ threads) server u q = (u, inl q)
  connect-turn zero ((job ∷ jobs) ∷ threads) server u ((qj, qs), q) =
      let others =
        All-append (All (IsQuiet fd)) threads (spawned job) q (quiet-spawned config fd job qj) in
      elim (connect-job job server qj u) [
        | inl a ↦ (a.unseen, inl (All-append (IsQuiet fd) _ jobs a.quiet qs, others))
        | inr (v, g) ↦ (v, inr (inl (Greets-append _ _ jobs g, others)))
      ]
  connect-turn (suc n) (thread ∷ threads) server u (qt, q) =
      let (v, r) = connect-turn n threads server u q in
      elim r [ inl qs ↦ (v, inl (qt, qs)) | inr g ↦ (v, inr (inr (qt, g))) ]

  abbrev pub Greeted : Server → Type 0
  Greeted server = IsGreeted (frames_to fd server.wire)

  Greeted-send_frame :
      (d : ℕ) (payload : Text) (server : Server)
      → Unseen fd server
      → Answer config fd d payload
      → Greeted (send_frame config d payload server)
  unfolding send_frame frames_to
  Greeted-send_frame d payload server u a =
      let sent : send_frame config d payload server
          ≡ record server { wire = server.wire ++ (d, payload) ∷ [] } =
        ground (arith, a.fits) in
      let own : frames_to fd (server.wire ++ (d, payload) ∷ []) ≡ payload ∷ [] =
        frames_to-append fd server.wire ((d, payload) ∷ []) ∙ ground (arith, u.silent, a.own) in
      subst Greeted (sym sent) (subst IsGreeted (sym own) a.greets)

  send-present :
      (payload : Text) (server : Server)
      → present_in config fd server ≡ true
      → send_to_fd fd payload server ≡ framing fd payload ∷ []
  unfolding send_to_fd
  send-present payload server p = rw p refl

  -- The greeting goes on, or is done.
  abbrev pub Goes : Server → List (List Job) → Type 0
  Goes server threads =
      (Unseen fd server × OneGreets config fd (present_in config fd server) threads)
      ⊎ Greeted server

  pub greets-turn :
      (input : Input) (n : ℕ) (threads : List (List Job)) (server : Server)
      → IsOther fd input
      → Unseen fd server
      → OneGreets config fd (present_in config fd server) threads
      → let r = turn config input n threads server in Goes r.0 r.1
  unfolding turn run_job send_to_fd
  greets-turn input n [] server o u g = absurd g
  greets-turn input zero ([] ∷ threads) server o u g = inl (u, g)
  greets-turn input zero ((sending d payload ∷ jobs) ∷ threads) server o u (inl ((a, p), q)) =
      let next : send_to_fd d payload server ≡ framing d payload ∷ [] =
        subst (λ e. send_to_fd e payload server ≡ framing e payload ∷ []) (sym a.own)
          (send-present payload server p) in
      inl (
        u,
        inl (
          subst (λ l. Greets config fd (present_in config fd server) (l ++ jobs)) (sym next) a,
          All-append (All (IsQuiet fd)) threads [] q tt,
        ),
      )
  greets-turn input zero ((accepting ∷ jobs) ∷ threads) server o u (inl (g, q)) = absurd g
  greets-turn input zero ((serving d ∷ jobs) ∷ threads) server o u (inl (g, q)) = absurd g
  greets-turn input zero ((leaving d ∷ jobs) ∷ threads) server o u (inl (g, q)) = absurd g
  greets-turn input zero ((welcoming d ∷ jobs) ∷ threads) server o u (inl (g, q)) = absurd g
  greets-turn input zero ((spawning d ∷ jobs) ∷ threads) server o u (inl (g, q)) = absurd g
  greets-turn input zero ((broadcasting payload e ∷ jobs) ∷ threads) server o u (inl (g, q)) =
      absurd g
  greets-turn input zero ((framing d payload ∷ jobs) ∷ threads) server o u (inl (a, q)) =
      inr (Greeted-send_frame d payload server u a)
  greets-turn input zero ((job ∷ jobs) ∷ threads) server o u (inr ((qj, qs), g)) =
      let a = Alone-run_job fd config input job server o qj u in
      inl (
        a.unseen,
        inr (
          All-append (IsQuiet fd) _ jobs a.quiet qs,
          OneGreets-append config fd _ threads (spawned job)
              (subst (λ b. OneGreets config fd b threads) (sym a.present) g)
              (quiet-spawned config fd job qj),
        ),
      )
  greets-turn input (suc n) (thread ∷ threads) server o u (inl (g, q)) =
      let s = Still-turn config fd input n threads server o u q in
      inl (s.unseen, inl (subst (λ b. Greets config fd b thread) (sym s.same) g, s.quiet))
  greets-turn input (suc n) (thread ∷ threads) server o u (inr (qt, g)) =
      elim (greets-turn input n threads server o u g) [
        | inl (v, h) ↦ inl (v, inr (qt, h))
        | inr w ↦ inr w
      ]
