-- ===== src/ChatServer/Greeting/Others.antt =====
-- The threads that have nothing to do with a descriptor, while it is greeted.
use thread_link.Prelude.{
  ℕ, zero, suc, ◌≤◌, ◌≡◌, refl, Bool, true, inl, inr, ◌⊎◌, List, [], ◌∷◌, ◌++◌, All, All-append,
  Text, length,
}
use thread_link.ChatServer.{
  ServerConfig, Server, Job, accepting, serving, sending, framing, welcoming, spawning, leaving,
  broadcasting, Input, find_client, is_present,
}
use thread_link.ChatServer.Threads.{spawned, turn}
use thread_link.ChatServer.Greeting.{IsGreeting, IsQuiet, IsOther, Unseen}
use thread_link.ChatServer.Greeting.Quiet.{Alone-run_job}

module _ (config : ServerConfig) (fd : ℕ) where
  abbrev pub AreQuiet : List (List Job) → Type 0
  AreQuiet = All (All (IsQuiet fd))

  pub record Answer (d : ℕ) (payload : Text) : Type 0 where
    pub own : d ≡ fd
    pub greets : IsGreeting payload
    pub fits : length payload ≤ config.max_message_size

  -- The thread is about to greet the descriptor, which has a client if that is asked for.
  abbrev pub Greets : Bool → List Job → Type 0
  Greets present (sending d payload ∷ jobs) = Answer d payload × (present ≡ true)
  Greets present (framing d payload ∷ jobs) = Answer d payload
  Greets present _ = ⊥

  -- One thread is about to greet the descriptor, and the others have nothing to do with it.
  abbrev pub OneGreets : Bool → List (List Job) → Type 0
  OneGreets present [] = ⊥
  OneGreets present (thread ∷ threads) =
      (Greets present thread × AreQuiet threads)
      ⊎ (All (IsQuiet fd) thread × OneGreets present threads)

  abbrev pub present_in : Server → Bool
  present_in server = is_present (find_client fd server.clients)

  pub quiet-spawned : (job : Job) → IsQuiet fd job → AreQuiet (spawned job)
  quiet-spawned (spawning d) q = ((q, tt), tt)
  quiet-spawned accepting q = tt
  quiet-spawned (serving d) q = tt
  quiet-spawned (leaving d) q = tt
  quiet-spawned (sending d payload) q = tt
  quiet-spawned (framing d payload) q = tt
  quiet-spawned (welcoming d) q = tt
  quiet-spawned (broadcasting payload exclude_fd) q = tt

  pub OneGreets-append :
      (present : Bool) (threads more : List (List Job))
      → OneGreets present threads
      → AreQuiet more
      → OneGreets present (threads ++ more)
  OneGreets-append present [] more h q = absurd h
  OneGreets-append present (thread ∷ threads) more (inl (g, h)) q =
      inl (g, All-append (All (IsQuiet fd)) threads more h q)
  OneGreets-append present (thread ∷ threads) more (inr (h, g)) q =
      inr (h, OneGreets-append present threads more g q)

  pub record Still (server : Server) (threads : List (List Job)) (present : Bool) : Type 0 where
    pub unseen : Unseen fd server
    pub quiet : AreQuiet threads
    pub same : present_in server ≡ present

  pub Still-turn :
      (input : Input) (n : ℕ) (threads : List (List Job)) (server : Server)
      → IsOther fd input
      → Unseen fd server
      → AreQuiet threads
      → let r = turn config input n threads server in Still r.0 r.1 (present_in server)
  unfolding turn
  Still-turn input n [] server o u q = record { unseen = u; quiet = tt; same = refl }
  Still-turn input zero ([] ∷ threads) server o u q = record { unseen = u; quiet = q; same = refl }
  Still-turn input zero ((job ∷ jobs) ∷ threads) server o u ((qj, qs), q) =
      let a = Alone-run_job fd config input job server o qj u in
      record {
        unseen = a.unseen;
        quiet = (
          All-append (IsQuiet fd) _ jobs a.quiet qs,
          All-append (All (IsQuiet fd)) threads (spawned job) q (quiet-spawned job qj),
        );
        same = a.present;
      }
  Still-turn input (suc n) (thread ∷ threads) server o u (qt, q) =
      let s = Still-turn input n threads server o u q in
      record { unseen = s.unseen; quiet = (qt, s.quiet); same = s.same }
