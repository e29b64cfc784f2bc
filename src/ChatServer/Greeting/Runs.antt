-- ===== src/ChatServer/Greeting/Runs.antt =====
-- The first frame, in every interleaving of the threads.
use thread_link.Prelude.{
  ℕ, subst, ◌⊎◌, ◌≡◌, refl, sym, ap, ◌∙◌, inl, inr, List, [], ◌∷◌, ◌++◌, All, Text,
}
use thread_link.ChatServer.{ServerConfig, Server, Job, Input, connection}
use thread_link.ChatServer.Threads.{turn, interleave, at_start}
use thread_link.ChatServer.Greeting.{
  IsConfigured, frames_to, IsGreeted, StartsWell, IsOther, Unseen,
}
use thread_link.ChatServer.Greeting.Hidden.{frames_to-append}
use thread_link.ChatServer.Greeting.Others.{AreQuiet, Still-turn}
use thread_link.ChatServer.Greeting.Wire.{Grown-turn}
use thread_link.ChatServer.Greeting.First.{connect-turn, Greeted, Goes, greets-turn}

-- The descriptor is the number of no connection among the inputs.
abbrev pub IsNeverAccepted : ℕ → List (ℕ × Input) → Type 0
IsNeverAccepted fd = All (λ t. IsOther fd t.1)

-- It is the number of one connection at most.
abbrev pub IsAcceptedOnce : ℕ → List (ℕ × Input) → Type 0
IsAcceptedOnce fd [] = Unit
IsAcceptedOnce fd ((n, input) ∷ turns) =
    (IsOther fd input × IsAcceptedOnce fd turns)
    ⊎ ((input ≡ connection fd) × IsNeverAccepted fd turns)

IsGreeted-append : (l more : List Text) → IsGreeted l → IsGreeted (l ++ more)
IsGreeted-append [] more h = absurd h
IsGreeted-append (payload ∷ l) more h = h

starts_well : (l : List Text) → IsGreeted l → StartsWell l
starts_well [] h = tt
starts_well (payload ∷ l) h = h

module _ (config : ServerConfig) (fd : ℕ) (large : IsConfigured config) where
  abbrev IsFine : Server × List (List Job) → Type 0
  IsFine (server, threads) = StartsWell (frames_to fd server.wire)

  fine-Unseen : (server : Server) → Unseen fd server → StartsWell (frames_to fd server.wire)
  fine-Unseen server u = subst StartsWell (sym u.silent) tt

  Greeted-turn :
      (input : Input) (n : ℕ) (threads : List (List Job)) (server : Server)
      → Greeted config fd large server
      → Greeted config fd large (turn config input n threads server).0
  Greeted-turn input n threads server h =
      let (more, e) = Grown-turn config input n threads server in
      subst IsGreeted (sym (ap (frames_to fd) e ∙ frames_to-append fd server.wire more))
        (IsGreeted-append (frames_to fd server.wire) (frames_to fd more) h)

  IsFine-Greeted :
      (turns : List (ℕ × Input)) (server : Server) (threads : List (List Job))
      → Greeted config fd large server
      → IsFine (interleave config turns (server, threads))
  unfolding interleave
  IsFine-Greeted [] server threads h = starts_well (frames_to fd server.wire) h
  IsFine-Greeted ((n, input) ∷ turns) server threads h =
      IsFine-Greeted turns _ _ (Greeted-turn input n threads server h)

  IsFine-greets :
      (turns : List (ℕ × Input)) (server : Server) (threads : List (List Job))
      → IsNeverAccepted fd turns
      → Goes config fd large server threads
      → IsFine (interleave config turns (server, threads))
  unfolding interleave
  IsFine-greets [] server threads never (inl (u, g)) = fine-Unseen server u
  IsFine-greets [] server threads never (inr h) = starts_well (frames_to fd server.wire) h
  IsFine-greets ((n, input) ∷ turns) server threads never (inr h) =
      IsFine-Greeted turns _ _ (Greeted-turn input n threads server h)
  IsFine-greets ((n, input) ∷ turns) server threads (o, never) (inl (u, g)) =
      IsFine-greets turns _ _ never (greets-turn config fd large input n threads server o u g)

  IsFine-never :
      (turns : List (ℕ × Input)) (server : Server) (threads : List (List Job))
      → IsNeverAccepted fd turns
      → Unseen fd server
      → AreQuiet config fd threads
      → IsFine (interleave config turns (server, threads))
  unfolding interleave
  IsFine-never [] server threads never u q = fine-Unseen server u
  IsFine-never ((n, input) ∷ turns) server threads (o, never) u q =
      let s = Still-turn config fd input n threads server o u q in
      IsFine-never turns _ _ never s.unseen s.quiet

  IsFine-once :
      (turns : List (ℕ × Input)) (server : Server) (threads : List (List Job))
      → IsAcceptedOnce fd turns
      → Unseen fd server
      → AreQuiet config fd threads
      → IsFine (interleave config turns (server, threads))
  unfolding interleave
  IsFine-once [] server threads once u q = fine-Unseen server u
  IsFine-once ((n, input) ∷ turns) server threads (inl (o, once)) u q =
      let s = Still-turn config fd input n threads server o u q in
      IsFine-once turns _ _ once s.unseen s.quiet
  IsFine-once ((n, input) ∷ turns) server threads (inr (e, never)) u q =
      subst (λ i. IsFine (interleave config turns (turn config i n threads server))) (sym e)
        (fine-connected turns n threads server never u q)
    where
      fine-connected :
          (turns : List (ℕ × Input)) (n : ℕ) (threads : List (List Job)) (server : Server)
          → IsNeverAccepted fd turns
          → Unseen fd server
          → AreQuiet config fd threads
          → IsFine (interleave config turns (turn config (connection fd) n threads server))
      fine-connected turns n threads server never u q =
          let (v, r) = connect-turn config fd large n threads server u q in
          elim r [
            | inl still ↦ IsFine-never turns _ _ never v still
            | inr g ↦ IsFine-greets turns _ _ never (inl (v, g))
          ]

  -- Whatever the threads do and in whatever order, the first frame that is sent to a client is its WELCOME,
  -- or the answer that the server is full: no broadcast and no message comes before it. Its descriptor is
  -- accepted once, and the configuration is one that `load_config` allows.
  pub interleave-StartsWell :
      (turns : List (ℕ × Input))
      → IsAcceptedOnce fd turns
      → StartsWell (frames_to fd (interleave config turns at_start).0.wire)
  unfolding frames_to
  interleave-StartsWell turns once =
      IsFine-once turns at_start.0 at_start.1 once (record { hidden = tt; silent = refl })
        ((tt, tt), tt)
