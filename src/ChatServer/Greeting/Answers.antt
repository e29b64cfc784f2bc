-- ===== src/ChatServer/Greeting/Answers.antt =====
-- A command that belongs to another descriptor leaves a client that has not been greeted alone.
use thread_link.Prelude.{
  ℕ, ◌≡◌, refl, ◌≢◌, ◌||◌, inl, inr, Option, none, some, List, [], ◌∷◌, Bool-cases, nat_beq, find,
  All, Text,
}
use thread_link.BackendMessages.Server.{Action}
use thread_link.ChatServer.{
  ClientRecord, Server, Job, find_client, is_present, rename_to, send_error, is_empty,
}
use thread_link.ChatServer.Commands.{
  has_name, deliver, say, store_nickname, set_nickname, words_of, is_valid_nickname,
  is_taken_by_other, act, handle_nick, handle_msg, handle_list,
}
use thread_link.ChatServer.Greeting.{IsQuiet, Unseen}
use thread_link.ChatServer.Greeting.Hidden.{
  IsHidden-rename, present-modify, IsElsewhere, IsElsewhere-find,
}

-- The client is still unseen, what comes next belongs to others, and it is present as before.
pub record Alone (fd : ℕ) (server server' : Server) (next : List Job) : Type 0 where
  pub unseen : Unseen fd server'
  pub quiet : All (IsQuiet fd) next
  pub present :
      is_present (find_client fd server'.clients) ≡ is_present (find_client fd server.clients)

module _ (fd : ℕ) where
  pub Alone-same :
      (server : Server) (next : List Job)
      → Unseen fd server
      → All (IsQuiet fd) next
      → Alone fd server server next
  Alone-same server next u q = record { unseen = u; quiet = q; present = refl }

  pub IsQuiet-deliver :
      (d : ℕ) (target text : Text) (self to : Option ClientRecord)
      → d ≢ fd
      → IsElsewhere fd to
      → All (IsQuiet fd) (deliver d target text self to)
  unfolding send_error
  IsQuiet-deliver d target text none to ne h = tt
  IsQuiet-deliver d target text (some s) none ne h = (ne, tt)
  IsQuiet-deliver d target text (some s) (some c) ne h = elim (Bool-cases (nat_beq c.fd d)) [
    | inl e ↦ rw e (ne, tt)
    | inr e ↦ rw e (h, (ne, tt))
  ]

  pub IsQuiet-handle_msg :
      (d : ℕ) (target text : Text) (server : Server)
      → d ≢ fd
      → Unseen fd server
      → All (IsQuiet fd) (handle_msg d target text server)
  unfolding handle_msg send_error
  IsQuiet-handle_msg d target text server ne u =
      elim (Bool-cases (is_empty target || is_empty text)) [
        | inl e ↦ rw e (ne, tt)
        | inr e ↦ rw e (
            IsQuiet-deliver d target text (find_client d server.clients)
              (find (has_name target) server.clients) ne
              (IsElsewhere-find fd target server.clients u.hidden))
      ]

  pub IsQuiet-say :
      (d : ℕ) (said : Text) (o : Option ClientRecord) → All (IsQuiet fd) (say d said o)
  IsQuiet-say d said none = tt
  IsQuiet-say d said (some c) = (tt, tt)

  pub Alone-change :
      (d : ℕ) (name : Text) (o : Option ClientRecord) (server : Server)
      → Unseen fd server
      → let r = store_nickname d name o server in Alone fd server r.0 r.1
  Alone-change d name none server u = Alone-same server [] u tt
  Alone-change d name (some c) server u = record {
    unseen = record {
      hidden = IsHidden-rename fd d name server.clients u.hidden;
      silent = u.silent;
    };
    quiet = (tt, tt);
    present = present-modify fd (rename_to name) d server.clients (λ c. refl);
  }

  pub Alone-set_nickname :
      (d : ℕ) (words : List Text) (server : Server)
      → d ≢ fd
      → Unseen fd server
      → let r = set_nickname d words server in Alone fd server r.0 r.1
  unfolding set_nickname send_error
  Alone-set_nickname d [] server ne u = Alone-same server _ u (ne, tt)
  Alone-set_nickname d (w ∷ v ∷ words) server ne u = Alone-same server _ u (ne, tt)
  Alone-set_nickname d (w ∷ []) server ne u = elim (Bool-cases (is_valid_nickname w)) [
    | inl e ↦ elim (Bool-cases (is_taken_by_other d w server.clients)) [
      | inl j ↦ rw (e, j) (Alone-same server _ u (ne, tt))
      | inr j ↦ rw (e, j) (Alone-change d w (find_client d server.clients) server u)
    ]
    | inr e ↦ rw e (Alone-same server _ u (ne, tt))
  ]

  pub Alone-act :
      (d : ℕ) (action : Action) (server : Server)
      → d ≢ fd
      → Unseen fd server
      → let r = act d action server in Alone fd server r.0.0 r.0.1
  unfolding act handle_nick handle_list send_error
  Alone-act d (Action.handle_nick args) server ne u =
      Alone-set_nickname d (words_of args) server ne u
  Alone-act d Action.ignore server ne u = Alone-same server _ u tt
  Alone-act d Action.leave server ne u = Alone-same server _ u tt
  Alone-act d Action.send_list server ne u = Alone-same server _ u (ne, tt)
  Alone-act d (Action.chat said) server ne u =
      Alone-same server _ u (IsQuiet-say d said (find_client d server.clients))
  Alone-act d (Action.handle_msg target text) server ne u =
      Alone-same server _ u (IsQuiet-handle_msg d target text server ne u)
  Alone-act d (Action.bad_cmd cmd) server ne u = Alone-same server _ u (ne, tt)
