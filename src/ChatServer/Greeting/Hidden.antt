-- ===== src/ChatServer/Greeting/Hidden.antt =====
-- The changes of the clients and of the wire leave a client of another descriptor as it is.
use thread_link.Prelude.{
  ℕ, ◌≡◌, refl, sym, ◌∙◌, ◌≢◌, true, not, ◌&&◌, inl, inr, Option, none, some, List, [], ◌∷◌, ◌++◌,
  map, arith, Bool-cases, keep, find, All, Text,
}
use thread_link.ChatServer.{
  ClientRecord, Server, framing, find_client, is_present, emplace, modify, rename_to, mark_welcomed,
  erase,
}
use thread_link.ChatServer.Commands.{has_name}
use thread_link.ChatServer.Threads.{broadcast, is_left_out}
use thread_link.ChatServer.Unique.{All-modify}
use thread_link.ChatServer.Greeting.{frames_to, IsQuiet, IsHidden}

module _ (fd : ℕ) where
  pub IsHidden-emplace :
      (d : ℕ) (name : Text) (cs : List ClientRecord)
      → All (IsHidden fd) cs
      → All (IsHidden fd) (emplace d name cs)
  unfolding emplace
  IsHidden-emplace d name cs h = elim (Bool-cases (is_present (find_client d cs))) [
    | inl e ↦ rw e h
    | inr e ↦ rw e ((λ _. refl), h)
  ]

  pub IsHidden-rename :
      (d : ℕ) (name : Text) (cs : List ClientRecord)
      → All (IsHidden fd) cs
      → All (IsHidden fd) (modify (rename_to name) d cs)
  IsHidden-rename d name cs h = All-modify (IsHidden fd) (rename_to name) d cs (λ c e p. p) h

  pub IsHidden-mark :
      (d : ℕ) (cs : List ClientRecord)
      → d ≢ fd
      → All (IsHidden fd) cs
      → All (IsHidden fd) (modify mark_welcomed d cs)
  IsHidden-mark d cs ne h =
      All-modify (IsHidden fd) mark_welcomed d cs (λ c e p q. absurd (ne (sym e ∙ q))) h

  pub present-modify :
      (f : ClientRecord → ClientRecord) (d : ℕ) (cs : List ClientRecord)
      → ((c : ClientRecord) → (f c).fd ≡ c.fd)
      → is_present (find_client fd (modify f d cs)) ≡ is_present (find_client fd cs)
  unfolding modify find_client find
  present-modify f d [] k = refl
  present-modify f d (c ∷ cs) k = ground (arith, k c, present-modify f d cs k)

  pub present-erase :
      (d : ℕ) (cs : List ClientRecord)
      → d ≢ fd
      → is_present (find_client fd (erase d cs)) ≡ is_present (find_client fd cs)
  unfolding erase find_client find
  present-erase d [] ne = refl
  present-erase d (c ∷ cs) ne = ground (arith, present-erase d cs ne)

  pub present-emplace :
      (d : ℕ) (name : Text) (cs : List ClientRecord)
      → d ≢ fd
      → is_present (find_client fd (emplace d name cs)) ≡ is_present (find_client fd cs)
  unfolding emplace find_client find
  present-emplace d name cs ne = ground arith

  pub present-emplaced :
      (name : Text) (cs : List ClientRecord)
      → is_present (find_client fd (emplace fd name cs)) ≡ true
  unfolding emplace find_client find
  present-emplaced name cs = ground arith

  -- Whoever is found by a nickname is marked, and is another client.
  abbrev pub IsElsewhere : Option ClientRecord → Type 0
  IsElsewhere none = Unit
  IsElsewhere (some c) = c.fd ≢ fd

  pub IsElsewhere-find :
      (target : Text) (cs : List ClientRecord)
      → All (IsHidden fd) cs
      → IsElsewhere (find (has_name target) cs)
  unfolding find
  IsElsewhere-find target [] h = tt
  IsElsewhere-find target (c ∷ cs) (p, h) = elim (Bool-cases (has_name target c)) [
    | inl e ↦ rw e (λ q. ground (arith, p q))
    | inr e ↦ rw e (IsElsewhere-find target cs h)
  ]

  pub IsQuiet-broadcast :
      (payload : Text) (exclude_fd : Option ℕ) (server : Server)
      → All (IsHidden fd) server.clients
      → All (IsQuiet fd) (broadcast payload exclude_fd server)
  unfolding broadcast keep
  IsQuiet-broadcast payload exclude_fd server h = go server.clients h
    where
      go :
          (cs : List ClientRecord)
          → All (IsHidden fd) cs
          → All (IsQuiet fd) (
              map
                (λ c. framing c.fd payload)
                (keep (λ c. not (is_left_out exclude_fd c.fd) && c.welcomed) cs))
      go [] h = tt
      go (c ∷ cs) (p, h) = elim (Bool-cases (not (is_left_out exclude_fd c.fd) && c.welcomed)) [
        | inl e ↦ rw e ((λ q. ground (arith, p q)), go cs h)
        | inr e ↦ rw e (go cs h)
      ]

  pub frames_to-append :
      (w v : List (ℕ × Text)) → frames_to fd (w ++ v) ≡ frames_to fd w ++ frames_to fd v
  unfolding frames_to
  frames_to-append [] v = refl
  frames_to-append ((d, payload) ∷ w) v = ground (arith, frames_to-append w v)
