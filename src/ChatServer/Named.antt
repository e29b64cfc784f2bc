-- ===== src/ChatServer/Named.antt =====
-- Every nickname of the server is a name that the gateway can read.
use thread_link.Prelude.{
  ℕ, ◌≡◌, sym, subst, ◌≢◌, true, inl, inr, List, [], ◌∷◌, arith, Bool-cases, All, All-imp, Text,
  IsDigit, decimal, decimal-IsDigits, all,
}
use thread_link.BackendMessages.{space}
use thread_link.BackendMessages.RoundTrip.{IsWord}
use thread_link.ChatServer.{
  ServerConfig, ClientRecord, Input, default_nickname, find_client, is_present,
  assign_default_nickname, emplace, rename_to, mark_welcomed,
}
use thread_link.ChatServer.Commands.{is_valid_nickname, is_nickname_char}
use thread_link.ChatServer.Threads.{interleave, at_start}
use thread_link.ChatServer.Interleaved.{Keeps, interleave-keeps}
use thread_link.ChatServer.Names.{assign_default_nickname_lem}
use thread_link.ChatServer.Unique.{All-modify, All-erase}

-- A nickname as the gateway can read it: not empty, and no space in it.
abbrev pub IsName : Text → Type 0
IsName [] = ⊥
IsName (c ∷ s) = IsWord (c ∷ s)

pub IsWord-of_digits : (s : Text) → All IsDigit s → IsWord s
IsWord-of_digits s h = All-imp IsDigit (λ c. c ≢ space) s (λ c d. omega arith) h

IsWord-of_chars : (s : Text) → all is_nickname_char s ≡ true → IsWord s
unfolding all is_nickname_char
IsWord-of_chars [] h = tt
IsWord-of_chars (c ∷ s) h = (ground arith, IsWord-of_chars s (ground arith))

IsName-of_valid : (s : Text) → is_valid_nickname s ≡ true → IsName s
unfolding is_valid_nickname
IsName-of_valid [] h = cc
IsName-of_valid (c ∷ s) h = IsWord-of_chars (c ∷ s) (ground arith)

pub default_nickname-IsName : (n : ℕ) → IsName (default_nickname n)
default_nickname-IsName n = (
  omega arith,
  (omega arith, (omega arith, (omega arith, IsWord-of_digits (decimal n) (decimal-IsDigits n)))),
)

abbrev pub IsNamed : ClientRecord → Type 0
IsNamed c = IsName c.nickname

IsNamed-emplace :
    (fd : ℕ) (name : Text) (cs : List ClientRecord)
    → IsName name
    → All IsNamed cs
    → All IsNamed (emplace fd name cs)
unfolding emplace
IsNamed-emplace fd name cs n h = elim (Bool-cases (is_present (find_client fd cs))) [
  | inl e ↦ rw e h
  | inr e ↦ rw e (n, h)
]

IsNamed-assigned :
    (fd : ℕ) (cs : List ClientRecord)
    → All IsNamed cs
    → All IsNamed (emplace fd (assign_default_nickname cs) cs)
IsNamed-assigned fd cs h =
    let (n, _, _, chosen, _, _) = assign_default_nickname_lem cs in
    IsNamed-emplace fd (assign_default_nickname cs) cs
      (subst IsName (sym chosen) (default_nickname-IsName n)) h

IsNamed-Keeps : Keeps (All IsNamed)
IsNamed-Keeps = record {
  emplaced = IsNamed-assigned;
  renamed = λ fd name cs valid free h.
      All-modify IsNamed (rename_to name) fd cs (λ c e n. IsName-of_valid name valid) h;
  marked = λ fd cs h. All-modify IsNamed mark_welcomed fd cs (λ c e n. n) h;
  erased = All-erase IsNamed;
}

-- Every nickname that a client ever has can be read back.
pub interleave-IsNamed :
    (config : ServerConfig) (turns : List (ℕ × Input))
    → All IsNamed (interleave config turns at_start).0.clients
interleave-IsNamed config turns =
    interleave-keeps (All IsNamed) IsNamed-Keeps config turns at_start.0 at_start.1 tt

pub IsWord-of_name : (n : Text) → IsName n → IsWord n
IsWord-of_name [] h = absurd h
IsWord-of_name (c ∷ n) h = h
