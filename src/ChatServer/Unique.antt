-- ===== src/ChatServer/Unique.antt =====
-- No two clients share a nickname, in any interleaving of the threads.
use thread_link.Prelude.{
  ℕ, ◌≡◌, ap, ◌∙◌, ◌≢◌, false, inl, inr, List, [], ◌∷◌, arith, Bool-cases, nat_beq, nat_beq_iff,
  any, find, All, Text, eq_iff,
}
use thread_link.ChatServer.{
  ServerConfig, ClientRecord, Input, nicknames, find_client, is_present, assign_default_nickname,
  emplace, modify, rename_to, mark_welcomed, erase, is_taken,
}
use thread_link.ChatServer.Commands.{is_taken_by_other}
use thread_link.ChatServer.Threads.{interleave, at_start}
use thread_link.ChatServer.Interleaved.{Keeps, interleave-keeps}
use thread_link.ChatServer.Names.{assign_default_nickname_lem}

abbrev pub Apart : ClientRecord → ClientRecord → Type 0
Apart c d = (c.fd ≢ d.fd) × (c.nickname ≢ d.nickname)

-- No two clients share a descriptor or a nickname.
abbrev pub AreApart : List ClientRecord → Type 0
AreApart [] = Unit
AreApart (c ∷ cs) = All (Apart c) cs × AreApart cs

-- Any property of every record that a change keeps.
pub All-modify :
    (P : ClientRecord → Type 0) (f : ClientRecord → ClientRecord) (fd : ℕ) (cs : List ClientRecord)
    → ((c : ClientRecord) → c.fd ≡ fd → P c → P (f c))
    → All P cs
    → All P (modify f fd cs)
unfolding modify
All-modify P f fd [] k h = tt
All-modify P f fd (c ∷ cs) k (p, h) = elim (Bool-cases (nat_beq c.fd fd)) [
  | inl e ↦ rw e (k c ((nat_beq_iff c.fd fd).0 e) p, h)
  | inr e ↦ rw e (p, All-modify P f fd cs k h)
]

pub All-erase :
    (P : ClientRecord → Type 0) (fd : ℕ) (cs : List ClientRecord) → All P cs → All P (erase fd cs)
unfolding erase
All-erase P fd [] h = tt
All-erase P fd (c ∷ cs) (p, h) = elim (Bool-cases (nat_beq c.fd fd)) [
  | inl e ↦ rw e h
  | inr e ↦ rw e (p, All-erase P fd cs h)
]

AreApart-erase : (fd : ℕ) (cs : List ClientRecord) → AreApart cs → AreApart (erase fd cs)
unfolding erase
AreApart-erase fd [] h = tt
AreApart-erase fd (c ∷ cs) (p, h) = elim (Bool-cases (nat_beq c.fd fd)) [
  | inl e ↦ rw e h
  | inr e ↦ rw e (All-erase (Apart c) fd cs p, AreApart-erase fd cs h)
]

AreApart-mark_welcomed :
    (fd : ℕ) (cs : List ClientRecord) → AreApart cs → AreApart (modify mark_welcomed fd cs)
unfolding modify
AreApart-mark_welcomed fd [] h = tt
AreApart-mark_welcomed fd (c ∷ cs) (p, h) = elim (Bool-cases (nat_beq c.fd fd)) [
  | inl e ↦ rw e (p, h)
  | inr e ↦
      rw e (All-modify (Apart c) mark_welcomed fd cs (λ d e q. q) p, AreApart-mark_welcomed fd cs h)
]

-- Apart from the client that is renamed nobody has the name.
Apart-rename_head :
    (c : ClientRecord) (name : Text) (cs : List ClientRecord)
    → is_taken_by_other c.fd name cs ≡ false
    → All (Apart c) cs
    → All (Apart (rename_to name c)) cs
unfolding is_taken_by_other any
Apart-rename_head c name [] free h = tt
Apart-rename_head c name (d ∷ cs) free ((p, q), h) =
    ((p, ground (arith, eq_iff d.nickname name)), Apart-rename_head c name cs (ground arith) h)

pub AreApart-rename :
    (fd : ℕ) (name : Text) (cs : List ClientRecord)
    → is_taken_by_other fd name cs ≡ false
    → AreApart cs
    → AreApart (modify (rename_to name) fd cs)
unfolding modify is_taken_by_other any
AreApart-rename fd name [] free h = tt
AreApart-rename fd name (c ∷ cs) free (p, h) = elim (Bool-cases (nat_beq c.fd fd)) [
  | inl e ↦ rw e (Apart-rename_head c name cs (ground arith) p, h)
  | inr e ↦ rw e (
    All-modify (Apart c) (rename_to name) fd cs
        (λ d k q. (q.0, ground (arith, eq_iff c.nickname name))) p,
    AreApart-rename fd name cs (ground arith) h,
  )
]

Apart-new :
    (c : ClientRecord) (cs : List ClientRecord)
    → is_present (find_client c.fd cs) ≡ false
    → is_taken c.nickname (nicknames cs) ≡ false
    → All (Apart c) cs
unfolding find_client find is_taken any
Apart-new c [] h k = tt
Apart-new c (d ∷ cs) h k = (
  (ground arith, ground (arith, eq_iff d.nickname c.nickname)),
  Apart-new c cs (ground arith) (ground arith),
)

AreApart-emplace :
    (fd : ℕ) (name : Text) (cs : List ClientRecord)
    → is_taken name (nicknames cs) ≡ false
    → AreApart cs
    → AreApart (emplace fd name cs)
unfolding emplace
AreApart-emplace fd name cs free h = elim (Bool-cases (is_present (find_client fd cs))) [
  | inl e ↦ rw e h
  | inr e ↦ rw e (Apart-new (record { fd = fd; nickname = name; welcomed = false }) cs e free, h)
]

AreApart-assigned :
    (fd : ℕ) (cs : List ClientRecord)
    → AreApart cs
    → AreApart (emplace fd (assign_default_nickname cs) cs)
AreApart-assigned fd cs h =
    let (n, _, _, chosen, free, _) = assign_default_nickname_lem cs in
    AreApart-emplace fd (assign_default_nickname cs) cs
      (ap (λ s. is_taken s (nicknames cs)) chosen ∙ free) h

AreApart-Keeps : Keeps AreApart
AreApart-Keeps = record {
  emplaced = AreApart-assigned;
  renamed = λ fd name cs valid free h. AreApart-rename fd name cs free h;
  marked = AreApart-mark_welcomed;
  erased = AreApart-erase;
}

-- However the threads of the server are interleaved, and whatever they receive, no two clients share
-- a nickname or a descriptor at any time.
pub interleave-AreApart :
    (config : ServerConfig) (turns : List (ℕ × Input))
    → AreApart (interleave config turns at_start).0.clients
interleave-AreApart config turns =
    interleave-keeps AreApart AreApart-Keeps config turns at_start.0 at_start.1 tt
