-- ===== src/ChatServer/Names.antt =====
-- The nickname that `Server::assign_default_nickname_locked` chooses.
use thread_link.Prelude.{
  ℕ, zero, suc, ◌+◌, ◌≤◌, ◌<◌, ◌≡◌, refl, sym, ap, ◌∙◌, ◌≢◌, Bool, true, false, not, inl, inr, List,
  [], ◌∷◌, ◌++◌, arith, Bool-cases, length, keep, any, Text, js, ◌==◌, eq_iff, decimal, decimal_inj,
  nat_beq, nat_beq_iff, subst,
}
use thread_link.ChatServer.{
  ClientRecord, default_nickname, is_taken, first_free, assign_default_nickname, nicknames,
}

default_inj : (m n : ℕ) → default_nickname m ≡ default_nickname n → m ≡ n
default_inj m n h = decimal_inj m n (unuser h)
  where
    unuser : js "User" ++ decimal m ≡ js "User" ++ decimal n → decimal m ≡ decimal n
    unuser h = cc

abbrev differs : Text → Text → Bool
differs name n = not (n == name)

-- Without the clients of one nickname the others are as taken as before, and there are fewer clients.
is_taken-without :
    (name other : Text) (names : List Text)
    → other ≢ name
    → is_taken other (keep (differs name) names) ≡ is_taken other names
unfolding is_taken any keep
is_taken-without name other [] h = refl
is_taken-without name other (n ∷ names) h =
    ground (arith, eq_iff n name, eq_iff n other, is_taken-without name other names h)

length-without_le :
    (name : Text) (names : List Text) → length (keep (differs name) names) ≤ length names
unfolding keep
length-without_le name [] = omega arith
length-without_le name (n ∷ names) = ground (arith, length-without_le name names)

length-without :
    (name : Text) (names : List Text)
    → is_taken name names ≡ true
    → length (keep (differs name) names) < length names
unfolding is_taken any keep
length-without name [] h = cc
length-without name (n ∷ names) h =
    ground (arith, length-without_le name names, length-without name names)

-- The loop asks only for the names from its number on.
first_free-agree :
    (fuel n : ℕ) (xs ys : List Text)
    → ((m : ℕ) → n ≤ m → is_taken (default_nickname m) xs ≡ is_taken (default_nickname m) ys)
    → first_free fuel n xs ≡ first_free fuel n ys
unfolding first_free
first_free-agree zero n xs ys h = refl
first_free-agree (suc fuel) n xs ys h =
    rw (h n (omega arith), first_free-agree fuel (suc n) xs ys (λ m k. h m (omega arith))) refl

record Found (fuel n : ℕ) (names : List Text) : Type 0 where
  number : ℕ
  above : n ≤ number
  chosen : first_free fuel n names ≡ default_nickname number
  untaken : is_taken (default_nickname number) names ≡ false
  bounded : number ≤ n + fuel
  least : (m : ℕ) → n ≤ m → m < number → is_taken (default_nickname m) names ≡ true

found : (fuel n : ℕ) (names : List Text) → length names ≤ fuel → Found fuel n names
unfolding first_free is_taken any
found zero n [] h = record {
  number = n;
  above = omega arith;
  chosen = refl;
  untaken = refl;
  bounded = omega arith;
  least = λ m l k. absurd (omega arith);
}
found zero n (x ∷ names) h = absurd (omega arith)
found (suc fuel) n names h = elim (Bool-cases (is_taken (default_nickname n) names)) [
  | inl k ↦
      let name = default_nickname n in
      let others = keep (differs name) names in
      let ne : ((m : ℕ) → suc n ≤ m → default_nickname m ≢ name) =
        λ m l e. ground (arith, default_inj m n e) in
      let f = found fuel (suc n) others (omega (arith, length-without name names k)) in
      record {
        number = f.number;
        above = omega (arith, f.above);
        chosen = rw k (
            sym (
              first_free-agree fuel (suc n) others names
                (λ m l. is_taken-without name (default_nickname m) names (ne m l)))
            ∙ f.chosen);
        untaken =
            sym (is_taken-without name (default_nickname f.number) names (ne f.number f.above))
            ∙ f.untaken;
        bounded = omega (arith, f.bounded);
        least = λ m l j. elim (Bool-cases (nat_beq m n)) [
          | inl e ↦
              subst (λ i. is_taken (default_nickname i) names ≡ true) (sym ((nat_beq_iff m n).0 e))
                k
          | inr e ↦
              sym (is_taken-without name (default_nickname m) names (ne m (ground arith)))
              ∙ f.least m (ground arith) j
        ];
      }
  | inr k ↦ record {
    number = n;
    above = omega arith;
    chosen = rw k refl;
    untaken = k;
    bounded = omega arith;
    least = λ m l j. absurd (omega arith);
  }
]

length-nicknames : (clients : List ClientRecord) → length (nicknames clients) ≡ length clients
length-nicknames [] = refl
length-nicknames (c ∷ cs) = ap suc (length-nicknames cs)

-- A new client gets the nickname "User" with the least number from 1 on that no client has, so that its
-- nickname is not taken. That number is at most one more than there are clients.
pub assign_default_nickname_lem :
    (clients : List ClientRecord)
    → (n : ℕ) × (1 ≤ n)
      × (n ≤ suc (length clients))
      × (assign_default_nickname clients ≡ default_nickname n)
      × (is_taken (default_nickname n) (nicknames clients) ≡ false)
      × ((m : ℕ) → 1 ≤ m → m < n → is_taken (default_nickname m) (nicknames clients) ≡ true)
unfolding assign_default_nickname
assign_default_nickname_lem clients =
    let f =
      found (length clients) 1 (nicknames clients) (omega (arith, length-nicknames clients)) in
    (f.number, f.above, omega (arith, f.bounded), f.chosen, f.untaken, f.least)
