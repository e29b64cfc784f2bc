-- ===== src/ChatServer/Pieces.antt =====
-- `recv_exact`: the bytes that it gives, however they come.
use mathlib.Core.List.{flatten}
use thread_link.Prelude.{
  ℕ, zero, suc, ◌-◌, ◌≤◌, ◌<◌, ◌≡◌, refl, sym, ap, ◌∙◌, inl, inr, List, [], ◌∷◌, ◌++◌, arith, ltb,
  length, take, drop, length-append, take-append, drop-append, Bool-cases,
}
use thread_link.ChatServer.Frames.{ok, closed_by_peer, behind, recv_exact}

less : (n k : ℕ) → suc n - suc k ≡ n - k
less n k = omega arith

take-append_over :
    (n : ℕ) (xs ys : List ℕ) → length xs ≤ n → take n (xs ++ ys) ≡ xs ++ take (n - length xs) ys
take-append_over n [] ys h = ap (λ m. take m ys) (omega arith)
take-append_over zero (x ∷ xs) ys h = absurd (omega arith)
take-append_over (suc n) (x ∷ xs) ys h =
    ap (◌∷◌ x) (
      take-append_over n xs ys (omega arith) ∙ ap (λ m. xs ++ take m ys) (sym (less n (length xs))))

drop-append_over :
    (n : ℕ) (xs ys : List ℕ) → length xs ≤ n → drop n (xs ++ ys) ≡ drop (n - length xs) ys
drop-append_over n [] ys h = ap (λ m. drop m ys) (omega arith)
drop-append_over zero (x ∷ xs) ys h = absurd (omega arith)
drop-append_over (suc n) (x ∷ xs) ys h =
    drop-append_over n xs ys (omega arith) ∙ ap (λ m. drop m ys) (sym (less n (length xs)))

-- A piece that is too short is taken whole, and one that is not ends the loop.
recv_exact_more :
    (n : ℕ) (p : List ℕ) (ps : List (List ℕ))
    → length p < n
    → recv_exact n (p ∷ ps) ≡ behind p (recv_exact (n - length p) ps)
unfolding recv_exact
recv_exact_more n p ps h = ground arith

recv_exact_done :
    (n : ℕ) (p : List ℕ) (ps : List (List ℕ))
    → n ≤ length p
    → recv_exact n (p ∷ ps) ≡ ok (take n p) (drop n p ∷ ps)
unfolding recv_exact
recv_exact_done zero p ps h = refl
recv_exact_done (suc n) p ps h = ground arith

-- Too few bytes: the peer has closed.
pub recv_exact_short :
    (n : ℕ) (pieces : List (List ℕ))
    → length (flatten pieces) < n
    → recv_exact n pieces ≡ closed_by_peer
unfolding recv_exact flatten
recv_exact_short n [] h = ground arith
recv_exact_short n (p ∷ ps) h =
    let l = length-append p (flatten ps) in
    recv_exact_more n p ps (omega arith)
    ∙ ap (behind p) (recv_exact_short (n - length p) ps (omega arith))

-- The bytes that were asked for, and the others behind them.
pub record Exact (n : ℕ) (pieces : List (List ℕ)) : Type 0 where
  pub rest : List (List ℕ)
  pub read : recv_exact n pieces ≡ ok (take n (flatten pieces)) rest
  pub left : flatten rest ≡ drop n (flatten pieces)

Exact-short_piece :
    (n : ℕ) (p : List ℕ) (ps : List (List ℕ))
    → length p < n
    → Exact (n - length p) ps
    → Exact n (p ∷ ps)
unfolding flatten
Exact-short_piece n p ps h e = record {
  rest = e.rest;
  read =
      recv_exact_more n p ps h
      ∙ ap (behind p) e.read
      ∙ ap (λ bytes. ok bytes e.rest) (sym (take-append_over n p (flatten ps) (omega arith)));
  left = e.left ∙ sym (drop-append_over n p (flatten ps) (omega arith));
}

Exact-long_piece : (n : ℕ) (p : List ℕ) (ps : List (List ℕ)) → n ≤ length p → Exact n (p ∷ ps)
unfolding flatten
Exact-long_piece n p ps h = record {
  rest = drop n p ∷ ps;
  read =
      recv_exact_done n p ps h
      ∙ ap (λ bytes. ok bytes (drop n p ∷ ps)) (sym (take-append n p (flatten ps) h));
  left = sym (drop-append n p (flatten ps) h);
}

pub exact : (n : ℕ) (pieces : List (List ℕ)) → n ≤ length (flatten pieces) → Exact n pieces
unfolding recv_exact flatten
exact zero [] h = record { rest = []; read = refl; left = refl }
exact (suc n) [] h = absurd (omega arith)
exact n (p ∷ ps) h = elim (Bool-cases (ltb (length p) n)) [
  | inl k ↦
      let l = length-append p (flatten ps) in
      Exact-short_piece n p ps (ground arith) (exact (n - length p) ps (omega arith))
  | inr k ↦ Exact-long_piece n p ps (ground arith)
]
