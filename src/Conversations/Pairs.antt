-- ===== src/Conversations/Pairs.antt =====
-- The id of a direct conversation as a function of an unordered pair of accounts.
use mathlib.Core.Quot
use mathlib.Core.Quot.{Quot, Quot-set}
use mathlib.Core.HLevel.{Σ_prop_path, Π_prop}
use mathlib.Core.Path.{ap₂}
use thread_link.Prelude.{◌≡◌, sym, ap, subst, inl, inr, [], ◌∷◌, Text}
use thread_link.Conversations.{direct_conversation_id}
use thread_link.Conversations.DirectId.{
  IsColonFree, direct_conversation_id_comm, direct_conversation_id_inj,
}

-- An id without ":".
abbrev pub AccountId : Type 0
AccountId = (s : Text) × IsColonFree s

-- One pair is the other in the other order.
abbrev pub Swapped : AccountId × AccountId → AccountId × AccountId → Type 0
Swapped p q = q ≡ (p.1, p.0)

-- Two accounts, in no order.
abbrev pub Pair : Type 0
Pair = Quot Swapped

pub text_set : IsSet Text
text_set = hlevel

abbrev pub id_in_order : AccountId × AccountId → Text
id_in_order p = direct_conversation_id p.0.0 p.1.0

pub id_in_order-swap : (p q : AccountId × AccountId) → Swapped p q → id_in_order p ≡ id_in_order q
id_in_order-swap p q h =
    subst (λ r. id_in_order p ≡ id_in_order r) (sym h) (direct_conversation_id_comm p.0.0 p.1.0)

unfoldable pub id_of_pair : Pair → Text
id_of_pair = Quot.lift text_set id_in_order id_in_order-swap

IsColonFree-prop : (s : Text) → IsProp (IsColonFree s)
IsColonFree-prop [] = hlevel
IsColonFree-prop (c ∷ s) = let h = IsColonFree-prop s in hlevel

account_ext : (a b : AccountId) → a.0 ≡ b.0 → a ≡ b
account_ext a b h = Σ_prop_path (λ s. IsColonFree-prop s) h

same_pair :
    (a b c d : AccountId)
    → direct_conversation_id a.0 b.0 ≡ direct_conversation_id c.0 d.0
    → ◌≡◌ {A = Pair} (Quot.mk (a, b)) (Quot.mk (c, d))
same_pair a b c d h = elim (direct_conversation_id_inj a.0 b.0 c.0 d.0 a.1 b.1 c.1 d.1 h) [
  | inl (p, q) ↦
      ap (λ (x : AccountId × AccountId). Quot.mk x)
        (ap₂ (λ x y. (x, y)) (account_ext a c p) (account_ext b d q))
  | inr (p, q) ↦
      Quot.sound (ap₂ (λ x y. (x, y)) (sym (account_ext b c q)) (sym (account_ext a d p)))
]

-- Two unordered pairs of accounts whose direct conversations have one id are the same pair. The order
-- in which the code names the two accounts does not count, and no id of an account has ":" in it.
pub id_of_pair_inj : (p q : Pair) → id_of_pair p ≡ id_of_pair q → p ≡ q
unfolding id_of_pair
id_of_pair_inj =
    Quot.ind (λ p. Π_prop (λ q. Π_prop (λ h. Quot-set p q)))
      (λ (a, b).
        Quot.ind (λ q. Π_prop (λ h. Quot-set (Quot.mk (a, b)) q)) (λ (c, d). same_pair a b c d))
