-- ===== src/ChatServer/Sorting.antt =====
-- `std::sort` of the names: an ascending permutation.
use mathlib.Core.List.{Perm}
use mathlib.Core.List.Perm
use thread_link.Prelude.{
  ◌≡◌, false, inl, inr, List, [], ◌∷◌, Bool-cases, Text, lt_text, lt_text_asymm,
}
use thread_link.ChatServer.Commands.{insert_sorted, sort}

-- Two neighbours are never the wrong way round.
abbrev pub IsAscending : List Text → Type 0
IsAscending [] = Unit
IsAscending (s ∷ []) = Unit
IsAscending (s ∷ t ∷ ts) = (lt_text t s ≡ false) × IsAscending (t ∷ ts)

insert_sorted-perm : (s : Text) (ts : List Text) → Perm (insert_sorted s ts) (s ∷ ts)
unfolding insert_sorted
insert_sorted-perm s [] = Perm.refl _
insert_sorted-perm s (t ∷ ts) = elim (Bool-cases (lt_text t s)) [
  | inl e ↦ rw e (Perm.trans (Perm.cons t (insert_sorted-perm s ts)) (Perm.swap s t ts))
  | inr e ↦ rw e (Perm.refl _)
]

pub sort-perm : (ss : List Text) → Perm (sort ss) ss
unfolding sort
sort-perm [] = Perm.refl []
sort-perm (s ∷ ss) = Perm.trans (insert_sorted-perm s (sort ss)) (Perm.cons s (sort-perm ss))

insert_sorted-above :
    (r s : Text) (ts : List Text)
    → lt_text s r ≡ false
    → IsAscending (r ∷ ts)
    → IsAscending (insert_sorted s ts)
    → IsAscending (r ∷ insert_sorted s ts)
unfolding insert_sorted
insert_sorted-above r s [] h k l = (h, l)
insert_sorted-above r s (t ∷ ts) h k l = elim (Bool-cases (lt_text t s)) [
  | inl e ↦ rw e (k.0, rw e at l)
  | inr e ↦ rw e (h, rw e at l)
]

insert_sorted-IsAscending :
    (s : Text) (ts : List Text) → IsAscending ts → IsAscending (insert_sorted s ts)
unfolding insert_sorted
insert_sorted-IsAscending s [] h = tt
insert_sorted-IsAscending s (t ∷ ts) h = elim (Bool-cases (lt_text t s)) [
  | inl e ↦ rw e (
      insert_sorted-above t s ts (lt_text_asymm t s e) h
        (insert_sorted-IsAscending s ts (tail t ts h)))
  | inr e ↦ rw e (e, h)
]
  where
    tail : (t : Text) (ts : List Text) → IsAscending (t ∷ ts) → IsAscending ts
    tail t [] h = tt
    tail t (u ∷ ts) h = h.1

pub sort-IsAscending : (ss : List Text) → IsAscending (sort ss)
unfolding sort
sort-IsAscending [] = tt
sort-IsAscending (s ∷ ss) = insert_sorted-IsAscending s (sort ss) (sort-IsAscending ss)
