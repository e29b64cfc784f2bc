-- ===== src/Prelude/Trims.antt =====
-- What `trim` does to a text: trimming twice is trimming once.
use Prim.Native.Nat.{suc, ◌≤◌}
use mathlib.Core.Path.{◌≡◌, refl, sym, ap, ◌∙◌, subst}
use mathlib.Core.Bool.{true, false}
use mathlib.Core.List.{[], ◌∷◌, ◌++◌, reverse, reverse-append, reverse-reverse}
use native.Mathlib.Omega.{arith}
use thread_link.Prelude.Tests.{if◌then◌else◌}
use thread_link.Prelude.Texts.{Text}
use thread_link.Prelude.Lists.{length}
use thread_link.Prelude.Numbers.{is_blank, trim_start, trim}

length-trim_start : (s : Text) → length (trim_start s) ≤ length s
unfolding trim_start
length-trim_start [] = omega arith
length-trim_start (c ∷ s) = ground (arith, length-trim_start s)

trim_start_idem : (s : Text) → trim_start (trim_start s) ≡ trim_start s
unfolding trim_start
trim_start_idem [] = refl
trim_start_idem (c ∷ s) = ground (arith, trim_start_idem s)

-- What `trim_start` drops is a prefix.
trim_start_suffix : (s : Text) → (dropped : Text) × (s ≡ dropped ++ trim_start s)
unfolding trim_start
trim_start_suffix [] = ([], refl)
trim_start_suffix (c ∷ s) =
    let (dropped, e) = trim_start_suffix s in
    elim (is_blank c) as (λ b. (d : Text) × (c ∷ s ≡ d ++ (if b then trim_start s else c ∷ s))) [
      | true ↦ (c ∷ dropped, ap (λ t. c ∷ t) e)
      | false ↦ ([], refl)
    ]

-- A text without blanks before it has none before any part of it that it begins with.
trim_start_prefix : (p q : Text) → trim_start (p ++ q) ≡ p ++ q → trim_start p ≡ p
unfolding trim_start
trim_start_prefix [] q h = refl
trim_start_prefix (c ∷ p) q h =
    let longer : length (c ∷ (p ++ q)) ≡ suc (length (p ++ q)) = omega arith in
    let same = ap length h in ground (arith, length-trim_start (p ++ q), same)

pub trim_idem : (s : Text) → trim (trim s) ≡ trim s
unfolding trim
trim_idem s =
    let u = trim_start s in
    let w = trim_start (reverse u) in
    let (dropped, e) = trim_start_suffix (reverse u) in
    let split : u ≡ reverse w ++ reverse dropped =
      sym (reverse-reverse u) ∙ ap reverse e ∙ reverse-append dropped w in
    let start : trim_start (reverse w) ≡ reverse w =
      trim_start_prefix (reverse w) (reverse dropped)
        (subst (λ t. trim_start t ≡ t) split (trim_start_idem s)) in
    ap (λ t. reverse (trim_start (reverse t))) start
    ∙ ap (λ t. reverse (trim_start t)) (reverse-reverse w)
    ∙ ap reverse (trim_start_idem (reverse u))
