-- ===== src/Prelude/Texts.antt =====
-- A JavaScript string is a sequence of 16-bit code units: a list of numbers. Its `length` is the
-- length of the list, `===` is `==` below, and `<`, which `sort` uses, is `lt_text`.
use Prim.Native.Nat.{ℕ}
use Prim.Native.Char.{code}
use Prim.Native.String.{String}
use mathlib.Core.Path.{◌≡◌, refl}
use mathlib.Core.Logic.{◌↔◌}
use mathlib.Core.Bool.{Bool, true, false, ◌&&◌}
use mathlib.Core.List.{List, [], ◌∷◌}
use native.Mathlib.Omega.{arith}
use thread_link.Prelude.Tests.{nat_beq, ltb, if◌then◌else◌}

abbrev pub Text : Type 0
Text = List ℕ

-- A literal of the source; in all of them a code point is one code unit.
abbrev pub js : String → Text
js String.[] = []
js (String.◌∷◌ c s) = code c ∷ js s

infix 50 ◌==◌
unfoldable pub ◌==◌ : Text → Text → Bool
[] == [] = true
[] == (y ∷ ys) = false
(x ∷ xs) == [] = false
(x ∷ xs) == (y ∷ ys) = nat_beq x y && xs == ys

pub eq_iff : (s t : Text) → ((s == t) ≡ true) ↔ (s ≡ t)
unfolding ◌==◌
eq_iff [] [] = (λ _. refl, λ _. refl)
eq_iff [] (y ∷ ys) = (λ h. cc, λ h. cc)
eq_iff (x ∷ xs) [] = (λ h. cc, λ h. cc)
eq_iff (x ∷ xs) (y ∷ ys) = (λ h. ground (arith, eq_iff xs ys), λ h. ground (arith, eq_iff xs ys))

pub eq_refl : (s : Text) → (s == s) ≡ true
eq_refl s = (eq_iff s s).1 refl

pub eq_comm : (s t : Text) → (s == t) ≡ (t == s)
eq_comm s t = ground (arith, eq_iff s t, eq_iff t s)

-- The order by code units.
unfoldable pub lt_text : Text → Text → Bool
lt_text [] [] = false
lt_text [] (y ∷ ys) = true
lt_text (x ∷ xs) [] = false
lt_text (x ∷ xs) (y ∷ ys) = if ltb x y then true else nat_beq x y && lt_text xs ys

pub lt_text_asymm : (s t : Text) → lt_text s t ≡ true → lt_text t s ≡ false
unfolding lt_text
lt_text_asymm [] [] h = refl
lt_text_asymm [] (y ∷ ys) h = refl
lt_text_asymm (x ∷ xs) [] h = cc
lt_text_asymm (x ∷ xs) (y ∷ ys) h = ground (arith, lt_text_asymm xs ys)

pub lt_text_total : (s t : Text) → lt_text s t ≡ false → lt_text t s ≡ false → s ≡ t
unfolding lt_text
lt_text_total [] [] h k = refl
lt_text_total [] (y ∷ ys) h k = cc
lt_text_total (x ∷ xs) [] h k = cc
lt_text_total (x ∷ xs) (y ∷ ys) h k = ground (arith, lt_text_total xs ys)

-- `includes` of an array of strings.
unfoldable pub includes : List Text → Text → Bool
includes [] t = false
includes (s ∷ ss) t = if s == t then true else includes ss t
