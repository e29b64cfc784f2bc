-- ===== src/Prelude/Decimals.antt =====
-- Numerals, written and read back.
use Prim.Native.Nat.{ℕ, zero, suc, ◌+◌, ◌*◌, ◌-◌, ◌/◌, ◌%◌, ◌≤◌, ◌<◌}
use mathlib.Core.Path.{◌≡◌, refl, sym, ap, ◌∙◌}
use mathlib.Core.Logic.{◌≢◌, inl, inr}
use mathlib.Core.List.{[], ◌∷◌, ◌++◌}
use mathlib.Core.Option.{Option, some}
use native.Mathlib.Omega.{arith}
use thread_link.Prelude.Tests.{ltb, Bool-cases}
use thread_link.Prelude.Lists.{length, length-append, All, All-append}
use thread_link.Prelude.Texts.{Text}
use thread_link.Prelude.Numbers.{
  ℤ, pos, digits_from, decimal_from, decimal, parse_int, unsigned, after_blanks, trim_start,
  is_blank,
}

abbrev pub IsDigit : ℕ → Type 0
IsDigit c = (48 ≤ c) × (c ≤ 57)

digits_from-append :
    (a : ℕ) (s t : Text) → All IsDigit s → digits_from a (s ++ t) ≡ digits_from (digits_from a s) t
unfolding digits_from
digits_from-append a [] t h = refl
digits_from-append a (c ∷ s) t (p, h) = ground (arith, digits_from-append (a * 10 + (c - 48)) s t h)

decimal_from-IsDigits : (fuel n : ℕ) → All IsDigit (decimal_from fuel n)
unfolding decimal_from
decimal_from-IsDigits zero n = tt
decimal_from-IsDigits (suc fuel) n = elim (Bool-cases (ltb n 10)) [
  | inl h ↦ rw h ((omega arith, ground arith), tt)
  | inr h ↦ rw h (
      All-append IsDigit (decimal_from fuel (n / 10)) _ (decimal_from-IsDigits fuel (n / 10))
        ((omega arith, omega arith), tt))
]

digits-decimal_from : (fuel n : ℕ) → n < fuel → digits_from 0 (decimal_from fuel n) ≡ n
unfolding decimal_from digits_from
digits-decimal_from zero n h = absurd (omega arith)
digits-decimal_from (suc fuel) n h = elim (Bool-cases (ltb n 10)) [
  | inl k ↦ rw k (ground arith)
  | inr k ↦
      rw
        (
          k,
          digits_from-append 0 (decimal_from fuel (n / 10)) ((48 + n % 10) ∷ [])
              (decimal_from-IsDigits fuel (n / 10)),
          digits-decimal_from fuel (n / 10) (ground arith),
        )
        (ground arith)
]

pub decimal-IsDigits : (n : ℕ) → All IsDigit (decimal n)
unfolding decimal
decimal-IsDigits n = decimal_from-IsDigits (suc n) n

append-ne-nil : (s : Text) (c : ℕ) → s ++ c ∷ [] ≢ []
append-ne-nil [] c h = cc
append-ne-nil (d ∷ s) c h = cc

decimal-ne-nil : (n : ℕ) → decimal n ≢ []
unfolding decimal decimal_from
decimal-ne-nil n = ground (arith, append-ne-nil (decimal_from n (n / 10)) (48 + n % 10))

parse_digits : (s : Text) → All IsDigit s → s ≢ [] → parse_int s ≡ some (pos (digits_from 0 s))
unfolding parse_int trim_start is_blank after_blanks unsigned
parse_digits [] h k = absurd (k refl)
parse_digits (c ∷ s) (p, h) k = ground arith

pub parse-decimal : (n : ℕ) → parse_int (decimal n) ≡ some (pos n)
unfolding decimal
parse-decimal n =
    parse_digits (decimal n) (decimal-IsDigits n) (decimal-ne-nil n)
    ∙ ap (λ m. some (pos m)) (digits-decimal_from (suc n) n (omega arith))

pos_inj : (m n : ℕ) → (◌≡◌ {A = Option ℤ} (some (pos m)) (some (pos n))) → m ≡ n
pos_inj m n h = cc

pub decimal_inj : (m n : ℕ) → decimal m ≡ decimal n → m ≡ n
decimal_inj m n h = pos_inj m n (sym (parse-decimal m) ∙ ap parse_int h ∙ parse-decimal n)

abbrev pub ten_to : ℕ → ℕ
ten_to zero = 1
ten_to (suc k) = ten_to k * 10

length-decimal_from_le : (fuel n k : ℕ) → n < ten_to (suc k) → length (decimal_from fuel n) ≤ suc k
unfolding decimal_from
length-decimal_from_le zero n k h = omega arith
length-decimal_from_le (suc fuel) n zero h = ground arith
length-decimal_from_le (suc fuel) n (suc k) h =
    let shorter = length-decimal_from_le fuel (n / 10) k (omega arith) in
    let l = length-append (decimal_from fuel (n / 10)) ((48 + n % 10) ∷ []) in
    elim (Bool-cases (ltb n 10)) [ inl e ↦ rw e (omega arith) | inr e ↦ rw e (omega arith) ]

-- A number below 10 ^ (k + 1) has at most k + 1 digits.
pub length-decimal_le : (n k : ℕ) → n < ten_to (suc k) → length (decimal n) ≤ suc k
unfolding decimal
length-decimal_le n k h = length-decimal_from_le (suc n) n k h
