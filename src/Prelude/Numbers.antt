-- ===== src/Prelude/Numbers.antt =====
-- White space and numerals in text, as JavaScript's `trim` and `Number.parseInt(s, 10)` read them.
use Prim.Native.Nat.{ℕ, zero, suc, ◌+◌, ◌-◌, ◌*◌, ◌/◌, ◌%◌}
use mathlib.Core.Bool.{Bool, ◌&&◌, ◌||◌}
use mathlib.Core.List.{[], ◌∷◌, ◌++◌, reverse}
use mathlib.Core.Option.{Option, none, some}
use thread_link.Prelude.Tests.{nat_beq, ltb, leb, if◌then◌else◌}
use thread_link.Prelude.Texts.{Text}

-- `negsuc n` is -(n + 1).
pub data ℤ : Type 0 where
  pos : ℕ → ℤ
  negsuc : ℕ → ℤ

unfoldable pub negate : ℕ → ℤ
negate zero = pos 0
negate (suc n) = negsuc n

-- WhiteSpace and LineTerminator of ECMAScript.
unfoldable pub is_blank : ℕ → Bool
is_blank c =
    nat_beq c 32
    || (leb 9 c && leb c 13)
    || nat_beq c 160
    || nat_beq c 0xfeff
    || nat_beq c 0x1680
    || (leb 0x2000 c && leb c 0x200a)
    || nat_beq c 0x2028
    || nat_beq c 0x2029
    || nat_beq c 0x202f
    || nat_beq c 0x205f
    || nat_beq c 0x3000

unfoldable pub trim_start : Text → Text
unfolding is_blank
trim_start [] = []
trim_start (c ∷ s) = let rest = trim_start s in if is_blank c then rest else c ∷ s

unfoldable pub trim : Text → Text
unfolding trim_start
trim s = reverse (trim_start (reverse (trim_start s)))

abbrev pub is_digit : ℕ → Bool
is_digit c = leb 48 c && leb c 57

unfoldable pub digits_from : ℕ → Text → ℕ
digits_from n [] = n
digits_from n (c ∷ s) =
    let rest = digits_from (n * 10 + (c - 48)) s in if is_digit c then rest else n

unfoldable pub unsigned : Text → Option ℕ
unfolding digits_from
unsigned [] = none
unsigned (c ∷ s) = if is_digit c then some (digits_from 0 (c ∷ s)) else none

abbrev signed : (ℕ → ℤ) → Option ℕ → Option ℤ
signed f none = none
signed f (some n) = some (f n)

unfoldable pub after_blanks : Text → Option ℤ
unfolding unsigned negate
after_blanks [] = none
after_blanks (c ∷ s) =
    if nat_beq c b'-'
    then signed negate (unsigned s)
    else if nat_beq c b'+'
    then signed pos (unsigned s)
    else signed pos (unsigned (c ∷ s))

-- `none` is NaN. The value is exact, where JavaScript rounds it from 2 ^ 53 on.
unfoldable pub parse_int : Text → Option ℤ
unfolding trim_start after_blanks
parse_int s = after_blanks (trim_start s)

-- `String(n)`: each round leaves a smaller number, so that n rounds and one are enough.
unfoldable pub decimal_from : ℕ → ℕ → Text
decimal_from zero n = []
decimal_from (suc fuel) n =
    let before = decimal_from fuel (n / 10) in
    if ltb n 10 then (48 + n) ∷ [] else before ++ (48 + n % 10) ∷ []

unfoldable pub decimal : ℕ → Text
unfolding decimal_from
decimal n = decimal_from (suc n) n
