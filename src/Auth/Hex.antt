-- ===== src/Auth/Hex.antt =====
-- Bytes written in hexadecimal are read back.
use thread_link.Prelude.{
  ℕ, ◌+◌, ◌*◌, ◌/◌, ◌%◌, ◌<◌, ◌≡◌, refl, ◌∙◌, Text, some, List, [], ◌∷◌, arith, All,
}
use mathlib.Core.Path.{ap₂}
use thread_link.Wire.Header.{IsByte}
use thread_link.Auth.{to_hex, from_hex, hex_digit, hex_value}

hex_value-hex_digit : (n : ℕ) → n < 16 → hex_value (hex_digit n) ≡ some n
hex_value-hex_digit n h = ground arith

from_hex-cons :
    (c d : ℕ) (s : Text) (hi lo : ℕ)
    → hex_value c ≡ some hi
    → hex_value d ≡ some lo
    → from_hex (c ∷ d ∷ s) ≡ (hi * 16 + lo) ∷ from_hex s
unfolding from_hex
from_hex-cons c d s hi lo p q = ground arith

-- Bytes written in hexadecimal are read back.
pub from_hex-to_hex : (bs : List ℕ) → All IsByte bs → from_hex (to_hex bs) ≡ bs
unfolding to_hex
from_hex-to_hex [] h = unfold from_hex in refl
from_hex-to_hex (b ∷ bs) (p, h) =
    from_hex-cons (hex_digit (b / 16)) (hex_digit (b % 16)) (to_hex bs) (b / 16) (b % 16)
      (hex_value-hex_digit (b / 16) (omega arith)) (hex_value-hex_digit (b % 16) (omega arith))
    ∙ ap₂ (λ n r. n ∷ r) (omega arith) (from_hex-to_hex bs h)
