-- ===== src/Auth.antt =====
-- gateway/src/auth.ts: password hashing. scrypt is Node's, and so is the random salt: both are
-- arguments. A Buffer is a list of bytes.
pub mod Hex
pub mod Passwords
use thread_link.Prelude.{
  ℕ, ◌+◌, ◌-◌, ◌*◌, ◌/◌, ◌%◌, Bool, true, false, ◌&&◌, Option, none, some, List, [], ◌∷◌, ltb, leb,
  nat_beq, if◌then◌else◌, length, Text, ◌==◌,
}

pub record PasswordRecord : Type 0 where
  pub hash : Text
  pub salt : Text

-- `Buffer.toString("hex")`.
abbrev hex_digit : ℕ → ℕ
hex_digit n = if ltb n 10 then 48 + n else 87 + n

unfoldable pub to_hex : List ℕ → Text
to_hex [] = []
to_hex (b ∷ bs) = hex_digit (b / 16) ∷ hex_digit (b % 16) ∷ to_hex bs

-- `Buffer.from(s, "hex")`: it stops at the first pair that is no two hexadecimal digits.
abbrev hex_value : ℕ → Option ℕ
hex_value c =
    if leb 48 c && leb c 57
    then some (c - 48)
    else if leb 97 c && leb c 102
    then some (c - 87)
    else if leb 65 c && leb c 70
    then some (c - 55)
    else none

abbrev hex_byte : Option ℕ → Option ℕ → Option ℕ
hex_byte (some hi) (some lo) = some (hi * 16 + lo)
hex_byte _ _ = none

unfoldable pub from_hex : Text → List ℕ
from_hex [] = []
from_hex (c ∷ []) = []
from_hex (c ∷ d ∷ s) =
    let rest = from_hex s in
    elim (hex_byte (hex_value c) (hex_value d)) [ none ↦ [] | some b ↦ b ∷ rest ]

-- `scrypt(password, salt, 64)`.
abbrev pub Scrypt : Type 0
Scrypt = Text → List ℕ → List ℕ

unfoldable pub hash_password : Scrypt → List ℕ → Text → PasswordRecord
unfolding to_hex
hash_password scrypt salt password = record {
  hash = to_hex (scrypt password salt);
  salt = to_hex salt;
}

-- `timingSafeEqual` compares buffers of one length.
unfoldable pub verify_password : Scrypt → Text → PasswordRecord → Bool
unfolding from_hex
verify_password scrypt password r =
    let derived = scrypt password (from_hex r.salt) in
    let expected = from_hex r.hash in
    if nat_beq (length derived) (length expected) then derived == expected else false
