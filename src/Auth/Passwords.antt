-- ===== src/Auth/Passwords.antt =====
-- A stored record accepts the password that it was made from, and no other that scrypt tells apart.
use thread_link.Prelude.{ℕ, ◌≡◌, ◌↔◌, true, List, arith, Text, All, eq_iff, length, ap}
use thread_link.Wire.Header.{IsByte}
use thread_link.Auth.{Scrypt, hash_password, verify_password}
use thread_link.Auth.Hex.{from_hex-to_hex}

-- Against the record of `stored`, a password is accepted exactly when scrypt derives the same key
-- from it: so the password itself always is. scrypt and the salt give bytes.
pub verify-hash_iff :
    (scrypt : Scrypt) (salt : List ℕ) (stored given : Text)
    → All IsByte salt
    → All IsByte (scrypt stored salt)
    → (verify_password scrypt given (hash_password scrypt salt stored) ≡ true)
      ↔ (scrypt given salt ≡ scrypt stored salt)
unfolding verify_password hash_password
verify-hash_iff scrypt salt stored given hs hk =
    rw (from_hex-to_hex salt hs, from_hex-to_hex (scrypt stored salt) hk)
      (ground (
        arith,
        eq_iff (scrypt given salt) (scrypt stored salt),
        λ (e : scrypt given salt ≡ scrypt stored salt). ap length e,
      ))
