-- ===== src/Users/Validation.antt =====
-- What the validation of usernames and passwords accepts.
use thread_link.Prelude.{
  ℕ, ◌≤◌, ◌≡◌, refl, ◌↔◌, ◌⊎◌, true, none, [], ◌∷◌, arith, length, All, all, Text,
}
use thread_link.Users.{is_username_unit, matches_username, validate_username, validate_password}

abbrev pub Between : ℕ → ℕ → ℕ → Type 0
Between lo hi c = (lo ≤ c) × (c ≤ hi)

-- A letter, a digit, "_" or "-".
abbrev pub IsUsernameUnit : ℕ → Type 0
IsUsernameUnit c =
    Between b'A' b'Z' c ⊎ (Between b'a' b'z' c ⊎ (Between b'0' b'9' c ⊎ ((c ≡ b'_') ⊎ (c ≡ b'-'))))

unit_iff : (c : ℕ) → (is_username_unit c ≡ true) ↔ IsUsernameUnit c
unfolding is_username_unit
unit_iff c = ground arith

all-unit_iff : (s : Text) → (all is_username_unit s ≡ true) ↔ All IsUsernameUnit s
unfolding all
all-unit_iff [] = (λ _. tt, λ _. refl)
all-unit_iff (c ∷ s) = ground (arith, unit_iff c, all-unit_iff s)

-- A username is accepted exactly when it has 1 to 24 code units, each a letter, a digit, "_" or "-".
pub validate_username_iff :
    (s : Text) → (validate_username s ≡ none) ↔ (Between 1 24 (length s) × All IsUsernameUnit s)
unfolding validate_username matches_username
validate_username_iff s = ground (arith, all-unit_iff s)

-- A password is accepted exactly when it has 8 to 256 code units.
pub validate_password_iff : (s : Text) → (validate_password s ≡ none) ↔ Between 8 256 (length s)
unfolding validate_password
validate_password_iff s = ground arith
