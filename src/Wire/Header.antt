-- ===== src/Wire/Header.antt =====
-- The four-byte header: writing a length below 2 ^ 32 and reading it back.
use thread_link.Prelude.{ℕ, ◌+◌, ◌<◌, ◌≤◌, ◌≡◌, refl, List, [], ◌∷◌, ◌++◌, arith, length, All, drop}
use thread_link.Wire.{read_uint32_be, write_uint32_be, encode_frame}

pub read-write :
    (n : ℕ) (rest : List ℕ) → n < 4294967296 → read_uint32_be (write_uint32_be n ++ rest) ≡ n
unfolding read_uint32_be write_uint32_be
read-write n rest h = omega arith

pub length-write : (n : ℕ) (rest : List ℕ) → length (write_uint32_be n ++ rest) ≡ length rest + 4
unfolding write_uint32_be
length-write n rest = omega arith

pub drop-write : (n : ℕ) (rest : List ℕ) → drop 4 (write_uint32_be n ++ rest) ≡ rest
unfolding write_uint32_be
drop-write n rest = refl

abbrev pub IsByte : ℕ → Type 0
IsByte b = b < 256

-- A frame of bytes is made of bytes.
pub encode_frame-IsByte : (body : List ℕ) → All IsByte body → All IsByte (encode_frame body)
unfolding encode_frame write_uint32_be
encode_frame-IsByte body h = (omega arith, (omega arith, (omega arith, (omega arith, h))))

pub read_append : (xs ys : List ℕ) → 4 ≤ length xs → read_uint32_be (xs ++ ys) ≡ read_uint32_be xs
unfolding read_uint32_be
read_append (a ∷ b ∷ c ∷ d ∷ rest) ys h = refl
read_append [] ys h = absurd (omega arith)
read_append (a ∷ []) ys h = absurd (omega arith)
read_append (a ∷ b ∷ []) ys h = absurd (omega arith)
read_append (a ∷ b ∷ c ∷ []) ys h = absurd (omega arith)
