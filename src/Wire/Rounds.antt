-- ===== src/Wire/Rounds.antt =====
-- The rounds of the loop of `push`: its fuel is always enough, and further bytes at the end of the
-- buffer leave the frames that it finds as they are.
use thread_link.Prelude.{
  ℕ, zero, suc, ◌+◌, ◌-◌, ◌<◌, ◌≤◌, ◌≡◌, refl, ◌≢◌, ◌⊎◌, inl, inr, List, [], ◌∷◌, ◌++◌, arith,
  length, take, drop, length-append, length-drop, take-append, drop-append,
}
use thread_link.Wire.{
  Loop, starved, oversized, no_fuel, push_loop, joined, read_uint32_be, frame_header_size, found,
}
use thread_link.Wire.Header.{read_append}

-- A round more than the buffer has bytes is enough: the loop never runs out of fuel.
pub push_loop-ne-no_fuel :
    (f max : ℕ) (xs : List ℕ) → length xs < f → (push_loop f max xs).ended ≢ no_fuel
unfolding push_loop
push_loop-ne-no_fuel zero max xs h = absurd (omega arith)
push_loop-ne-no_fuel (suc f) max xs h =
    let n = frame_header_size + read_uint32_be xs in
    ground (arith, push_loop-ne-no_fuel f max (drop n xs), length-drop n xs)

pub loop_fuel :
    (f g max : ℕ) (xs : List ℕ)
    → length xs < f
    → length xs < g
    → push_loop f max xs ≡ push_loop g max xs
unfolding push_loop
loop_fuel zero g max xs h k = absurd (omega arith)
loop_fuel (suc f) zero max xs h k = absurd (omega arith)
loop_fuel (suc f) (suc g) max xs h k =
    let n = frame_header_size + read_uint32_be xs in
    ground (arith, loop_fuel f g max (drop n xs), length-drop n xs)

pub length-buffer : (f max : ℕ) (xs : List ℕ) → length (push_loop f max xs).buffer ≤ length xs
unfolding push_loop
length-buffer zero max xs = omega arith
length-buffer (suc f) max xs =
    let n = frame_header_size + read_uint32_be xs in
    ground (arith, length-buffer f max (drop n xs), length-drop n xs)

-- One round of the loop, by its three ways to go.
abbrev pub size_of : List ℕ → ℕ
size_of xs = frame_header_size + read_uint32_be xs

abbrev pub IsPartial : ℕ → List ℕ → Type 0
IsPartial max xs =
    (length xs < frame_header_size) ⊎ ((read_uint32_be xs ≤ max) × (length xs < size_of xs))

abbrev pub IsWhole : ℕ → List ℕ → Type 0
IsWhole max xs = (read_uint32_be xs ≤ max) × (size_of xs ≤ length xs)

abbrev pub IsOversized : ℕ → List ℕ → Type 0
IsOversized max xs = (frame_header_size ≤ length xs) × (max < read_uint32_be xs)

pub round_cases : (max : ℕ) (xs : List ℕ) → IsPartial max xs ⊎ (IsWhole max xs ⊎ IsOversized max xs)
round_cases max xs = grind arith

pub loop_partial :
    (f max : ℕ) (xs : List ℕ)
    → IsPartial max xs
    → push_loop (suc f) max xs ≡ record { frames = []; buffer = xs; ended = starved }
unfolding push_loop
loop_partial f max xs h = ground arith

pub loop_whole :
    (f max : ℕ) (xs : List ℕ)
    → IsWhole max xs
    → push_loop (suc f) max xs
      ≡ found
          (take (read_uint32_be xs) (drop frame_header_size xs))
          (push_loop f max (drop (size_of xs) xs))
unfolding push_loop
loop_whole f max xs h = ground arith

pub loop_oversized :
    (f max : ℕ) (xs : List ℕ)
    → IsOversized max xs
    → push_loop (suc f) max xs ≡ record { frames = []; buffer = xs; ended = oversized }
unfolding push_loop
loop_oversized f max xs h = ground arith

abbrev pub prepend : List (List ℕ) → Loop → Loop
prepend fs l = record { frames = fs ++ l.frames; buffer = l.buffer; ended = l.ended }

IsWhole-append : (max : ℕ) (xs ys : List ℕ) → IsWhole max xs → IsWhole max (xs ++ ys)
IsWhole-append max xs ys h = rw (read_append xs ys (omega arith), length-append xs ys) (omega arith)

-- The first frame of a longer buffer, where the shorter one holds a whole frame.
loop_whole-append :
    (f max : ℕ) (xs ys : List ℕ)
    → IsWhole max xs
    → push_loop (suc f) max (xs ++ ys)
      ≡ found
          (take (read_uint32_be xs) (drop frame_header_size xs))
          (push_loop f max (drop (size_of xs) xs ++ ys))
loop_whole-append f max xs ys h = rw (
  loop_whole f max (xs ++ ys) (IsWhole-append max xs ys h),
  read_append xs ys (omega arith),
  drop-append (size_of xs) xs ys (omega arith),
  drop-append frame_header_size xs ys (omega arith),
  take-append (read_uint32_be xs) (drop frame_header_size xs) ys
      (omega (arith, length-drop frame_header_size xs)),
)

pub loop-append :
    (f g max : ℕ) (xs ys : List ℕ)
    → length xs < f
    → length (xs ++ ys) < g
    → (push_loop f max xs).ended ≡ starved
    → push_loop g max (xs ++ ys)
      ≡ prepend (push_loop f max xs).frames (push_loop g max ((push_loop f max xs).buffer ++ ys))
loop-append zero g max xs ys h k e = absurd (omega arith)
loop-append (suc f) zero max xs ys h k e = absurd (omega arith)
loop-append (suc f) (suc g) max xs ys h k e = elim (round_cases max xs) [
  | inl p ↦ rw (loop_partial f max xs p)
  | inr (inl w) ↦
      let n = drop (size_of xs) xs in
      let shorter : length n ≡ length xs - size_of xs = length-drop (size_of xs) xs in
      let left = (push_loop f max n).buffer in
      let room : length (left ++ ys) < g =
        omega (arith, length-append {0} left ys, length-append {0} xs ys, length-buffer f max n) in
      rw (
        loop_whole-append g max xs ys w,
        loop_whole f max xs w,
        loop-append f g max n ys (omega arith)
            (omega (arith, length-append {0} n ys, length-append {0} xs ys))
            (rw (loop_whole f max xs w) at e),
        loop_fuel (suc g) g max (left ++ ys) (omega arith) room,
      )
  | inr (inr o) ↦ cc (loop_oversized f max xs o)
]

abbrev pub grown : Loop → List ℕ → Loop
grown l ys = record { frames = l.frames; buffer = l.buffer ++ ys; ended = l.ended }

-- Once a header is too large, further bytes change nothing of what was found.
pub oversized-append :
    (f g max : ℕ) (xs ys : List ℕ)
    → length (xs ++ ys) < g
    → (push_loop f max xs).ended ≡ oversized
    → push_loop g max (xs ++ ys) ≡ grown (push_loop f max xs) ys
oversized-append zero g max xs ys k e = unfold push_loop in cc e
oversized-append (suc f) zero max xs ys k e = absurd (omega arith)
oversized-append (suc f) (suc g) max xs ys k e = elim (round_cases max xs) [
  | inl p ↦ cc (loop_partial f max xs p)
  | inr (inl w) ↦
      let n = drop (size_of xs) xs in
      let shorter : length n ≡ length xs - size_of xs = length-drop (size_of xs) xs in
      rw (
        loop_whole-append g max xs ys w,
        loop_whole f max xs w,
        oversized-append f g max n ys
            (omega (arith, length-append {0} n ys, length-append {0} xs ys))
            (rw (loop_whole f max xs w) at e),
      )
  | inr (inr o) ↦ rw (
    loop_oversized f max xs o,
    loop_oversized g max (xs ++ ys)
        (rw (read_append xs ys (omega arith), length-append xs ys) (omega arith)),
  )
]

-- What is left in the buffer holds no further frame.
pub left_partial :
    (f g max : ℕ) (xs : List ℕ)
    → length xs < f
    → (push_loop f max xs).ended ≡ starved
    → push_loop (suc g) max (push_loop f max xs).buffer
      ≡ record { frames = []; buffer = (push_loop f max xs).buffer; ended = starved }
left_partial zero g max xs h e = absurd (omega arith)
left_partial (suc f) g max xs h e = elim (round_cases max xs) [
  | inl p ↦ rw (loop_partial f max xs p) (loop_partial g max xs p)
  | inr (inl w) ↦
      let n = drop (size_of xs) xs in
      rw (loop_whole f max xs w) (
        left_partial f g max n (omega (arith, length-drop (size_of xs) xs))
          (rw (loop_whole f max xs w) at e))
  | inr (inr o) ↦ cc (loop_oversized f max xs o)
]

pub joined_lem : (buffer chunk : List ℕ) → joined buffer chunk ≡ buffer ++ chunk
joined_lem [] chunk = refl
joined_lem (b ∷ bs) chunk = ground arith
