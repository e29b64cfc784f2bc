-- ===== src/Wire/Streams.antt =====
-- The stream as a whole: frames written by `encodeFrame` come back from the decoder, however the
-- stream is cut into chunks.
use mathlib.Core.List.{append_assoc, append-nil, flatten}
use thread_link.Prelude.{
  ℕ, suc, ◌<◌, ◌≡◌, refl, ap, ◌≢◌, ◌⊎◌, inl, inr, false, List, [], ◌∷◌, ◌++◌, arith, length,
  length-append,
}
use thread_link.Wire.{
  FrameDecoder, PushResult, Loop, LoopEnd, starved, oversized, no_fuel, is_oversized, push_loop,
  push, receive,
}
use thread_link.Wire.Rounds.{
  push_loop-ne-no_fuel, length-buffer, loop_fuel, loop-append, prepend, grown, oversized-append,
  left_partial, joined_lem,
}

-- What the loop finds in a whole buffer.
abbrev pub decode : ℕ → List ℕ → Loop
decode max xs = push_loop (suc (length xs)) max xs

abbrev pub outcome : Loop → PushResult
outcome l = record { frames = l.frames; too_large = is_oversized l.ended }

push_lem :
    (max : ℕ) (d : FrameDecoder) (chunk : List ℕ)
    → push max d chunk ≡ (
      outcome (decode max (d.buffer ++ chunk)),
      record { buffer = (decode max (d.buffer ++ chunk)).buffer },
    )
unfolding push
push_lem max d chunk = rw (joined_lem d.buffer chunk)

LoopEnd-cases : (l : LoopEnd) → (l ≡ starved) ⊎ ((l ≡ oversized) ⊎ (l ≡ no_fuel))
LoopEnd-cases starved = inl refl
LoopEnd-cases oversized = inr (inl refl)
LoopEnd-cases no_fuel = inr (inr refl)

-- Nothing more is found in the decoder's buffer as it stands.
abbrev pub IsSettled : ℕ → FrameDecoder → Type 0
IsSettled max d = decode max d.buffer ≡ record { frames = []; buffer = d.buffer; ended = starved }

-- Decoding a longer buffer, by how the shorter one ends.
decode-append :
    (max : ℕ) (xs ys : List ℕ)
    → (decode max xs).ended ≡ starved
    → decode max (xs ++ ys)
      ≡ prepend (decode max xs).frames (decode max ((decode max xs).buffer ++ ys))
decode-append max xs ys e =
    let l = decode max xs in
    let rest = l.buffer ++ ys in
    let room : length rest < suc (length (xs ++ ys)) = omega (
      arith,
      length-append {0} l.buffer ys,
      length-append {0} xs ys,
      length-buffer (suc (length xs)) max xs,
    ) in
    rw (
      loop-append (suc (length xs)) (suc (length (xs ++ ys))) max xs ys (omega arith) (omega arith)
          e,
      loop_fuel (suc (length (xs ++ ys))) (suc (length rest)) max rest room (omega arith),
    )

decode-append_oversized :
    (max : ℕ) (xs ys : List ℕ)
    → (decode max xs).ended ≡ oversized
    → decode max (xs ++ ys) ≡ grown (decode max xs) ys
decode-append_oversized max xs ys e =
    oversized-append (suc (length xs)) (suc (length (xs ++ ys))) max xs ys (omega arith) e

pub decode-ne-no_fuel : (max : ℕ) (xs : List ℕ) → (decode max xs).ended ≢ no_fuel
decode-ne-no_fuel max xs = push_loop-ne-no_fuel (suc (length xs)) max xs (omega arith)

decode-IsSettled :
    (max : ℕ) (xs : List ℕ)
    → (decode max xs).ended ≡ starved
    → IsSettled max (record { buffer = (decode max xs).buffer })
decode-IsSettled max xs e =
    left_partial (suc (length xs)) (length (decode max xs).buffer) max xs (omega arith) e

not_oversized :
    (max : ℕ) (xs : List ℕ)
    → is_oversized (decode max xs).ended ≡ false
    → (decode max xs).ended ≡ starved
not_oversized max xs h = elim (LoopEnd-cases (decode max xs).ended) [
  | inl s ↦ s
  | inr (inl o) ↦ cc (ap is_oversized o)
  | inr (inr n) ↦ absurd (decode-ne-no_fuel max xs n)
]

-- `push` on two chunks in turn is `push` on their concatenation, as long as the first finds no
-- oversized header: the same frames in the same order, the same error, the same buffer.
pub push-append :
    (max : ℕ) (d : FrameDecoder) (xs ys : List ℕ)
    → (push max d xs).0.too_large ≡ false
    → let (first, d') = push max d xs in
      let (second, d'') = push max d' ys in
      push max d (xs ++ ys)
      ≡ (record { frames = first.frames ++ second.frames; too_large = second.too_large }, d'')
push-append max d xs ys h =
    let b = d.buffer ++ xs in
    let s : (decode max b).ended ≡ starved = not_oversized max b (rw (push_lem max d xs) at h) in
    rw (
      push_lem max d xs,
      push_lem max (record { buffer = (decode max b).buffer }) ys,
      push_lem max d (xs ++ ys),
      ← append_assoc d.buffer xs ys,
      decode-append max b ys s,
    )

pub receive_lem :
    (max : ℕ) (d : FrameDecoder) (chunks : List (List ℕ))
    → IsSettled max d
    → receive max d chunks ≡ outcome (decode max (d.buffer ++ flatten chunks))
unfolding receive flatten
receive_lem max d [] s = rw append-nil (rw s)
receive_lem max d (chunk ∷ chunks) s =
    let b = d.buffer ++ chunk in
    let tail = flatten chunks in
    elim (LoopEnd-cases (decode max b).ended) [
      | inl e ↦ rw (
        push_lem max d chunk,
        e,
        receive_lem max (record { buffer = (decode max b).buffer }) chunks
            (decode-IsSettled max b e),
        ← append_assoc d.buffer chunk tail,
        decode-append max b tail e,
      )
      | inr (inl e) ↦ rw (
        push_lem max d chunk,
        e,
        ← append_assoc d.buffer chunk tail,
        decode-append_oversized max b tail e,
        e,
      )
      | inr (inr e) ↦ absurd (decode-ne-no_fuel max b e)
    ]
