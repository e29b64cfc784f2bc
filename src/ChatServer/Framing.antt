-- ===== src/ChatServer/Framing.antt =====
-- The server's reading of frames, compared with the gateway's FrameDecoder.
use mathlib.Core.List.{flatten}
use thread_link.Prelude.{
  ℕ, zero, suc, ◌+◌, ◌≤◌, ◌<◌, ◌≡◌, refl, sym, ap, ◌∙◌, subst, ◌≢◌, inl, inr, Bool, true, false,
  List, [], ◌∷◌, arith, ltb, nat_beq, if◌then◌else◌, length, take, drop, length-drop, Bool-cases,
}
use thread_link.Wire.{
  PushResult, Loop, LoopEnd, starved, oversized, frame_header_size, push_loop, read_uint32_be,
  found, receive, new_decoder, is_oversized,
}
use thread_link.Wire
use thread_link.Wire.RoundTrip.{IsSettled-new_decoder}
use thread_link.Wire.Rounds.{
  IsPartial, IsWhole, IsOversized, size_of, round_cases, loop_partial, loop_whole, loop_oversized,
}
use thread_link.Wire.Streams.{decode, receive_lem, decode-ne-no_fuel}
use thread_link.ChatServer.Frames.{
  ok, closed_by_peer, too_large, recv_exact, recv_body, recv_frame, ReadEnd, by_peer, by_size,
  no_fuel, Reading, read_on, read_loop, read_frames,
}
use thread_link.ChatServer.Pieces.{recv_exact_short, exact}

drop-nil : (n : ℕ) → drop {A = ℕ} n [] ≡ []
drop-nil zero = refl
drop-nil (suc n) = refl

drop_twice : (m n : ℕ) (xs : List ℕ) → drop n (drop m xs) ≡ drop (m + n) xs
drop_twice zero n xs = ap (λ k. drop k xs) (omega arith)
drop_twice (suc m) n [] = drop-nil n ∙ sym (drop-nil (suc m + n))
drop_twice (suc m) n (x ∷ xs) =
    let later : suc (m + n) ≡ suc m + n = omega arith in
    drop_twice m n xs ∙ ap (λ k. drop k (x ∷ xs)) later

read_take : (xs : List ℕ) → 4 ≤ length xs → read_uint32_be (take 4 xs) ≡ read_uint32_be xs
unfolding read_uint32_be
read_take (a ∷ b ∷ c ∷ d ∷ rest) h = refl
read_take [] h = absurd (omega arith)
read_take (a ∷ []) h = absurd (omega arith)
read_take (a ∷ b ∷ []) h = absurd (omega arith)
read_take (a ∷ b ∷ c ∷ []) h = absurd (omega arith)

recv_exact_zero : (pieces : List (List ℕ)) → recv_exact 0 pieces ≡ ok [] pieces
unfolding recv_exact
recv_exact_zero [] = refl
recv_exact_zero (p ∷ ps) = refl

-- An empty payload is no special case.
body_exact :
    (len : ℕ) (rest : List (List ℕ))
    → (if nat_beq len 0 then ok [] rest else recv_exact len rest) ≡ recv_exact len rest
body_exact zero rest = sym (recv_exact_zero rest)
body_exact (suc len) rest = ground arith

-- The size that the header gives, and what stands behind the header.
headed :
    (max : ℕ) (pieces : List (List ℕ))
    → 4 ≤ length (flatten pieces)
    → let len = read_uint32_be (flatten pieces) in
      (rest : List (List ℕ)) × (recv_frame max pieces
        ≡ (if ltb max len then too_large else recv_exact len rest))
      × (flatten rest ≡ drop 4 (flatten pieces))
unfolding recv_frame
headed max pieces h =
    let e = exact 4 pieces h in
    let same = read_take (flatten pieces) h in
    (
      e.rest,
      ap (recv_body max) e.read
          ∙ ap
              (λ len.
                if ltb max len
                then too_large
                else if nat_beq len 0
                then ok [] e.rest
                else recv_exact len e.rest)
              same
          ∙ ap (λ r. if ltb max (read_uint32_be (flatten pieces)) then too_large else r)
              (body_exact (read_uint32_be (flatten pieces)) e.rest),
      e.left,
    )

recv_frame_oversized :
    (max : ℕ) (pieces : List (List ℕ))
    → IsOversized max (flatten pieces)
    → recv_frame max pieces ≡ too_large
recv_frame_oversized max pieces (h, big) =
    let (rest, e, _) = headed max pieces h in e ∙ ground arith

recv_frame_partial :
    (max : ℕ) (pieces : List (List ℕ))
    → IsPartial max (flatten pieces)
    → recv_frame max pieces ≡ closed_by_peer
unfolding recv_frame
recv_frame_partial max pieces (inl h) = ap (recv_body max) (recv_exact_short 4 pieces h)
recv_frame_partial max pieces (inr (fits, h)) =
    elim (Bool-cases (ltb (length (flatten pieces)) 4)) [
      | inl k ↦ ap (recv_body max) (recv_exact_short 4 pieces (ground arith))
      | inr k ↦
          let xs = flatten pieces in
          let (rest, e, left) = headed max pieces (ground arith) in
          let size : length (flatten rest) < read_uint32_be xs =
            rw left (ground (arith, length-drop 4 xs)) in
          e ∙ ground (arith, recv_exact_short (read_uint32_be xs) rest size)
    ]

not_less : (max len : ℕ) → len ≤ max → ltb max len ≡ false
not_less max len h = ground arith

record Whole (max : ℕ) (pieces : List (List ℕ)) : Type 0 where
  rest : List (List ℕ)
  read :
      recv_frame max pieces
      ≡ ok (take (read_uint32_be (flatten pieces)) (drop 4 (flatten pieces))) rest
  left : flatten rest ≡ drop (size_of (flatten pieces)) (flatten pieces)

recv_frame-Whole :
    (max : ℕ) (pieces : List (List ℕ)) → IsWhole max (flatten pieces) → Whole max pieces
recv_frame-Whole max pieces (fits, h) =
    let xs = flatten pieces in
    let len = read_uint32_be xs in
    let (rest, e, left) = headed max pieces (omega arith) in
    let long : len ≤ length (flatten rest) = rw left (omega (arith, length-drop 4 xs)) in
    let x = exact len rest long in
    record {
      rest = x.rest;
      read = e ∙ rw (not_less max len fits) (x.read ∙ ap (λ l. ok (take len l) x.rest) left);
      left = x.left ∙ ap (drop len) left ∙ drop_twice 4 len xs;
    }

abbrev pub end_of : LoopEnd → ReadEnd
end_of starved = by_peer
end_of oversized = by_size
end_of Wire.no_fuel = no_fuel

abbrev as_reading : Loop → Reading
as_reading l = record { payloads = l.frames; ended = end_of l.ended }

read_loop_lem :
    (fuel max : ℕ) (pieces : List (List ℕ))
    → read_loop fuel max pieces ≡ as_reading (push_loop fuel max (flatten pieces))
unfolding read_loop push_loop
read_loop_lem zero max pieces = refl
read_loop_lem (suc fuel) max pieces = elim (round_cases max (flatten pieces)) [
  | inl h ↦
      ap (read_on (read_loop fuel max)) (recv_frame_partial max pieces h)
      ∙ sym (ap as_reading (loop_partial fuel max (flatten pieces) h))
  | inr (inl h) ↦
      let w = recv_frame-Whole max pieces h in
      let later : read_loop fuel max w.rest
          ≡ as_reading (push_loop fuel max (drop (size_of (flatten pieces)) (flatten pieces))) =
        read_loop_lem fuel max w.rest ∙ ap (λ xs. as_reading (push_loop fuel max xs)) w.left in
      ap (read_on (read_loop fuel max)) w.read
      ∙ ap
          (λ r. record {
            payloads =
                take (read_uint32_be (flatten pieces)) (drop 4 (flatten pieces)) ∷ r.payloads;
            ended = r.ended;
          })
          later
      ∙ sym (ap as_reading (loop_whole fuel max (flatten pieces) h))
  | inr (inr h) ↦
      ap (read_on (read_loop fuel max)) (recv_frame_oversized max pieces h)
      ∙ sym (ap as_reading (loop_oversized fuel max (flatten pieces) h))
]

-- What the gateway's decoder says of a stream.
abbrev pub verdict : ReadEnd → Bool
verdict by_size = true
verdict _ = false

verdict-end_of : (l : LoopEnd) → verdict (end_of l) ≡ is_oversized l
verdict-end_of starved = refl
verdict-end_of oversized = refl
verdict-end_of Wire.no_fuel = refl

end_of-ne : (l : LoopEnd) → l ≢ Wire.no_fuel → end_of l ≢ no_fuel
end_of-ne starved h = λ e. cc
end_of-ne oversized h = λ e. cc
end_of-ne Wire.no_fuel h = absurd (h refl)

-- The server and the gateway read the same frames from the same bytes, whatever the bytes are and
-- however they are cut on the way to each: under one limit the payloads that `recv_frame` gives until it
-- fails are the frames that the decoder gives, in order, and it fails for the size of a frame exactly if
-- the decoder does.
pub read_frames-receive :
    (max : ℕ) (pieces chunks : List (List ℕ))
    → flatten pieces ≡ flatten chunks
    → let r = read_frames max pieces in
      let d = receive max new_decoder chunks in
      (r.payloads ≡ d.frames) × (verdict r.ended ≡ d.too_large) × (r.ended ≢ no_fuel)
unfolding read_frames
read_frames-receive max pieces chunks same =
    let reads = read_loop_lem (suc (length (flatten pieces))) max pieces in
    let gateway = receive_lem max new_decoder chunks (IsSettled-new_decoder max) in
    let whole = ap (decode max) same in
    (
      ap (λ r. r.payloads) reads ∙ ap (λ l. l.frames) whole ∙ sym (ap (λ r. r.frames) gateway),
      ap (λ r. verdict r.ended) reads
          ∙ verdict-end_of (decode max (flatten pieces)).ended
          ∙ ap (λ l. is_oversized l.ended) whole
          ∙ sym (ap (λ r. r.too_large) gateway),
      subst (λ r. r.ended ≢ no_fuel) (sym reads)
          (end_of-ne (decode max (flatten pieces)).ended (decode-ne-no_fuel max (flatten pieces))),
    )
