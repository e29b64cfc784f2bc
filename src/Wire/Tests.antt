-- ===== src/Wire/Tests.antt =====
-- Tests and examples for the frames.
use mathlib.Core.List.{flatten}
use thread_link.Prelude.{ℕ, ◌≡◌, refl, true, false, List, [], ◌∷◌, arith}
use thread_link.Wire.{
  push, push_loop, new_decoder, receive, encode_frame, write_uint32_be, read_uint32_be,
}
use thread_link.Wire.RoundTrip.{receive-encode_all, receive_oversized}

abbrev hi_chunks : List (List ℕ)
hi_chunks = (0 ∷ 0 ∷ []) ∷ (0 ∷ 2 ∷ 104 ∷ []) ∷ (105 ∷ 0 ∷ 0 ∷ 0 ∷ 0 ∷ []) ∷ []

push_two_frames :
    (push 8 new_decoder (0 ∷ 0 ∷ 0 ∷ 1 ∷ 7 ∷ 0 ∷ [])).0
    ≡ record { frames = (7 ∷ []) ∷ []; too_large = false }
unfolding push push_loop read_uint32_be
push_two_frames = refl

receive-encode_all_example :
    receive 8 new_decoder hi_chunks
    ≡ record { frames = (104 ∷ 105 ∷ []) ∷ [] ∷ []; too_large = false }
unfolding encode_frame write_uint32_be flatten
receive-encode_all_example =
    receive-encode_all 8 ((104 ∷ 105 ∷ []) ∷ [] ∷ []) hi_chunks (omega arith) (omega arith) refl

receive_oversized_example :
    receive 8 new_decoder ((0 ∷ 0 ∷ 0 ∷ 1 ∷ 7 ∷ 0 ∷ 0 ∷ []) ∷ (1 ∷ 0 ∷ 9 ∷ []) ∷ [])
    ≡ record { frames = (7 ∷ []) ∷ []; too_large = true }
unfolding encode_frame write_uint32_be flatten
receive_oversized_example =
    receive_oversized 8 256 ((7 ∷ []) ∷ [])
      ((0 ∷ 0 ∷ 0 ∷ 1 ∷ 7 ∷ 0 ∷ 0 ∷ []) ∷ (1 ∷ 0 ∷ 9 ∷ []) ∷ []) (9 ∷ []) (omega arith)
      (omega arith) (omega arith) refl
