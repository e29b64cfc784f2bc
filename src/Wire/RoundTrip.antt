-- ===== src/Wire/RoundTrip.antt =====
-- Frames written by `encodeFrame` come back from the decoder, however the stream is cut.
use mathlib.Core.List.{append_assoc, append-nil, flatten}
use thread_link.Prelude.{
  ℕ, suc, ◌+◌, ◌<◌, ◌≤◌, ◌≡◌, refl, ap, true, false, List, [], ◌∷◌, ◌++◌, map, arith, length, drop,
  length-append, take-length-append, drop-length-append, All,
}
use thread_link.Wire.{
  new_decoder, found, oversized, push_loop, read_uint32_be, write_uint32_be, encode_frame, receive,
}
use thread_link.Wire.Header.{read-write, length-write, drop-write}
use thread_link.Wire.Rounds.{loop_whole, loop_oversized, loop_fuel, size_of, prepend}
use thread_link.Wire.Streams.{decode, IsSettled, receive_lem}

abbrev pub encode_all : List (List ℕ) → List ℕ
encode_all payloads = flatten (map encode_frame payloads)

abbrev pub FitsIn : ℕ → List ℕ → Type 0
FitsIn max payload = length payload ≤ max

drop_frame :
    (n : ℕ) (h body rest : List ℕ)
    → length h ≡ 4
    → n ≡ length body
    → drop (4 + n) (h ++ (body ++ rest)) ≡ rest
drop_frame n h body rest e k =
    rw (k, ← e, ← length-append h body, ← append_assoc h body rest)
      (drop-length-append (h ++ body) rest)

length-header : (n : ℕ) → length (write_uint32_be n) ≡ 4
unfolding write_uint32_be
length-header n = refl

decode_frame :
    (max : ℕ) (body rest : List ℕ)
    → max < 4294967296
    → FitsIn max body
    → decode max (write_uint32_be (length body) ++ (body ++ rest)) ≡ found body (decode max rest)
decode_frame max body rest m h =
    let n = length body in
    let xs = write_uint32_be n ++ (body ++ rest) in
    let size : read_uint32_be xs ≡ n = read-write n (body ++ rest) (omega arith) in
    let long : length xs ≡ n + length rest + 4 =
      omega (arith, length-write n (body ++ rest), length-append {0} body rest) in
    let dropped : drop (size_of xs) xs ≡ rest =
      drop_frame (read_uint32_be xs) (write_uint32_be n) body rest (length-header n) size in
    rw (
      loop_whole (length xs) max xs (omega arith, omega arith),
      dropped,
      size,
      drop-write n (body ++ rest),
      take-length-append body rest,
      loop_fuel (length xs) (suc (length rest)) max rest (omega arith) (omega arith),
    )

decode-encode :
    (max : ℕ) (body rest : List ℕ)
    → max < 4294967296
    → FitsIn max body
    → decode max (encode_frame body ++ rest) ≡ found body (decode max rest)
unfolding encode_frame
decode-encode max body rest m h =
    rw (append_assoc (write_uint32_be (length body)) body rest) (decode_frame max body rest m h)

decode-encode_all :
    (max : ℕ) (payloads : List (List ℕ)) (rest : List ℕ)
    → max < 4294967296
    → All (FitsIn max) payloads
    → decode max (encode_all payloads ++ rest) ≡ prepend payloads (decode max rest)
unfolding flatten
decode-encode_all max [] rest m h = refl
decode-encode_all max (p ∷ ps) rest m (h, hs) = rw (
  append_assoc (encode_frame p) (encode_all ps) rest,
  decode-encode max p (encode_all ps ++ rest) m h,
  decode-encode_all max ps rest m hs,
)

pub IsSettled-new_decoder : (max : ℕ) → IsSettled max new_decoder
unfolding push_loop
IsSettled-new_decoder max = refl

-- Frames that fit, written one after another and cut into chunks in any way, come back as they were,
-- in order, with no error.
pub receive-encode_all :
    (max : ℕ) (payloads chunks : List (List ℕ))
    → max < 4294967296
    → All (FitsIn max) payloads
    → flatten chunks ≡ encode_all payloads
    → receive max new_decoder chunks ≡ record { frames = payloads; too_large = false }
receive-encode_all max payloads chunks m h e =
    rw
      (
        receive_lem max new_decoder chunks (IsSettled-new_decoder max),
        e,
        ← append-nil (encode_all payloads),
        decode-encode_all max payloads [] m h,
        IsSettled-new_decoder max,
      )
      (ap (λ fs. record { frames = fs; too_large = false }) (append-nil payloads))

-- A header that announces more than the limit ends the stream: the frames before it are delivered,
-- the error is raised, and no byte behind the header is read as a frame.
pub receive_oversized :
    (max n : ℕ) (payloads chunks : List (List ℕ)) (junk : List ℕ)
    → max < n
    → n < 4294967296
    → All (FitsIn max) payloads
    → flatten chunks ≡ encode_all payloads ++ (write_uint32_be n ++ junk)
    → receive max new_decoder chunks ≡ record { frames = payloads; too_large = true }
receive_oversized max n payloads chunks junk m w h e =
    let tail = write_uint32_be n ++ junk in
    let size : read_uint32_be tail ≡ n = read-write n junk w in
    let ended : decode max tail ≡ record { frames = []; buffer = tail; ended = oversized } =
      loop_oversized (length tail) max tail (omega (arith, length-write n junk), omega arith) in
    rw
      (
        receive_lem max new_decoder chunks (IsSettled-new_decoder max),
        e,
        decode-encode_all max payloads tail (omega arith) h,
        ended,
      )
      (ap (λ fs. record { frames = fs; too_large = true }) (append-nil payloads))
