-- ===== src/ChatServer/Bytes.antt =====
-- The lines between the gateway and the server as bytes: the gateway's texts are UTF-16 code units, the
-- server's are the bytes of a `std::string`. UTF-8 is a parameter.
use thread_link.Prelude.{
  ℕ, ◌≡◌, refl, sym, ap, ◌∙◌, ◌<◌, ◌≤◌, List, [], ◌∷◌, ◌++◌, All, Text, length, arith,
}
use mathlib.Core.List.{append-nil, flatten}
use thread_link.Wire.{PushResult, encode_frame}
use thread_link.Wire.RoundTrip.{FitsIn, receive-encode_all}
use thread_link.ChatServer.Frames.{read_frames}
use thread_link.ChatServer.Framing.{read_frames-receive}
use thread_link.BackendConnection.{Utf8}
use thread_link.ChatServer.{ServerConfig}

abbrev pub IsAscii : Text → Type 0
IsAscii = All (λ c. c < 128)

-- UTF-8 writes an ASCII character as its own byte.
abbrev pub KeepsAscii : Utf8 → Type 0
KeepsAscii utf8 = (c : ℕ) (s : Text) → c < 128 → utf8.to_bytes (c ∷ s) ≡ c ∷ utf8.to_bytes s

-- The text is read from its bytes again, as every text without lone surrogates is.
abbrev pub ComesBack : Utf8 → Text → Type 0
ComesBack utf8 s = utf8.to_text (utf8.to_bytes s) ≡ s

-- The server sends the text, in bytes, in a frame.
abbrev pub FitsFrame : ServerConfig → Utf8 → Text → Type 0
FitsFrame config utf8 s = length (utf8.to_bytes s) ≤ config.max_message_size

pub to_bytes-ascii :
    (utf8 : Utf8) (s t : Text)
    → KeepsAscii utf8
    → IsAscii s
    → utf8.to_bytes (s ++ t) ≡ s ++ utf8.to_bytes t
to_bytes-ascii utf8 [] t k h = refl
to_bytes-ascii utf8 (c ∷ s) t k (p, h) =
    k c (s ++ t) p ∙ ap (λ x. c ∷ x) (to_bytes-ascii utf8 s t k h)

-- A line of the form "PREFIX nickname text".
pub to_bytes-line :
    (utf8 : Utf8) (prefix nickname t : Text)
    → KeepsAscii utf8
    → IsAscii prefix
    → IsAscii nickname
    → utf8.to_bytes (prefix ++ (nickname ++ 32 ∷ t)) ≡ prefix ++ (nickname ++ 32 ∷ utf8.to_bytes t)
to_bytes-line utf8 prefix nickname t k p n =
    to_bytes-ascii utf8 prefix (nickname ++ 32 ∷ t) k p
    ∙ ap (λ x. prefix ++ x)
        (to_bytes-ascii utf8 nickname (32 ∷ t) k n ∙ ap (λ x. nickname ++ x) (k 32 t (omega arith)))

-- One line in one frame, however TCP cuts it, is what the server's thread reads.
pub read_frames-encode_frame :
    (max : ℕ) (payload : List ℕ) (pieces : List (List ℕ))
    → max < 4294967296
    → FitsIn max payload
    → flatten pieces ≡ encode_frame payload
    → (read_frames max pieces).payloads ≡ payload ∷ []
unfolding flatten encode_frame
read_frames-encode_frame max payload pieces m fits cut =
    let (same, _, _) = read_frames-receive max pieces pieces refl in
    same
    ∙ ap (λ (r : PushResult). r.frames)
        (receive-encode_all max (payload ∷ []) pieces m (fits, tt)
          (cut ∙ sym (append-nil (encode_frame payload))))
