-- ===== src/BackendMessages/RoundTrip.antt =====
-- The lines that the C++ server writes (docs/PROTOCOL.md, section 4) and what the parser makes of
-- them; the commands that the gateway writes, read back by their form in section 3.
use thread_link.Prelude.{◌≡◌, refl, ◌≢◌, [], ◌∷◌, ◌++◌, arith, Text, js, ◌==◌, All}
use thread_link.BackendMessages.{
  BackendEvent, welcome, sys, msg, priv, priv_sent, nick, list, err, unknown, space, split_first,
  parse_backend_line,
}

-- A word, as a nickname or an error code is: no space in it.
abbrev pub IsWord : Text → Type 0
IsWord s = All (λ c. c ≢ space) s

pub split_first-word : (w rest : Text) → IsWord w → split_first (w ++ space ∷ rest) ≡ (w, rest)
unfolding split_first
split_first-word [] rest h = refl
split_first-word (c ∷ w) rest (p, h) = ground (arith, split_first-word w rest h)

pub split_first_alone : (w : Text) → IsWord w → split_first w ≡ (w, [])
unfolding split_first
split_first_alone [] h = refl
split_first_alone (c ∷ w) (p, h) = ground (arith, split_first_alone w h)

-- What stands before the first space is a word, and the two parts are the text: nothing is lost.
pub split_first-IsWord : (s : Text) → IsWord (split_first s).0
unfolding split_first
split_first-IsWord [] = tt
split_first-IsWord (c ∷ s) = ground (arith, split_first-IsWord s)

-- The server's line for an event, but for LIST and for what it never sends.
abbrev pub render : BackendEvent → Text
render (welcome n) = js "WELCOME " ++ n
render (sys t) = js "SYS " ++ t
render (msg s t) = js "MSG " ++ (s ++ space ∷ t)
render (priv s t) = js "PRIV " ++ (s ++ space ∷ t)
render (priv_sent r t) = js "PRIV_SENT " ++ (r ++ space ∷ t)
render (nick o n) = js "NICK " ++ (o ++ space ∷ n)
render (err c t) = js "ERR " ++ (c ++ space ∷ t)
render (list n names) = js "LIST"
render (unknown raw) = raw

abbrev pub IsSent : BackendEvent → Type 0
IsSent (msg s t) = IsWord s
IsSent (priv s t) = IsWord s
IsSent (priv_sent r t) = IsWord r
IsSent (nick o n) = IsWord o
IsSent (err c t) = IsWord c
IsSent (list n names) = ⊥
IsSent (unknown raw) = ⊥
IsSent _ = Unit

-- Every line that the server writes for an event is parsed to that event, whatever spaces its text
-- holds, if the name or the code in it is a word.
pub parse-render : (e : BackendEvent) → IsSent e → parse_backend_line (render e) ≡ e
unfolding parse_backend_line split_first ◌==◌
parse-render (welcome n) h = refl
parse-render (sys t) h = refl
parse-render (msg s t) h = rw (split_first-word s t h) refl
parse-render (priv s t) h = rw (split_first-word s t h) refl
parse-render (priv_sent s t) h = rw (split_first-word s t h) refl
parse-render (nick s t) h = rw (split_first-word s t h) refl
parse-render (err s t) h = rw (split_first-word s t h) refl
parse-render (list n names) h = absurd h
parse-render (unknown raw) h = absurd h
