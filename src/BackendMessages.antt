-- ===== src/BackendMessages.antt =====
-- gateway/src/backendMessages.ts: the line vocabulary of the C++ server, parsed and formatted.
pub mod RoundTrip
pub mod Server
mod Tests
use thread_link.Prelude.{
  ℕ, ◌+◌, ◌*◌, ◌-◌, ◌≡◌, Bool, true, false, ◌&&◌, ◌||◌, Option, none, some, List, [], ◌∷◌, ◌++◌,
  leb, nat_beq, if◌then◌else◌, length, Text, js, ◌==◌, ℤ, pos, parse_int,
}

-- The code unit of " ".
abbrev pub space : ℕ
space = 32

pub data BackendEvent : Type 0 where
  welcome : Text → BackendEvent
  sys : Text → BackendEvent
  msg : Text → Text → BackendEvent
  priv : Text → Text → BackendEvent
  priv_sent : Text → Text → BackendEvent
  nick : Text → Text → BackendEvent
  list : ℤ → List Text → BackendEvent
  err : Text → Text → BackendEvent
  unknown : Text → BackendEvent

-- `splitFirst`: what stands before and behind the first space.
unfoldable pub split_first : Text → Text × Text
split_first [] = ([], [])
split_first (c ∷ s) =
    let (before, behind) = split_first s in
    if nat_beq c space then ([], s) else (c ∷ before, behind)

-- `s.split(" ")`.
abbrev add_unit : ℕ → List Text → List Text
add_unit c [] = (c ∷ []) ∷ []
add_unit c (w ∷ ws) = (c ∷ w) ∷ ws

unfoldable pub split_spaces : Text → List Text
split_spaces [] = [] ∷ []
split_spaces (c ∷ s) =
    let rest = split_spaces s in if nat_beq c space then [] ∷ rest else add_unit c rest

abbrev pub names_of : Text → List Text
names_of [] = []
names_of (c ∷ s) = split_spaces (c ∷ s)

abbrev count_or : Option ℤ → List Text → ℤ
count_or none names = pos (length names)
count_or (some n) names = n

unfoldable pub parse_list : Text → BackendEvent
unfolding split_first split_spaces parse_int
parse_list rest =
    let (count, names) = split_first rest in
    list (count_or (parse_int count) (names_of names)) (names_of names)

unfoldable pub parse_backend_line : Text → BackendEvent
unfolding split_first parse_list
parse_backend_line payload =
    let (type, rest) = split_first payload in
    let (first, text) = split_first rest in
    if type == js "WELCOME"
    then welcome rest
    else if type == js "SYS"
    then sys rest
    else if type == js "MSG"
    then msg first text
    else if type == js "PRIV"
    then priv first text
    else if type == js "PRIV_SENT"
    then priv_sent first text
    else if type == js "NICK"
    then nick first text
    else if type == js "LIST"
    then parse_list rest
    else if type == js "ERR"
    then err first text
    else unknown payload

unfoldable pub format_nick_command : Text → Text
format_nick_command nickname = js "/nick " ++ nickname

unfoldable pub format_msg_command : Text → Text → Text
format_msg_command target text = js "/msg " ++ (target ++ (js " " ++ text))

unfoldable pub format_list_command : Text
format_list_command = js "/list"

unfoldable pub format_chat_line : Text → Text
format_chat_line text = text

unfoldable pub format_exit_command : Text
format_exit_command = js "/exit"
