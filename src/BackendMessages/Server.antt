-- ===== src/BackendMessages/Server.antt =====
-- How the C++ server reads a line from the gateway: `Server::handle_line` of src/Server.cpp, up to
-- the choice of what to do. The lines are compared with what the gateway's formatters mean.
use thread_link.Prelude.{
  ℕ, ◌≡◌, refl, ap, subst, ◌≢◌, ◌↔◌, inl, inr, Bool, ◌||◌, [], ◌∷◌, ◌++◌, arith, Bool-cases,
  nat_beq, if◌then◌else◌, Text, js, ◌==◌,
}
use thread_link.BackendMessages.{
  space, split_first, format_nick_command, format_msg_command, format_chat_line,
}
use thread_link.BackendMessages.RoundTrip.{IsWord, split_first-word}

pub data Action : Type 0 where
  ignore leave send_list : Action
  chat : Text → Action
  handle_nick : Text → Action
  handle_msg : Text → Text → Action
  bad_cmd : Text → Action

abbrev is_newline : ℕ → Bool
is_newline c = nat_beq c 13 || nat_beq c 10

abbrev cons_stripped : ℕ → Text → Text
cons_stripped c [] = if is_newline c then [] else c ∷ []
cons_stripped c (d ∷ s) = c ∷ d ∷ s

-- `while (!line.empty() && (line.back() == '\r' || line.back() == '\n')) line.pop_back();`
unfoldable pub strip_newlines : Text → Text
strip_newlines [] = []
strip_newlines (c ∷ s) = cons_stripped c (strip_newlines s)

unfoldable pub read_command : Text → Action
unfolding split_first
read_command line =
    let (cmd, rest) = split_first line in
    let (target, text) = split_first rest in
    if cmd == js "/nick"
    then handle_nick rest
    else if cmd == js "/msg"
    then handle_msg target text
    else if cmd == js "/list"
    then send_list
    else if cmd == js "/exit"
    then leave
    else bad_cmd cmd

abbrev read_stripped : Text → Action
read_stripped [] = ignore
read_stripped (c ∷ s) = if nat_beq c b'/' then read_command (c ∷ s) else chat (c ∷ s)

unfoldable pub read_line : Text → Action
unfolding strip_newlines read_command
read_line raw = read_stripped (strip_newlines raw)

-- The last code unit is no line break.
abbrev pub IsStripped : Text → Type 0
IsStripped [] = Unit
IsStripped (c ∷ []) = (c ≢ 13) × (c ≢ 10)
IsStripped (c ∷ d ∷ s) = IsStripped (d ∷ s)

strip_of_IsStripped : (s : Text) → IsStripped s → strip_newlines s ≡ s
unfolding strip_newlines
strip_of_IsStripped [] h = refl
strip_of_IsStripped (c ∷ []) h = ground arith
strip_of_IsStripped (c ∷ d ∷ s) h = ap (cons_stripped c) (strip_of_IsStripped (d ∷ s) h)

IsStripped-append : (s : Text) (c : ℕ) (t : Text) → IsStripped (c ∷ t) → IsStripped (s ++ c ∷ t)
IsStripped-append [] c t h = h
IsStripped-append (a ∷ []) c t h = h
IsStripped-append (a ∷ b ∷ s) c t h = IsStripped-append (b ∷ s) c t h

cons_stripped-IsStripped : (c : ℕ) (s : Text) → IsStripped s → IsStripped (cons_stripped c s)
cons_stripped-IsStripped c [] h = elim (Bool-cases (is_newline c)) [
  | inl e ↦ rw e tt
  | inr e ↦ rw e (ground arith, ground arith)
]
cons_stripped-IsStripped c (d ∷ s) h = h

strip-IsStripped : (s : Text) → IsStripped (strip_newlines s)
unfolding strip_newlines
strip-IsStripped [] = tt
strip-IsStripped (c ∷ s) = cons_stripped-IsStripped c (strip_newlines s) (strip-IsStripped s)

read_line_of_IsStripped : (s : Text) → IsStripped s → read_line s ≡ read_stripped s
unfolding read_line
read_line_of_IsStripped s h = rw (strip_of_IsStripped s h)

read_command-ne-chat : (line said : Text) → read_command line ≢ chat said
unfolding read_command
read_command-ne-chat line said = ground arith

chat_inv :
    (line : Text) (c : ℕ) (said : Text)
    → read_stripped line ≡ chat (c ∷ said)
    → (c ≢ b'/') × (line ≡ c ∷ said)
chat_inv [] c said h = cc
chat_inv (b ∷ line) c said h = ground (arith, read_command-ne-chat (b ∷ line) (c ∷ said))

-- A private message of the gateway reaches the server's `handle_msg` with the nickname and the text
-- that were formatted, if the nickname is a word and the text is not empty and ends in no line break.
pub read-format_msg :
    (target : Text) (c : ℕ) (text : Text)
    → IsWord target
    → IsStripped (c ∷ text)
    → read_line (format_msg_command target (c ∷ text)) ≡ handle_msg target (c ∷ text)
unfolding format_msg_command read_command ◌==◌
read-format_msg target c text w h = rw (
  read_line_of_IsStripped _ (IsStripped-append (js "/msg " ++ target) space (c ∷ text) h),
  split_first-word target (c ∷ text) w,
)

-- A nickname command reaches `handle_nick` with the nickname, if that ends in no line break.
pub read-format_nick :
    (c : ℕ) (nickname : Text)
    → IsStripped (c ∷ nickname)
    → read_line (format_nick_command (c ∷ nickname)) ≡ handle_nick (c ∷ nickname)
unfolding format_nick_command read_command ◌==◌
read-format_nick c nickname h = rw (read_line_of_IsStripped (js "/nick " ++ c ∷ nickname) h)

-- A chat line is broadcast as it is exactly when it is not empty, does not begin with "/" and does
-- not end in a line break: `formatChatLine` checks none of these.
pub read-format_chat_iff :
    (c : ℕ) (text : Text)
    → (read_line (format_chat_line (c ∷ text)) ≡ chat (c ∷ text))
      ↔ ((c ≢ b'/') × IsStripped (c ∷ text))
unfolding read_line format_chat_line
read-format_chat_iff c text = (
  λ h.
      let (plain, same) = chat_inv (strip_newlines (c ∷ text)) c text h in
      (plain, subst IsStripped same (strip-IsStripped (c ∷ text))),
  λ h. rw (strip_of_IsStripped (c ∷ text) h.1) (ground arith),
)

slash-ne-chat : (s said : Text) → read_stripped (cons_stripped b'/' s) ≢ chat said
slash-ne-chat [] said h = read_command-ne-chat (b'/' ∷ []) said h
slash-ne-chat (d ∷ s) said h = read_command-ne-chat (b'/' ∷ d ∷ s) said h

-- What begins with "/" is never broadcast: the server takes it for a command.
pub read-format_chat_slash :
    (text said : Text) → read_line (format_chat_line (b'/' ∷ text)) ≢ chat said
unfolding read_line format_chat_line strip_newlines
read-format_chat_slash text said h = slash-ne-chat (strip_newlines text) said h
