-- ===== src/System/Chat.antt =====
-- What is said in public, from the browser of one session to the browser of another.
use thread_link.Prelude.{◌∷◌, ◌++◌, Text, js}
use thread_link.BackendMessages.{space}
use thread_link.Environment.{Environment}
use thread_link.Gateway.{Gateway}
use thread_link.ChatServer.{ClientRecord, ClientRecord, Server}

abbrev pub msg_line : Text → Text → Text
msg_line nickname text = js "MSG " ++ (nickname ++ space ∷ text)
