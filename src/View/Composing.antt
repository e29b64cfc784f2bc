-- ===== src/View/Composing.antt =====
-- From the composer and the dialog for a group to the gateway.
use thread_link.Prelude.{
  ltb, decimal, js, if◌then◌else◌, none, List, ℕ, ◌≡◌, some, [], ◌∷◌, ◌++◌, arith, length, Text,
}
use thread_link.Protocol.{ClientMessage}
use thread_link.Protocol.{error}
use thread_link.Environment.{Environment}
use thread_link.Gateway.{Gateway, send_to}
use thread_link.Gateway.Login.{dispatch}
use thread_link.Transport.{Client, sent, send, open_number}
use thread_link.Provider.{App, send_now, notify_errors}

-- The client with a message more that was sent on its WebSocket.
abbrev pub having_sent : ℕ → ClientMessage → Client → App → App
having_sent n m c a = record a { client = some (record c { log = c.log ++ sent n m ∷ [] }) }

pub send_now_lem :
    (m : ClientMessage) (a : App) (c : Client) (n : ℕ)
    → a.client ≡ some c
    → open_number c.socket ≡ some n
    → send_now m a ≡ having_sent n m c a
unfolding send_now send notify_errors
send_now_lem m a c n e o = ground arith

-- What the gateway does with the bytes of a message that the browser's user wrote.
abbrev pub received : Environment → ℕ → ℕ → List ℕ → ClientMessage → Text → Gateway → Gateway
received env limit r raw m text g =
    if ltb limit (length raw)
    then send_to r
        (error (js "MESSAGE_TOO_LARGE")
          (js "Message exceeds the " ++ (decimal limit ++ js "-byte limit.")) none)
        g
    else if ltb 4000 (length text)
    then send_to r (error (js "BAD_MESSAGE") (js "text must be 1-4000 characters") none) g
    else dispatch env r m g
