-- ===== src/ChatServer/Spoken.antt =====
-- What is said, to its end: the thread of a client reads one line and sends what follows from it.
use mathlib.Core.List.{append_assoc, append-nil}
use thread_link.Prelude.{
  ℕ, ◌≡◌, refl, sym, ap, ◌∙◌, ◌≢◌, ◌≤◌, Bool, true, not, ◌&&◌, Option, some, List, [], ◌∷◌, ◌++◌,
  map, arith, keep, All, Text, js, length,
}
use thread_link.BackendMessages.{space, format_chat_line, parse_backend_line, msg}
use thread_link.BackendMessages.RoundTrip.{parse-render}
use thread_link.BackendMessages.Server.{IsStripped}
use thread_link.BackendConnection.{Utf8}
use thread_link.ChatServer.{
  ServerConfig, ClientRecord, Server, Job, serving, framing, broadcasting, Input, frame,
  find_client,
}
use thread_link.ChatServer.Commands.{handle_line}
use thread_link.ChatServer.Threads.{
  broadcast, is_left_out, interleave, turn, run_job, handle_client, send_frame,
}
use thread_link.ChatServer.Unique.{AreApart}
use thread_link.ChatServer.Named.{IsNamed, IsWord-of_name}
use thread_link.ChatServer.Greeting.{frames_to}
use thread_link.ChatServer.Greeting.Hidden.{frames_to-append}
use thread_link.ChatServer.Bytes.{IsAscii, KeepsAscii, ComesBack, FitsFrame, to_bytes-line}
use thread_link.ChatServer.Delivery.{
  framed_to, broadcast_lem, reaches, found-All, handle_line-format_chat,
}

-- The clients that a broadcast reaches.
abbrev pub hearers : Option ℕ → List ClientRecord → List ClientRecord
unfolding keep
hearers exclude_fd cs = keep (λ c. not (is_left_out exclude_fd c.fd) && c.welcomed) cs

-- The turns of one thread: it is told a line, works on it for two more turns, and then once for each of
-- the clients.
abbrev pub chat_turns : Text → Input → List ClientRecord → List (ℕ × Input)
chat_turns line idle cs = (0, frame line) ∷ (0, idle) ∷ map (λ c. (0, idle)) cs

-- It is told a line, and has four more turns.
abbrev pub msg_turns : Text → Input → List (ℕ × Input)
msg_turns line idle = (0, frame line) ∷ (0, idle) ∷ (0, idle) ∷ (0, idle) ∷ (0, idle) ∷ []

module _ (config : ServerConfig) (idle : Input) where
  interleave-framings :
      (payload : Text) (rest : List Job) (cs : List ClientRecord) (server : Server)
      → length payload ≤ config.max_message_size
      → interleave config
          (map (λ c. (0, idle)) cs)
          (server, (map (λ c. framing c.fd payload) cs ++ rest) ∷ [])
        ≡ (record server { wire = server.wire ++ map (λ c. (c.fd, payload)) cs }, rest ∷ [])
  unfolding interleave turn run_job send_frame
  interleave-framings payload rest [] server h =
      ap (λ w. (record server { wire = w }, rest ∷ [])) (sym (append-nil server.wire))
  interleave-framings payload rest (c ∷ cs) server h =
      let sent : send_frame config c.fd payload server
          ≡ record server { wire = server.wire ++ (c.fd, payload) ∷ [] } =
        ground arith in
      ap
        (λ s.
          interleave config (map (λ c. (0, idle)) cs)
            (s, (map (λ c. framing c.fd payload) cs ++ rest) ∷ []))
        sent
      ∙ interleave-framings payload rest cs
          (record server { wire = server.wire ++ (c.fd, payload) ∷ [] }) h
      ∙ ap (λ w. (record server { wire = w }, rest ∷ [])) (append_assoc server.wire _ _)

  interleave-line :
      (fd : ℕ) (raw : Text) (jobs : List Job) (turns : List (ℕ × Input)) (server : Server)
      → handle_line fd raw server ≡ ((server, jobs), true)
      → interleave config ((0, frame raw) ∷ turns) (server, (serving fd ∷ []) ∷ [])
        ≡ interleave config turns (server, (jobs ++ serving fd ∷ []) ∷ [])
  unfolding interleave turn run_job handle_client
  interleave-line fd raw jobs turns server h =
      rw h (ap (λ js. interleave config turns (server, js ∷ [])) (append-nil _))

frames_to-framings :
    (fd : ℕ) (payload : Text) (cs : List ClientRecord)
    → frames_to fd (map (λ c. (c.fd, payload)) cs)
      ≡ framed_to fd (map (λ c. framing c.fd payload) cs)
unfolding frames_to framed_to
frames_to-framings fd payload [] = refl
frames_to-framings fd payload (c ∷ cs) = ground (arith, frames_to-framings fd payload cs)

module _ (config : ServerConfig) (utf8 : Utf8) (idle : Input) (keeps : KeepsAscii utf8) where
  -- What the server does with a public message of the gateway: the line is sent once to every other
  -- welcomed client, and to no other descriptor.
  pub interleave-format_chat :
      (fd b : ℕ) (bs text : Text) (c : ClientRecord) (server : Server)
      → AreApart server.clients
      → All IsNamed server.clients
      → find_client fd server.clients ≡ some c
      → IsAscii c.nickname
      → utf8.to_bytes text ≡ b ∷ bs
      → b ≢ b'/'
      → IsStripped (b ∷ bs)
      → let said = js "MSG " ++ (c.nickname ++ space ∷ text) in
        FitsFrame config utf8 said
        → ComesBack utf8 said
        → let said_bytes = utf8.to_bytes said in
          let (server', threads') =
            interleave config
              (chat_turns
                (utf8.to_bytes (format_chat_line text))
                idle
                (hearers (some fd) server.clients))
              (server, (serving fd ∷ []) ∷ []) in
          (threads' ≡ (serving fd ∷ []) ∷ [])
          × (server'.clients ≡ server.clients)
          × ((x : ℕ)
              → frames_to x server'.wire
                ≡ frames_to x server.wire
                  ++ reaches (some fd) said_bytes (find_client x server.clients))
          × (parse_backend_line (utf8.to_text said_bytes) ≡ msg c.nickname text)
  unfolding interleave turn run_job broadcast format_chat_line
  interleave-format_chat fd b bs text c server apart named h ascii bytes plain stripped fits back =
      let said = js "MSG " ++ (c.nickname ++ space ∷ text) in
      let line = utf8.to_bytes said in
      let cs = hearers (some fd) server.clients in
      let same : line ≡ js "MSG " ++ (c.nickname ++ space ∷ b ∷ bs) =
        to_bytes-line utf8 (js "MSG ") c.nickname text keeps (ground arith) ascii
        ∙ ap (λ x. js "MSG " ++ (c.nickname ++ space ∷ x)) bytes in
      let word = IsWord-of_name c.nickname (found-All IsNamed fd c server.clients h named) in
      let (done, _, reached) =
        handle_line-format_chat fd b bs c server apart h word plain stripped in
      let jobs : Text → (Server × List Job) × Bool =
        λ x. ((server, broadcasting x (some fd) ∷ []), true) in
      let handled : handle_line fd (utf8.to_bytes text) server ≡ jobs line =
        ap (λ x. handle_line fd x server) bytes ∙ done ∙ ap jobs (sym same) in
      let result =
        interleave-line config idle fd (utf8.to_bytes text) (broadcasting line (some fd) ∷ [])
          ((0, idle) ∷ map (λ c. (0, idle)) cs) server handled
        ∙ interleave-framings config idle line (serving fd ∷ []) cs server fits in
      (
        ap (λ r. r.1) result,
        ap (λ r. r.0.clients) result,
        λ x.
            ap (λ r. frames_to x r.0.wire) result
            ∙ frames_to-append x server.wire (map (λ c. (c.fd, line)) cs)
            ∙ ap (λ ys. frames_to x server.wire ++ ys)
                (frames_to-framings x line cs ∙ broadcast_lem x line (some fd) server apart),
        ap parse_backend_line back ∙ parse-render (msg c.nickname text) word,
      )
