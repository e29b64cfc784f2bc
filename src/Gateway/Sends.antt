-- ===== src/Gateway/Sends.antt =====
-- Public and direct messages on their way to the backend.
use mathlib.Core.List.{append_assoc, flatten}
use thread_link.Wire.{encode_frame}
use thread_link.Wire.RoundTrip.{FitsIn}
use thread_link.BackendConnection.{Utf8}
use thread_link.ChatServer.Frames.{read_frames}
use thread_link.ChatServer.Bytes.{IsAscii, KeepsAscii, to_bytes-line, read_frames-encode_frame}
use thread_link.Prelude.{
  ℕ, suc, ◌≡◌, ◌≢◌, ◌<◌, js, refl, ap, ◌∙◌, Bool, true, false, not, List, [], ◌∷◌, ◌++◌, arith,
  if◌then◌else◌, Text,
}
use thread_link.Protocol.{ServerMessage, message, conversation_created, ConversationSummary}
use thread_link.BackendMessages.{space, format_msg_command, format_chat_line}
use thread_link.BackendMessages.RoundTrip.{IsWord}
use thread_link.BackendMessages.Server.{
  chat, handle_msg, read_line, IsStripped, read-format_msg, read-format_chat_iff,
}
use thread_link.Database.{
  Db, ensure_member, ensure_conversation, has_message, conversation_by_id, public_conversation_id,
}
use thread_link.Conversations.{direct_conversation_id, has_direct, ensure_direct}
use thread_link.Conversations.Direct.{is_free, has_direct-ensure_direct}
use thread_link.Messages.{to_summary}
use thread_link.Environment.{Environment}
use thread_link.Gateway.{Gateway, Effect, emit, line, sent, send_to, send_line, is_writable, draw}
use thread_link.Gateway.Messaging.{store_then, send_public, send_direct, announce_new, draft}
use thread_link.Gateway.Delivery.{stored_row, with_message, store_then_lem}

-- The last effect of a state.
abbrev pub EndsWith : Gateway → Effect → Type 0
EndsWith g e = (before : List Effect) × (g.log ≡ before ++ e ∷ [])

send_line-EndsWith :
    (r : ℕ) (text : Text) (g : Gateway)
    → is_writable (g.heap r).backend ≡ true
    → EndsWith (send_line r text g) (line r text)
unfolding send_line
send_line-EndsWith r text g h = (g.log, rw h)

db-send_line : (r : ℕ) (text : Text) (g : Gateway) → (send_line r text g).db ≡ g.db
unfolding send_line
db-send_line r text g = ground arith

db-send_to : (r : ℕ) (m : ServerMessage) (g : Gateway) → (send_to r m g).db ≡ g.db
unfolding send_to
db-send_to r m g = ground arith

heap-send_to : (r : ℕ) (m : ServerMessage) (g : Gateway) → (send_to r m g).heap ≡ g.heap
unfolding send_to
heap-send_to r m g = ground arith

drawn-send_to : (r : ℕ) (m : ServerMessage) (g : Gateway) → (send_to r m g).drawn ≡ g.drawn
unfolding send_to
drawn-send_to r m g = ground arith

send_line_lem :
    (r : ℕ) (text : Text) (g : Gateway)
    → is_writable (g.heap r).backend ≡ true
    → send_line r text g ≡ record g { log = g.log ++ line r text ∷ [] }
unfolding send_line
send_line_lem r text g h = ground arith

send_to_lem :
    (r : ℕ) (m : ServerMessage) (g : Gateway)
    → (g.heap r).ws_open ≡ true
    → send_to r m g ≡ record g { log = g.log ++ sent r m ∷ [] }
unfolding send_to
send_to_lem r m g h = ground arith

-- Sending to WebSockets changes the log only.
OnlyLogs : Gateway → Gateway → Type 0
OnlyLogs g g' = (es : List Effect) × (g' ≡ record g { log = es })

send_to-OnlyLogs : (r : ℕ) (m : ServerMessage) (g : Gateway) → OnlyLogs g (send_to r m g)
unfolding OnlyLogs send_to
send_to-OnlyLogs r m g =
    elim (g.heap r).ws_open
      as (λ b.
        (es : List Effect) × ((if b then emit (sent r m) g else g) ≡ record g { log = es })) [
          | true ↦ (g.log ++ sent r m ∷ [], refl)
          | false ↦ (g.log, refl)
        ]

announce-OnlyLogs :
    (env : Environment) (b : Bool) (r peer : ℕ) (c : ConversationSummary) (g : Gateway)
    → OnlyLogs g (announce_new env b r peer c g)
unfolding OnlyLogs
announce-OnlyLogs env false r peer c g = (g.log, refl)
announce-OnlyLogs env true r peer c g =
    let m = conversation_created c in
    let (es, e) = send_to-OnlyLogs r m g in
    let (es', e') = send_to-OnlyLogs peer m (record g { log = es }) in
    (es', ap (send_to peer m) e ∙ e')

messages-ensure_direct :
    (now a b : Text) (db : Db) → (ensure_direct now a b db).0.messages ≡ db.messages
unfolding ensure_direct ensure_member ensure_conversation
messages-ensure_direct now a b db = ground arith

module _ (env : Environment) (r : ℕ) (g : Gateway)
    (writable : is_writable (g.heap r).backend ≡ true) where
  after_public : (text : Text) → Gateway
  after_public text =
      let row = stored_row env r public_conversation_id text g in
      record (with_message row g) {
        log = g.log ++ (sent r (message (to_summary row)) ∷ line r (format_chat_line text) ∷ []);
      }

  send_public_lem :
      (text : Text)
      → (g.heap r).ws_open ≡ true
      → has_message (env.random_uuid g.drawn) g.db.messages ≡ false
      → send_public env r text g ≡ after_public text
  unfolding send_public after_public
  send_public_lem text is_open fresh =
      let row = stored_row env r public_conversation_id text g in
      let m = message (to_summary row) in
      store_then_lem env r public_conversation_id text
        (λ m g'. send_line r (format_chat_line text) (send_to r m g')) g fresh
      ∙ ap (send_line r (format_chat_line text)) (send_to_lem r m (with_message row g) is_open)
      ∙ send_line_lem r (format_chat_line text) _ writable
      ∙ ap (λ l. record (with_message row g) { log = l }) (append_assoc g.log (sent r m ∷ []) _)

  -- A public message with a fresh id, from an open WebSocket with an open backend connection: it is
  -- stored once, in the public conversation; its sender gets it, with its id and time; and then one
  -- line goes to the server, which reads from its frame, however TCP cuts it, that line and takes it as
  -- that chat text. The bytes of the text are not none, fit into the server's frames, do not begin with
  -- "/" and do not end in a line break.
  pub send_public-delivers :
      (utf8 : Utf8) (max b : ℕ) (bs text : Text) (pieces : List (List ℕ))
      → (g.heap r).ws_open ≡ true
      → has_message (env.random_uuid g.drawn) g.db.messages ≡ false
      → max < 4294967296
      → utf8.to_bytes text ≡ b ∷ bs
      → FitsIn max (b ∷ bs)
      → b ≢ b'/'
      → IsStripped (b ∷ bs)
      → flatten pieces ≡ encode_frame (utf8.to_bytes (format_chat_line text))
      → let g' = send_public env r text g in
        let row = stored_row env r public_conversation_id text g in
        (g'.db ≡ record g.db { messages = g.db.messages ++ row ∷ [] })
        × (g'.log
            ≡ g.log ++ (sent r (message (to_summary row)) ∷ line r (format_chat_line text) ∷ []))
        × ((read_frames max pieces).payloads ≡ (b ∷ bs) ∷ [])
        × (read_line (b ∷ bs) ≡ chat (b ∷ bs))
  unfolding after_public format_chat_line
  send_public-delivers utf8 max b bs text pieces is_open fresh m bytes fits plain stripped cut =
      let same = send_public_lem text is_open fresh in
      (
        ap (λ (g' : Gateway). g'.db) same,
        ap (λ (g' : Gateway). g'.log) same,
        read_frames-encode_frame max (b ∷ bs) pieces m fits (cut ∙ ap encode_frame bytes),
        (read-format_chat_iff b bs).1 (plain, stripped),
      )

  -- A direct message with a fresh id to a welcomed session, over an open backend connection: it is
  -- stored once, in the direct conversation of the two accounts, which then exists if its id was free;
  -- and the last thing done is to write a line that the server reads from its frame, however TCP cuts
  -- it, and takes as a private message with that text to the other's nickname. The nickname is an ASCII
  -- word and UTF-8 keeps ASCII characters; the bytes of the text are not none and do not end in a line
  -- break, and the line fits into the server's frames.
  pub send_direct-delivers :
      (utf8 : Utf8) (max peer b : ℕ) (bs text : Text) (pieces : List (List ℕ))
      → has_message (env.random_uuid (suc g.drawn)) g.db.messages ≡ false
      → is_free (
          conversation_by_id
            (direct_conversation_id (g.heap r).id (g.heap peer).id)
            g.db.conversations)
        ≡ true
      → max < 4294967296
      → KeepsAscii utf8
      → IsWord (g.heap peer).nickname
      → IsAscii (g.heap peer).nickname
      → utf8.to_bytes text ≡ b ∷ bs
      → IsStripped (b ∷ bs)
      → let l = format_msg_command (g.heap peer).nickname text in
        FitsIn max (utf8.to_bytes l)
        → flatten pieces ≡ encode_frame (utf8.to_bytes l)
        → let g' = send_direct env r peer text g in
          let id = direct_conversation_id (g.heap r).id (g.heap peer).id in
          let row = stored_row env r id text (draw g) in
          (g'.db.messages ≡ g.db.messages ++ row ∷ [])
          × (has_direct id g'.db ≡ true)
          × EndsWith g' (line r l)
          × ((read_frames max pieces).payloads ≡ utf8.to_bytes l ∷ [])
          × (read_line (utf8.to_bytes l) ≡ handle_msg (g.heap peer).nickname (b ∷ bs))
  unfolding send_direct OnlyLogs ensure_direct format_msg_command
  send_direct-delivers utf8 max peer b bs text pieces fresh free m keeps word is_ascii bytes
        stripped fits cut =
      let own = (g.heap r).id in
      let other = (g.heap peer).id in
      let id = direct_conversation_id own other in
      let nickname = (g.heap peer).nickname in
      let (db, summary) = ensure_direct (env.iso_now g.drawn) own other g.db in
      let stored = messages-ensure_direct (env.iso_now g.drawn) own other g.db in
      let (es, e) =
        announce-OnlyLogs env (not (has_direct id g.db)) r peer summary
          (draw (record g { db = db })) in
      let g₂ = record g { db = db; drawn = suc g.drawn; log = es } in
      let row = stored_row env r id text g₂ in
      let l = format_msg_command nickname text in
      let raw : utf8.to_bytes l ≡ format_msg_command nickname (b ∷ bs) =
        to_bytes-line utf8 (js "/msg ") nickname text keeps (ground arith) is_ascii
        ∙ ap (λ x. js "/msg " ++ (nickname ++ space ∷ x)) bytes in
      let k = λ (m : ServerMessage) (g' : Gateway).
        send_line r (format_msg_command (g'.heap peer).nickname text) g' in
      let fresh₂ : has_message (env.random_uuid (suc g.drawn)) db.messages ≡ false =
        ap (has_message (env.random_uuid (suc g.drawn))) stored ∙ fresh in
      let same =
        ap (store_then env r (draft id (g.heap r) text) k) e
        ∙ store_then_lem env r id text k g₂ fresh₂
        ∙ send_line_lem r l (with_message row g₂) writable in
      (
        ap (λ (g' : Gateway). g'.db.messages) same ∙ ap (λ ms. ms ++ row ∷ []) stored,
        ap (λ (g' : Gateway). has_direct id g'.db) same
            ∙ unfold has_direct in
              has_direct-ensure_direct (env.iso_now g.drawn) own other g.db free,
        (es, ap (λ (g' : Gateway). g'.log) same),
        read_frames-encode_frame max (utf8.to_bytes l) pieces m fits cut,
        ap read_line raw ∙ read-format_msg nickname b bs word stripped,
      )
