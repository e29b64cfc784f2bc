-- ===== src/BackendConnection/Mirror.antt =====
-- The connection that the gateway thinks of, and the one that it has.
use thread_link.Prelude.{
  ℕ, ◌≡◌, refl, sym, ◌∙◌, List, [], ◌∷◌, Bool, true, false, arith, if◌then◌else◌,
}
use thread_link.Wire.{push}
use thread_link.Sessions.{Backend, connecting, connected, closed}
use thread_link.Environment.{Environment}
use thread_link.Gateway.{Gateway, send_to, send_line, close_ws}
use thread_link.BackendMessages.{parse_backend_line}
use thread_link.Gateway.Kept.{Kept, Kept-trans, Kept-send_line, Kept-connect_failed}
use thread_link.Gateway.Kept.Events.{Kept-backend_event}
use thread_link.Gateway.BackendEvents.{backend_socket_closed, on_backend_closed, on_backend_event}
use thread_link.Gateway.Login.{connect_resolved, destroy_backend}
use thread_link.Gateway.Steps.{
  backend_up, backend_failed, backend_says, backend_down, backend_overflows, step,
}
use thread_link.BackendConnection.{
  Connection, Utf8, is_null, is_dialing, is_wired, on_data, close_connection, on_socket_close,
  write_line, Happening, close_called, line_sent, refused, socket_closed, socket_failed, data_came,
  happen, happen_all, dial, new_connection,
}
use thread_link.BackendConnection

abbrev phase_of : Bool → Bool → Backend
phase_of true _ = closed
phase_of false true = connected
phase_of false false = connecting

-- What the gateway knows of a connection: that it is being made, is made, is closed.
abbrev pub phase : Connection → Backend
phase c = phase_of c.closed (is_wired c.socket)

-- What the socket can report to the connection as it is: one that was destroyed reports its end only.
abbrev pub IsReported : Connection → Happening → Type 0
IsReported c BackendConnection.connected = (is_dialing c.socket ≡ true) × (c.closed ≡ false)
IsReported c refused = (is_dialing c.socket ≡ true) × (c.closed ≡ false)
IsReported c socket_closed = is_wired c.socket ≡ true
IsReported c (data_came chunk) = (is_wired c.socket ≡ true) × (c.closed ≡ false)
IsReported c _ = Unit

module _ (utf8 : Utf8) (max : ℕ) (env : Environment) (limit : ℕ) where
  -- The gateway is told the lines of a chunk, one after another.
  abbrev pub told : ℕ → List (List ℕ) → Gateway → Gateway
  told r [] g = g
  told r (frame ∷ frames) g =
      told r frames (step env limit g (backend_says r (parse_backend_line (utf8.to_text frame))))

  -- What the gateway does when it happens to the connection of the session, to its state.
  abbrev pub mirror : Connection → Happening → ℕ → Gateway → Gateway
  mirror c BackendConnection.connected r g = step env limit g (backend_up r)
  mirror c refused r g = step env limit g (backend_failed r)
  mirror c socket_closed r g = step env limit g (backend_down r)
  mirror c close_called r g = destroy_backend r g
  mirror c (line_sent text) r g = send_line r text g
  mirror c (data_came chunk) r g =
      let (found, decoder) = push max c.decoder chunk in
      let g' = told r found.frames g in
      if found.too_large then step env limit g' (backend_overflows r) else g'
  mirror c (socket_failed text) r g = g

  Kept-told : (r : ℕ) (frames : List (List ℕ)) (g : Gateway) → Kept g (told r frames g)
  unfolding step
  Kept-told r [] g = record { at = λ q. refl }
  Kept-told r (frame ∷ frames) g =
      let e = parse_backend_line (utf8.to_text frame) in
      Kept-trans g (on_backend_event env r e g) _ (Kept-backend_event env r e g)
        (Kept-told r frames (on_backend_event env r e g))

  phase-data :
      (c : Connection) (chunk : List ℕ) (r : ℕ) (g g' : Gateway) (too_large : Bool)
      → (push max c.decoder chunk).0.too_large ≡ too_large
      → (is_wired c.socket ≡ true) × (c.closed ≡ false)
      → (g'.heap r).backend ≡ connected
      → phase (happen utf8 max c (data_came chunk))
        ≡ ((if too_large then step env limit g' (backend_overflows r) else g').heap r).backend
  unfolding happen step on_data close_connection
  phase-data c chunk r g g' too_large e (w, o) k = ground arith

  phase-happen :
      (c : Connection) (h : Happening) (r : ℕ) (g : Gateway)
      → is_null c.socket ≡ false
      → phase c ≡ (g.heap r).backend
      → IsReported c h
      → phase (happen utf8 max c h) ≡ ((mirror c h r g).heap r).backend
  unfolding happen step
  phase-happen c close_called r g d p k = unfold close_connection in ground arith
  phase-happen c (line_sent line) r g d p k =
      unfold write_line in ground (arith, (Kept-send_line r line g).at r)
  phase-happen c BackendConnection.connected r g d p k = unfold connect_resolved in ground arith
  phase-happen c refused r g d p k = ground (arith, (Kept-connect_failed r g).at r)
  phase-happen c socket_closed r g d p k =
      unfold on_socket_close backend_socket_closed on_backend_closed send_to close_ws in
      ground arith
  phase-happen c (data_came chunk) r g d p (w, o) =
      let frames = (push max c.decoder chunk).0.frames in
      phase-data c chunk r g (told r frames g) (push max c.decoder chunk).0.too_large refl (w, o)
        ((Kept-told r frames g).at r ∙ sym p ∙ rw (o, w) refl)
  phase-happen c (socket_failed text) r g d p k = ground arith

  dialed-happen :
      (c : Connection) (h : Happening)
      → is_null c.socket ≡ false
      → is_null (happen utf8 max c h).socket ≡ false
  unfolding happen
  dialed-happen c close_called d = unfold close_connection in ground arith
  dialed-happen c (line_sent line) d = unfold write_line in ground arith
  dialed-happen c BackendConnection.connected d = ground arith
  dialed-happen c refused d = ground arith
  dialed-happen c socket_closed d = unfold on_socket_close in ground arith
  dialed-happen c (data_came chunk) d = unfold on_data close_connection in ground arith
  dialed-happen c (socket_failed text) d = ground arith

  abbrev pub mirror_all : Connection → List Happening → ℕ → Gateway → Gateway
  mirror_all c [] r g = g
  mirror_all c (h ∷ hs) r g = mirror_all (happen utf8 max c h) hs r (mirror c h r g)

  abbrev pub AreReported : Connection → List Happening → Type 0
  AreReported c [] = Unit
  AreReported c (h ∷ hs) = IsReported c h × AreReported (happen utf8 max c h) hs

  phase_from :
      (hs : List Happening) (c : Connection) (r : ℕ) (g : Gateway)
      → is_null c.socket ≡ false
      → phase c ≡ (g.heap r).backend
      → AreReported c hs
      → phase (happen_all utf8 max c hs) ≡ ((mirror_all c hs r g).heap r).backend
  unfolding happen_all
  phase_from [] c r g d p k = p
  phase_from (h ∷ hs) c r g d p (k, ks) =
      phase_from hs (happen utf8 max c h) r (mirror c h r g) (dialed-happen c h d)
        (phase-happen c h r g d p k) ks

  -- The gateway's record of a session's connection, as one of being made, made and closed, stays the
  -- truth: from the call of `connect` on, whatever happens to the connection as its socket can report
  -- it, and the gateway doing each time what it does then, with every line that a chunk brings. One that
  -- was refused is recorded as one that is being made: neither the gateway nor the connection marks it.
  -- The session's record begins as one of a connection that is being made.
  pub phase-happen_all :
      (hs : List Happening) (r : ℕ) (g : Gateway)
      → (g.heap r).backend ≡ connecting
      → AreReported (dial new_connection) hs
      → phase (happen_all utf8 max (dial new_connection) hs)
        ≡ ((mirror_all (dial new_connection) hs r g).heap r).backend
  unfolding dial new_connection
  phase-happen_all hs r g begun k = phase_from hs (dial new_connection) r g refl (sym begun) k
