-- ===== src/Transport/Phases.antt =====
-- What the client promises, without sockets and timers: the phases of a connection.
use thread_link.Prelude.{
  ℕ, suc, ◌≡◌, refl, Bool, true, false, Option, none, some, arith, if◌then◌else◌, ◌&&◌, ltb, [],
  ◌∷◌, List, Text,
}
use thread_link.ChatState.{ConnectionStatus, connected}
use thread_link.Transport.{
  Client, Browser, new_client, clear_reconnect_timer, close_socket, make_socket, connect,
  on_message, on_open, on_error, on_close, schedule_reconnect, disconnect, send, parse_inbound,
}
use thread_link.Transport.Machine.{
  Event, connect_called, disconnect_called, send_called, timer_fired, opened, closing, errored,
  received, closed, is_current, step, run,
}
use thread_link.Transport.Sound.{Sound, run-Sound}

-- At rest, opening a connection, connected, or waiting to try again; with the attempts that have
-- failed since the last connection.
pub data Phase : Type 0 where
  off : ℕ → Phase
  trying : ℕ → Phase
  up : Phase
  waiting : ℕ → Phase

abbrev pub attempts : Phase → ℕ
attempts (off k) = k
attempts (trying k) = k
attempts up = 0
attempts (waiting k) = k

-- What can happen to a connection: it is tried, with or without a throw; made; lost; given up by the
-- application; or nothing of the kind.
pub data Signal : Type 0 where
  tried : Bool → Signal
  made_it lost stopped nothing : Signal

abbrev try_again : Bool → ℕ → ℕ → Phase
try_again enabled max k = if enabled && ltb k max then waiting (suc k) else off k

-- The specification: a lost connection is tried again as long as attempts are left.
unfoldable pub next : Bool → ℕ → Phase → Signal → Phase
next enabled max p (tried true) = trying (attempts p)
next enabled max p (tried false) = off (attempts p)
next enabled max (trying k) made_it = up
next enabled max (trying k) lost = try_again enabled max k
next enabled max up lost = try_again enabled max 0
next enabled max p stopped = off (attempts p)
next enabled max p _ = p

abbrev phase_without : Bool → ℕ → Phase
phase_without true k = waiting k
phase_without false k = off k

abbrev phase_with : ConnectionStatus → ℕ → Phase
phase_with connected k = up
phase_with _ k = trying k

-- The phase of a client.
abbrev pub phase : Client → Phase
phase c = elim c.socket [
  | none ↦ phase_without c.reconnect_timer c.reconnect_attempts
  | some s ↦ phase_with c.status c.reconnect_attempts
]

abbrev is_none {ℓ} : {A : Type ℓ} → Option A → Bool
is_none none = true
is_none (some a) = false

-- What an event is to the connection: only the client's own WebSocket and timer count.
abbrev pub signal : Browser → Client → Event → Signal
signal browser c connect_called = tried (is_none (browser.refusal c.made))
signal browser c disconnect_called = stopped
signal browser c timer_fired =
    if c.reconnect_timer then tried (is_none (browser.refusal c.made)) else nothing
signal browser c (opened n) = if is_current c.socket n then made_it else nothing
signal browser c (closed n) = if is_current c.socket n then lost else nothing
signal browser c _ = nothing

phase-on_message :
    (browser : Browser) (d : Option Text) (c : Client) → phase (on_message browser d c) ≡ phase c
unfolding on_message parse_inbound
phase-on_message browser none c = refl
phase-on_message browser (some []) c = refl
phase-on_message browser (some (u ∷ text)) c = ground arith

module _ (browser : Browser) (c : Client) (h : Sound c) where
  phase-connect :
      phase (connect browser c)
      ≡ next c.reconnect_enabled c.max_reconnect_attempts
          (phase c)
          (tried (is_none (browser.refusal c.made)))
  unfolding connect make_socket close_socket clear_reconnect_timer next
  phase-connect = ground (arith, h.connected_attempts)

  phase-step :
      (e : Event)
      → phase (step browser c e)
        ≡ next c.reconnect_enabled c.max_reconnect_attempts (phase c) (signal browser c e)
  unfolding step next
  phase-step connect_called = phase-connect
  phase-step disconnect_called =
      unfold disconnect close_socket clear_reconnect_timer in ground (arith, h.connected_attempts)
  phase-step (send_called m) = unfold send in ground arith
  phase-step timer_fired = ground (arith, phase-connect)
  phase-step (opened n) = unfold on_open in ground arith
  phase-step (closing n) = ground arith
  phase-step (errored n) = unfold on_error in ground arith
  phase-step (received n payload) = ground (arith, phase-on_message browser payload c)
  phase-step (closed n) =
      unfold on_close schedule_reconnect in
      ground (arith, h.connected_attempts, h.closed_intentionally)

-- The client behaves as the specification says: whatever has happened to a new client, after the next
-- event its phase is the next one, and sockets, timers and status are details.
pub phase-run :
    (browser : Browser) (url : Text) (r : Option Bool) (n : Option ℕ) (es : List Event) (e : Event)
    → let c = run browser (new_client url r n) es in
      phase (step browser c e)
      ≡ next c.reconnect_enabled c.max_reconnect_attempts (phase c) (signal browser c e)
phase-run browser url r n es e =
    phase-step browser (run browser (new_client url r n) es) (run-Sound browser url r n es) e
