-- ===== src/Gateway/Queueing.antt =====
-- What becomes of the requests of a WebSocket that has not logged in.
use thread_link.Prelude.{ℕ, ◌≡◌, ap, ◌∙◌, js, none, Bool, true, false, some, List, length, ltb}
use thread_link.Protocol.{
  ClientMessage, register, login, logout, set_nickname, send_message, create_group, set_presence,
  request_state, error,
}
use thread_link.ClientProtocol.{threw, Validation, ok, refused}
use thread_link.ClientProtocol.Bounds.{InBounds}
use thread_link.ClientProtocol.RoundTrip.{to_json, validate-to_json}
use thread_link.Sessions.{queue_until_ready}
use thread_link.Environment.{Environment}
use thread_link.Gateway.{Gateway, set_session, send_to, emit, rejected}
use thread_link.Gateway.Login.{dispatch, on_parsed, on_client_raw}

-- Whether a message is handled before the login.
abbrev pub is_auth : ClientMessage → Bool
is_auth (register username password) = true
is_auth (login username password) = true
is_auth logout = true
is_auth _ = false

dispatch-queues :
    (env : Environment) (r : ℕ) (m : ClientMessage) (g : Gateway)
    → is_auth m ≡ false
    → (g.heap r).authenticated ≡ false
    → dispatch env r m g ≡ set_session r (queue_until_ready m (g.heap r)) g
unfolding dispatch
dispatch-queues env r (register username password) g n h = absurd cc
dispatch-queues env r (login username password) g n h = absurd cc
dispatch-queues env r logout g n h = absurd cc
dispatch-queues env r (set_nickname name) g n h = rw h
dispatch-queues env r (send_message t s) g n h = rw h
dispatch-queues env r (create_group name ids) g n h = rw h
dispatch-queues env r (set_presence p) g n h = rw h
dispatch-queues env r request_state g n h = rw h

on_parsed-queues :
    (env : Environment) (r : ℕ) (m : ClientMessage) (g : Gateway)
    → InBounds m
    → is_auth m ≡ false
    → (g.heap r).authenticated ≡ false
    → on_parsed env r (some (to_json m)) g ≡ set_session r (queue_until_ready m (g.heap r)) g
unfolding on_parsed
on_parsed-queues env r m g within other h =
    ap
      (λ (v : Validation ClientMessage). elim v [
        | refused e ↦ send_to r (error (js "BAD_MESSAGE") e none) g
        | threw ↦ emit (rejected r) g
        | ok m ↦ dispatch env r m g
      ])
      (validate-to_json m within)
    ∙ dispatch-queues env r m g other h

-- Any other request of the browser, on a WebSocket that has not logged in, is put into the queue of its
-- session as it was sent, and nothing else happens: in particular no answer is sent. The request is
-- within the bounds, and its text within the limit.
pub on_client_raw-queues :
    (env : Environment) (limit r : ℕ) (raw : List ℕ) (m : ClientMessage) (g : Gateway)
    → ltb limit (length raw) ≡ false
    → env.parse_json raw ≡ some (to_json m)
    → InBounds m
    → is_auth m ≡ false
    → (g.heap r).authenticated ≡ false
    → on_client_raw env limit r raw g ≡ set_session r (queue_until_ready m (g.heap r)) g
unfolding on_client_raw
on_client_raw-queues env limit r raw m g short parsed within other h =
    rw (short, parsed) (on_parsed-queues env r m g within other h)
