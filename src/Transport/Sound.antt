-- ===== src/Transport/Sound.antt =====
-- What holds of a ThreadLinkClient between two events.
use thread_link.Prelude.{
  ℕ, ◌≡◌, ◌≤◌, Bool, true, false, Option, none, some, List, ◌∷◌, [], arith, Text,
}
use thread_link.ChatState.{connected, reconnecting}
use thread_link.Protocol.{ClientMessage}
use thread_link.Transport.{
  Client, Browser, new_client, clear_reconnect_timer, close_socket, make_socket, connect,
  on_message, on_open, on_error, on_close, schedule_reconnect, disconnect, send, is_some,
  parse_inbound,
}
use thread_link.Transport.Machine.{
  Event, connect_called, disconnect_called, send_called, timer_fired, opened, closing, errored,
  received, closed, step, run,
}

pub record Sound (c : Client) : Type 0 where
  -- never a WebSocket and a timer at once
  pub one_way : is_some c.socket ≡ true → c.reconnect_timer ≡ false
  -- the client says "reconnecting" exactly while the timer is set
  pub timer_reconnecting : c.reconnect_timer ≡ true → c.status ≡ reconnecting
  pub reconnecting_timer : c.status ≡ reconnecting → c.reconnect_timer ≡ true
  pub connected_socket : c.status ≡ connected → is_some c.socket ≡ true
  pub connected_attempts : c.status ≡ connected → c.reconnect_attempts ≡ 0
  pub attempts_bounded : c.reconnect_attempts ≤ c.max_reconnect_attempts
  pub closed_intentionally : c.intentional_close ≡ true → c.socket ≡ none

new_client-Sound : (url : Text) (r : Option Bool) (n : Option ℕ) → Sound (new_client url r n)
unfolding new_client
new_client-Sound url r n = ground arith

on_open-Sound : (c : Client) → Sound c → is_some c.socket ≡ true → Sound (on_open c)
unfolding on_open
on_open-Sound c h s = ground arith

on_error-Sound : (c : Client) → Sound c → Sound (on_error c)
unfolding on_error
on_error-Sound c h = ground arith

on_close-Sound : (c : Client) → Sound c → is_some c.socket ≡ true → Sound (on_close c)
unfolding on_close schedule_reconnect
on_close-Sound c h s = ground arith

send-Sound : (m : ClientMessage) (c : Client) → Sound c → Sound (send m c).0
unfolding send
send-Sound m c h = ground arith

disconnect-Sound : (c : Client) → Sound c → Sound (disconnect c)
unfolding disconnect close_socket clear_reconnect_timer
disconnect-Sound c h = ground arith

connect-Sound : (browser : Browser) (c : Client) → Sound c → Sound (connect browser c)
unfolding connect make_socket close_socket clear_reconnect_timer
connect-Sound browser c h = ground arith

on_message-Sound :
    (browser : Browser) (d : Option Text) (c : Client) → Sound c → Sound (on_message browser d c)
unfolding on_message parse_inbound
on_message-Sound browser none c h = h
on_message-Sound browser (some []) c h = h
on_message-Sound browser (some (u ∷ text)) c h = ground arith

step-Sound : (browser : Browser) (c : Client) (e : Event) → Sound c → Sound (step browser c e)
unfolding step
step-Sound browser c connect_called h = connect-Sound browser c h
step-Sound browser c disconnect_called h = disconnect-Sound c h
step-Sound browser c (send_called m) h = send-Sound m c h
step-Sound browser c timer_fired h = ground (arith, connect-Sound browser c)
step-Sound browser c (opened n) h = unfold on_open in ground arith
step-Sound browser c (closing n) h = ground arith
step-Sound browser c (errored n) h = ground (arith, on_error-Sound c)
step-Sound browser c (received n payload) h = ground (arith, on_message-Sound browser payload c)
step-Sound browser c (closed n) h = ground (arith, on_close-Sound c)

run_from-Sound :
    (browser : Browser) (c : Client) (es : List Event) → Sound c → Sound (run browser c es)
unfolding run
run_from-Sound browser c [] h = h
run_from-Sound browser c (e ∷ es) h =
    run_from-Sound browser (step browser c e) es (step-Sound browser c e h)

-- Whatever happens to a new client and to its WebSockets, in whatever order: it never has a WebSocket
-- and a timer at once; it says "reconnecting" exactly while a timer is set; while it says "connected"
-- it has a WebSocket and no failed attempts; and it counts at most as many attempts as are allowed.
pub run-Sound :
    (browser : Browser) (url : Text) (r : Option Bool) (n : Option ℕ) (es : List Event)
    → Sound (run browser (new_client url r n) es)
run-Sound browser url r n es =
    run_from-Sound browser (new_client url r n) es (new_client-Sound url r n)
