-- ===== src/Transport/Tests.antt =====
-- Examples for the client: a browser in which no `new WebSocket` throws and nothing parses.
use thread_link.Prelude.{◌≡◌, none, some, List, [], ◌∷◌, js}
use thread_link.Protocol.{logged_out}
use thread_link.Transport.{
  Browser, new_client, connect, make_socket, close_socket, clear_reconnect_timer, on_open, on_close,
  schedule_reconnect,
}
use thread_link.Transport.Machine.{Event, connect_called, opened, closed, step, run}
use thread_link.Transport.Sound.{Sound, run-Sound}
use thread_link.Transport.Phases.{phase, waiting, next, phase-run}

abbrev calm : Browser
calm = record {
  refusal = λ n. none;
  parse_json = λ text. none;
  as_server_message = λ j. logged_out;
}

-- A client with two attempts to connect again loses its connection.
abbrev lost : List Event
lost = connect_called ∷ opened 0 ∷ closed 0 ∷ []

run-Sound_example : Sound (run calm (new_client (js "ws://chat") none (some 2)) lost)
run-Sound_example = run-Sound calm (js "ws://chat") none (some 2) lost

phase-run_example : phase (run calm (new_client (js "ws://chat") none (some 2)) lost) ≡ waiting 1
unfolding run step connect make_socket close_socket clear_reconnect_timer new_client next on_open
    on_close schedule_reconnect
phase-run_example =
    phase-run calm (js "ws://chat") none (some 2) (connect_called ∷ opened 0 ∷ []) (closed 0)
