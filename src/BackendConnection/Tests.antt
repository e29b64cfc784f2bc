-- ===== src/BackendConnection/Tests.antt =====
-- Examples for a connection, with bytes for the units of texts.
use mathlib.Core.List.{flatten}
use thread_link.Prelude.{js, List, ◌≡◌, refl, true, [], ◌∷◌, ◌++◌, arith}
use thread_link.Wire.{encode_frame, write_uint32_be}
use thread_link.BackendConnection.{
  Connection, Utf8, event, new_connection, dial, close_called, data_came, socket_closed, happen,
  happen_all,
}
use thread_link.BackendConnection
use thread_link.Wire.{push, push_loop, read_uint32_be}
use thread_link.Database.{empty_db}
use thread_link.Sessions.{connecting, new_session}
use thread_link.Gateway.{Gateway}
use thread_link.Gateway.Steps.{start}
use thread_link.Gateway.Worlds.{toy}
use thread_link.BackendConnection.{Happening, on_data, close_connection, happen}
use thread_link.BackendConnection.Mirror.{phase, mirror_all, phase-happen_all}
use thread_link.BackendConnection.Streams.{all_came}
use thread_link.BackendConnection.Closing.{closes, happen_all_oversized}

abbrev ascii : Utf8
ascii = record { to_text = λ bytes. bytes; to_bytes = λ text. text }

happen_all_oversized_example :
    let c = happen_all ascii 8 (dial new_connection) (
      BackendConnection.connected
      ∷ (all_came ((0 ∷ 0 ∷ 1 ∷ 0 ∷ 9 ∷ []) ∷ []) ++ (socket_closed ∷ []))) in
    (c.closed ≡ true) × (closes c.emitted ≡ 0)
unfolding encode_frame write_uint32_be flatten
happen_all_oversized_example =
    happen_all_oversized ascii 8 256 [] ((0 ∷ 0 ∷ 1 ∷ 0 ∷ 9 ∷ []) ∷ []) (9 ∷ [])
      (socket_closed ∷ []) (omega arith) (omega arith) tt refl

-- A session whose connection is being made.
abbrev bridged : Gateway
bridged = record (start toy empty_db) {
  heap = λ r. record (new_session []) { backend = connecting };
  opened = 1;
}

-- It is made, brings a line, and then a frame that is too large.
abbrev overflowing : List Happening
overflowing =
    BackendConnection.connected
    ∷ data_came (0 ∷ 0 ∷ 0 ∷ 6 ∷ js "SYS hi")
    ∷ data_came (0 ∷ 0 ∷ 1 ∷ 0 ∷ [])
    ∷ []

phase-happen_all_example :
    phase (happen_all ascii 8 (dial new_connection) overflowing)
    ≡ ((mirror_all ascii 8 toy 100 (dial new_connection) overflowing 0 bridged).heap 0).backend
unfolding start new_connection dial happen on_data close_connection push push_loop read_uint32_be
phase-happen_all_example =
    phase-happen_all ascii 8 toy 100 overflowing 0 bridged refl
      ((refl, refl), ((refl, refl), ((refl, refl), tt)))
