-- ===== src/Gateway/Shutdown.antt =====
-- What `close` of a GatewayServer closes.
use thread_link.Prelude.{
  ℕ, ◌≡◌, refl, Bool, false, List, [], ◌∷◌, any, arith, if◌then◌else◌, nat_beq, nat_beq_iff,
}
use thread_link.Sessions.{
  Session, Backend, absent, connecting, connected, closed, close_backend, all_sessions,
}
use thread_link.Gateway.{Gateway, close_ws}
use thread_link.Gateway.Login.{destroy_backend, close_sessions, close}

-- A session whose WebSocket and whose connection to the backend were closed.
abbrev pub ended : Session → Session
ended s = record s { ws_open = false; backend = close_backend s.backend }

abbrev pub is_listed : ℕ → List ℕ → Bool
is_listed q rs = any (λ r. nat_beq r q) rs

heap-destroy_backend :
    (r q : ℕ) (g : Gateway)
    → (destroy_backend r g).heap q ≡ (
        if nat_beq r q
        then record (g.heap q) { backend = close_backend (g.heap q).backend }
        else g.heap q)
heap-destroy_backend r q g = ground (arith, nat_beq_iff r q)

heap-close_ws :
    (r q code : ℕ) (g : Gateway)
    → (close_ws r code g).heap q
      ≡ (if nat_beq r q then record (g.heap q) { ws_open = false } else g.heap q)
unfolding close_ws
heap-close_ws r q code g = ground (arith, nat_beq_iff r q)

close_backend_idem : (b : Backend) → close_backend (close_backend b) ≡ close_backend b
close_backend_idem absent = refl
close_backend_idem connecting = refl
close_backend_idem connected = refl
close_backend_idem closed = refl

heap-close_one :
    (r q : ℕ) (g : Gateway)
    → (close_ws r 1001 (destroy_backend r g)).heap q
      ≡ (if nat_beq r q then ended (g.heap q) else g.heap q)
heap-close_one r q g =
    ground (arith, heap-close_ws r q 1001 (destroy_backend r g), heap-destroy_backend r q g)

heap-close_sessions :
    (rs : List ℕ) (q : ℕ) (g : Gateway)
    → (close_sessions rs g).heap q ≡ (if is_listed q rs then ended (g.heap q) else g.heap q)
unfolding close_sessions any
heap-close_sessions [] q g = refl
heap-close_sessions (r ∷ rs) q g = ground (
  arith,
  heap-close_sessions rs q (close_ws r 1001 (destroy_backend r g)),
  heap-close_one r q g,
  close_backend_idem (g.heap q).backend,
)

-- `close` ends the WebSocket and the connection to the backend of every session in the roster, and of no
-- other: a WebSocket that has not logged in stays as it is.
pub heap-close :
    (q : ℕ) (g : Gateway)
    → (close g).heap q
      ≡ (if is_listed q (all_sessions g.roster) then ended (g.heap q) else g.heap q)
unfolding close
heap-close q g = heap-close_sessions (all_sessions g.roster) q g
