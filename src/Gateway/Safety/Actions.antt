-- ===== src/Gateway/Safety/Actions.antt =====
-- The helpers of gatewayServer.ts keep the invariant.
use thread_link.Prelude.{
  ℕ, ◌≡◌, refl, false, not, ◌||◌, Option, none, some, List, [], ◌∷◌, All, arith, Text, get,
}
use thread_link.Protocol.{ServerMessage}
use thread_link.Sessions.{Roster, all_sessions, find_session}
use thread_link.Environment.{Environment}
use thread_link.Gateway.{Gateway, set_session, send_line, close_ws, line, rejected, ws_closed}
use thread_link.Gateway.Actions.{
  broadcast_one, broadcast_from, broadcast_to_all, send_ready, ready_message, is_excluded,
}
use thread_link.Gateway.Messaging.{send_if, send_to_ids}
use thread_link.Gateway.Safety.{
  Safe, Good, IsLive, Good-if, Good-emit, Good-send, Good-send_to, Good-set_session, IsLive-send_to,
}

pub Good-send_line : (r : ℕ) (text : Text) (g : Gateway) → Good r g → Good r (send_line r text g)
unfolding send_line
Good-send_line r text g h =
    Good-if r _ _ _ (Good-emit r (line r text) g h tt) (Good-emit r (rejected r) g h tt)

pub Good-close_ws : (r code : ℕ) (g : Gateway) → Good r g → Good r (close_ws r code g)
unfolding close_ws
Good-close_ws r code g h =
    let s = record (g.heap r) { ws_open = false } in
    Good-if r _ _ _
      (Good-emit r (ws_closed r code) (set_session r s g) (Good-set_session r s g h h.live.0) tt) h

IsLive-broadcast_one :
    (q r : ℕ) (m : ServerMessage) (x : Option Text) (g : Gateway)
    → IsLive g q
    → IsLive (broadcast_one m x r g) q
IsLive-broadcast_one q r m x g h = ground (arith, IsLive-send_to q r m g)

All-broadcast_one :
    (r : ℕ) (m : ServerMessage) (x : Option Text) (g : Gateway) (rs : List ℕ)
    → All (IsLive g) rs
    → All (IsLive (broadcast_one m x r g)) rs
All-broadcast_one r m x g [] h = tt
All-broadcast_one r m x g (q ∷ rs) (k, h) =
    (IsLive-broadcast_one q r m x g k, All-broadcast_one r m x g rs h)

Good-broadcast_from :
    (r : ℕ) (rs : List ℕ) (m : ServerMessage) (x : Option Text) (g : Gateway)
    → Good r g
    → All (IsLive g) rs
    → Good r (broadcast_from rs m x g)
unfolding broadcast_from
Good-broadcast_from r [] m x g h k = h
Good-broadcast_from r (q ∷ rs) m x g h (l, k) =
    Good-broadcast_from r rs m x (broadcast_one m x q g)
      (Good-if r (is_excluded x (g.heap q).id || not (g.heap q).welcomed) _ _ h
        (Good-send_to r q m g h l))
      (All-broadcast_one q m x g rs k)

pub all_sessions-IsLive :
    (g : Gateway) (roster : Roster)
    → All (λ (e : Text × ℕ). IsLive g e.1) roster
    → All (IsLive g) (all_sessions roster)
unfolding all_sessions
all_sessions-IsLive g [] h = tt
all_sessions-IsLive g ((id, r) ∷ roster) (k, h) = (k, all_sessions-IsLive g roster h)

pub Good-broadcast_to_all :
    (r : ℕ) (m : ServerMessage) (x : Option Text) (g : Gateway)
    → Good r g
    → Good r (broadcast_to_all m x g)
unfolding broadcast_to_all
Good-broadcast_to_all r m x g h =
    Good-broadcast_from r (all_sessions g.roster) m x g h
      (all_sessions-IsLive g g.roster h.safe.roster_live)

find_in-IsLive :
    (g : Gateway) (id : Text) (r : ℕ) (roster : Roster)
    → All (λ (e : Text × ℕ). IsLive g e.1) roster
    → find_session id roster ≡ some r
    → IsLive g r
unfolding find_session get
find_in-IsLive g id r [] h e = absurd cc
find_in-IsLive g id r ((j, q) ∷ roster) (k, h) e = ground (arith, find_in-IsLive g id r roster h)

pub find_session-IsLive :
    (g : Gateway) (id : Text) (r : ℕ) → Safe g → find_session id g.roster ≡ some r → IsLive g r
find_session-IsLive g id r h e = find_in-IsLive g id r g.roster h.roster_live e

pub Good-send_if :
    (r : ℕ) (id : Text) (m : ServerMessage) (g : Gateway) (o : Option ℕ)
    → Good r g
    → find_session id g.roster ≡ o
    → Good r (send_if o m g)
Good-send_if r id m g none h e = h
Good-send_if r id m g (some q) h e = Good-send_to r q m g h (find_session-IsLive g id q h.safe e)

pub Good-send_ready :
    (env : Environment) (r : ℕ) (g : Gateway) → Good r g → Good r (send_ready env r g)
unfolding send_ready
Good-send_ready env r g h = Good-send r (ready_message env r g) g h

pub Good-send_to_ids :
    (r : ℕ) (ids : List Text) (m : ServerMessage) (g : Gateway)
    → Good r g
    → Good r (send_to_ids ids m g)
unfolding send_to_ids
Good-send_to_ids r [] m g h = h
Good-send_to_ids r (id ∷ ids) m g h =
    Good-send_to_ids r ids m _ (Good-send_if r id m g (find_session id g.roster) h refl)
