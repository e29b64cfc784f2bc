-- ===== src/Gateway/Safety/Closing.antt =====
-- The ends of connections keep the invariant.
use thread_link.Prelude.{
  ℕ, ◌<◌, true, false, List, [], ◌∷◌, All, arith, Text, if◌then◌else◌, ◌==◌, delete,
}
use thread_link.Sessions.{absent, connecting, connected, closed, Roster, remove, all_sessions}
use thread_link.Gateway.{Gateway, backend_destroyed, emit, set_session, close_ws}
use thread_link.Gateway.Login.{
  destroy_backend, connect_failed, connect_resolved, on_client_closed, close_sessions, close,
}
use thread_link.Gateway.Safety.{
  Safe, Good, IsLive, Safe-branch, Good-if, Safe-set_session, Good-emit, Good-send,
  Good-set_session,
}
use thread_link.Gateway.Safety.Actions.{Good-close_ws, Good-broadcast_to_all, all_sessions-IsLive}
use thread_link.Gateway.Safety.Login.{Safe-roster}

All-delete : (P : Text × ℕ → Type 0) (k : Text) (m : Roster) → All P m → All P (delete k m)
unfolding delete
All-delete P k [] h = tt
All-delete P k ((j, q) ∷ m) (l, h) =
    elim (j == k) as (λ b. All P (if b then delete k m else (j, q) ∷ delete k m)) [
      | true ↦ All-delete P k m h
      | false ↦ (l, All-delete P k m h)
    ]

Good-remove :
    (r : ℕ) (id : Text) (g : Gateway) → Good r g → Good r (record g { roster = remove id g.roster })
unfolding remove
Good-remove r id g h = record {
  safe =
      Safe-roster (delete id g.roster) g h.safe
        (All-delete (λ e. IsLive g e.1) id g.roster h.safe.roster_live);
  live = h.live;
}

pub Good-destroy_backend : (r : ℕ) (g : Gateway) → Good r g → Good r (destroy_backend r g)
Good-destroy_backend r g h =
    let h' =
      Good-emit r (backend_destroyed r) _
        (Good-set_session r (record (g.heap r) { backend = closed }) g h h.live.0) tt in
    elim (g.heap r).backend
      as (λ b. Good r (elim b [
        | connecting ↦
            emit (backend_destroyed r) (set_session r (record (g.heap r) { backend = closed }) g)
        | connected ↦
            emit (backend_destroyed r) (set_session r (record (g.heap r) { backend = closed }) g)
        | _ ↦ g
      ])) [ absent ↦ h | connecting ↦ h' | connected ↦ h' | closed ↦ h ]

pub Good-connect_failed : (r : ℕ) (g : Gateway) → Good r g → Good r (connect_failed r g)
unfolding connect_failed
Good-connect_failed r g h = Good-remove r _ _ (Good-close_ws r 1011 _ (Good-send r _ g h))

pub Good-connect_resolved : (r : ℕ) (g : Gateway) → Good r g → Good r (connect_resolved r g)
unfolding connect_resolved
Good-connect_resolved r g h =
    elim (g.heap r).backend
      as (λ b. Good r (elim b [
        | connecting ↦ set_session r (record (g.heap r) { backend = connected }) g
        | _ ↦ g
      ])) [
        | absent ↦ h
        | connecting ↦ Good-set_session r (record (g.heap r) { backend = connected }) g h h.live.0
        | connected ↦ h
        | closed ↦ h
      ]

pub Safe-on_client_closed :
    (r : ℕ) (g : Gateway) → Safe g → r < g.opened → Safe (on_client_closed r g)
unfolding on_client_closed
Safe-on_client_closed r g h k =
    let s = record (g.heap r) { closed = true; ws_open = false } in
    let g₁ = set_session r s g in
    let h₁ = Safe-set_session r s g h (λ e. e) (h.backend_live r) in
    Safe-branch (g.heap r).closed _ _ (λ _. h)
      (λ _.
        Safe-branch (g.heap r).authenticated _ _
          (λ a.
            let good : Good r g₁ = record { safe = h₁; live = ground arith } in
            let removed =
              Good-remove r ((destroy_backend r g₁).heap r).id (destroy_backend r g₁)
                (Good-destroy_backend r g₁ good) in
            (Good-if r _ _ _ (Good-broadcast_to_all r _ _ _ removed) removed).safe)
          (λ _. h₁))

IsLive-destroy_backend : (q r : ℕ) (g : Gateway) → IsLive g q → IsLive (destroy_backend r g) q
IsLive-destroy_backend q r g h = ground arith

IsLive-close_ws : (q r code : ℕ) (g : Gateway) → IsLive g q → IsLive (close_ws r code g) q
unfolding close_ws
IsLive-close_ws q r code g h = ground arith

IsLive-closing :
    (r : ℕ) (g : Gateway) (rs : List ℕ)
    → All (IsLive g) rs
    → All (IsLive (close_ws r 1001 (destroy_backend r g))) rs
IsLive-closing r g [] h = tt
IsLive-closing r g (q ∷ rs) (k, h) =
    (IsLive-close_ws q r 1001 _ (IsLive-destroy_backend q r g k), IsLive-closing r g rs h)

Safe-close_sessions :
    (rs : List ℕ) (g : Gateway) → Safe g → All (IsLive g) rs → Safe (close_sessions rs g)
unfolding close_sessions
Safe-close_sessions [] g h k = h
Safe-close_sessions (r ∷ rs) g h (l, k) =
    Safe-close_sessions rs _
      (Good-close_ws r 1001 _ (Good-destroy_backend r g (record { safe = h; live = l }))).safe
      (IsLive-closing r g rs k)

pub Safe-close : (g : Gateway) → Safe g → Safe (close g)
unfolding close
Safe-close g h =
    Safe-close_sessions (all_sessions g.roster) g h (all_sessions-IsLive g g.roster h.roster_live)
