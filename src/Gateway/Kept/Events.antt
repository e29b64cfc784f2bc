-- ===== src/Gateway/Kept/Events.antt =====
-- What the backend says leaves the records of the connections.
use thread_link.Prelude.{ℕ, refl, true, none, some, List, [], ◌∷◌, Text, ◌==◌, js}
use thread_link.Protocol.{ClientMessage, error, user_update}
use thread_link.BackendMessages.{
  BackendEvent, welcome, sys, msg, priv, priv_sent, nick, list, err, unknown,
}
use thread_link.Sessions.{drain_queue}
use thread_link.Environment.{Environment}
use thread_link.Gateway.{Gateway, draw, set_session, send_to}
use thread_link.Gateway.Actions.{broadcast_to_all, send_ready, summarize}
use thread_link.Gateway.Messaging.{handle_client_message}
use thread_link.Gateway.BackendEvents.{
  settle, conflict_message, handle_all, announce_ready, on_welcome, persist_rename, on_nick, on_msg,
  on_priv, on_priv_sent, on_err, on_backend_event,
}
use thread_link.Gateway.Kept.{
  Kept, Kept-trans, Kept-draw, Kept-send_to, Kept-send_line, Kept-close_ws, Kept-set_session,
  Kept-broadcast, Kept-if,
}
use thread_link.Gateway.Kept.Requests.{Kept-client_message}

module _ (env : Environment) where
  Kept-handle_all : (r : ℕ) (ms : List ClientMessage) (g : Gateway) → Kept g (handle_all env r ms g)
  unfolding handle_all
  Kept-handle_all r [] g = record { at = λ q. refl }
  Kept-handle_all r (m ∷ ms) g =
      let g' = handle_client_message env r m g in
      Kept-trans g g' _ (Kept-client_message env r m g) (Kept-handle_all r ms g')

  Kept-announce_ready : (r : ℕ) (g : Gateway) → Kept g (announce_ready env r g)
  unfolding announce_ready send_ready drain_queue
  Kept-announce_ready r g =
      let s₁ = record (g.heap r) { ready_announced = true } in
      let g₁ = set_session r s₁ g in
      let g₂ = send_ready env r g₁ in
      let g₃ = broadcast_to_all (user_update (summarize r g₂)) (some (g₂.heap r).id) g₂ in
      let (queued, s) = drain_queue (g₃.heap r) in
      let g₄ = set_session r s g₃ in
      Kept-trans g g₁ _ (Kept-set_session r s₁ g refl) (
        Kept-trans g₁ g₂ _ (Kept-send_to r _ g₁) (
          Kept-trans g₂ g₃ _ (Kept-broadcast _ _ g₂)
            (Kept-trans g₃ g₄ _ (Kept-set_session r s g₃ refl) (Kept-handle_all r queued g₄))))

  Kept-persist_rename : (r : ℕ) (name : Text) (g : Gateway) → Kept g (persist_rename env r name g)
  unfolding persist_rename
  Kept-persist_rename r name g =
      let h = Kept-broadcast (user_update (summarize r g)) none g in record { at = h.at }

  Kept-on_welcome : (r : ℕ) (nickname : Text) (g : Gateway) → Kept g (on_welcome env r nickname g)
  unfolding on_welcome
  Kept-on_welcome r nickname g =
      let s = record (g.heap r) { welcomed = true; nickname = nickname } in
      let g' = set_session r s g in
      Kept-trans g g' _ (Kept-set_session r s g refl)
        (Kept-if _ g' _ _ (Kept-send_line r _ g') (Kept-announce_ready r g'))

  Kept-on_nick : (r : ℕ) (old new : Text) (g : Gateway) → Kept g (on_nick env r old new g)
  unfolding on_nick
  Kept-on_nick r old new g =
      let s = record (g.heap r) {
        nickname = new;
        desired_username = settle (g.heap r).desired_username new;
      } in
      let g' = set_session r s g in
      Kept-if (old == (g.heap r).nickname) g _ g
        (Kept-trans g g' _ (Kept-set_session r s g refl) (
          Kept-if (g.heap r).ready_announced g' _ _ (Kept-persist_rename r new g')
            (Kept-announce_ready r g')))
        (record { at = λ q. refl })

  pub Kept-backend_event :
      (r : ℕ) (e : BackendEvent) (g : Gateway) → Kept g (on_backend_event env r e g)
  unfolding on_backend_event on_msg on_priv on_priv_sent on_err
  Kept-backend_event r (welcome nickname) g = Kept-on_welcome r nickname g
  Kept-backend_event r (nick old new) g = Kept-on_nick r old new g
  Kept-backend_event r (msg sender text) g = Kept-draw g.db g _ (Kept-send_to r _ (draw g))
  Kept-backend_event r (priv sender text) g = Kept-draw _ g _ (Kept-send_to r _ _)
  Kept-backend_event r (priv_sent recipient text) g = Kept-draw _ g _ (Kept-send_to r _ _)
  Kept-backend_event r (err code text) g =
      let told = error (js "LOGIN_FAILED") (conflict_message env) none in
      Kept-if _ g _ _
        (Kept-trans g (send_to r told g) _ (Kept-send_to r told g)
          (Kept-close_ws r 1011 (send_to r told g)))
        (Kept-send_to r _ g)
  Kept-backend_event r (sys text) g = record { at = λ q. refl }
  Kept-backend_event r (list count names) g = record { at = λ q. refl }
  Kept-backend_event r (unknown raw) g = record { at = λ q. refl }
