-- ===== src/Gateway/Grows.antt =====
-- Broadcasts write to the log, and leave the rest of the gateway as it is.
use mathlib.Core.List.{append_assoc, append-nil}
use thread_link.Prelude.{
  ℕ, ◌≡◌, refl, sym, ap, ◌∙◌, Bool, true, false, Option, List, [], ◌∷◌, ◌++◌, if◌then◌else◌, Text,
}
use thread_link.Protocol.{ServerMessage}
use thread_link.Gateway.{Gateway, Effect, emit, sent, send_to}
use thread_link.Gateway.Actions.{broadcast_one, broadcast_from}

-- The log grows, and nothing else changes.
unfoldable pub Grows : Gateway → Gateway → Type 0
Grows g g' = (es : List Effect) × (g' ≡ record g { log = g.log ++ es })

pub Grows-refl : (g : Gateway) → Grows g g
unfolding Grows
Grows-refl g = ([], ap (λ es. record g { log = es }) (sym (append-nil g.log)))

pub Grows-send_to : (q : ℕ) (m : ServerMessage) (g : Gateway) → Grows g (send_to q m g)
unfolding Grows send_to
Grows-send_to q m g =
    elim (g.heap q).ws_open
      as (λ b.
        (es : List Effect) × ((if b then emit (sent q m) g else g)
          ≡ record g { log = g.log ++ es })) [
            | true ↦ (sent q m ∷ [], refl)
            | false ↦ ([], ap (λ es. record g { log = es }) (sym (append-nil g.log)))
          ]

pub Grows-if : (b : Bool) (g x y : Gateway) → Grows g x → Grows g y → Grows g (if b then x else y)
Grows-if true g x y h k = h
Grows-if false g x y h k = k

pub Grows-trans : (g g' g'' : Gateway) → Grows g g' → Grows g' g'' → Grows g g''
unfolding Grows
Grows-trans g g' g'' (es, e) (es', e') = (
  es ++ es',
  e'
      ∙ ap (λ (h : Gateway). record h { log = h.log ++ es' }) e
      ∙ ap (λ l. record g { log = l }) (append_assoc g.log es es'),
)

pub Grows-broadcast_from :
    (rs : List ℕ) (m : ServerMessage) (excluded : Option Text) (g : Gateway)
    → Grows g (broadcast_from rs m excluded g)
unfolding broadcast_from
Grows-broadcast_from [] m excluded g = Grows-refl g
Grows-broadcast_from (q ∷ rs) m excluded g =
    Grows-trans g (broadcast_one m excluded q g) _
      (Grows-if _ g g (send_to q m g) (Grows-refl g) (Grows-send_to q m g))
      (Grows-broadcast_from rs m excluded (broadcast_one m excluded q g))
