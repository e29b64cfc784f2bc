-- ===== src/Gateway/Gate.antt =====
-- What a WebSocket can do before it has logged in.
use thread_link.Prelude.{ℕ, ◌≡◌, ◌⊎◌, [], ◌∷◌, ◌++◌, false, some, List, nat_beq}
use thread_link.Protocol.{ServerMessage}
use thread_link.ClientProtocol.{threw, validate_client_message}
use thread_link.ClientProtocol.Values.{Json}
use thread_link.Environment.{Environment}
use thread_link.Gateway.{Gateway, sent, rejected, emit}
use thread_link.Gateway.Login.{on_client_raw}

-- At most one message was sent, to the session itself; nothing else left the gateway.
abbrev pub Answered : ℕ → Gateway → Gateway → Type 0
Answered r g g' = (g'.log ≡ g.log) ⊎ ((m : ServerMessage) × (g'.log ≡ g.log ++ sent r m ∷ []))

-- The second state has the rows and the roster of the first, and the same sessions but for one, which
-- has logged in in both or in neither.
pub record Quiet (r : ℕ) (g g' : Gateway) : Type 0 where
  pub same_db : g'.db ≡ g.db
  pub same_roster : g'.roster ≡ g.roster
  pub same_others : (q : ℕ) → nat_beq r q ≡ false → g'.heap q ≡ g.heap q
  pub same_authenticated : (g'.heap r).authenticated ≡ (g.heap r).authenticated
  pub only_answered : Answered r g g'

-- The bytes are those of a value that the validation throws on, and the process ends.
pub record IsFatal (env : Environment) (limit r : ℕ) (raw : List ℕ) (g : Gateway) : Type 0 where
  pub value : Json
  pub is_read : env.parse_json raw ≡ some value
  pub throws : validate_client_message value ≡ threw
  pub ends : on_client_raw env limit r raw g ≡ emit (rejected r) g
