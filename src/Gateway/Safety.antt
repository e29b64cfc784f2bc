-- ===== src/Gateway/Safety.antt =====
-- What a session that has not logged in can receive: the invariant of gatewayServer.ts, and that what
-- the handlers are made of keeps it.
pub mod Actions
pub mod Messaging
pub mod BackendEvents
pub mod Login
pub mod Closing
pub mod Reachable
use thread_link.Prelude.{
  ℕ, ◌<◌, ◌≡◌, refl, ◌≢◌, inl, inr, ◌⊎◌, Bool, true, false, Option, none, some, List, [], ◌∷◌, ◌++◌,
  if◌then◌else◌, nat_beq, All, All-append, All-imp, arith, Text,
}
use thread_link.Protocol.{ServerMessage, error}
use thread_link.Database.{Db}
use thread_link.Sessions.{Session, absent}
use thread_link.Gateway.{
  Gateway, Effect, sent, ws_closed, backend_opened, backend_destroyed, line, rejected, AuthTask,
  emit, set_session, send_to,
}

-- The session was opened and has logged in.
abbrev pub IsLive : Gateway → ℕ → Type 0
IsLive g r = ((g.heap r).authenticated ≡ true) × (r < g.opened)

abbrev pub IsError : ServerMessage → Type 0
IsError (error code text conversation) = Unit
IsError _ = ⊥

abbrev pub IsAllowed : Gateway → Effect → Type 0
IsAllowed g (sent r m) = IsError m ⊎ IsLive g r
IsAllowed g _ = Unit

-- Only live sessions are in the roster, have a backend connection, and were sent anything but errors.
pub record Safe (g : Gateway) : Type 0 where
  pub roster_live : All (λ (e : Text × ℕ). IsLive g e.1) g.roster
  pub log_allowed : All (IsAllowed g) g.log
  pub backend_live : (r : ℕ) → (g.heap r).backend ≢ absent → IsLive g r
  pub tasks_opened : All (λ (t : ℕ × AuthTask). t.0 < g.opened) g.tasks

-- A safe state in which the session is live.
pub record Good (r : ℕ) (g : Gateway) : Type 0 where
  pub safe : Safe g
  pub live : IsLive g r

pub Safe-if : (c : Bool) (a b : Gateway) → Safe a → Safe b → Safe (if c then a else b)
Safe-if true a b h k = h
Safe-if false a b h k = k

pub Good-if : (r : ℕ) (c : Bool) (a b : Gateway) → Good r a → Good r b → Good r (if c then a else b)
Good-if r true a b h k = h
Good-if r false a b h k = k

pub Safe-emit : (e : Effect) (g : Gateway) → Safe g → IsAllowed g e → Safe (emit e g)
Safe-emit e g s a = record {
  roster_live = s.roster_live;
  log_allowed = All-append (IsAllowed g) g.log (e ∷ []) s.log_allowed (a, tt);
  backend_live = s.backend_live;
  tasks_opened = s.tasks_opened;
}

pub IsAllowed-imp :
    (g g' : Gateway)
    → ((q : ℕ) → IsLive g q → IsLive g' q)
    → (e : Effect) → IsAllowed g e
    → IsAllowed g' e
IsAllowed-imp g g' f (sent r m) (inl h) = inl h
IsAllowed-imp g g' f (sent r m) (inr h) = inr (f r h)
IsAllowed-imp g g' f (ws_closed r code) h = tt
IsAllowed-imp g g' f (backend_opened r) h = tt
IsAllowed-imp g g' f (backend_destroyed r) h = tt
IsAllowed-imp g g' f (line r text) h = tt
IsAllowed-imp g g' f (rejected r) h = tt

-- A session may change in everything but that it has logged in, and get a backend if it has.
pub Safe-set_session :
    (r : ℕ) (s : Session) (g : Gateway)
    → Safe g
    → ((g.heap r).authenticated ≡ true → s.authenticated ≡ true)
    → (s.backend ≢ absent → (s.authenticated ≡ true) × (r < g.opened))
    → Safe (set_session r s g)
Safe-set_session r s g h a b =
    let g' = set_session r s g in
    let keep : (q : ℕ) → IsLive g q → IsLive g' q = λ q k. ground arith in
    record {
      roster_live =
          All-imp (λ (e : Text × ℕ). IsLive g e.1) (λ (e : Text × ℕ). IsLive g' e.1) g.roster
            (λ e. keep e.1) h.roster_live;
      log_allowed =
          All-imp (IsAllowed g) (IsAllowed g') g.log (IsAllowed-imp g g' keep) h.log_allowed;
      backend_live = λ q k. ground (arith, b, h.backend_live q);
      tasks_opened = h.tasks_opened;
    }

pub Good-emit : (r : ℕ) (e : Effect) (g : Gateway) → Good r g → IsAllowed g e → Good r (emit e g)
Good-emit r e g h a = record { safe = Safe-emit e g h.safe a; live = h.live }

-- A live session may change in everything but that it has logged in.
pub Good-set_session :
    (r : ℕ) (s : Session) (g : Gateway)
    → Good r g
    → s.authenticated ≡ true
    → Good r (set_session r s g)
Good-set_session r s g h a = record {
  safe = Safe-set_session r s g h.safe (λ _. a) (λ _. (a, h.live.1));
  live = ground arith;
}

pub Safe-error :
    (r : ℕ) (code text : Text) (conversation : Option Text) (g : Gateway)
    → Safe g
    → Safe (send_to r (error code text conversation) g)
unfolding send_to
Safe-error r code text conversation g h =
    Safe-if (g.heap r).ws_open _ _ (Safe-emit (sent r (error code text conversation)) g h (inl tt))
      h

pub IsLive-send_to :
    (q r : ℕ) (m : ServerMessage) (g : Gateway) → IsLive g q → IsLive (send_to r m g) q
unfolding send_to
IsLive-send_to q r m g h = ground arith

-- What is sent to a live session.
pub Safe-send_to :
    (q : ℕ) (m : ServerMessage) (g : Gateway) → Safe g → IsLive g q → Safe (send_to q m g)
unfolding send_to
Safe-send_to q m g h k = Safe-if (g.heap q).ws_open _ _ (Safe-emit (sent q m) g h (inr k)) h

pub Good-send_to :
    (r q : ℕ) (m : ServerMessage) (g : Gateway) → Good r g → IsLive g q → Good r (send_to q m g)
Good-send_to r q m g h k = record {
  safe = Safe-send_to q m g h.safe k;
  live = IsLive-send_to r q m g h.live;
}

pub Good-send : (r : ℕ) (m : ServerMessage) (g : Gateway) → Good r g → Good r (send_to r m g)
Good-send r m g h = Good-send_to r r m g h h.live

-- The database and the counter of fresh values do not matter.
pub Safe-set_db : (db : Db) (n : ℕ) (g : Gateway) → Safe g → Safe (record g { db = db; drawn = n })
Safe-set_db db n g s = record {
  roster_live = s.roster_live;
  log_allowed = s.log_allowed;
  backend_live = s.backend_live;
  tasks_opened = s.tasks_opened;
}

pub Good-set_db :
    (r : ℕ) (db : Db) (n : ℕ) (g : Gateway) → Good r g → Good r (record g { db = db; drawn = n })
Good-set_db r db n g h = record { safe = Safe-set_db db n g h.safe; live = h.live }

-- A test that decides between two states, each safe where it is taken.
pub Safe-branch :
    (c : Bool) (a b : Gateway)
    → (c ≡ true → Safe a)
    → (c ≡ false → Safe b)
    → Safe (if c then a else b)
Safe-branch true a b h k = h refl
Safe-branch false a b h k = k refl
