-- ===== src/ChatServer/Greeting.antt =====
-- The first frame that a client gets: src/Server.cpp sends WELCOME before it marks the client, and
-- broadcasts only to clients that are marked.
pub mod Hidden
pub mod Answers
pub mod Quiet
pub mod Others
pub mod Wire
pub mod First
pub mod Runs
use thread_link.Prelude.{
  ℕ, ◌≤◌, ◌≡◌, refl, ◌≢◌, Bool, false, List, [], ◌∷◌, ◌++◌, All, nat_beq, if◌then◌else◌, Text, js,
  Option, none, some, ◌⊎◌,
}
use thread_link.ChatServer.{
  ServerConfig, ClientRecord, Server, Job, accepting, serving, sending, framing, welcoming,
  spawning, leaving, broadcasting, default_nickname, Input, connection,
}

-- What was sent to a descriptor, in its order.
unfoldable pub frames_to : ℕ → List (ℕ × Text) → List Text
frames_to fd [] = []
frames_to fd ((d, payload) ∷ wire) =
    let rest = frames_to fd wire in if nat_beq d fd then payload ∷ rest else rest

abbrev pub full_message : Text
full_message = js "ERR SERVER_FULL Server is full, try again later"

-- WELCOME with a nickname of the server's, or the answer of a server that is full.
abbrev pub IsGreeting : Text → Type 0
IsGreeting payload =
    ((n : ℕ) × (payload ≡ js "WELCOME " ++ default_nickname n)) ⊎ (payload ≡ full_message)

-- Nothing was sent, or a greeting came first.
abbrev pub StartsWell : List Text → Type 0
StartsWell [] = Unit
StartsWell (payload ∷ more) = IsGreeting payload

-- A greeting came first.
abbrev pub IsGreeted : List Text → Type 0
IsGreeted [] = ⊥
IsGreeted (payload ∷ more) = IsGreeting payload

-- The job sends nothing to the descriptor, and belongs to another one.
abbrev pub IsQuiet : ℕ → Job → Type 0
IsQuiet fd accepting = Unit
IsQuiet fd (broadcasting payload exclude_fd) = Unit
IsQuiet fd (serving d) = d ≢ fd
IsQuiet fd (sending d payload) = d ≢ fd
IsQuiet fd (framing d payload) = d ≢ fd
IsQuiet fd (welcoming d) = d ≢ fd
IsQuiet fd (spawning d) = d ≢ fd
IsQuiet fd (leaving d) = d ≢ fd

-- A client of the descriptor is not marked.
abbrev pub IsHidden : ℕ → ClientRecord → Type 0
IsHidden fd c = c.fd ≡ fd → c.welcomed ≡ false

-- The input is not a connection of that descriptor.
abbrev pub IsOther : ℕ → Input → Type 0
IsOther fd (connection d) = d ≢ fd
IsOther fd _ = Unit

-- Nothing was sent to the descriptor, and no broadcast sees it.
pub record Unseen (fd : ℕ) (server : Server) : Type 0 where
  pub hidden : All (IsHidden fd) server.clients
  pub silent : frames_to fd server.wire ≡ []

-- The ranges that `load_config` of src/Config.cpp leaves: messages of 64 bytes at least, and at most
-- 10000 clients.
abbrev pub IsConfigured : ServerConfig → Type 0
IsConfigured config = (64 ≤ config.max_message_size) × (config.max_clients ≤ 10000)
