-- ===== src/System/Stream.antt =====
-- What the server sends to a connection, and what the gateway makes of it.
use thread_link.Prelude.{ℕ, ◌≤◌, List, All, Text, length}
use thread_link.ChatServer.{ServerConfig}

-- The frames that were sent are within the limit of the server.
abbrev AreFitting : ServerConfig → List (ℕ × Text) → Type 0
AreFitting config = All (λ e. length e.1 ≤ config.max_message_size)
