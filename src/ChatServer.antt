-- ===== src/ChatServer.antt =====
-- src/Server.cpp: the TCP server. Every lock of clients_mtx_ and every send of a frame is one step of
-- a thread; what a thread has still to do is a list of jobs. `wire` holds the frames that were sent,
-- each with the descriptor it was sent to, in their order.
pub mod Commands
pub mod Threads
pub mod Names
pub mod Interleaved
pub mod Unique
pub mod Named
pub mod Sorting
pub mod Listing
pub mod Greeting
pub mod Nicknames
pub mod Delivery
pub mod Bytes
pub mod Spoken
pub mod Frames
pub mod Pieces
pub mod Framing
mod Tests
use thread_link.Prelude.{
  ℕ, zero, suc, Bool, true, false, not, ◌&&◌, ◌||◌, Option, none, some, List, [], ◌∷◌, ◌++◌, map,
  ltb, leb, nat_beq, if◌then◌else◌, length, keep, find, all, any, Text, js, ◌==◌, lt_text, decimal,
}
use thread_link.BackendMessages.{space}
use thread_link.BackendMessages.Server.{Action, read_line}

-- The fields of Config that the server reads.
pub record ServerConfig : Type 0 where
  pub max_clients : ℕ
  pub max_message_size : ℕ

-- An entry of `clients_`: its descriptor, and the record without its write mutex.
pub record ClientRecord : Type 0 where
  pub fd : ℕ
  pub nickname : Text
  pub welcomed : Bool

pub record Server : Type 0 where
  pub clients : List ClientRecord
  pub wire : List (ℕ × Text)

-- What a thread has to do: the accept loop, the loop of a client's thread, `send_to_fd`,
-- `send_frame`, the mark behind WELCOME, the start of a client's thread and its end, and `broadcast`
-- with the descriptor that it leaves out.
pub data Job : Type 0 where
  accepting : Job
  serving : ℕ → Job
  sending framing : ℕ → Text → Job
  welcoming spawning leaving : ℕ → Job
  broadcasting : Text → Option ℕ → Job

-- What a thread that waits is told: the accept loop of a connection or of the shutdown, a client's
-- thread of what `recv_frame` brings.
pub data Input : Type 0 where
  connection : ℕ → Input
  shutdown : Input
  frame : Text → Input
  closed_by_peer receive_error frame_too_large : Input

abbrev pub nicknames : List ClientRecord → List Text
nicknames = map (λ c. c.nickname)

unfoldable pub find_client : ℕ → List ClientRecord → Option ClientRecord
unfolding find
find_client fd = find (λ c. nat_beq c.fd fd)

abbrev pub is_present : Option ClientRecord → Bool
is_present none = false
is_present (some c) = true

-- "User" and the number.
abbrev pub default_nickname : ℕ → Text
default_nickname n = js "User" ++ decimal n

unfoldable pub is_taken : Text → List Text → Bool
unfolding any
is_taken name = any (λ n. n == name)

-- The do-while loop of `assign_default_nickname_locked`. Each round that goes on has found another
-- client, so that as many rounds as there are clients are enough.
unfoldable pub first_free : ℕ → ℕ → List Text → Text
unfolding is_taken
first_free zero n names = default_nickname n
first_free (suc fuel) n names =
    let later = first_free fuel (suc n) names in
    if is_taken (default_nickname n) names then later else default_nickname n

unfoldable pub assign_default_nickname : List ClientRecord → Text
unfolding first_free
assign_default_nickname clients = first_free (length clients) 1 (nicknames clients)

-- `emplace`: a descriptor that has an entry keeps it.
unfoldable pub emplace : ℕ → Text → List ClientRecord → List ClientRecord
unfolding find_client
emplace fd nickname clients =
    if is_present (find_client fd clients)
    then clients
    else record { fd = fd; nickname = nickname; welcomed = false } ∷ clients

-- A change of the record of a descriptor.
unfoldable pub modify : (ClientRecord → ClientRecord) → ℕ → List ClientRecord → List ClientRecord
modify f fd [] = []
modify f fd (c ∷ cs) = if nat_beq c.fd fd then f c ∷ cs else c ∷ modify f fd cs

abbrev pub rename_to : Text → ClientRecord → ClientRecord
rename_to nickname c = record c { nickname = nickname }

abbrev pub mark_welcomed : ClientRecord → ClientRecord
mark_welcomed c = record c { welcomed = true }

unfoldable pub erase : ℕ → List ClientRecord → List ClientRecord
erase fd [] = []
erase fd (c ∷ cs) = if nat_beq c.fd fd then cs else c ∷ erase fd cs

unfoldable pub send_error : ℕ → Text → Text → Job
send_error fd code text = sending fd (js "ERR " ++ (code ++ space ∷ text))

abbrev pub is_empty : Text → Bool
is_empty [] = true
is_empty (c ∷ s) = false
