-- ===== src/ChatServer/Tests.antt =====
-- Concrete servers: one with three clients, and a run of the accept loop beside a client's thread.
use thread_link.Prelude.{
  ℕ, ◌≡◌, ◌≢◌, refl, true, false, none, inl, inr, ◌⊎◌, ◌↔◌, List, [], ◌∷◌, arith, ◌≤◌, ◌<◌, length,
  decimal, Text, js, ◌==◌, pos, find, keep,
}
use mathlib.Core.List.{Perm}
use thread_link.BackendMessages.{parse_backend_line, list}
use thread_link.Users.{validate_username}
use thread_link.ChatServer.{
  ServerConfig, ClientRecord, Server, sending, Input, connection, closed_by_peer, frame, nicknames,
  default_nickname, assign_default_nickname, is_taken, find_client,
}
use thread_link.ChatServer.Commands.{handle_list, is_valid_nickname}
use thread_link.ChatServer.Threads.{interleave, at_start}
use thread_link.ChatServer.Names.{assign_default_nickname_lem}
use thread_link.ChatServer.Sorting.{IsAscending}
use thread_link.ChatServer.Listing.{handle_list_lem}
use thread_link.ChatServer.Nicknames.{is_valid_nickname_iff, IsRenamed, IsRefused, handle_nick_lem}
use thread_link.BackendConnection.{Utf8}
use mathlib.Core.List.{flatten}
use thread_link.Wire.{receive, new_decoder}
use thread_link.ChatServer.Frames.{read_frames, no_fuel}
use thread_link.ChatServer.Framing.{verdict, read_frames-receive}
use thread_link.ChatServer.Unique.{AreApart, interleave-AreApart}
use thread_link.ChatServer.Greeting.{frames_to, StartsWell}
use thread_link.ChatServer.Greeting.Runs.{IsAcceptedOnce, interleave-StartsWell}

abbrev small : ServerConfig
small = record { max_clients = 2; max_message_size = 200 }

abbrev amy : ClientRecord
amy = record { fd = 4; nickname = js "amy"; welcomed = true }

abbrev bo : ClientRecord
bo = record { fd = 5; nickname = js "bo"; welcomed = true }

abbrev lobby : Server
lobby = record {
  clients = amy ∷ bo ∷ record { fd = 6; nickname = js "User1"; welcomed = false } ∷ [];
  wire = [];
}

-- 7 is accepted and told its nickname, and takes a new one; 8 is accepted; 7 speaks before 8 is told.
abbrev meeting : List (ℕ × Input)
meeting =
    (0, connection 7)
    ∷ (0, closed_by_peer)
    ∷ (0, closed_by_peer)
    ∷ (0, closed_by_peer)
    ∷ (0, closed_by_peer)
    ∷ (1, frame (js "/nick amy"))
    ∷ (0, closed_by_peer)
    ∷ (0, connection 8)
    ∷ (1, closed_by_peer)
    ∷ (1, closed_by_peer)
    ∷ (1, frame (js "hello"))
    ∷ (0, closed_by_peer)
    ∷ (1, closed_by_peer)
    ∷ (0, closed_by_peer)
    ∷ []

sent_in_meeting :
    (interleave small meeting at_start).0.wire
    ≡ (7, js "WELCOME User1") ∷ (7, js "NICK User1 amy") ∷ (8, js "WELCOME User1") ∷ []
unfolding interleave ◌==◌ decimal
sent_in_meeting = refl

eighth : IsAcceptedOnce 8 meeting
eighth = inl (
  omega arith,
  inl (
    tt,
    inl (
      tt,
      inl (tt, inl (tt, inl (tt, inl (tt, inr (refl, (tt, (tt, (tt, (tt, (tt, (tt, tt))))))))))),
    ),
  ),
)

interleave-StartsWell_example : StartsWell (frames_to 8 (interleave small meeting at_start).0.wire)
interleave-StartsWell_example =
    interleave-StartsWell small 8 (omega arith, omega arith) meeting eighth

interleave-AreApart_example : AreApart (interleave small meeting at_start).0.clients
interleave-AreApart_example = interleave-AreApart small meeting

handle_nick_lem_example : IsRenamed 4 (js "eve") amy lobby ⊎ IsRefused 4 (js "eve") lobby
unfolding find_client find
handle_nick_lem_example = handle_nick_lem 4 (js "eve") amy lobby refl

-- A UTF-8 for ASCII texts.
abbrev ascii : Utf8
ascii = record { to_text = λ bytes. bytes; to_bytes = λ text. text }

assign_default_nickname_lem_example :
    (n : ℕ) × (1 ≤ n)
    × (n ≤ 4)
    × (assign_default_nickname lobby.clients ≡ default_nickname n)
    × (is_taken (default_nickname n) (nicknames lobby.clients) ≡ false)
    × ((m : ℕ) → 1 ≤ m → m < n → is_taken (default_nickname m) (nicknames lobby.clients) ≡ true)
assign_default_nickname_lem_example = assign_default_nickname_lem lobby.clients

handle_list_lem_example :
    let server = (interleave small meeting at_start).0 in
    (payload : Text) × (names : List Text) × (handle_list 7 server ≡ sending 7 payload ∷ [])
    × (parse_backend_line payload ≡ list (pos (length names)) names)
    × Perm names (nicknames (keep (λ c. c.welcomed) server.clients))
    × IsAscending names
handle_list_lem_example = handle_list_lem small meeting 7

is_valid_nickname_iff_example :
    (is_valid_nickname (js "amy_1") ≡ true) ↔ (validate_username (js "amy_1") ≡ none)
is_valid_nickname_iff_example = is_valid_nickname_iff (js "amy_1")

-- Two payloads, cut in one way towards the server and in another towards the gateway.
abbrev cut_here : List (List ℕ)
cut_here = (0 ∷ 0 ∷ []) ∷ (0 ∷ 2 ∷ 104 ∷ []) ∷ (105 ∷ 0 ∷ 0 ∷ 0 ∷ 1 ∷ []) ∷ (7 ∷ []) ∷ []

abbrev cut_there : List (List ℕ)
cut_there = (0 ∷ 0 ∷ 0 ∷ 2 ∷ 104 ∷ 105 ∷ 0 ∷ []) ∷ [] ∷ (0 ∷ 0 ∷ 1 ∷ 7 ∷ []) ∷ []

read_cut : (read_frames 8 cut_here).payloads ≡ (104 ∷ 105 ∷ []) ∷ (7 ∷ []) ∷ []
unfolding read_frames flatten
read_cut = refl

read_frames-receive_example :
    let r = read_frames 8 cut_here in
    let d = receive 8 new_decoder cut_there in
    (r.payloads ≡ d.frames) × (verdict r.ended ≡ d.too_large) × (r.ended ≢ no_fuel)
unfolding flatten
read_frames-receive_example = read_frames-receive 8 cut_here cut_there refl
