-- ===== src/Gateway/Actions.antt =====
-- The helpers of gatewayServer.ts that reach other sessions: `broadcastToAll`, `sendReady`.
use thread_link.Prelude.{
  ℕ, Bool, false, ◌||◌, not, Option, none, some, List, [], ◌∷◌, map, if◌then◌else◌, Text, ◌==◌,
}
use thread_link.Protocol.{UserSummary, ServerMessage, ready}
use thread_link.Conversations.{public_conversation, conversations_for}
use thread_link.Messages.{history_for_user}
use thread_link.Sessions.{summary_of, all_sessions, welcomed_users}
use thread_link.Environment.{Environment}
use thread_link.Gateway.{Gateway, send_to}

-- `session.id === excludeSessionId`, where undefined excludes nobody.
abbrev pub is_excluded : Option Text → Text → Bool
is_excluded none id = false
is_excluded (some excluded) id = id == excluded

abbrev pub broadcast_one : ServerMessage → Option Text → ℕ → Gateway → Gateway
broadcast_one m excluded r g =
    if is_excluded excluded (g.heap r).id || not (g.heap r).welcomed then g else send_to r m g

-- The loop of `broadcastToAll`.
unfoldable pub broadcast_from : List ℕ → ServerMessage → Option Text → Gateway → Gateway
broadcast_from [] m excluded g = g
broadcast_from (r ∷ rs) m excluded g = broadcast_from rs m excluded (broadcast_one m excluded r g)

unfoldable pub broadcast_to_all : ServerMessage → Option Text → Gateway → Gateway
broadcast_to_all m excluded g = broadcast_from (all_sessions g.roster) m excluded g

-- `summarize`
abbrev pub summarize : ℕ → Gateway → UserSummary
summarize r g = summary_of (g.heap r)

-- The message of `sendReady`.
unfoldable pub ready_message : Environment → ℕ → Gateway → ServerMessage
ready_message env r g =
    let users = welcomed_users g.heap g.roster in
    let session = g.heap r in
    ready (record {
      user_id = session.id;
      username = session.nickname;
      users = users;
      conversations =
          public_conversation (map (λ u. u.id) users) ∷ conversations_for session.id g.db;
      messages = history_for_user env.by_created_at session.id g.db;
    })

unfoldable pub send_ready : Environment → ℕ → Gateway → Gateway
send_ready env r g = send_to r (ready_message env r g) g
