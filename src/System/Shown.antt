-- ===== src/System/Shown.antt =====
-- What the gateway sends to a browser, up to the state that its components show.
use thread_link.Prelude.{
  ℕ, suc, ◌≡◌, refl, ap, ◌∙◌, some, [], ◌∷◌, ◌++◌, if◌then◌else◌, nat_beq_iff, Text, ◌==◌, get,
}
use thread_link.Protocol.{MessageSummary, message}
use thread_link.ChatState.{message_received}
use thread_link.ChatState.Summaries.{message_from_summary}
use thread_link.ChatState.Reducer.{chat_reducer}
use thread_link.ChatState.Reducer.Keyed.{IsKeyed}
use thread_link.ChatState.Reducer.Selected.{home, get-on_message_received}
use thread_link.Messages.{or_else}
use thread_link.Transport.{Client, Socket, parse_inbound, on_message}
use thread_link.Transport.Machine
use thread_link.Transport.Machine.{received}
use thread_link.Provider.{App, World, run_client, notify_all, handle_server_event}
use thread_link.Provider.Actions.{happens, app_step}
use thread_link.ServerProtocol.{server_to_json}
use thread_link.ServerProtocol.Conforms.{CastsWell, parse_inbound-server_to_json}

-- Data on the client's WebSocket is handled as the message that it is.
state-received :
    (world : World) (app : App) (c : Client) (s : Socket) (u : ℕ) (text : Text) (m : MessageSummary)
    → app.client ≡ some c
    → c.socket ≡ some s
    → parse_inbound world.browser (u ∷ text) ≡ some (message m)
    → (app_step world app (happens (received s.number (some (u ∷ text))))).state
      ≡ chat_reducer app.state (message_received m)
unfolding app_step run_client Machine.step on_message notify_all handle_server_event
state-received world app c s u text m client socket parsed =
    rw (client, socket, (nat_beq_iff s.number s.number).1 refl, parsed) refl

-- When data comes on the client's WebSocket that JSON.parse reads as a message that the gateway has
-- written, the message is shown: it goes to the end of its conversation, which comes to exist if it
-- does not, and counts as unread if that is not the one on the screen; every other conversation stays
-- as it is. The cast of the browser takes a value of the type for what it is, and the conversations are
-- kept under their ids.
pub app_step-received :
    (world : World) (app : App) (c : Client) (s : Socket) (u : ℕ) (text : Text) (m : MessageSummary)
    (k : Text)
    → app.client ≡ some c
    → c.socket ≡ some s
    → CastsWell world.browser
    → world.browser.parse_json (u ∷ text) ≡ some (server_to_json (message m))
    → IsKeyed app.state.conversations
    → let app' = app_step world app (happens (received s.number (some (u ∷ text)))) in
      let before = home m app.state in
      let shown = message_from_summary m (or_else app.state.user_id []) in
      get k app'.state.conversations ≡ (
        if m.conversation_id == k
        then some (record before {
          messages = before.messages ++ shown ∷ [];
          unread_count =
              if app.state.active_conversation_id == m.conversation_id
              then 0
              else suc before.unread_count;
        })
        else get k app.state.conversations)
app_step-received world app c s u text m k client socket casts parses keyed =
    let parsed =
      parse_inbound-server_to_json world.browser (λ j. u ∷ text) (message m) casts parses in
    ap (λ state. get k state.conversations)
      (state-received world app c s u text m client socket parsed)
    ∙ get-on_message_received m app.state k keyed
