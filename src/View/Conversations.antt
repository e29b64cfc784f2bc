-- ===== src/View/Conversations.antt =====
-- frontend/components/ConversationHeader.tsx, MessageList.tsx, MessageBubble.tsx, MessageComposer.tsx
-- and ChatLayout.tsx.
use thread_link.Prelude.{
  Bool, true, false, not, ◌&&◌, ◌||◌, Option, none, some, List, [], ◌∷◌, ◌++◌, keep, if◌then◌else◌,
  length, Text, js, ◌==◌, decimal, trim, get,
}
use thread_link.Protocol.{Presence, away, ConversationKind, public, direct, group}
use thread_link.ChatState.{User, Message, ShownKind, chat_kind, Conversation, ChatState}
use thread_link.Transport.{is_some}
use thread_link.Provider.{App}
use thread_link.Provider.Actions.{send_text, opens_sidebar}
use thread_link.View.{app, submits, Shown, says, button, field, Locale, is_up, is_nil, flat_map}
use thread_link.View.Sidebar.{is_direct_kind, peer_in, presence_dot, sidebar}

abbrev ids_of : Option (List Text) → List Text
ids_of none = []
ids_of (some ids) = ids

abbrev is_own_id : Option Text → Text → Bool
is_own_id none id = false
is_own_id (some own) id = id == own

-- Of a group, the members who are online or oneself.
unfoldable pub online_members : ChatState → Conversation → List Text
online_members state c =
    keep (λ id. is_own_id state.user_id id || is_some (get id state.users)) (ids_of c.member_ids)

abbrev presence_word : Presence → Text
presence_word away = js "Away"
presence_word _ = js "Online"

abbrev direct_subtitle : Option User → Text
direct_subtitle none = js "This user is offline"
direct_subtitle (some peer) = presence_word peer.presence ++ js " · Direct message"

unfoldable pub subtitle : ChatState → ConversationKind → Conversation → Text
subtitle state direct c = direct_subtitle (peer_in state.users c.peer_id)
subtitle state group c =
    decimal (length (ids_of c.member_ids))
    ++ (js " members · " ++ (decimal (length (online_members state c)) ++ js " online"))
subtitle state public c = js "Visible to everyone online"

abbrev heading : ConversationKind → Text → Text
heading public title = js "Public Chat"
heading _ title = title

abbrev header_dot : ConversationKind → Option User → List Shown
header_dot direct peer = presence_dot peer
header_dot _ peer = []

unfoldable pub conversation_header : ChatState → Conversation → List Shown
conversation_header state c =
    button (js "Open sidebar") false (app (opens_sidebar true))
      ∷ header_dot c.kind (peer_in state.users c.peer_id)
    ++ says (heading c.kind c.title) ∷ says (subtitle state c.kind c) ∷ []

-- Whose message it is stands above the messages of others; `sender` may be missing.
abbrev sender_line : Option Text → List Shown
sender_line none = says [] ∷ []
sender_line (some name) = says name ∷ []

abbrev chat_bubble : Locale → Bool → Message → List Shown
chat_bubble locale show_privacy_icon m =
    (if m.is_own
      then []
      else sender_line m.sender ++ (if show_privacy_icon then says (js "Private") ∷ [] else []))
    ++ says m.content ∷ says (locale.message_time m.timestamp) ∷ []

abbrev bubble_of : ShownKind → Locale → Bool → Message → List Shown
bubble_of chat_kind locale icon m = chat_bubble locale icon m
bubble_of _ locale icon m = says m.content ∷ []

unfoldable pub message_bubble : Locale → Bool → Message → List Shown
message_bubble locale show_privacy_icon m = bubble_of m.kind locale show_privacy_icon m

abbrev quiet_title : ConversationKind → Text → Text
quiet_title direct title = js "Message " ++ title
quiet_title group title = js "Say hello to " ++ title
quiet_title public title = js "Public chat is quiet"

abbrev quiet_text : ConversationKind → Text
quiet_text direct = js "Send a direct message to start the conversation."
quiet_text group = js "Messages are only delivered to this group's members."
quiet_text public = js "Say hello to get things started."

unfoldable pub message_list : Locale → Conversation → Bool → List Shown
message_list locale c is_connected =
    if not is_connected
    then says (js "Disconnected")
      ∷ says (js "Reconnect from the sidebar to continue messaging.")
      ∷ []
    else if is_nil c.messages
    then says (quiet_title c.kind c.title) ∷ says (quiet_text c.kind) ∷ []
    else flat_map (message_bubble locale (is_direct_kind c.kind)) c.messages

-- `submit` of the composer: its text, and what `onSend` gets.
unfoldable pub compose : Bool → Text → Text × Option Text
compose disabled value =
    if is_nil (trim value) || disabled then (value, none) else ([], some (trim value))

abbrev send_option : Option Text → App → App
send_option none a = a
send_option (some content) a = send_text content a

-- A press of "Send" in the composer of the layout.
unfoldable pub send_from_composer : Text → App → Text × App
send_from_composer value a =
    let (value', content) = compose (not (is_up a.state.connection_status)) value in
    (value', send_option content a)

unfoldable pub message_composer : Bool → Text → Text → List Shown
message_composer disabled placeholder value =
    field placeholder value disabled
    ∷ button (js "Send message") (disabled || is_nil (trim value)) submits
    ∷ says (js "Enter to send · Shift+Enter for newline")
    ∷ []

abbrev composer_placeholder : ConversationKind → Text → Text
composer_placeholder public title = js "Message public chat…"
composer_placeholder _ title = js "Message " ++ (title ++ js "…")

unfoldable pub disconnected_banner : List Shown
disconnected_banner =
    says (js "You are disconnected. Messages cannot be sent until reconnected.") ∷ []

-- The layout but for the dialogs: the queries of the two sidebars, the text of the composer, the active
-- conversation.
unfoldable pub chat_layout : Locale → Text → Text → Text → ChatState → Conversation → List Shown
chat_layout locale query mobile_query value state active =
    let is_connected = is_up state.connection_status in
    sidebar locale false query state
    ++ ((if state.sidebar_open
          then button (js "Close sidebar overlay") false (app (opens_sidebar false))
            ∷ sidebar locale true mobile_query state
          else [])
        ++ (conversation_header state active
            ++ ((if not is_connected && state.has_connected_once then disconnected_banner else [])
                ++ (message_list locale active is_connected
                    ++ message_composer (not is_connected)
                        (composer_placeholder active.kind active.title) value))))
