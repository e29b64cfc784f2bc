-- ===== src/View/Sidebar.antt =====
-- frontend/components/Sidebar.tsx
use thread_link.Prelude.{
  ℕ, Bool, true, false, not, ◌||◌, Option, none, some, List, [], ◌∷◌, ◌++◌, keep, ltb,
  if◌then◌else◌, length, Text, js, decimal, trim, get, Dict,
}
use thread_link.Protocol.{Presence, online, away, ConversationKind, direct, group}
use thread_link.ChatState.{User, Conversation, ChatState}
use thread_link.Provider.Actions.{
  opens_sidebar, opens_public, opens_new_group, opens_nickname, selects, starts_direct,
  sets_presence, logs_out,
}
use thread_link.Provider.Reads.{values, online_users, shown_title}
use thread_link.View.{
  app, Shown, says, dot, button, field, Locale, status_label, is_up, is_nil, or_text, initial,
  presence_name, flat_map,
}

abbrev pub is_direct_kind : ConversationKind → Bool
is_direct_kind direct = true
is_direct_kind _ = false

abbrev pub is_group_kind : ConversationKind → Bool
is_group_kind group = true
is_group_kind _ = false

unfoldable pub direct_conversations : ChatState → List Conversation
direct_conversations state = keep (λ c. is_direct_kind c.kind) (values state.conversations)

unfoldable pub group_conversations : ChatState → List Conversation
group_conversations state = keep (λ c. is_group_kind c.kind) (values state.conversations)

abbrev matches : Locale → Text → User → Bool
matches locale [] u = true
matches locale (c ∷ s) u = locale.contains (locale.to_lower_case u.nickname) (c ∷ s)

unfoldable pub filtered_users : Locale → Text → ChatState → List User
filtered_users locale query state =
    keep (matches locale (locale.to_lower_case (trim query))) (online_users state)

abbrev pub peer_in : Dict User → Option Text → Option User
peer_in users none = none
peer_in users (some []) = none
peer_in users (some (c ∷ id)) = get (c ∷ id) users

abbrev pub presence_dot : Option User → List Shown
presence_dot none = []
presence_dot (some u) = dot u.presence ∷ []

-- The label of the row of a direct conversation.
unfoldable pub direct_label : Dict User → Conversation → Text
direct_label users c = shown_title (peer_in users c.peer_id) c.title

-- The number of unread messages of SidebarRow.
unfoldable pub unread_badge : ℕ → Option Text
unread_badge n = if ltb 0 n then some (if ltb 99 n then js "99+" else decimal n) else none

abbrev pub badge_of : Option Text → List Shown
badge_of none = []
badge_of (some text) = says text ∷ []

abbrev pub sidebar_row : Text → List Shown → Conversation → List Shown
sidebar_row label badge c =
    button label false (app (selects c.id)) ∷ badge ++ badge_of (unread_badge c.unread_count)

-- A section whose list is not shown when it is empty.
abbrev pub section : Text → List Shown → List Shown
section title [] = []
section title (row ∷ rows) = says title ∷ row ∷ rows

abbrev pub direct_entry : Dict User → Conversation → List Shown
direct_entry users c = sidebar_row (direct_label users c) (presence_dot (peer_in users c.peer_id)) c

unfoldable pub direct_rows : ChatState → List Shown
direct_rows state =
    section (js "Direct Messages")
      (flat_map (direct_entry state.users) (direct_conversations state))

abbrev pub group_entry : Conversation → List Shown
group_entry c = sidebar_row c.title [] c

unfoldable pub group_rows : ChatState → List Shown
group_rows state = section (js "Groups") (flat_map group_entry (group_conversations state))

abbrev pub user_row : Locale → User → List Shown
user_row locale u =
    button u.nickname false (app (starts_direct u.id))
    ∷ says (initial locale u.nickname)
    ∷ dot u.presence
    ∷ says (presence_name u.presence)
    ∷ []

abbrev pub no_users : Bool → List User → List Shown
no_users is_connected [] =
    says (if is_connected then js "No other users online" else js "Connect to see users") ∷ []
no_users is_connected (u ∷ us) = []

unfoldable pub online_section : Locale → Text → ChatState → List Shown
online_section locale query state =
    let is_connected = is_up state.connection_status in
    let users = filtered_users locale query state in
    says (js "Online · " ++ decimal (length users))
      ∷ button (js "New group") (not is_connected || is_nil (online_users state))
          (app (opens_new_group true))
      ∷ field (js "Search users") query false
      ∷ no_users is_connected users
    ++ flat_map (user_row locale) users

abbrev own_initial : Locale → Text → Text
own_initial locale [] = js "?"
own_initial locale (c ∷ s) = initial locale (c ∷ s)

abbrev pub own_dot : Option Text → Presence → List Shown
own_dot none presence = []
own_dot (some []) presence = []
own_dot (some (c ∷ s)) presence = dot presence ∷ []

abbrev is_away : Presence → Bool
is_away away = true
is_away _ = false

unfoldable pub footer : Locale → ChatState → List Shown
footer locale state =
    let is_connected = is_up state.connection_status in
    let is_off = is_away state.presence in
    says (own_initial locale state.nickname) ∷ own_dot state.user_id state.presence
    ++ says (or_text state.nickname (js "Guest"))
      ∷ says (status_label state.connection_status)
      ∷ button (if is_off then js "Away" else js "Set away") (not is_connected)
          (app (sets_presence (if is_off then online else away)))
      ∷ button (js "Nickname") (not is_connected) (app (opens_nickname true))
      ∷ button (js "New group") (not is_connected) (app (opens_new_group true))
      ∷ button (js "Sign out") false (app logs_out)
      ∷ []

abbrev pub closer : Bool → List Shown
closer true = button (js "Close sidebar") false (app (opens_sidebar false)) ∷ []
closer false = []

unfoldable pub sidebar : Locale → Bool → Text → ChatState → List Shown
sidebar locale mobile query state =
    says (js "ThreadLink") ∷ says (status_label state.connection_status) ∷ closer mobile
    ++ (button (js "Public Chat") false (app opens_public)
        ∷ (direct_rows state
            ++ (group_rows state ++ (online_section locale query state ++ footer locale state))))
