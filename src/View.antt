-- ===== src/View.antt =====
-- frontend/components: what the components show of the state, and what a click does. Of the markup,
-- texts, buttons, fields and presence dots are kept, in the order of the document; styles are not.
pub mod Sidebar
pub mod Conversations
pub mod Forms
pub mod Titles
pub mod Offline
pub mod Composing
pub mod Groups
mod Tests
use thread_link.Prelude.{
  ℕ, Bool, true, false, Option, none, some, List, [], ◌∷◌, ◌++◌, take, if◌then◌else◌, Text, js,
}
use thread_link.Protocol.{Presence, online, away, offline}
use thread_link.ChatState.{
  ConnectionStatus, idle, connecting, connected, disconnected, reconnecting, failed,
}
use thread_link.Provider.Actions.{AppEvent}

-- `Mode` of LoginScreen.tsx.
pub data Mode : Type 0 where
  login_mode register_mode : Mode

-- What a click does: an event of the application, or a change in the component itself.
pub data Click : Type 0 where
  app : AppEvent → Click
  chooses_mode : Mode → Click
  submits : Click
  toggles : Text → Click

pub data Shown : Type 0 where
  says : Text → Shown
  dot : Presence → Shown
  -- its label or its title, whether it is disabled, what it does
  button : Text → Bool → Click → Shown
  -- its placeholder or its label, its value, whether it is disabled
  field : Text → Text → Bool → Shown
  -- its label, whether it is checked, what it does
  checkbox : Text → Bool → Click → Shown

-- What comes from the browser: `toUpperCase`, `toLowerCase`, `includes` of strings, and
-- Intl.DateTimeFormat.
pub record Locale : Type 0 where
  pub to_upper_case : Text → Text
  pub to_lower_case : Text → Text
  pub contains : Text → Text → Bool
  pub message_time : Text → Text

-- STATUS_LABELS of ConnectionStatusBadge.tsx.
unfoldable pub status_label : ConnectionStatus → Text
status_label idle = js "Not connected"
status_label connecting = js "Connecting…"
status_label connected = js "Connected"
status_label disconnected = js "Disconnected"
status_label reconnecting = js "Reconnecting…"
status_label failed = js "Connection failed"

abbrev pub is_up : ConnectionStatus → Bool
is_up connected = true
is_up _ = false

abbrev pub is_nil {ℓ} : {A : Type ℓ} → List A → Bool
is_nil [] = true
is_nil (x ∷ xs) = false

-- `a || b` of strings.
abbrev pub or_text : Text → Text → Text
or_text [] b = b
or_text (c ∷ s) b = c ∷ s

-- `nickname.slice(0, 1).toUpperCase()`
abbrev pub initial : Locale → Text → Text
initial locale nickname = locale.to_upper_case (take 1 nickname)

-- A Presence as a string.
unfoldable pub presence_name : Presence → Text
presence_name online = js "online"
presence_name away = js "away"
presence_name offline = js "offline"

abbrev pub flat_map {ℓ} : {A : Type ℓ} → (A → List Shown) → List A → List Shown
flat_map f [] = []
flat_map f (x ∷ xs) = f x ++ flat_map f xs
