-- ===== src/ServerProtocol/Shapes.antt =====
-- The types that frontend/types/protocol.ts gives to what the gateway sends, as the values of those
-- types among JSON values: `none` is a value that is not of the type.
use thread_link.Prelude.{Option, none, some, List, [], ◌∷◌, if◌then◌else◌, Text, js, ◌==◌}
use thread_link.Protocol.{
  Presence, online, away, offline, UserSummary, ConversationKind, public, direct, group,
  ConversationSummary, MessageKind, chat, system, MessageSummary, Ready, ServerMessage, ready,
  logged_out, user_update, user_offline, conversation_created, message, error,
}
use thread_link.ClientProtocol.Values.{Json, Items, null, str, arr, nil, cons, field_of}

infixl 5 ◌>>=◌
abbrev pub ◌>>=◌ {ℓ κ} : {A : Type ℓ} {B : Type κ} → Option A → (A → Option B) → Option B
none >>= f = none
some a >>= f = f a

-- `string`
unfoldable pub text_field : Option Json → Option Text
text_field (some (str s)) = some s
text_field _ = none

-- `string | null`
unfoldable pub nullable_field : Option Json → Option (Option Text)
nullable_field (some (str s)) = some (some s)
nullable_field (some null) = some none
nullable_field _ = none

-- `conversationId?: string`
unfoldable pub optional_field : Option Json → Option (Option Text)
optional_field none = some none
optional_field (some (str s)) = some (some s)
optional_field _ = none

unfoldable pub all_of {ℓ} : {A : Type ℓ} → (Json → Option A) → Items → Option (List A)
all_of f nil = some []
all_of f (cons j more) = do let rest = all_of f more; x ← f j; xs ← rest; some (x ∷ xs)

unfoldable pub list_field {ℓ} : {A : Type ℓ} → (Json → Option A) → Option Json → Option (List A)
unfolding all_of
list_field f (some (arr values)) = all_of f values
list_field f _ = none

unfoldable pub text_value : Json → Option Text
text_value (str s) = some s
text_value _ = none

unfoldable pub presence_value : Text → Option Presence
presence_value s =
    if s == js "online"
    then some online
    else if s == js "away"
    then some away
    else if s == js "offline"
    then some offline
    else none

unfoldable pub user_summary : Json → Option UserSummary
unfolding text_field presence_value
user_summary j = do
  id ← text_field (field_of j (js "id"))
  username ← text_field (field_of j (js "username"))
  name ← text_field (field_of j (js "presence"))
  presence ← presence_value name
  some (record { id = id; username = username; presence = presence })

unfoldable pub kind_value : Text → Option ConversationKind
kind_value s =
    if s == js "public"
    then some public
    else if s == js "direct"
    then some direct
    else if s == js "group"
    then some group
    else none

unfoldable pub conversation_summary : Json → Option ConversationSummary
unfolding text_field kind_value list_field text_value
conversation_summary j = do
  id ← text_field (field_of j (js "id"))
  name ← text_field (field_of j (js "kind"))
  kind ← kind_value name
  title ← text_field (field_of j (js "title"))
  member_ids ← list_field text_value (field_of j (js "memberIds"))
  some (record { id = id; kind = kind; title = title; member_ids = member_ids })

unfoldable pub message_kind_value : Text → Option MessageKind
message_kind_value s =
    if s == js "chat" then some chat else if s == js "system" then some system else none

unfoldable pub message_summary : Json → Option MessageSummary
unfolding text_field message_kind_value nullable_field
message_summary j = do
  id ← text_field (field_of j (js "id"))
  conversation_id ← text_field (field_of j (js "conversationId"))
  name ← text_field (field_of j (js "kind"))
  kind ← message_kind_value name
  sender_id ← nullable_field (field_of j (js "senderId"))
  sender_username ← nullable_field (field_of j (js "senderUsername"))
  text ← text_field (field_of j (js "text"))
  timestamp ← text_field (field_of j (js "timestamp"))
  some (record {
    id = id;
    conversation_id = conversation_id;
    kind = kind;
    sender_id = sender_id;
    sender_username = sender_username;
    text = text;
    timestamp = timestamp;
  })

unfoldable pub ready_value : Json → Option Ready
unfolding text_field list_field user_summary conversation_summary message_summary
ready_value j = do
  user_id ← text_field (field_of j (js "userId"))
  username ← text_field (field_of j (js "username"))
  users ← list_field user_summary (field_of j (js "users"))
  conversations ← list_field conversation_summary (field_of j (js "conversations"))
  messages ← list_field message_summary (field_of j (js "messages"))
  some (record {
    user_id = user_id;
    username = username;
    users = users;
    conversations = conversations;
    messages = messages;
  })

abbrev of_property {ℓ} : {A : Type ℓ} → (Json → Option A) → Option Json → Option A
of_property f none = none
of_property f (some j) = f j

-- The union, told apart by `type`.
unfoldable pub server_message_as : Text → Json → Option ServerMessage
unfolding ready_value user_summary conversation_summary message_summary text_field optional_field
server_message_as type j =
    if type == js "ready"
    then (do r ← ready_value j; some (ready r))
    else if type == js "loggedOut"
    then some logged_out
    else if type == js "userUpdate"
    then (do u ← of_property user_summary (field_of j (js "user")); some (user_update u))
    else if type == js "userOffline"
    then (do id ← text_field (field_of j (js "userId")); some (user_offline id))
    else if type == js "conversationCreated"
    then (do
      c ← of_property conversation_summary (field_of j (js "conversation"))
      some (conversation_created c))
    else if type == js "message"
    then (do m ← of_property message_summary (field_of j (js "message")); some (message m))
    else if type == js "error"
    then (do
      code ← text_field (field_of j (js "code"))
      text ← text_field (field_of j (js "message"))
      conversation_id ← optional_field (field_of j (js "conversationId"))
      some (error code text conversation_id))
    else none

unfoldable pub server_message : Json → Option ServerMessage
unfolding server_message_as text_field
server_message j = do type ← text_field (field_of j (js "type")); server_message_as type j
