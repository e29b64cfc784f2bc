-- ===== src/ServerProtocol.antt =====
-- What the gateway writes to a browser: `encodeServerMessage` of gateway/src/clientProtocol.ts up to the
-- JSON text.
pub mod Shapes
pub mod Conforms
mod Tests
use thread_link.Prelude.{Option, none, some, List, [], ◌∷◌, Text, js}
use thread_link.Protocol.{
  Presence, online, away, offline, UserSummary, ConversationKind, public, direct, group,
  ConversationSummary, MessageKind, chat, system, MessageSummary, Ready, ServerMessage, ready,
  logged_out, user_update, user_offline, conversation_created, message, error,
}
use thread_link.ClientProtocol.Values.{
  Json, Items, null, str, arr, obj, nil, cons, Fields, end, property,
}

abbrev pub presence_name : Presence → Text
presence_name online = js "online"
presence_name away = js "away"
presence_name offline = js "offline"

unfoldable pub user_to_json : UserSummary → Json
user_to_json u = obj (
    property (js "id") (str u.id) (
      property (js "username") (str u.username)
        (property (js "presence") (str (presence_name u.presence)) end)))

abbrev pub kind_name : ConversationKind → Text
kind_name public = js "public"
kind_name direct = js "direct"
kind_name group = js "group"

unfoldable pub items {ℓ} : {A : Type ℓ} → (A → Json) → List A → Items
items f [] = nil
items f (x ∷ xs) = cons (f x) (items f xs)

unfoldable pub conversation_to_json : ConversationSummary → Json
unfolding items
conversation_to_json c = obj (
    property (js "id") (str c.id) (
      property (js "kind") (str (kind_name c.kind)) (
        property (js "title") (str c.title)
          (property (js "memberIds") (arr (items str c.member_ids)) end))))

abbrev pub message_kind_name : MessageKind → Text
message_kind_name chat = js "chat"
message_kind_name system = js "system"

abbrev pub nullable : Option Text → Json
nullable none = null
nullable (some s) = str s

unfoldable pub message_to_json : MessageSummary → Json
message_to_json m = obj (
    property (js "id") (str m.id) (
      property (js "conversationId") (str m.conversation_id) (
        property (js "kind") (str (message_kind_name m.kind)) (
          property (js "senderId") (nullable m.sender_id) (
            property (js "senderUsername") (nullable m.sender_username) (
              property (js "text") (str m.text)
                (property (js "timestamp") (str m.timestamp) end)))))))

abbrev tagged : Text → Fields → Json
tagged type fields = obj (property (js "type") (str type) fields)

-- JSON.stringify leaves out a property that is undefined.
abbrev conversation_field : Option Text → Fields
conversation_field none = end
conversation_field (some id) = property (js "conversationId") (str id) end

unfoldable pub server_to_json : ServerMessage → Json
unfolding items user_to_json conversation_to_json message_to_json
server_to_json (ready r) = tagged (js "ready") (
    property (js "userId") (str r.user_id) (
      property (js "username") (str r.username) (
        property (js "users") (arr (items user_to_json r.users)) (
          property (js "conversations") (arr (items conversation_to_json r.conversations))
            (property (js "messages") (arr (items message_to_json r.messages)) end)))))
server_to_json logged_out = tagged (js "loggedOut") end
server_to_json (user_update u) =
    tagged (js "userUpdate") (property (js "user") (user_to_json u) end)
server_to_json (user_offline id) = tagged (js "userOffline") (property (js "userId") (str id) end)
server_to_json (conversation_created c) =
    tagged (js "conversationCreated") (property (js "conversation") (conversation_to_json c) end)
server_to_json (message m) = tagged (js "message") (property (js "message") (message_to_json m) end)
server_to_json (error code text conversation_id) = tagged (js "error") (
    property (js "code") (str code)
      (property (js "message") (str text) (conversation_field conversation_id)))
