-- ===== src/ServerProtocol/Conforms.antt =====
-- What the gateway sends has the type that the browser takes it for.
use thread_link.Prelude.{
  ◌≡◌, refl, sym, ap, subst, true, Option, none, some, List, [], ◌∷◌, if◌then◌else◌, Text, ◌==◌,
}
use thread_link.Protocol.{
  Presence, online, away, offline, UserSummary, ConversationKind, public, direct, group,
  ConversationSummary, MessageKind, chat, system, MessageSummary, Ready, ServerMessage, ready,
  logged_out, user_update, user_offline, conversation_created, message, error,
}
use thread_link.ClientProtocol.Values.{Json, str, field_of}
use thread_link.Transport.{Browser, parse_inbound, is_server_message}
use thread_link.ServerProtocol.{
  items, user_to_json, conversation_to_json, message_to_json, server_to_json, presence_name,
  kind_name, message_kind_name, nullable,
}
use thread_link.ServerProtocol.Shapes.{
  nullable_field, all_of, text_value, presence_value, user_summary, kind_value,
  conversation_summary, message_kind_value, message_summary, ready_value, server_message,
}

all_of-items {ℓ} :
    {A : Type ℓ} (write : A → Json) (read : Json → Option A) (xs : List A)
    → ((x : A) → read (write x) ≡ some x)
    → all_of read (items write xs) ≡ some xs
unfolding all_of items
all_of-items write read [] h = refl
all_of-items write read (x ∷ xs) h = rw (h x, all_of-items write read xs h) refl

presence_lem : (p : Presence) → presence_value (presence_name p) ≡ some p
unfolding presence_value ◌==◌
presence_lem online = refl
presence_lem away = refl
presence_lem offline = refl

kind_lem : (k : ConversationKind) → kind_value (kind_name k) ≡ some k
unfolding kind_value ◌==◌
kind_lem public = refl
kind_lem direct = refl
kind_lem group = refl

message_kind_lem : (k : MessageKind) → message_kind_value (message_kind_name k) ≡ some k
unfolding message_kind_value ◌==◌
message_kind_lem chat = refl
message_kind_lem system = refl

nullable_lem : (o : Option Text) → nullable_field (some (nullable o)) ≡ some o
unfolding nullable_field
nullable_lem none = refl
nullable_lem (some s) = refl

user_lem : (u : UserSummary) → user_summary (user_to_json u) ≡ some u
unfolding user_summary user_to_json field_of ◌==◌
user_lem u = rw (presence_lem u.presence) refl

conversation_lem :
    (c : ConversationSummary) → conversation_summary (conversation_to_json c) ≡ some c
unfolding conversation_summary conversation_to_json field_of text_value ◌==◌
conversation_lem c = rw (kind_lem c.kind, all_of-items str text_value c.member_ids (λ s. refl)) refl

message_lem : (m : MessageSummary) → message_summary (message_to_json m) ≡ some m
unfolding message_summary message_to_json field_of ◌==◌
message_lem m =
    rw (message_kind_lem m.kind, nullable_lem m.sender_id, nullable_lem m.sender_username) refl

ready_lem : (r : Ready) → server_message (server_to_json (ready r)) ≡ some (ready r)
unfolding server_message server_to_json ready_value field_of ◌==◌
ready_lem r =
    rw
      (
        all_of-items user_to_json user_summary r.users user_lem,
        all_of-items conversation_to_json conversation_summary r.conversations conversation_lem,
        all_of-items message_to_json message_summary r.messages message_lem,
      )
      refl

-- Every message that the gateway can send, written as JSON, is a value of the type ServerMessage of the
-- browser, and as a value of that type it is the message that was sent.
pub server_message-server_to_json : (m : ServerMessage) → server_message (server_to_json m) ≡ some m
unfolding server_message server_to_json field_of ◌==◌
server_message-server_to_json (ready r) = ready_lem r
server_message-server_to_json logged_out = refl
server_message-server_to_json (user_update u) = rw (user_lem u) refl
server_message-server_to_json (user_offline id) = refl
server_message-server_to_json (conversation_created c) = rw (conversation_lem c) refl
server_message-server_to_json (message m) = rw (message_lem m) refl
server_message-server_to_json (error code text none) = refl
server_message-server_to_json (error code text (some id)) = refl

-- The check of `parseInbound` lets it pass.
is_server_message_lem :
    (browser : Browser) (m : ServerMessage) → is_server_message browser (server_to_json m) ≡ true
unfolding server_to_json field_of ◌==◌
is_server_message_lem browser (ready r) = refl
is_server_message_lem browser logged_out = refl
is_server_message_lem browser (user_update u) = refl
is_server_message_lem browser (user_offline id) = refl
is_server_message_lem browser (conversation_created c) = refl
is_server_message_lem browser (message m) = refl
is_server_message_lem browser (error code text id) = refl

-- The browser takes a value that is of the type for what it is.
abbrev pub CastsWell : Browser → Type 0
CastsWell browser =
    (j : Json) (m : ServerMessage) → server_message j ≡ some m → browser.as_server_message j ≡ m

-- Whatever message the gateway sends, the browser receives it as that message: where its JSON.parse
-- gives back what the gateway's JSON.stringify was given, and the cast to ServerMessage takes a value
-- of that type for what it is.
pub parse_inbound-server_to_json :
    (browser : Browser) (stringify : Json → Text) (m : ServerMessage)
    → CastsWell browser
    → browser.parse_json (stringify (server_to_json m)) ≡ some (server_to_json m)
    → parse_inbound browser (stringify (server_to_json m)) ≡ some m
unfolding parse_inbound
parse_inbound-server_to_json browser stringify m casts parses =
    subst
      (λ o.
        elim o as (λ _. Option ServerMessage) [
          | none ↦ none
          | some j ↦
              if is_server_message browser j then some (browser.as_server_message j) else none
        ]
        ≡ some m)
      (sym parses)
      (rw (is_server_message_lem browser m)
        (ap some (casts (server_to_json m) m (server_message-server_to_json m))))
