-- ===== src/ClientProtocol/RoundTrip.antt =====
-- What the browser sends (`encodeOutbound` of frontend/types/protocol.ts, up to the JSON text) and
-- what the gateway's validation reads back.
use thread_link.Prelude.{ℕ, ◌≡◌, refl, ◌↔◌, some, List, [], ◌∷◌, arith, length, Text, js, ◌==◌, All}
use thread_link.Protocol.{
  MessageTarget, to_public, to_direct, to_group, Presence, online, away, offline, ClientMessage,
  register, login, logout, set_nickname, send_message, create_group, set_presence, request_state,
}
use thread_link.ClientProtocol.Values.{
  Json, Items, str, arr, obj, nil, cons, Fields, end, property, get_property, field_of,
}
use thread_link.ClientProtocol.{
  ok, bounded_string, non_empty_string, target_of, validate_target, non_empty_strings, count_items,
  member_ids_of, presence_of, credentials, message_of, validate_client_message,
}
use thread_link.ClientProtocol.Bounds.{
  Sized, IsNonEmpty, InBounds, InBoundsTarget, AreMembers, validate-InBounds,
}

unfoldable pub items_of : List Text → Items
items_of [] = nil
items_of (s ∷ ss) = cons (str s) (items_of ss)

unfoldable pub target_to_json : MessageTarget → Json
target_to_json to_public = obj (property (js "kind") (str (js "public")) end)
target_to_json (to_direct peer) =
    obj (property (js "kind") (str (js "direct")) (property (js "peerId") (str peer) end))
target_to_json (to_group group) =
    obj (property (js "kind") (str (js "group")) (property (js "groupId") (str group) end))

abbrev presence_text : Presence → Text
presence_text online = js "online"
presence_text away = js "away"
presence_text offline = js "offline"

abbrev with_type : Text → Fields → Json
with_type type fields = obj (property (js "type") (str type) fields)

abbrev login_fields : Text → Text → Fields
login_fields username password =
    property (js "username") (str username) (property (js "password") (str password) end)

unfoldable pub to_json : ClientMessage → Json
unfolding target_to_json items_of
to_json (register username password) = with_type (js "register") (login_fields username password)
to_json (login username password) = with_type (js "login") (login_fields username password)
to_json logout = with_type (js "logout") end
to_json (set_nickname nickname) =
    with_type (js "setNickname") (property (js "nickname") (str nickname) end)
to_json (send_message target text) =
    with_type (js "sendMessage")
      (property (js "target") (target_to_json target) (property (js "text") (str text) end))
to_json (create_group name members) =
    with_type (js "createGroup")
      (property (js "name") (str name) (property (js "memberIds") (arr (items_of members)) end))
to_json (set_presence presence) =
    with_type (js "setPresence") (property (js "presence") (str (presence_text presence)) end)
to_json request_state = with_type (js "requestState") end

bounded_string_of_Sized :
    (most : ℕ) (e s : Text) → Sized most s → bounded_string most e (some (str s)) ≡ ok s
unfolding bounded_string
bounded_string_of_Sized most e [] h = absurd (omega arith)
bounded_string_of_Sized most e (c ∷ s) h = ground arith

non_empty_string_of_IsNonEmpty :
    (e s : Text) → IsNonEmpty s → non_empty_string e (some (str s)) ≡ ok s
unfolding non_empty_string
non_empty_string_of_IsNonEmpty e [] h = absurd (omega arith)
non_empty_string_of_IsNonEmpty e (c ∷ s) h = refl

non_empty_strings-items_of :
    (ss : List Text) → All IsNonEmpty ss → non_empty_strings (items_of ss) ≡ some ss
unfolding non_empty_strings items_of
non_empty_strings-items_of [] h = refl
non_empty_strings-items_of ([] ∷ ss) (p, h) = absurd (omega arith)
non_empty_strings-items_of ((c ∷ s) ∷ ss) (p, h) = ground (arith, non_empty_strings-items_of ss h)

count-items_of : (ss : List Text) → count_items (items_of ss) ≡ length ss
unfolding count_items items_of
count-items_of [] = refl
count-items_of (s ∷ ss) = omega (arith, count-items_of ss)

member_ids-items_of :
    (ss : List Text) → AreMembers ss → member_ids_of (some (arr (items_of ss))) ≡ ok ss
unfolding member_ids_of
member_ids-items_of ss ((lo, hi), h) =
    ground (arith, count-items_of ss, non_empty_strings-items_of ss h)

validate_target-to_json :
    (t : MessageTarget) → InBoundsTarget t → validate_target (some (target_to_json t)) ≡ ok t
unfolding validate_target target_of target_to_json get_property ◌==◌
validate_target-to_json to_public h = refl
validate_target-to_json (to_direct (c ∷ peer)) h = refl
validate_target-to_json (to_group (c ∷ group)) h = refl
validate_target-to_json (to_direct []) h = absurd (omega arith)
validate_target-to_json (to_group []) h = absurd (omega arith)

-- Whatever message within the bounds the browser sends, validation gives back the same message.
pub validate-to_json : (m : ClientMessage) → InBounds m → validate_client_message (to_json m) ≡ ok m
unfolding validate_client_message message_of credentials to_json field_of ◌==◌
validate-to_json (register u p) (hu, hp) =
    rw (bounded_string_of_Sized _ _ u hu, bounded_string_of_Sized _ _ p hp)
validate-to_json (login u p) (hu, hp) =
    rw (bounded_string_of_Sized _ _ u hu, bounded_string_of_Sized _ _ p hp)
validate-to_json logout h = refl
validate-to_json (set_nickname n) h = rw (bounded_string_of_Sized _ _ n h)
validate-to_json (send_message t s) (ht, hs) =
    rw (bounded_string_of_Sized _ _ s hs, validate_target-to_json t ht)
validate-to_json (create_group n ms) (hn, hm) =
    rw (bounded_string_of_Sized _ _ n hn, member_ids-items_of ms hm)
validate-to_json (set_presence online) h = unfold presence_of in refl
validate-to_json (set_presence away) h = unfold presence_of in refl
validate-to_json (set_presence offline) h = absurd h
validate-to_json request_state h = refl

-- A message of the browser is accepted, as it was sent, exactly when it is within the bounds.
pub validate-to_json_iff :
    (m : ClientMessage) → (validate_client_message (to_json m) ≡ ok m) ↔ InBounds m
validate-to_json_iff m = (validate-InBounds (to_json m) m, validate-to_json m)
