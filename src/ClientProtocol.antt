-- ===== src/ClientProtocol.antt =====
-- gateway/src/clientProtocol.ts: the validation of parsed JSON into client messages.
pub mod Values
pub mod Bounds
pub mod RoundTrip
mod Tests
use thread_link.Prelude.{
  ℕ, ◌+◌, Bool, true, false, ◌||◌, Option, none, some, List, [], ◌∷◌, ◌++◌, ltb, nat_beq,
  if◌then◌else◌, length, Text, js, ◌==◌,
}
use thread_link.Protocol.{
  MessageTarget, to_public, to_direct, to_group, Presence, online, away, ClientMessage, register,
  login, logout, set_nickname, send_message, create_group, set_presence, request_state,
}
use Values.{
  Json, Items, str, arr, obj, null, bool, num, nil, cons, end, property, field_of, to_string,
}

abbrev pub max_nickname_len : ℕ
max_nickname_len = 24

abbrev pub max_text_len : ℕ
max_text_len = 4000

abbrev pub max_group_name_len : ℕ
max_group_name_len = 48

abbrev pub max_group_members : ℕ
max_group_members = 64

abbrev pub max_username_len : ℕ
max_username_len = 24

abbrev pub max_password_len : ℕ
max_password_len = 256

-- `{ ok: true; … }` or `{ ok: false; error }`, or an exception.
pub data Validation {ℓ} (A : Type ℓ) : Type ℓ where
  ok : A → Validation A
  refused : Text → Validation A
  threw : Validation A

infixl 5 ◌>>=◌
abbrev pub ◌>>=◌ {ℓ κ} :
    {A : Type ℓ} {B : Type κ} → Validation A → (A → Validation B) → Validation B
ok a >>= f = f a
refused e >>= f = refused e
threw >>= f = threw

-- The error with the type in it, whose `String` may throw.
unfoldable pub unknown_type : Option Text → Validation ClientMessage
unknown_type none = threw
unknown_type (some type) = refused (js "unknown message type '" ++ (type ++ js "'"))

-- A property that is a string of 1 to `most` code units, or the error.
unfoldable pub bounded_string : ℕ → Text → Option Json → Validation Text
bounded_string most e (some (str (c ∷ s))) =
    if ltb most (length (c ∷ s)) then refused e else ok (c ∷ s)
bounded_string most e _ = refused e

-- `isNonEmptyString`, with the value that it narrows.
unfoldable pub non_empty_string : Text → Option Json → Validation Text
non_empty_string e (some (str (c ∷ s))) = ok (c ∷ s)
non_empty_string e _ = refused e

-- `obj["kind"]` or `obj["type"]`, as far as it is a string.
abbrev pub tag_of : Option Json → Option Text
tag_of (some (str s)) = some s
tag_of _ = none

abbrev pub is_tag : Option Text → Text → Bool
is_tag none t = false
is_tag (some s) t = s == t

unfoldable pub target_of : (Text → Option Json) → Validation MessageTarget
unfolding non_empty_string
target_of get =
    let kind = tag_of (get (js "kind")) in
    if is_tag kind (js "public")
    then ok to_public
    else if is_tag kind (js "direct")
    then (do
      peer ← non_empty_string (js "direct target requires peerId") (get (js "peerId"))
      ok (to_direct peer))
    else if is_tag kind (js "group")
    then (do
      group ← non_empty_string (js "group target requires groupId") (get (js "groupId"))
      ok (to_group group))
    else refused (js "target.kind must be 'public', 'direct', or 'group'")

abbrev pub is_object : Json → Bool
is_object (obj fields) = true
is_object (arr items) = true
is_object _ = false

unfoldable pub validate_target : Option Json → Validation MessageTarget
unfolding target_of field_of
validate_target none = refused (js "target must be an object")
validate_target (some raw) =
    if is_object raw then target_of (field_of raw) else refused (js "target must be an object")

-- `memberIds.every(…)`: the strings, if all are non-empty strings.
unfoldable pub non_empty_strings : Items → Option (List Text)
non_empty_strings nil = some []
non_empty_strings (cons (str (c ∷ s)) items) = elim (non_empty_strings items) [
  | none ↦ none
  | some rest ↦ some ((c ∷ s) ∷ rest)
]
non_empty_strings (cons _ items) = none

unfoldable pub count_items : Items → ℕ
count_items nil = 0
count_items (cons v items) = 1 + count_items items

abbrev pub members_error : Text
members_error = js "memberIds must be a non-empty array of up to 64 user ids"

abbrev pub or_refused {ℓ} : {A : Type ℓ} → Text → Option A → Validation A
or_refused e none = refused e
or_refused e (some a) = ok a

unfoldable pub member_ids_of : Option Json → Validation (List Text)
unfolding non_empty_strings count_items
member_ids_of (some (arr items)) =
    if nat_beq (count_items items) 0 || ltb max_group_members (count_items items)
    then refused members_error
    else or_refused members_error (non_empty_strings items)
member_ids_of _ = refused members_error

unfoldable pub presence_of : Option Text → Validation Presence
presence_of tag =
    if is_tag tag (js "online")
    then ok online
    else if is_tag tag (js "away")
    then ok away
    else refused (js "presence must be 'online' or 'away'")

-- The two string properties that `register` and `login` share.
unfoldable pub credentials :
    (Text → Option Json) → (Text → Text → ClientMessage) → Validation ClientMessage
unfolding bounded_string
credentials get build = do
  username ←
      bounded_string max_username_len (js "username must be 1-24 characters") (get (js "username"))
  password ← bounded_string max_password_len (js "password is required") (get (js "password"))
  ok (build username password)

-- The `switch` on the type, over the properties of the object.
unfoldable pub message_of : (Text → Option Json) → Validation ClientMessage
message_of get =
    let type = tag_of (get (js "type")) in
    if is_tag type (js "register")
    then credentials get register
    else if is_tag type (js "login")
    then credentials get login
    else if is_tag type (js "logout")
    then ok logout
    else if is_tag type (js "setNickname")
    then (do
      nickname ←
          bounded_string max_nickname_len (js "nickname must be 1-24 characters")
            (get (js "nickname"))
      ok (set_nickname nickname))
    else if is_tag type (js "sendMessage")
    then (do
      text ← bounded_string max_text_len (js "text must be 1-4000 characters") (get (js "text"))
      target ← validate_target (get (js "target"))
      ok (send_message target text))
    else if is_tag type (js "createGroup")
    then (do
      name ←
          bounded_string max_group_name_len (js "group name must be 1-48 characters")
            (get (js "name"))
      member_ids ← member_ids_of (get (js "memberIds"))
      ok (create_group name member_ids))
    else if is_tag type (js "setPresence")
    then (do presence ← presence_of (tag_of (get (js "presence"))); ok (set_presence presence))
    else if is_tag type (js "requestState")
    then ok request_state
    else unknown_type (to_string (get (js "type")))

unfoldable pub validate_client_message : Json → Validation ClientMessage
validate_client_message raw =
    if is_object raw
    then message_of (field_of raw)
    else refused (js "message must be a JSON object")
