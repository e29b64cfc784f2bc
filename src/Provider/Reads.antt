-- ===== src/Provider/Reads.antt =====
-- What the components read of ChatProvider.tsx: the active conversation and who is online.
use thread_link.Prelude.{
  Bool, false, not, Option, none, some, List, [], ◌∷◌, keep, Text, js, ◌==◌, get, Dict,
}
use thread_link.Protocol.{ConversationKind, direct}
use thread_link.Database.{public_conversation_id}
use thread_link.ChatState.{User, Conversation, ChatState}

-- `activeConversation`
abbrev first_nonempty : Text → Text → Text
first_nonempty [] b = b
first_nonempty (c ∷ s) b = c ∷ s

abbrev nickname_of : Option User → Text
nickname_of none = []
nickname_of (some u) = u.nickname

abbrev pub shown_title : Option User → Text → Text
shown_title peer title =
    first_nonempty (nickname_of peer) (first_nonempty title (js "Offline user"))

abbrev with_title : Option Text → Dict User → Conversation → Conversation
with_title none users c = c
with_title (some []) users c = c
with_title (some (u ∷ id)) users c = record c { title = shown_title (get (u ∷ id) users) c.title }

abbrev titled : ConversationKind → Dict User → Conversation → Conversation
titled direct users c = with_title c.peer_id users c
titled _ users c = c

abbrev or_get : Option Conversation → Option Conversation → Option Conversation
or_get none o = o
or_get (some c) o = some c

-- `none` is undefined, on which the memo throws.
unfoldable pub active_conversation : ChatState → Option Conversation
active_conversation state =
    elim (or_get (get state.active_conversation_id state.conversations)
      (get public_conversation_id state.conversations)) [
        | none ↦ none
        | some c ↦ some (titled c.kind state.users c)
      ]

-- `Object.values`
abbrev pub values {ℓ} : {V : Type ℓ} → Dict V → List V
values [] = []
values ((k, v) ∷ vs) = v ∷ values vs

abbrev is_id : Option Text → Text → Bool
is_id none id = false
is_id (some own) id = id == own

unfoldable pub online_users : ChatState → List User
online_users state = keep (λ u. not (is_id state.user_id u.id)) (values state.users)
