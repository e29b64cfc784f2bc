-- ===== src/View/Titles.antt =====
-- The names of direct conversations in the sidebar and in the header.
use thread_link.Prelude.{◌≡◌, true, Option, none, some, Text, get, arith}
use thread_link.Protocol.{direct}
use thread_link.ChatState.{ChatState, Conversation}
use thread_link.Provider.{is_truthy}
use thread_link.Provider.Reads.{active_conversation}
use thread_link.View.Sidebar.{direct_label}

abbrev pub title_of : Option Conversation → Option Text
title_of none = none
title_of (some c) = some c.title

-- The sidebar names a direct conversation as the header does while it is the active one, if its peer is
-- known: the two follow the same order of fallbacks.
pub direct_label_lem :
    (state : ChatState) (c : Conversation)
    → get state.active_conversation_id state.conversations ≡ some c
    → c.kind ≡ direct
    → is_truthy c.peer_id ≡ true
    → title_of (active_conversation state) ≡ some (direct_label state.users c)
unfolding active_conversation direct_label
direct_label_lem state c found kind known = ground arith
