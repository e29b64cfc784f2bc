-- ===== src/Gateway/Delivery.antt =====
-- Who receives what is sent to a group.
use mathlib.Core.List.{append_assoc, append-nil}
use thread_link.Prelude.{
  ℕ, suc, ◌≡◌, refl, sym, ap, ◌∙◌, Bool, true, false, Option, none, some, List, [], ◌∷◌, ◌++◌, map,
  if◌then◌else◌, arith, Text, includes, js,
}
use thread_link.Protocol.{ServerMessage, message, error}
use thread_link.Database.{MessageRow, insert_message, has_message}
use thread_link.Conversations.{get_group, GroupConversation}
use thread_link.Messages.{append, row_of, to_summary}
use thread_link.Sessions.{Heap, Roster, find_session}
use thread_link.Environment.{Environment}
use thread_link.Gateway.{Gateway, Effect, sent, emit, send_to}
use thread_link.Gateway.Messaging.{
  send_if, send_to_ids, draft, store_then, send_group, not_a_member,
}

abbrev pub one_recipient : Option ℕ → Heap → List ℕ → List ℕ
one_recipient none heap rs = rs
one_recipient (some r) heap rs = if (heap r).ws_open then r ∷ rs else rs

-- The sessions of the ids, in order, that are in the roster and have an open WebSocket.
unfoldable pub recipients : List Text → Heap → Roster → List ℕ
recipients [] heap roster = []
recipients (id ∷ ids) heap roster =
    one_recipient (find_session id roster) heap (recipients ids heap roster)

abbrev pub delivered : ServerMessage → List ℕ → List Effect
delivered m rs = map (λ r. sent r m) rs

abbrev logged : Gateway → List Effect → Gateway
logged g es = record g { log = g.log ++ es }

-- One round of the loop, if the rounds after it do what they should.
send_if-log :
    (ids : List Text) (o : Option ℕ) (m : ServerMessage) (g : Gateway)
    → ((g' : Gateway)
        → send_to_ids ids m g' ≡ logged g' (delivered m (recipients ids g'.heap g'.roster)))
    → send_to_ids ids m (send_if o m g)
      ≡ logged g (delivered m (one_recipient o g.heap (recipients ids g.heap g.roster)))
unfolding send_to
send_if-log ids none m g rest = rest g
send_if-log ids (some r) m g rest =
    let rs = recipients ids g.heap g.roster in
    elim (g.heap r).ws_open
      as (λ b.
        send_to_ids ids m (if b then emit (sent r m) g else g)
        ≡ logged g (delivered m (if b then r ∷ rs else rs))) [
          | true ↦
              rest (emit (sent r m) g)
              ∙ ap (λ l. record g { log = l }) (append_assoc g.log (sent r m ∷ []) (delivered m rs))
          | false ↦ rest g
        ]

-- The loop over ids sends the message once to each of their sessions, in the order of the ids, and
-- does nothing else.
pub send_to_ids_lem :
    (ids : List Text) (m : ServerMessage) (g : Gateway)
    → send_to_ids ids m g ≡ record g { log = g.log ++ delivered m (recipients ids g.heap g.roster) }
unfolding send_to_ids recipients
send_to_ids_lem [] m g = ap (λ l. record g { log = l }) (sym (append-nil g.log))
send_to_ids_lem (id ∷ ids) m g =
    send_if-log ids (find_session id g.roster) m g (send_to_ids_lem ids m)

if-cong : {A : Type 0} (c : Bool) (x y d : A) → x ≡ y → (if c then x else d) ≡ (if c then y else d)
if-cong c x y d e = ap (λ z. if c then z else d) e

elim-cong :
    {A B : Type 0} (o : Option A) (b : B) (f k : A → B)
    → ((x : A) → f x ≡ k x)
    → (elim o [ none ↦ b | some x ↦ f x ]) ≡ (elim o [ none ↦ b | some x ↦ k x ])
elim-cong none b f k e = refl
elim-cong (some x) b f k e = e x

abbrev pub stored_row : Environment → ℕ → Text → Text → Gateway → MessageRow
stored_row env r conversation text g =
    row_of (env.random_uuid g.drawn) (env.iso_now g.drawn) (draft conversation (g.heap r) text)

abbrev pub with_message : MessageRow → Gateway → Gateway
with_message row g = record g {
  db = record g.db { messages = g.db.messages ++ row ∷ [] };
  drawn = suc g.drawn;
}

-- With a fresh id the INSERT succeeds.
pub store_then_lem :
    (env : Environment) (r : ℕ) (conversation text : Text) (k : ServerMessage → Gateway → Gateway)
    (g : Gateway)
    → has_message (env.random_uuid g.drawn) g.db.messages ≡ false
    → let row = stored_row env r conversation text g in
      store_then env r (draft conversation (g.heap r) text) k g
      ≡ k (message (to_summary row)) (with_message row g)
unfolding store_then append insert_message
store_then_lem env r conversation text k g h = ground arith

-- What sending to a group does, for a fresh id. A sender who is not among the members of a group with
-- that id is told so, and nothing is stored. A member's text is stored once, and the message with its
-- id and time goes once to each member's session, and to nobody else.
pub send_group_lem :
    (env : Environment) (r : ℕ) (id text : Text) (g : Gateway)
    → has_message (env.random_uuid g.drawn) g.db.messages ≡ false
    → let row = λ (group : GroupConversation). stored_row env r group.id text g in
      let denied =
        send_to r
          (error (js "NOT_A_MEMBER") (js "You are not a member of that group.") (some id))
          g in
      send_group env r id text g ≡ elim (get_group id g.db) [
        | none ↦ denied
        | some group ↦
            if includes group.member_ids (g.heap r).id
            then record g {
              db = record g.db { messages = g.db.messages ++ row group ∷ [] };
              drawn = suc g.drawn;
              log =
                  g.log
                  ++ delivered
                      (message (to_summary (row group)))
                      (recipients group.member_ids g.heap g.roster);
            }
            else denied
      ]
unfolding send_group not_a_member
send_group_lem env r id text g h = elim-cong (get_group id g.db) _ _ _ (λ group.
    if-cong (includes group.member_ids (g.heap r).id) _ _ _ (
      store_then_lem env r group.id text (λ m g'. send_to_ids group.member_ids m g') g h
      ∙ send_to_ids_lem group.member_ids _ _))
