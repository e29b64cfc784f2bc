-- ===== src/Gateway/Once.antt =====
-- A group message reaches each member once.
use mathlib.Core.Option.{some_inj}
use thread_link.Prelude.{
  ℕ, suc, ◌≡◌, refl, sym, ap, ◌∙◌, subst, Bool, Bool-cases, true, false, not, ◌&&◌, ◌||◌, inl, inr,
  ◌⊎◌, Option, none, some, List, [], ◌∷◌, ◌++◌, any, if◌then◌else◌, nat_beq, nat_beq_iff, arith,
  Text, eq_iff, includes, js,
}
use thread_link.Protocol.{ServerMessage, message, error}
use thread_link.Database.{ConversationRow, Db, has_message, members_of, conversation_by_id}
use thread_link.Conversations.{get_group, group_of, GroupConversation, set_from, to_set}
use thread_link.Messages.{to_summary}
use thread_link.Sessions.{Heap, Roster, find_session}
use thread_link.Environment.{Environment}
use thread_link.Gateway.{Gateway, Effect, sent, send_to}
use thread_link.Gateway.Messaging.{send_group}
use thread_link.Gateway.Delivery.{recipients, delivered, stored_row, one_recipient, send_group_lem}

-- What was sent to the WebSocket of a session, in order.
unfoldable pub messages_to : ℕ → List Effect → List ServerMessage
messages_to q [] = []
messages_to q (sent r m ∷ es) =
    let rest = messages_to q es in if nat_beq r q then m ∷ rest else rest
messages_to q (_ ∷ es) = messages_to q es

abbrev is_at : ℕ → Option ℕ → Bool
is_at q none = false
is_at q (some r) = nat_beq r q

-- The roster has the session under one of the ids.
abbrev pub is_session_of : ℕ → Roster → List Text → Bool
unfolding any
is_session_of q roster ids = any (λ id. is_at q (find_session id roster)) ids

-- The roster has no session under two ids.
abbrev pub IsSingle : Roster → Type 0
IsSingle roster =
    (i j : Text) (q : ℕ) → find_session i roster ≡ some q → find_session j roster ≡ some q → i ≡ j

messages_to-append :
    (q : ℕ) (xs ys : List Effect) → messages_to q (xs ++ ys) ≡ messages_to q xs ++ messages_to q ys
unfolding messages_to
messages_to-append q [] ys = refl
messages_to-append q (x ∷ xs) ys = ground (arith, messages_to-append q xs ys)

module _ (q : ℕ) (roster : Roster) where
  any-includes :
      (x : Text) (seen : List Text)
      → includes seen x ≡ true
      → is_at q (find_session x roster) ≡ true
      → is_session_of q roster seen ≡ true
  unfolding includes any
  any-includes x [] h k = cc
  any-includes x (y ∷ seen) h k = ground (arith, eq_iff y x, any-includes x seen)

  is_at-some : (o : Option ℕ) → is_at q o ≡ true → o ≡ some q
  is_at-some none h = cc
  is_at-some (some r) h = ap some ((nat_beq_iff r q).0 h)

  any-fresh :
      (x : Text) (seen : List Text)
      → IsSingle roster
      → includes seen x ≡ false
      → is_at q (find_session x roster) ≡ true
      → is_session_of q roster seen ≡ false
  unfolding includes any
  any-fresh x [] single h k = refl
  any-fresh x (y ∷ seen) single h k = elim (Bool-cases (is_at q (find_session y roster))) [
    | inl e ↦
        let same = single y x q (is_at-some _ e) (is_at-some _ k) in
        ground (arith, eq_iff y x, same)
    | inr e ↦ rw e (any-fresh x seen single (ground arith) k)
  ]

abbrev pub once : Bool → ServerMessage → List ServerMessage
once b m = if b then m ∷ [] else []

counted :
    (at r_open q_open seen later : Bool) (m : ServerMessage) (ms : List ServerMessage)
    → (at ≡ true → seen ≡ false)
    → (at ≡ true → q_open ≡ r_open)
    → ms ≡ once (q_open && (not (at || seen) && later)) m
    → (if r_open then (if at then m ∷ ms else ms) else ms)
      ≡ once (q_open && (not seen && (at || later))) m
counted true true q_open seen later m ms fresh same h =
    rw (fresh refl, same refl) (ap (λ x. m ∷ x) (h ∙ rw (same refl) refl))
counted true false q_open seen later m ms fresh same h = h ∙ rw (same refl) refl
counted false true q_open seen later m ms fresh same h = h
counted false false q_open seen later m ms fresh same h = h

messages-one :
    (q r : ℕ) (m : ServerMessage) (is_open : Bool) (rs : List ℕ)
    → messages_to q (delivered m (if is_open then r ∷ rs else rs)) ≡ (
        if is_open
        then (if nat_beq r q
            then m ∷ messages_to q (delivered m rs)
            else messages_to q (delivered m rs))
        else messages_to q (delivered m rs))
unfolding messages_to
messages-one q r m true rs = refl
messages-one q r m false rs = refl

-- One more id, if those behind it and before it are counted.
count-one :
    (q : ℕ) (m : ServerMessage) (heap : Heap) (rs : List ℕ) (o : Option ℕ) (seen later : Bool)
    → (is_at q o ≡ true → seen ≡ false)
    → messages_to q (delivered m rs)
      ≡ once ((heap q).ws_open && (not (is_at q o || seen) && later)) m
    → messages_to q (delivered m (one_recipient o heap rs))
      ≡ once ((heap q).ws_open && (not seen && (is_at q o || later))) m
unfolding messages_to
count-one q m heap rs none seen later fresh h = h
count-one q m heap rs (some r) seen later fresh h =
    let is_same : nat_beq r q ≡ true → (heap q).ws_open ≡ (heap r).ws_open =
      λ e. ap (λ x. (heap x).ws_open) (sym ((nat_beq_iff r q).0 e)) in
    messages-one q r m (heap r).ws_open rs
    ∙ counted (nat_beq r q) (heap r).ws_open (heap q).ws_open seen later m
        (messages_to q (delivered m rs)) fresh is_same h

-- Of the ids of a Set, each session gets one message, if it is open and stands under one of the ids.
recipients-set_from :
    (q : ℕ) (m : ServerMessage) (heap : Heap) (roster : Roster) (seen ids : List Text)
    → IsSingle roster
    → messages_to q (delivered m (recipients (set_from seen ids) heap roster))
      ≡ once
          ((heap q).ws_open && (not (is_session_of q roster seen) && is_session_of q roster ids))
          m
unfolding recipients set_from any messages_to
recipients-set_from q m heap roster seen [] single = ground arith
recipients-set_from q m heap roster seen (x ∷ ids) single = elim (Bool-cases (includes seen x)) [
  | inl e ↦ rw e (
      recipients-set_from q m heap roster seen ids single
      ∙ ground (arith, any-includes q roster x seen e))
  | inr e ↦ rw e (
      count-one q m heap _ (find_session x roster) (is_session_of q roster seen)
        (is_session_of q roster ids) (any-fresh q roster x seen single e)
        (recipients-set_from q m heap roster (x ∷ seen) ids single))
]

conversation_by_id-id :
    (id : Text) (cs : List ConversationRow) (c : ConversationRow)
    → conversation_by_id id cs ≡ some c
    → c.id ≡ id
unfolding conversation_by_id
conversation_by_id-id id [] c h = cc
conversation_by_id-id id (d ∷ cs) c h =
    ground (arith, eq_iff d.id id, conversation_by_id-id id cs c)

group_of-members :
    (id : Text) (db : Db) (o : Option ConversationRow) (group : GroupConversation)
    → conversation_by_id id db.conversations ≡ o
    → group_of o db ≡ some group
    → (group.id ≡ id) × (group.member_ids ≡ to_set (members_of id db.members))
group_of-members id db none group e h = cc
group_of-members id db (some c) group e h =
    let same = conversation_by_id-id id db.conversations c e in ground (arith, same)

-- A group message that is passed on.
pub record IsSpread (env : Environment) (r : ℕ) (id text : Text) (g : Gateway) : Type 0 where
  pub group : GroupConversation
  pub found : get_group id g.db ≡ some group
  pub member : includes group.member_ids (g.heap r).id ≡ true
  pub stored :
      (send_group env r id text g).db
      ≡ record g.db { messages = g.db.messages ++ stored_row env r id text g ∷ [] }
  pub reached :
      (q : ℕ)
      → messages_to q (send_group env r id text g).log
        ≡ messages_to q g.log
          ++ once
              ((g.heap q).ws_open && is_session_of q g.roster (members_of id g.db.members))
              (message (to_summary (stored_row env r id text g)))

-- One that is not.
pub record IsDenied (env : Environment) (r : ℕ) (id text : Text) (g : Gateway) : Type 0 where
  pub outsider :
      (group : GroupConversation)
      → get_group id g.db ≡ some group
      → includes group.member_ids (g.heap r).id ≡ false
  pub told :
      send_group env r id text g
      ≡ send_to r (error (js "NOT_A_MEMBER") (js "You are not a member of that group.") (some id)) g

module _ (env : Environment) (r : ℕ) (id text : Text) (g : Gateway)
    (fresh : has_message (env.random_uuid g.drawn) g.db.messages ≡ false)
    (single : IsSingle g.roster) where
  spread :
      (group : GroupConversation)
      → get_group id g.db ≡ some group
      → includes group.member_ids (g.heap r).id ≡ true
      → IsSpread env r id text g
  unfolding to_set any get_group
  spread group found member =
      let row = stored_row env r id text g in
      let m = message (to_summary row) in
      let (named, members) =
        group_of-members id g.db (conversation_by_id id g.db.conversations) group refl found in
      let ids = members_of id g.db.members in
      let sent_all : send_group env r id text g ≡ record g {
        db = record g.db { messages = g.db.messages ++ row ∷ [] };
        drawn = suc g.drawn;
        log = g.log ++ delivered m (recipients (set_from [] ids) g.heap g.roster);
      } =
        send_group_lem env r id text g fresh ∙ rw (found, member, named, members) refl in
      record {
        group = group;
        found = found;
        member = member;
        stored = ap (λ (g' : Gateway). g'.db) sent_all;
        reached = λ q.
            ap (λ (g' : Gateway). messages_to q g'.log) sent_all
            ∙ messages_to-append q g.log
                (delivered m (recipients (set_from [] ids) g.heap g.roster))
            ∙ ap (λ ms. messages_to q g.log ++ ms)
                (recipients-set_from q m g.heap g.roster [] ids single);
      }

  outcome :
      (o : Option GroupConversation)
      → get_group id g.db ≡ o
      → IsSpread env r id text g ⊎ IsDenied env r id text g
  outcome none e = inr (record {
    outsider = λ group found. cc;
    told = send_group_lem env r id text g fresh ∙ rw e refl;
  })
  outcome (some group) e = elim (Bool-cases (includes group.member_ids (g.heap r).id)) [
    | inl member ↦ inl (spread group e member)
    | inr other ↦ inr (record {
      outsider = λ group' found.
          subst (λ x. includes x.member_ids (g.heap r).id ≡ false) (some_inj.0 (sym e ∙ found))
            other;
      told = send_group_lem env r id text g fresh ∙ rw (e, other) refl;
    })
  ]

  -- What sending to a group does, for a fresh id and a roster that has no session under two ids. A
  -- member's text is stored once, and then every session with an open WebSocket that the roster has for
  -- a member gets the message, with its id and time, exactly once, and no other session gets anything.
  -- A sender who is not among the members of a group with that id is told so, and that is all.
  pub send_group-reaches : IsSpread env r id text g ⊎ IsDenied env r id text g
  send_group-reaches = outcome (get_group id g.db) refl
