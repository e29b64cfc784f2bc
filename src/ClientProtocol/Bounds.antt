-- ===== src/ClientProtocol/Bounds.antt =====
-- What an accepted message is known to satisfy.
use thread_link.Prelude.{
  ℕ, ◌+◌, ◌≤◌, ◌≡◌, refl, subst, inl, inr, Bool, true, false, ◌||◌, Bool-cases, Option, none, some,
  List, ◌∷◌, arith, ltb, ltb→le, nat_beq, if◌then◌else◌, length, Text, js, All,
}
use thread_link.Protocol.{
  MessageTarget, to_public, to_direct, to_group, Presence, offline, ClientMessage, register, login,
  set_nickname, send_message, create_group, set_presence,
}
use thread_link.ClientProtocol.Values.{Json, Items, str, arr, nil, cons, field_of}
use thread_link.ClientProtocol.{
  Validation, ok, refused, threw, unknown_type, ◌>>=◌, bounded_string, non_empty_string, target_of,
  validate_target, non_empty_strings, count_items, member_ids_of, presence_of, credentials,
  message_of, validate_client_message, is_tag, tag_of, max_username_len, max_password_len,
  max_nickname_len, max_text_len, max_group_name_len, max_group_members, members_error, or_refused,
}

-- 1 to `most` code units.
abbrev pub Sized {ℓ} : {A : Type ℓ} → ℕ → List A → Type 0
Sized most s = (1 ≤ length s) × (length s ≤ most)

abbrev pub IsNonEmpty : Text → Type 0
IsNonEmpty s = 1 ≤ length s

abbrev pub InBoundsTarget : MessageTarget → Type 0
InBoundsTarget to_public = Unit
InBoundsTarget (to_direct peer) = IsNonEmpty peer
InBoundsTarget (to_group group) = IsNonEmpty group

-- What a client can set is not "offline".
abbrev pub IsSettable : Presence → Type 0
IsSettable offline = ⊥
IsSettable _ = Unit

abbrev pub AreMembers : List Text → Type 0
AreMembers members = Sized max_group_members members × All IsNonEmpty members

abbrev pub InBounds : ClientMessage → Type 0
InBounds (register username password) =
    Sized max_username_len username × Sized max_password_len password
InBounds (login username password) =
    Sized max_username_len username × Sized max_password_len password
InBounds (set_nickname nickname) = Sized max_nickname_len nickname
InBounds (send_message target text) = InBoundsTarget target × Sized max_text_len text
InBounds (create_group name members) = Sized max_group_name_len name × AreMembers members
InBounds (set_presence p) = IsSettable p
InBounds _ = Unit

-- Whatever value `m` is accepted with satisfies `P`.
record Ensures {ℓ} {A : Type ℓ} (P : A → Type 0) (m : Validation A) : Type ℓ where
  at : (a : A) → m ≡ ok a → P a

module _ {ℓ} {A : Type ℓ} {P : A → Type 0} where
  Ensures-ok : {a : A} → P a → Ensures P (ok a)
  Ensures-ok h = record { at = λ b e. subst P (ok_injective e) h }
    where
      ok_injective : {a b : A} → ok a ≡ ok b → a ≡ b
      ok_injective e = cc

  Ensures-refused : (e : Text) → Ensures P (refused e)
  Ensures-refused e = record { at = λ b h. cc }

  Ensures-threw : Ensures P threw
  Ensures-threw = record { at = λ b h. cc }

  Ensures-if :
      (b : Bool) {x y : Validation A} → Ensures P x → Ensures P y → Ensures P (if b then x else y)
  Ensures-if true h k = h
  Ensures-if false h k = k

  Ensures-bind {κ} :
      {B : Type κ} (Q : B → Type 0) (m : Validation B) {f : B → Validation A}
      → Ensures Q m
      → ((b : B) → Q b → Ensures P (f b))
      → Ensures P (m >>= f)
  Ensures-bind Q (ok b) h k = k b (h.at b refl)
  Ensures-bind Q (refused e) h k = Ensures-refused e
  Ensures-bind Q threw h k = Ensures-threw

bounded_string-Sized :
    (most : ℕ) (e : Text) (v : Option Json) → Ensures (Sized most) (bounded_string most e v)
unfolding bounded_string
bounded_string-Sized most e (some (str (c ∷ s))) = elim (Bool-cases (ltb most (length (c ∷ s)))) [
  | inl h ↦ rw h (Ensures-refused e)
  | inr h ↦ rw h (Ensures-ok (omega arith, ltb→le most (length (c ∷ s)) h))
]
bounded_string-Sized most e _ = Ensures-refused e

non_empty_string-IsNonEmpty :
    (e : Text) (v : Option Json) → Ensures IsNonEmpty (non_empty_string e v)
unfolding non_empty_string
non_empty_string-IsNonEmpty e (some (str (c ∷ s))) = Ensures-ok (omega arith)
non_empty_string-IsNonEmpty e _ = Ensures-refused e

non_empty_string-bind {ℓ} :
    {A : Type ℓ} {P : A → Type 0} (e : Text) (v : Option Json) {f : Text → Validation A}
    → ((s : Text) → IsNonEmpty s → Ensures P (f s))
    → Ensures P (non_empty_string e v >>= f)
non_empty_string-bind e v k = Ensures-bind IsNonEmpty _ (non_empty_string-IsNonEmpty e v) k

bounded_string-bind {ℓ} :
    {A : Type ℓ} {P : A → Type 0} (most : ℕ) (e : Text) (v : Option Json) {f : Text → Validation A}
    → ((s : Text) → Sized most s → Ensures P (f s))
    → Ensures P (bounded_string most e v >>= f)
bounded_string-bind most e v k = Ensures-bind (Sized most) _ (bounded_string-Sized most e v) k

ruleset ensures_rules = (Ensures-ok, Ensures-refused, Ensures-if)

target_of-InBounds : (get : Text → Option Json) → Ensures InBoundsTarget (target_of get)
unfolding target_of
target_of-InBounds get = search (ensures_rules, tt, non_empty_string-bind) depth 9

validate_target-InBounds : (v : Option Json) → Ensures InBoundsTarget (validate_target v)
unfolding validate_target
validate_target-InBounds none = Ensures-refused _
validate_target-InBounds (some raw) =
    Ensures-if _ (target_of-InBounds (field_of raw)) (Ensures-refused _)

abbrev Found : Option (List Text) → ℕ → Type 0
Found none n = Unit
Found (some members) n = (length members ≡ n) × All IsNonEmpty members

Found-cons :
    (c : ℕ) (s : Text) (o : Option (List Text)) (n : ℕ)
    → Found o n
    → Found (elim o [ none ↦ none | some rest ↦ some ((c ∷ s) ∷ rest) ]) (1 + n)
Found-cons c s none n h = tt
Found-cons c s (some rest) n (e, h) = (omega arith, (omega arith, h))

non_empty_strings-Found : (items : Items) → Found (non_empty_strings items) (count_items items)
unfolding non_empty_strings count_items
non_empty_strings-Found nil = (refl, tt)
non_empty_strings-Found (cons (str (c ∷ s)) items) =
    Found-cons c s (non_empty_strings items) (count_items items) (non_empty_strings-Found items)
non_empty_strings-Found (cons _ items) = tt

or_refused-AreMembers :
    (o : Option (List Text)) (n : ℕ)
    → Found o n
    → 1 ≤ n
    → n ≤ max_group_members
    → Ensures AreMembers (or_refused members_error o)
or_refused-AreMembers none n h lo hi = Ensures-refused _
or_refused-AreMembers (some members) n (e, h) lo hi = Ensures-ok ((omega arith, omega arith), h)

member_ids-AreMembers : (v : Option Json) → Ensures AreMembers (member_ids_of v)
unfolding member_ids_of
member_ids-AreMembers (some (arr items)) =
    elim (Bool-cases (nat_beq (count_items items) 0 || ltb max_group_members (count_items items))) [
      | inl h ↦ rw h (Ensures-refused _)
      | inr h ↦ rw h (
          or_refused-AreMembers (non_empty_strings items) (count_items items)
            (non_empty_strings-Found items) (ground arith) (ground arith))
    ]
member_ids-AreMembers _ = Ensures-refused _

presence_of-IsSettable : (tag : Option Text) → Ensures IsSettable (presence_of tag)
unfolding presence_of
presence_of-IsSettable tag = search (ensures_rules, tt)

module _ {ℓ} {A : Type ℓ} {P : A → Type 0} where
  target-bind :
      (v : Option Json) {f : MessageTarget → Validation A}
      → ((t : MessageTarget) → InBoundsTarget t → Ensures P (f t))
      → Ensures P (validate_target v >>= f)
  target-bind v k = Ensures-bind InBoundsTarget _ (validate_target-InBounds v) k

  member_ids-bind :
      (v : Option Json) {f : List Text → Validation A}
      → ((ms : List Text) → AreMembers ms → Ensures P (f ms))
      → Ensures P (member_ids_of v >>= f)
  member_ids-bind v k = Ensures-bind AreMembers _ (member_ids-AreMembers v) k

  presence-bind :
      (tag : Option Text) {f : Presence → Validation A}
      → ((p : Presence) → IsSettable p → Ensures P (f p))
      → Ensures P (presence_of tag >>= f)
  presence-bind tag k = Ensures-bind IsSettable _ (presence_of-IsSettable tag) k

ruleset binds = (bounded_string-bind, target-bind, member_ids-bind, presence-bind)

credentials-InBounds :
    (get : Text → Option Json) (build : Text → Text → ClientMessage)
    → ((u p : Text) → Sized max_username_len u → Sized max_password_len p → InBounds (build u p))
    → Ensures InBounds (credentials get build)
unfolding credentials
credentials-InBounds get build h = search (ensures_rules, binds) depth 9

send-InBounds :
    (e : Text) (text target : Option Json)
    → Ensures InBounds (do
      t ← bounded_string max_text_len e text
      to ← validate_target target
      ok (send_message to t))
send-InBounds e text target = search (ensures_rules, binds) depth 9

group-InBounds :
    (e : Text) (name members : Option Json)
    → Ensures InBounds (do
      n ← bounded_string max_group_name_len e name
      ms ← member_ids_of members
      ok (create_group n ms))
group-InBounds e name members = search (ensures_rules, binds) depth 9

presence-InBounds :
    (tag : Option Text) → Ensures InBounds (do p ← presence_of tag; ok (set_presence p))
presence-InBounds tag = search (ensures_rules, binds) depth 9

nickname-InBounds :
    (e : Text) (nickname : Option Json)
    → Ensures InBounds (do n ← bounded_string max_nickname_len e nickname; ok (set_nickname n))
nickname-InBounds e nickname = search (ensures_rules, binds) depth 9

unknown_type-InBounds : (o : Option Text) → Ensures InBounds (unknown_type o)
unfolding unknown_type
unknown_type-InBounds none = Ensures-threw
unknown_type-InBounds (some type) = Ensures-refused _

message_of-InBounds : (get : Text → Option Json) → Ensures InBounds (message_of get)
unfolding message_of
message_of-InBounds get =
    let t = tag_of (get (js "type")) in
    Ensures-if (is_tag t (js "register"))
      (credentials-InBounds get register (λ u p hu hp. (hu, hp)))
      (Ensures-if (is_tag t (js "login")) (credentials-InBounds get login (λ u p hu hp. (hu, hp))) (
        Ensures-if (is_tag t (js "logout")) (Ensures-ok tt) (
          Ensures-if (is_tag t (js "setNickname")) (nickname-InBounds _ _) (
            Ensures-if (is_tag t (js "sendMessage")) (send-InBounds _ _ _) (
              Ensures-if (is_tag t (js "createGroup")) (group-InBounds _ _ _) (
                Ensures-if (is_tag t (js "setPresence")) (presence-InBounds _) (
                  Ensures-if (is_tag t (js "requestState")) (Ensures-ok tt)
                    (unknown_type-InBounds _))))))))

validate-Ensures : (raw : Json) → Ensures InBounds (validate_client_message raw)
unfolding validate_client_message
validate-Ensures raw = Ensures-if _ (message_of-InBounds (field_of raw)) (Ensures-refused _)

-- Whatever JSON value is accepted, every text in the message that it gives has at least one code
-- unit and at most its limit, a group has 1 to 64 non-empty member ids, and the presence is settable.
pub validate-InBounds :
    (raw : Json) (m : ClientMessage) → validate_client_message raw ≡ ok m → InBounds m
validate-InBounds raw m h = (validate-Ensures raw).at m h
