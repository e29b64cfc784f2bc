-- ===== src/Conversations/DirectId.antt =====
-- The id of a direct conversation does not depend on the order of its members, and determines them.
use thread_link.Prelude.{
  ◌≡◌, refl, ◌≢◌, ◌⊎◌, inl, inr, Bool-cases, [], ◌∷◌, ◌++◌, Text, js, lt_text, lt_text_asymm,
  lt_text_total, All,
}
use thread_link.Conversations.{direct_conversation_id}

-- The id is the same whichever member is named first.
pub direct_conversation_id_comm :
    (a b : Text) → direct_conversation_id a b ≡ direct_conversation_id b a
unfolding direct_conversation_id
direct_conversation_id_comm a b = elim (Bool-cases (lt_text a b)) [
  | inl h ↦ rw (h, lt_text_asymm a b h)
  | inr h ↦ elim (Bool-cases (lt_text b a)) [
    | inl k ↦ rw (h, k)
    | inr k ↦ rw (lt_text_total a b h k)
  ]
]

-- No ":" in it, as in a UUID and in a username.
abbrev pub IsColonFree : Text → Type 0
IsColonFree s = All (λ c. c ≢ b':') s

split_unique :
    (a b c d : Text)
    → IsColonFree a
    → IsColonFree c
    → a ++ b':' ∷ b ≡ c ++ b':' ∷ d
    → (a ≡ c) × (b ≡ d)
split_unique [] b [] d ha hc e = (refl, cc)
split_unique [] b (x ∷ c) d ha (p, hc) e = absurd (p (cc))
split_unique (x ∷ a) b [] d (p, ha) hc e = absurd (p (cc))
split_unique (x ∷ a) b (y ∷ c) d (p, ha) (q, hc) e =
    let (same, rest) = split_unique a b c d ha hc (cc) in (cc, rest)

joined : Text → Text → Text
joined a b = js "direct:" ++ (a ++ b':' ∷ b)

joined_inj :
    (a b c d : Text) → IsColonFree a → IsColonFree c → joined a b ≡ joined c d → (a ≡ c) × (b ≡ d)
unfolding joined
joined_inj a b c d ha hc e = split_unique a b c d ha hc (cc)

joined_cases :
    (a b : Text)
    → (direct_conversation_id a b ≡ joined a b) ⊎ (direct_conversation_id a b ≡ joined b a)
unfolding direct_conversation_id joined
joined_cases a b = elim (Bool-cases (lt_text b a)) [ inl h ↦ inr (rw h) | inr h ↦ inl (rw h) ]

-- Ids without ":" in them are the same pair, in one order or the other, if their direct
-- conversations have one id.
pub direct_conversation_id_inj :
    (a b c d : Text)
    → IsColonFree a
    → IsColonFree b
    → IsColonFree c
    → IsColonFree d
    → direct_conversation_id a b ≡ direct_conversation_id c d
    → ((a ≡ c) × (b ≡ d)) ⊎ ((a ≡ d) × (b ≡ c))
direct_conversation_id_inj a b c d ha hb hc hd e = elim (joined_cases a b) [
  | inl x ↦ elim (joined_cases c d) [
    | inl y ↦ inl (joined_inj a b c d ha hc (cc))
    | inr y ↦ inr (joined_inj a b d c ha hd (cc))
  ]
  | inr x ↦ elim (joined_cases c d) [
    | inl y ↦ let (p, q) = joined_inj b a c d hb hc (cc) in inr (q, p)
    | inr y ↦ let (p, q) = joined_inj b a d c hb hd (cc) in inl (q, p)
  ]
]
