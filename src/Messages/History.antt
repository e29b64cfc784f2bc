-- ===== src/Messages/History.antt =====
-- What a user finds in the history after messages were stored.
use thread_link.Prelude.{
  ◌≡◌, refl, ap, ◌∙◌, Bool, true, false, some, List, [], ◌∷◌, ◌++◌, map, keep, if◌then◌else◌, arith,
  Text,
}
use thread_link.Protocol.{MessageSummary}
use thread_link.Database.{Db, MessageRow, insert_message}
use thread_link.Messages.{Draft, append, row_of, to_summary, is_visible, history_for_user}

keep-append :
    {A : Type 0} (p : A → Bool) (xs : List A) (x : A)
    → keep p (xs ++ x ∷ []) ≡ (if p x then keep p xs ++ x ∷ [] else keep p xs)
unfolding keep
keep-append p [] x = refl
keep-append p (y ∷ xs) x = ground (arith, keep-append p xs x)

map-append :
    {A B : Type 0} (f : A → B) (xs : List A) (x : A) → map f (xs ++ x ∷ []) ≡ map f xs ++ f x ∷ []
map-append f [] x = refl
map-append f (y ∷ xs) x = ap (◌∷◌ (f y)) (map-append f xs x)

append_done :
    (uuid now : Text) (d : Draft) (db db' : Db) (m : MessageSummary)
    → append uuid now d db ≡ some (db', m)
    → let row = row_of uuid now d in
      (db' ≡ record db { messages = db.messages ++ row ∷ [] }) × (m ≡ to_summary row)
unfolding append insert_message
append_done uuid now d db db' m h = ground arith

-- A stored message comes last in the history of exactly the users who see its conversation, as
-- `append` returned it; the others' history is as before. Its time is the latest: ORDER BY puts its
-- row behind the others.
pub history-append :
    (order : List MessageRow → List MessageRow) (user uuid now : Text) (d : Draft) (db db' : Db)
    (m : MessageSummary)
    → append uuid now d db ≡ some (db', m)
    → let row = row_of uuid now d in
      let seen = keep (is_visible user db) db.messages in
      order (seen ++ row ∷ []) ≡ order seen ++ row ∷ []
      → history_for_user order user db' ≡ (
          if is_visible user db row
          then history_for_user order user db ++ m ∷ []
          else history_for_user order user db)
unfolding history_for_user is_visible
history-append order user uuid now d db db' m h k =
    let row = row_of uuid now d in
    let (same_db, same_m) = append_done uuid now d db db' m h in
    rw (same_db, same_m, keep-append (is_visible user db) db.messages row)
      (elim (is_visible user db row)
        as (λ b.
          map to_summary (
            order (
              if b
              then keep (is_visible user db) db.messages ++ row ∷ []
              else keep (is_visible user db) db.messages))
          ≡ (if b
              then map to_summary (order (keep (is_visible user db) db.messages))
                ++ to_summary row ∷ []
              else map to_summary (order (keep (is_visible user db) db.messages)))) [
                | true ↦ ap (map to_summary) k ∙ map-append to_summary _ row
                | false ↦ refl
              ])
