-- ===== src/ChatServer/Listing.antt =====
-- The answer to "/list", and what the gateway reads of it.
use mathlib.Core.List.{Perm, append_assoc, append-nil}
use thread_link.Prelude.{
  ℕ, ◌≡◌, refl, sym, ap, ◌∙◌, inl, inr, List, [], ◌∷◌, ◌++◌, arith, Bool-cases, length, keep, All,
  All-imp, Text, js, ◌==◌, lt_text, pos, decimal, drop, decimal-IsDigits, parse-decimal,
}
use thread_link.BackendMessages.{
  space, split_first, split_spaces, parse_list, names_of, parse_backend_line, list,
}
use thread_link.BackendMessages.RoundTrip.{IsWord, split_first-word, split_first_alone}
use thread_link.ChatServer.{ServerConfig, ClientRecord, sending, Input, nicknames}
use thread_link.ChatServer.Commands.{insert_sorted, sort, append_names, list_payload, handle_list}
use thread_link.ChatServer.Threads.{interleave, at_start}
use thread_link.ChatServer.Named.{
  IsName, IsNamed, interleave-IsNamed, IsWord-of_name, IsWord-of_digits,
}
use thread_link.ChatServer.Sorting.{IsAscending, sort-perm, sort-IsAscending}

abbrev words_behind : List Text → Text
words_behind [] = []
words_behind (n ∷ names) = space ∷ n ++ words_behind names

append_names_lem :
    (payload : Text) (names : List Text)
    → append_names payload names ≡ payload ++ words_behind names
unfolding append_names
append_names_lem payload [] = sym (append-nil payload)
append_names_lem payload (n ∷ names) =
    append_names_lem (payload ++ space ∷ n) names
    ∙ append_assoc payload (space ∷ n) (words_behind names)

split_spaces-words :
    (n : Text) (names : List Text)
    → IsWord n
    → All IsWord names
    → split_spaces (n ++ words_behind names) ≡ n ∷ names
unfolding split_spaces
split_spaces-words [] [] h k = refl
split_spaces-words [] (m ∷ names) h (p, k) = ap (◌∷◌ []) (split_spaces-words m names p k)
split_spaces-words (c ∷ n) names (p, h) k = ground (arith, split_spaces-words n names h k)

All-insert_sorted :
    (s : Text) (ts : List Text) → IsName s → All IsName ts → All IsName (insert_sorted s ts)
unfolding insert_sorted
All-insert_sorted s [] n h = (n, tt)
All-insert_sorted s (t ∷ ts) n (p, h) = elim (Bool-cases (lt_text t s)) [
  | inl e ↦ rw e (p, All-insert_sorted s ts n h)
  | inr e ↦ rw e (n, (p, h))
]

All-sort : (ss : List Text) → All IsName ss → All IsName (sort ss)
unfolding sort
All-sort [] h = tt
All-sort (s ∷ ss) (n, h) = All-insert_sorted s (sort ss) n (All-sort ss h)

All-welcomed :
    (cs : List ClientRecord) → All IsNamed cs → All IsName (nicknames (keep (λ c. c.welcomed) cs))
unfolding keep
All-welcomed [] h = tt
All-welcomed (c ∷ cs) (p, h) = elim (Bool-cases c.welcomed) [
  | inl e ↦ rw e (p, All-welcomed cs h)
  | inr e ↦ rw e (All-welcomed cs h)
]

names_of-words :
    (names : List Text) → All IsName names → names_of (drop 1 (words_behind names)) ≡ names
names_of-words [] h = refl
names_of-words ([] ∷ names) (p, h) = absurd p
names_of-words ((c ∷ n) ∷ names) (p, h) =
    split_spaces-words (c ∷ n) names p (All-imp IsName IsWord names IsWord-of_name h)

split_first-count :
    (count : Text) (names : List Text)
    → IsWord count
    → split_first (count ++ words_behind names) ≡ (count, drop 1 (words_behind names))
split_first-count count [] h = ap split_first (append-nil count) ∙ split_first_alone count h
split_first-count count (n ∷ names) h = split_first-word count (n ++ words_behind names) h

parse_list_lem :
    (names : List Text)
    → All IsName names
    → parse_list (decimal (length names) ++ words_behind names) ≡ list (pos (length names)) names
unfolding parse_list
parse_list_lem names h =
    rw
      (
        split_first-count (decimal (length names)) names
            (IsWord-of_digits _ (decimal-IsDigits (length names))),
        parse-decimal (length names),
        names_of-words names h,
      )
      refl

-- The line of "LIST" is read as the number of the names and the names.
parse-list_payload :
    (names : List Text)
    → All IsName names
    → parse_backend_line (list_payload names) ≡ list (pos (length names)) names
unfolding list_payload parse_backend_line split_first ◌==◌
parse-list_payload names h =
    rw (append_names_lem (js "LIST " ++ decimal (length names)) names) (parse_list_lem names h)

-- At any time of any interleaving the answer to "/list" is one line, which the gateway reads as a list
-- of names and their number: the nicknames of the welcomed clients, each as often as it occurs, in
-- ascending order.
pub handle_list_lem :
    (config : ServerConfig) (turns : List (ℕ × Input)) (fd : ℕ)
    → let server = (interleave config turns at_start).0 in
      (payload : Text) × (names : List Text) × (handle_list fd server ≡ sending fd payload ∷ [])
      × (parse_backend_line payload ≡ list (pos (length names)) names)
      × Perm names (nicknames (keep (λ c. c.welcomed) server.clients))
      × IsAscending names
unfolding handle_list
handle_list_lem config turns fd =
    let cs = (interleave config turns at_start).0.clients in
    let shown = nicknames (keep (λ c. c.welcomed) cs) in
    let named = All-sort shown (All-welcomed cs (interleave-IsNamed config turns)) in
    (
      list_payload (sort shown),
      sort shown,
      refl,
      parse-list_payload (sort shown) named,
      sort-perm shown,
      sort-IsAscending shown,
    )
