-- ===== src/BackendMessages/Tests.antt =====
-- Tests and examples for the lines of the C++ server.
use thread_link.Prelude.{◌≡◌, refl, [], ◌∷◌, js, ◌==◌, pos, parse_int}
use thread_link.BackendMessages.{list, parse_list, parse_backend_line, split_first, split_spaces}

parse_list_line : parse_backend_line (js "LIST 2 amy bo") ≡ list (pos 2) (js "amy" ∷ js "bo" ∷ [])
unfolding parse_backend_line parse_list split_first split_spaces parse_int ◌==◌
parse_list_line = refl
