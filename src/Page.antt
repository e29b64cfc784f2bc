-- ===== src/Page.antt =====
-- frontend/lib/storage.ts, frontend/lib/id.ts and frontend/hooks/useAutoScroll.ts: what the page keeps
-- beside the state.
use thread_link.Prelude.{
  ℕ, suc, ◌+◌, ◌≡◌, Bool, true, Option, none, some, [], ◌∷◌, ◌++◌, leb, if◌then◌else◌, Text, js,
  trim, decimal, Dict, get, put, get-put, trim_idem, ap, ◌∙◌, ◌-◌, ◌==◌,
}

-- `window.localStorage`: there is no window on the server, and in a browser it may throw.
pub data Storage : Type 0 where
  no_window throwing : Storage
  working : Dict Text → Storage

abbrev or_default : Text → Text
or_default [] = js "ws://127.0.0.1:8081"
or_default (c ∷ s) = c ∷ s

abbrev trimmed : Option Text → Text
trimmed none = []
trimmed (some s) = trim s

-- `getGatewayUrl` on the build's variable.
unfoldable pub get_gateway_url : Option Text → Text
get_gateway_url variable = or_default (trimmed variable)

abbrev pub username_storage_key : Text
username_storage_key = js "threadlink.lastUsername"

unfoldable pub load_last_username : Storage → Text
load_last_username no_window = []
load_last_username throwing = []
load_last_username (working items) = trimmed (get username_storage_key items)

unfoldable pub save_last_username : Text → Storage → Storage
save_last_username username no_window = no_window
save_last_username username throwing = throwing
save_last_username username (working items) = working (put username_storage_key username items)

-- `createId` at the time in milliseconds, with the counter before it, and after it.
unfoldable pub create_id : Text → ℕ → ℕ → Text × ℕ
create_id prefix time counter =
    let n = suc counter in (prefix ++ (js "-" ++ (decimal time ++ (js "-" ++ decimal n))), n)

-- Whether the container is pinned to its bottom, how far it is scrolled, and how high it and its part
-- in sight are.
pub record Scroll : Type 0 where
  pub pinned : Bool
  pub scroll_top : ℕ
  pub scroll_height : ℕ
  pub client_height : ℕ

unfoldable pub handle_scroll : ℕ → ℕ → Scroll → Scroll
handle_scroll threshold top s = record s {
  scroll_top = top;
  pinned = leb s.scroll_height (top + s.client_height + threshold);
}

-- `scrollTo` with the whole height: the browser stops where the last part is in sight.
unfoldable pub scroll_to_bottom : Scroll → Scroll
scroll_to_bottom s = record s { scroll_top = s.scroll_height - s.client_height; pinned = true }

-- The effect of a new message, which makes the content that much higher.
unfoldable pub on_new_message : ℕ → Scroll → Scroll
on_new_message more s =
    let s' = record s { scroll_height = s.scroll_height + more } in
    if s'.pinned then scroll_to_bottom s' else s'

-- What was saved is what is filled in, without the blanks around it, where the storage works; and saving
-- that changes nothing more of it.
pub load-save :
    (username : Text) (items : Dict Text)
    → (load_last_username (save_last_username username (working items)) ≡ trim username)
      × (load_last_username (save_last_username (trim username) (working items)) ≡ trim username)
unfolding load_last_username save_last_username ◌==◌
load-save username items = (
  ap trimmed (get-put username_storage_key username_storage_key username items),
  ap trimmed (get-put username_storage_key username_storage_key (trim username) items)
      ∙ trim_idem username,
)
