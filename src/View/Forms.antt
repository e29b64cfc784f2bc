-- ===== src/View/Forms.antt =====
-- frontend/components/LoginScreen.tsx, NicknameModal.tsx and NewGroupModal.tsx.
use thread_link.Prelude.{
  Bool, false, not, ◌&&◌, ◌||◌, Option, none, some, List, [], ◌∷◌, ◌++◌, keep, if◌then◌else◌,
  length, Text, js, ◌==◌, decimal, trim, includes,
}
use thread_link.ChatState.{User, ChatState}
use thread_link.Provider.{App, World}
use thread_link.Provider.Actions.{
  register_user, login_user, change_nickname, new_group, opens_nickname, opens_new_group,
}
use thread_link.Provider.Reads.{online_users}
use thread_link.View.{
  Mode, login_mode, register_mode, app, chooses_mode, submits, toggles, Shown, says, button, field,
  checkbox, Locale, is_nil, flat_map, initial,
}

-- The state of LoginScreen.
pub record LoginForm : Type 0 where
  pub mode : Mode
  pub username : Text
  pub password : Text

abbrev authenticate_as : Mode → World → Text → Text → App → App
authenticate_as login_mode world username password a = login_user world username password a
authenticate_as register_mode world username password a = register_user world username password a

unfoldable pub cannot_submit : LoginForm → Bool
cannot_submit form = is_nil (trim form.username) || is_nil form.password

-- `handleSubmit`
unfoldable pub handle_submit : World → LoginForm → App → App
handle_submit world form a =
    if cannot_submit form
    then a
    else authenticate_as form.mode world (trim form.username) form.password a

abbrev by_mode : Mode → Text → Text → Text
by_mode login_mode s t = s
by_mode register_mode s t = t

abbrev alert : Option Text → List Shown
alert none = []
alert (some []) = []
alert (some (c ∷ s)) = says (c ∷ s) ∷ []

unfoldable pub login_screen : LoginForm → ChatState → List Shown
login_screen form state =
    let is_busy = state.authenticating in
    says (js "ThreadLink")
      ∷ says (
          by_mode form.mode (js "Sign in to continue the conversation.")
            (js "Create an account to get started."))
      ∷ button (js "Switch to sign in") false (chooses_mode login_mode)
      ∷ button (js "Switch to create account") false (chooses_mode register_mode)
      ∷ field (js "Choose a username") form.username is_busy
      ∷ field (by_mode form.mode (js "Your password") (js "At least 8 characters")) form.password
          is_busy
      ∷ alert state.auth_error
    ++ button
        (if is_busy
          then by_mode form.mode (js "Signing in…") (js "Creating account…")
          else by_mode form.mode (js "Sign in") (js "Create account"))
        (is_busy || cannot_submit form) submits
      ∷ []

-- The dialog for the nickname, with the text of its field.
unfoldable pub nickname_modal : Text → ChatState → List Shown
nickname_modal value state =
    if state.nickname_modal_open
    then button (js "Close nickname dialog") false (app (opens_nickname false))
        ∷ says (js "Change nickname")
        ∷ says (js "This updates your display name for everyone in the chat.")
        ∷ button (js "Close") false (app (opens_nickname false))
        ∷ field (js "Nickname") value false
        ∷ alert state.last_error
      ++ button (js "Cancel") false (app (opens_nickname false))
        ∷ button (js "Save") false submits
        ∷ []
    else []

unfoldable pub submit_nickname : Text → App → App
submit_nickname value a = change_nickname value a

-- The state of the dialog for a new group: `selected` is a Set, in the order of insertion.
pub record NewGroupForm : Type 0 where
  pub name : Text
  pub selected : List Text

abbrev pub new_group_form : NewGroupForm
new_group_form = record { name = []; selected = [] }

unfoldable pub toggle : Text → List Text → List Text
toggle id selected =
    if includes selected id then keep (λ other. not (other == id)) selected else selected ++ id ∷ []

unfoldable pub can_create : NewGroupForm → Bool
can_create form = not (is_nil (trim form.name)) && not (is_nil form.selected)

unfoldable pub submit_group : NewGroupForm → App → App
submit_group form a = if can_create form then new_group (trim form.name) form.selected a else a

abbrev candidate : Locale → NewGroupForm → User → List Shown
candidate locale form u =
    checkbox u.nickname (includes form.selected u.id) (toggles u.id)
    ∷ says (initial locale u.nickname)
    ∷ []

abbrev candidates : Locale → NewGroupForm → List User → List Shown
candidates locale form [] = says (js "No other users are online right now.") ∷ []
candidates locale form (u ∷ us) = flat_map (candidate locale form) (u ∷ us)

unfoldable pub new_group_modal : Locale → NewGroupForm → ChatState → List Shown
new_group_modal locale form state =
    if state.new_group_modal_open
    then button (js "Close new group dialog") false (app (opens_new_group false))
        ∷ says (js "New group")
        ∷ says (js "Only online users can be added right now.")
        ∷ button (js "Close") false (app (opens_new_group false))
        ∷ field (js "Group name") form.name false
        ∷ says (js "Members (" ++ (decimal (length form.selected) ++ js " selected)"))
        ∷ candidates locale form (online_users state)
      ++ button (js "Cancel") false (app (opens_new_group false))
        ∷ button (js "Create group") (not (can_create form)) submits
        ∷ []
    else []

-- ChatApp.tsx: the layout for a user, the login screen for nobody.
unfoldable pub chat_app : List Shown → LoginForm → ChatState → List Shown
chat_app layout form state = elim state.user_id [
  | none ↦ login_screen form state
  | some id ↦ if is_nil id then login_screen form state else layout
]
