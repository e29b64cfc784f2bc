-- ===== src/View/Offline.antt =====
-- What the sidebar still does without a connection.
use thread_link.Prelude.{
  ℕ, js, ◌≡◌, refl, ◌⊎◌, inl, inr, Bool, true, false, Option, none, some, List, [], ◌∷◌, ◌++◌, All,
  All-append, arith, Text,
}
use thread_link.Protocol.{Presence}
use thread_link.ChatState.{ChatState, User, Conversation}
use thread_link.Provider.{App, World}
use thread_link.Provider.Actions.{logs_out, opens_public, app_step, start_direct_conversation}
use thread_link.View.{Click, app, Shown, button, Locale, is_up, flat_map}
use thread_link.View.Sidebar.{
  sidebar, direct_rows, group_rows, online_section, footer, section, sidebar_row,
  direct_conversations, group_conversations, direct_label, unread_badge, direct_entry, group_entry,
  closer, badge_of, user_row, no_users, own_dot, filtered_users, presence_dot, peer_in,
}

module _ (world : World) where
  -- The client is left alone by what a click does.
  abbrev pub LeavesClient : Click → Type 0
  LeavesClient (app e) = (a : App) → (app_step world a e).client ≡ a.client
  LeavesClient _ = Unit

  abbrev pub IsSignOut : Click → Type 0
  IsSignOut (app logs_out) = Unit
  IsSignOut _ = ⊥

  -- A button that is enabled signs out, or leaves the client alone.
  abbrev pub IsHarmless : Shown → Type 0
  IsHarmless (button label false click) = IsSignOut click ⊎ LeavesClient click
  IsHarmless _ = Unit

  client-start_direct :
      (peer : Text) (own : Option Text) (a : App)
      → (start_direct_conversation peer own a).client ≡ a.client
  unfolding start_direct_conversation
  client-start_direct peer none a = refl
  client-start_direct peer (some []) a = refl
  client-start_direct peer (some (c ∷ own)) a = ground arith

  All-flat_map :
      {A : Type 0} (f : A → List Shown)
      → ((x : A) → All IsHarmless (f x))
      → (xs : List A) → All IsHarmless (flat_map f xs)
  All-flat_map f h [] = tt
  All-flat_map f h (x ∷ xs) = All-append IsHarmless (f x) _ (h x) (All-flat_map f h xs)

  All-section :
      (title : Text) (rows : List Shown) → All IsHarmless rows → All IsHarmless (section title rows)
  All-section title [] h = tt
  All-section title (row ∷ rows) h = (tt, h)

  badge-IsHarmless : (n : ℕ) → All IsHarmless (badge_of (unread_badge n))
  badge-IsHarmless n = elim (unread_badge n) as (λ o. All IsHarmless (badge_of o)) [
    | none ↦ tt
    | some text ↦ (tt, tt)
  ]

  dot-IsHarmless : (o : Option User) → All IsHarmless (presence_dot o)
  dot-IsHarmless none = tt
  dot-IsHarmless (some u) = (tt, tt)

  row-IsHarmless :
      (label : Text) (badge : List Shown) (c : Conversation)
      → All IsHarmless badge
      → All IsHarmless (sidebar_row label badge c)
  unfolding app_step
  row-IsHarmless label badge c h =
      (inr (λ a. refl), All-append IsHarmless badge _ h (badge-IsHarmless c.unread_count))

  directs-IsHarmless : (state : ChatState) → All IsHarmless (direct_rows state)
  unfolding direct_rows
  directs-IsHarmless state =
      All-section (js "Direct Messages")
        (flat_map (direct_entry state.users) (direct_conversations state))
        (All-flat_map (direct_entry state.users)
          (λ c.
            row-IsHarmless (direct_label state.users c)
              (presence_dot (peer_in state.users c.peer_id)) c
              (dot-IsHarmless (peer_in state.users c.peer_id)))
          (direct_conversations state))

  groups-IsHarmless : (state : ChatState) → All IsHarmless (group_rows state)
  unfolding group_rows
  groups-IsHarmless state =
      All-section (js "Groups") (flat_map group_entry (group_conversations state))
        (All-flat_map group_entry (λ c. row-IsHarmless c.title [] c tt) (group_conversations state))

  users-IsHarmless :
      (locale : Locale) (us : List User) → All IsHarmless (flat_map (user_row locale) us)
  unfolding app_step
  users-IsHarmless locale us =
      All-flat_map (user_row locale)
        (λ u. (inr (λ a. client-start_direct u.id a.state_ref.user_id a), (tt, (tt, (tt, tt))))) us

  no_users-IsHarmless : (b : Bool) (us : List User) → All IsHarmless (no_users b us)
  no_users-IsHarmless b [] = (tt, tt)
  no_users-IsHarmless b (u ∷ us) = tt

  own_dot-IsHarmless : (o : Option Text) (p : Presence) → All IsHarmless (own_dot o p)
  own_dot-IsHarmless none p = tt
  own_dot-IsHarmless (some []) p = tt
  own_dot-IsHarmless (some (c ∷ s)) p = (tt, tt)

  closer-IsHarmless : (mobile : Bool) → All IsHarmless (closer mobile)
  unfolding app_step
  closer-IsHarmless true = (inr (λ a. refl), tt)
  closer-IsHarmless false = tt

  module _ (state : ChatState) (offline : is_up state.connection_status ≡ false) where
    online-IsHarmless :
        (locale : Locale) (query : Text) → All IsHarmless (online_section locale query state)
    unfolding online_section
    online-IsHarmless locale query =
        let users = filtered_users locale query state in
        rw offline (
          tt,
          (
            tt,
            (
              tt,
              All-append IsHarmless (no_users (is_up state.connection_status) users)
                  (flat_map (user_row locale) users)
                  (no_users-IsHarmless (is_up state.connection_status) users)
                  (users-IsHarmless locale users),
            ),
          ),
        )

    footer-IsHarmless : (locale : Locale) → All IsHarmless (footer locale state)
    unfolding footer
    footer-IsHarmless locale = rw offline (
      tt,
      All-append IsHarmless (own_dot state.user_id state.presence) _
          (own_dot-IsHarmless state.user_id state.presence)
          (tt, (tt, (tt, (tt, (tt, (inl tt, tt)))))),
    )

    -- While the application is not connected, every enabled button of the sidebar but "Sign out" leaves
    -- the client alone: nothing is sent or connected, whatever the rest of the state.
    pub sidebar-IsHarmless :
        (locale : Locale) (mobile : Bool) (query : Text)
        → All IsHarmless (sidebar locale mobile query state)
    unfolding sidebar app_step
    sidebar-IsHarmless locale mobile query =
        let lower = online_section locale query state ++ footer locale state in
        let rows = direct_rows state ++ (group_rows state ++ lower) in
        (
          tt,
          (
            tt,
            All-append IsHarmless (closer mobile)
                (button (js "Public Chat") false (app opens_public) ∷ rows)
                (closer-IsHarmless mobile)
                (
                  inr (λ a. refl),
                  All-append IsHarmless (direct_rows state) (group_rows state ++ lower)
                      (directs-IsHarmless state)
                      (All-append IsHarmless (group_rows state) lower (groups-IsHarmless state) (
                        All-append IsHarmless (online_section locale query state)
                          (footer locale state) (online-IsHarmless locale query)
                          (footer-IsHarmless locale))),
                ),
          ),
        )
