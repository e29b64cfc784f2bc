-- ===== src/View/Groups.antt =====
-- The dialog for a new group, from its checkboxes to the gateway.
use thread_link.Prelude.{
  ℕ, ◌≡◌, sym, ap, ◌∙◌, ◌≤◌, ◌↔◌, true, false, not, some, List, [], ◌∷◌, ◌++◌, arith, All,
  if◌then◌else◌, length, Text, trim, includes, keep, ◌==◌, trim_idem, eq_iff, eq_comm,
}
use thread_link.Protocol.{create_group}
use thread_link.ClientProtocol.{ok, validate_client_message}
use thread_link.ClientProtocol.Bounds.{IsNonEmpty}
use thread_link.ClientProtocol.RoundTrip.{to_json, validate-to_json_iff}
use thread_link.ChatState.{mark_pending_group_creation}
use thread_link.Transport.{Client, open_number}
use thread_link.Provider.{App, dispatch}
use thread_link.Provider.Actions.{new_group}
use thread_link.View.Composing.{having_sent, send_now_lem}
use thread_link.View.Forms.{NewGroupForm, toggle, submit_group, can_create}

includes-keep :
    (id other : Text) (ids : List Text)
    → includes (keep (λ x. not (x == id)) ids) other
      ≡ (if other == id then false else includes ids other)
unfolding includes keep
includes-keep id other [] = ground arith
includes-keep id other (x ∷ ids) =
    ground (arith, includes-keep id other ids, eq_iff x id, eq_iff x other, eq_iff other id)

includes-append :
    (ids : List Text) (id other : Text)
    → includes (ids ++ id ∷ []) other ≡ (if other == id then true else includes ids other)
unfolding includes
includes-append [] id other = ground (arith, eq_comm id other)
includes-append (x ∷ ids) id other = ground (arith, includes-append ids id other)

-- A click on a checkbox turns the selection of its user round, and leaves everybody else's as it is.
pub includes-toggle :
    (id other : Text) (ids : List Text)
    → includes (toggle id ids) other
      ≡ (if other == id then not (includes ids id) else includes ids other)
unfolding toggle
includes-toggle id other ids =
    ground (arith, includes-keep id other ids, includes-append ids id other)

-- What the dialog creates, with a name and members chosen and a connection: one request for the group
-- goes out, with the name without the blanks around it, and the application waits for the group. The
-- gateway accepts it exactly when the name has at most 48 code units and at most 64 users are selected,
-- if no id is empty: the dialog does not check that.
pub submit_group_lem :
    (form : NewGroupForm) (a : App) (c : Client) (n u : ℕ) (us m : Text) (ms : List Text)
    → a.client ≡ some c
    → open_number c.socket ≡ some n
    → trim form.name ≡ u ∷ us
    → form.selected ≡ m ∷ ms
    → All IsNonEmpty (m ∷ ms)
    → let request = create_group (u ∷ us) (m ∷ ms) in
      (submit_group form a ≡ having_sent n request c (dispatch mark_pending_group_creation a))
      × ((validate_client_message (to_json request) ≡ ok request)
          ↔ ((length (u ∷ us) ≤ 48) × (length (m ∷ ms) ≤ 64)))
unfolding submit_group can_create new_group
submit_group_lem form a c n u us m ms e o named chosen ids =
    let request = create_group (u ∷ us) (m ∷ ms) in
    let again : trim (u ∷ us) ≡ u ∷ us = ap trim (sym named) ∙ trim_idem form.name ∙ named in
    let (forth, back) = validate-to_json_iff request in
    (
      ground (arith, again, send_now_lem request (dispatch mark_pending_group_creation a) c n e o),
      (
        (λ h. let ((_, short), ((_, few), _)) = forth h in (short, few)),
        (λ h. let (short, few) = h in back ((omega arith, short), ((omega arith, few), ids))),
      ),
    )
