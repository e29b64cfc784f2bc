-- ===== src/Provider/Invariant.antt =====
-- The browser's state under everything that the application does.
use thread_link.Prelude.{
  Bool, true, false, Option, none, some, List, [], ◌∷◌, All, arith, if◌then◌else◌, Text,
}
use thread_link.Protocol.{ServerMessage, ready, conversation_created}
use thread_link.ClientProtocol.Values.{Json}
use thread_link.ChatState.{ChatAction, ready_received, conversation_announced}
use thread_link.ChatState.Reducer.Keyed.{IsKeyed, IsSound, chat_reducer-IsKeyed}
use thread_link.ChatState.Reducer.Shown.{IsShown, chat_reducer-IsShown}
use thread_link.Transport.{
  Client, Browser, Output, status_changed, event_raised, error_raised, socket_made, socket_closed,
  sent, timer_set, timer_cleared, connect, make_socket, close_socket, clear_reconnect_timer,
  on_message, parse_inbound, on_open, on_error, on_close, schedule_reconnect, send,
  is_server_message, raise_event,
}
use thread_link.Transport
use thread_link.Transport.Machine
use thread_link.Provider.{App, dispatch, with_client}

-- What the gateway announces: a conversation of kind "public" under the public id only.
abbrev pub IsSoundMessage : ServerMessage → Type 0
IsSoundMessage (ready r) = IsSound (ready_received r)
IsSoundMessage (conversation_created c) = IsSound (conversation_announced c)
IsSoundMessage _ = Unit

abbrev pub IsSoundOutput : Output → Type 0
IsSoundOutput (event_raised m) = IsSoundMessage m
IsSoundOutput _ = Unit

-- Every conversation is kept under its id; the shown one is there and has nothing unread.
pub record Fine (app : App) : Type 0 where
  pub keyed : IsKeyed app.state.conversations
  pub shown : IsShown app.state.active_conversation_id app.state.conversations

pub Fine-dispatch : (a : ChatAction) (app : App) → Fine app → IsSound a → Fine (dispatch a app)
Fine-dispatch a app h s = record {
  keyed = chat_reducer-IsKeyed app.state a h.keyed s;
  shown = chat_reducer-IsShown app.state a h.shown s;
}

pub Fine-if : (b : Bool) (x y : App) → Fine x → Fine y → Fine (if b then x else y)
Fine-if true x y h k = h
Fine-if false x y h k = k

pub Fine-client :
    (c : Client) (os : List Output) (app : App) → Fine app → Fine (with_client c os app)
Fine-client c os app h = record { keyed = h.keyed; shown = h.shown }

pub log-connect :
    (browser : Browser) (c : Client)
    → All IsSoundOutput (connect browser (record c { log = [] })).log
unfolding connect make_socket close_socket clear_reconnect_timer
log-connect browser c = ground arith

All-if :
    (b : Bool) (x y : Client)
    → All IsSoundOutput x.log
    → All IsSoundOutput y.log
    → All IsSoundOutput (if b then x else y).log
All-if true x y h k = h
All-if false x y h k = k

module _ (browser : Browser)
    (sound : (j : Json) → IsSoundMessage (browser.as_server_message j)) where
  abbrev IsSoundOption : Option ServerMessage → Type 0
  IsSoundOption none = Unit
  IsSoundOption (some m) = IsSoundMessage m

  parsed_sound : (text : Text) → IsSoundOption (parse_inbound browser text)
  unfolding parse_inbound
  parsed_sound text = go (browser.parse_json text)
    where
      go :
          (o : Option Json)
          → IsSoundOption (elim o [
            | none ↦ none
            | some j ↦
                if is_server_message browser j then some (browser.as_server_message j) else none
          ])
      go none = tt
      go (some j) =
          elim (is_server_message browser j)
            as (λ b. IsSoundOption (if b then some (browser.as_server_message j) else none)) [
              | true ↦ sound j
              | false ↦ tt
            ]

  log-raise :
      (o : Option ServerMessage) (c : Client)
      → IsSoundOption o
      → All IsSoundOutput (raise_event browser o (record c { log = [] })).log
  log-raise none c h = tt
  log-raise (some m) c h = (h, tt)

  log-on_message :
      (d : Option Text) (c : Client)
      → All IsSoundOutput (on_message browser d (record c { log = [] })).log
  unfolding on_message
  log-on_message none c = tt
  log-on_message (some []) c = tt
  log-on_message (some (u ∷ text)) c =
      log-raise (parse_inbound browser (u ∷ text)) c (parsed_sound (u ∷ text))

  pub log-step :
      (c : Client) (e : Machine.Event)
      → All IsSoundOutput (Machine.step browser (record c { log = [] }) e).log
  unfolding Machine.step
  log-step c Machine.connect_called = log-connect browser c
  log-step c Machine.disconnect_called =
      unfold Transport.disconnect close_socket clear_reconnect_timer in ground arith
  log-step c (Machine.send_called m) = unfold send in ground arith
  log-step c Machine.timer_fired = All-if c.reconnect_timer _ _ (log-connect browser c) tt
  log-step c (Machine.opened n) = unfold on_open in ground arith
  log-step c (Machine.closing n) = ground arith
  log-step c (Machine.errored n) = unfold on_error in ground arith
  log-step c (Machine.received n d) =
      All-if (Machine.is_current c.socket n) _ _ (log-on_message d c) tt
  log-step c (Machine.closed n) = unfold on_close schedule_reconnect in ground arith
