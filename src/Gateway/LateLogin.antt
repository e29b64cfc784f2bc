-- ===== src/Gateway/LateLogin.antt =====
-- A `handleAuth` that goes on after its WebSocket has closed.
use thread_link.Prelude.{ℕ, ◌≡◌, true, false, some, arith, eq_refl, get-put}
use thread_link.Users.{UserRecord}
use thread_link.Sessions.{find_session, add, create_backend_connection}
use thread_link.Gateway.{Gateway}
use thread_link.Gateway.Login.{is_in_use, sign_in, on_client_closed}

-- If the WebSocket of a session closes while its login waits for scrypt, and the account is not in
-- use, the login still puts the session into the roster, and the session's `onClientClosed`, called
-- again, leaves it there.
pub sign_in-closed :
    (r : ℕ) (account : UserRecord) (g : Gateway)
    → (g.heap r).closed ≡ true
    → is_in_use (find_session account.id g.roster) g.heap ≡ false
    → find_session account.id (on_client_closed r (sign_in r account g)).roster ≡ some r
unfolding sign_in on_client_closed find_session add create_backend_connection
sign_in-closed r account g h k =
    ground (arith, eq_refl account.id, get-put account.id account.id r g.roster)
