-- ===== src/Transport/Retries.antt =====
-- How often a client tries again, and how long it waits.
use native.Mathlib.Nat.{pow-suc}
use thread_link.Prelude.{
  ℕ, zero, suc, ◌+◌, ◌≡◌, subst, ◌≤◌, ◌^◌, ◌*◌, true, false, none, List, [], ◌∷◌, arith,
  if◌then◌else◌, ltb,
}
use thread_link.ChatState.{disconnected, failed}
use thread_link.Transport.{
  Client, Browser, connect, make_socket, close_socket, clear_reconnect_timer, on_close,
  schedule_reconnect, delay_after,
}
use thread_link.Transport.Machine.{Event, timer_fired, closed, is_current, step, run}

-- The WebSocket `n` is lost, and so is each that the timer makes after it.
abbrev pub failing : ℕ → ℕ → List Event
failing n zero = closed n ∷ []
failing n (suc m) = closed n ∷ timer_fired ∷ failing (suc n) m

-- A client with the WebSocket `n`, the last that was made, and `m` attempts left.
pub record IsTrying (n m : ℕ) (c : Client) : Type 0 where
  pub current : is_current c.socket n ≡ true
  pub last : c.made ≡ suc n
  pub enabled : c.reconnect_enabled ≡ true
  pub no_timer : c.reconnect_timer ≡ false
  pub not_intentional : c.intentional_close ≡ false
  pub left : c.reconnect_attempts + m ≡ c.max_reconnect_attempts

round-IsTrying :
    (browser : Browser) (n m : ℕ) (c : Client)
    → browser.refusal (suc n) ≡ none
    → IsTrying n (suc m) c
    → IsTrying (suc n) m (step browser (step browser c (closed n)) timer_fired)
unfolding step on_close schedule_reconnect connect make_socket close_socket clear_reconnect_timer
round-IsTrying browser n m c r h = ground arith

max-round :
    (browser : Browser) (n m : ℕ) (c : Client)
    → IsTrying n (suc m) c
    → (step browser (step browser c (closed n)) timer_fired).max_reconnect_attempts
      ≡ c.max_reconnect_attempts
unfolding step on_close schedule_reconnect connect make_socket close_socket clear_reconnect_timer
max-round browser n m c h = ground arith

-- What the client is when it has given up.
pub record HasGivenUp (max made : ℕ) (c : Client) : Type 0 where
  pub no_socket : c.socket ≡ none
  pub no_timer : c.reconnect_timer ≡ false
  pub gave_up : c.status ≡ (if ltb 0 max then failed else disconnected)
  pub all_made : c.made ≡ made

last-HasGivenUp :
    (browser : Browser) (n : ℕ) (c : Client)
    → IsTrying n 0 c
    → HasGivenUp c.max_reconnect_attempts (suc n) (step browser c (closed n))
unfolding step on_close schedule_reconnect
last-HasGivenUp browser n c h = ground arith

-- If every connection that a client makes is lost, the client gives up: after as many further
-- WebSockets as attempts are left it has neither a WebSocket nor a timer, and says "failed", or
-- "disconnected" where no attempts are allowed at all. No `new WebSocket` throws.
pub run-failing :
    (browser : Browser) (n m : ℕ) (c : Client)
    → ((k : ℕ) → browser.refusal k ≡ none)
    → IsTrying n m c
    → HasGivenUp c.max_reconnect_attempts (suc n + m) (run browser c (failing n m))
unfolding run
run-failing browser n zero c r h =
    subst (λ k. HasGivenUp c.max_reconnect_attempts k (step browser c (closed n))) (omega arith)
      (last-HasGivenUp browser n c h)
run-failing browser n (suc m) c r h =
    let c' = step browser (step browser c (closed n)) timer_fired in
    let rest = run-failing browser (suc n) m c' r (round-IsTrying browser n m c (r (suc n)) h) in
    subst (λ k. HasGivenUp k (suc n + suc m) (run browser c' (failing (suc n) m)))
      (max-round browser n m c h)
      (subst (λ k. HasGivenUp c'.max_reconnect_attempts k (run browser c' (failing (suc n) m)))
        (omega arith) rest)

pow_pos : (k : ℕ) → 1 ≤ 2 ^ k
pow_pos zero = omega arith
pow_pos (suc k) = omega (arith, pow-suc 2 k, pow_pos k)

-- The wait doubles from a second on and is never more than ten.
pub delay_after_bounds :
    (k : ℕ)
    → (1000 ≤ delay_after (suc k))
      × (delay_after (suc k) ≤ 10000)
      × (delay_after (suc k) ≤ delay_after (suc (suc k)))
      × (delay_after (suc (suc k)) ≤ 2 * delay_after (suc k))
delay_after_bounds k = ground (arith, pow_pos k, pow-suc 2 k)
