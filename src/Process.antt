-- ===== src/Process.antt =====
-- gateway/src/index.ts: the process of the gateway from its start to its exit.
use thread_link.Prelude.{
  ℕ, ◌≡◌, Bool, true, false, Option, none, some, List, [], ◌∷◌, ◌++◌, arith, if◌then◌else◌, Text,
  js,
}
use thread_link.Config.{LogLevel, info, error}
use thread_link.Gateway.{Gateway}
use thread_link.Gateway.Login.{close}

pub record Process : Type 0 where
  pub gateway : Gateway
  pub shutting_down : Bool
  pub database_open : Bool
  pub exit_code : Option ℕ
  -- what was given to the logger
  pub logged : List (LogLevel × Text)

unfoldable pub start_process : Gateway → Process
start_process gateway = record {
  gateway = gateway;
  shutting_down = false;
  database_open = true;
  exit_code = none;
  logged = [];
}

abbrev logs : LogLevel → Text → Process → Process
logs level msg p = record p { logged = p.logged ++ (level, msg) ∷ [] }

-- `shutdown` up to `await server.close()`.
unfoldable pub shutdown : Text → Process → Process
shutdown signal p =
    if p.shutting_down
    then p
    else (let p' =
          logs info (signal ++ js " received, shutting down gateway...")
            (record p { shutting_down = true }) in
        record p' { gateway = close p'.gateway })

abbrev fail : Text → Process → Process
fail err p = record (logs error (js "Error during shutdown: " ++ err) p) { exit_code = some 1 }

-- `shutdown` from there on: with the error of `server.close()`, and that of `db.close()`, if any.
unfoldable pub shut_down : Option Text → Option Text → Process → Process
shut_down (some err) _ p = fail err p
shut_down none (some err) p = fail err p
shut_down none none p =
    record (logs info (js "Gateway shut down cleanly.") (record p { database_open = false })) {
      exit_code = some 0;
    }

-- A second signal does nothing, whichever it is.
pub shutdown_again : (s t : Text) (p : Process) → shutdown t (shutdown s p) ≡ shutdown s p
unfolding shutdown
shutdown_again s t p = ground arith
