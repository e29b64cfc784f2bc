-- ===== src/Config.antt =====
-- gateway/src/config.ts: the configuration, from the variables of the process. `toLowerCase` is an
-- argument. Warnings are not modelled.
pub mod Ranges
mod Tests
use thread_link.Prelude.{
  ℕ, ◌*◌, Bool, true, false, ◌||◌, Option, none, some, List, [], ◌∷◌, ltb, if◌then◌else◌, Text, js,
  ◌==◌, ℤ, pos, negsuc, trim, parse_int,
}

pub data LogLevel : Type 0 where
  debug info warn error : LogLevel

pub record GatewayConfig : Type 0 where
  pub gateway_port : ℕ
  pub backend_host : Text
  pub backend_port : ℕ
  pub max_client_message_bytes : ℕ
  pub backend_max_message_bytes : ℕ
  pub log_level : LogLevel
  pub db_path : Text

abbrev pub defaults : GatewayConfig
defaults = record {
  gateway_port = 8081;
  backend_host = js "127.0.0.1";
  backend_port = 8080;
  max_client_message_bytes = 16 * 1024;
  backend_max_message_bytes = 8192;
  log_level = info;
  db_path = js "./threadlink.db";
}

-- `process.env`
abbrev pub Variables : Type 0
Variables = Text → Option Text

-- A value out of range, or NaN, gives the fallback. `min` is not negative.
abbrev in_range : Option ℤ → ℕ → ℕ → ℕ → ℕ
in_range none fallback min max = fallback
in_range (some (negsuc n)) fallback min max = fallback
in_range (some (pos n)) fallback min max = if ltb n min || ltb max n then fallback else n

unfoldable pub int_from_env : Variables → Text → ℕ → ℕ → ℕ → ℕ
int_from_env variables name fallback min max = elim (variables name) [
  | none ↦ fallback
  | some raw ↦ if raw == [] then fallback else in_range (parse_int raw) fallback min max
]

abbrev or_empty : Option Text → Text
or_empty none = []
or_empty (some s) = s

unfoldable pub log_level_from_env : (Text → Text) → Variables → LogLevel → LogLevel
log_level_from_env to_lower_case variables fallback =
    let raw = to_lower_case (or_empty (variables (js "LOG_LEVEL"))) in
    if raw == js "debug"
    then debug
    else if raw == js "info"
    then info
    else if raw == js "warn"
    then warn
    else if raw == js "error"
    then error
    else fallback

-- `process.env.NAME?.trim() || fallback`
abbrev trimmed_or : Option Text → Text → Text
trimmed_or none fallback = fallback
trimmed_or (some s) fallback = if trim s == [] then fallback else trim s

unfoldable pub load_config : (Text → Text) → Variables → GatewayConfig
load_config to_lower_case variables = record {
  gateway_port = int_from_env variables (js "GATEWAY_PORT") defaults.gateway_port 1 65535;
  backend_host = trimmed_or (variables (js "BACKEND_HOST")) defaults.backend_host;
  backend_port = int_from_env variables (js "BACKEND_PORT") defaults.backend_port 1 65535;
  max_client_message_bytes =
      int_from_env variables (js "MAX_CLIENT_MESSAGE_BYTES") defaults.max_client_message_bytes 64
        (1024 * 1024);
  backend_max_message_bytes =
      int_from_env variables (js "BACKEND_MAX_MESSAGE_BYTES") defaults.backend_max_message_bytes 64
        (16 * 1024 * 1024);
  log_level = log_level_from_env to_lower_case variables defaults.log_level;
  db_path = trimmed_or (variables (js "DB_PATH")) defaults.db_path;
}
