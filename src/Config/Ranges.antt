-- ===== src/Config/Ranges.antt =====
-- Whatever the process's variables hold, the loaded numbers are in their ranges.
use thread_link.Prelude.{
  ℕ, ◌*◌, ◌≤◌, none, some, arith, Text, js, ℤ, pos, negsuc, parse_int, Option,
}
use thread_link.Config.{Variables, int_from_env, in_range, load_config}

abbrev pub Within : ℕ → ℕ → ℕ → Type 0
Within lo hi n = (lo ≤ n) × (n ≤ hi)

in_range-Within :
    (value : Option ℤ) (fallback lo hi : ℕ)
    → Within lo hi fallback
    → Within lo hi (in_range value fallback lo hi)
in_range-Within none fallback lo hi h = h
in_range-Within (some (negsuc n)) fallback lo hi h = h
in_range-Within (some (pos n)) fallback lo hi h = ground arith

int_from_env-Within :
    (variables : Variables) (name : Text) (fallback lo hi : ℕ)
    → Within lo hi fallback
    → Within lo hi (int_from_env variables name fallback lo hi)
unfolding int_from_env
int_from_env-Within variables name fallback lo hi h =
    ground (arith, λ (raw : Text). in_range-Within (parse_int raw) fallback lo hi h)

-- Whatever the variables hold, the ports are between 1 and 65535 and the message sizes between 64
-- bytes and 1 MiB, or 16 MiB towards the backend.
pub load_config-Within :
    (to_lower_case : Text → Text) (variables : Variables)
    → let config = load_config to_lower_case variables in
      Within 1 65535 config.gateway_port
      × Within 1 65535 config.backend_port
      × Within 64 1048576 config.max_client_message_bytes
      × Within 64 16777216 config.backend_max_message_bytes
unfolding load_config
load_config-Within to_lower_case variables = (
  int_from_env-Within variables (js "GATEWAY_PORT") 8081 1 65535 (omega arith),
  int_from_env-Within variables (js "BACKEND_PORT") 8080 1 65535 (omega arith),
  int_from_env-Within variables (js "MAX_CLIENT_MESSAGE_BYTES") (16 * 1024) 64 (1024 * 1024)
      (omega arith),
  int_from_env-Within variables (js "BACKEND_MAX_MESSAGE_BYTES") 8192 64 (16 * 1024 * 1024)
      (omega arith),
)
