-- ===== src/Logging.antt =====
-- gateway/src/logger.ts
use thread_link.Prelude.{
  ℕ, Option, none, some, [], ◌∷◌, ◌++◌, ltb, nat_beq, if◌then◌else◌, Text, js,
}
use thread_link.Config.{LogLevel, debug, info, warn, error}

pub record Logger : Type 0 where
  pub min_level : LogLevel

pub data Stream : Type 0 where
  stdout stderr : Stream

-- ORDER
abbrev pub order : LogLevel → ℕ
order debug = 0
order info = 1
order warn = 2
order error = 3

-- `level.toUpperCase()`
abbrev level_name : LogLevel → Text
level_name debug = js "DEBUG"
level_name info = js "INFO"
level_name warn = js "WARN"
level_name error = js "ERROR"

-- `replace` of the first unit that is the given one.
unfoldable pub replace_first : ℕ → Text → Text → Text
replace_first c by [] = []
replace_first c by (d ∷ s) =
    let rest = replace_first c by s in if nat_beq d c then by ++ s else d ∷ rest

abbrev stream_of : LogLevel → Stream
stream_of warn = stderr
stream_of error = stderr
stream_of _ = stdout

unfoldable pub set_min_level : LogLevel → Logger → Logger
set_min_level level logger = record { min_level = level }

-- `write` at the time that `toISOString` gives: what goes to which stream, if anything does.
unfoldable pub write : LogLevel → Text → Text → Logger → Option (Stream × Text)
write level iso msg logger =
    let ts = replace_first b'Z' [] (replace_first b'T' (js " ") iso) in
    let line = js "[" ++ (ts ++ (js "] [" ++ (level_name level ++ (js "] " ++ msg)))) in
    if ltb (order level) (order logger.min_level) then none else some (stream_of level, line)
