-- ===== src/Config/Tests.antt =====
-- Tests and examples for the configuration.
use thread_link.Prelude.{some, none, ◌==◌, js, if◌then◌else◌}
use thread_link.Config.{Variables}

abbrev variables : Variables
variables name = if name == js "GATEWAY_PORT" then some (js "70000") else none
