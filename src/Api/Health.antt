-- ===== src/Api/Health.antt =====
-- internal/api/health.go
use flowscale.Prelude.{if◌then◌else◌}
use flowscale.Runtime.{Env}
use flowscale.Api.{text, respond, Serving, stop, asking}

abbrev pub live : Serving
live = stop (respond 200 (text "OK"))

-- The broker is asked only if the database answers.
unfoldable pub ready : Env → Serving
ready env = asking env.db_fails λ db_down.
    if db_down
    then stop (respond 503 (text "Database unavailable"))
    else asking env.mq_fails λ mq_down.
      if mq_down
      then stop (respond 503 (text "RabbitMQ unavailable"))
      else stop (respond 200 (text "READY"))

unfoldable pub health : Env → Serving
health env = ready env
