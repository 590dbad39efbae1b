-- ===== src/Worker.antt =====
-- internal/worker: one delivery of a task. The registered function is the program's client: it is
-- given the context and ends with an error value or with nil.
pub mod Delivery
pub mod Pool
use Prim.Native.String.{◌++◌}
use flowscale.Prelude.{String, Option, none, some, Bool, true, false, ◌||◌, if◌then◌else◌}
use flowscale.Models.{
  ActivityExecution, ActivityTaskMessage, ActivityResultMessage, is_completed, is_failed,
}
use flowscale.Runtime.{Env, World, M, Result, ok, err}
use flowscale.Repository.ExecutionQueries.{get_activity_execution}
use flowscale.Queue.{publish_result, publish_heartbeat}
use flowscale.Engine.Consumers.{Answer, acked, discarded, answer_of}

-- An error value of Go: a plain one, a NonRetryableError around one, and fmt.Errorf("…: %w", e).
pub data GoError : Type 0 where
  plain : String → GoError
  non_retryable : GoError → GoError
  wrapped : String → GoError → GoError

unfoldable pub error_text : GoError → String
error_text (plain s) = s
error_text (non_retryable e) = error_text e
error_text (wrapped s e) = s ++ ": " ++ error_text e

unfoldable pub new_non_retryable_error : Option GoError → Option GoError
new_non_retryable_error none = none
new_non_retryable_error (some e) = some (non_retryable e)

unfoldable pub unwrap : GoError → Option GoError
unwrap (plain s) = none
unwrap (non_retryable e) = some e
unwrap (wrapped s e) = some e

-- The type assertion err.(*NonRetryableError), which looks at the outermost value only.
abbrev pub is_non_retryable : GoError → Bool
is_non_retryable (non_retryable e) = true
is_non_retryable _ = false

-- ActivityContext.Heartbeat
abbrev pub heartbeat : Env → ActivityTaskMessage → M Unit
heartbeat env task = publish_heartbeat env task.execution_id task.activity_id

abbrev pub Handler : Type 0
Handler = ActivityTaskMessage → World → Option GoError × World

unfoldable pub result_of : String → ActivityTaskMessage → Option GoError → ActivityResultMessage
result_of name task none = record {
  execution_id = task.execution_id;
  activity_id = task.activity_id;
  activity_name = name;
  success = true;
  error = "";
  non_retryable = false;
}
result_of name task (some e) = record {
  execution_id = task.execution_id;
  activity_id = task.activity_id;
  activity_name = name;
  success = false;
  error = error_text e;
  non_retryable = is_non_retryable e;
}

unfoldable pub run_task : Env → String → Handler → ActivityTaskMessage → World → Answer × World
run_task env name handler task w =
    let (e, w') = handler task w in
    let (r, w'') = publish_result env (result_of name task e) w' in (answer_of r, w'')

-- The deduplication check; a task whose row cannot be read is run.
abbrev pub is_duplicate : Result ActivityExecution → Bool
is_duplicate (err e) = false
is_duplicate (ok act) = is_completed act.status || is_failed act.status

unfoldable pub handle_delivery :
    Env → String → Handler → Option ActivityTaskMessage → World → Answer × World
handle_delivery env name handler none w = (discarded, w)
handle_delivery env name handler (some task) w =
    let (r, w') = get_activity_execution env task.activity_id w in
    if is_duplicate r then (acked, w') else run_task env name handler task w'
