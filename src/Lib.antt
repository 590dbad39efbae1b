-- ===== src/Lib.antt =====
-- Flowscale: a workflow engine that runs the steps of a workflow as messages to workers, with
-- retries, a dead letter queue and compensations (sagas), on PostgreSQL and RabbitMQ.
--
-- The parts, and the files that model them:
--   * Models: the structs and constants of internal/models.
--   * Runtime: what the processes run on. `World` is the PostgreSQL tables of migrations/ (`Db`), the
--     messages handed to RabbitMQ, the advisory locks held, the workflow counters, and the number of
--     calls made to the outside; `Env` gives the answers of what is not in this repository (uuids,
--     the clock, failures of the database and of the broker, robfig/cron, time.ParseDuration). An
--     operation that returns an error is an action `M A = World → Result A × World`: what it has
--     written before it failed stays. A transaction (`tx`) takes effect whole or not at all.
--   * Format: fmt.Sprintf as the idempotency keys use it.
--   * Repository: internal/repository. Sql has the statements on each table with the constraints of
--     the migrations; ExecutionRepo, ExecutionQueries, WorkflowRepo and ScheduleRepo have the methods,
--     under their names in the source (CreateExecution is create_execution).
--   * Queue: internal/queue/rabbitmq.go, the topology and the publishing methods; Queue/Connection the
--     requests in their order and the connection, Queue/Routing where a broker that routes as documented
--     (the parameter `Broker`) puts what is published.
--   * Tracing: internal/observability/amqp_carrier.go, the trace context in the headers of a message.
--   * Engine: internal/engine. Build (the rows that the handlers make), Lock (LockWorkflow), Start
--     (StartWorkflow), Success (ReportActivitySuccess), Failure (ReportActivityFailure), Manual
--     (RetryDeadLetteredActivity, RetryCompensation, CancelExecution), Compensation
--     (determineNextCompensation), Outbox (outbox_publisher.go), Consumers (StartResultConsumer and
--     reaper.go).
--   * Scheduler: internal/scheduler; Scheduler/Cluster has several schedulers on one database server,
--     whose sessions and locks are the parameter `Sessions`.
--   * Worker: internal/worker; Worker/Pool has its goroutines as threads that move one step at a time
--     over the semaphore, the WaitGroup and the channels that they share.
--   * Strings: the functions of Go's strings and strconv packages that the API calls.
--   * Repository/Listings and Repository/UserRepo: the reads for the API, and the table of users.
--   * Api: internal/api. One file per handler (Executions, Dlq, Workflows, Schedules, Auth, Seed, Demo,
--     Health), Middleware, and Mux with the routes and the chain of cmd/engine/main.go. A handler maps a
--     request to its response and to what it did to the world; `Outside` gives the answers of what is
--     not in this repository (JSON decoding, bcrypt, tokens, the rate limiter, the queue's depth).
--   * Client: internal/client, against a server that is a function.
--   * Tui: cmd/tui/main.go, Update as a state machine and the loads that it asks for (Tui/Loads), through
--     the client; Tui/View is View and the details.
--   * Boot: the roles of a process and the admin user, in cmd/engine/main.go; Boot/Process is config and
--     the course of main, Boot/Activities the demo activities.
--   * System: every entry point as a call, and the states that calls reach from empty tables.
--   * Engine/Stable is the interface between the handlers and the invariants: what a property of
--     the tables must keep so that every handler keeps it. Invariant fills it for the tables and the
--     tasks, Engine/Effects for the statuses and for the history.
--   * Api/Calls has the rules by which each handler is a sequence of calls of System; Api/Access,
--     Api/Tokens, Api/Refusals, Api/Pausing, Api/Mux and Client/Routes have what is proved of requests, Tui/Keys,
--     Tui/Loads/Widths and Tui/View/Errors what is proved of keys, of loads and of what is drawn.
--   * Engine/Reports, Engine/Progress, Engine/Lock/Release, Engine/Compensation, Engine/Manual,
--     Engine/Failure/Tiers, Engine/Consumers/Fresh, Scheduler, Worker and
--     Queue/Routing have what is proved of single operations, Scheduler/Cluster/Leaders,
--     Worker/Pool/Settled and Progress and Engine/Loops/Refinement what is proved of schedulers
--     and goroutines side by side.
--   * Invariant/EndToEnd joins the invariant of the tables and the routing of the broker.
--   * Prelude has the shared helpers, Tests the runs and the witnesses.
--
-- Every read or write of the database is one step that fails or succeeds by itself, so a failure
-- at any later step also stands for a crash there. A method that reads with two queries is one
-- read, and a transaction reads the clock once. The handlers of one execution hold its advisory
-- lock and are taken one after the other; the calls of `System` do not interleave. Loops over rows
-- and over messages are structural recursion, and nothing runs on fuel but the printing of a number,
-- whose fuel is more than its digits.
--
-- Times are nanoseconds since the epoch, a float64 is fixed point, and JSON is the value that it
-- encodes. Of net/http, the mux is modelled as documented: exact patterns, subtrees, the longest that
-- fits, and the redirect of a path that is not clean. The client follows no redirects. A seeding whose
-- cron expression did not parse would end in a panic; it is the end of the handler here.
--
-- Not modelled: the set-up of logging, of the tracer and of the metrics, and all metrics but the
-- workflow counters, which are calls of third-party libraries with constants; of the terminal
-- interface the styles, the scrolling, and the program of bubbletea that main runs; and the headers
-- of responses. Tickers are any order of their calls.
pub mod Prelude
pub mod Strings
pub mod Models
pub mod Runtime
pub mod Format
pub mod Repository
pub mod Queue
pub mod Engine
pub mod Scheduler
pub mod Api
pub mod Client
pub mod Tui
pub mod Boot
pub mod System
pub mod Invariant
pub mod Worker
pub mod Tracing
mod Tests
