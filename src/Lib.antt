-- ===== src/Lib.antt =====
-- Verification of the business-intelligence backend.
--
-- The backend imports a company's data from providers (an ERP) by synchronization jobs, and then
-- runs a pipeline of stages on each import. This library models two modules and parts of four more.
--
-- The synchronization module, backend/app/modules/synchronization: an orchestrator cuts a period
-- into windows, stores one job for each window in a table and submits it to a pool of worker
-- threads; a worker hands the job to the dispatcher, which calls the provider and records the
-- outcome in the job's row, in the checkpoint's row and in the metrics; a scheduler decides when a
-- domain is due.
--
-- The pipeline module, backend/app/modules/pipeline: for an imported job, the service makes a run
-- or reuses one, and takes it through six stages (indicators, rules, recommendations, insights,
-- score, summary). Each stage has a step in a table; one that succeeded in an earlier run is
-- skipped, and the first one that raises ends the run as failed.
--
-- The formula engine of the KPI module, backend/app/modules/kpi: an indicator is a formula, a text
-- that is parsed to a tree, validated against the metrics that it declares, and evaluated over a
-- dictionary of metrics, with a trace. Formulas may depend on formulas, and a resolver puts them in
-- order.
--
-- The resilience of the provider clients, backend/app/modules/integrations/providers/shared: calls
-- of a provider go through a rate limiter and a circuit breaker, and are repeated on retryable
-- errors after a delay.
--
-- The idempotency service, backend/app/shared: a request that creates or changes an entity names
-- its source record and a hash of its payload; a repeated request is recognised by them.
--
-- The calculator of the executive score, backend/app/modules/executive_score: weighted averages of
-- indicators, less a penalty and with a bonus, held between 0 and 100.
--
-- Files. The paths of the Sync files are within the synchronization module, those of the Pipeline
-- files within the pipeline module, those of the Formula files within the KPI module.
--   Prelude: Boolean tests on numbers, integers, lists, SQL-like filters and stable sorting.
--   Calendar: datetime.date as the source uses it: day numbers, one day on or back, and overflow at
--     the ends of the calendar (years 1 to 9999). Calendar/Order, Calendar/Shift, Calendar/Back,
--     Calendar/Months: dates and day numbers.
--   Sync/Base: domain/value_objects.py, and the errors that the module raises.
--   Sync/Window: TimeWindow of domain/entities.py, and infrastructure/window_manager.py.
--     Sync/Window/*: what the windows cover.
--   Sync/Job: SyncJob and its methods, of domain/entities.py. Sync/Job/Lifecycle: sequences of calls.
--   Sync/Checkpoint, Sync/Jobs: the two tables of infrastructure/repositories.py, and SyncBatch. A
--     table is the list of its rows in the order of insertion. Sync/Jobs/Rows: reads and updates.
--   Sync/Runtime: infrastructure/sync_runtime.py. Sync/Runtime/Counts: sums of the counters.
--   Sync/World: the state that the services share (tables, metrics, pool, clock, next identifier)
--     and the monad of actions on it: an action returns a result or an error, and a new state.
--   Sync/Dispatcher: application/job_dispatcher.py. Sync/Dispatcher/Outcome: how a run may end.
--   Sync/Pool: infrastructure/worker_pool.py. Sync/Pool/Steps: its threads as steps in any
--     order. Sync/Pool/Moves, Sync/Pool/Restarts, Sync/Pool/Fair: its methods, and what its
--     threads keep.
--   Sync/Orchestrator: application/orchestrator.py. Sync/Orchestrator/*: scheduling and control.
--   Sync/Scheduler: application/scheduler.py. Sync/Scheduler/Due: one check of the schedule.
--   Pipeline/Base: domain/entities.py, infrastructure/models.py and the topics of
--     application/pipeline_event_publisher.py; the store and the monad of queries on it.
--   Pipeline/Tables: infrastructure/repositories.py. Pipeline/Triples: triples of its statements.
--   Pipeline/Executor: application/pipeline_executor.py.
--   Pipeline/Service: application/pipeline_service.py. Pipeline/Service/Ending: how `start` ends.
--     Pipeline/Service/Once, Ready and History: the steps after any number of calls.
--   Pipeline/Progress, Pipeline/Latest, Pipeline/Reuse: the progress of a run, the latest run of a job,
--     and when a run is reused.
--   Pipeline/ImportProgress: the progress of an import job, of infrastructure/repositories.py.
--   Formula/Base: the trees of application/formula_parser.py, and domain/formula_engine_errors.py.
--   Formula/Parser: application/formula_parser.py. Formula/Scan: its loops over characters.
--     Formula/Grammar: the language, apart from the parser. Formula/RoundTrip, Formula/Sound: the
--     parser reads exactly that language.
--   Formula/Validator: application/formula_validator.py, and FormulaDefinition.
--   Formula/Values, Formula/Functions, Formula/Executor: application/formula_executor.py.
--     Formula/Clamp, Formula/Identifiers, Formula/Trace and Formula/Safety: what it computes, reads,
--     records and raises.
--   Resilience/Breaker, Resilience/Limiter, Resilience/Call: providers/shared/resilience.py, of the
--     integrations module. Resilience/Valid: the breaker's fields. Resilience/Outcome and
--     Resilience/Recovery: how a call ends. Resilience/Tripping: failures in a row.
--     Resilience/Deque and Resilience/Spacing: the grants of the limiter.
--   Formula/Resolver: application/formula_dependency_resolver.py. Formula/Resolver/Sets, Edges and
--     Kahn: sets, the graph and the queue of its algorithm. Formula/Resolver/Order: its answers.
--   Idempotency: shared/application/idempotency/service.py and
--     shared/infrastructure/repository/mixins.py, of backend/app. Idempotency/Rows: its
--     statements after a write. Idempotency/Replay: a request after others.
--   ExecutiveScore: application/score_calculator.py, of the executive_score module.
--     ExecutiveScore/Bounds: the range of the scores.
--   ExecutiveScore/Tests, Idempotency/Tests, Pipeline/Tests, Formula/Tests, Formula/ResolverTests,
--     Resilience/Tests, Sync/Tests, Sync/JobTests, Sync/FlowTests and Sync/PoolTests: runs on
--     concrete inputs.
--
-- Conventions. Times are natural numbers, identifiers (UUIDs) are fresh natural numbers, companies,
-- providers and credentials are natural numbers. Metrics are whole numbers where the source has
-- floats. An exception is a value of Error; the changes made before it was raised stay, as they do
-- in the source, which flushes each statement and leaves the transaction to the caller. The job
-- object that a worker runs and the row of that job are two things, as in the source, where the row
-- is read back into a new object.
--
-- Loops over windows run on fuel. The fuel of the daily loop is one more than the day number of the
-- end date, that of the monthly loop one more than its month number; each round moves at least one
-- day, or one month, so the fuel is more than the rounds that there are.
--
-- The six engines that the stages call are an interface too (Engines): each may answer anything or
-- raise. The pipeline's stages are a fixed list, so its loop needs no fuel.
--
-- The parser of the formulas works on ASCII texts; its state is the source from the index on. Each
-- call of it spends one unit of fuel, and parse gives one more than the length of the text: every
-- call of an argument list comes after two characters at least. Python's limit of recursion is left
-- out. The floats are an interface (Floats): conversion, arithmetic, comparison, sums and rounding
-- are parameters, with laws named where a theorem needs them. A metric is a number, None, a text or
-- a list of these. The loop of the resolver has as much fuel as there are formulas, and takes each
-- one once at most. Sets are lists in the order of insertion, and the resolver goes through a
-- set in any order, a parameter; which of several undeclared identifiers the validator names is the
-- only thing that hangs on the order of insertion.
--
-- The clock of the resilience code counts milliseconds. What the provider replies, how long it
-- takes and by how much a sleep overshoots are an environment; the callback on_retry only takes
-- note. The attempts are counted down from max_attempts, so the loop needs no fuel. Two threads in
-- one breaker, which has no lock, are left out.
--
-- The floats of the score are an interface (ScoreFloats), with laws (IsOrdered) that a NaN satisfies
-- too.
--
-- The texts of the idempotency records are ASCII. A row of their table is seen as soon as it is
-- added: the session flushes or commits before the next request. What load_entity returns is a
-- parameter; the replay is the entity, where there is one.
--
-- The worker pool may be started and shut down at any time; shutdown may come back before a thread
-- has ended its task, as it does in the source after a join of five seconds. The scheduler's clock
-- shows whole seconds.
--
-- The provider registry, the cipher and the providers' sync methods are the fields of an interface
-- (Services): they may answer anything or raise. They leave the tables alone, and the clock stands
-- still during one call.
--
-- Not modelled: the HTTP routes, the formatting of rows into dictionaries, logging, the free-form
-- metadata and window identifiers, the transactions of the database, the parsing of the scheduler's
-- configuration, the pipeline's methods that only read and copy rows, and the remaining modules of
-- the backend, among them the catalogs and the engine API of the KPI module, the rule engine and the
-- recommendations.
pub mod Prelude
pub mod Calendar
pub mod Sync
pub mod Pipeline
pub mod Formula
pub mod Resilience
pub mod Idempotency
pub mod ExecutiveScore
