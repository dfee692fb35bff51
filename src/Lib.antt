-- ===== src/Lib.antt =====
-- BoardTrace analyses finished chess games on a server. This library models the core of its API and
-- worker, the Python package under apps/api/src/boardtrace_api, and proves that its parts do what
-- they promise. All paths below are relative to that package.
--
-- A game that a player has finished becomes an analysis job. The job passes the admission queue, is
-- claimed by a worker under a lease, and the worker evaluates every position of the game with an
-- engine. From the evaluations that are stored, metrics, classes and totals are derived when the
-- analysis is read. Players sign in with rotating refresh tokens.
--
-- Prelude: Boolean tests, lists measured by native numbers, exceptions as values (Result), texts as
-- lists of code points, and signed integers over the native numbers (Prelude.Int).
--
-- Jobs: analysis jobs.
--   Status is models/enums.py and analysis/state.py; Retry is analysis/retry.py; Row has the columns
--   of models/models.py. Operations has the methods of repositories/analysis_jobs.py that work on one
--   row, Table those that query or insert rows. The row of a job is locked while an operation works on
--   it, so concurrent workers are sequences of operations (Steps: perform, step, run). Publisher is the
--   OutboxPublisher of services/analysis_jobs.py, where the broker is a parameter. Lease, Delay,
--   Accounting, Uniqueness, Events and Drained hold the theorems. Instants are microseconds, delays seconds.
--
-- Admission: queue_admission.py. Each Lua script is one atomic step on the six keys of Redis (Redis has
--   the data types, Scripts the scripts). A call names a job and the job's owner, as the endpoints and
--   the worker do; which user owns a job is a parameter. A Redis that cannot be reached raises and
--   leaves the keys as they are. Invariant, Enter, Leave and Complete show what each script keeps; Order
--   that the queue is in order of arrival; Line is the queue as a user sees it, which Refinement shows
--   the scripts to implement; Deadlines is about waiting too long.
--
-- FullGame: analysis/full_game.py. python-chess is a parameter (record Chess), as are the engine and the
--   clock (record Engine): an answer or an exception's name at each position, and the milliseconds
--   that have passed. The loop over the positions is recursion on the list of the replay, which ends.
--   Contract is the check of repositories/analysis_results.py before a result is stored. Evaluated,
--   Linked and Complete hold the theorems.
--
-- Moves: analysis/move_metrics.py (Metrics), analysis/move_classification.py (Classes),
--   analysis/game_metrics.py (Totals, with decimals of two places as hundredths, Rounding) and
--   services/analysis_aggregates.py (Aggregate). What python-chess makes of a UCI text is a parameter.
--   Losses, Classified, Accuracy and Pipeline hold the theorems.
--
-- Auth: auth/service.py with the commits of api/v1/endpoints/auth.py (Sessions). The digest of a token
--   is a parameter, and what is drawn at random is an argument. Pairing is services/pairing.py with the
--   scope checks of auth/tokens.py. Families, Replay and Pairing hold the theorems.
--
-- RateLimits: rate_limits.py (Counters) and core/rate_limit_middleware.py (Dispatch). Times are
--   milliseconds; how Redis rounds the time left to seconds is a parameter, and a store that is down
--   stays down during a request. Bounds holds the theorems.
--
-- Results: the durable results of an analysis. Rows has the tables of models/models.py that games and
--   results live in, each the list of its rows, and the computed identifiers of
--   repositories/analysis_results.py, where uuid5 is a parameter. Config is the snapshot of the engine's
--   configuration, Transactions db/transactions.py, Replace the replacement of a generation, Complete the
--   atomic completion with services/analysis_cleanup.py, Read the typed read; these are
--   repositories/analysis_results.py and services/analysis_results.py. The hook before a commit and the
--   commit are parameters that may raise; the rows of the job and of the game are locked meanwhile.
--   Replaced, Published, Authority, Keyed, Unique, Records, RoundTrip and Whole hold the theorems. Whole goes from
--   the analysis of FullGame to the stored result.
--
-- Delivery: Snapshot is repositories/analysis_reads.py with services/analysis_reads.py, Public
--   services/analysis_delivery.py with the consumption of a result, Status
--   repositories/analysis_status.py with services/analysis_status.py. Moves.Aggregate composes what
--   Snapshot reads. Once holds the theorems.
--
-- Worker: worker.py. Failures is analysis/failures.py, Terminal the operations on jobs as transactions of
--   their own with the services of services/analysis_jobs.py that end a job, Run one delivery of a job
--   with the release of its place in the queue, Sweep the scheduled tasks. A run has no other writer
--   between its transactions; its instants, the engine, whether Redis answers and which commits raise
--   are parameters, and so they are of a sweep. Rows, Settled and Ended hold the theorems.
--
-- Ingestion: Provenance is provenance.py with the request of schemas/ingestion.py, Service
--   services/ingestion.py with the creation of a job in services/analysis_jobs.py. What other sessions
--   commit after the first SELECT is a parameter, as is the digest of the moves. Endpoint is
--   api/v1/endpoints/ingestion.py, on the tables and the keys of Redis that Worker works on; no other
--   session writes during a request. Once and Admitted hold the theorems.
--
-- Each component has its test data and the theorems' instances in a module Tests.
--
-- Not modelled: the engine process of analysis/stockfish.py, JWT and password hashing (third-party
-- code), the Celery tasks and signals, configuration, logging, the schemas, and the glue of FastAPI, SQLAlchemy and Celery;
-- of the login, the registration and the time of the last login.
pub mod Admission
pub mod Auth
pub mod Delivery
pub mod FullGame
pub mod Ingestion
pub mod Jobs
pub mod Moves
pub mod Prelude
pub mod RateLimits
pub mod Results
pub mod Worker
