-- ===== src/Lib.antt =====
-- A verification library for the CI controller of github_mcp: the durable stores of
-- services/github-action-service/app through which a CI request becomes a Worker Job, is leased to
-- a Worker, runs, and comes back as a terminal request.
--
-- Parts, and the files that model them:
--   Schema            the tables of app/ci_database.py (`init_db`) and app/ci_request_store.py
--                     (`init_ci_request_schema`), the enumerations of app/ci_models.py, and the
--                     database `Db` that every operation reads and writes
--   Table, Table/*    SELECT, UPDATE, COUNT and ORDER BY … LIMIT 1 on one table, with their laws
--   Tx, Tx/Check      code that returns or raises, and `atomically`, the pattern of
--                     BEGIN IMMEDIATE, commit() and rollback()
--   Jobs/*            app/ci_database.py: Queue (`_upsert_repo_queue_state`, worker pointers,
--                     `_add_event`), Create (`create_or_get_job`,
--                     `_create_or_get_job_in_transaction`), Lease (`lease_job`, `_begin_job_write`,
--                     `renew_lease`, `need_heartbeat`), Finish (`complete_job`, `release_job`,
--                     `request_cancel_job`, `cancel_queued_job`, `set_job_status`,
--                     `set_job_source_downloaded`), Recover (`recover_worker_jobs`,
--                     `recover_expired_leases`, the writers of ci_workers), Workers
--                     (`reconcile_worker_startup`, `reconcile_stale_workers`, and
--                     `effective_priority` of app/ci_models.py); the other files of the
--                     folder prove things about these
--   Requests/*        app/ci_request_store.py: Lifecycle (the tables of phases, statuses and
--                     transitions), Queries, Checks (the guards), Create
--                     (`create_or_get_ci_request`), Transition (`transition_ci_request`), Dispatch
--                     (`dispatch_ci_request`), Reconcile (`reconcile_worker_request_in_db` and its
--                     callers); the other files of the folder prove things about these
--   Logs, Logs/*      app/ci_database.py: Logs.antt (the log and step tables, `append_log_chunk`,
--                     `append_log_batch`, `add_step`, `finish_step`), Logs/Read
--                     (`get_log_chunks`, `_utf8_prefix`), Logs/Growth (runs of the writers mixed
--                     with the operations of Controller); the other files of the folder prove
--                     things about these
--   Convergence/*     app/development_convergence_store.py: Convergence.antt (the tables and queries),
--                     Writes (`transition_convergence`, `_bind_once` and its callers,
--                     `record_analysis_state`, `record_terminal_evidence`), Create
--                     (`create_or_get_convergence`), Runs (any sequence of these calls); the other
--                     files of the folder prove things about these
--   Idempotency/*     app/idempotency.py: Idempotency.antt (the claim table, the shared connection, and
--                     `dispatch` with `_cleanup_if_due` and `_release_claim`, one step for each
--                     `await`); its folder proves things about these
--   Controller        runs: any sequence of the operations of Jobs and Requests, less those of
--                     Jobs/Workers, on one database, in the order in which they took the write lock;
--                     Controller/Again is about calls that come again behind such a run
--   Tests             concrete runs of the parts, and the theorems applied to them
--
-- How the parts interact: a dispatch creates a Worker Job and binds it to the request in one
-- transaction (Requests/Dispatch calls Jobs/Create); a completion, a cancellation, an expiry or a
-- report that a job runs reconciles the request inside the job's own transaction (Jobs/Finish and
-- Jobs/Recover call Requests/Reconcile).
--
-- Conventions: a table is the list of its rows, the newest first, and SQL ties stand in that order;
-- the order in which loops visit rows is the table's. NULL is `none`. A time stamp is a number of
-- clock ticks, and one call reads the clock once. Identifiers that `uuid4` draws, lease tokens and
-- the digest SHA-256 are arguments. PRIMARY KEY and UNIQUE constraints are checked where a row is
-- inserted or a worker_job_id is bound, and the FOREIGN KEY of worker_job_id where it is bound. A
-- job's columns in a request's payload are typed: an int() of a null or of a text has no
-- counterpart. `atomically` restores the database when the body raises;
-- the job callbacks have no handler, so an exception would leave their writes in place, and the
-- audit shows that the reconciliation in them does not raise. There is no fuel: every loop is
-- structural on a list of rows.
--
-- A log's content is the list of its code points, in which the source's offsets count too. An
-- INSERT under a job that is not stored raises, as the FOREIGN KEY makes it. A step's status is any
-- text.
--
-- The middleware has a database of its own, and one connection for all requests, so that a rollback
-- of one request undoes the open statements of another. Its model has the open and the committed
-- table, and lists of foreign statements between the steps of a request. An exception from the
-- reading of a body and a cancellation leave the claim. The digest of a request is an argument, a
-- body is a text, which the source decodes with errors='replace' before it stores it, and response
-- headers are left out. The clock and the retention are arguments.
--
-- The convergence store has a database of its own. A phase, mode, stage or analysis state outside
-- the source's enumerations, which the source refuses with ValueError, cannot be written down here;
-- statuses are texts. Revisions are numbers, so the source's test for negative ones has no
-- counterpart. The digest of a request identity and the drawn identifiers are arguments. The two
-- UNIQUE indexes on runs are no separate checks: the queries in front of the only INSERT have found
-- no row that they could refuse. Analysis rows exist only under a stored run.
--
-- Not modelled: the backfill of legacy jobs, `cleanup_old_jobs`,
-- the step-log cursor and the log tail, monitoring views, notification of waiting threads, metrics; the list queries of the
-- convergence store and its event metadata; event data beyond the payload that dispatch
-- reads back; the creation of tables and their migrations; and every other part of the repository.
mod Prelude
mod Table
mod Tx
pub mod Schema
pub mod Jobs
pub mod Requests
pub mod Controller
pub mod Convergence
pub mod Logs
pub mod Idempotency
mod Tests
