-- ===== src/Jobs/Finish.antt =====
-- The ends of an attempt and the writes of a Worker's callbacks, app/ci_database.py: `complete_job`,
-- `request_cancel_job`, `cancel_queued_job`, `release_job`, `set_job_status`,
-- `set_job_source_downloaded`. The bodies have no handler of their own: an exception that
-- `reconcile_worker_request_in_db` raised would leave them as it is.
use github_mcp.Table.{find}
use github_mcp.Schema.{JobStatus, ℤ, Job, Db, pos, Summary, JobEventKind, sub_ℕ, is_active}
use github_mcp.Prelude.{
  ℕ, String, Bool, Option, true, if◌then◌else◌, some, str_eq, none, ◌==◌, false, ◌&&◌, not,
}
use github_mcp.Jobs.Create.{queued_at_id}
use github_mcp.Jobs.Lease.{begin_job_write}
use github_mcp.Jobs.Queue.{
  update_jobs, add_job_event, upsert_queue_state, matching_jobs, minus_one, free_worker,
}
use github_mcp.Requests.Queries.{get_job, by_job_id}
use github_mcp.Requests.Reconcile.{reconcile_in_db}
use github_mcp.Tx.{M, ok, pure, modify, ◌>>=◌, ◌>>◌}

-- What a Worker reports at the end of an attempt; a summary that is missing or empty is `none`.
pub record Completion : Type 0 where
  pub exit_code : ℤ
  pub status : JobStatus
  pub summary : Option Summary
  pub error_code : Option String
  pub error_message : Option String

-- ts - started if started else 0
abbrev duration : (now : ℕ) → Option ℕ → ℤ
duration now none = pos 0
duration now (some started) = if started == 0 then pos 0 else sub_ℕ now started

abbrev pub completed_row : Completion → (now : ℕ) → (started_at : Option ℕ) → Job → Job
completed_row c now started j = record j {
  status = c.status;
  exit_code = some c.exit_code;
  summary = c.summary;
  finished_at = some now;
  duration_seconds = some (duration now started);
  error_code = c.error_code;
  error_message = c.error_message;
  lease_token_hash = none;
  lease_expires_at = none;
  worker_id = none;
}

-- The writes of `complete_job`, for the row that it read.
unfoldable pub complete_row : String → Completion → (now : ℕ) → Job → Db → Db
complete_row job_id c now row db =
    add_job_event job_id (JobEventKind.completed c.status c.exit_code) now (
      upsert_queue_state row.repository (pos 0) minus_one none (
        free_worker row.worker_id job_id
          (update_jobs (by_job_id job_id) (completed_row c now row.started_at) db)))

-- What `complete_job` does with the row that it finds, if any.
unfoldable pub complete_found : String → Completion → (now : ℕ) → Option Job → M Db Bool
complete_found job_id c now none = pure false
complete_found job_id c now (some row) = do
  modify (complete_row job_id c now row)
  _ ← reconcile_in_db job_id now
  pure true

-- complete_job, less the metric that it reports
unfoldable pub complete_job :
    (sha256 : String → String)
    → String
    → Completion
    → (worker_id token : Option String) → (now : ℕ) → M Db Bool
complete_job sha256 job_id c worker_id token now = do
  begin_job_write sha256 job_id worker_id token now
  λ db. complete_found job_id c now (get_job db job_id) db

abbrev pub is_cancellable : String → Job → Bool
is_cancellable job_id j = str_eq j.job_id job_id && not j.is_cancel_requested && is_active j.status

-- request_cancel_job
unfoldable pub request_cancel_job : String → (now : ℕ) → Db → Bool × Db
request_cancel_job job_id now db =
    if matching_jobs (is_cancellable job_id) db == 1
    then (
      true,
      add_job_event job_id JobEventKind.cancel_requested now
          (update_jobs (is_cancellable job_id) (λ j. record j { is_cancel_requested = true }) db),
    )
    else (false, db)

abbrev pub cancelled_row : (now : ℕ) → Job → Job
cancelled_row now j = record j {
  status = JobStatus.cancelled;
  finished_at = some now;
  worker_id = none;
  lease_token_hash = none;
  lease_expires_at = none;
}

unfoldable pub cancel_row : String → (now : ℕ) → Job → M Db Bool
cancel_row job_id now row = do
  modify (update_jobs (queued_at_id job_id) (cancelled_row now))
  modify (upsert_queue_state row.repository minus_one (pos 0) none)
  modify (add_job_event job_id JobEventKind.cancelled now)
  _ ← reconcile_in_db job_id now
  pure true

-- What `cancel_queued_job` does with the row that it finds, if any.
unfoldable pub cancel_found : String → (now : ℕ) → Option Job → M Db Bool
cancel_found job_id now none db = (ok false, db)
cancel_found job_id now (some row) db =
    if matching_jobs (queued_at_id job_id) db == 1
    then cancel_row job_id now row db
    else (ok false, db)

-- cancel_queued_job
unfoldable pub cancel_queued_job : String → (now : ℕ) → M Db Bool
cancel_queued_job job_id now db = cancel_found job_id now (find (queued_at_id job_id) db.jobs) db

abbrev pub requeued_row : (now : ℕ) → Job → Job
requeued_row now j = record j {
  status = JobStatus.queued;
  queued_at = some now;
  worker_id = none;
  lease_token_hash = none;
  lease_expires_at = none;
}

-- The writes of `release_job`, for the row that it read.
unfoldable pub release_row : String → (now : ℕ) → Job → Db → Db
release_row job_id now row db = add_job_event job_id JobEventKind.released now (
    upsert_queue_state row.repository (pos 1) minus_one none
      (free_worker row.worker_id job_id (update_jobs (by_job_id job_id) (requeued_row now) db)))

-- What `release_job` does with the row that it finds, if any.
unfoldable pub release_found : String → (now : ℕ) → Option Job → M Db Bool
release_found job_id now none db = (ok false, db)
release_found job_id now (some row) db = (ok true, release_row job_id now row db)

-- release_job
unfoldable pub release_job :
    (sha256 : String → String) → String → (worker_id token : Option String) → (now : ℕ) → M Db Bool
release_job sha256 job_id worker_id token now = do
  begin_job_write sha256 job_id worker_id token now
  λ db. release_found job_id now (get_job db job_id) db

-- The WHERE of `set_job_status`: only a downloading or preparing job may be set running.
abbrev pub may_set : String → JobStatus → Job → Bool
may_set job_id JobStatus.running j =
    str_eq j.job_id job_id
    && (elim j.status [ JobStatus.downloading ↦ true | JobStatus.preparing ↦ true | _ ↦ false ])
may_set job_id _ j = str_eq j.job_id job_id

abbrev pub is_running : JobStatus → Bool
is_running JobStatus.running = true
is_running _ = false

-- if cursor.rowcount and status == "running": reconcile
unfoldable pub reconcile_if : Bool → String → (now : ℕ) → M Db Bool
reconcile_if true job_id now = reconcile_in_db job_id now
reconcile_if false job_id now = pure false

-- The UPDATE of `set_job_status` and what follows it, with the `rowcount` n.
unfoldable pub write_status : String → JobStatus → (now n : ℕ) → M Db Bool
write_status job_id status now n = do
  modify (update_jobs (may_set job_id status) (λ j. record j { status = status }))
  _ ← reconcile_if (is_running status && not (n == 0)) job_id now
  pure (n == 1)

-- set_job_status
unfoldable pub set_job_status :
    (sha256 : String → String)
    → String
    → JobStatus
    → (worker_id token : Option String) → (now : ℕ) → M Db Bool
set_job_status sha256 job_id status worker_id token now = do
  begin_job_write sha256 job_id worker_id token now
  λ db. write_status job_id status now (matching_jobs (may_set job_id status) db) db

-- set_job_source_downloaded
unfoldable pub set_job_source_downloaded :
    (sha256 : String → String)
    → String
    → (digest : String) → (size : ℕ) → (worker_id token : String) → (now : ℕ) → M Db Bool
set_job_source_downloaded sha256 job_id digest size worker_id token now = do
  begin_job_write sha256 job_id (some worker_id) (some token) now
  modify (
      update_jobs (by_job_id job_id) (λ j. record j {
        source_sha256 = some digest;
        source_size_bytes = some size;
        status = JobStatus.downloading;
      }))
  modify (add_job_event job_id (JobEventKind.source_downloaded size) now)
  pure true
