-- ===== src/Jobs/Recover.antt =====
-- Recovery of attempts whose Worker is gone, app/ci_database.py: `recover_worker_jobs` and
-- `recover_expired_leases`, and the writers of the Worker table: `register_worker`,
-- `verify_worker_token`, `update_worker_heartbeat`.
use github_mcp.Table.{find, select, update}
use github_mcp.Prelude.{
  Option, String, ℕ, Bool, leb, false, List, true, ◌∷◌, if◌then◌else◌, ◌&&◌, some, length, none,
  ltb, is_some, [], str_eq,
}
use github_mcp.Schema.{Job, JobStatus, is_active, Db, ℤ, pos, JobEventKind, WorkerStatus}
use github_mcp.Jobs.Finish.{requeued_row}
use github_mcp.Jobs.Lease.{held_by}
use github_mcp.Jobs.Queue.{
  add_job_event, set_worker_idle, upsert_queue_state, free_worker, minus_one, update_jobs,
  by_worker_id,
}
use github_mcp.Requests.Reconcile.{reconcile_in_db}
use github_mcp.Requests.Queries.{by_job_id}
use github_mcp.Tx.{M, pure, modify, ◌>>=◌, ◌>>◌}

abbrev pub lost_row : (now : ℕ) → Job → Job
lost_row now j = record j {
  status = JobStatus.worker_lost;
  finished_at = some now;
  worker_id = none;
  lease_token_hash = none;
  lease_expires_at = none;
}

-- attempts >= max_attempts
abbrev pub is_exhausted : Job → Bool
is_exhausted j = leb j.max_attempts j.attempts

-- The row that a recovered job gets: lost, or queued again.
abbrev pub recovered_row : (now : ℕ) → (exhausted : Bool) → Job → Job
recovered_row now true j = lost_row now j
recovered_row now false j = requeued_row now j

abbrev recovered_status : Bool → JobStatus
recovered_status true = JobStatus.worker_lost
recovered_status false = JobStatus.queued

abbrev queued_delta : Bool → ℤ
queued_delta true = pos 0
queued_delta false = pos 1

-- One round of the loop of `recover_worker_jobs`.
unfoldable pub recover_one : (worker_id : String) → (now : ℕ) → Job → Db → Db
recover_one worker_id now row db =
    add_job_event row.job_id
      (JobEventKind.worker_recovered worker_id (recovered_status (is_exhausted row))) now
      (upsert_queue_state row.repository (queued_delta (is_exhausted row)) minus_one none
        (update_jobs (by_job_id row.job_id) (recovered_row now (is_exhausted row)) db))

unfoldable pub recover_rows : (worker_id : String) → (now : ℕ) → List Job → Db → Db
recover_rows worker_id now [] db = db
recover_rows worker_id now (row ∷ rest) db =
    recover_rows worker_id now rest (recover_one worker_id now row db)

-- recover_worker_jobs, to the number of jobs recovered
unfoldable pub recover_worker_jobs : (worker_id : String) → (now : ℕ) → Db → ℕ × Db
recover_worker_jobs worker_id now db =
    let rows = select (held_by worker_id) db.jobs in
    (length rows, set_worker_idle worker_id (recover_rows worker_id now rows db))

-- lease_expires_at < now; never true of NULL.
abbrev lease_over : Option ℕ → (now : ℕ) → Bool
lease_over none now = false
lease_over (some t) now = ltb t now

abbrev pub is_expired : (now : ℕ) → Job → Bool
is_expired now j = is_active j.status && lease_over j.lease_expires_at now

-- The queue count of a job that is queued again.
abbrev count_requeued : (exhausted : Bool) → String → Db → Db
count_requeued true repository db = db
count_requeued false repository db = upsert_queue_state repository (pos 1) (pos 0) none db

-- The table writes of one round of the loop of `recover_expired_leases`.
unfoldable pub expire_row : (now : ℕ) → Job → Db → Db
expire_row now row db =
    add_job_event row.job_id (JobEventKind.lease_expired row.attempts row.max_attempts) now (
      free_worker row.worker_id row.job_id (
        upsert_queue_state row.repository (pos 0) minus_one none (
          count_requeued (is_exhausted row) row.repository
            (update_jobs (by_job_id row.job_id) (recovered_row now (is_exhausted row)) db))))

-- The loop, each round with its reconciliation.
unfoldable pub expire_rows : (now : ℕ) → List Job → M Db (Unit {0})
expire_rows now [] = pure tt
expire_rows now (row ∷ rest) = do
  modify (expire_row now row)
  _ ← reconcile_in_db row.job_id now
  expire_rows now rest

-- recover_expired_leases, to the number of jobs recovered
unfoldable pub recover_expired_leases : (now : ℕ) → M Db ℕ
recover_expired_leases now db =
    let rows = select (is_expired now) db.jobs in (do expire_rows now rows; pure (length rows)) db

-- register_worker
unfoldable pub register_worker :
    (sha256 : String → String)
    → (worker_id token : String) → (profiles : List String) → (max_concurrent now : ℕ) → Db
    → Db
register_worker sha256 worker_id token profiles max_concurrent now db =
    if is_some (find (by_worker_id worker_id) db.workers)
    then record db {
      workers =
          update (by_worker_id worker_id)
            (λ w. record w {
              token_hash = sha256 token;
              supported_profiles = profiles;
              max_concurrent = max_concurrent;
              last_heartbeat = now;
              status = WorkerStatus.idle;
            })
            db.workers;
    }
    else record db {
      workers =
          record {
            worker_id = worker_id;
            token_hash = sha256 token;
            supported_profiles = profiles;
            max_concurrent = max_concurrent;
            status = WorkerStatus.idle;
            current_job_id = none;
            last_heartbeat = now;
            registered_at = now;
          }
          ∷ db.workers;
    }

-- verify_worker_token
unfoldable pub verify_worker_token :
    (sha256 : String → String) → (worker_id token : String) → Db → Bool
verify_worker_token sha256 worker_id token db = elim (find (by_worker_id worker_id) db.workers) [
  | none ↦ false
  | some w ↦ str_eq w.token_hash (sha256 token)
]

-- update_worker_heartbeat
unfoldable pub update_worker_heartbeat : (worker_id : String) → (now : ℕ) → Db → Db
update_worker_heartbeat worker_id now db = record db {
  workers = update (by_worker_id worker_id) (λ w. record w { last_heartbeat = now }) db.workers;
}
