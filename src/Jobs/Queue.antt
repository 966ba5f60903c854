-- ===== src/Jobs/Queue.antt =====
-- The small writers of app/ci_database.py that the job operations share: `_upsert_repo_queue_state`,
-- `set_worker_busy`, `set_worker_idle`, the release of a worker's pointer, and `_add_event`.
use github_mcp.Prelude.{
  String, Option, ℕ, Bool, some, ◌+◌, none, if◌then◌else◌, str_eq, ◌∷◌, ◌&&◌, ◌-◌, is_some, col_eq,
  suc,
}
use github_mcp.Schema.{ℤ, Job, QueueState, Worker, JobEventKind, negsuc, Db, pos, WorkerStatus}
use github_mcp.Table.{find, update, count}

-- MAX(0, n + delta)
unfoldable pub add_delta : ℕ → ℤ → ℕ
add_delta n (pos d) = n + d
add_delta n (negsuc d) = n - suc d

abbrev pub minus_one : ℤ
minus_one = negsuc 0

abbrev by_repository : String → QueueState → Bool
by_repository repository q = str_eq q.repository repository

abbrev or_else : Option ℕ → ℕ → ℕ
or_else none n = n
or_else (some m) n = m

abbrev queue_row : (queued_delta running_delta : ℤ) → (last : Option ℕ) → QueueState → QueueState
queue_row queued_delta running_delta last q = record q {
  queued_jobs = add_delta q.queued_jobs queued_delta;
  running_jobs = add_delta q.running_jobs running_delta;
  last_dispatched_at = or_else last q.last_dispatched_at;
}

-- _upsert_repo_queue_state
unfoldable pub upsert_queue_state :
    String → (queued_delta running_delta : ℤ) → (last : Option ℕ) → Db → Db
upsert_queue_state repository queued_delta running_delta last db =
    if is_some (find (by_repository repository) db.queue_states)
    then record db {
      queue_states =
          update (by_repository repository) (queue_row queued_delta running_delta last)
            db.queue_states;
    }
    else record db {
      queue_states =
          record {
            repository = repository;
            last_dispatched_at = or_else last 0;
            running_jobs = add_delta 0 running_delta;
            queued_jobs = add_delta 0 queued_delta;
          }
          ∷ db.queue_states;
    }

abbrev pub by_worker_id : String → Worker → Bool
by_worker_id id w = str_eq w.worker_id id

-- set_worker_busy
unfoldable pub set_worker_busy : (worker_id job_id : String) → Db → Db
set_worker_busy worker_id job_id db = record db {
  workers =
      update (by_worker_id worker_id)
        (λ w. record w { status = WorkerStatus.busy; current_job_id = some job_id }) db.workers;
}

-- set_worker_idle
unfoldable pub set_worker_idle : (worker_id : String) → Db → Db
set_worker_idle worker_id db = record db {
  workers =
      update (by_worker_id worker_id)
        (λ w. record w { status = WorkerStatus.idle; current_job_id = none }) db.workers;
}

-- if owning_worker_id: UPDATE ci_workers … WHERE worker_id = ? AND current_job_id = ?
unfoldable pub free_worker : (owner : Option String) → (job_id : String) → Db → Db
free_worker none job_id db = db
free_worker (some owner) job_id db = if str_eq owner "" then db else record db {
  workers =
      update (λ w. by_worker_id owner w && col_eq w.current_job_id job_id)
        (λ w. record w { status = WorkerStatus.idle; current_job_id = none }) db.workers;
}

-- _add_event
unfoldable pub add_job_event : String → JobEventKind → (now : ℕ) → Db → Db
add_job_event job_id kind now db = record db {
  job_events = record { job_id = job_id; event_type = kind; created_at = now } ∷ db.job_events;
}

-- UPDATE ci_jobs SET f WHERE p
unfoldable pub update_jobs : (Job → Bool) → (Job → Job) → Db → Db
update_jobs p f db = record db { jobs = update p f db.jobs }

-- `cursor.rowcount` of that UPDATE
unfoldable pub matching_jobs : (Job → Bool) → Db → ℕ
matching_jobs p db = count p db.jobs
