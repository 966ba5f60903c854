-- ===== src/Jobs/Workers.antt =====
-- Stale Worker pointers and job priorities: `reconcile_worker_startup` and
-- `reconcile_stale_workers` (the second definition, which replaces the first) of
-- app/ci_database.py, and `effective_priority` of app/ci_models.py.
pub mod Stale
use github_mcp.Prelude.{
  [], none, some, true, false, ◌∷◌, Option, length, if◌then◌else◌, List, ℕ, String, Bool, leb,
  str_eq, ◌≡◌, ◌&&◌, ltb, ◌+◌, arith,
}
use github_mcp.Schema.{JobStatus, WorkerStatus, Db, Job, Worker}
use github_mcp.Table.{find, update, select, count}
use github_mcp.Jobs.Queue.{by_worker_id, set_worker_idle}
use github_mcp.Table.Counts.{count-update_none}
use github_mcp.Requests.Queries.{get_job}

-- What `reconcile_worker_startup` reports of the pointer that it cleared, if there was one.
pub record Startup : Type 0 where
  pub current_job_id : Option String
  pub current_job_status : Option JobStatus
  pub is_lease_expired : Bool
  pub is_cleared : Bool

-- lease_expires_at is not None and lease_expires_at <= now
abbrev lease_ended : Option ℕ → (now : ℕ) → Bool
lease_ended none now = false
lease_ended (some t) now = leb t now

abbrev nothing_to_clear : Startup
nothing_to_clear = record {
  current_job_id = none;
  current_job_status = none;
  is_lease_expired = false;
  is_cleared = false;
}

-- The report, from the joined job row.
abbrev startup_report : String → (now : ℕ) → Option Job → Startup
startup_report job_id now none = record {
  current_job_id = some job_id;
  current_job_status = none;
  is_lease_expired = false;
  is_cleared = true;
}
startup_report job_id now (some j) = record {
  current_job_id = some job_id;
  current_job_status = some j.status;
  is_lease_expired = lease_ended j.lease_expires_at now;
  is_cleared = true;
}

-- From the pointer that the Worker's row holds.
unfoldable pub clear_pointer : (worker_id : String) → (now : ℕ) → Option String → Db → Startup × Db
clear_pointer worker_id now none db = (nothing_to_clear, db)
clear_pointer worker_id now (some job_id) db =
    if str_eq job_id ""
    then (nothing_to_clear, db)
    else (startup_report job_id now (get_job db job_id), set_worker_idle worker_id db)

-- reconcile_worker_startup; `none` for a Worker that is not registered
unfoldable pub reconcile_worker_startup :
    (worker_id : String) → (now : ℕ) → Db → Option Startup × Db
reconcile_worker_startup worker_id now db = elim (find (by_worker_id worker_id) db.workers) [
  | none ↦ (none, db)
  | some w ↦
      let (report, db') = clear_pointer worker_id now w.current_job_id db in (some report, db')
]

-- job_status in ("passed", "failed", …, "worker_lost")
abbrev pub is_finished : JobStatus → Bool
is_finished JobStatus.passed = true
is_finished JobStatus.failed = true
is_finished JobStatus.timed_out = true
is_finished JobStatus.cancelled = true
is_finished JobStatus.internal_error = true
is_finished JobStatus.superseded = true
is_finished JobStatus.worker_lost = true
is_finished _ = false

-- The Worker points to a job that is finished or missing.
abbrev pub is_stale : Db → Worker → Bool
is_stale db w = elim w.current_job_id [
  | none ↦ false
  | some id ↦ elim (get_job db id) [ none ↦ true | some j ↦ is_finished j.status ]
]

-- The loop: a stale row is set idle by its worker_id.
unfoldable pub clear_stale : List Worker → Db → Db
clear_stale [] db = db
clear_stale (w ∷ rest) db = clear_stale rest (set_worker_idle w.worker_id db)

abbrev pub is_busy : WorkerStatus → Bool
is_busy WorkerStatus.idle = false
is_busy WorkerStatus.busy = true

-- last_heartbeat < ts - 120 AND status != 'idle', without a subtraction
abbrev pub is_offline : (now : ℕ) → Worker → Bool
is_offline now w = ltb (w.last_heartbeat + 120) now && is_busy w.status

abbrev pub idle_row : Worker → Worker
idle_row w = record w { status = WorkerStatus.idle; current_job_id = none }

unfoldable pub clear_offline : (now : ℕ) → Db → Db
clear_offline now db = record db { workers = update (is_offline now) idle_row db.workers }

-- reconcile_stale_workers, to the number of stale pointers
unfoldable pub reconcile_stale_workers : (now : ℕ) → Db → ℕ × Db
reconcile_stale_workers now db =
    let stale = select (is_stale db) db.workers in
    (length stale, clear_offline now (clear_stale stale db))

-- effective_priority
unfoldable pub effective_priority : (branch profile : String) → (requested : ℕ) → ℕ
effective_priority branch profile requested =
    if str_eq profile "repo-fast-check"
    then 150
    else if str_eq profile "repo-auto-check" && str_eq branch "main"
    then 130
    else if str_eq profile "repo-auto-check"
    then 100
    else requested
