-- ===== src/Jobs/Create.antt =====
-- `_create_or_get_job_in_transaction`, `create_or_get_job` and
-- `create_ci_request_job_in_transaction` of app/ci_database.py.
use Prim.Native.String.{◌++◌ as append}
use github_mcp.Table.{select, first_by}
use github_mcp.Prelude.{
  String, Option, Bool, true, List, str_eq, ℕ, ltb, ◌&&◌, none, some, false, if◌then◌else◌, length,
  ◌∷◌, [], ◌||◌, not, is_some, ◌==◌,
}
use github_mcp.Schema.{JobStatus, Job, Db, is_queued, pos, is_active, JobEventKind}
use github_mcp.Jobs.Queue.{upsert_queue_state, matching_jobs, add_job_event, minus_one, update_jobs}
use github_mcp.Requests.Queries.{get_job}
use github_mcp.Tx.{M, ok, err, pure, modify, ◌>>◌, atomically, integrity_error}

-- The arguments of `_create_or_get_job_in_transaction`.
pub record NewJob : Type 0 where
  pub repository : String
  pub branch : String
  pub commit_sha : String
  pub profile : String
  pub priority : ℕ
  pub timeout_seconds : ℕ
  pub force_rerun : Bool
  pub supersede_previous : Bool
  pub base_sha : String
  pub changed_files : List String
  pub changed_files_total : Option ℕ
  pub changed_files_truncated : Bool

pub record Created : Type 0 where
  pub job : Job
  pub deduplicated : Bool
  pub superseded_job_ids : List String

-- status IN ('queued', 'leased', 'downloading', 'preparing', 'running', 'passed')
abbrev pub is_reusable : JobStatus → Bool
is_reusable JobStatus.passed = true
is_reusable s = is_queued s || is_active s

-- ORDER BY created_at DESC; rows of one time stand in the table's order, the newest first.
abbrev newer_job : Job → Job → Bool
newer_job a b = ltb b.created_at a.created_at

unfoldable pub reusable_job : String → Db → Option Job
reusable_job idem_key db =
    first_by newer_job
      (select (λ j. str_eq j.idempotency_key idem_key && is_reusable j.status) db.jobs)

-- A queued job of the same repository, branch and profile under another key.
abbrev pub is_superseded_by : NewJob → String → Job → Bool
is_superseded_by n idem_key j =
    str_eq j.repository n.repository
    && str_eq j.branch n.branch
    && str_eq j.profile n.profile
    && is_queued j.status
    && not (str_eq j.idempotency_key idem_key)

abbrev pub queued_at_id : String → Job → Bool
queued_at_id id j = str_eq j.job_id id && is_queued j.status

abbrev pub superseded_row : String → (now : ℕ) → Job → Job
superseded_row new_id now j = record j {
  status = JobStatus.superseded;
  superseded_by_job_id = some new_id;
  finished_at = some now;
  worker_id = none;
  lease_token_hash = none;
  lease_expires_at = none;
}

-- One round of the loop over the superseded rows.
unfoldable pub supersede_one : String → (now : ℕ) → Job → Db → Db
supersede_one new_id now old db =
    if matching_jobs (queued_at_id old.job_id) db == 1
    then add_job_event old.job_id (JobEventKind.superseded old.job_id new_id) now (
        upsert_queue_state old.repository minus_one (pos 0) none
          (update_jobs (queued_at_id old.job_id) (superseded_row new_id now) db))
    else db

-- The loop, to the ids of the jobs that it superseded.
unfoldable pub supersede_all : String → (now : ℕ) → List Job → Db → List String × Db
supersede_all new_id now [] db = ([], db)
supersede_all new_id now (old ∷ rest) db =
    let hit = matching_jobs (queued_at_id old.job_id) db == 1 in
    let (ids, db') = supersede_all new_id now rest (supersede_one new_id now old db) in
    ((if hit then old.job_id ∷ ids else ids), db')

-- The rows that `supersede_previous` selects.
unfoldable pub superseded_rows : NewJob → String → Db → List Job
superseded_rows n idem_key db =
    if n.supersede_previous then select (is_superseded_by n idem_key) db.jobs else []

abbrev total_or_length : Option ℕ → List String → ℕ
total_or_length none files = length files
total_or_length (some n) files = n

-- The INSERT, with the table's defaults.
abbrev pub queued_row : String → String → NewJob → (now : ℕ) → Job
queued_row id idem_key n now = record {
  job_id = id;
  idempotency_key = idem_key;
  repository = n.repository;
  branch = n.branch;
  commit_sha = n.commit_sha;
  base_sha = n.base_sha;
  changed_files = n.changed_files;
  changed_files_total = total_or_length n.changed_files_total n.changed_files;
  changed_files_truncated = n.changed_files_truncated;
  profile = n.profile;
  priority = n.priority;
  status = JobStatus.queued;
  worker_id = none;
  lease_token_hash = none;
  lease_expires_at = none;
  is_cancel_requested = false;
  superseded_by_job_id = none;
  attempts = 0;
  max_attempts = 2;
  exit_code = none;
  summary = none;
  source_sha256 = none;
  source_size_bytes = none;
  timeout_seconds = n.timeout_seconds;
  error_code = none;
  error_message = none;
  created_at = now;
  queued_at = some now;
  started_at = none;
  finished_at = none;
  duration_seconds = none;
  log_total_bytes = 0;
}

-- INSERT INTO ci_jobs, with its PRIMARY KEY.
unfoldable pub insert_job : Job → M Db (Unit {0})
insert_job j db =
    if is_some (get_job db j.job_id)
    then (err integrity_error, db)
    else (ok tt, record db { jobs = j ∷ db.jobs })

-- The INSERT, its queue count and the reply.
unfoldable pub insert_created : String → String → NewJob → (now : ℕ) → List String → M Db Created
insert_created id idem_key n now ids = do
  insert_job (queued_row id idem_key n now)
  modify (upsert_queue_state n.repository (pos 1) (pos 0) none)
  pure (record {
    job = queued_row id idem_key n now;
    deduplicated = false;
    superseded_job_ids = ids;
  })

-- The writes of a new job; `id` is the identifier that `uuid4` draws.
unfoldable pub insert_new : String → String → NewJob → (now : ℕ) → List Job → M Db Created
insert_new id idem_key n now olds db =
    let (ids, db') = supersede_all id now olds db in insert_created id idem_key n now ids db'

-- The job that a call without `force_rerun` returns instead of a new one.
abbrev pub reusable_unless : Bool → String → Db → Option Job
reusable_unless true idem_key db = none
reusable_unless false idem_key db = reusable_job idem_key db

-- _create_or_get_job_in_transaction
unfoldable pub create_or_get_in_transaction : String → String → NewJob → (now : ℕ) → M Db Created
create_or_get_in_transaction id idem_key n now db =
    elim (reusable_unless n.force_rerun idem_key db) [
      | some j ↦ (ok (record { job = j; deduplicated = true; superseded_job_ids = [] }), db)
      | none ↦ insert_new id idem_key n now (superseded_rows n idem_key db) db
    ]

-- create_or_get_job; `make_key` is `make_idempotency_key`, a digest.
unfoldable pub create_or_get_job :
    (make_key : String → String → String → String) → String → NewJob → (now : ℕ) → M Db Created
create_or_get_job make_key id n now =
    atomically
      (create_or_get_in_transaction id (make_key n.repository n.commit_sha n.profile) n now)

-- f"ci-request:{request_id}"
unfoldable pub request_key : String → String
request_key request_id = append "ci-request:" request_id

-- create_ci_request_job_in_transaction
unfoldable pub create_request_job : (request_id id : String) → NewJob → (now : ℕ) → M Db Created
create_request_job request_id id n now =
    create_or_get_in_transaction id (request_key request_id) (record n { force_rerun = false }) now
