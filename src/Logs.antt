-- ===== src/Logs.antt =====
-- Job logs and steps, services/github-action-service/app/ci_database.py: the tables
-- ci_job_log_chunks, ci_job_log_batches and ci_job_steps, `append_log_chunk`, `append_log_batch`,
-- `add_step`, `finish_step`. A content is the list of its code points, which is what Python's `len`
-- counts and offsets are in.
pub mod Text
pub mod Growth
pub mod Append
pub mod Ranges
pub mod StepRuns
pub mod Read
pub mod Slices
pub mod Clips
pub mod Pages
pub mod Order
pub mod Paging
pub mod Fenced
use github_mcp.Prelude.{
  List, String, ℕ, Option, if◌then◌else◌, Bool, ◌∷◌, some, none, ◌+◌, true, ◌==◌, length, suc,
  is_some, str_eq, leb, [], ◌&&◌, false, ◌||◌,
}
use github_mcp.Tx.{
  ◌>>=◌, ◌>>◌, M, require, err, ok, stale_job_lease, integrity_error, ◌>>◌, reading, modify, pure,
}
use github_mcp.Table.{select, find, update}
use github_mcp.Jobs.Queue.{add_job_event, update_jobs}
use github_mcp.Requests.Queries.{get_job, by_job_id}
use github_mcp.Jobs.Lease.{begin_job_write}
use github_mcp.Schema.{Db, Job, ℤ, pos, JobEventKind, sub_ℕ, negsuc}

-- Table ci_job_log_chunks.
pub record Chunk : Type 0 where
  pub job_id : String
  pub chunk_index : ℕ
  pub offset_from : ℕ
  pub offset_to : ℕ
  pub content : List ℕ
  pub created_at : ℕ

-- Table ci_job_log_batches.
pub record Batch : Type 0 where
  pub job_id : String
  pub batch_id : String
  pub created_at : ℕ

-- Table ci_job_steps.
pub record Step : Type 0 where
  pub id : ℕ
  pub job_id : String
  pub step_name : String
  pub status : String
  pub exit_code : Option ℤ
  pub started_at : Option ℕ
  pub finished_at : Option ℕ
  pub duration_seconds : Option ℤ
  pub log_start_offset : ℕ
  pub log_end_offset : ℕ

-- The controller's database with the log tables, and the AUTOINCREMENT counter of ci_job_steps.
pub record LogDb : Type 0 where
  pub db : Db
  pub chunks : List Chunk
  pub batches : List Batch
  pub steps : List Step
  pub next_step_id : ℕ

-- A call on the controller's tables.
abbrev pub on_db : {A : Type 0} → M Db A → M LogDb A
on_db m s = ((m s.db).0, record s { db = (m s.db).1 })

abbrev pub of_job : String → Chunk → Bool
of_job job_id c = str_eq c.job_id job_id

unfoldable pub job_chunks : String → LogDb → List Chunk
job_chunks job_id s = select (of_job job_id) s.chunks

abbrev pub max : ℕ → ℕ → ℕ
max a b = if leb a b then b else a

-- SELECT MAX(offset_to) …, 0 where there is no chunk
abbrev pub last_offset : List Chunk → ℕ
last_offset [] = 0
last_offset (c ∷ cs) = max c.offset_to (last_offset cs)

-- SELECT COALESCE(MAX(chunk_index), -1) + 1 …
abbrev pub next_index : List Chunk → ℕ
next_index [] = 0
next_index (c ∷ cs) = max (suc c.chunk_index) (next_index cs)

-- An INSERT of a row with FOREIGN KEY (job_id) REFERENCES ci_jobs
abbrev pub for_stored_job : String → M LogDb (Unit {0})
for_stored_job job_id s = require (is_some (get_job s.db job_id)) integrity_error s

abbrev pub new_chunk : String → List ℕ → (now : ℕ) → LogDb → Chunk
new_chunk job_id content now s =
    let offset = last_offset (job_chunks job_id s) in
    record {
      job_id = job_id;
      chunk_index = next_index (job_chunks job_id s);
      offset_from = offset;
      offset_to = offset + length content;
      content = content;
      created_at = now;
    }

unfoldable pub insert_chunk : String → List ℕ → (now : ℕ) → LogDb → LogDb
insert_chunk job_id content now s = record s { chunks = new_chunk job_id content now s ∷ s.chunks }

-- UPDATE ci_jobs SET log_total_bytes = log_total_bytes + ? WHERE job_id = ?, and the event
unfoldable pub count_bytes : String → ℕ → Option String → (now : ℕ) → Db → Db
count_bytes job_id bytes batch_id now db =
    add_job_event job_id (JobEventKind.log_revision bytes batch_id) now (
      update_jobs (by_job_id job_id) (λ j. record j { log_total_bytes = j.log_total_bytes + bytes })
        db)

-- append_log_chunk
unfoldable pub append_log_chunk :
    (sha256 : String → String)
    → String
    → List ℕ
    → (worker_id token : Option String) → (now : ℕ) → M LogDb ℕ
append_log_chunk sha256 job_id content worker_id token now = do
  on_db (begin_job_write sha256 job_id worker_id token now)
  offset ← reading (λ s. ok (last_offset (job_chunks job_id s)))
  for_stored_job job_id
  modify (insert_chunk job_id content now)
  on_db (modify (count_bytes job_id (length content) none now))
  pure (offset + length content)

abbrev pub is_empty : List ℕ → Bool
is_empty [] = true
is_empty _ = false

abbrev pub by_batch : String → String → Batch → Bool
by_batch job_id batch_id b = str_eq b.job_id job_id && str_eq b.batch_id batch_id

-- A batch that is not in the table.
unfoldable pub append_new_batch : String → String → List ℕ → (now : ℕ) → M LogDb (ℕ × Bool)
append_new_batch job_id batch_id content now = do
  offset ← reading (λ s. ok (last_offset (job_chunks job_id s)))
  for_stored_job job_id
  modify (λ s. record s {
    batches = record { job_id = job_id; batch_id = batch_id; created_at = now } ∷ s.batches;
  })
  modify (insert_chunk job_id content now)
  on_db (modify (count_bytes job_id (length content) (some batch_id) now))
  pure (offset + length content, false)

unfoldable pub append_batch_row : String → String → List ℕ → (now : ℕ) → M LogDb (ℕ × Bool)
append_batch_row job_id batch_id content now s =
    if str_eq batch_id "" || is_empty content
    then (ok (0, true), s)
    else if is_some (find (by_batch job_id batch_id) s.batches)
    then (ok (last_offset (job_chunks job_id s), true), s)
    else append_new_batch job_id batch_id content now s

-- append_log_batch
unfoldable pub append_log_batch :
    (sha256 : String → String)
    → String
    → String
    → List ℕ
    → (worker_id token : Option String) → (now : ℕ) → M LogDb (ℕ × Bool)
append_log_batch sha256 job_id batch_id content worker_id token now = do
  on_db (begin_job_write sha256 job_id worker_id token now)
  append_batch_row job_id batch_id content now

-- add_step
abbrev pub new_step : String → String → String → (now : ℕ) → LogDb → Step
new_step job_id step_name status now s =
    let offset = last_offset (job_chunks job_id s) in
    record {
      id = s.next_step_id;
      job_id = job_id;
      step_name = step_name;
      status = status;
      exit_code = none;
      started_at = if str_eq status "running" then some now else none;
      finished_at = none;
      duration_seconds = none;
      log_start_offset = offset;
      log_end_offset = offset;
    }

unfoldable pub add_step :
    (sha256 : String → String)
    → String
    → (step_name status : String) → (worker_id token : Option String) → (now : ℕ) → M LogDb ℕ
add_step sha256 job_id step_name status worker_id token now = do
  on_db (begin_job_write sha256 job_id worker_id token now)
  for_stored_job job_id
  id ← reading (λ s. ok s.next_step_id)
  modify (λ s. record s {
    steps = new_step job_id step_name status now s ∷ s.steps;
    next_step_id = s.next_step_id + 1;
  })
  pure id

-- The arguments of `finish_step` behind the step; a `log_end_offset` that is no number is `none`.
pub record StepEnd : Type 0 where
  pub status : String
  pub exit_code : Option ℤ
  pub log_end_offset : Option ℤ

-- min(max(requested, start), persisted), with `persisted` at least `start`
abbrev pub requested_offset : Option ℤ → ℕ → ℕ
requested_offset none persisted = persisted
requested_offset (some (pos n)) persisted = n
requested_offset (some (negsuc n)) persisted = 0

abbrev pub min : ℕ → ℕ → ℕ
min a b = if leb a b then a else b

unfoldable pub clamped_end : Option ℤ → (start total : ℕ) → ℕ
clamped_end requested start total =
    let persisted = max total start in
    min (max (requested_offset requested persisted) start) persisted

-- ts - row["started_at"] if row["started_at"] else 0
abbrev pub step_duration : Option ℕ → (now : ℕ) → ℤ
step_duration none now = pos 0
step_duration (some t) now = if t == 0 then pos 0 else sub_ℕ now t

abbrev pub finished_step : StepEnd → (now total : ℕ) → Step → Step → Step
finished_step e now total row x = record x {
  status = e.status;
  exit_code = e.exit_code;
  finished_at = some now;
  duration_seconds = some (step_duration row.started_at now);
  log_end_offset = clamped_end e.log_end_offset row.log_start_offset total;
}

abbrev pub by_step : ℕ → String → Step → Bool
by_step step_id job_id x = (x.id == step_id) && str_eq x.job_id job_id

unfoldable pub finish_row : StepEnd → (now : ℕ) → Step → LogDb → LogDb
finish_row e now row s =
    let total = last_offset (job_chunks row.job_id s) in
    record s {
      db =
          add_job_event row.job_id (JobEventKind.step_completed row.id row.step_name e.status) now
            s.db;
      steps = update (by_step row.id row.job_id) (finished_step e now total row) s.steps;
    }

unfoldable pub finish_found : StepEnd → (now : ℕ) → Option Step → M LogDb Bool
finish_found e now none s = (ok false, s)
finish_found e now (some row) s = (ok true, finish_row e now row s)

-- The SELECT of `finish_step`: under a job, or by the step alone.
unfoldable pub step_of : ℕ → Option String → LogDb → Option Step
step_of step_id none s = find (λ x. x.id == step_id) s.steps
step_of step_id (some job_id) s = find (by_step step_id job_id) s.steps

-- finish_step
unfoldable pub finish_step :
    (sha256 : String → String)
    → ℕ
    → StepEnd
    → (job_id worker_id token : Option String) → (now : ℕ) → M LogDb Bool
finish_step sha256 step_id e none none none now s = finish_found e now (step_of step_id none s) s
finish_step sha256 step_id e none worker_id token now s = (err stale_job_lease, s)
finish_step sha256 step_id e (some job_id) worker_id token now s =
    if str_eq job_id ""
    then (err stale_job_lease, s)
    else (on_db (begin_job_write sha256 job_id worker_id token now) >> λ s.
          finish_found e now (step_of step_id (some job_id) s) s)
        s
