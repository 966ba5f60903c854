-- ===== src/Jobs/Steps.antt =====
-- The job operations, as changes of the request tables: only the reconciliation of the job's own
-- request touches them.
use github_mcp.Requests.Changes.{Change, still, chain}
use github_mcp.Requests.ChangesAudit.{Change-IsAudited}
use github_mcp.Requests.Steps.{resume-Change, reconcile_in_db-Change}
use github_mcp.Jobs.Apart.{
  SameRequests, release_row-SameRequests, expire_row-SameRequests, complete_row-SameRequests,
}
use github_mcp.Schema.{Db, JobStatus, Job, JobEventKind, pos}
use github_mcp.Prelude.{
  String, Option, ℕ, List, Bool, refl, some, Bool-cases, ◌∷◌, none, true, ◌==◌, ◌&&◌, not, inl, [],
  inr, arith,
}
use github_mcp.Jobs.Queue.{add_job_event, update_jobs, upsert_queue_state, matching_jobs, minus_one}
use github_mcp.Jobs.Lease.{begin_job_write, fence}
use github_mcp.Jobs.Recover.{recover_expired_leases, expire_rows, is_expired, expire_row}
use github_mcp.Requests.Audit.{IsAudited}
use github_mcp.Requests.Queries.{get_job}
use github_mcp.Table.{find, select}
use github_mcp.Requests.Reconcile.{reconcile_in_db}
use github_mcp.Tx.{resume, pure, Result}
use github_mcp.Jobs.Create.{queued_at_id}
use github_mcp.Jobs.Finish.{
  complete_found, complete_job, cancel_queued_job, release_job, set_job_status, release_found,
  write_status, cancel_found, Completion, cancel_row, reconcile_if, may_set, complete_row,
  is_running, cancelled_row,
}

pub apart-Change : {db db' : Db} → SameRequests db' db → Change db db'
apart-Change s = still s.requests s.request_events

-- A job write and the reconciliation behind it.
pub write_reconcile-Change :
    (db db₁ : Db) (w : String) (now : ℕ)
    → SameRequests db₁ db
    → IsAudited db
    → Change db (reconcile_in_db w now db₁).1
write_reconcile-Change db db₁ w now s v =
    let c = apart-Change s in chain c (reconcile_in_db-Change w now db₁ (Change-IsAudited c v))

-- Closing a `do` block by a `pure`.
reconcile_then :
    (db db₁ : Db) (w : String) (now : ℕ) (b : Bool)
    → SameRequests db₁ db
    → IsAudited db
    → Change db (resume (reconcile_in_db w now db₁) (λ _. pure b)).1
reconcile_then db db₁ w now b s v =
    resume-Change db (reconcile_in_db w now db₁) _ (write_reconcile-Change db db₁ w now s v)
      (λ _. still refl refl)

-- A callback behind the fence of `_begin_job_write`.
pub fenced-Change :
    {B : Type 0} (sha256 : String → String) (id : String) (w t : Option String) (now : ℕ) (db : Db)
    (k : Db → Result B × Db)
    → Change db (k db).1
    → Change db (resume (begin_job_write sha256 id w t now db) (λ _. k)).1
unfolding begin_job_write
fenced-Change sha256 id w t now db k c = elim (Bool-cases (fence sha256 id w t now db)) [
  | inl e ↦ rw e c
  | inr e ↦ rw e (still refl refl)
]

complete_found-Change :
    (id : String) (c : Completion) (now : ℕ) (o : Option Job) (db : Db)
    → IsAudited db
    → Change db (complete_found id c now o db).1
unfolding complete_found
complete_found-Change id c now none db v = still refl refl
complete_found-Change id c now (some row) db v =
    reconcile_then db (complete_row id c now row db) id now true
      (complete_row-SameRequests id c now row db) v

pub complete_job-Change :
    (sha256 : String → String) (id : String) (c : Completion) (w t : Option String) (now : ℕ)
    (db : Db)
    → IsAudited db
    → Change db (complete_job sha256 id c w t now db).1
unfolding complete_job
complete_job-Change sha256 id c w t now db v =
    fenced-Change sha256 id w t now db _ (complete_found-Change id c now (get_job db id) db v)

cancel_writes-SameRequests :
    (id : String) (now : ℕ) (row : Job) (db : Db)
    → SameRequests
        (add_job_event id JobEventKind.cancelled now (
          upsert_queue_state row.repository minus_one
            (pos 0)
            none
            (update_jobs (queued_at_id id) (cancelled_row now) db)))
        db
unfolding add_job_event upsert_queue_state update_jobs
cancel_writes-SameRequests id now row db = ground arith

cancel_found-Change :
    (id : String) (now : ℕ) (o : Option Job) (db : Db)
    → IsAudited db
    → Change db (cancel_found id now o db).1
unfolding cancel_found cancel_row
cancel_found-Change id now none db v = still refl refl
cancel_found-Change id now (some row) db v =
    elim (Bool-cases (matching_jobs (queued_at_id id) db == 1)) [
      | inl e ↦ rw e (reconcile_then db _ id now true (cancel_writes-SameRequests id now row db) v)
      | inr e ↦ rw e (still refl refl)
    ]

pub cancel_queued_job-Change :
    (id : String) (now : ℕ) (db : Db) → IsAudited db → Change db (cancel_queued_job id now db).1
unfolding cancel_queued_job
cancel_queued_job-Change id now db v =
    cancel_found-Change id now (find (queued_at_id id) db.jobs) db v

release_found-Change :
    (id : String) (now : ℕ) (o : Option Job) (db : Db) → Change db (release_found id now o db).1
unfolding release_found
release_found-Change id now none db = still refl refl
release_found-Change id now (some row) db = apart-Change (release_row-SameRequests id now row db)

pub release_job-Change :
    (sha256 : String → String) (id : String) (w t : Option String) (now : ℕ) (db : Db)
    → Change db (release_job sha256 id w t now db).1
unfolding release_job
release_job-Change sha256 id w t now db =
    fenced-Change sha256 id w t now db _ (release_found-Change id now (get_job db id) db)

write_status-Change :
    (id : String) (s : JobStatus) (now n : ℕ) (db : Db)
    → IsAudited db
    → Change db (write_status id s now n db).1
unfolding write_status update_jobs reconcile_if
write_status-Change id s now n db v = elim (Bool-cases (is_running s && not (n == 0))) [
  | inl e ↦ rw (e, reconcile_if) (reconcile_then db _ id now (n == 1) (ground arith) v)
  | inr e ↦ rw (e, reconcile_if) (still refl refl)
]

pub set_job_status-Change :
    (sha256 : String → String) (id : String) (s : JobStatus) (w t : Option String) (now : ℕ)
    (db : Db)
    → IsAudited db
    → Change db (set_job_status sha256 id s w t now db).1
unfolding set_job_status
set_job_status-Change sha256 id s w t now db v =
    fenced-Change sha256 id w t now db _
      (write_status-Change id s now (matching_jobs (may_set id s) db) db v)

expire_rows-Change :
    (now : ℕ) (rows : List Job) (db : Db) → IsAudited db → Change db (expire_rows now rows db).1
unfolding expire_rows
expire_rows-Change now [] db v = still refl refl
expire_rows-Change now (row ∷ rest) db v =
    let c =
      write_reconcile-Change db (expire_row now row db) row.job_id now
        (expire_row-SameRequests now row db) v in
    resume-Change db (reconcile_in_db row.job_id now (expire_row now row db)) _ c
      λ _. expire_rows-Change now rest _ (Change-IsAudited c v)

pub recover_expired-Change :
    (now : ℕ) (db : Db) → IsAudited db → Change db (recover_expired_leases now db).1
unfolding recover_expired_leases
recover_expired-Change now db v =
    resume-Change db (expire_rows now (select (is_expired now) db.jobs) db) _
      (expire_rows-Change now (select (is_expired now) db.jobs) db v) (λ _. still refl refl)
