-- ===== src/Jobs/Apart.antt =====
-- The job writers leave the request tables alone.
use github_mcp.Jobs.Create.{
  create_or_get_in_transaction, insert_created, supersede_one, insert_new, create_request_job,
  supersede_all, NewJob, insert_job, request_key, superseded_rows,
}
use github_mcp.Schema.{Db, ℤ, Job}
use github_mcp.Jobs.Recover.{
  recover_rows, recover_one, expire_row, update_worker_heartbeat, register_worker,
  recover_worker_jobs,
}
use github_mcp.Jobs.Finish.{
  complete_row, release_row, Completion, request_cancel_job, set_job_source_downloaded,
}
use github_mcp.Prelude.{
  String, ◌∙◌, ℕ, ◌≡◌, List, Option, arith, false, ◌∷◌, [], refl, Option-cases, inl, inr,
}
use github_mcp.Jobs.Lease.{lease_job, lease_row, renew_lease, begin_job_write, next_job, held_by}
use github_mcp.Table.{select}
use github_mcp.Jobs.Queue.{
  upsert_queue_state, add_job_event, free_worker, update_jobs, set_worker_idle, set_worker_busy,
}

pub record SameRequests (db' db : Db) : Type 0 where
  pub requests : db'.requests ≡ db.requests
  pub request_events : db'.request_events ≡ db.request_events

SameRequests-trans : (a b c : Db) → SameRequests a b → SameRequests b c → SameRequests a c
SameRequests-trans a b c x y = record {
  requests = x.requests ∙ y.requests;
  request_events = x.request_events ∙ y.request_events;
}

pub upsert-SameRequests :
    (repository : String) (q r : ℤ) (last : Option ℕ) (db : Db)
    → SameRequests (upsert_queue_state repository q r last db) db
unfolding upsert_queue_state
upsert-SameRequests repository q r last db = ground arith

supersede_one-SameRequests :
    (new_id : String) (now : ℕ) (old : Job) (db : Db)
    → SameRequests (supersede_one new_id now old db) db
unfolding supersede_one upsert_queue_state add_job_event update_jobs
supersede_one-SameRequests new_id now old db = ground arith

supersede_all-SameRequests :
    (new_id : String) (now : ℕ) (olds : List Job) (db : Db)
    → SameRequests (supersede_all new_id now olds db).1 db
unfolding supersede_all
supersede_all-SameRequests new_id now [] db = record { requests = refl; request_events = refl }
supersede_all-SameRequests new_id now (old ∷ rest) db =
    SameRequests-trans (supersede_all new_id now rest (supersede_one new_id now old db)).1
      (supersede_one new_id now old db) db
      (supersede_all-SameRequests new_id now rest (supersede_one new_id now old db))
      (supersede_one-SameRequests new_id now old db)

insert_created-SameRequests :
    (id key : String) (n : NewJob) (now : ℕ) (ids : List String) (db : Db)
    → SameRequests (insert_created id key n now ids db).1 db
unfolding insert_created insert_job upsert_queue_state
insert_created-SameRequests id key n now ids db = ground arith

insert_new-SameRequests :
    (id key : String) (n : NewJob) (now : ℕ) (olds : List Job) (db : Db)
    → SameRequests (insert_new id key n now olds db).1 db
unfolding insert_new
insert_new-SameRequests id key n now olds db =
    let (ids, db') = supersede_all id now olds db in
    SameRequests-trans (insert_created id key n now ids db').1 db' db
      (insert_created-SameRequests id key n now ids db') (supersede_all-SameRequests id now olds db)

pub create_in_transaction-SameRequests :
    (id key : String) (n : NewJob) (now : ℕ) (db : Db)
    → SameRequests (create_or_get_in_transaction id key n now db).1 db
unfolding create_or_get_in_transaction
create_in_transaction-SameRequests id key n now db =
    ground (arith, insert_new-SameRequests id key n now (superseded_rows n key db) db)

pub create_request_job-SameRequests :
    (request_id id : String) (n : NewJob) (now : ℕ) (db : Db)
    → SameRequests (create_request_job request_id id n now db).1 db
unfolding create_request_job
create_request_job-SameRequests request_id id n now db =
    create_in_transaction-SameRequests id (request_key request_id)
      (record n { force_rerun = false }) now db

pub complete_row-SameRequests :
    (id : String) (c : Completion) (now : ℕ) (row : Job) (db : Db)
    → SameRequests (complete_row id c now row db) db
unfolding complete_row upsert_queue_state free_worker add_job_event update_jobs
complete_row-SameRequests id c now row db = ground arith

pub release_row-SameRequests :
    (id : String) (now : ℕ) (row : Job) (db : Db) → SameRequests (release_row id now row db) db
unfolding release_row upsert_queue_state free_worker add_job_event update_jobs
release_row-SameRequests id now row db = ground arith

pub expire_row-SameRequests :
    (now : ℕ) (row : Job) (db : Db) → SameRequests (expire_row now row db) db
unfolding expire_row upsert_queue_state free_worker add_job_event update_jobs
expire_row-SameRequests now row db = ground arith

recover_one-SameRequests :
    (w : String) (now : ℕ) (row : Job) (db : Db) → SameRequests (recover_one w now row db) db
unfolding recover_one upsert_queue_state add_job_event update_jobs
recover_one-SameRequests w now row db = ground arith

pub recover_rows-SameRequests :
    (w : String) (now : ℕ) (rows : List Job) (db : Db)
    → SameRequests (recover_rows w now rows db) db
unfolding recover_rows
recover_rows-SameRequests w now [] db = record { requests = refl; request_events = refl }
recover_rows-SameRequests w now (row ∷ rest) db =
    SameRequests-trans (recover_rows w now rest (recover_one w now row db))
      (recover_one w now row db) db
      (recover_rows-SameRequests w now rest (recover_one w now row db))
      (recover_one-SameRequests w now row db)

-- The operations that never reconcile.
lease_row-SameRequests :
    (w h : String) (now : ℕ) (row : Job) (db : Db) → SameRequests (lease_row w h now row db).1 db
unfolding lease_row upsert_queue_state set_worker_busy add_job_event update_jobs
lease_row-SameRequests w h now row db = ground arith

pub lease_job-SameRequests :
    (sha256 : String → String) (w t : String) (ps : List String) (m now : ℕ) (db : Db)
    → SameRequests (lease_job sha256 w t ps m now db).1 db
unfolding lease_job
lease_job-SameRequests sha256 w t [] m now db = record { requests = refl; request_events = refl }
lease_job-SameRequests sha256 w t (p ∷ ps) m now db = elim (Option-cases (next_job (p ∷ ps) db)) [
  | inl e ↦ ground arith
  | inr (row, e) ↦ ground (arith, lease_row-SameRequests w (sha256 t) now row db)
]

pub renew_lease-SameRequests :
    (sha256 : String → String) (id t w : String) (now : ℕ) (db : Db)
    → SameRequests (renew_lease sha256 id t w now db).1 db
unfolding renew_lease update_jobs
renew_lease-SameRequests sha256 id t w now db = ground arith

pub request_cancel-SameRequests :
    (id : String) (now : ℕ) (db : Db) → SameRequests (request_cancel_job id now db).1 db
unfolding request_cancel_job add_job_event update_jobs
request_cancel-SameRequests id now db = ground arith

pub source-SameRequests :
    (sha256 : String → String) (id d : String) (n : ℕ) (w t : String) (now : ℕ) (db : Db)
    → SameRequests (set_job_source_downloaded sha256 id d n w t now db).1 db
unfolding set_job_source_downloaded begin_job_write add_job_event update_jobs
source-SameRequests sha256 id d n w t now db = ground arith

pub recover_worker-SameRequests :
    (w : String) (now : ℕ) (db : Db) → SameRequests (recover_worker_jobs w now db).1 db
unfolding recover_worker_jobs set_worker_idle
recover_worker-SameRequests w now db =
    let s = recover_rows-SameRequests w now (select (held_by w) db.jobs) db in
    record { requests = s.requests; request_events = s.request_events }

pub register-SameRequests :
    (sha256 : String → String) (w t : String) (ps : List String) (m now : ℕ) (db : Db)
    → SameRequests (register_worker sha256 w t ps m now db) db
unfolding register_worker
register-SameRequests sha256 w t ps m now db = ground arith

pub heartbeat-SameRequests :
    (w : String) (now : ℕ) (db : Db) → SameRequests (update_worker_heartbeat w now db) db
unfolding update_worker_heartbeat
heartbeat-SameRequests w now db = record { requests = refl; request_events = refl }
