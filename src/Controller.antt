-- ===== src/Controller.antt =====
-- The controller as a whole: one step for each write that app/ci_database.py and
-- app/ci_request_store.py offer, and runs of such steps on one database. SQLite serialises the
-- writers, so a run is the sequence in which the transactions took the write lock.
pub mod Lifecycle
pub mod Again
use github_mcp.Prelude.{◌∷◌}
use github_mcp.Schema.{Db, Phase, RequestStatus, JobStatus}
use github_mcp.Requests.Create.{NewRequest, create_or_get_ci_request}
use github_mcp.Requests.Transition.{transition_ci_request}
use github_mcp.Requests.Checks.{TransitionArgs}
use github_mcp.Requests.Dispatch.{dispatch_ci_request, DispatchArgs}
use github_mcp.Requests.Reconcile.{reconcile_worker_request, reconcile_pending}
use github_mcp.Jobs.Create.{NewJob, create_or_get_job}
use github_mcp.Jobs.Finish.{
  Completion, release_job, complete_job, request_cancel_job, cancel_queued_job, set_job_status,
  set_job_source_downloaded,
}
use github_mcp.Jobs.Lease.{lease_job, renew_lease}
use github_mcp.Jobs.Recover.{
  recover_worker_jobs, recover_expired_leases, register_worker, update_worker_heartbeat,
}
use github_mcp.Prelude.{String, ℕ, [], List, Option}

pub data Op : Type 0 where
  create_request : (id : String) → NewRequest → Op
  transition : (id : String) (revision : ℕ) → Phase → RequestStatus → TransitionArgs → Op
  dispatch : (id job_id : String) → DispatchArgs → Op
  reconcile : (worker_job_id : String) → Op
  reconcile_all : Op
  create_job : (id key : String) → NewJob → Op
  lease : (worker_id token : String) (profiles : List String) (max_concurrent : ℕ) → Op
  renew : (job_id token worker_id : String) → Op
  complete : (job_id : String) → Completion → (worker_id token : Option String) → Op
  request_cancel : (job_id : String) → Op
  cancel_queued : (job_id : String) → Op
  release : (job_id : String) (worker_id token : Option String) → Op
  set_status : (job_id : String) → JobStatus → (worker_id token : Option String) → Op
  source_downloaded : (job_id digest : String) (size : ℕ) (worker_id token : String) → Op
  recover_worker : (worker_id : String) → Op
  recover_expired : Op
  register : (worker_id token : String) (profiles : List String) (max_concurrent : ℕ) → Op
  heartbeat : (worker_id : String) → Op

-- The database after one operation at the time `now`, whether it returned or raised.
unfoldable pub run_op : (sha256 : String → String) → Op → (now : ℕ) → Db → Db
run_op sha256 (create_request id n) now db = (create_or_get_ci_request id n now db).1
run_op sha256 (transition id n p s args) now db = (transition_ci_request id n p s args now db).1
run_op sha256 (dispatch id job_id a) now db = (dispatch_ci_request id job_id a now db).1
run_op sha256 (reconcile w) now db = (reconcile_worker_request w now db).1
run_op sha256 reconcile_all now db = (reconcile_pending now db).1
run_op sha256 (create_job id key n) now db = (create_or_get_job (λ _ _ _. key) id n now db).1
run_op sha256 (lease w t ps m) now db = (lease_job sha256 w t ps m now db).1
run_op sha256 (renew id t w) now db = (renew_lease sha256 id t w now db).1
run_op sha256 (complete id c w t) now db = (complete_job sha256 id c w t now db).1
run_op sha256 (request_cancel id) now db = (request_cancel_job id now db).1
run_op sha256 (cancel_queued id) now db = (cancel_queued_job id now db).1
run_op sha256 (release id w t) now db = (release_job sha256 id w t now db).1
run_op sha256 (set_status id s w t) now db = (set_job_status sha256 id s w t now db).1
run_op sha256 (source_downloaded id d n w t) now db =
    (set_job_source_downloaded sha256 id d n w t now db).1
run_op sha256 (recover_worker w) now db = (recover_worker_jobs w now db).1
run_op sha256 recover_expired now db = (recover_expired_leases now db).1
run_op sha256 (register w t ps m) now db = register_worker sha256 w t ps m now db
run_op sha256 (heartbeat w) now db = update_worker_heartbeat w now db

-- A run: operations with the times at which they happen.
unfoldable pub run : (sha256 : String → String) → List (Op × ℕ) → Db → Db
run sha256 [] db = db
run sha256 ((o, now) ∷ rest) db = run sha256 rest (run_op sha256 o now db)

-- The database that `init_db` creates.
unfoldable pub empty_db : Db
empty_db = record {
  jobs = [];
  workers = [];
  queue_states = [];
  job_events = [];
  requests = [];
  request_events = [];
  attestations = [];
  next_event_id = 1;
}
