-- ===== src/Requests/Dispatch.antt =====
-- `dispatch_ci_request` of app/ci_request_store.py: binding a Worker Job and queueing the request
-- in one transaction.
use github_mcp.Tx.{
  M, Result, ok, err, pure, reading, ◌>>=◌, ◌>>◌, atomically, value_error, not_found,
  illegal_transition, integrity_error, revision_conflict, identity_mismatch,
}
use github_mcp.Prelude.{
  String, ℕ, List, Option, Bool, some, if◌then◌else◌, true, false, truthy, not, ◌&&◌, ◌+◌, none,
  col_eq, ◌==◌,
}
use github_mcp.Schema.{Phase, Db, Request, Payload, EventType, Job, RequestStatus}
use github_mcp.Requests.Queries.{
  NewEvent, is_sha, get_ci_request, assert_worker_job_identity, insert_event,
  get_ci_request_payload,
}
use github_mcp.Jobs.Create.{NewJob, Created, create_request_job}
use github_mcp.Requests.Lifecycle.{phase_eq, status_eq}
use github_mcp.Requests.Transition.{read_back, is_worker_taken, cas_update, at_stage}
use github_mcp.Tx.Check

-- The arguments behind the request id.
pub record DispatchArgs : Type 0 where
  pub expected_revision : ℕ
  pub tree_sha : String
  pub changed_files : List String
  pub changed_files_total : ℕ
  pub changed_files_truncated : Bool

-- phase in {"queued", "running", "terminal"}
abbrev pub is_dispatched : Phase → Bool
is_dispatched Phase.queued = true
is_dispatched Phase.running = true
is_dispatched Phase.terminal = true
is_dispatched _ = false

-- row["tree_sha"] and row["tree_sha"] != tree_sha
abbrev other_tree : Request → String → Bool
other_tree r tree = truthy r.tree_sha && not (col_eq r.tree_sha tree)

-- The job that a payload asks for, if it has all of priority, timeout_seconds, base_sha and
-- supersede_previous.
abbrev pub job_of_fields :
    Request → DispatchArgs → Option ℕ → Option ℕ → Option String → Option Bool → Option NewJob
job_of_fields r a (some priority) (some timeout) (some base) (some supersede) = some (record {
  repository = r.repository;
  branch = r.branch;
  commit_sha = r.commit_sha;
  profile = r.profile;
  priority = priority;
  timeout_seconds = timeout;
  force_rerun = false;
  supersede_previous = supersede;
  base_sha = base;
  changed_files = a.changed_files;
  changed_files_total = some a.changed_files_total;
  changed_files_truncated = a.changed_files_truncated;
})
job_of_fields r a _ _ _ _ = none

abbrev pub job_of_payload : Request → DispatchArgs → Payload → Option NewJob
job_of_payload r a p =
    job_of_fields r a p.priority p.timeout_seconds p.base_sha p.supersede_previous

-- The guards between the SELECT and the creation of the job, for a request not yet dispatched.
unfoldable pub check_dispatch : Db → DispatchArgs → Request → Result NewJob
check_dispatch db a row =
    if not (phase_eq row.phase Phase.preparing && status_eq row.status RequestStatus.preparing)
    then err illegal_transition
    else if not (row.revision == a.expected_revision)
    then err revision_conflict
    else if other_tree row a.tree_sha
    then err identity_mismatch
    else Check.found (job_of_payload row a (get_ci_request_payload db row.request_id))
        illegal_transition

abbrev pub queued_event : NewEvent
queued_event = record {
  event_type = EventType.worker_queued;
  from_phase = some Phase.preparing;
  from_status = some RequestStatus.preparing;
  to_phase = Phase.queued;
  to_status = RequestStatus.queued;
  request_payload = none;
}

abbrev pub dispatched_row :
    DispatchArgs → (worker_job_id : String) → (event_id now : ℕ) → Request → Request
dispatched_row a w event_id now r = record r {
  tree_sha = some a.tree_sha;
  worker_job_id = some w;
  phase = Phase.queued;
  status = RequestStatus.queued;
  revision = r.revision + 1;
  updated_at = now;
  last_event_id = some event_id;
}

-- The writes on the request, once its job is there.
unfoldable pub bind_job : DispatchArgs → (now : ℕ) → Request → Created → M Db (Option Job)
bind_job a now row c = do
  reading (λ db. assert_worker_job_identity db row c.job.job_id)
  event_id ← insert_event row.request_id (a.expected_revision + 1) queued_event now
  reading (λ db.
      if is_worker_taken db row.request_id (some c.job.job_id) then err integrity_error else ok tt)
  cas_update (at_stage row.request_id a.expected_revision Phase.preparing RequestStatus.preparing)
      (dispatched_row a c.job.job_id event_id now)
  pure (some c.job)

-- The part of the transaction for a request that was not dispatched before. `job_id` is the
-- identifier that `uuid4` draws for a new job.
abbrev pub dispatch_fresh : String → DispatchArgs → (now : ℕ) → Request → M Db (Option Job)
dispatch_fresh job_id a now row = do
  n ← reading (λ db. check_dispatch db a row)
  created ← create_request_job row.request_id job_id n now
  bind_job a now row created

-- The transaction for the row that it read: the job that was bound, or `none` for a request that
-- had been dispatched before.
unfoldable pub dispatch_row : String → DispatchArgs → (now : ℕ) → Request → M Db (Option Job)
dispatch_row job_id a now row db =
    if is_dispatched row.phase then (ok none, db) else dispatch_fresh job_id a now row db

unfoldable pub dispatch_body : String → String → DispatchArgs → (now : ℕ) → M Db (Option Job)
dispatch_body id job_id a now = do
  row ← reading (λ db. Check.found (get_ci_request db id) not_found)
  dispatch_row job_id a now row

-- What the caller gets: the request and, where it was bound now, its job.
pub record Dispatched : Type 0 where
  pub request : Request
  pub worker_job : Option Job

unfoldable pub dispatch_ci_request : String → String → DispatchArgs → (now : ℕ) → M Db Dispatched
dispatch_ci_request id job_id a now = do
  reading (λ _. if is_sha a.tree_sha then ok tt else err value_error)
  bound ← atomically (dispatch_body id job_id a now)
  r ← read_back id
  pure (record { request = r; worker_job = bound })
