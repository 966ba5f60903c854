-- ===== src/Requests/Transition.antt =====
-- `transition_ci_request` of app/ci_request_store.py: one compare-and-set of a request in one
-- transaction.
use github_mcp.Tx.{
  M, ok, err, reading, ◌>>=◌, ◌>>◌, atomically, operational_error, integrity_error,
  revision_conflict,
}
use github_mcp.Requests.Queries.{insert_event, get_ci_request, NewEvent, get_job}
use github_mcp.Requests.Checks.{TransitionArgs, check_transition}
use github_mcp.Schema.{Phase, Request, Db, RequestStatus, EventType}
use github_mcp.Prelude.{
  String, ℕ, Bool, Option, str_eq, false, if◌then◌else◌, ◌+◌, ◌==◌, some, ◌&&◌, coalesce, none,
  is_some, col_eq, not, ◌||◌,
}
use github_mcp.Tx.Check.{found}
use github_mcp.Requests.Lifecycle.{validate_phase_status, phase_eq, status_eq}
use github_mcp.Table.{find, update, count}

-- Another request holds the Worker Job: the table's UNIQUE (worker_job_id).
unfoldable pub is_worker_taken : Db → String → Option String → Bool
is_worker_taken db id none = false
is_worker_taken db id (some w) =
    is_some (find (λ r. col_eq r.worker_job_id w && not (str_eq r.request_id id)) db.requests)

-- No job has the id: the table's FOREIGN KEY (worker_job_id) REFERENCES ci_jobs(job_id).
unfoldable pub is_worker_missing : Db → Option String → Bool
is_worker_missing db none = false
is_worker_missing db (some w) = not (is_some (get_job db w))

-- UPDATE ci_requests SET f WHERE p, and `if cursor.rowcount != 1: raise` behind it.
unfoldable pub cas_update : (Request → Bool) → (Request → Request) → M Db (Unit {0})
cas_update p f db = (
  if count p db.requests == 1 then ok tt else err revision_conflict,
  record db { requests = update p f db.requests },
)

-- WHERE request_id = ? AND revision = ? AND phase = ? AND status = ?
abbrev pub at_stage : String → ℕ → Phase → RequestStatus → Request → Bool
at_stage id n p s r =
    str_eq r.request_id id && (r.revision == n) && phase_eq r.phase p && status_eq r.status s

abbrev pub transition_event : Phase → RequestStatus → Phase → RequestStatus → NewEvent
transition_event p s p' s' = record {
  event_type = EventType.transition;
  from_phase = some p;
  from_status = some s;
  to_phase = p';
  to_status = s';
  request_payload = none;
}

-- The assignments of the UPDATE: an optional column is set where a value is given.
abbrev pub transition_row :
    Phase → RequestStatus → TransitionArgs → (event_id now : ℕ) → Request → Request
transition_row p s args event_id now r = record r {
  phase = p;
  status = s;
  revision = r.revision + 1;
  updated_at = now;
  last_event_id = some event_id;
  worker_job_id = coalesce args.worker_job_id r.worker_job_id;
  preflight_error_id = coalesce args.metadata.preflight_error_id r.preflight_error_id;
  preflight_error_code = coalesce args.metadata.preflight_error_code r.preflight_error_code;
  terminal_reason = coalesce args.metadata.terminal_reason r.terminal_reason;
  failure_pack_id = coalesce args.metadata.failure_pack_id r.failure_pack_id;
  attestation_id = coalesce args.metadata.attestation_id r.attestation_id;
}

-- The writes, once `check_transition` has returned the row.
unfoldable pub apply_transition :
    String → ℕ → Phase → RequestStatus → TransitionArgs → (now : ℕ) → Request → M Db (Unit {0})
apply_transition id expected_revision p s args now row = do
  event_id ← insert_event id (expected_revision + 1) (transition_event row.phase row.status p s) now
  reading (λ db.
      if is_worker_taken db id args.worker_job_id || is_worker_missing db args.worker_job_id
      then err integrity_error
      else ok tt)
  cas_update (at_stage id expected_revision row.phase row.status)
      (transition_row p s args event_id now)

unfoldable pub transition_body :
    String → ℕ → Phase → RequestStatus → TransitionArgs → (now : ℕ) → M Db (Unit {0})
transition_body id expected_revision p s args now = do
  row ← reading (check_transition id expected_revision p s args)
  apply_transition id expected_revision p s args now row

-- The row read back after the commit.
unfoldable pub read_back : String → M Db Request
read_back id = reading (λ db. found (get_ci_request db id) operational_error)

unfoldable pub transition_ci_request :
    String → ℕ → Phase → RequestStatus → TransitionArgs → (now : ℕ) → M Db Request
transition_ci_request id expected_revision p s args now = do
  reading (λ _. validate_phase_status p s)
  atomically (transition_body id expected_revision p s args now)
  read_back id
