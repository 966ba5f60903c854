-- ===== src/Requests/Reconcile.antt =====
-- The projection of a Worker Job onto its request, app/ci_request_store.py:
-- `_matching_attestation_in_db`, `reconcile_worker_request_in_db`,
-- `reconcile_pending_worker_requests_in_db` and `reconcile_worker_request`.
use Prim.Native.String.{compare}
use text.Mathlib.Text.{is_lt}
use github_mcp.Tx.{M, ok, pure, ◌>>=◌, ◌>>◌, atomically}
use github_mcp.Table.{select, first_by}
use github_mcp.Schema.{
  JobStatus, Phase, Job, Db, Request, EventType, Attestation, RequestStatus, Summary, object,
  is_zero, malformed, not_object,
}
use github_mcp.Prelude.{
  List, Option, ℕ, String, if◌then◌else◌, ◌∷◌, Bool, ◌+◌, some, truthy, none, ◌&&◌, ltb, str_eq,
  not, coalesce, true, is_some, col_eq, false, opt_eq, ◌||◌, [], ◌==◌,
}
use github_mcp.Requests.Queries.{
  NewEvent, get_ci_request_by_worker_job_id, is_sha, insert_event, get_job, same_source,
}
use github_mcp.Requests.Lifecycle.{is_terminal, phase_eq, status_eq}
use github_mcp.Requests.Transition.{cas_update, at_stage}

-- The attestation that may be linked: active, not revoked, not expired, and of this exact job.
abbrev attests : Request → Job → String → (now : ℕ) → Attestation → Bool
attests r j tree now a =
    str_eq a.private_ci_job_id j.job_id
    && str_eq a.repository r.repository
    && str_eq a.tested_commit_sha r.commit_sha
    && str_eq a.tested_tree_sha tree
    && str_eq a.profile r.profile
    && a.is_active
    && not (is_some a.revoked_at)
    && ltb now a.expires_at

abbrev is_passed : JobStatus → Bool
is_passed JobStatus.passed = true
is_passed _ = false

-- ORDER BY created_at DESC, attestation_id DESC; texts in the order of their code points.
abbrev newer : Attestation → Attestation → Bool
newer a b =
    ltb b.created_at a.created_at
    || (a.created_at == b.created_at) && is_lt (compare b.attestation_id a.attestation_id)

-- _matching_attestation_in_db
unfoldable pub matching_attestation : Db → Request → Job → String → (now : ℕ) → Option String
matching_attestation db r j tree now =
    if is_passed j.status
    then (elim (first_by newer (select (attests r j tree now) db.attestations)) [
      | none ↦ none
      | some a ↦ some a.attestation_id
    ])
    else none

-- The tree that a job's summary names; `none` where the summary cannot be read.
abbrev pub summary_tree : Option Summary → Option (Option String)
summary_tree none = some none
summary_tree (some malformed) = none
summary_tree (some not_object) = some none
summary_tree (some (object tree)) = some tree

-- The stage that a job's status calls for, if any.
abbrev pub worker_target : JobStatus → Option (Phase × RequestStatus)
worker_target JobStatus.passed = some (Phase.terminal, RequestStatus.passed)
worker_target JobStatus.failed = some (Phase.terminal, RequestStatus.failed)
worker_target JobStatus.timed_out = some (Phase.terminal, RequestStatus.timed_out)
worker_target JobStatus.cancelled = some (Phase.terminal, RequestStatus.cancelled)
worker_target JobStatus.superseded = some (Phase.terminal, RequestStatus.superseded)
worker_target JobStatus.worker_lost = some (Phase.terminal, RequestStatus.worker_lost)
worker_target JobStatus.internal_error = some (Phase.terminal, RequestStatus.internal_error)
worker_target JobStatus.running = some (Phase.running, RequestStatus.running)
worker_target _ = none

-- The job proves the request's tree: what it names is that tree, and a passed job names it and
-- exited with 0.
unfoldable pub proves_tree : Job → Option String → String → Bool
proves_tree j job_tree tree =
    not (truthy job_tree && not (opt_eq job_tree (some tree)))
    && not (is_passed j.status && not (opt_eq job_tree (some tree)))
    && not (is_passed j.status && not (elim j.exit_code [ none ↦ false | some c ↦ is_zero c ]))

-- Whether a request at (p, s) may be moved to (p', s'): never out of `terminal`, never from
-- `running` to itself.
unfoldable pub may_project : Phase → RequestStatus → Phase → RequestStatus → Bool
may_project Phase.queued s p' s' = true
may_project Phase.running s p' s' =
    not (phase_eq p' Phase.running && status_eq s' RequestStatus.running)
may_project Phase.terminal s p' s' = phase_eq p' Phase.terminal && status_eq s s'
may_project _ s p' s' = false

-- current != target
abbrev pub differs : Request → Phase → RequestStatus → Bool
differs r p s = not (phase_eq r.phase p && status_eq r.status s)

-- attestation_id and attestation_id != request["attestation_id"]
abbrev pub relinks : Option String → Option String → Bool
relinks attestation current = truthy attestation && not (opt_eq attestation current)

-- What a reconciliation that writes is about to write.
pub record Projection : Type 0 where
  pub request : Request
  pub tree : String
  pub to_phase : Phase
  pub to_status : RequestStatus
  pub attestation_id : Option String

-- From the stage that the job calls for: the guards on the request's own stage.
unfoldable pub project_to :
    Db → Request → Job → String → (now : ℕ) → Option (Phase × RequestStatus) → Option Projection
project_to db r j tree now none = none
project_to db r j tree now (some (p, s)) =
    let attestation = matching_attestation db r j tree now in
    if may_project r.phase r.status p s && (differs r p s || relinks attestation r.attestation_id)
    then some (record {
      request = r;
      tree = tree;
      to_phase = p;
      to_status = s;
      attestation_id = attestation;
    })
    else none

-- The guards on the job's evidence.
unfoldable pub project_with :
    Db → Request → Job → (now : ℕ) → Option (Option String) → Option String → Option Projection
project_with db r j now none tree = none
project_with db r j now (some job_tree) none = none
project_with db r j now (some job_tree) (some tree) =
    if is_sha tree && proves_tree j job_tree tree
    then project_to db r j tree now (worker_target j.status)
    else none

-- Everything in `reconcile_worker_request_in_db` above its writes; `none` is `return False`.
unfoldable pub projection : Db → String → (now : ℕ) → Option Projection
projection db worker_job_id now = elim (get_ci_request_by_worker_job_id db worker_job_id) [
  | none ↦ none
  | some r ↦ elim (get_job db worker_job_id) [
    | none ↦ none
    | some j ↦
        if same_source j r
        then project_with db r j now (summary_tree j.summary) r.tree_sha
        else none
  ]
]

abbrev projection_type : Projection → EventType
projection_type q =
    if differs q.request q.to_phase q.to_status
    then (if is_terminal q.to_phase
        then EventType.worker_terminal_reconciled
        else EventType.worker_running_reconciled)
    else EventType.worker_attestation_linked

abbrev pub projection_event : Projection → NewEvent
projection_event q = record {
  event_type = projection_type q;
  from_phase = some q.request.phase;
  from_status = some q.request.status;
  to_phase = q.to_phase;
  to_status = q.to_status;
  request_payload = none;
}

abbrev pub projection_row : Projection → (event_id now : ℕ) → Request → Request
projection_row q event_id now r = record r {
  phase = q.to_phase;
  status = q.to_status;
  revision = r.revision + 1;
  updated_at = now;
  last_event_id = some event_id;
  attestation_id = coalesce q.attestation_id r.attestation_id;
}

-- The WHERE of the UPDATE.
abbrev pub at_projection : Projection → String → Request → Bool
at_projection q worker_job_id r =
    at_stage q.request.request_id q.request.revision q.request.phase q.request.status r
    && col_eq r.worker_job_id worker_job_id
    && col_eq r.tree_sha q.tree

-- The writes.
unfoldable pub apply_projection : String → (now : ℕ) → Projection → M Db Bool
apply_projection worker_job_id now q = do
  event_id ← insert_event q.request.request_id (q.request.revision + 1) (projection_event q) now
  cas_update (at_projection q worker_job_id) (projection_row q event_id now)
  pure true

-- reconcile_worker_request_in_db, under a transaction of the caller
unfoldable pub reconcile_in_db : String → (now : ℕ) → M Db Bool
reconcile_in_db worker_job_id now db = elim (projection db worker_job_id now) [
  | none ↦ (ok false, db)
  | some q ↦ apply_projection worker_job_id now q db
]

-- reconcile_worker_request
unfoldable pub reconcile_worker_request : String → (now : ℕ) → M Db Bool
reconcile_worker_request worker_job_id now = atomically (reconcile_in_db worker_job_id now)

-- The rows of `reconcile_pending_worker_requests_in_db`.
abbrev pub is_pending : Request → Bool
is_pending r =
    is_some r.worker_job_id
    && (not (is_terminal r.phase)
        || status_eq r.status RequestStatus.passed && not (is_some r.attestation_id))

-- The loop over the selected rows, in the table's order: how many were changed.
unfoldable pub reconcile_rows : List Request → (now : ℕ) → M Db ℕ
reconcile_rows [] now db = (ok 0, db)
reconcile_rows (r ∷ rs) now db = elim r.worker_job_id [
  | none ↦ reconcile_rows rs now db
  | some w ↦
      (do
        changed ← reconcile_in_db w now
        n ← reconcile_rows rs now
        pure (if changed then n + 1 else n))
        db
]

-- reconcile_pending_worker_requests_in_db
unfoldable pub reconcile_pending : (now : ℕ) → M Db ℕ
reconcile_pending now db = reconcile_rows (select is_pending db.requests) now db
