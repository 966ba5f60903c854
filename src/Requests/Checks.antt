-- ===== src/Requests/Checks.antt =====
-- The guards of `transition_ci_request`, `create_or_get_ci_request` and `dispatch_ci_request` in
-- app/ci_request_store.py: all that runs between the first SELECT and the first write.
use github_mcp.Tx.{Result, ok, identity_mismatch, illegal_transition, not_found, revision_conflict}
use github_mcp.Tx.Check.{◌>>=◌, ◌>>◌, found, require}
use github_mcp.Schema.{Db, Request, Phase, RequestStatus}
use github_mcp.Prelude.{
  Option, none, String, some, Bool, ℕ, not, if◌then◌else◌, ◌&&◌, truthy, true, false, str_eq,
  col_eq, opt_eq, ◌==◌,
}
use github_mcp.Requests.Lifecycle.{Metadata, allowed, validate_transition_metadata}
use github_mcp.Requests.Queries.{get_ci_request, assert_worker_job_identity}

-- `expected_identity`: the fields that the mapping has, each with the value expected.
pub record Identity : Type 0 where
  pub repository : Option String
  pub branch : Option String
  pub commit_sha : Option String
  pub tree_sha : Option (Option String)
  pub profile : Option String
  pub effective_config_digest : Option (Option String)

abbrev no_identity : Identity
no_identity = record {
  repository = none;
  branch = none;
  commit_sha = none;
  tree_sha = none;
  profile = none;
  effective_config_digest = none;
}

abbrev agrees : Option String → String → Bool
agrees none actual = true
agrees (some expected) actual = str_eq actual expected

abbrev pub agrees_opt : Option (Option String) → Option String → Bool
agrees_opt none actual = true
agrees_opt (some expected) actual = opt_eq actual expected

unfoldable pub matches_identity : Request → Identity → Bool
matches_identity r i =
    agrees i.repository r.repository
    && agrees i.branch r.branch
    && agrees i.commit_sha r.commit_sha
    && agrees_opt i.tree_sha r.tree_sha
    && agrees i.profile r.profile
    && agrees_opt i.effective_config_digest r.effective_config_digest

-- _assert_identity; a key that is no identity field cannot be written down here.
unfoldable pub assert_identity : Request → Identity → Result (Unit {0})
assert_identity r i = require (matches_identity r i) identity_mismatch

-- The arguments of `transition_ci_request` behind the target; no mapping is the empty one.
pub record TransitionArgs : Type 0 where
  pub expected_identity : Identity
  pub worker_job_id : Option String
  pub metadata : Metadata

-- worker_job_id or row["worker_job_id"]
abbrev pub effective_worker : Option String → Request → Option String
effective_worker none r = r.worker_job_id
effective_worker (some w) r = if str_eq w "" then r.worker_job_id else some w

abbrev pub needs_worker : Phase → Bool
needs_worker Phase.queued = true
needs_worker Phase.running = true
needs_worker _ = false

-- row["worker_job_id"] and row["worker_job_id"] != effective_worker_job_id
abbrev pub rebinds : Request → String → Bool
rebinds r w = truthy r.worker_job_id && not (col_eq r.worker_job_id w)

-- The checks on the Worker Job that a transition names or finds bound.
unfoldable pub check_worker : Db → Request → Phase → Option String → Result (Unit {0})
check_worker db r p none = require (not (needs_worker p)) illegal_transition
check_worker db r p (some w) =
    if str_eq w ""
    then require (not (needs_worker p)) illegal_transition
    else (do assert_worker_job_identity db r w; require (not (rebinds r w)) identity_mismatch)

unfoldable pub check_transition :
    String → ℕ → Phase → RequestStatus → TransitionArgs → Db → Result Request
check_transition id expected_revision p s args db = do
  row ← found (get_ci_request db id) not_found
  require (row.revision == expected_revision) revision_conflict
  assert_identity row args.expected_identity
  require (allowed row.phase row.status p s) illegal_transition
  check_worker db row p (effective_worker args.worker_job_id row)
  validate_transition_metadata p s args.metadata
  ok row
