-- ===== src/Convergence/Create.antt =====
-- `create_or_get_convergence` of app/development_convergence_store.py.
use github_mcp.Convergence.{
  RunDb, Convergence, ConvergenceEvent, RunPhase, Stage, AnalysisState, Analysis, Mode, Public,
  public_view, RunKey, active_row, stored_run, is_blank, get_row,
}
use github_mcp.Convergence.Writes.{insert_run_event}
use github_mcp.Prelude.{
  [], ◌∷◌, none, some, false, ◌&&◌, ◌||◌, if◌then◌else◌, Option, String, is_some, ℕ, str_eq, List,
  not, ◌++◌, col_eq,
}
use github_mcp.Table.{find}
use github_mcp.Requests.Queries.{is_sha, is_sha256}
use github_mcp.Tx.{
  ◌>>=◌, M, ◌>>◌, reading, modify, ok, err, Result, integrity_error, value_error,
  idempotency_conflict, identity_mismatch, atomically,
}

-- The arguments of `create_or_get_convergence`.
pub record NewRun : Type 0 where
  pub repository : String
  pub branch : String
  pub development_session_id : String
  pub workspace_id : String
  pub session_revision : ℕ
  pub workspace_revision : ℕ
  pub head_sha : String
  pub tree_sha : String
  pub base_branch : String
  pub base_sha : String
  pub mode : Mode
  pub idempotency_key : String
  pub caller_identity_hash : String

-- _request_identity
pub record RunIdentity : Type 0 where
  pub repository : String
  pub branch : String
  pub development_session_id : String
  pub workspace_id : String
  pub head_sha : String
  pub tree_sha : String
  pub base_branch : String
  pub base_sha : String
  pub mode : Mode
  pub caller_identity_hash : Option String

-- value or None
abbrev pub text_or_none : String → Option String
text_or_none s = if str_eq s "" then none else some s

unfoldable pub request_identity : NewRun → RunIdentity
request_identity n = record {
  repository = n.repository;
  branch = n.branch;
  development_session_id = n.development_session_id;
  workspace_id = n.workspace_id;
  head_sha = n.head_sha;
  tree_sha = n.tree_sha;
  base_branch = n.base_branch;
  base_sha = n.base_sha;
  mode = n.mode;
  caller_identity_hash = text_or_none n.caller_identity_hash;
}

-- _validate_create_identity
unfoldable pub validate_create_identity : NewRun → Result (Unit {0})
validate_create_identity n =
    if is_blank n.repository
      || is_blank n.branch
      || is_blank n.development_session_id
      || is_blank n.workspace_id
      || is_blank n.base_branch
    then err value_error
    else if not (is_sha n.head_sha && is_sha n.tree_sha && is_sha n.base_sha)
    then err value_error
    else if not (str_eq n.caller_identity_hash "") && not (is_sha256 n.caller_identity_hash)
    then err value_error
    else ok tt

abbrev pub key_of : NewRun → RunKey
key_of n = record {
  repository = n.repository;
  development_session_id = n.development_session_id;
  head_sha = n.head_sha;
  tree_sha = n.tree_sha;
  mode = n.mode;
  base_branch = n.base_branch;
  base_sha = n.base_sha;
}

-- The row of an idempotency key; the empty key finds none.
unfoldable pub keyed_run : NewRun → RunDb → Option Convergence
keyed_run n db =
    if str_eq n.idempotency_key ""
    then none
    else find (λ r. str_eq r.repository n.repository && col_eq r.idempotency_key n.idempotency_key)
        db.convergences

-- The INSERT; `hash` is the digest of the identity.
abbrev pub accepted_run : String → (hash : String) → NewRun → (now : ℕ) → Convergence
accepted_run id hash n now = record {
  convergence_id = id;
  repository = n.repository;
  branch = n.branch;
  development_session_id = n.development_session_id;
  workspace_id = n.workspace_id;
  session_revision = n.session_revision;
  workspace_revision = n.workspace_revision;
  head_sha = n.head_sha;
  tree_sha = n.tree_sha;
  base_branch = n.base_branch;
  base_sha = n.base_sha;
  mode = n.mode;
  phase = RunPhase.accepted;
  status = "accepted";
  revision = 0;
  terminal = false;
  index_job_id = none;
  ci_request_id = none;
  ci_job_id = none;
  attestation_id = none;
  failure_pack_id = none;
  error_code = none;
  error_message = none;
  idempotency_key = text_or_none n.idempotency_key;
  request_identity_hash = hash;
  caller_identity_hash = text_or_none n.caller_identity_hash;
  created_at = now;
  updated_at = now;
  finished_at = none;
}

abbrev pub created_event : String → (now : ℕ) → ConvergenceEvent
created_event id now = record {
  convergence_id = id;
  revision = 0;
  event_type = "convergence_created";
  from_phase = none;
  to_phase = some RunPhase.accepted;
  from_status = none;
  to_status = some "accepted";
  created_at = now;
}

abbrev pending_row : String → (now : ℕ) → Stage → Analysis
pending_row id now stage = record {
  convergence_id = id;
  stage = stage;
  state = AnalysisState.pending;
  resource_uri = none;
  resource_identity = none;
  error_code = none;
  error_message = none;
  updated_at = now;
}

-- One row for each of ANALYSIS_STAGES.
abbrev pub pending_rows : String → (now : ℕ) → List Analysis
pending_rows id now =
    pending_row id now Stage.affected_tests
    ∷ pending_row id now Stage.contract_detection
    ∷ pending_row id now Stage.change_impact
    ∷ pending_row id now Stage.change_context
    ∷ pending_row id now Stage.index
    ∷ []

-- INSERT INTO development_convergences, with its PRIMARY KEY. The queries before it have found no
-- row that its two UNIQUE indexes could clash with.
unfoldable pub insert_run : Convergence → M RunDb (Unit {0})
insert_run r db =
    if is_some (stored_run db r.convergence_id)
    then (err integrity_error, db)
    else (ok tt, record db { convergences = r ∷ db.convergences })

unfoldable pub insert_accepted_run :
    String → (hash : String) → NewRun → (now : ℕ) → M RunDb (Unit {0})
insert_accepted_run id hash n now = do
  insert_run (accepted_run id hash n now)
  modify (λ db. record db { analysis = pending_rows id now ++ db.analysis })
  insert_run_event (created_event id now)

-- `dedupe_reason`
pub data Reason : Type 0 where
  by_idempotency_key by_active_identity : Reason

-- A reply; `deduplicated` is that there is a reason.
pub record RunReply : Type 0 where
  pub result : Public
  pub dedupe_reason : Option Reason

unfoldable pub reply_keyed : (hash : String) → Convergence → RunDb → Result RunReply
reply_keyed hash existing db =
    if str_eq existing.request_identity_hash hash
    then ok (record {
      result = public_view db existing;
      dedupe_reason = some Reason.by_idempotency_key;
    })
    else err idempotency_conflict

-- _assert_active_identity and the reply behind it
unfoldable pub reply_active : NewRun → Convergence → RunDb → Result RunReply
reply_active n active db =
    if str_eq active.branch n.branch && str_eq active.workspace_id n.workspace_id
    then ok
        (record { result = public_view db active; dedupe_reason = some Reason.by_active_identity })
    else err identity_mismatch

unfoldable pub create_new : String → (hash : String) → NewRun → (now : ℕ) → M RunDb RunReply
create_new id hash n now = do
  insert_accepted_run id hash n now
  row ← reading (λ db. get_row db id)
  reading (λ db. ok (record { result = public_view db row; dedupe_reason = none }))

-- Without a row under the idempotency key.
unfoldable pub create_unkeyed : String → (hash : String) → NewRun → (now : ℕ) → M RunDb RunReply
create_unkeyed id hash n now db = elim (active_row db (key_of n)) [
  | some active ↦ (reply_active n active db, db)
  | none ↦ create_new id hash n now db
]

unfoldable pub create_run_body : String → (hash : String) → NewRun → (now : ℕ) → M RunDb RunReply
create_run_body id hash n now db = elim (keyed_run n db) [
  | some existing ↦ (reply_keyed hash existing db, db)
  | none ↦ create_unkeyed id hash n now db
]

-- create_or_get_convergence. `digest` is `_canonical_hash`, and `id` the identifier that `uuid4`
-- draws.
unfoldable pub create_or_get_convergence :
    (digest : RunIdentity → String) → String → NewRun → (now : ℕ) → M RunDb RunReply
create_or_get_convergence digest id n now = do
  reading (λ _. validate_create_identity n)
  atomically (create_run_body id (digest (request_identity n)) n now)
