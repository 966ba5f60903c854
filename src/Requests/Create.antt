-- ===== src/Requests/Create.antt =====
-- `create_or_get_ci_request` of app/ci_request_store.py.
use github_mcp.Tx.{
  M, Result, ok, err, reading, ◌>>=◌, ◌>>◌, atomically, modify, pure, integrity_error,
  idempotency_conflict, value_error,
}
use github_mcp.Requests.Queries.{
  insert_event, get_ci_request, NewEvent, get_ci_request_by_idempotency_key, is_sha, no_payload,
  has_slash, is_sha256,
}
use github_mcp.Schema.{Request, Db, EventType, Payload, RequestStatus, Phase}
use github_mcp.Prelude.{
  Option, String, ℕ, some, Bool, if◌then◌else◌, str_eq, opt_eq, none, true, is_some, ◌||◌, ◌&&◌,
  not, ◌∷◌, false, ◌==◌,
}
use github_mcp.Requests.Checks.{Identity, assert_identity}
use github_mcp.Requests.Transition.{read_back}
use github_mcp.Table.{update}

-- The arguments of `create_or_get_ci_request`.
pub record NewRequest : Type 0 where
  pub repository : String
  pub branch : String
  pub commit_sha : String
  pub tree_sha : Option String
  pub profile : String
  pub effective_config_digest : String
  pub idempotency_key : String
  pub normalized_request_hash : String
  pub request_payload : Option Payload

abbrev pub is_sha_or_none : Option String → Bool
is_sha_or_none none = true
is_sha_or_none (some s) = is_sha s

-- _validate_new_request_identity
unfoldable pub validate_new_request_identity : NewRequest → Result (Unit {0})
validate_new_request_identity n =
    if str_eq n.repository "" || not (has_slash n.repository)
    then err value_error
    else if not (is_sha n.commit_sha)
    then err value_error
    else if not (is_sha_or_none n.tree_sha)
    then err value_error
    else if str_eq n.profile ""
    then err value_error
    else if str_eq n.effective_config_digest ""
    then err value_error
    else if str_eq n.idempotency_key ""
    then err value_error
    else if not (is_sha256 n.normalized_request_hash)
    then err value_error
    else ok tt

abbrev pub some_tree : Option String → Option (Option String)
some_tree none = none
some_tree (some t) = some (some t)

-- `expected`: the tree is compared only where the caller gives one.
abbrev pub replay_identity : NewRequest → Identity
replay_identity n = record {
  repository = some n.repository;
  branch = some n.branch;
  commit_sha = some n.commit_sha;
  tree_sha = some_tree n.tree_sha;
  profile = some n.profile;
  effective_config_digest = some (some n.effective_config_digest);
}

-- The checks on a request that already has the idempotency key.
unfoldable pub check_replay : NewRequest → Request → Result (Unit {0})
check_replay n existing =
    if opt_eq existing.normalized_request_hash (some n.normalized_request_hash)
    then assert_identity existing (replay_identity n)
    else err idempotency_conflict

-- The INSERT into ci_requests, before its event is known.
abbrev pub accepted_row : String → NewRequest → (now : ℕ) → Request
accepted_row id n now = record {
  request_id = id;
  repository = n.repository;
  branch = n.branch;
  commit_sha = n.commit_sha;
  tree_sha = n.tree_sha;
  profile = n.profile;
  effective_config_digest = some n.effective_config_digest;
  status = RequestStatus.accepted;
  phase = Phase.accepted;
  revision = 0;
  idempotency_key = some n.idempotency_key;
  normalized_request_hash = some n.normalized_request_hash;
  worker_job_id = none;
  preflight_error_id = none;
  preflight_error_code = none;
  terminal_reason = none;
  failure_pack_id = none;
  attestation_id = none;
  created_at = now;
  updated_at = now;
  last_event_id = none;
}

abbrev pub accepted_event : NewRequest → NewEvent
accepted_event n = record {
  event_type = EventType.accepted;
  from_phase = none;
  from_status = none;
  to_phase = Phase.accepted;
  to_status = RequestStatus.accepted;
  request_payload = some (elim n.request_payload [ none ↦ no_payload | some p ↦ p ]);
}

-- INSERT INTO ci_requests, with its PRIMARY KEY.
unfoldable pub insert_request : Request → M Db (Unit {0})
insert_request r db =
    if is_some (get_ci_request db r.request_id)
    then (err integrity_error, db)
    else (ok tt, record db { requests = r ∷ db.requests })

-- UPDATE ci_requests SET last_event_id = ? WHERE request_id = ? AND revision = 0
unfoldable pub set_last_event : String → (event_id : ℕ) → M Db (Unit {0})
set_last_event id event_id = modify (λ db. record db {
  requests =
      update (λ r. str_eq r.request_id id && (r.revision == 0))
        (λ r. record r { last_event_id = some event_id }) db.requests;
})

unfoldable pub insert_accepted : String → NewRequest → (now : ℕ) → M Db (Unit {0})
insert_accepted id n now = do
  insert_request (accepted_row id n now)
  event_id ← insert_event id 0 (accepted_event n) now
  set_last_event id event_id

-- A reply: the request, and whether it was there before (`deduplicated`).
pub record Reply : Type 0 where
  pub request : Request
  pub deduplicated : Bool

-- The transaction, to the request id under which the row stands and `deduplicated`. `id` is the
-- identifier that `uuid4` draws.
unfoldable pub create_body : String → NewRequest → (now : ℕ) → M Db (Option Request)
create_body id n now db = elim (get_ci_request_by_idempotency_key db n.idempotency_key) [
  | some existing ↦ (do reading (λ _. check_replay n existing); pure (some existing)) db
  | none ↦ (do insert_accepted id n now; pure none) db
]

-- A new row is read back after the commit.
abbrev pub reply_to : String → Option Request → M Db Reply
reply_to id (some existing) = pure (record { request = existing; deduplicated = true })
reply_to id none = do r ← read_back id; pure (record { request = r; deduplicated = false })

unfoldable pub create_or_get_ci_request : String → NewRequest → (now : ℕ) → M Db Reply
create_or_get_ci_request id n now = do
  reading (λ _. validate_new_request_identity n)
  existing ← atomically (create_body id n now)
  reply_to id existing
