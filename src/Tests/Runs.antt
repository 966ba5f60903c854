-- ===== src/Tests/Runs.antt =====
-- A request that is created, prepared, dispatched, leased, run and completed.
use github_mcp.Requests.Checks.{TransitionArgs}
use github_mcp.Schema.{Db, Payload, pos, Phase, JobStatus, object, RequestStatus, Job}
use github_mcp.Requests.Dispatch.{DispatchArgs}
use github_mcp.Requests.Create.{NewRequest, accepted_row}
use github_mcp.Prelude.{String, [], none, some, ◌∷◌, true, false, Option, is_some, ◌≡◌, refl}
use github_mcp.Requests.Lifecycle.{Metadata}
use github_mcp.Jobs.Finish.{Completion, completed_row}
use github_mcp.Requests.Queries.{get_ci_request, get_job}
use github_mcp.Schema.{Request}
use github_mcp.Jobs.Create.{queued_row}
use github_mcp.Controller.{
  Op, run, empty_db, register, complete, lease, create_request, set_status, dispatch,
}

abbrev pub sha_a : String
sha_a = "aaaaaaaaaaaaaaaaaaaaaaaaaaaaaaaaaaaaaaaa"

abbrev pub sha_b : String
sha_b = "bbbbbbbbbbbbbbbbbbbbbbbbbbbbbbbbbbbbbbbb"

abbrev pub hash_a : String
hash_a = "aaaaaaaaaaaaaaaaaaaaaaaaaaaaaaaaaaaaaaaaaaaaaaaaaaaaaaaaaaaaaaaa"

-- A digest for the tests: the text itself.
abbrev pub digest : String → String
digest s = s

abbrev pub payload : Payload
payload = record {
  priority = some 50;
  timeout_seconds = some 900;
  base_sha = some "";
  supersede_previous = some true;
}

abbrev pub new_request : NewRequest
new_request = record {
  repository = "o/r";
  branch = "main";
  commit_sha = sha_a;
  tree_sha = none;
  profile = "repo-auto-check";
  effective_config_digest = "cfg";
  idempotency_key = "k1";
  normalized_request_hash = hash_a;
  request_payload = some payload;
}

abbrev pub no_metadata : Metadata
no_metadata = record {
  preflight_error_id = none;
  preflight_error_code = none;
  terminal_reason = none;
  failure_pack_id = none;
  attestation_id = none;
}

abbrev pub plain : TransitionArgs
plain = record {
  expected_identity = record {
    repository = some "o/r";
    branch = none;
    commit_sha = some sha_a;
    tree_sha = none;
    profile = none;
    effective_config_digest = none;
  };
  worker_job_id = none;
  metadata = no_metadata;
}

abbrev pub dispatch_args : DispatchArgs
dispatch_args = record {
  expected_revision = 1;
  tree_sha = sha_b;
  changed_files = [];
  changed_files_total = 0;
  changed_files_truncated = false;
}

abbrev pub passed : Completion
passed = record {
  exit_code = pos 0;
  status = JobStatus.passed;
  summary = some (object (some sha_b));
  error_code = none;
  error_message = none;
}

abbrev pub created_db : Db
created_db = run digest ((create_request "r1" new_request, 10) ∷ []) empty_db

abbrev pub prepared_db : Db
prepared_db =
    run digest ((Op.transition "r1" 0 Phase.preparing RequestStatus.preparing plain, 11) ∷ [])
      created_db

abbrev pub registered_db : Db
registered_db = run digest ((register "w1" "t" ("repo-auto-check" ∷ []) 1, 12) ∷ []) prepared_db

abbrev pub dispatched_db : Db
dispatched_db = run digest ((dispatch "r1" "j1" dispatch_args, 13) ∷ []) registered_db

abbrev pub leased_db : Db
leased_db = run digest ((lease "w1" "t1" ("repo-auto-check" ∷ []) 1, 14) ∷ []) dispatched_db

abbrev pub running_db : Db
running_db =
    run digest
      ((Op.source_downloaded "j1" hash_a 5 "w1" "t1", 15)
        ∷ (set_status "j1" JobStatus.running (some "w1") (some "t1"), 16)
        ∷ [])
      leased_db

abbrev pub passed_db : Db
passed_db = run digest ((complete "j1" passed (some "w1") (some "t1"), 20) ∷ []) running_db

-- Before the first event is linked the row has none.
abbrev pub created_row : Request
created_row = record (accepted_row "r1" new_request 10) { last_event_id = some 1 }

-- The rows of the run, by the database that holds them.
abbrev pub or_row : Option Request → Request
or_row none = created_row
or_row (some r) = r

abbrev pub stored : Db → String → Request
stored db id = or_row (get_ci_request db id)

pub some-or_row : (o : Option Request) → is_some o ≡ true → o ≡ some (or_row o)
some-or_row none h = cc
some-or_row (some r) h = refl

abbrev no_job : Job
no_job =
    queued_row "" ""
      (record {
        repository = "";
        branch = "";
        commit_sha = "";
        profile = "";
        priority = 0;
        timeout_seconds = 0;
        force_rerun = false;
        supersede_previous = false;
        base_sha = "";
        changed_files = [];
        changed_files_total = none;
        changed_files_truncated = false;
      })
      0

abbrev pub stored_job : Db → String → Job
stored_job db id = elim (get_job db id) [ none ↦ no_job | some j ↦ j ]

-- The dispatched request with its job passed, before a reconciliation.
abbrev pub evidence_db : Db
evidence_db = record dispatched_db {
  jobs = completed_row passed 20 (some 14) (stored_job dispatched_db "j1") ∷ [];
}
