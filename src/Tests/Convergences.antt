-- ===== src/Tests/Convergences.antt =====
-- A convergence that is created, bound to a request and a job, and ended; and the theorems on the
-- convergence store at that run.
use github_mcp.Convergence.Unique.{HasOneActive}
use github_mcp.Convergence.Create.{
  RunReply, RunIdentity, NewRun, accepted_run, pending_rows, created_event, request_identity,
  validate_create_identity, keyed_run, insert_run, insert_accepted_run, reply_keyed, reply_active,
  create_new, create_unkeyed, create_run_body, create_or_get_convergence,
}
use github_mcp.Prelude.{
  Option, List, ◌∷◌, subst, Bool, String, [], none, false, ℕ, some, ◌&&◌, true, str_eq, ◌==◌, ◌≡◌,
  is_some, refl,
}
use github_mcp.Convergence.Writes.{
  RunTarget, phase_text, Bound, bind_once, Field, insert_run_event, cas_run, write_run,
  run_transition_body, transition_convergence, bind_row, bind_body, bind_ci_request, bind_ci_job,
  check_ci_request, transitioned_run,
}
use github_mcp.Convergence.Runs.{
  run_calls, empty_run_db, RunOp, run_calls-IsRecorded, run_calls-HasOneActive,
  IsRecorded-empty_run_db, HasOneActive-empty_run_db, run_call, run_calls-IsRunLater,
}
use github_mcp.Convergence.History.{IsRecorded}
use github_mcp.Tx.{Result, ok, err, atomically, revision_conflict}
use github_mcp.Tests.Runs.{sha_a, sha_b}
use github_mcp.Requests.Queries.{is_lower_hex}
use github_mcp.Table.{find, select, update, count, first_by}
use github_mcp.Convergence.Binding.{bind_ci_job-request}
use github_mcp.Convergence.Progress.{IsRunLater}
use github_mcp.Convergence.Replay.{create_convergence_twice}
use github_mcp.Convergence.Live.{transition_convergence_once}
use github_mcp.Convergence.{
  RunDb, Convergence, stored_run, is_terminal_phase, public_view, RunPhase, get_row, Mode,
  require_revision, analysis_rows, active_row, is_blank,
}

abbrev tree_digest : RunIdentity → String
tree_digest i = i.tree_sha

abbrev new_run : NewRun
new_run = record {
  repository = "o/r";
  branch = "main";
  development_session_id = "s1";
  workspace_id = "w1";
  session_revision = 3;
  workspace_revision = 4;
  head_sha = sha_a;
  tree_sha = sha_b;
  base_branch = "main";
  base_sha = sha_a;
  mode = Mode.fast;
  idempotency_key = "k1";
  caller_identity_hash = "";
}

abbrev other_run : NewRun
other_run = record new_run { development_session_id = "s2"; idempotency_key = "" }

abbrev created_run : Convergence
created_run = accepted_run "c1" sha_b new_run 10

abbrev created : RunDb
created = record {
  convergences = created_run ∷ [];
  analysis = pending_rows "c1" 10;
  events = created_event "c1" 10 ∷ [];
}

abbrev passed_target : RunTarget
passed_target = record {
  phase = RunPhase.passed;
  status = "";
  error_code = none;
  error_message = none;
  event_type = "convergence_passed";
}

abbrev all_calls : List (RunOp × ℕ)
all_calls =
    (RunOp.create "c1" new_run, 10)
    ∷ (RunOp.bind_request "c1" 0 "q1", 11)
    ∷ (RunOp.create "c2" other_run, 12)
    ∷ (RunOp.bind_job "c1" 1 "q1" "j1", 13)
    ∷ (RunOp.transition "c1" 2 passed_target, 14)
    ∷ []

run_calls-IsRecorded_example : IsRecorded (run_calls tree_digest all_calls empty_run_db)
run_calls-IsRecorded_example =
    run_calls-IsRecorded tree_digest all_calls empty_run_db IsRecorded-empty_run_db

run_calls-HasOneActive_example : HasOneActive (run_calls tree_digest all_calls empty_run_db)
run_calls-HasOneActive_example =
    run_calls-HasOneActive tree_digest all_calls empty_run_db IsRecorded-empty_run_db
      HasOneActive-empty_run_db

abbrev is_passed : Option Convergence → Bool
is_passed none = false
is_passed (some r) = r.terminal && str_eq r.status "passed" && (r.revision == 3)

-- The calls of the run all take effect.
all_calls_pass : is_passed (stored_run (run_calls tree_digest all_calls empty_run_db) "c1") ≡ true
unfolding is_terminal_phase phase_text stored_run get_row require_revision analysis_rows public_view
    active_row is_blank is_lower_hex insert_run_event cas_run write_run run_transition_body
    transition_convergence bind_row bind_body bind_once bind_ci_request bind_ci_job check_ci_request
    request_identity validate_create_identity keyed_run insert_run insert_accepted_run reply_keyed
    reply_active create_new create_unkeyed create_run_body create_or_get_convergence run_call
    run_calls empty_run_db find select update count first_by atomically
all_calls_pass = refl

created_is : run_calls tree_digest ((RunOp.create "c1" new_run, 10) ∷ []) empty_run_db ≡ created
unfolding is_terminal_phase phase_text stored_run get_row require_revision analysis_rows public_view
    active_row is_blank is_lower_hex insert_run_event cas_run write_run run_transition_body
    transition_convergence bind_row bind_body bind_once bind_ci_request bind_ci_job check_ci_request
    request_identity validate_create_identity keyed_run insert_run insert_accepted_run reply_keyed
    reply_active create_new create_unkeyed create_run_body create_or_get_convergence run_call
    run_calls empty_run_db find select update count first_by atomically
created_is = refl

created-IsRecorded : IsRecorded created
created-IsRecorded = subst IsRecorded created_is (
    run_calls-IsRecorded tree_digest ((RunOp.create "c1" new_run, 10) ∷ []) empty_run_db
      IsRecorded-empty_run_db)

run_calls-IsRunLater_example :
    (r' : Convergence) × (stored_run
        (run_calls tree_digest ((RunOp.transition "c1" 0 passed_target, 14) ∷ []) created)
        "c1"
      ≡ some r')
    × IsRunLater r' created_run
unfolding is_terminal_phase phase_text stored_run get_row require_revision analysis_rows public_view
    active_row is_blank is_lower_hex insert_run_event cas_run write_run run_transition_body
    transition_convergence bind_row bind_body bind_once bind_ci_request bind_ci_job check_ci_request
    request_identity validate_create_identity keyed_run insert_run insert_accepted_run reply_keyed
    reply_active create_new create_unkeyed create_run_body create_or_get_convergence run_call
    run_calls empty_run_db find select update count first_by atomically
run_calls-IsRunLater_example =
    run_calls-IsRunLater tree_digest ((RunOp.transition "c1" 0 passed_target, 14) ∷ []) created "c1"
      created_run refl

transition_convergence_once_example :
    ((transition_convergence "c1" 0 passed_target 14 created).0
      ≡ ok (public_view created (transitioned_run passed_target 14 created_run)))
    × (stored_run (transition_convergence "c1" 0 passed_target 14 created).1 "c1"
        ≡ some (transitioned_run passed_target 14 created_run))
    × (transition_convergence "c1" 0 passed_target 15
          (transition_convergence "c1" 0 passed_target 14 created).1
        ≡ (err revision_conflict, (transition_convergence "c1" 0 passed_target 14 created).1))
unfolding is_terminal_phase phase_text stored_run get_row require_revision analysis_rows public_view
    active_row is_blank is_lower_hex insert_run_event cas_run write_run run_transition_body
    transition_convergence bind_row bind_body bind_once bind_ci_request bind_ci_job check_ci_request
    request_identity validate_create_identity keyed_run insert_run insert_accepted_run reply_keyed
    reply_active create_new create_unkeyed create_run_body create_or_get_convergence run_call
    run_calls empty_run_db find select update count first_by atomically
transition_convergence_once_example =
    transition_convergence_once created "c1" created_run passed_target passed_target 14 15
      created-IsRecorded refl refl

abbrev first_reply : RunReply
first_reply = record { result = public_view created created_run; dedupe_reason = none }

create_convergence_twice_example :
    (r' : RunReply) × (create_or_get_convergence tree_digest "c9" new_run 20 created
      ≡ (ok r', created))
    × (r'.result ≡ first_reply.result)
    × (is_some r'.dedupe_reason ≡ true)
unfolding is_terminal_phase phase_text stored_run get_row require_revision analysis_rows public_view
    active_row is_blank is_lower_hex insert_run_event cas_run write_run run_transition_body
    transition_convergence bind_row bind_body bind_once bind_ci_request bind_ci_job check_ci_request
    request_identity validate_create_identity keyed_run insert_run insert_accepted_run reply_keyed
    reply_active create_new create_unkeyed create_run_body create_or_get_convergence run_call
    run_calls empty_run_db find select update count first_by atomically
create_convergence_twice_example =
    create_convergence_twice tree_digest "c1" "c9" new_run 10 20 empty_run_db created first_reply
      refl

abbrev requested : RunDb
requested = run_calls tree_digest ((RunOp.bind_request "c1" 0 "q1", 11) ∷ []) created

abbrev or_bound : Result Bound → Bound
or_bound (ok b) = b
or_bound (err e) = record {
  result = record { run = created_run; analysis = [] };
  deduplicated = true;
}

abbrev job_bound : Result Bound × RunDb
job_bound =
    bind_once Field.ci_job_id "j1" "c1" 1 13
      (run_calls tree_digest ((RunOp.create "c2" other_run, 12) ∷ []) requested)

bind_ci_job-request_example :
    (r : Convergence) × (stored_run job_bound.1 "c1" ≡ some r)
    × (r.ci_request_id ≡ some "q1")
    × (r.ci_job_id ≡ some "j1")
    × (r.revision ≡ 2)
unfolding is_terminal_phase phase_text stored_run get_row require_revision analysis_rows public_view
    active_row is_blank is_lower_hex insert_run_event cas_run write_run run_transition_body
    transition_convergence bind_row bind_body bind_once bind_ci_request bind_ci_job check_ci_request
    request_identity validate_create_identity keyed_run insert_run insert_accepted_run reply_keyed
    reply_active create_new create_unkeyed create_run_body create_or_get_convergence run_call
    run_calls empty_run_db find select update count first_by atomically
bind_ci_job-request_example =
    bind_ci_job-request tree_digest ((RunOp.create "c2" other_run, 12) ∷ []) "c1" "q1" "j1" 1 13
      requested job_bound.1 (or_bound job_bound.0) refl refl refl
