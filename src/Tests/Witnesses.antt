-- ===== src/Tests/Witnesses.antt =====
-- Each theorem of the development with hypotheses, applied to the run of Tests/Runs.
use mathlib.Core.List.{Memᴰ}
use github_mcp.Controller.{
  Op, create_request, lease, dispatch, register, run, set_status, empty_db, run_op,
}
use github_mcp.Controller.Lifecycle.{run-IsAudited, run-IsLater, IsAudited-empty_db}
use github_mcp.Requests.TransitionOutcome.{IsTransition-outcome, transitioned, IsTransition}
use github_mcp.Requests.TransitionTotal.{transition_once, transition_succeeds}
use github_mcp.Requests.Evidence.{passed_needs_proof, Passes}
use github_mcp.Requests.Steps.{reconcile_in_db-cases}
use github_mcp.Requests.Settled.{reconcile_twice}
use github_mcp.Controller.Again.{create_twice, key_conflict, dispatch_twice}
use github_mcp.Jobs.Fencing.{attempt_ends}
use github_mcp.Jobs.Recovered.{recover_worker-running_count}
use github_mcp.Requests.Graph.{Move-forward, phase_rank}
use github_mcp.Requests.ChangesAudit.{Change-IsAudited}
use github_mcp.Jobs.Steps.{apart-Change}
use github_mcp.Requests.Audit.{IsAudited}
use github_mcp.Prelude.{
  inl, refl, some, none, ◌∷◌, List, [], ℕ, ◌≡◌, ◌≤◌, ◌⊎◌, false, true, ◌+◌, arith,
}
use github_mcp.Requests.Lifecycle.{
  is_valid_pair, allowed, status_eq, validate_phase_status, validate_transition_metadata,
}
use github_mcp.Requests.Reconcile.{
  reconcile_in_db, projection, Projection, projection_event, at_projection, projection_row,
  matching_attestation, proves_tree, may_project, project_to, project_with, apply_projection,
}
use github_mcp.Schema.{Request, Phase, RequestStatus, JobStatus, Job, Worker, WorkerStatus}
use github_mcp.Requests.Create.{
  NewRequest, validate_new_request_identity, check_replay, insert_request, set_last_event,
  insert_accepted, create_body, create_or_get_ci_request,
}
use github_mcp.Jobs.Recover.{register_worker, recover_worker_jobs}
use github_mcp.Jobs.Lease.{
  running_count, last_dispatched, goes_before, next_job, lease_row, lease_job, fence,
  begin_job_write,
}
use github_mcp.Jobs.Create.{
  reusable_job, supersede_one, supersede_all, superseded_rows, insert_job, insert_created,
  insert_new, create_or_get_in_transaction, request_key, create_request_job,
}
use github_mcp.Tx.{ok, Error, err, atomically, revision_conflict, idempotency_conflict}
use github_mcp.Requests.Transition.{
  transition_ci_request, is_worker_taken, is_worker_missing, cas_update, apply_transition,
  transition_body, read_back, transition_row,
}
use github_mcp.Requests.Inversion.{IsJustified, advanced}
use github_mcp.Requests.Queries.{
  event_row, is_lower_hex, has_slash, get_ci_request, get_ci_request_by_idempotency_key,
  get_ci_request_by_worker_job_id, no_payload, get_ci_request_payload, get_job, same_source,
  assert_worker_job_identity, insert_event,
}
use github_mcp.Jobs.Finish.{
  complete_row, complete_found, complete_job, reconcile_if, write_status, set_job_status,
  set_job_source_downloaded,
}
use github_mcp.Jobs.Queue.{
  add_delta, upsert_queue_state, set_worker_busy, set_worker_idle, free_worker, add_job_event,
  update_jobs, matching_jobs,
}
use github_mcp.Table.{find, select, update, count, first_by}
use github_mcp.Requests.Dispatch.{
  check_dispatch, bind_job, dispatch_row, dispatch_body, dispatch_ci_request,
}
use github_mcp.Requests.Checks.{matches_identity, assert_identity, check_transition, check_worker}
use github_mcp.Requests.Progress.{IsLater}
use github_mcp.Jobs.Workers.{clear_offline, clear_stale, reconcile_stale_workers, idle_row}
use github_mcp.Jobs.Workers.Stale.{fresh_worker_is_kept, offline_worker_is_idle}
use github_mcp.Tests.Runs.{
  created_db, prepared_db, registered_db, dispatched_db, leased_db, running_db, evidence_db,
  passed_db, stored, stored_job, created_row, digest, plain, passed, new_request, dispatch_args,
  hash_a, some-or_row,
}

abbrev all_ops : List (Op × ℕ)
all_ops =
    (create_request "r1" new_request, 10)
    ∷ (Op.transition "r1" 0 Phase.preparing RequestStatus.preparing plain, 11)
    ∷ (dispatch "r1" "j1" dispatch_args, 13)
    ∷ []

run-IsAudited_example : IsAudited (run digest all_ops empty_db)
run-IsAudited_example = run-IsAudited digest all_ops empty_db IsAudited-empty_db

created-IsAudited : IsAudited created_db
created-IsAudited =
    run-IsAudited digest ((create_request "r1" new_request, 10) ∷ []) empty_db IsAudited-empty_db

prepared-IsAudited : IsAudited prepared_db
prepared-IsAudited =
    run-IsAudited digest
      ((Op.transition "r1" 0 Phase.preparing RequestStatus.preparing plain, 11) ∷ []) created_db
      created-IsAudited

registered-IsAudited : IsAudited registered_db
registered-IsAudited =
    run-IsAudited digest ((register "w1" "t" ("repo-auto-check" ∷ []) 1, 12) ∷ []) prepared_db
      prepared-IsAudited

dispatched-IsAudited : IsAudited dispatched_db
dispatched-IsAudited =
    run-IsAudited digest ((dispatch "r1" "j1" dispatch_args, 13) ∷ []) registered_db
      registered-IsAudited

leased-IsAudited : IsAudited leased_db
leased-IsAudited =
    run-IsAudited digest ((lease "w1" "t1" ("repo-auto-check" ∷ []) 1, 14) ∷ []) dispatched_db
      dispatched-IsAudited

running-IsAudited : IsAudited running_db
running-IsAudited =
    run-IsAudited digest
      ((Op.source_downloaded "j1" hash_a 5 "w1" "t1", 15)
        ∷ (set_status "j1" JobStatus.running (some "w1") (some "t1"), 16)
        ∷ [])
      leased_db leased-IsAudited

evidence-IsAudited : IsAudited evidence_db
evidence-IsAudited =
    Change-IsAudited {db = dispatched_db} {db' = evidence_db}
      (apart-Change (record { requests = refl; request_events = refl })) dispatched-IsAudited

run-IsLater_example :
    (r' : Request) × (get_ci_request
        (run digest ((dispatch "r1" "j1" dispatch_args, 13) ∷ []) prepared_db)
        "r1"
      ≡ some r')
    × IsLater r' (stored prepared_db "r1")
unfolding register_worker reusable_job supersede_one supersede_all superseded_rows insert_job
    insert_created insert_new create_or_get_in_transaction request_key create_request_job
    complete_row complete_found complete_job reconcile_if write_status set_job_status
    set_job_source_downloaded running_count last_dispatched goes_before next_job lease_row lease_job
    fence begin_job_write add_delta upsert_queue_state set_worker_busy set_worker_idle free_worker
    add_job_event update_jobs matching_jobs run_op run empty_db find select update count first_by
    atomically check_dispatch bind_job dispatch_row dispatch_body dispatch_ci_request
    validate_new_request_identity check_replay insert_request set_last_event insert_accepted
    create_body create_or_get_ci_request matching_attestation proves_tree may_project project_to
    project_with projection apply_projection reconcile_in_db status_eq is_valid_pair allowed
    validate_phase_status validate_transition_metadata matches_identity assert_identity
    check_transition is_worker_taken is_worker_missing check_worker cas_update apply_transition
    transition_body read_back transition_ci_request is_lower_hex has_slash get_ci_request
    get_ci_request_by_idempotency_key get_ci_request_by_worker_job_id no_payload
    get_ci_request_payload get_job same_source assert_worker_job_identity insert_event
run-IsLater_example =
    run-IsLater digest ((dispatch "r1" "j1" dispatch_args, 13) ∷ []) prepared_db "r1"
      (stored prepared_db "r1") prepared-IsAudited refl

IsTransition-outcome_example :
    ((row : Request) × IsTransition "r1" 0 Phase.preparing RequestStatus.preparing plain 11
        created_db row)
    ⊎ ((e : Error) × (transition_ci_request "r1" 0 Phase.preparing RequestStatus.preparing plain 11
            created_db
          ≡ (err e, created_db)))
IsTransition-outcome_example =
    IsTransition-outcome "r1" 0 Phase.preparing RequestStatus.preparing plain 11 created_db

transition_succeeds_example :
    transition_ci_request "r1" 0 Phase.preparing RequestStatus.preparing plain 11 created_db ≡ (
      ok (
          transition_row Phase.preparing RequestStatus.preparing plain created_db.next_event_id 11
            created_row),
      transitioned "r1" 0 Phase.preparing RequestStatus.preparing plain 11 created_db created_row,
    )
unfolding register_worker reusable_job supersede_one supersede_all superseded_rows insert_job
    insert_created insert_new create_or_get_in_transaction request_key create_request_job
    complete_row complete_found complete_job reconcile_if write_status set_job_status
    set_job_source_downloaded running_count last_dispatched goes_before next_job lease_row lease_job
    fence begin_job_write add_delta upsert_queue_state set_worker_busy set_worker_idle free_worker
    add_job_event update_jobs matching_jobs run_op run empty_db find select update count first_by
    atomically check_dispatch bind_job dispatch_row dispatch_body dispatch_ci_request
    validate_new_request_identity check_replay insert_request set_last_event insert_accepted
    create_body create_or_get_ci_request matching_attestation proves_tree may_project project_to
    project_with projection apply_projection reconcile_in_db status_eq is_valid_pair allowed
    validate_phase_status validate_transition_metadata matches_identity assert_identity
    check_transition is_worker_taken is_worker_missing check_worker cas_update apply_transition
    transition_body read_back transition_ci_request is_lower_hex has_slash get_ci_request
    get_ci_request_by_idempotency_key get_ci_request_by_worker_job_id no_payload
    get_ci_request_payload get_job same_source assert_worker_job_identity insert_event
transition_succeeds_example =
    transition_succeeds "r1" 0 Phase.preparing RequestStatus.preparing plain 11 created_db
      created_row created-IsAudited refl refl refl refl

transition_once_example :
    transition_ci_request "r1" 0 Phase.terminal RequestStatus.cancelled plain 12 prepared_db
    ≡ (err revision_conflict, prepared_db)
unfolding register_worker reusable_job supersede_one supersede_all superseded_rows insert_job
    insert_created insert_new create_or_get_in_transaction request_key create_request_job
    complete_row complete_found complete_job reconcile_if write_status set_job_status
    set_job_source_downloaded running_count last_dispatched goes_before next_job lease_row lease_job
    fence begin_job_write add_delta upsert_queue_state set_worker_busy set_worker_idle free_worker
    add_job_event update_jobs matching_jobs run_op run empty_db find select update count first_by
    atomically check_dispatch bind_job dispatch_row dispatch_body dispatch_ci_request
    validate_new_request_identity check_replay insert_request set_last_event insert_accepted
    create_body create_or_get_ci_request matching_attestation proves_tree may_project project_to
    project_with projection apply_projection reconcile_in_db status_eq is_valid_pair allowed
    validate_phase_status validate_transition_metadata matches_identity assert_identity
    check_transition is_worker_taken is_worker_missing check_worker cas_update apply_transition
    transition_body read_back transition_ci_request is_lower_hex has_slash get_ci_request
    get_ci_request_by_idempotency_key get_ci_request_by_worker_job_id no_payload
    get_ci_request_payload get_job same_source assert_worker_job_identity insert_event
transition_once_example =
    transition_once "r1" 0 Phase.preparing Phase.terminal RequestStatus.preparing
      RequestStatus.cancelled plain plain 11 12 created_db prepared_db (stored prepared_db "r1")
      refl refl

passed_needs_proof_example :
    ((stored evidence_db "r1").status ≡ RequestStatus.passed)
    ⊎ ((j : Job) × (get_job evidence_db "j1" ≡ some j)
        × Passes j (stored evidence_db "r1")
        × ((stored evidence_db "r1").worker_job_id ≡ some "j1"))
unfolding register_worker reusable_job supersede_one supersede_all superseded_rows insert_job
    insert_created insert_new create_or_get_in_transaction request_key create_request_job
    complete_row complete_found complete_job reconcile_if write_status set_job_status
    set_job_source_downloaded running_count last_dispatched goes_before next_job lease_row lease_job
    fence begin_job_write add_delta upsert_queue_state set_worker_busy set_worker_idle free_worker
    add_job_event update_jobs matching_jobs run_op run empty_db find select update count first_by
    atomically check_dispatch bind_job dispatch_row dispatch_body dispatch_ci_request
    validate_new_request_identity check_replay insert_request set_last_event insert_accepted
    create_body create_or_get_ci_request matching_attestation proves_tree may_project project_to
    project_with projection apply_projection reconcile_in_db status_eq is_valid_pair allowed
    validate_phase_status validate_transition_metadata matches_identity assert_identity
    check_transition is_worker_taken is_worker_missing check_worker cas_update apply_transition
    transition_body read_back transition_ci_request is_lower_hex has_slash get_ci_request
    get_ci_request_by_idempotency_key get_ci_request_by_worker_job_id no_payload
    get_ci_request_payload get_job same_source assert_worker_job_identity insert_event
passed_needs_proof_example =
    passed_needs_proof "r1" "j1" 20 evidence_db (stored evidence_db "r1")
      (stored (reconcile_in_db "j1" 20 evidence_db).1 "r1") evidence-IsAudited
      (some-or_row (get_ci_request evidence_db "r1") refl)
      (some-or_row (get_ci_request (reconcile_in_db "j1" 20 evidence_db).1 "r1") refl) refl

reconcile_in_db-cases_example :
    ((projection evidence_db "j1" 20 ≡ none)
      × (reconcile_in_db "j1" 20 evidence_db ≡ (ok false, evidence_db)))
    ⊎ ((q : Projection) × (j : Job) × IsJustified evidence_db "j1" 20 q j
        × (projection evidence_db "j1" 20 ≡ some q)
        × (reconcile_in_db "j1" 20 evidence_db ≡ (
          ok true,
          advanced evidence_db
              (event_row evidence_db.next_event_id q.request.request_id
                (q.request.revision + 1)
                (projection_event q)
                20)
              (at_projection q "j1")
              (projection_row q evidence_db.next_event_id 20),
        )))
reconcile_in_db-cases_example = reconcile_in_db-cases "j1" 20 evidence_db evidence-IsAudited

reconcile_twice_example :
    reconcile_in_db "j1" 20 (reconcile_in_db "j1" 20 evidence_db).1
    ≡ (ok false, (reconcile_in_db "j1" 20 evidence_db).1)
reconcile_twice_example = reconcile_twice "j1" 20 evidence_db evidence-IsAudited

abbrev other_hash : NewRequest
other_hash = record new_request {
  normalized_request_hash = "bbbbbbbbbbbbbbbbbbbbbbbbbbbbbbbbbbbbbbbbbbbbbbbbbbbbbbbbbbbbbbbb";
}

abbrev middle_ops : List (Op × ℕ)
middle_ops =
    (Op.transition "r1" 0 Phase.preparing RequestStatus.preparing plain, 11)
    ∷ (dispatch "r1" "j1" dispatch_args, 13)
    ∷ []

create_twice_example :
    (r : Request) × (create_or_get_ci_request "r2" new_request 30 (run digest middle_ops created_db)
      ≡ (ok (record { request = r; deduplicated = true }), run digest middle_ops created_db))
    × IsLater r created_row
unfolding register_worker reusable_job supersede_one supersede_all superseded_rows insert_job
    insert_created insert_new create_or_get_in_transaction request_key create_request_job
    complete_row complete_found complete_job reconcile_if write_status set_job_status
    set_job_source_downloaded running_count last_dispatched goes_before next_job lease_row lease_job
    fence begin_job_write add_delta upsert_queue_state set_worker_busy set_worker_idle free_worker
    add_job_event update_jobs matching_jobs run_op run empty_db find select update count first_by
    atomically check_dispatch bind_job dispatch_row dispatch_body dispatch_ci_request
    validate_new_request_identity check_replay insert_request set_last_event insert_accepted
    create_body create_or_get_ci_request matching_attestation proves_tree may_project project_to
    project_with projection apply_projection reconcile_in_db status_eq is_valid_pair allowed
    validate_phase_status validate_transition_metadata matches_identity assert_identity
    check_transition is_worker_taken is_worker_missing check_worker cas_update apply_transition
    transition_body read_back transition_ci_request is_lower_hex has_slash get_ci_request
    get_ci_request_by_idempotency_key get_ci_request_by_worker_job_id no_payload
    get_ci_request_payload get_job same_source assert_worker_job_identity insert_event
create_twice_example =
    create_twice digest middle_ops "r1" new_request 10 empty_db created_db
      (record { request = created_row; deduplicated = false }) IsAudited-empty_db refl "r2" 30

key_conflict_example :
    create_or_get_ci_request "r2" other_hash 30 (run digest middle_ops created_db)
    ≡ (err idempotency_conflict, run digest middle_ops created_db)
unfolding register_worker reusable_job supersede_one supersede_all superseded_rows insert_job
    insert_created insert_new create_or_get_in_transaction request_key create_request_job
    complete_row complete_found complete_job reconcile_if write_status set_job_status
    set_job_source_downloaded running_count last_dispatched goes_before next_job lease_row lease_job
    fence begin_job_write add_delta upsert_queue_state set_worker_busy set_worker_idle free_worker
    add_job_event update_jobs matching_jobs run_op run empty_db find select update count first_by
    atomically check_dispatch bind_job dispatch_row dispatch_body dispatch_ci_request
    validate_new_request_identity check_replay insert_request set_last_event insert_accepted
    create_body create_or_get_ci_request matching_attestation proves_tree may_project project_to
    project_with projection apply_projection reconcile_in_db status_eq is_valid_pair allowed
    validate_phase_status validate_transition_metadata matches_identity assert_identity
    check_transition is_worker_taken is_worker_missing check_worker cas_update apply_transition
    transition_body read_back transition_ci_request is_lower_hex has_slash get_ci_request
    get_ci_request_by_idempotency_key get_ci_request_by_worker_job_id no_payload
    get_ci_request_payload get_job same_source assert_worker_job_identity insert_event
key_conflict_example =
    key_conflict digest middle_ops "r1" new_request 10 empty_db created_db
      (record { request = created_row; deduplicated = false }) IsAudited-empty_db refl "r2"
      other_hash 30 refl refl refl

abbrev finish_ops : List (Op × ℕ)
finish_ops =
    (lease "w1" "t1" ("repo-auto-check" ∷ []) 1, 14)
    ∷ (Op.source_downloaded "j1" hash_a 5 "w1" "t1", 15)
    ∷ (set_status "j1" JobStatus.running (some "w1") (some "t1"), 16)
    ∷ []

dispatch_twice_example :
    (r : Request) × (dispatch_ci_request "r1" "j2" dispatch_args 30
        (run digest finish_ops dispatched_db)
      ≡ (ok (record { request = r; worker_job = none }), run digest finish_ops dispatched_db))
    × IsLater r (stored dispatched_db "r1")
unfolding register_worker reusable_job supersede_one supersede_all superseded_rows insert_job
    insert_created insert_new create_or_get_in_transaction request_key create_request_job
    complete_row complete_found complete_job reconcile_if write_status set_job_status
    set_job_source_downloaded running_count last_dispatched goes_before next_job lease_row lease_job
    fence begin_job_write add_delta upsert_queue_state set_worker_busy set_worker_idle free_worker
    add_job_event update_jobs matching_jobs run_op run empty_db find select update count first_by
    atomically check_dispatch bind_job dispatch_row dispatch_body dispatch_ci_request
    validate_new_request_identity check_replay insert_request set_last_event insert_accepted
    create_body create_or_get_ci_request matching_attestation proves_tree may_project project_to
    project_with projection apply_projection reconcile_in_db status_eq is_valid_pair allowed
    validate_phase_status validate_transition_metadata matches_identity assert_identity
    check_transition is_worker_taken is_worker_missing check_worker cas_update apply_transition
    transition_body read_back transition_ci_request is_lower_hex has_slash get_ci_request
    get_ci_request_by_idempotency_key get_ci_request_by_worker_job_id no_payload
    get_ci_request_payload get_job same_source assert_worker_job_identity insert_event
dispatch_twice_example =
    dispatch_twice digest finish_ops "r1" "j1" dispatch_args 13 registered_db dispatched_db
      (record {
        request = stored dispatched_db "r1";
        worker_job = some (stored_job dispatched_db "j1");
      })
      registered-IsAudited refl "j2" dispatch_args 30 refl

attempt_ends_example : fence digest "j1" (some "w1") (some "t1") 21 passed_db ≡ false
unfolding register_worker reusable_job supersede_one supersede_all superseded_rows insert_job
    insert_created insert_new create_or_get_in_transaction request_key create_request_job
    complete_row complete_found complete_job reconcile_if write_status set_job_status
    set_job_source_downloaded running_count last_dispatched goes_before next_job lease_row lease_job
    fence begin_job_write add_delta upsert_queue_state set_worker_busy set_worker_idle free_worker
    add_job_event update_jobs matching_jobs run_op run empty_db find select update count first_by
    atomically check_dispatch bind_job dispatch_row dispatch_body dispatch_ci_request
    validate_new_request_identity check_replay insert_request set_last_event insert_accepted
    create_body create_or_get_ci_request matching_attestation proves_tree may_project project_to
    project_with projection apply_projection reconcile_in_db status_eq is_valid_pair allowed
    validate_phase_status validate_transition_metadata matches_identity assert_identity
    check_transition is_worker_taken is_worker_missing check_worker cas_update apply_transition
    transition_body read_back transition_ci_request is_lower_hex has_slash get_ci_request
    get_ci_request_by_idempotency_key get_ci_request_by_worker_job_id no_payload
    get_ci_request_payload get_job same_source assert_worker_job_identity insert_event
attempt_ends_example =
    attempt_ends digest "j1" (some "w1") (some "t1") 20 running_db passed_db passed "w1" "t1" 21
      (inl refl)

recover_worker-running_count_example :
    running_count "w1" (recover_worker_jobs "w1" 50 running_db).1 ≡ 0
recover_worker-running_count_example = recover_worker-running_count "w1" 50 running_db

Move-forward_example :
    (phase_rank Phase.running ≤ phase_rank Phase.terminal)
    × (Phase.running ≡ Phase.terminal
        → (Phase.terminal ≡ Phase.terminal) × (RequestStatus.passed ≡ RequestStatus.running))
unfolding is_valid_pair allowed
Move-forward_example =
    Move-forward Phase.running RequestStatus.running Phase.terminal RequestStatus.passed
      (refl, inl refl)

-- The Worker of the run, which was last heard of at 12.
abbrev stored_worker : Worker
stored_worker = record {
  worker_id = "w1";
  token_hash = digest "t";
  supported_profiles = "repo-auto-check" ∷ [];
  max_concurrent = 1;
  status = WorkerStatus.busy;
  current_job_id = some "j1";
  last_heartbeat = 12;
  registered_at = 12;
}

offline_worker_is_idle_example : (idle_row stored_worker).status ≡ WorkerStatus.idle
unfolding register_worker reusable_job supersede_one supersede_all superseded_rows insert_job
    insert_created insert_new create_or_get_in_transaction request_key create_request_job
    complete_row complete_found complete_job reconcile_if write_status set_job_status
    set_job_source_downloaded running_count last_dispatched goes_before next_job lease_row lease_job
    fence begin_job_write add_delta upsert_queue_state set_worker_busy set_worker_idle free_worker
    add_job_event update_jobs matching_jobs run_op run empty_db find select update count first_by
    atomically check_dispatch bind_job dispatch_row dispatch_body dispatch_ci_request
    validate_new_request_identity check_replay insert_request set_last_event insert_accepted
    create_body create_or_get_ci_request matching_attestation proves_tree may_project project_to
    project_with projection apply_projection reconcile_in_db status_eq is_valid_pair allowed
    validate_phase_status validate_transition_metadata matches_identity assert_identity
    check_transition is_worker_taken is_worker_missing check_worker cas_update apply_transition
    transition_body read_back transition_ci_request is_lower_hex has_slash get_ci_request
    get_ci_request_by_idempotency_key get_ci_request_by_worker_job_id no_payload
    get_ci_request_payload get_job same_source assert_worker_job_identity insert_event clear_offline
    clear_stale reconcile_stale_workers
offline_worker_is_idle_example =
    offline_worker_is_idle 500 running_db (idle_row stored_worker) (Memᴰ.head refl) (omega arith)

fresh_worker_is_kept_example : Memᴰ stored_worker (reconcile_stale_workers 100 running_db).1.workers
unfolding register_worker reusable_job supersede_one supersede_all superseded_rows insert_job
    insert_created insert_new create_or_get_in_transaction request_key create_request_job
    complete_row complete_found complete_job reconcile_if write_status set_job_status
    set_job_source_downloaded running_count last_dispatched goes_before next_job lease_row lease_job
    fence begin_job_write add_delta upsert_queue_state set_worker_busy set_worker_idle free_worker
    add_job_event update_jobs matching_jobs run_op run empty_db find select update count first_by
    atomically check_dispatch bind_job dispatch_row dispatch_body dispatch_ci_request
    validate_new_request_identity check_replay insert_request set_last_event insert_accepted
    create_body create_or_get_ci_request matching_attestation proves_tree may_project project_to
    project_with projection apply_projection reconcile_in_db status_eq is_valid_pair allowed
    validate_phase_status validate_transition_metadata matches_identity assert_identity
    check_transition is_worker_taken is_worker_missing check_worker cas_update apply_transition
    transition_body read_back transition_ci_request is_lower_hex has_slash get_ci_request
    get_ci_request_by_idempotency_key get_ci_request_by_worker_job_id no_payload
    get_ci_request_payload get_job same_source assert_worker_job_identity insert_event clear_offline
    clear_stale reconcile_stale_workers
fresh_worker_is_kept_example =
    fresh_worker_is_kept 100 running_db stored_worker (Memᴰ.head refl) (omega arith) refl
