-- ===== src/Tests/LogRuns.antt =====
-- A job's log and steps, written by its Worker, and the theorems on logs at that run.
use mathlib.Core.List.{Memᴰ}
use mathlib.Core.List.Memᴰ
use github_mcp.Controller.{run, complete, run_op, empty_db}
use github_mcp.Tests.Runs.{passed, running_db, digest, stored_job, hash_a}
use github_mcp.Requests.Dispatch.{bind_job, dispatch_row, dispatch_body, dispatch_ci_request}
use github_mcp.Logs.Text.{IsLog, log_text, IsTiled}
use github_mcp.Prelude.{
  List, [], some, ℕ, ◌∷◌, ◌≡◌, ◌++◌, refl, length, none, subst, ◌⊎◌, ◌+◌, some_inj, ap, sym, ◌∙◌,
  ◌<◌, arith,
}
use github_mcp.Jobs.Recover.{register_worker}
use github_mcp.Tx.{atomically, ok, err, stale_job_lease}
use github_mcp.Logs.Ranges.{HasRanges}
use github_mcp.Logs.Growth.{run_logs, LogOp, run_logs-IsLog, IsLog-nil, run_logs-text, run_log_op}
use github_mcp.Jobs.Create.{
  reusable_job, supersede_one, supersede_all, superseded_rows, insert_job, insert_created,
  insert_new, create_or_get_in_transaction, request_key, create_request_job,
}
use github_mcp.Schema.{pos, JobStatus, Job}
use github_mcp.Logs.StepRuns.{run_logs-HasRanges}
use github_mcp.Jobs.Finish.{
  complete_row, complete_found, complete_job, reconcile_if, write_status, set_job_status,
  set_job_source_downloaded, release_job,
}
use github_mcp.Jobs.Lease.{
  running_count, last_dispatched, goes_before, next_job, lease_row, lease_job, fence,
  begin_job_write,
}
use github_mcp.Jobs.Queue.{
  add_delta, upsert_queue_state, set_worker_busy, set_worker_idle, free_worker, add_job_event,
  update_jobs, matching_jobs,
}
use github_mcp.Table.{find, select, update, count, first_by}
use github_mcp.Requests.Dispatch.{check_dispatch}
use github_mcp.Requests.Create.{
  validate_new_request_identity, check_replay, insert_request, set_last_event, insert_accepted,
  create_body, create_or_get_ci_request,
}
use github_mcp.Requests.Reconcile.{
  matching_attestation, proves_tree, may_project, project_to, project_with, projection,
  apply_projection, reconcile_in_db,
}
use github_mcp.Requests.Lifecycle.{
  status_eq, is_valid_pair, allowed, validate_phase_status, validate_transition_metadata,
}
use github_mcp.Requests.Checks.{matches_identity, assert_identity, check_transition, check_worker}
use github_mcp.Requests.Transition.{
  is_worker_taken, is_worker_missing, cas_update, apply_transition, transition_body, read_back,
  transition_ci_request,
}
use github_mcp.Requests.Queries.{
  is_lower_hex, has_slash, get_ci_request, get_ci_request_by_idempotency_key,
  get_ci_request_by_worker_job_id, no_payload, get_ci_request_payload, get_job, same_source,
  assert_worker_job_identity, insert_event,
}
use github_mcp.Logs.Append.{append_log_chunk-text, append_log_batch_once}
use github_mcp.Logs.Read.{LogPage, get_log_chunks, drop}
use github_mcp.Logs.Clips.{joined}
use github_mcp.Logs.Paging.{get_log_chunks-text, plain_read}
use github_mcp.Logs.Fenced.{IsHolder, RaisesStale, stale_worker_refused}
use github_mcp.Logs.{
  LogDb, StepEnd, append_log_chunk, append_log_batch, append_batch_row, append_new_batch,
  insert_chunk, job_chunks, count_bytes, of_job, add_step, finish_step,
}

abbrev fresh_logs : LogDb
fresh_logs = record { db = running_db; chunks = []; batches = []; steps = []; next_step_id = 1 }

abbrev ended : StepEnd
ended = record { status = "passed"; exit_code = some (pos 0); log_end_offset = some (pos 90) }

abbrev log_ops : List (LogOp × ℕ)
log_ops =
    (LogOp.start_step "j1" "build" "running" (some "w1") (some "t1"), 17)
    ∷ (LogOp.chunk "j1" (65 ∷ 66 ∷ []) (some "w1") (some "t1"), 18)
    ∷ (LogOp.batch "j1" "b1" (67 ∷ []) (some "w1") (some "t1"), 18)
    ∷ (LogOp.end_step 1 ended (some "j1") (some "w1") (some "t1"), 19)
    ∷ (LogOp.controller (complete "j1" passed (some "w1") (some "t1")), 20)
    ∷ []

run_logs-IsLog_example : IsLog (run_logs digest log_ops fresh_logs)
run_logs-IsLog_example = run_logs-IsLog digest log_ops fresh_logs (IsLog-nil fresh_logs refl)

run_logs-HasRanges_example : HasRanges (run_logs digest log_ops fresh_logs)
run_logs-HasRanges_example =
    run_logs-HasRanges digest log_ops fresh_logs (record { numbered = tt; ranges = tt })

run_logs-text_example :
    (added : List ℕ) × (log_text "j1" (run_logs digest log_ops fresh_logs)
      ≡ log_text "j1" fresh_logs ++ added)
run_logs-text_example = run_logs-text digest log_ops fresh_logs "j1"

append_log_chunk-text_example :
    (log_text "j1"
        (append_log_chunk digest "j1" (65 ∷ 66 ∷ []) (some "w1") (some "t1") 18 fresh_logs).1
      ≡ log_text "j1" fresh_logs ++ (65 ∷ 66 ∷ []))
    × (2
        ≡ length (
            log_text "j1"
              (append_log_chunk digest "j1"
                (65 ∷ 66 ∷ [])
                (some "w1")
                (some "t1")
                18
                fresh_logs).1))
    × (log_text "j2"
          (append_log_chunk digest "j1" (65 ∷ 66 ∷ []) (some "w1") (some "t1") 18 fresh_logs).1
        ≡ log_text "j2" fresh_logs)
unfolding register_worker reusable_job supersede_one supersede_all superseded_rows insert_job
    insert_created insert_new create_or_get_in_transaction request_key create_request_job
    complete_row complete_found complete_job reconcile_if write_status set_job_status
    set_job_source_downloaded running_count last_dispatched goes_before next_job lease_row lease_job
    fence begin_job_write add_delta upsert_queue_state set_worker_busy set_worker_idle free_worker
    add_job_event update_jobs matching_jobs run_op run empty_db find select update count first_by
    atomically check_dispatch bind_job dispatch_row dispatch_body dispatch_ci_request
    validate_new_request_identity check_replay insert_request set_last_event insert_accepted
    create_body create_or_get_ci_request matching_attestation proves_tree may_project project_to
    project_with projection apply_projection reconcile_in_db status_eq is_valid_pair allowed
    validate_phase_status validate_transition_metadata matches_identity assert_identity
    check_transition is_worker_taken is_worker_missing check_worker cas_update apply_transition
    transition_body read_back transition_ci_request is_lower_hex has_slash get_ci_request
    get_ci_request_by_idempotency_key get_ci_request_by_worker_job_id no_payload
    get_ci_request_payload get_job same_source assert_worker_job_identity insert_event
    append_log_chunk append_log_batch append_batch_row append_new_batch insert_chunk job_chunks
    count_bytes
append_log_chunk-text_example =
    append_log_chunk-text digest "j1" "j2" (65 ∷ 66 ∷ []) (some "w1") (some "t1") 18 2 fresh_logs
      (append_log_chunk digest "j1" (65 ∷ 66 ∷ []) (some "w1") (some "t1") 18 fresh_logs).1
      (IsLog-nil fresh_logs refl) refl refl

append_log_batch_once_example :
    (append_log_batch digest "j1" "b1" (68 ∷ []) none none 21 (
      run_logs digest log_ops
        (append_log_batch digest "j1" "b1" (67 ∷ []) (some "w1") (some "t1") 18 fresh_logs).1)).1
    ≡ run_logs digest log_ops
        (append_log_batch digest "j1" "b1" (67 ∷ []) (some "w1") (some "t1") 18 fresh_logs).1
unfolding register_worker reusable_job supersede_one supersede_all superseded_rows insert_job
    insert_created insert_new create_or_get_in_transaction request_key create_request_job
    complete_row complete_found complete_job reconcile_if write_status set_job_status
    set_job_source_downloaded running_count last_dispatched goes_before next_job lease_row lease_job
    fence begin_job_write add_delta upsert_queue_state set_worker_busy set_worker_idle free_worker
    add_job_event update_jobs matching_jobs run_op run empty_db find select update count first_by
    atomically check_dispatch bind_job dispatch_row dispatch_body dispatch_ci_request
    validate_new_request_identity check_replay insert_request set_last_event insert_accepted
    create_body create_or_get_ci_request matching_attestation proves_tree may_project project_to
    project_with projection apply_projection reconcile_in_db status_eq is_valid_pair allowed
    validate_phase_status validate_transition_metadata matches_identity assert_identity
    check_transition is_worker_taken is_worker_missing check_worker cas_update apply_transition
    transition_body read_back transition_ci_request is_lower_hex has_slash get_ci_request
    get_ci_request_by_idempotency_key get_ci_request_by_worker_job_id no_payload
    get_ci_request_payload get_job same_source assert_worker_job_identity insert_event
    append_log_chunk append_log_batch append_batch_row append_new_batch insert_chunk job_chunks
    count_bytes
append_log_batch_once_example =
    append_log_batch_once digest "j1" "b1" (67 ∷ []) (68 ∷ []) (some "w1") (some "t1") none none 18
      21 1 log_ops fresh_logs
      (append_log_batch digest "j1" "b1" (67 ∷ []) (some "w1") (some "t1") 18 fresh_logs).1 refl

-- Two chunks in the log, and a page that starts inside the first.
abbrev two_chunks : LogDb
two_chunks = record fresh_logs {
  chunks =
      record {
        job_id = "j1";
        chunk_index = 1;
        offset_from = 2;
        offset_to = 3;
        content = 67 ∷ [];
        created_at = 18;
      }
      ∷ record {
        job_id = "j1";
        chunk_index = 0;
        offset_from = 0;
        offset_to = 2;
        content = 65 ∷ 66 ∷ [];
        created_at = 18;
      }
      ∷ [];
}

abbrev chunk_ops : List (LogOp × ℕ)
chunk_ops =
    (LogOp.chunk "j1" (65 ∷ 66 ∷ []) (some "w1") (some "t1"), 18)
    ∷ (LogOp.chunk "j1" (67 ∷ []) (some "w1") (some "t1"), 18)
    ∷ []

written_is : (run_logs digest chunk_ops fresh_logs).chunks ≡ two_chunks.chunks
unfolding register_worker reusable_job supersede_one supersede_all superseded_rows insert_job
    insert_created insert_new create_or_get_in_transaction request_key create_request_job
    complete_row complete_found complete_job reconcile_if write_status set_job_status
    set_job_source_downloaded running_count last_dispatched goes_before next_job lease_row lease_job
    fence begin_job_write add_delta upsert_queue_state set_worker_busy set_worker_idle free_worker
    add_job_event update_jobs matching_jobs run_op run empty_db find select update count first_by
    atomically check_dispatch bind_job dispatch_row dispatch_body dispatch_ci_request
    validate_new_request_identity check_replay insert_request set_last_event insert_accepted
    create_body create_or_get_ci_request matching_attestation proves_tree may_project project_to
    project_with projection apply_projection reconcile_in_db status_eq is_valid_pair allowed
    validate_phase_status validate_transition_metadata matches_identity assert_identity
    check_transition is_worker_taken is_worker_missing check_worker cas_update apply_transition
    transition_body read_back transition_ci_request is_lower_hex has_slash get_ci_request
    get_ci_request_by_idempotency_key get_ci_request_by_worker_job_id no_payload
    get_ci_request_payload get_job same_source assert_worker_job_identity insert_event
    append_log_chunk append_log_batch append_batch_row append_new_batch insert_chunk job_chunks
    count_bytes run_log_op run_logs
written_is = refl

two_chunks-IsLog : IsLog two_chunks
unfolding job_chunks
two_chunks-IsLog k =
    subst (λ cs. IsTiled (select (of_job k) cs)) written_is
      (run_logs-IsLog digest chunk_ops fresh_logs (IsLog-nil fresh_logs refl) k)

get_log_chunks-text_example :
    (page : LogPage) × (get_log_chunks "j1" (plain_read 1 (pos 1)) two_chunks ≡ ok page)
    × (rest : List ℕ) × (drop 1 (log_text "j1" two_chunks) ≡ joined page.chunks ++ rest)
    × (((page.next_offset ≡ none) × (rest ≡ []))
        ⊎ (page.next_offset ≡ some (1 + length (joined page.chunks))))
unfolding register_worker reusable_job supersede_one supersede_all superseded_rows insert_job
    insert_created insert_new create_or_get_in_transaction request_key create_request_job
    complete_row complete_found complete_job reconcile_if write_status set_job_status
    set_job_source_downloaded running_count last_dispatched goes_before next_job lease_row lease_job
    fence begin_job_write add_delta upsert_queue_state set_worker_busy set_worker_idle free_worker
    add_job_event update_jobs matching_jobs run_op run empty_db find select update count first_by
    atomically check_dispatch bind_job dispatch_row dispatch_body dispatch_ci_request
    validate_new_request_identity check_replay insert_request set_last_event insert_accepted
    create_body create_or_get_ci_request matching_attestation proves_tree may_project project_to
    project_with projection apply_projection reconcile_in_db status_eq is_valid_pair allowed
    validate_phase_status validate_transition_metadata matches_identity assert_identity
    check_transition is_worker_taken is_worker_missing check_worker cas_update apply_transition
    transition_body read_back transition_ci_request is_lower_hex has_slash get_ci_request
    get_ci_request_by_idempotency_key get_ci_request_by_worker_job_id no_payload
    get_ci_request_payload get_job same_source assert_worker_job_identity insert_event
    append_log_chunk append_log_batch append_batch_row append_new_batch insert_chunk job_chunks
    count_bytes
get_log_chunks-text_example =
    get_log_chunks-text "j1" 1 (pos 1) two_chunks (stored_job running_db "j1") two_chunks-IsLog refl

only_row : {A : Type 0} (x y : A) → Memᴰ x (y ∷ []) → x ≡ y
only_row x y (Memᴰ.head e) = e
only_row x y (Memᴰ.tail m) = absurd (Memᴰ.not-nil m)

-- The lease that was taken at 14 is over at 200.
lease_is_over : ¬ IsHolder digest "j1" "w1" "t1" 200 running_db
unfolding register_worker reusable_job supersede_one supersede_all superseded_rows insert_job
    insert_created insert_new create_or_get_in_transaction request_key create_request_job
    complete_row complete_found complete_job reconcile_if write_status set_job_status
    set_job_source_downloaded running_count last_dispatched goes_before next_job lease_row lease_job
    fence begin_job_write add_delta upsert_queue_state set_worker_busy set_worker_idle free_worker
    add_job_event update_jobs matching_jobs run_op run empty_db find select update count first_by
    atomically check_dispatch bind_job dispatch_row dispatch_body dispatch_ci_request
    validate_new_request_identity check_replay insert_request set_last_event insert_accepted
    create_body create_or_get_ci_request matching_attestation proves_tree may_project project_to
    project_with projection apply_projection reconcile_in_db status_eq is_valid_pair allowed
    validate_phase_status validate_transition_metadata matches_identity assert_identity
    check_transition is_worker_taken is_worker_missing check_worker cas_update apply_transition
    transition_body read_back transition_ci_request is_lower_hex has_slash get_ci_request
    get_ci_request_by_idempotency_key get_ci_request_by_worker_job_id no_payload
    get_ci_request_payload get_job same_source assert_worker_job_identity insert_event
    append_log_chunk append_log_batch append_batch_row append_new_batch insert_chunk job_chunks
    count_bytes
lease_is_over h =
    let e = only_row h.job (stored_job running_db "j1") h.is_stored in
    let t : 134 ≡ h.expiry =
      some_inj 134 h.expiry (ap (λ (j : Job). j.lease_expires_at) (sym e) ∙ h.lease_expires_at) in
    let late : 200 < h.expiry = h.is_alive in omega arith

stale_worker_refused_example :
    (complete_job digest "j1" passed (some "w1") (some "t1") 200 running_db
      ≡ (err stale_job_lease, running_db))
    × (release_job digest "j1" (some "w1") (some "t1") 200 running_db
        ≡ (err stale_job_lease, running_db))
    × (set_job_status digest "j1" JobStatus.failed (some "w1") (some "t1") 200 running_db
        ≡ (err stale_job_lease, running_db))
    × (set_job_source_downloaded digest "j1" hash_a 5 "w1" "t1" 200 running_db
        ≡ (err stale_job_lease, running_db))
    × RaisesStale digest "j1" "w1" "t1" 200 fresh_logs (append_log_chunk digest "j1" (65 ∷ []))
    × RaisesStale digest "j1" "w1" "t1" 200 fresh_logs (append_log_batch digest "j1" "b1" (65 ∷ []))
    × RaisesStale digest "j1" "w1" "t1" 200 fresh_logs (add_step digest "j1" "build" "running")
    × RaisesStale digest "j1" "w1" "t1" 200 fresh_logs (finish_step digest 1 ended (some "j1"))
stale_worker_refused_example =
    stale_worker_refused digest "j1" "w1" "t1" 200 fresh_logs passed JobStatus.failed hash_a 5
      (65 ∷ []) "b1" "build" "running" 1 ended lease_is_over
