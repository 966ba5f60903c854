-- ===== src/Controller/Lifecycle.antt =====
-- The lifecycle of requests over every run of the controller.
use github_mcp.Controller.{
  Op, create_request, transition, dispatch, reconcile, reconcile_all, create_job, lease, renew,
  complete, request_cancel, cancel_queued, release, set_status, source_downloaded, recover_worker,
  recover_expired, register, heartbeat, run_op, run, empty_db,
}
use github_mcp.Requests.Changes.{Change, still}
use github_mcp.Requests.ChangesAudit.{Change-IsAudited}
use github_mcp.Requests.Progress.{IsLater, Change-IsLater, IsLater-trans, IsLater-refl}
use github_mcp.Jobs.Steps.{
  complete_job-Change, apart-Change, cancel_queued_job-Change, release_job-Change,
  set_job_status-Change, recover_expired-Change,
}
use github_mcp.Prelude.{
  String, ℕ, List, ◌∷◌, [], Option-cases, refl, inl, subst, inr, ap, ◌≡◌, some,
}
use github_mcp.Requests.Reconcile.{reconcile_rows, reconcile_in_db, reconcile_pending, is_pending}
use github_mcp.Jobs.Create.{create_or_get_job, NewJob, create_or_get_in_transaction, Created}
use github_mcp.Schema.{Db, Request}
use github_mcp.Requests.Audit.{IsAudited}
use github_mcp.Requests.StepsCreate.{create-Change}
use github_mcp.Requests.StepsDispatch.{dispatch-Change}
use github_mcp.Jobs.Apart.{
  SameRequests, create_in_transaction-SameRequests, lease_job-SameRequests,
  renew_lease-SameRequests, request_cancel-SameRequests, source-SameRequests,
  recover_worker-SameRequests, register-SameRequests, heartbeat-SameRequests,
}
use github_mcp.Tx.{Result}
use github_mcp.Table.{select, find}
use github_mcp.Requests.Queries.{get_ci_request, get_ci_request_events}
use github_mcp.Requests.Steps.{
  resume-Change, reconcile_in_db-Change, atomically-Change, transition-Change, reconcile-Change,
}

reconcile_rows-Change :
    (rows : List Request) (now : ℕ) (db : Db)
    → IsAudited db
    → Change db (reconcile_rows rows now db).1
unfolding reconcile_rows
reconcile_rows-Change [] now db v = still refl refl
reconcile_rows-Change (r ∷ rs) now db v = elim (Option-cases r.worker_job_id) [
  | inl e ↦ rw (e, reconcile_rows) (reconcile_rows-Change rs now db v)
  | inr (w, e) ↦
      let c = reconcile_in_db-Change w now db v in
      rw (e, reconcile_rows)
        (resume-Change db (reconcile_in_db w now db) _ c λ b.
          resume-Change (reconcile_in_db w now db).1
            (reconcile_rows rs now (reconcile_in_db w now db).1) _
            (reconcile_rows-Change rs now (reconcile_in_db w now db).1 (Change-IsAudited c v))
            (λ n. still refl refl))
]

create_job-Change :
    (key : String → String → String → String) (id : String) (n : NewJob) (now : ℕ) (db : Db)
    → Change db (create_or_get_job key id n now db).1
unfolding create_or_get_job
create_job-Change key id n now db =
    atomically-Change db
      (create_or_get_in_transaction id (key n.repository n.commit_sha n.profile) n now)
      λ c db' h. apart-Change (
        subst (λ d. SameRequests d db) (ap (λ (y : Result Created × Db). y.1) h)
          (create_in_transaction-SameRequests id (key n.repository n.commit_sha n.profile) n now
            db))

-- Each operation of the controller is a change of the request tables.
pub run_op-Change :
    (sha256 : String → String) (o : Op) (now : ℕ) (db : Db)
    → IsAudited db
    → Change db (run_op sha256 o now db)
unfolding run_op
run_op-Change sha256 (create_request id n) now db v = create-Change id n now db
run_op-Change sha256 (transition id n p s args) now db v = transition-Change id n p s args now db
run_op-Change sha256 (dispatch id job_id a) now db v = dispatch-Change id job_id a now db
run_op-Change sha256 (reconcile w) now db v = reconcile-Change w now db v
run_op-Change sha256 reconcile_all now db v =
    unfold reconcile_pending in reconcile_rows-Change (select is_pending db.requests) now db v
run_op-Change sha256 (create_job id key n) now db v = create_job-Change (λ _ _ _. key) id n now db
run_op-Change sha256 (lease w t ps m) now db v =
    apart-Change (lease_job-SameRequests sha256 w t ps m now db)
run_op-Change sha256 (renew id t w) now db v =
    apart-Change (renew_lease-SameRequests sha256 id t w now db)
run_op-Change sha256 (complete id c w t) now db v = complete_job-Change sha256 id c w t now db v
run_op-Change sha256 (request_cancel id) now db v =
    apart-Change (request_cancel-SameRequests id now db)
run_op-Change sha256 (cancel_queued id) now db v = cancel_queued_job-Change id now db v
run_op-Change sha256 (release id w t) now db v = release_job-Change sha256 id w t now db
run_op-Change sha256 (set_status id s w t) now db v = set_job_status-Change sha256 id s w t now db v
run_op-Change sha256 (source_downloaded id d n w t) now db v =
    apart-Change (source-SameRequests sha256 id d n w t now db)
run_op-Change sha256 (recover_worker w) now db v =
    apart-Change (recover_worker-SameRequests w now db)
run_op-Change sha256 recover_expired now db v = recover_expired-Change now db v
run_op-Change sha256 (register w t ps m) now db v =
    apart-Change (register-SameRequests sha256 w t ps m now db)
run_op-Change sha256 (heartbeat w) now db v = apart-Change (heartbeat-SameRequests w now db)

-- However a run mixes the operations, from an audited database every request keeps a complete audit
-- trail: its events start at revision 0, each starts at the stage where the one before it ended and
-- adds 1 to the revision, each makes an allowed move, the last one is at the request's own
-- revision, phase and status, and no event lacks its request.
pub run-IsAudited :
    (sha256 : String → String) (ops : List (Op × ℕ)) (db : Db)
    → IsAudited db
    → IsAudited (run sha256 ops db)
unfolding run
run-IsAudited sha256 [] db v = v
run-IsAudited sha256 ((o, now) ∷ rest) db v =
    run-IsAudited sha256 rest (run_op sha256 o now db)
      (Change-IsAudited (run_op-Change sha256 o now db v) v)

-- However a run mixes the operations, from an audited database a stored request is still stored
-- after it, for the same repository, branch, commit, profile, configuration, idempotency key and
-- request hash, at no smaller revision and no earlier phase; a tree that it names is kept; and a
-- terminal request is terminal with the status that it had.
pub run-IsLater :
    (sha256 : String → String) (ops : List (Op × ℕ)) (db : Db) (id : String) (r : Request)
    → IsAudited db
    → get_ci_request db id ≡ some r
    → (r' : Request) × (get_ci_request (run sha256 ops db) id ≡ some r') × IsLater r' r
unfolding run
run-IsLater sha256 [] db id r v h = (r, h, IsLater-refl r)
run-IsLater sha256 ((o, now) ∷ rest) db id r v h =
    let c = run_op-Change sha256 o now db v in
    let (r₁, h₁, l₁) = Change-IsLater c id r h in
    let (r₂, h₂, l₂) =
      run-IsLater sha256 rest (run_op sha256 o now db) id r₁ (Change-IsAudited c v) h₁ in
    (r₂, h₂, IsLater-trans r₂ r₁ r l₂ l₁)

-- The audit holds of a new database.
pub IsAudited-empty_db : IsAudited empty_db
unfolding empty_db get_ci_request get_ci_request_events find select
IsAudited-empty_db = record { keyed = tt; trails = λ id r h. absurd (cc h); orphans = λ id h. refl }
