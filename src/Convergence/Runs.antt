-- ===== src/Convergence/Runs.antt =====
-- Runs of the convergence store: any sequence of its calls, from any number of drivers.
use github_mcp.Prelude.{[], String, ℕ, List, arith, ◌≡◌, some, refl, Option, ◌∷◌}
use github_mcp.Convergence.History.{run_events, IsRecorded, RunChange-IsRecorded}
use github_mcp.Convergence.Create.{RunIdentity, NewRun, create_or_get_convergence}
use github_mcp.Table.{count, find, select}
use github_mcp.Convergence.Writes.{
  bind_index_job, bind_ci_request, RunTarget, AnalysisReport, transition_convergence, bind_ci_job,
  Field, record_analysis_state, record_terminal_evidence,
}
use github_mcp.Convergence.Unique.{HasOneActive, RunChange-HasOneActive}
use github_mcp.Convergence.Changes.{RunChange}
use github_mcp.Convergence.StepsCreate.{create_run-RunChange}
use github_mcp.Convergence.Steps.{
  transition-RunChange, bind_once-RunChange, bind_ci_job-RunChange, analysis-RunChange,
  evidence-RunChange,
}
use github_mcp.Convergence.Progress.{
  IsRunLater, IsRunLater-refl, RunChange-IsRunLater, IsRunLater-trans,
}
use github_mcp.Convergence.{RunDb, Convergence, stored_run}

-- A call of the store's interface, with the identifier that a creation draws.
pub data RunOp : Type 0 where
  create : (convergence_id : String) → NewRun → RunOp
  transition : (convergence_id : String) (expected_revision : ℕ) → RunTarget → RunOp
  bind_index : (convergence_id : String) (expected_revision : ℕ) (index_job_id : String) → RunOp
  bind_request : (convergence_id : String) (expected_revision : ℕ) (ci_request_id : String) → RunOp
  bind_job :
      (convergence_id : String) (expected_revision : ℕ) (ci_request_id ci_job_id : String) → RunOp
  analysis : (convergence_id : String) (expected_revision : ℕ) → AnalysisReport → RunOp
  evidence :
      (convergence_id : String) (expected_revision : ℕ)
      (attestation_id failure_pack_id : Option String)
      → RunOp

-- The tables after one call at the time `now`, whether it returned or raised.
unfoldable pub run_call : (digest : RunIdentity → String) → RunOp → (now : ℕ) → RunDb → RunDb
run_call digest (RunOp.create id n) now db = (create_or_get_convergence digest id n now db).1
run_call digest (RunOp.transition id n t) now db = (transition_convergence id n t now db).1
run_call digest (RunOp.bind_index id n v) now db = (bind_index_job id n v now db).1
run_call digest (RunOp.bind_request id n v) now db = (bind_ci_request id n v now db).1
run_call digest (RunOp.bind_job id n r v) now db = (bind_ci_job id n r v now db).1
run_call digest (RunOp.analysis id n a) now db = (record_analysis_state id n a now db).1
run_call digest (RunOp.evidence id n a f) now db = (record_terminal_evidence a f id n now db).1

unfoldable pub run_calls : (digest : RunIdentity → String) → List (RunOp × ℕ) → RunDb → RunDb
run_calls digest [] db = db
run_calls digest ((o, now) ∷ rest) db = run_calls digest rest (run_call digest o now db)

-- The tables that `init_convergence_db` creates.
unfoldable pub empty_run_db : RunDb
empty_run_db = record { convergences = []; analysis = []; events = [] }

pub run_call-RunChange :
    (digest : RunIdentity → String) (o : RunOp) (now : ℕ) (db : RunDb)
    → RunChange db (run_call digest o now db)
unfolding run_call bind_index_job bind_ci_request
run_call-RunChange digest (RunOp.create id n) now db = create_run-RunChange digest id n now db
run_call-RunChange digest (RunOp.transition id n t) now db = transition-RunChange id n t now db
run_call-RunChange digest (RunOp.bind_index id n v) now db =
    bind_once-RunChange Field.index_job_id v id n now db
run_call-RunChange digest (RunOp.bind_request id n v) now db =
    bind_once-RunChange Field.ci_request_id v id n now db
run_call-RunChange digest (RunOp.bind_job id n r v) now db = bind_ci_job-RunChange id n r v now db
run_call-RunChange digest (RunOp.analysis id n a) now db = analysis-RunChange id n a now db
run_call-RunChange digest (RunOp.evidence id n a f) now db = evidence-RunChange a f id n now db

-- However calls mix, from recorded tables every stored convergence keeps its whole history: one
-- event for each revision down to 0, each starting at the phase where the one before it ended, the
-- last one at the run's own revision and phase, no two runs under one identifier, and no event
-- without its run.
pub run_calls-IsRecorded :
    (digest : RunIdentity → String) (ops : List (RunOp × ℕ)) (db : RunDb)
    → IsRecorded db
    → IsRecorded (run_calls digest ops db)
unfolding run_calls
run_calls-IsRecorded digest [] db v = v
run_calls-IsRecorded digest ((o, now) ∷ rest) db v =
    run_calls-IsRecorded digest rest (run_call digest o now db)
      (RunChange-IsRecorded (run_call-RunChange digest o now db) v)

-- However calls mix, from recorded tables where at most one stored run is active for each
-- repository, session, head, tree, mode, base branch and base, this stays so: two drivers never
-- open two convergences for the same work.
pub run_calls-HasOneActive :
    (digest : RunIdentity → String) (ops : List (RunOp × ℕ)) (db : RunDb)
    → IsRecorded db
    → HasOneActive db
    → HasOneActive (run_calls digest ops db)
unfolding run_calls
run_calls-HasOneActive digest [] db v u = u
run_calls-HasOneActive digest ((o, now) ∷ rest) db v u =
    let c = run_call-RunChange digest o now db in
    run_calls-HasOneActive digest rest (run_call digest o now db) (RunChange-IsRecorded c v)
      (RunChange-HasOneActive c v u)

-- However calls mix, a stored convergence is still stored after them: for the same work, with every
-- bound identifier as it was, at no smaller revision, equal to itself if its revision is, and if it
-- was terminal then terminal at the same phase and status.
pub run_calls-IsRunLater :
    (digest : RunIdentity → String) (ops : List (RunOp × ℕ)) (db : RunDb) (id : String)
    (r : Convergence)
    → stored_run db id ≡ some r
    → (r' : Convergence) × (stored_run (run_calls digest ops db) id ≡ some r') × IsRunLater r' r
unfolding run_calls
run_calls-IsRunLater digest [] db id r h = (r, h, IsRunLater-refl r)
run_calls-IsRunLater digest ((o, now) ∷ rest) db id r h =
    let (r₁, h₁, l₁) = RunChange-IsRunLater (run_call-RunChange digest o now db) id r h in
    let (r₂, h₂, l₂) = run_calls-IsRunLater digest rest (run_call digest o now db) id r₁ h₁ in
    (r₂, h₂, IsRunLater-trans r₂ r₁ r l₂ l₁)

pub IsRecorded-empty_run_db : IsRecorded empty_run_db
unfolding empty_run_db stored_run run_events find select
IsRecorded-empty_run_db = record {
  keyed = tt;
  histories = λ id r h. absurd (cc h);
  orphans = λ id h. refl;
}

pub HasOneActive-empty_run_db : HasOneActive empty_run_db
unfolding empty_run_db count
HasOneActive-empty_run_db k = omega arith
