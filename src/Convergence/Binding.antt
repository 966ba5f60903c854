-- ===== src/Convergence/Binding.antt =====
-- `bind_ci_job` reads the request binding in one transaction and writes the job in another.
use github_mcp.Convergence.Writes.{
  bind_once, bind_body, Field, Bound, bound_run, check_ci_request, write_run, event_name,
}
use github_mcp.Prelude.{
  String, ℕ, ◌≡◌, false, some, not, inl, inr, List, ◌+◌, some_inj, sym, ◌∙◌, col_eq_sound, arith,
  ap, refl, subst,
}
use github_mcp.Tx.{ok, require-ok, value_error, atomically-ok, reading-ok, state_invalid}
use github_mcp.Convergence.Steps.{require_revision-ok, bind_row-cases, bound_run-SameRun}
use github_mcp.Convergence.Create.{RunIdentity}
use github_mcp.Convergence.Changes.{write_run-ok, stored_run-update}
use github_mcp.Convergence.Runs.{RunOp, run_calls, run_calls-IsRunLater}
use github_mcp.Tx.Check.{>>=-eq-ok}
use github_mcp.Table.{find}
use github_mcp.Convergence.{RunDb, Convergence, stored_run, by_run_id, is_blank, require_revision}

-- What a binding leaves of the row, when it wrote.
bind_row-wrote :
    (k : Field) (value id : String) (now : ℕ) (row : Convergence) (db db' : RunDb) (b : Bound)
    → stored_run db id ≡ some row
    → write_run id row.revision (event_name k) now row (bound_run k value now) db
      ≡ (ok b.result, db')
    → stored_run db' id ≡ some (bound_run k value now row)
unfolding stored_run
bind_row-wrote k value id now row db db' b found w =
    let id_kept = λ (r : Convergence). (bound_run-SameRun k value now r).convergence_id in
    let (result, after) =
      write_run-ok id (event_name k) now row (bound_run k value now) db db' b.result id_kept found
        w in
    ap (λ (d : RunDb). find (by_run_id id) d.convergences) after
    ∙ stored_run-update db id row (bound_run k value now) db.convergences id_kept found refl

-- What a binding found and wrote, when it wrote.
bind_once-wrote :
    (k : Field) (value id : String) (n now : ℕ) (db db' : RunDb) (b : Bound)
    → bind_once k value id n now db ≡ (ok b, db')
    → b.deduplicated ≡ false
    → (row : Convergence) × (stored_run db id ≡ some row)
      × (row.revision ≡ n)
      × (stored_run db' id ≡ some (bound_run k value now row))
unfolding bind_once bind_body
bind_once-wrote k value id n now db db' b h fresh =
    let (u, w) = require-ok (not (is_blank value)) value_error _ b db db' h in
    let body = atomically-ok (bind_body k value id n now) db b db' w in
    let (row, e, m) = reading-ok (require_revision db id n) _ b db db' body in
    let (found, current) = require_revision-ok db id n row e in
    let (live, m') = require-ok (not row.terminal) state_invalid _ b db db' m in
    elim (bind_row-cases k value id n now row db db' b m') [
      | inl (d, same) ↦ absurd (cc (d, fresh))
      | inr (d, free, w') ↦ (
        row,
        found,
        current,
        bind_row-wrote k value id now row db db' b found (
            subst
              (λ i.
                write_run id i (event_name k) now row (bound_run k value now) db
                ≡ (ok b.result, db'))
              (sym current) w'),
      )
    ]

-- `bind_ci_job` reads the request that a convergence is bound to in one transaction, and binds the
-- job at the same revision in another. Whatever calls fall between the two, where the first
-- read found the request `request` and the second wrote, the stored convergence carries both the
-- job and that request.
pub bind_ci_job-request :
    (digest : RunIdentity → String) (ops : List (RunOp × ℕ)) (id request job : String) (n now : ℕ)
    (db db' : RunDb) (b : Bound)
    → check_ci_request id n request db ≡ ok tt
    → bind_once Field.ci_job_id job id n now (run_calls digest ops db) ≡ (ok b, db')
    → b.deduplicated ≡ false
    → (r : Convergence) × (stored_run db' id ≡ some r)
      × (r.ci_request_id ≡ some request)
      × (r.ci_job_id ≡ some job)
      × (r.revision ≡ n + 1)
unfolding check_ci_request
bind_ci_job-request digest ops id request job n now db db' b h w fresh =
    let (row, e, bound) = >>=-eq-ok (require_revision db id n) _ tt h in
    let (found, current) = require_revision-ok db id n row e in
    let (later, found', l) = run_calls-IsRunLater digest ops db id row found in
    let (row', at, current', after) =
      bind_once-wrote Field.ci_job_id job id n now (run_calls digest ops db) db' b w fresh in
    let here : later ≡ row' = some_inj later row' (sym found' ∙ at) in
    let same : later ≡ row = l.unchanged (rw (here, current', current) refl) in
    let request_is : row.ci_request_id ≡ some request =
      col_eq_sound row.ci_request_id request (ground arith) in
    (
      bound_run Field.ci_job_id job now row',
      after,
      ap (λ (r : Convergence). r.ci_request_id) (sym here ∙ same) ∙ request_is,
      refl,
      ap (λ k. k + 1) current',
    )
