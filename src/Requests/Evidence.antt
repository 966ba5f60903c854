-- ===== src/Requests/Evidence.antt =====
-- What a reconciliation needs of the Worker Job before it moves a request.
use github_mcp.Requests.Reconcile.{
  Projection, reconcile_in_db, worker_target, proves_tree, summary_tree, projection_row,
  projection_event, at_projection,
}
use github_mcp.Requests.Inversion.{IsJustified, advanced}
use github_mcp.Requests.Steps.{reconcile_in_db-cases}
use github_mcp.Schema.{Db, JobStatus, Job, ℤ, Phase, Request, is_zero, RequestStatus, pos, negsuc}
use github_mcp.Prelude.{
  Option, String, ℕ, ◌≡◌, true, some, ◌∙◌, arith, ap, opt_eq_sound, sym, false, ◌⊎◌, ◌+◌, inl, inr,
  Bool-cases, str_eq, str_eq_iff, some_inj, subst, col_eq_sound,
}
use github_mcp.Requests.Projected.{worker_bound, projection-IsAdvance}
use github_mcp.Requests.Audit.{advanced-get_self, advanced-get_other, IsAudited}
use github_mcp.Prelude.{none, some}
use github_mcp.Requests.Queries.{same_source, get_ci_request, event_row, get_job}

-- A job that proves its request passed: it passed with exit code 0, for the request's repository,
-- branch, commit and profile, on the tree that the request pins.
pub record Passes (j : Job) (r : Request) : Type 0 where
  pub passed : j.status ≡ JobStatus.passed
  pub exit_zero : j.exit_code ≡ some (pos 0)
  pub source : same_source j r ≡ true
  pub tree : summary_tree j.summary ≡ some r.tree_sha

target_passed :
    (s : JobStatus) (p : Phase)
    → worker_target s ≡ some (p, RequestStatus.passed)
    → s ≡ JobStatus.passed
target_passed s p h = ground arith

zero_exit : (z : ℤ) → is_zero z ≡ true → z ≡ pos 0
zero_exit (pos n) h = ap pos (ground arith)
zero_exit (negsuc n) h = cc

exit_of : (o : Option ℤ) → elim o [ none ↦ false | some c ↦ is_zero c ] ≡ true → o ≡ some (pos 0)
exit_of none h = cc
exit_of (some z) h = ap some (zero_exit z h)

proves-passed :
    (j : Job) (jt : Option String) (tree : String)
    → j.status ≡ JobStatus.passed
    → proves_tree j jt tree ≡ true
    → (jt ≡ some tree) × (j.exit_code ≡ some (pos 0))
unfolding proves_tree
proves-passed j jt tree e h =
    (opt_eq_sound jt (some tree) (ground arith), exit_of j.exit_code (ground arith))

pub Justified-Passes :
    (db : Db) (w : String) (now : ℕ) (q : Projection) (j : Job)
    → IsJustified db w now q j
    → q.to_status ≡ RequestStatus.passed
    → Passes j q.request
Justified-Passes db w now q j js h =
    let (jt, read, proved) = js.tree_proved in
    let passed : j.status ≡ JobStatus.passed =
      target_passed j.status q.to_phase (js.target ∙ ap (λ s. some (q.to_phase, s)) h) in
    let (same, zero) = proves-passed j jt q.tree passed proved in
    record {
      passed = passed;
      exit_zero = zero;
      source = js.source_agrees;
      tree = read ∙ ap some (same ∙ sym js.tree_pinned);
    }

module _ (id w : String) (now : ℕ) (db : Db) (r r' : Request) (v : IsAudited db)
    (before : get_ci_request db id ≡ some r) where
  moved_by :
      (q : Projection) (j : Job)
      → IsJustified db w now q j
      → get_ci_request
          (advanced db
            (event_row db.next_event_id q.request.request_id
              (q.request.revision + 1)
              (projection_event q)
              now)
            (at_projection q w)
            (projection_row q db.next_event_id now))
          id
        ≡ some r'
      → r'.status ≡ RequestStatus.passed
      → (r.status ≡ RequestStatus.passed) ⊎ (Passes j r × (r.worker_job_id ≡ some w))
  moved_by q j js after h =
      let a = projection-IsAdvance db w now q j v js db.next_event_id in
      elim (Bool-cases (str_eq q.request.request_id id)) [
        | inl same ↦
            let e : q.request.request_id ≡ id = (str_eq_iff q.request.request_id id).0 same in
            let e_r : q.request ≡ r =
              some_inj _ _ (sym a.found ∙ ap (get_ci_request db) e ∙ before) in
            let e_r' : projection_row q db.next_event_id now q.request ≡ r' = some_inj _ _ (
              sym (advanced-get_self db q.request.request_id q.request _ _ _ a)
              ∙ ap (get_ci_request _) e
              ∙ after) in
            inr (
              subst (λ x. Passes j x × (x.worker_job_id ≡ some w)) e_r
                (
                  Justified-Passes db w now q j js (ap (λ (x : Request). x.status) e_r' ∙ h),
                  col_eq_sound q.request.worker_job_id w (worker_bound db w now q j v js),
                ))
        | inr other ↦ inl (
            ap (λ (x : Request). x.status)
              (some_inj r r' (
                sym before
                ∙ sym (advanced-get_other db q.request.request_id q.request _ _ _ a id other)
                ∙ after))
            ∙ h)
      ]

  -- On an audited database a reconciliation leaves a request with the status `passed` only where
  -- it had that status before, or on the evidence of the Worker Job that the request is bound to:
  -- that job passed, with exit code 0, for the request's repository, branch, commit and profile,
  -- and its summary names the tree that the request pins.
  pub passed_needs_proof :
      get_ci_request (reconcile_in_db w now db).1 id ≡ some r'
      → r'.status ≡ RequestStatus.passed
      → (r.status ≡ RequestStatus.passed)
        ⊎ ((j : Job) × (get_job db w ≡ some j) × Passes j r × (r.worker_job_id ≡ some w))
  passed_needs_proof after h = elim (reconcile_in_db-cases w now db v) [
    | inl (e, e') ↦
        inl (ap (λ (x : Request). x.status) (some_inj r r' (sym before ∙ (rw e' at after))) ∙ h)
    | inr (q, j, js, e, e') ↦ elim (moved_by q j js (rw e' at after) h) [
      | inl x ↦ inl x
      | inr (p, b) ↦ inr (j, js.job_found, p, b)
    ]
  ]
