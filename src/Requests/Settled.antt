-- ===== src/Requests/Settled.antt =====
-- Reconciliation settles: a second one, on the same evidence, has nothing to do.
use github_mcp.Requests.Reconcile.{
  projection, Projection, reconcile_in_db, project_to, project_with, matching_attestation, relinks,
  projection_row, projection_event, at_projection, summary_tree, worker_target,
}
use github_mcp.Requests.Inversion.{IsJustified, advanced}
use github_mcp.Requests.Steps.{reconcile_in_db-cases, reconcile_in_db-none}
use github_mcp.Requests.Projected.{hit}
use github_mcp.Requests.Audit.{IsAudited}
use github_mcp.Schema.{Db, Request, Job}
use github_mcp.Prelude.{
  String, Option, ℕ, coalesce, ◌≡◌, false, none, some, col_eq, inl, ◌+◌, arith, refl, str_eq_refl,
  inr, ◌∙◌, ap,
}
use github_mcp.Requests.Queries.{event_row, get_ci_request_by_worker_job_id, get_job}
use github_mcp.Tx.{ok}
use github_mcp.Requests.Graph.{phase_eq_refl, status_eq_refl}
use github_mcp.Table.Laws.{find-update}

relinks-coalesce : (a b : Option String) → relinks a (coalesce a b) ≡ false
relinks-coalesce none b = refl
relinks-coalesce (some a) b = ground (arith, str_eq_refl a)

-- At its target, with its attestation linked, a request is not moved again.
project_to-settled :
    (db : Db) (r : Request) (j : Job) (tree : String) (now : ℕ) (b : Option String)
    → r.attestation_id ≡ coalesce (matching_attestation db r j tree now) b
    → project_to db r j tree now (some (r.phase, r.status)) ≡ none
unfolding project_to
project_to-settled db r j tree now b e = ground (
  arith,
  relinks-coalesce (matching_attestation db r j tree now) b,
  phase_eq_refl r.phase,
  status_eq_refl r.status,
)

project_with-none :
    (db : Db) (r : Request) (j : Job) (tree : String) (now : ℕ) (jt : Option (Option String))
    → project_to db r j tree now (worker_target j.status) ≡ none
    → project_with db r j now jt (some tree) ≡ none
unfolding project_with
project_with-none db r j tree now none h = refl
project_with-none db r j tree now (some jt) h = ground arith

projection-none :
    (db : Db) (w : String) (now : ℕ) (r : Request) (j : Job) (tree : String)
    → get_ci_request_by_worker_job_id db w ≡ some r
    → get_job db w ≡ some j
    → r.tree_sha ≡ some tree
    → project_to db r j tree now (worker_target j.status) ≡ none
    → projection db w now ≡ none
unfolding projection
projection-none db w now r j tree e e' e_tree h =
    let none_with = project_with-none db r j tree now (summary_tree j.summary) h in
    let moved : project_with db r j now (summary_tree j.summary) r.tree_sha ≡ none =
      ap (project_with db r j now (summary_tree j.summary)) e_tree ∙ none_with in
    ground arith

module _ (db : Db) (w : String) (now : ℕ) (q : Projection) (j : Job) (v : IsAudited db)
    (js : IsJustified db w now q j) where
  abbrev settled_row : Request
  settled_row = projection_row q db.next_event_id now q.request

  abbrev settled : Db
  settled =
      advanced db
        (event_row db.next_event_id q.request.request_id (q.request.revision + 1)
          (projection_event q) now)
        (at_projection q w) (projection_row q db.next_event_id now)

  settled-bound : get_ci_request_by_worker_job_id settled w ≡ some settled_row
  unfolding get_ci_request_by_worker_job_id
  settled-bound =
      find-update (λ r. col_eq r.worker_job_id w) (at_projection q w)
        (projection_row q db.next_event_id now) db.requests (λ x. refl)
      ∙ rw (js.request_bound, hit db w now q j v js)

  settled-job : get_job settled w ≡ some j
  unfolding get_job
  settled-job = js.job_found

  settled-linked :
      settled_row.attestation_id
      ≡ coalesce (matching_attestation settled settled_row j q.tree now) q.request.attestation_id
  unfolding matching_attestation
  settled-linked = ap (λ a. coalesce a q.request.attestation_id) js.attestation

  settled-none : projection settled w now ≡ none
  settled-none =
      projection-none settled w now settled_row j q.tree settled-bound settled-job js.tree_pinned (
        ap (project_to settled settled_row j q.tree now) js.target
        ∙ project_to-settled settled settled_row j q.tree now q.request.attestation_id
            settled-linked)

-- Reconciling a job twice at one time does no more than reconciling it once: on an audited database
-- the second reconciliation reports no change and makes none.
pub reconcile_twice :
    (w : String) (now : ℕ) (db : Db)
    → IsAudited db
    → reconcile_in_db w now (reconcile_in_db w now db).1 ≡ (ok false, (reconcile_in_db w now db).1)
reconcile_twice w now db v = elim (reconcile_in_db-cases w now db v) [
  | inl (e, e') ↦ rw e' e'
  | inr (q, j, js, e, e') ↦
      rw e'
        (reconcile_in_db-none w now (settled db w now q j v js) (settled-none db w now q j v js))
]
