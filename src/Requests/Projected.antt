-- ===== src/Requests/Projected.antt =====
-- Reconciliation with the Worker Job always succeeds on an audited database, and is an advance of
-- the request.
use github_mcp.Requests.Audit.{IsAudited, IsAdvance, id_of}
use github_mcp.Requests.Inversion.{IsJustified, advanced}
use github_mcp.Requests.Reconcile.{
  Projection, projection_row, projection_event, at_projection, apply_projection,
}
use github_mcp.Schema.{Db, Job}
use github_mcp.Prelude.{
  String, ℕ, ◌≡◌, col_eq, some, true, ◌+◌, str_eq, arith, ◌&&◌, str_eq_refl, str_eq_iff, ◌==◌, inr,
  refl, none, ◌∙◌,
}
use github_mcp.Requests.Queries.{
  get_ci_request_events, get_ci_request, get_ci_request_by_worker_job_id, event_row, insert_event,
  by_event_request,
}
use github_mcp.Table.{count, find, select}
use github_mcp.Requests.Transition.{cas_update}
use github_mcp.Tx.{ok}
use github_mcp.Table.Laws.{find_sound, find-select}
use github_mcp.Requests.Graph.{worker_target_valid, phase_eq_refl, status_eq_refl}
use github_mcp.Requests.Trail.{Trail-bounds}
use github_mcp.Table.Keys.{find-key, count-key}

module _ (db : Db) (w : String) (now : ℕ) (q : Projection) (j : Job) (v : IsAudited db)
    (js : IsJustified db w now q j) where
  -- The request that the job is bound to is the one under its id.
  request_by_id : get_ci_request db q.request.request_id ≡ some q.request
  unfolding get_ci_request get_ci_request_by_worker_job_id
  request_by_id =
      find-key id_of (λ r. col_eq r.worker_job_id w) db.requests q.request v.keyed js.request_bound

  pub worker_bound : col_eq q.request.worker_job_id w ≡ true
  unfolding get_ci_request_by_worker_job_id
  worker_bound = find_sound (λ r. col_eq r.worker_job_id w) db.requests q.request js.request_bound

  pub hit : at_projection q w q.request ≡ true
  hit = ground (
    arith,
    str_eq_refl q.request.request_id,
    phase_eq_refl q.request.phase,
    status_eq_refl q.request.status,
    worker_bound,
    js.tree_pinned,
    str_eq_refl q.tree,
  )

  pub projection-IsAdvance :
      (k : ℕ)
      → IsAdvance db q.request.request_id q.request
          (event_row k q.request.request_id (q.request.revision + 1) (projection_event q) now)
          (at_projection q w)
          (projection_row q k now)
  projection-IsAdvance k = record {
    found = request_by_id;
    only = λ r c. ground arith;
    hit = hit;
    keeps_source = λ r. ground arith;
    keeps_tree = λ _. refl;
    event_id = refl;
    event_revision = omega arith;
    row_revision = omega arith;
    from_phase = refl;
    from_status = refl;
    to_phase = refl;
    to_status = refl;
    moves =
        let (valid, executed) = worker_target_valid j.status q.to_phase q.to_status js.target in
        (valid, inr (js.move, executed));
  }

  -- No event has the next revision yet.
  no_event :
      find
        (λ x. str_eq x.request_id q.request.request_id && (x.revision == q.request.revision + 1))
        db.request_events
      ≡ none
  unfolding get_ci_request_events
  no_event =
      find-select (by_event_request q.request.request_id)
        (λ x. x.revision == q.request.revision + 1) db.request_events
      ∙ Trail-bounds (q.request.revision + 1)
          (select (by_event_request q.request.request_id) db.request_events) q.request.revision
          q.request.phase q.request.status (v.trails q.request.request_id q.request request_by_id)
          (omega arith)

  one_row : count (at_projection q w) db.requests ≡ 1
  unfolding get_ci_request_by_worker_job_id
  one_row =
      count-key id_of (at_projection q w) (λ r. col_eq r.worker_job_id w) db.requests q.request
        v.keyed (λ r c. ground (arith, str_eq_iff r.request_id q.request.request_id)) hit
        js.request_bound

  pub apply_projection-total : apply_projection w now q db ≡ (
    ok true,
    advanced db
        (event_row db.next_event_id q.request.request_id
          (q.request.revision + 1)
          (projection_event q)
          now)
        (at_projection q w)
        (projection_row q db.next_event_id now),
  )
  unfolding apply_projection insert_event cas_update
  apply_projection-total = ground (arith, no_event, one_row)
