-- ===== src/Requests/Inversion.antt =====
-- What a successful run of the parts of the request store tells about the state before and after.
use github_mcp.Requests.Checks.{check_transition, assert_identity, TransitionArgs, matches_identity}
use github_mcp.Prelude.{
  String, ℕ, ◌≡◌, some, true, arith, Bool, Option, ◌∷◌, suc, ◌+◌, none, ◌∙◌, refl, Option-cases, ap,
  inl, sym, inr,
}
use github_mcp.Schema.{Phase, RequestStatus, Db, Request, RequestEvent, Job}
use github_mcp.Tx.{ok}
use github_mcp.Requests.Queries.{
  get_ci_request, insert_event, get_ci_request_by_worker_job_id, get_job, event_row, same_source,
}
use github_mcp.Requests.Reconcile.{
  Projection, project_to, apply_projection, may_project, matching_attestation, projection_event,
  summary_tree, proves_tree, at_projection, worker_target, projection_row, project_with, projection,
}
use github_mcp.Requests.Transition.{
  apply_transition, cas_update, transition_event, at_stage, transition_row, transition_body,
}
use github_mcp.Table.{update}
use github_mcp.Tx.Check.{Result-cases}
use github_mcp.Requests.Lifecycle.{allowed}

-- The row that the checks of a transition let through.
pub check_transition-identity :
    (id : String) (n : ℕ) (p : Phase) (s : RequestStatus) (args : TransitionArgs) (db : Db)
    (row : Request)
    → check_transition id n p s args db ≡ ok row
    → matches_identity row args.expected_identity ≡ true
unfolding check_transition assert_identity
check_transition-identity id n p s args db row h = ground arith

pub check_transition-ok :
    (id : String) (n : ℕ) (p : Phase) (s : RequestStatus) (args : TransitionArgs) (db : Db)
    (row : Request)
    → check_transition id n p s args db ≡ ok row
    → (get_ci_request db id ≡ some row)
      × (row.revision ≡ n)
      × (allowed row.phase row.status p s ≡ true)
unfolding check_transition assert_identity
check_transition-ok id n p s args db row h = ground arith

-- The state after an event and a compare-and-set.
abbrev pub advanced : Db → RequestEvent → (Request → Bool) → (Request → Request) → Db
advanced db e p f = record db {
  requests = update p f db.requests;
  request_events = e ∷ db.request_events;
  next_event_id = suc db.next_event_id;
}

pub apply_transition-ok :
    (id : String) (n : ℕ) (p : Phase) (s : RequestStatus) (args : TransitionArgs) (now : ℕ)
    (row : Request) (db db' : Db)
    → apply_transition id n p s args now row db ≡ (ok tt, db')
    → (db'
        ≡ advanced db
            (event_row db.next_event_id id (n + 1) (transition_event row.phase row.status p s) now)
            (at_stage id n row.phase row.status)
            (transition_row p s args db.next_event_id now))
unfolding apply_transition insert_event cas_update
apply_transition-ok id n p s args now row db db' h = ground arith

pub transition_body-ok :
    (id : String) (n : ℕ) (p : Phase) (s : RequestStatus) (args : TransitionArgs) (now : ℕ)
    (db db' : Db)
    → transition_body id n p s args now db ≡ (ok tt, db')
    → (row : Request) × (check_transition id n p s args db ≡ ok row)
      × (apply_transition id n p s args now row db ≡ (ok tt, db'))
unfolding transition_body
transition_body-ok id n p s args now db db' h =
    elim (Result-cases (check_transition id n p s args db)) [
      | inl (row, e) ↦ (row, e, rw e at h)
      | inr (x, e) ↦ absurd (ground arith)
    ]

pub apply_projection-ok :
    (w : String) (now : ℕ) (q : Projection) (b : Bool) (db db' : Db)
    → apply_projection w now q db ≡ (ok b, db')
    → (b ≡ true)
      × (db'
          ≡ advanced db
              (event_row db.next_event_id q.request.request_id
                (q.request.revision + 1)
                (projection_event q)
                now)
              (at_projection q w)
              (projection_row q db.next_event_id now))
unfolding apply_projection insert_event cas_update
apply_projection-ok w now q b db db' h = ground arith

-- The guards of a projection.
pub project_to-some :
    (db : Db) (r : Request) (j : Job) (tree : String) (now : ℕ)
    (target : Option (Phase × RequestStatus)) (q : Projection)
    → project_to db r j tree now target ≡ some q
    → (q.request ≡ r)
      × (q.tree ≡ tree)
      × (target ≡ some (q.to_phase, q.to_status))
      × (may_project r.phase r.status q.to_phase q.to_status ≡ true)
      × (q.attestation_id ≡ matching_attestation db r j tree now)
unfolding project_to
project_to-some db r j tree now none q h = cc
project_to-some db r j tree now (some (p, s)) q h = ground arith

-- The evidence behind a projection, and the move it makes.
pub record IsJustified (db : Db) (w : String) (now : ℕ) (q : Projection) (j : Job) : Type 0 where
  pub request_bound : get_ci_request_by_worker_job_id db w ≡ some q.request
  pub job_found : get_job db w ≡ some j
  pub source_agrees : same_source j q.request ≡ true
  pub tree_pinned : q.request.tree_sha ≡ some q.tree
  pub tree_proved :
      (job_tree : Option String) × (summary_tree j.summary ≡ some job_tree)
      × (proves_tree j job_tree q.tree ≡ true)
  pub target : worker_target j.status ≡ some (q.to_phase, q.to_status)
  pub move : may_project q.request.phase q.request.status q.to_phase q.to_status ≡ true
  pub attestation : q.attestation_id ≡ matching_attestation db q.request j q.tree now

module _ (db : Db) (w : String) (now : ℕ) (r : Request) (j : Job) where
  project_with-some :
      (job_tree : Option (Option String)) (tree : Option String) (q : Projection)
      → project_with db r j now job_tree tree ≡ some q
      → (t : String) × (jt : Option String) × (tree ≡ some t)
        × (job_tree ≡ some jt)
        × (proves_tree j jt t ≡ true)
        × (project_to db r j t now (worker_target j.status) ≡ some q)
  unfolding project_with
  project_with-some none tree q h = cc
  project_with-some (some jt) none q h = cc
  project_with-some (some jt) (some t) q h = (t, jt, refl, refl, ground arith, ground arith)

  justify :
      (q : Projection)
      → get_ci_request_by_worker_job_id db w ≡ some r
      → get_job db w ≡ some j
      → same_source j r ≡ true
      → project_with db r j now (summary_tree j.summary) r.tree_sha ≡ some q
      → IsJustified db w now q j
  justify q found_r found_j same h =
      let (t, jt, pinned, read, proved, h') =
        project_with-some (summary_tree j.summary) r.tree_sha q h in
      let (e_r, e_t, e_target, moves, att) =
        project_to-some db r j t now (worker_target j.status) q h' in
      record {
        request_bound = found_r ∙ ap some (sym e_r);
        job_found = found_j;
        source_agrees = rw e_r same;
        tree_pinned = rw (e_r, e_t) pinned;
        tree_proved = (jt, read, rw e_t proved);
        target = e_target;
        move = rw e_r moves;
        attestation = rw (e_r, e_t) att;
      }

-- A projection is made only from a job that justifies it.
pub projection-IsJustified :
    (db : Db) (w : String) (now : ℕ) (q : Projection)
    → projection db w now ≡ some q
    → (j : Job) × IsJustified db w now q j
unfolding projection
projection-IsJustified db w now q h = elim (Option-cases (get_ci_request_by_worker_job_id db w)) [
  | inl e ↦ absurd (ground arith)
  | inr (r, e) ↦ elim (Option-cases (get_job db w)) [
    | inl e' ↦ absurd (ground arith)
    | inr (j, e') ↦ (j, justify db w now r j q e e' (ground arith) (ground arith))
  ]
]
