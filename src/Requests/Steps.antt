-- ===== src/Requests/Steps.antt =====
-- Each operation of the request store is a change, in the sense of Requests/Changes.
use github_mcp.Requests.Audit.{IsAudited, IsAdvance}
use github_mcp.Requests.Inversion.{
  check_transition-ok, apply_transition-ok, transition_body-ok, advanced, projection-IsJustified,
  IsJustified,
}
use github_mcp.Prelude.{
  String, ℕ, ◌≡◌, some, true, ◌+◌, arith, inl, refl, subst, Bool, ap, Option-cases, false, inr,
  none, ◌⊎◌, ◌∙◌,
}
use github_mcp.Schema.{Phase, RequestStatus, Db, Request, Job}
use github_mcp.Requests.Checks.{TransitionArgs}
use github_mcp.Tx.{ok, Result, atomically, settle, M, resume, err}
use github_mcp.Requests.Queries.{get_ci_request, event_row, by_request_id}
use github_mcp.Requests.Lifecycle.{allowed, validate_phase_status}
use github_mcp.Requests.Graph.{allowed-is_valid_pair, phase_eq_refl, status_eq_refl}
use github_mcp.Table.Laws.{find_sound}
use github_mcp.Requests.Reconcile.{
  reconcile_in_db, reconcile_worker_request, projection, Projection, apply_projection,
  projection_event, at_projection, projection_row,
}
use github_mcp.Requests.Changes.{Change, moved, still, chain}
use github_mcp.Requests.Projected.{apply_projection-total, projection-IsAdvance}
use github_mcp.Requests.Transition.{
  transition_body, transition_event, at_stage, transition_row, transition_ci_request, read_back,
}

-- A transition that its checks let through is an advance.
pub transition-IsAdvance :
    (id : String) (p : Phase) (s : RequestStatus) (args : TransitionArgs) (now k : ℕ) (db : Db)
    (row : Request)
    → get_ci_request db id ≡ some row
    → allowed row.phase row.status p s ≡ true
    → IsAdvance db id row
        (event_row k id (row.revision + 1) (transition_event row.phase row.status p s) now)
        (at_stage id row.revision row.phase row.status)
        (transition_row p s args k now)
unfolding get_ci_request
transition-IsAdvance id p s args now k db row h ok_move = record {
  found = h;
  only = λ r c. ground arith;
  hit = ground (
    arith,
    find_sound (by_request_id id) db.requests row h,
    phase_eq_refl row.phase,
    status_eq_refl row.status,
  );
  keeps_source = λ r. ground arith;
  keeps_tree = λ _. refl;
  event_id = refl;
  event_revision = omega arith;
  row_revision = omega arith;
  from_phase = refl;
  from_status = refl;
  to_phase = refl;
  to_status = refl;
  moves = ((allowed-is_valid_pair row.phase row.status p s ok_move).1, inl ok_move);
}

module _ {A B : Type 0} (db : Db) where
  -- Code in sequence.
  pub resume-Change :
      (x : Result A × Db) (f : A → M Db B)
      → Change db x.1
      → ((a : A) → Change x.1 (f a x.1).1)
      → Change db (resume x f).1
  resume-Change (ok a, s) f c h = chain c (h a)
  resume-Change (err e, s) f c h = c

module _ {A : Type 0} (db : Db) where
  settle-Change :
      (x : Result A × Db)
      → ((a : A) (db' : Db) → x ≡ (ok a, db') → Change db db')
      → Change db (settle db x).1
  settle-Change (ok a, s) h = h a s refl
  settle-Change (err e, s) h = still refl refl

  -- A transaction: only its commits matter.
  pub atomically-Change :
      (m : M Db A)
      → ((a : A) (db' : Db) → m db ≡ (ok a, db') → Change db db')
      → Change db (atomically m db).1
  unfolding atomically
  atomically-Change m h = settle-Change (m db) h

-- The same, at the revision that the caller expected.
pub transition-IsAdvance_at :
    (id : String) (n : ℕ) (p : Phase) (s : RequestStatus) (args : TransitionArgs) (now k : ℕ)
    (db : Db) (row : Request)
    → get_ci_request db id ≡ some row
    → row.revision ≡ n
    → allowed row.phase row.status p s ≡ true
    → IsAdvance db id row
        (event_row k id (n + 1) (transition_event row.phase row.status p s) now)
        (at_stage id n row.phase row.status)
        (transition_row p s args k now)
transition-IsAdvance_at id n p s args now k db row h e ok_move =
    subst
      (λ (m : ℕ).
        IsAdvance db id row (event_row k id (m + 1) (transition_event row.phase row.status p s) now)
          (at_stage id m row.phase row.status) (transition_row p s args k now))
      e (transition-IsAdvance id p s args now k db row h ok_move)

pub transition_body-Change :
    (id : String) (n : ℕ) (p : Phase) (s : RequestStatus) (args : TransitionArgs) (now : ℕ)
    (db db' : Db)
    → transition_body id n p s args now db ≡ (ok tt, db')
    → Change db db'
transition_body-Change id n p s args now db db' h =
    let (row, checked, applied) = transition_body-ok id n p s args now db db' h in
    let (e_get, e_rev, ok_move) = check_transition-ok id n p s args db row checked in
    let e = apply_transition-ok id n p s args now row db db' applied in
    moved id row _ _ _
      (transition-IsAdvance_at id n p s args now db.next_event_id db row e_get e_rev ok_move)
      (ap (λ (d : Db). d.requests) e) (ap (λ (d : Db). d.request_events) e)

pub transition-Change :
    (id : String) (n : ℕ) (p : Phase) (s : RequestStatus) (args : TransitionArgs) (now : ℕ)
    (db : Db)
    → Change db (transition_ci_request id n p s args now db).1
unfolding transition_ci_request read_back
transition-Change id n p s args now db =
    resume-Change db (validate_phase_status p s, db) _ (still refl refl)
      λ _.
        resume-Change db (atomically (transition_body id n p s args now) db) _
          (atomically-Change db (transition_body id n p s args now)
            λ _ db' h. transition_body-Change id n p s args now db db' h)
          λ _. still refl refl

module _ (w : String) (now : ℕ) (db : Db) where
  pub reconcile_in_db-none : projection db w now ≡ none → reconcile_in_db w now db ≡ (ok false, db)
  unfolding reconcile_in_db
  reconcile_in_db-none e = rw (e, reconcile_in_db)

  reconcile_in_db-some :
      (q : Projection)
      → projection db w now ≡ some q
      → reconcile_in_db w now db ≡ apply_projection w now q db
  unfolding reconcile_in_db
  reconcile_in_db-some q e = rw (e, reconcile_in_db)

  -- On an audited database a reconciliation never raises. Where there is nothing to project it
  -- reports no change and makes none; else a stored job justifies the projection, and the
  -- reconciliation writes exactly its event and its row.
  pub reconcile_in_db-cases :
      IsAudited db
      → ((projection db w now ≡ none) × (reconcile_in_db w now db ≡ (ok false, db)))
        ⊎ ((q : Projection) × (j : Job) × IsJustified db w now q j
            × (projection db w now ≡ some q)
            × (reconcile_in_db w now db ≡ (
              ok true,
              advanced db
                  (event_row db.next_event_id q.request.request_id
                    (q.request.revision + 1)
                    (projection_event q)
                    now)
                  (at_projection q w)
                  (projection_row q db.next_event_id now),
            )))
  reconcile_in_db-cases v = elim (Option-cases (projection db w now)) [
    | inl e ↦ inl (e, reconcile_in_db-none e)
    | inr (q, e) ↦
        let (j, js) = projection-IsJustified db w now q e in
        inr (q, j, js, e, reconcile_in_db-some q e ∙ apply_projection-total db w now q j v js)
  ]

-- On an audited database a reconciliation is a change.
pub reconcile_in_db-Change :
    (w : String) (now : ℕ) (db : Db) → IsAudited db → Change db (reconcile_in_db w now db).1
reconcile_in_db-Change w now db v = elim (reconcile_in_db-cases w now db v) [
  | inl (e, e') ↦ rw e' (still refl refl)
  | inr (q, j, js, e, e') ↦ rw e' (
      moved q.request.request_id q.request _ _ _
        (projection-IsAdvance db w now q j v js db.next_event_id) refl refl)
]

pub reconcile-Change :
    (w : String) (now : ℕ) (db : Db)
    → IsAudited db
    → Change db (reconcile_worker_request w now db).1
unfolding reconcile_worker_request
reconcile-Change w now db v = atomically-Change db (reconcile_in_db w now) λ b db' h.
    subst (λ d. Change db d) (ap (λ (x : Result Bool × Db). x.1) h)
      (reconcile_in_db-Change w now db v)
