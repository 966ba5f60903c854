-- ===== src/Requests/StepsDispatch.antt =====
-- `dispatch_ci_request` is a change, in the sense of Requests/Changes.
use github_mcp.Requests.Changes.{Change, still, moved, chain}
use github_mcp.Requests.Steps.{resume-Change, atomically-Change}
use github_mcp.Requests.Dispatch.{
  bind_job, dispatch_row, dispatch_body, dispatch_ci_request, check_dispatch, DispatchArgs,
  is_dispatched, queued_event, dispatched_row, dispatch_fresh,
}
use github_mcp.Jobs.Apart.{create_request_job-SameRequests, SameRequests}
use github_mcp.Tx.Check
use github_mcp.Requests.Transition.{read_back, cas_update, at_stage}
use github_mcp.Prelude.{
  String, ℕ, if◌then◌else◌, Option, ◌≡◌, some, Bool-cases, sym, arith, inl, ap, ◌+◌, refl, inr,
  subst, ◌∙◌, str_eq_refl, str_eq_iff, Option-cases, truthy, true, col_eq_sound,
}
use github_mcp.Requests.Queries.{
  insert_event, get_ci_request, is_sha, assert_worker_job_identity, event_row, by_request_id,
}
use github_mcp.Requests.Lifecycle.{status_eq, is_valid_pair, allowed}
use github_mcp.Schema.{Db, Request, Job, Phase, RequestStatus}
use github_mcp.Jobs.Create.{NewJob, Created, create_request_job}
use github_mcp.Requests.Inversion.{advanced}
use github_mcp.Requests.Audit.{IsAdvance}
use github_mcp.Requests.Graph.{phase_eq_sound, status_eq_sound}
use github_mcp.Requests.ChangesAudit.{get-same}
use github_mcp.Table.Laws.{find_sound}
use github_mcp.Tx.{ok, resume-ok, err, value_error, atomically, Result, operational_error}

-- The guards of a dispatch that goes on to create a job.
pub check_dispatch-ok :
    (db : Db) (a : DispatchArgs) (row : Request) (n : NewJob)
    → check_dispatch db a row ≡ ok n
    → (row.phase ≡ Phase.preparing)
      × (row.status ≡ RequestStatus.preparing)
      × (row.revision ≡ a.expected_revision)
      × (truthy row.tree_sha ≡ true → some a.tree_sha ≡ row.tree_sha)
unfolding check_dispatch
check_dispatch-ok db a row n h = ground (
  arith,
  phase_eq_sound row.phase Phase.preparing,
  status_eq_sound row.status RequestStatus.preparing,
  col_eq_sound row.tree_sha a.tree_sha,
)

pub bind_job-ok :
    (a : DispatchArgs) (now : ℕ) (row : Request) (c : Created) (db db' : Db) (x : Option Job)
    → bind_job a now row c db ≡ (ok x, db')
    → (x ≡ some c.job)
      × (assert_worker_job_identity db row c.job.job_id ≡ ok tt)
      × (db'
          ≡ advanced db
              (event_row db.next_event_id row.request_id (a.expected_revision + 1) queued_event now)
              (at_stage row.request_id a.expected_revision Phase.preparing RequestStatus.preparing)
              (dispatched_row a c.job.job_id db.next_event_id now))
unfolding bind_job insert_event cas_update
bind_job-ok a now row c db db' x h = ground arith

dispatch-IsAdvance :
    (a : DispatchArgs) (now k : ℕ) (w : String) (db : Db) (row : Request)
    → get_ci_request db row.request_id ≡ some row
    → row.phase ≡ Phase.preparing
    → row.status ≡ RequestStatus.preparing
    → row.revision ≡ a.expected_revision
    → (truthy row.tree_sha ≡ true → some a.tree_sha ≡ row.tree_sha)
    → IsAdvance db row.request_id row
        (event_row k row.request_id (a.expected_revision + 1) queued_event now)
        (at_stage row.request_id a.expected_revision Phase.preparing RequestStatus.preparing)
        (dispatched_row a w k now)
unfolding status_eq
dispatch-IsAdvance a now k w db row h p s n tree = record {
  found = h;
  only = λ r c. ground arith;
  hit = ground (arith, str_eq_refl row.request_id);
  keeps_source = λ r. ground arith;
  keeps_tree = tree;
  event_id = refl;
  event_revision = omega arith;
  row_revision = omega arith;
  from_phase = cc;
  from_status = cc;
  to_phase = refl;
  to_status = refl;
  moves = rw (p, s) (unfold is_valid_pair allowed in (refl, inl refl));
}

module _ (job_id : String) (a : DispatchArgs) (now : ℕ) (row : Request) (db : Db)
    (h_row : get_ci_request db row.request_id ≡ some row) where
  -- A fresh dispatch writes the request tables by an advance, after its job is there.
  pub record IsBinding (db' : Db) : Type 0 where
    pub bound : String
    pub with_job : Db
    pub same_requests : with_job.requests ≡ db.requests
    pub same_events : with_job.request_events ≡ db.request_events
    pub advance :
        IsAdvance with_job row.request_id row
          (event_row with_job.next_event_id row.request_id
            (a.expected_revision + 1)
            queued_event
            now)
          (at_stage row.request_id a.expected_revision Phase.preparing RequestStatus.preparing)
          (dispatched_row a bound with_job.next_event_id now)
    pub result :
        db'
        ≡ advanced with_job
            (event_row with_job.next_event_id row.request_id
              (a.expected_revision + 1)
              queued_event
              now)
            (at_stage row.request_id a.expected_revision Phase.preparing RequestStatus.preparing)
            (dispatched_row a bound with_job.next_event_id now)

  pub fresh_dispatch-IsBinding :
      (db' : Db) (x : Option Job) → dispatch_fresh job_id a now row db ≡ (ok x, db') → IsBinding db'
  fresh_dispatch-IsBinding db' x h =
      let (n, s₀, p₀, h₀) = resume-ok (check_dispatch db a row, db) _ x db' h in
      let (c, db₁, p₁, h₁) =
        resume-ok (create_request_job row.request_id job_id n now s₀) _ x db' h₀ in
      let same₀ : s₀ ≡ db = sym (ap (λ (y : Result NewJob × Db). y.1) p₀) in
      let same =
        subst (λ d. SameRequests d s₀) (ap (λ (y : Result Created × Db). y.1) p₁)
          (create_request_job-SameRequests row.request_id job_id n now s₀) in
      let (pp, ps, pn, tree) =
        check_dispatch-ok db a row n (ap (λ (y : Result NewJob × Db). y.0) p₀) in
      let rs : db₁.requests ≡ db.requests = same.requests ∙ ap (λ (d : Db). d.requests) same₀ in
      let (e_x, owner, e) = bind_job-ok a now row c db₁ db' x h₁ in
      record {
        bound = c.job.job_id;
        with_job = db₁;
        same_requests = rs;
        same_events = same.request_events ∙ ap (λ (d : Db). d.request_events) same₀;
        advance =
            dispatch-IsAdvance a now db₁.next_event_id c.job.job_id db₁ row
              (get-same db db₁ rs row.request_id ∙ h_row) pp ps pn tree;
        result = e;
      }

  fresh_dispatch-Change :
      (db' : Db) (x : Option Job) → dispatch_fresh job_id a now row db ≡ (ok x, db') → Change db db'
  fresh_dispatch-Change db' x h =
      let b = fresh_dispatch-IsBinding db' x h in
      chain (still b.same_requests b.same_events) (
        moved row.request_id row _ _ _ b.advance (ap (λ (d : Db). d.requests) b.result)
          (ap (λ (d : Db). d.request_events) b.result))

  dispatch_row-Change :
      (db' : Db) (x : Option Job) → dispatch_row job_id a now row db ≡ (ok x, db') → Change db db'
  unfolding dispatch_row
  dispatch_row-Change db' x h = elim (Bool-cases (is_dispatched row.phase)) [
    | inl e ↦
        let same : db ≡ db' = ground arith in
        still (ap (λ (d : Db). d.requests) (sym same))
          (ap (λ (d : Db). d.request_events) (sym same))
    | inr e ↦ fresh_dispatch-Change db' x (rw e at h)
  ]

-- The row under an id has that id.
pub found_id :
    (id : String) (db : Db) (row : Request) → get_ci_request db id ≡ some row → id ≡ row.request_id
unfolding get_ci_request
found_id id db row h =
    sym ((str_eq_iff row.request_id id).0 (find_sound (by_request_id id) db.requests row h))

dispatch_body-Change :
    (id job_id : String) (a : DispatchArgs) (now : ℕ) (db db' : Db) (x : Option Job)
    → dispatch_body id job_id a now db ≡ (ok x, db')
    → Change db db'
unfolding dispatch_body
dispatch_body-Change id job_id a now db db' x h = elim (Option-cases (get_ci_request db id)) [
  | inl e ↦ absurd (ground arith)
  | inr (row, e) ↦
      let same : id ≡ row.request_id = found_id id db row e in
      dispatch_row-Change job_id a now row db (subst (λ i. get_ci_request db i ≡ some row) same e)
        db' x (rw e at h)
]

pub dispatch-Change :
    (id job_id : String) (a : DispatchArgs) (now : ℕ) (db : Db)
    → Change db (dispatch_ci_request id job_id a now db).1
unfolding dispatch_ci_request read_back
dispatch-Change id job_id a now db =
    resume-Change db ((if is_sha a.tree_sha then ok tt else err value_error), db) _
      (still refl refl)
      λ _.
        resume-Change db (atomically (dispatch_body id job_id a now) db) _
          (atomically-Change db (dispatch_body id job_id a now)
            λ x db' h. dispatch_body-Change id job_id a now db db' x h)
          λ x.
            resume-Change (atomically (dispatch_body id job_id a now) db).1
              (
                Check.found (get_ci_request (atomically (dispatch_body id job_id a now) db).1 id)
                    operational_error,
                (atomically (dispatch_body id job_id a now) db).1,
              )
              _ (still refl refl) (λ r. still refl refl)
