-- ===== src/Requests/DispatchOnce.antt =====
-- Idempotence of `dispatch_ci_request`: a request is bound to a Worker Job once.
use github_mcp.Requests.Dispatch.{
  dispatch_ci_request, dispatch_body, dispatch_row, DispatchArgs, is_dispatched, Dispatched,
}
use github_mcp.Prelude.{
  String, ℕ, ◌≡◌, true, some, none, Option, Option-cases, Bool-cases, inl, arith, inr, ap, sym,
  subst, ◌∙◌,
}
use github_mcp.Schema.{Db, Request, Job}
use github_mcp.Tx.{atomically, ok, resume-ok, err, value_error, atomically-ok, resume, pure}
use github_mcp.Requests.Queries.{is_sha, get_ci_request}
use github_mcp.Requests.StepsDispatch.{found_id, fresh_dispatch-IsBinding}
use github_mcp.Requests.Audit.{advanced-get_self}
use github_mcp.Prelude.{if◌then◌else◌, inl, inr, refl}
use github_mcp.Requests.Transition.{read_back}

module _ (id job_id : String) (a : DispatchArgs) (now : ℕ) (db : Db) where
  pub dispatched_before :
      (r : Request)
      → is_sha a.tree_sha ≡ true
      → get_ci_request db id ≡ some r
      → is_dispatched r.phase ≡ true
      → dispatch_ci_request id job_id a now db
        ≡ (ok (record { request = r; worker_job = none }), db)
  unfolding dispatch_ci_request dispatch_body dispatch_row atomically read_back
  dispatched_before r sha e d = rw (sha, e, d, e)

-- What a dispatch that returned leaves under the request's id.
dispatch_row-phase :
    (job_id : String) (a : DispatchArgs) (now : ℕ) (row : Request) (db db' : Db) (x : Option Job)
    → get_ci_request db row.request_id ≡ some row
    → dispatch_row job_id a now row db ≡ (ok x, db')
    → (r : Request) × (get_ci_request db' row.request_id ≡ some r) × (is_dispatched r.phase ≡ true)
unfolding dispatch_row
dispatch_row-phase job_id a now row db db' x h_row h = elim (Bool-cases (is_dispatched row.phase)) [
  | inl e ↦
      let same : db ≡ db' = ground arith in
      (row, ap (λ (d : Db). get_ci_request d row.request_id) (sym same) ∙ h_row, e)
  | inr e ↦
      let b = fresh_dispatch-IsBinding job_id a now row db h_row db' x (rw e at h) in
      (
        _,
        ap (λ (d : Db). get_ci_request d row.request_id) b.result
            ∙ advanced-get_self b.with_job row.request_id row _ _ _ b.advance,
        refl,
      )
]

dispatch_body-phase :
    (id job_id : String) (a : DispatchArgs) (now : ℕ) (db db' : Db) (x : Option Job)
    → dispatch_body id job_id a now db ≡ (ok x, db')
    → (r : Request) × (get_ci_request db' id ≡ some r) × (is_dispatched r.phase ≡ true)
unfolding dispatch_body
dispatch_body-phase id job_id a now db db' x h = elim (Option-cases (get_ci_request db id)) [
  | inl e ↦ absurd (ground arith)
  | inr (row, e) ↦
      let same : id ≡ row.request_id = found_id id db row e in
      subst (λ i. (r : Request) × (get_ci_request db' i ≡ some r) × (is_dispatched r.phase ≡ true))
        (sym same)
        (dispatch_row-phase job_id a now row db db' x
          (subst (λ i. get_ci_request db i ≡ some row) same e) (rw e at h))
]

read_reply :
    (id : String) (x : Option Job) (s db' : Db) (d : Dispatched) (r : Request)
    → get_ci_request s id ≡ some r
    → resume (read_back id s) (λ r. pure (record { request = r; worker_job = x })) ≡ (ok d, db')
    → (r ≡ d.request) × (s ≡ db')
unfolding read_back
read_reply id x s db' d r e h = ground arith

pub dispatched-stored :
    (id job_id : String) (a : DispatchArgs) (now : ℕ) (db db' : Db) (d : Dispatched)
    → dispatch_ci_request id job_id a now db ≡ (ok d, db')
    → (get_ci_request db' id ≡ some d.request) × (is_dispatched d.request.phase ≡ true)
unfolding dispatch_ci_request read_back
dispatched-stored id job_id a now db db' d h =
    let (u, s₀, p₀, h₀) =
      resume-ok ((if is_sha a.tree_sha then ok tt else err value_error), db) _ d db' h in
    let (x, s, p, k) = resume-ok (atomically (dispatch_body id job_id a now) s₀) _ d db' h₀ in
    let (r, e, phase) =
      dispatch_body-phase id job_id a now s₀ s x
        (atomically-ok (dispatch_body id job_id a now) s₀ x s p) in
    let e_d : (r ≡ d.request) × (s ≡ db') = read_reply id x s db' d r e k in
    (
      ap (λ (y : Db). get_ci_request y id) (sym e_d.1) ∙ e ∙ ap some e_d.0,
      ap (λ (y : Request). is_dispatched y.phase) (sym e_d.0) ∙ phase,
    )
