-- ===== src/Requests/TransitionTotal.antt =====
-- `transition_ci_request` behind its checks: when its writes succeed, and a second call from the
-- same revision.
use github_mcp.Requests.TransitionOutcome.{
  IsTransition-outcome, transitioned, read_back-transitioned,
}
use github_mcp.Requests.Audit.{IsAudited, id_of, advanced-get_self}
use github_mcp.Requests.Transition.{
  transition_ci_request, transition_body, apply_transition, transition_row, is_worker_taken,
  cas_update, at_stage, is_worker_missing,
}
use github_mcp.Requests.Lifecycle.{validate_phase_status, is_valid_pair}
use github_mcp.Prelude.{
  String, ℕ, ◌≡◌, false, true, arith, str_eq, ◌&&◌, ◌==◌, ◌+◌, str_eq_iff, none, ◌∙◌, some, inr,
  inl, ap, sym, subst, opt_eq, Option, refl,
}
use github_mcp.Schema.{Phase, RequestStatus, Db, Request}
use github_mcp.Requests.Checks.{TransitionArgs, check_transition}
use github_mcp.Tx.{ok, atomically, err, revision_conflict, Result}
use github_mcp.Requests.Queries.{
  get_ci_request, insert_event, get_ci_request_events, by_request_id, by_event_request, get_job,
}
use github_mcp.Table.{find, count, select}
use github_mcp.Requests.Inversion.{check_transition-ok}
use github_mcp.Requests.Steps.{transition-IsAdvance_at}
use github_mcp.Table.Laws.{find_sound, find-select}
use github_mcp.Requests.Trail.{Trail-bounds}
use github_mcp.Requests.Guards.{check_transition-guards, IsWorkerFit}
use github_mcp.Table.Keys.{count-key}

named_stored :
    (db : Db) (row : Request) (p : Phase) (named : Option String)
    → IsWorkerFit db row p named
    → opt_eq named (some "") ≡ false
    → is_worker_missing db named ≡ false
unfolding is_worker_missing
named_stored db row p none v h = refl
named_stored db row p (some w) v h =
    let (j, at, a, b, c, d) = v.stored w (rw h refl) h in rw at refl

module _ (id : String) (n : ℕ) (p : Phase) (s : RequestStatus) (args : TransitionArgs) (now : ℕ)
    (db : Db) (row : Request) (v : IsAudited db)
    (checked : check_transition id n p s args db ≡ ok row) where
  -- No event of the request has the next revision yet.
  next_event_free :
      find (λ x. str_eq x.request_id id && (x.revision == n + 1)) db.request_events ≡ none
  unfolding get_ci_request_events
  next_event_free =
      let (e_get, e_rev, ok_move) = check_transition-ok id n p s args db row checked in
      find-select (by_event_request id) (λ x. x.revision == n + 1) db.request_events
      ∙ Trail-bounds (n + 1) (select (by_event_request id) db.request_events) row.revision row.phase
          row.status (v.trails id row e_get) (omega arith)

  one_row : count (at_stage id n row.phase row.status) db.requests ≡ 1
  unfolding get_ci_request
  one_row =
      let (e_get, e_rev, ok_move) = check_transition-ok id n p s args db row checked in
      let a = transition-IsAdvance_at id n p s args now 0 db row e_get e_rev ok_move in
      count-key id_of (at_stage id n row.phase row.status) (by_request_id id) db.requests row
        v.keyed
        (λ r c. ground (
          arith,
          str_eq_iff r.request_id id,
          str_eq_iff row.request_id id,
          find_sound (by_request_id id) db.requests row e_get,
        ))
        a.hit e_get

  applied :
      is_worker_taken db id args.worker_job_id ≡ false
      → is_worker_missing db args.worker_job_id ≡ false
      → apply_transition id n p s args now row db ≡ (ok tt, transitioned id n p s args now db row)
  unfolding apply_transition insert_event cas_update is_worker_taken is_worker_missing get_job
  applied free there = ground (arith, next_event_free, one_row)

  body_commits :
      is_worker_taken db id args.worker_job_id ≡ false
      → is_worker_missing db args.worker_job_id ≡ false
      → transition_body id n p s args now db ≡ (ok tt, transitioned id n p s args now db row)
  unfolding transition_body
  body_commits free there = rw checked (applied free there)

  -- A named job passed the checks, so it is stored.
  worker_stored :
      opt_eq args.worker_job_id (some "") ≡ false → is_worker_missing db args.worker_job_id ≡ false
  worker_stored named =
      named_stored db row p args.worker_job_id
        (check_transition-guards id n p s args db row checked).0 named

  -- On an audited database a transition to a valid stage whose checks pass, whose Worker Job no
  -- other request holds, and which does not name the empty job id, returns the row at the new stage:
  -- its event is new, its compare-and-set meets one row, and the job that it names is stored.
  pub transition_succeeds :
      is_valid_pair p s ≡ true
      → is_worker_taken db id args.worker_job_id ≡ false
      → opt_eq args.worker_job_id (some "") ≡ false
      → transition_ci_request id n p s args now db ≡ (
        ok (transition_row p s args db.next_event_id now row),
        transitioned id n p s args now db row,
      )
  unfolding transition_ci_request validate_phase_status atomically
  transition_succeeds valid free named =
      let (e_get, e_rev, ok_move) = check_transition-ok id n p s args db row checked in
      rw (valid, body_commits free (worker_stored named))
        (read_back-transitioned id n p s args now db row e_get e_rev ok_move)

-- A transition at a revision that is not the stored one conflicts.
transition-stale :
    (id : String) (n : ℕ) (p : Phase) (s : RequestStatus) (args : TransitionArgs) (now : ℕ)
    (db : Db) (row : Request)
    → is_valid_pair p s ≡ true
    → get_ci_request db id ≡ some row
    → (row.revision == n) ≡ false
    → transition_ci_request id n p s args now db ≡ (err revision_conflict, db)
unfolding transition_ci_request validate_phase_status atomically transition_body check_transition
transition-stale id n p s args now db row valid e ne = rw (valid, e, ne)

-- After a transition from revision n, every other transition of that request from revision n to a
-- valid stage raises the revision conflict and changes nothing: of two callers that read the same
-- revision, one is refused.
pub transition_once :
    (id : String) (n : ℕ) (p p' : Phase) (s s' : RequestStatus) (args args' : TransitionArgs)
    (now now' : ℕ) (db db' : Db) (r : Request)
    → transition_ci_request id n p s args now db ≡ (ok r, db')
    → is_valid_pair p' s' ≡ true
    → transition_ci_request id n p' s' args' now' db' ≡ (err revision_conflict, db')
transition_once id n p p' s s' args args' now now' db db' r h valid =
    elim (IsTransition-outcome id n p s args now db) [
      | inr (e, raised) ↦ absurd (cc)
      | inl (row, t) ↦
          let after : transitioned id n p s args now db row ≡ db' =
            ap (λ (x : Result Request × Db). x.1) (sym t.result ∙ h) in
          let stored : get_ci_request (transitioned id n p s args now db row) id
              ≡ some (transition_row p s args db.next_event_id now row) =
            advanced-get_self db id row _ _ _ (
              transition-IsAdvance_at id n p s args now db.next_event_id db row t.found t.revision
                t.permitted) in
          transition-stale id n p' s' args' now' db'
            (transition_row p s args db.next_event_id now row) valid
            (subst
              (λ d. get_ci_request d id ≡ some (transition_row p s args db.next_event_id now row))
              after stored)
            (let e = t.revision in ground arith)
    ]
