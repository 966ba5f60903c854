-- ===== src/Requests/TransitionOutcome.antt =====
-- What `transition_ci_request` returns and leaves behind, on every input.
use github_mcp.Requests.Transition.{
  transition_ci_request, transition_body, transition_row, read_back, transition_event, at_stage,
}
use github_mcp.Requests.Steps.{transition-IsAdvance_at}
use github_mcp.Prelude.{
  String, ℕ, ◌≡◌, false, ◌+◌, true, some, str_eq, ◌∷◌, ◌⊎◌, ◌∙◌, ap, Bool-cases, inr, inl,
}
use github_mcp.Schema.{Phase, RequestStatus, Db, Request}
use github_mcp.Requests.Checks.{TransitionArgs, matches_identity}
use github_mcp.Requests.Lifecycle.{is_valid_pair, validate_phase_status, allowed}
use github_mcp.Requests.Queries.{event_row, get_ci_request, get_ci_request_events}
use github_mcp.Tx.{err, resume, ok, atomically, illegal_transition, Error, atomically-cases}
use github_mcp.Requests.Audit.{
  IsAdvance, advanced-get_self, advanced-get_other, advanced-events_self,
}
use github_mcp.Requests.Guards.{check_transition-guards, IsWorkerFit, IsMetadataFit}
use github_mcp.Requests.Inversion.{
  advanced, transition_body-ok, check_transition-ok, apply_transition-ok, check_transition-identity,
}

module _ (id : String) (n : ℕ) (p : Phase) (s : RequestStatus) (args : TransitionArgs) (now : ℕ)
    (db : Db) where
  -- The database after a transition of `row`.
  abbrev pub transitioned : Request → Db
  transitioned row =
      advanced db
        (event_row db.next_event_id id (n + 1) (transition_event row.phase row.status p s) now)
        (at_stage id n row.phase row.status) (transition_row p s args db.next_event_id now)

  pub record IsTransition (row : Request) : Type 0 where
    pub valid : is_valid_pair p s ≡ true
    pub found : get_ci_request db id ≡ some row
    pub revision : row.revision ≡ n
    pub permitted : allowed row.phase row.status p s ≡ true
    pub identity : matches_identity row args.expected_identity ≡ true
    pub worker : IsWorkerFit db row p args.worker_job_id
    pub metadata : IsMetadataFit p s args.metadata
    pub result :
        transition_ci_request id n p s args now db
        ≡ (ok (transition_row p s args db.next_event_id now row), transitioned row)
    pub others :
        (k : String)
        → str_eq id k ≡ false
        → get_ci_request (transitioned row) k ≡ get_ci_request db k
    pub event :
        get_ci_request_events (transitioned row) id
        ≡ event_row db.next_event_id id (n + 1) (transition_event row.phase row.status p s) now
          ∷ get_ci_request_events db id

  transition-invalid :
      is_valid_pair p s ≡ false
      → transition_ci_request id n p s args now db ≡ (err illegal_transition, db)
  unfolding transition_ci_request validate_phase_status
  transition-invalid e = rw e

  transition-valid :
      is_valid_pair p s ≡ true
      → transition_ci_request id n p s args now db
        ≡ resume (atomically (transition_body id n p s args now) db) (λ _. read_back id)
  unfolding transition_ci_request validate_phase_status
  transition-valid e = rw e

  module _ (row : Request) (e_get : get_ci_request db id ≡ some row) (e_rev : row.revision ≡ n)
      (ok_move : allowed row.phase row.status p s ≡ true) where
    advance :
        IsAdvance db id row
          (event_row db.next_event_id id (n + 1) (transition_event row.phase row.status p s) now)
          (at_stage id n row.phase row.status)
          (transition_row p s args db.next_event_id now)
    advance = transition-IsAdvance_at id n p s args now db.next_event_id db row e_get e_rev ok_move

    -- The commit is read back as the row that was written.
    pub read_back-transitioned :
        read_back id (transitioned row)
        ≡ (ok (transition_row p s args db.next_event_id now row), transitioned row)
    unfolding read_back
    read_back-transitioned = rw (advanced-get_self db id row _ _ _ advance)

  committed :
      (db' : Db)
      → is_valid_pair p s ≡ true
      → transition_body id n p s args now db ≡ (ok tt, db')
      → atomically (transition_body id n p s args now) db ≡ (ok tt, db')
      → (row : Request) × IsTransition row
  committed db' valid body done =
      let (row, checked, applied) = transition_body-ok id n p s args now db db' body in
      let (e_get, e_rev, ok_move) = check_transition-ok id n p s args db row checked in
      let e = apply_transition-ok id n p s args now row db db' applied in
      let a = advance row e_get e_rev ok_move in
      (
        row,
        record {
          valid = valid;
          found = e_get;
          revision = e_rev;
          permitted = ok_move;
          identity = check_transition-identity id n p s args db row checked;
          worker = (check_transition-guards id n p s args db row checked).0;
          metadata = (check_transition-guards id n p s args db row checked).1;
          result =
              transition-valid valid
              ∙ ap (λ y. resume y (λ _. read_back id)) (done ∙ ap (λ (d : Db). (ok tt, d)) e)
              ∙ read_back-transitioned row e_get e_rev ok_move;
          others = λ k ne. advanced-get_other db id row _ _ _ a k ne;
          event = advanced-events_self db id row _ _ _ a;
        },
      )

  -- A transition either returns the request at the new stage, or raises and changes nothing. It
  -- returns only for a stored request at the expected revision, with the expected identity, whose
  -- move the table allows, whose Worker Job, named or bound, is there where the phase needs one, is
  -- stored, has the request's source and is the one bound before, and with metadata that the stage
  -- admits; it then writes that one row with its revision raised by 1, adds one event
  -- that records the move, and leaves every other request as it was.
  pub IsTransition-outcome :
      ((row : Request) × IsTransition row)
      ⊎ ((e : Error) × (transition_ci_request id n p s args now db ≡ (err e, db)))
  IsTransition-outcome = elim (Bool-cases (is_valid_pair p s)) [
    | inr bad ↦ inr (illegal_transition, transition-invalid bad)
    | inl valid ↦ elim (atomically-cases (transition_body id n p s args now) db) [
      | inl (a, db', body, done) ↦ inl (committed db' valid body done)
      | inr (e, db', body, done) ↦
          inr (e, transition-valid valid ∙ ap (λ y. resume y (λ _. read_back id)) done)
    ]
  ]
