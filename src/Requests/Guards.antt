-- ===== src/Requests/Guards.antt =====
-- What the guards of `transition_ci_request` let through: the Worker Job and the metadata.
use github_mcp.Prelude.{
  Option, String, ℕ, ◌≡◌, some, true, truthy, ap, arith, str_eq, sym, none, false, str_eq_iff, ◌∙◌,
  col_eq_sound, Option-cases, inl, inr,
}
use github_mcp.Requests.Lifecycle.{validate_transition_metadata, is_terminal, Metadata, status_eq}
use github_mcp.Requests.Queries.{same_source, assert_worker_job_identity, get_job}
use github_mcp.Schema.{Db, Phase, Job, Request, RequestStatus}
use github_mcp.Tx.{ok}
use github_mcp.Requests.Graph.{status_eq_sound, status_eq_refl}
use github_mcp.Requests.Checks.{
  check_transition, check_worker, TransitionArgs, effective_worker, needs_worker, rebinds,
  assert_identity,
}

-- The Worker Job that a transition of `row` names, or finds bound.
pub record IsWorkerFit (db : Db) (row : Request) (p : Phase) (named : Option String) : Type 0 where
  pub there : needs_worker p ≡ true → truthy (effective_worker named row) ≡ true
  pub stored :
      (w : String)
      → effective_worker named row ≡ some w
      → str_eq w "" ≡ false
      → (j : Job) × (get_job db w ≡ some j)
        × (j.repository ≡ row.repository)
        × (j.branch ≡ row.branch)
        × (j.commit_sha ≡ row.commit_sha)
        × (j.profile ≡ row.profile)
  pub bound :
      (w : String)
      → effective_worker named row ≡ some w
      → truthy row.worker_job_id ≡ true
      → row.worker_job_id ≡ some w

-- The metadata that a stage admits.
pub record IsMetadataFit (p : Phase) (s : RequestStatus) (m : Metadata) : Type 0 where
  pub preflight_id : truthy m.preflight_error_id ≡ true → s ≡ RequestStatus.preflight_failed
  pub preflight_code : truthy m.preflight_error_code ≡ true → s ≡ RequestStatus.preflight_failed
  pub code_given : s ≡ RequestStatus.preflight_failed → truthy m.preflight_error_code ≡ true
  pub reason : truthy m.terminal_reason ≡ true → p ≡ Phase.terminal
  pub failure_pack : truthy m.failure_pack_id ≡ true → p ≡ Phase.terminal
  pub attestation : truthy m.attestation_id ≡ true → s ≡ RequestStatus.passed

is_terminal_sound : (p : Phase) → is_terminal p ≡ true → p ≡ Phase.terminal
is_terminal_sound p h = ground arith

metadata_fits :
    (p : Phase) (s : RequestStatus) (m : Metadata)
    → validate_transition_metadata p s m ≡ ok tt
    → IsMetadataFit p s m
unfolding validate_transition_metadata
metadata_fits p s m h =
    let failed = status_eq_sound s RequestStatus.preflight_failed in
    let passed = status_eq_sound s RequestStatus.passed in
    record {
      preflight_id = λ e. ground (arith, failed);
      preflight_code = λ e. ground (arith, failed);
      code_given = λ e. ground (
        arith,
        ap (λ x. status_eq x RequestStatus.preflight_failed) e,
        status_eq_refl RequestStatus.preflight_failed,
      );
      reason = λ e. ground (arith, is_terminal_sound p);
      failure_pack = λ e. ground (arith, is_terminal_sound p);
      attestation = λ e. ground (arith, passed);
    }

same_source_sound :
    (j : Job) (r : Request)
    → same_source j r ≡ true
    → (j.repository ≡ r.repository)
      × (j.branch ≡ r.branch)
      × (j.commit_sha ≡ r.commit_sha)
      × (j.profile ≡ r.profile)
unfolding same_source
same_source_sound j r h = ground (
  arith,
  str_eq_iff j.repository r.repository,
  str_eq_iff j.branch r.branch,
  str_eq_iff j.commit_sha r.commit_sha,
  str_eq_iff j.profile r.profile,
)

check_worker-some :
    (db : Db) (r : Request) (p : Phase) (w : String)
    → check_worker db r p (some w) ≡ ok tt
    → str_eq w "" ≡ false
    → ((j : Job) × (get_job db w ≡ some j) × (same_source j r ≡ true)) × (rebinds r w ≡ false)
unfolding check_worker assert_worker_job_identity
check_worker-some db r p w h ne = elim (Option-cases (get_job db w)) [
  | inl e ↦ absurd (ground arith)
  | inr (j, e) ↦ ((j, e, ground arith), ground arith)
]

check_worker_there :
    (db : Db) (r : Request) (p : Phase) (o : Option String)
    → check_worker db r p o ≡ ok tt
    → needs_worker p ≡ true
    → truthy o ≡ true
unfolding check_worker
check_worker_there db r p none h e = ground arith
check_worker_there db r p (some w) h e = ground arith

-- A column that is bound and not bound again names the same job.
kept_worker :
    (named : Option String) (r : Request) (w : String)
    → effective_worker named r ≡ some w
    → truthy r.worker_job_id ≡ true
    → (str_eq w "" ≡ false → rebinds r w ≡ false)
    → r.worker_job_id ≡ some w
kept_worker none r w e h k = e
kept_worker (some v) r w e h k = let named = col_eq_sound r.worker_job_id w in ground (arith, named)

worker_fits :
    (db : Db) (row : Request) (p : Phase) (named : Option String)
    → check_worker db row p (effective_worker named row) ≡ ok tt
    → IsWorkerFit db row p named
worker_fits db row p named h = record {
  there = check_worker_there db row p (effective_worker named row) h;
  stored = λ w e ne.
      let ((j, at, same), free) =
        check_worker-some db row p w (ap (check_worker db row p) (sym e) ∙ h) ne in
      let (a, b, c, d) = same_source_sound j row same in (j, at, a, b, c, d);
  bound = λ w e t.
      kept_worker named row w e t
        (λ ne. (check_worker-some db row p w (ap (check_worker db row p) (sym e) ∙ h) ne).1);
}

checked_parts :
    (id : String) (n : ℕ) (p : Phase) (s : RequestStatus) (args : TransitionArgs) (db : Db)
    (row : Request)
    → check_transition id n p s args db ≡ ok row
    → (check_worker db row p (effective_worker args.worker_job_id row) ≡ ok tt)
      × (validate_transition_metadata p s args.metadata ≡ ok tt)
unfolding check_transition assert_identity
checked_parts id n p s args db row h = ground arith

pub check_transition-guards :
    (id : String) (n : ℕ) (p : Phase) (s : RequestStatus) (args : TransitionArgs) (db : Db)
    (row : Request)
    → check_transition id n p s args db ≡ ok row
    → IsWorkerFit db row p args.worker_job_id × IsMetadataFit p s args.metadata
check_transition-guards id n p s args db row h =
    let (worker, metadata) = checked_parts id n p s args db row h in
    (worker_fits db row p args.worker_job_id worker, metadata_fits p s args.metadata metadata)
