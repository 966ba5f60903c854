-- ===== src/Convergence/Changes.antt =====
-- What a call may do to the convergence tables: nothing, one step of a stored run, or a new run.
use github_mcp.Convergence.{
  RunDb, Convergence, ConvergenceEvent, RunKey, stored_run, active_row, by_run_id, get_row, Public,
  public_view,
}
use github_mcp.Convergence.Writes.{write_run, cas_run, insert_run_event, event_of, at_revision}
use github_mcp.Prelude.{
  some, none, true, ◌∷◌, ◌≡◌, Option, String, ℕ, suc, truthy, List, arith, refl, ap, str_eq,
}
use github_mcp.Table.{update, find}
use github_mcp.Tx.{ok}
use github_mcp.Table.Laws.{find-update, find_sound}

-- What a run was created for.
pub record SameRun (r' r : Convergence) : Type 0 where
  pub convergence_id : r'.convergence_id ≡ r.convergence_id
  pub repository : r'.repository ≡ r.repository
  pub branch : r'.branch ≡ r.branch
  pub development_session_id : r'.development_session_id ≡ r.development_session_id
  pub workspace_id : r'.workspace_id ≡ r.workspace_id
  pub head_sha : r'.head_sha ≡ r.head_sha
  pub tree_sha : r'.tree_sha ≡ r.tree_sha
  pub mode : r'.mode ≡ r.mode
  pub base_branch : r'.base_branch ≡ r.base_branch
  pub base_sha : r'.base_sha ≡ r.base_sha
  pub idempotency_key : r'.idempotency_key ≡ r.idempotency_key
  pub request_identity_hash : r'.request_identity_hash ≡ r.request_identity_hash
  pub caller_identity_hash : r'.caller_identity_hash ≡ r.caller_identity_hash

-- A column that is set stays as it is.
abbrev pub Kept : (new old : Option String) → Type 0
Kept new old = truthy old ≡ true → new ≡ old

-- What no later call takes back.
pub record Keeps (r' r : Convergence) : Type 0 where
  pub index_job_id : Kept r'.index_job_id r.index_job_id
  pub ci_request_id : Kept r'.ci_request_id r.ci_request_id
  pub ci_job_id : Kept r'.ci_job_id r.ci_job_id
  pub attestation_id : Kept r'.attestation_id r.attestation_id
  pub failure_pack_id : Kept r'.failure_pack_id r.failure_pack_id
  pub terminal : r.terminal ≡ true → r'.terminal ≡ true
  pub phase : r.terminal ≡ true → r'.phase ≡ r.phase
  pub status : r.terminal ≡ true → r'.status ≡ r.status

-- One step of the run `row`.
pub record IsStep (db : RunDb) (id : String) (row : Convergence) (e : ConvergenceEvent)
    (f : Convergence → Convergence) : Type 0 where
  pub found : stored_run db id ≡ some row
  pub same : (r : Convergence) → SameRun (f r) r
  pub keeps : Keeps (f row) row
  pub revision : (f row).revision ≡ suc row.revision
  pub event_id : e.convergence_id ≡ id
  pub event_revision : e.revision ≡ suc row.revision
  pub from_phase : e.from_phase ≡ some row.phase
  pub to_phase : e.to_phase ≡ some (f row).phase

abbrev pub key_of_run : Convergence → RunKey
key_of_run r = record {
  repository = r.repository;
  development_session_id = r.development_session_id;
  head_sha = r.head_sha;
  tree_sha = r.tree_sha;
  mode = r.mode;
  base_branch = r.base_branch;
  base_sha = r.base_sha;
}

-- A new run.
pub record IsOpened (db : RunDb) (r : Convergence) (e : ConvergenceEvent) : Type 0 where
  pub fresh : stored_run db r.convergence_id ≡ none
  pub unique : active_row db (key_of_run r) ≡ none
  pub revision : r.revision ≡ 0
  pub event_id : e.convergence_id ≡ r.convergence_id
  pub event_revision : e.revision ≡ 0
  pub from_phase : e.from_phase ≡ none
  pub to_phase : e.to_phase ≡ some r.phase

pub data RunChange : RunDb → RunDb → Type 0 where
  still :
      {db db' : RunDb}
      → db'.convergences ≡ db.convergences
      → db'.events ≡ db.events
      → RunChange db db'
  stepped :
      {db db' : RunDb} (id : String) (row : Convergence) (e : ConvergenceEvent)
      (f : Convergence → Convergence)
      → IsStep db id row e f
      → db'.convergences ≡ update (at_revision id row.revision) f db.convergences
      → db'.events ≡ e ∷ db.events
      → RunChange db db'
  opened :
      {db db' : RunDb} (r : Convergence) (e : ConvergenceEvent)
      → IsOpened db r e
      → db'.convergences ≡ r ∷ db.convergences
      → db'.events ≡ e ∷ db.events
      → RunChange db db'

-- The row that a compare-and-set leaves under its id.
pub stored_run-update :
    (db : RunDb) (id : String) (row : Convergence) (f : Convergence → Convergence)
    (xs : List Convergence)
    → ((r : Convergence) → (f r).convergence_id ≡ r.convergence_id)
    → stored_run db id ≡ some row
    → db.convergences ≡ xs
    → find (by_run_id id) (update (at_revision id row.revision) f xs) ≡ some (f row)
unfolding stored_run
stored_run-update db id row f xs same h e =
    let hit = find_sound (by_run_id id) db.convergences row h in
    let moved =
      find-update (by_run_id id) (at_revision id row.revision) f db.convergences
        (λ x. ap (λ i. str_eq i id) (same x)) in
    rw (← e, moved, h) (ground arith)

-- The tables after the shared end of the writers.
pub write_run-ok :
    (id : String) (event_type : String) (now : ℕ) (row : Convergence)
    (f : Convergence → Convergence) (db db' : RunDb) (p : Public)
    → ((r : Convergence) → (f r).convergence_id ≡ r.convergence_id)
    → stored_run db id ≡ some row
    → write_run id row.revision event_type now row f db ≡ (ok p, db')
    → (p.run ≡ f row)
      × (db' ≡ record db {
        convergences = update (at_revision id row.revision) f db.convergences;
        events = event_of event_type now row (f row) ∷ db.events;
      })
unfolding write_run cas_run insert_run_event get_row stored_run public_view
write_run-ok id event_type now row f db db' p same h w =
    let after = stored_run-update db id row f db.convergences same h refl in ground (arith, after)
