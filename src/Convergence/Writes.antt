-- ===== src/Convergence/Writes.antt =====
-- The writers of app/development_convergence_store.py on a stored run: `_insert_event`,
-- `transition_convergence`, `_bind_once` and its callers, `record_analysis_state`,
-- `record_terminal_evidence`. Each is one transaction.
use github_mcp.Tx.Check
use github_mcp.Tx.{
  M, ◌>>=◌, ◌>>◌, require, reading, modify, pure, ok, err, atomically, Result, state_invalid,
  value_error, identity_mismatch, revision_conflict, integrity_error,
}
use github_mcp.Prelude.{
  none, some, true, false, if◌then◌else◌, ◌∷◌, ◌&&◌, ◌||◌, ◌==◌, ◌+◌, Option, String, ℕ, Bool, not,
  str_eq, ◌+◌, truthy, col_eq, opt_eq,
}
use github_mcp.Table.{find, count, update}
use github_mcp.Convergence.{
  RunDb, Convergence, ConvergenceEvent, RunPhase, is_terminal_phase, Stage, stage_eq, AnalysisState,
  Public, public_view, get_row, require_revision, is_blank,
}

-- _insert_event, with the table's UNIQUE (convergence_id, revision)
unfoldable pub insert_run_event : ConvergenceEvent → M RunDb (Unit {0})
insert_run_event e db =
    elim (find (λ x. str_eq x.convergence_id e.convergence_id && (x.revision == e.revision))
      db.events) [
        | some x ↦ (err integrity_error, db)
        | none ↦ (ok tt, record db { events = e ∷ db.events })
      ]

-- UPDATE … SET f WHERE convergence_id = ? AND revision = ?, and the test of `rowcount` behind it.
abbrev pub at_revision : String → ℕ → Convergence → Bool
at_revision id n r = str_eq r.convergence_id id && (r.revision == n)

unfoldable pub cas_run : String → ℕ → (Convergence → Convergence) → M RunDb (Unit {0})
cas_run id n f db = (
  if count (at_revision id n) db.convergences == 1 then ok tt else err revision_conflict,
  record db { convergences = update (at_revision id n) f db.convergences },
)

-- The event of a write that took `row` to `updated`.
abbrev pub event_of : String → (now : ℕ) → (row updated : Convergence) → ConvergenceEvent
event_of event_type now row updated = record {
  convergence_id = updated.convergence_id;
  revision = updated.revision;
  event_type = event_type;
  from_phase = some row.phase;
  to_phase = some updated.phase;
  from_status = some row.status;
  to_status = some updated.status;
  created_at = now;
}

-- The end that every writer shares: the compare-and-set, the row read back, its event, the result.
unfoldable pub write_run :
    String → ℕ → String → (now : ℕ) → Convergence → (Convergence → Convergence) → M RunDb Public
write_run id n event_type now row f = do
  cas_run id n f
  updated ← reading (λ db. get_row db id)
  insert_run_event (event_of event_type now row updated)
  reading (λ db. ok (public_view db updated))

-- The arguments of `transition_convergence` behind the revision.
pub record RunTarget : Type 0 where
  pub phase : RunPhase
  pub status : String
  pub error_code : Option String
  pub error_message : Option String
  pub event_type : String

-- The texts of the phases.
unfoldable pub phase_text : RunPhase → String
phase_text RunPhase.accepted = "accepted"
phase_text RunPhase.index_requested = "index_requested"
phase_text RunPhase.analysis_pending = "analysis_pending"
phase_text RunPhase.ci_requested = "ci_requested"
phase_text RunPhase.ci_running = "ci_running"
phase_text RunPhase.post_ci_finalize = "post_ci_finalize"
phase_text RunPhase.passed = "passed"
phase_text RunPhase.failed = "failed"
phase_text RunPhase.blocked = "blocked"

abbrev pub transitioned_run : RunTarget → (now : ℕ) → Convergence → Convergence
transitioned_run t now r = record r {
  phase = t.phase;
  status = if str_eq t.status "" then phase_text t.phase else t.status;
  terminal = is_terminal_phase t.phase;
  error_code = t.error_code;
  error_message = t.error_message;
  revision = r.revision + 1;
  updated_at = now;
  finished_at = if is_terminal_phase t.phase then some now else none;
}

-- transition_convergence
unfoldable pub run_transition_body : String → ℕ → RunTarget → (now : ℕ) → M RunDb Public
run_transition_body id n t now = do
  row ← reading (λ db. require_revision db id n)
  require (not row.terminal) state_invalid
  write_run id n t.event_type now row (transitioned_run t now)

unfoldable pub transition_convergence : String → ℕ → RunTarget → (now : ℕ) → M RunDb Public
transition_convergence id n t now = atomically (run_transition_body id n t now)

-- The columns that `_bind_once` may set.
pub data Field : Type 0 where
  index_job_id ci_request_id ci_job_id : Field

abbrev pub field_of : Field → Convergence → Option String
field_of Field.index_job_id r = r.index_job_id
field_of Field.ci_request_id r = r.ci_request_id
field_of Field.ci_job_id r = r.ci_job_id

abbrev pub set_field : Field → String → Convergence → Convergence
set_field Field.index_job_id v r = record r { index_job_id = some v }
set_field Field.ci_request_id v r = record r { ci_request_id = some v }
set_field Field.ci_job_id v r = record r { ci_job_id = some v }

abbrev pub bound_run : Field → String → (now : ℕ) → Convergence → Convergence
bound_run k v now r = record (set_field k v r) { revision = r.revision + 1; updated_at = now }

abbrev pub event_name : Field → String
event_name Field.index_job_id = "index_job_bound"
event_name Field.ci_request_id = "ci_request_bound"
event_name Field.ci_job_id = "ci_job_bound"

-- A result with its `deduplicated`.
pub record Bound : Type 0 where
  pub result : Public
  pub deduplicated : Bool

-- What `_bind_once` does with the row: a bound column is compared, a free one is set.
unfoldable pub bind_row : Field → String → String → ℕ → (now : ℕ) → Convergence → M RunDb Bound
bind_row k value id n now row db =
    if truthy (field_of k row)
    then (
      if col_eq (field_of k row) value
          then ok (record { result = public_view db row; deduplicated = true })
          else err identity_mismatch,
      db,
    )
    else (do
      p ← write_run id n (event_name k) now row (bound_run k value now)
      pure (record { result = p; deduplicated = false }))
        db

unfoldable pub bind_body : Field → String → String → ℕ → (now : ℕ) → M RunDb Bound
bind_body k value id n now = do
  row ← reading (λ db. require_revision db id n)
  require (not row.terminal) state_invalid
  bind_row k value id n now row

-- _bind_once, with the default of `allow_terminal`, which every caller leaves
unfoldable pub bind_once : Field → String → String → ℕ → (now : ℕ) → M RunDb Bound
bind_once k value id n now = do
  require (not (is_blank value)) value_error
  atomically (bind_body k value id n now)

-- bind_index_job, bind_ci_request
unfoldable pub bind_index_job : String → ℕ → (index_job_id : String) → (now : ℕ) → M RunDb Bound
bind_index_job id n value now = bind_once Field.index_job_id value id n now

unfoldable pub bind_ci_request : String → ℕ → (ci_request_id : String) → (now : ℕ) → M RunDb Bound
bind_ci_request id n value now = bind_once Field.ci_request_id value id n now

-- The first part of `bind_ci_job`, a transaction of its own that only reads.
unfoldable pub check_ci_request : String → ℕ → (request : String) → RunDb → Result (Unit {0})
check_ci_request id n request db =
    Check.◌>>=◌ (require_revision db id n)
      (λ row. Check.require (col_eq row.ci_request_id request) identity_mismatch)

-- bind_ci_job
unfoldable pub bind_ci_job : String → ℕ → (request job : String) → (now : ℕ) → M RunDb Bound
bind_ci_job id n request job now = do
  reading (check_ci_request id n request)
  bind_once Field.ci_job_id job id n now

-- The arguments of `record_analysis_state` behind the revision.
pub record AnalysisReport : Type 0 where
  pub stage : Stage
  pub state : AnalysisState
  pub resource_uri : Option String
  pub resource_identity : Option String
  pub error_code : Option String
  pub error_message : Option String

unfoldable pub set_analysis : String → AnalysisReport → (now : ℕ) → RunDb → RunDb
set_analysis id a now db = record db {
  analysis =
      update (λ x. str_eq x.convergence_id id && stage_eq x.stage a.stage)
        (λ x. record x {
          state = a.state;
          resource_uri = a.resource_uri;
          resource_identity = a.resource_identity;
          error_code = a.error_code;
          error_message = a.error_message;
          updated_at = now;
        })
        db.analysis;
}

abbrev pub touched_run : (now : ℕ) → Convergence → Convergence
touched_run now r = record r { revision = r.revision + 1; updated_at = now }

-- record_analysis_state
unfoldable pub analysis_body : String → ℕ → AnalysisReport → (now : ℕ) → M RunDb Public
analysis_body id n a now = do
  row ← reading (λ db. require_revision db id n)
  require (not row.terminal) state_invalid
  modify (set_analysis id a now)
  write_run id n "analysis_state_recorded" now row (touched_run now)

unfoldable pub record_analysis_state : String → ℕ → AnalysisReport → (now : ℕ) → M RunDb Public
record_analysis_state id n a now = atomically (analysis_body id n a now)

-- `value and current and current != value`
abbrev pub reassigns : Option String → Option String → Bool
reassigns value current = truthy value && truthy current && not (opt_eq current value)

-- `value and not current`: the column joins `updates`.
abbrev pub fills : Option String → Option String → Bool
fills value current = truthy value && not (truthy current)

abbrev pub evidence_run :
    (attestation_id failure_pack_id : Option String)
    → (now : ℕ) → Convergence
    → (row : Convergence) → Convergence
evidence_run a f now row r = record r {
  attestation_id = if fills a row.attestation_id then a else r.attestation_id;
  failure_pack_id = if fills f row.failure_pack_id then f else r.failure_pack_id;
  revision = r.revision + 1;
  updated_at = now;
}

-- What `record_terminal_evidence` does with the row.
unfoldable pub evidence_row :
    (attestation_id failure_pack_id : Option String)
    → String
    → ℕ
    → (now : ℕ) → Convergence
    → M RunDb Bound
evidence_row a f id n now row db =
    if reassigns a row.attestation_id || reassigns f row.failure_pack_id
    then (err identity_mismatch, db)
    else if not (fills a row.attestation_id || fills f row.failure_pack_id)
    then (ok (record { result = public_view db row; deduplicated = true }), db)
    else (do
      p ← write_run id n "terminal_evidence_recorded" now row (evidence_run a f now row)
      pure (record { result = p; deduplicated = false }))
        db

unfoldable pub evidence_body :
    (attestation_id failure_pack_id : Option String) → String → ℕ → (now : ℕ) → M RunDb Bound
evidence_body a f id n now = do
  row ← reading (λ db. require_revision db id n)
  evidence_row a f id n now row

-- record_terminal_evidence
unfoldable pub record_terminal_evidence :
    (attestation_id failure_pack_id : Option String) → String → ℕ → (now : ℕ) → M RunDb Bound
record_terminal_evidence a f id n now = do
  require (truthy a || truthy f) value_error
  atomically (evidence_body a f id n now)
