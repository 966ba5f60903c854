-- ===== src/Convergence/Steps.antt =====
-- Each writer of the convergence store is a change, in the sense of Convergence/Changes.
use github_mcp.Convergence.{
  RunDb, Convergence, Public, stored_run, get_row, require_revision, by_run_id, is_blank,
}
use github_mcp.Convergence.Writes.{
  write_run, event_of, at_revision, run_transition_body, transition_convergence, transitioned_run,
  RunTarget, bind_row, bind_body, bind_once, bound_run, Field, field_of, Bound, check_ci_request,
  bind_ci_job, analysis_body, record_analysis_state, AnalysisReport, set_analysis, touched_run,
  evidence_row, evidence_body, record_terminal_evidence, evidence_run, reassigns, fills, event_name,
}
use github_mcp.Convergence.Changes.{RunChange, still, stepped, SameRun, Keeps, write_run-ok, Kept}
use github_mcp.Prelude.{
  ◌∷◌, refl, some, true, false, inl, inr, Option, String, ℕ, ◌≡◌, str_eq_iff, suc, arith, ◌∙◌, ap,
  truthy, Bool, ◌⊎◌, subst, not, Bool-cases, sym, ◌||◌,
}
use github_mcp.Table.Laws.{find_sound}
use github_mcp.Table.{update, find}
use github_mcp.Tx.{
  ok, err, atomically, M, Result, resume, settle, reading-ok, require-ok, state_invalid, pure,
}

module _ {A : Type 0} (db : RunDb) where
  settle-RunChange :
      (x : Result A × RunDb)
      → ((a : A) (db' : RunDb) → x ≡ (ok a, db') → RunChange db db')
      → RunChange db (settle db x).1
  settle-RunChange (ok a, s) h = h a s refl
  settle-RunChange (err e, s) h = still refl refl

  -- Of a transaction only the commits matter.
  pub atomically-RunChange :
      (m : M RunDb A)
      → ((a : A) (db' : RunDb) → m db ≡ (ok a, db') → RunChange db db')
      → RunChange db (atomically m db).1
  unfolding atomically
  atomically-RunChange m h = settle-RunChange (m db) h

-- A guard in front of a call.
pub guarded-RunChange :
    {A B : Type 0} (db : RunDb) (r : Result A) (m : A → M RunDb B)
    → ((a : A) → RunChange db (m a db).1)
    → RunChange db (resume (r, db) m).1
guarded-RunChange db (ok a) m h = h a
guarded-RunChange db (err e) m h = still refl refl

pub require_revision-ok :
    (db : RunDb) (id : String) (n : ℕ) (row : Convergence)
    → require_revision db id n ≡ ok row
    → (stored_run db id ≡ some row) × (row.revision ≡ n)
unfolding require_revision get_row
require_revision-ok db id n row h = ground arith

pub run_id :
    (db : RunDb) (id : String) (row : Convergence)
    → stored_run db id ≡ some row
    → row.convergence_id ≡ id
unfolding stored_run
run_id db id row h =
    (str_eq_iff row.convergence_id id).0 (find_sound (by_run_id id) db.convergences row h)

-- The shared end of the writers is a step; `db₀` is the database after a write of analysis rows.
module _ (id : String) (n : ℕ) (event_type : String) (now : ℕ) (row : Convergence)
    (f : Convergence → Convergence) (db db₀ db' : RunDb) (p : Public)
    (same : (r : Convergence) → SameRun (f r) r) (keeps : Keeps (f row) row)
    (grows : (f row).revision ≡ suc row.revision) (found : stored_run db id ≡ some row)
    (current : row.revision ≡ n) (e_c : db₀.convergences ≡ db.convergences)
    (e_e : db₀.events ≡ db.events) where
  written :
      write_run id n event_type now row f db₀ ≡ (ok p, db')
      → (p.run ≡ f row)
        × (db' ≡ record db₀ {
          convergences = update (at_revision id row.revision) f db₀.convergences;
          events = event_of event_type now row (f row) ∷ db₀.events;
        })
  unfolding stored_run
  written h =
      write_run-ok id event_type now row f db₀ db' p (λ r. (same r).convergence_id)
        (ap (find (by_run_id id)) e_c ∙ found)
        (subst (λ m. write_run id m event_type now row f db₀ ≡ (ok p, db')) (sym current) h)

  pub write_run-RunChange : write_run id n event_type now row f db₀ ≡ (ok p, db') → RunChange db db'
  write_run-RunChange h =
      let (e_p, e) = written h in
      stepped id row (event_of event_type now row (f row)) f
        (record {
          found = found;
          same = same;
          keeps = keeps;
          revision = grows;
          event_id = (same row).convergence_id ∙ run_id db id row found;
          event_revision = grows;
          from_phase = refl;
          to_phase = refl;
        })
        (ap (λ (d : RunDb). d.convergences) e ∙ ap (update (at_revision id row.revision) f) e_c)
        (ap (λ (d : RunDb). d.events) e ∙ ap (λ es. event_of event_type now row (f row) ∷ es) e_e)

not-true : (b : Bool) → not b ≡ true → b ≡ false
not-true true h = cc
not-true false h = refl

-- A write to a run that is not terminal, on columns that nothing binds.
live-Keeps :
    (r' r : Convergence)
    → r.terminal ≡ false
    → Kept r'.index_job_id r.index_job_id
    → Kept r'.ci_request_id r.ci_request_id
    → Kept r'.ci_job_id r.ci_job_id
    → Kept r'.attestation_id r.attestation_id
    → Kept r'.failure_pack_id r.failure_pack_id
    → Keeps r' r
live-Keeps r' r live a b c d e = record {
  index_job_id = a;
  ci_request_id = b;
  ci_job_id = c;
  attestation_id = d;
  failure_pack_id = e;
  terminal = λ h. cc;
  phase = λ h. absurd (cc);
  status = λ h. absurd (cc);
}

run_transition_body-RunChange :
    (id : String) (n : ℕ) (t : RunTarget) (now : ℕ) (db db' : RunDb) (p : Public)
    → run_transition_body id n t now db ≡ (ok p, db')
    → RunChange db db'
unfolding run_transition_body
run_transition_body-RunChange id n t now db db' p h =
    let (row, e, k) = reading-ok (require_revision db id n) _ p db db' h in
    let (found, current) = require_revision-ok db id n row e in
    let (live, w) = require-ok (not row.terminal) state_invalid _ p db db' k in
    write_run-RunChange id n t.event_type now row (transitioned_run t now) db db db' p
      (λ r. ground arith)
      (live-Keeps (transitioned_run t now row) row (not-true row.terminal live) (λ _. refl)
        (λ _. refl) (λ _. refl) (λ _. refl) (λ _. refl))
      (omega arith) found current refl refl w

bound_run-Keeps :
    (k : Field) (value : String) (now : ℕ) (row : Convergence)
    → row.terminal ≡ false
    → truthy (field_of k row) ≡ false
    → Keeps (bound_run k value now row) row
bound_run-Keeps Field.index_job_id value now row live free =
    live-Keeps (bound_run Field.index_job_id value now row) row live (λ h. absurd (cc)) (λ _. refl)
      (λ _. refl) (λ _. refl) (λ _. refl)
bound_run-Keeps Field.ci_request_id value now row live free =
    live-Keeps (bound_run Field.ci_request_id value now row) row live (λ _. refl) (λ h. absurd (cc))
      (λ _. refl) (λ _. refl) (λ _. refl)
bound_run-Keeps Field.ci_job_id value now row live free =
    live-Keeps (bound_run Field.ci_job_id value now row) row live (λ _. refl) (λ _. refl)
      (λ h. absurd (cc)) (λ _. refl) (λ _. refl)

pub bound_run-SameRun :
    (k : Field) (value : String) (now : ℕ) (r : Convergence) → SameRun (bound_run k value now r) r
bound_run-SameRun Field.index_job_id value now r = ground arith
bound_run-SameRun _ value now r = ground arith

bound_run-revision :
    (k : Field) (value : String) (now : ℕ) (r : Convergence)
    → (bound_run k value now r).revision ≡ suc r.revision
bound_run-revision Field.index_job_id value now r = omega arith
bound_run-revision _ value now r = omega arith

-- A write whose result says that nothing was deduplicated.
first_result :
    (x : Result Public × RunDb) (b : Bound) (db' : RunDb)
    → resume x (λ p. pure (record { result = p; deduplicated = false })) ≡ (ok b, db')
    → (b.deduplicated ≡ false) × (x ≡ (ok b.result, db'))
first_result (ok p, s) b db' h = ground arith
first_result (err e, s) b db' h = absurd (cc)

-- What `_bind_once` that returned has done: nothing on a column that is bound to the value, or one
-- step of a run that is not terminal.
pub bind_row-cases :
    (k : Field) (value id : String) (n now : ℕ) (row : Convergence) (db db' : RunDb) (b : Bound)
    → bind_row k value id n now row db ≡ (ok b, db')
    → ((b.deduplicated ≡ true) × (db' ≡ db))
      ⊎ ((b.deduplicated ≡ false)
          × (truthy (field_of k row) ≡ false)
          × (write_run id n (event_name k) now row (bound_run k value now) db ≡ (ok b.result, db')))
unfolding bind_row
bind_row-cases k value id n now row db db' b h = elim (Bool-cases (truthy (field_of k row))) [
  | inl e ↦ inl (ground arith)
  | inr e ↦
      let (fresh, w) =
        first_result (write_run id n (event_name k) now row (bound_run k value now) db) b db'
          (rw e at h) in
      inr (fresh, e, w)
]

pub bind_body-RunChange :
    (k : Field) (value id : String) (n now : ℕ) (db db' : RunDb) (b : Bound)
    → bind_body k value id n now db ≡ (ok b, db')
    → RunChange db db'
unfolding bind_body
bind_body-RunChange k value id n now db db' b h =
    let (row, e, m) = reading-ok (require_revision db id n) _ b db db' h in
    let (found, current) = require_revision-ok db id n row e in
    let (live, w) = require-ok (not row.terminal) state_invalid _ b db db' m in
    elim (bind_row-cases k value id n now row db db' b w) [
      | inl (d, same) ↦
          still (ap (λ (d : RunDb). d.convergences) same) (ap (λ (d : RunDb). d.events) same)
      | inr (d, free, w') ↦
          write_run-RunChange id n (event_name k) now row (bound_run k value now) db db db' b.result
            (bound_run-SameRun k value now)
            (bound_run-Keeps k value now row (not-true row.terminal live) free)
            (bound_run-revision k value now row) found current refl refl w'
    ]

analysis_body-RunChange :
    (id : String) (n : ℕ) (a : AnalysisReport) (now : ℕ) (db db' : RunDb) (p : Public)
    → analysis_body id n a now db ≡ (ok p, db')
    → RunChange db db'
unfolding analysis_body set_analysis
analysis_body-RunChange id n a now db db' p h =
    let (row, e, k) = reading-ok (require_revision db id n) _ p db db' h in
    let (found, current) = require_revision-ok db id n row e in
    let (live, w) = require-ok (not row.terminal) state_invalid _ p db db' k in
    write_run-RunChange id n "analysis_state_recorded" now row (touched_run now) db
      (set_analysis id a now db) db' p (λ r. ground arith)
      (live-Keeps (touched_run now row) row (not-true row.terminal live) (λ _. refl) (λ _. refl)
        (λ _. refl) (λ _. refl) (λ _. refl))
      (omega arith) found current refl refl w

evidence_run-Keeps :
    (a f : Option String) (now : ℕ) (row : Convergence) → Keeps (evidence_run a f now row row) row
evidence_run-Keeps a f now row = record {
  index_job_id = λ _. refl;
  ci_request_id = λ _. refl;
  ci_job_id = λ _. refl;
  attestation_id = λ h. rw h (ground arith);
  failure_pack_id = λ h. ground arith;
  terminal = λ h. h;
  phase = λ _. refl;
  status = λ _. refl;
}

pub evidence_row-cases :
    (a f : Option String) (id : String) (n now : ℕ) (row : Convergence) (db db' : RunDb) (b : Bound)
    → evidence_row a f id n now row db ≡ (ok b, db')
    → (db' ≡ db)
      ⊎ (write_run id n "terminal_evidence_recorded" now row (evidence_run a f now row) db
          ≡ (ok b.result, db'))
unfolding evidence_row
evidence_row-cases a f id n now row db db' b h =
    elim (Bool-cases (reassigns a row.attestation_id || reassigns f row.failure_pack_id)) [
      | inl e ↦ absurd (cc (rw e at h))
      | inr e ↦ elim (Bool-cases (fills a row.attestation_id || fills f row.failure_pack_id)) [
        | inl c ↦
            inr
              (first_result
                (write_run id n "terminal_evidence_recorded" now row (evidence_run a f now row) db)
                b db' (rw (e, c) at h)).1
        | inr c ↦ inl (ground arith)
      ]
    ]

evidence_body-RunChange :
    (a f : Option String) (id : String) (n now : ℕ) (db db' : RunDb) (b : Bound)
    → evidence_body a f id n now db ≡ (ok b, db')
    → RunChange db db'
unfolding evidence_body
evidence_body-RunChange a f id n now db db' b h =
    let (row, e, m) = reading-ok (require_revision db id n) _ b db db' h in
    let (found, current) = require_revision-ok db id n row e in
    elim (evidence_row-cases a f id n now row db db' b m) [
      | inl same ↦
          still (ap (λ (d : RunDb). d.convergences) same) (ap (λ (d : RunDb). d.events) same)
      | inr w ↦
          write_run-RunChange id n "terminal_evidence_recorded" now row (evidence_run a f now row)
            db db db' b.result (λ r. ground arith) (evidence_run-Keeps a f now row) (omega arith)
            found current refl refl w
    ]

pub transition-RunChange :
    (id : String) (n : ℕ) (t : RunTarget) (now : ℕ) (db : RunDb)
    → RunChange db (transition_convergence id n t now db).1
unfolding transition_convergence
transition-RunChange id n t now db =
    atomically-RunChange db (run_transition_body id n t now)
      λ p db' h. run_transition_body-RunChange id n t now db db' p h

pub bind_once-RunChange :
    (k : Field) (value id : String) (n now : ℕ) (db : RunDb)
    → RunChange db (bind_once k value id n now db).1
unfolding bind_once
bind_once-RunChange k value id n now db = elim (Bool-cases (not (is_blank value))) [
  | inr e ↦ rw e (still refl refl)
  | inl e ↦ rw e (
      atomically-RunChange db (bind_body k value id n now)
        λ b db' h. bind_body-RunChange k value id n now db db' b h)
]

pub bind_ci_job-RunChange :
    (id : String) (n : ℕ) (request job : String) (now : ℕ) (db : RunDb)
    → RunChange db (bind_ci_job id n request job now db).1
unfolding bind_ci_job
bind_ci_job-RunChange id n request job now db =
    guarded-RunChange db (check_ci_request id n request db) _
      λ _. bind_once-RunChange Field.ci_job_id job id n now db

pub analysis-RunChange :
    (id : String) (n : ℕ) (a : AnalysisReport) (now : ℕ) (db : RunDb)
    → RunChange db (record_analysis_state id n a now db).1
unfolding record_analysis_state
analysis-RunChange id n a now db =
    atomically-RunChange db (analysis_body id n a now)
      λ p db' h. analysis_body-RunChange id n a now db db' p h

pub evidence-RunChange :
    (a f : Option String) (id : String) (n now : ℕ) (db : RunDb)
    → RunChange db (record_terminal_evidence a f id n now db).1
unfolding record_terminal_evidence
evidence-RunChange a f id n now db = elim (Bool-cases (truthy a || truthy f)) [
  | inr e ↦ rw e (still refl refl)
  | inl e ↦ rw e (
      atomically-RunChange db (evidence_body a f id n now)
        λ b db' h. evidence_body-RunChange a f id n now db db' b h)
]
