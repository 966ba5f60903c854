-- ===== src/Logs/StepRuns.antt =====
-- The ranges of steps over runs.
use github_mcp.Logs.Growth.{
  run_logs, run_log_op, LogChange, LogOp, quiet, chunk, appended, run_log_op-LogChange, batch,
  start_step, end_step, controller,
}
use github_mcp.Prelude.{
  ◌≡◌, String, List, Option, ◌≤◌, ℕ, arith, Bool-cases, ◌∷◌, [], Bool, inr, inl, some, is_some,
  refl, none, ◌==◌, str_eq,
}
use github_mcp.Jobs.Lease.{begin_job_write, fence}
use github_mcp.Table.{select, find}
use github_mcp.Logs.Ranges.{
  total_of, HasRanges, AreRanges-mono, AreNumbered-update, finished_ranges,
}
use github_mcp.Requests.Queries.{get_job}
use github_mcp.Logs.{
  LogDb, finish_step, add_step, job_chunks, finish_found, append_log_batch, append_log_chunk,
  finish_row, append_batch_row, StepEnd, insert_chunk, append_new_batch, step_of, Step, by_step,
  finished_step,
}

LogChange-total : {s s' : LogDb} → LogChange s s' → (k : String) → total_of s k ≤ total_of s' k
unfolding job_chunks select
LogChange-total {s} {s'} (quiet e b) k = rw e (omega arith)
LogChange-total {s} {s'} (appended id c now e b) k = rw e (ground arith)

-- A change that leaves the steps keeps their ranges.
quiet-HasRanges :
    {s s' : LogDb}
    → LogChange s s'
    → s'.steps ≡ s.steps
    → s'.next_step_id ≡ s.next_step_id
    → HasRanges s
    → HasRanges s'
unfolding job_chunks
quiet-HasRanges {s} {s'} c e n v = record {
  numbered = rw (e, n) v.numbered;
  ranges = rw e (AreRanges-mono (total_of s) (total_of s') s.steps (LogChange-total c) v.ranges);
}

chunk_steps :
    (sha256 : String → String) (id : String) (c : List ℕ) (w t : Option String) (now : ℕ)
    (s : LogDb)
    → ((append_log_chunk sha256 id c w t now s).1.steps ≡ s.steps)
      × ((append_log_chunk sha256 id c w t now s).1.next_step_id ≡ s.next_step_id)
unfolding append_log_chunk begin_job_write insert_chunk
chunk_steps sha256 id c w t now s = ground arith

batch_steps :
    (sha256 : String → String) (id b : String) (c : List ℕ) (w t : Option String) (now : ℕ)
    (s : LogDb)
    → ((append_log_batch sha256 id b c w t now s).1.steps ≡ s.steps)
      × ((append_log_batch sha256 id b c w t now s).1.next_step_id ≡ s.next_step_id)
unfolding append_log_batch append_batch_row append_new_batch begin_job_write insert_chunk
batch_steps sha256 id b c w t now s = ground arith

add_step-HasRanges :
    (sha256 : String → String) (id n st : String) (w t : Option String) (now : ℕ) (s : LogDb)
    → HasRanges s
    → HasRanges (add_step sha256 id n st w t now s).1
unfolding add_step begin_job_write job_chunks
add_step-HasRanges sha256 id n st w t now s v = elim (Bool-cases (fence sha256 id w t now s.db)) [
  | inr e ↦ rw e v
  | inl e ↦ elim (Bool-cases (is_some (get_job s.db id))) [
    | inr k ↦ rw (e, k) v
    | inl k ↦
        rw (e, k)
          (record {
            numbered = (omega arith, v.numbered);
            ranges = (omega arith, omega arith, v.ranges);
          })
  ]
]

finish_found-HasRanges :
    (e : StepEnd) (now : ℕ) (p : Step → Bool) (o : Option Step) (s : LogDb)
    → find p s.steps ≡ o
    → HasRanges s
    → HasRanges (finish_found e now o s).1
unfolding finish_found finish_row job_chunks
finish_found-HasRanges e now p none s h v = v
finish_found-HasRanges e now p (some row) s h v = record {
  numbered =
      AreNumbered-update s.next_step_id (by_step row.id row.job_id)
        (finished_step e now (total_of s row.job_id) row) s.steps (λ x. refl) v.numbered;
  ranges = finished_ranges (total_of s) e now s.next_step_id p s.steps row v.numbered v.ranges h;
}

finish_step-HasRanges :
    (sha256 : String → String) (x : ℕ) (e : StepEnd) (j w t : Option String) (now : ℕ) (s : LogDb)
    → HasRanges s
    → HasRanges (finish_step sha256 x e j w t now s).1
unfolding finish_step begin_job_write step_of
finish_step-HasRanges sha256 x e none none none now s v =
    finish_found-HasRanges e now (λ (y : Step). y.id == x) (step_of x none s) s refl v
finish_step-HasRanges sha256 x e none none (some t) now s v = v
finish_step-HasRanges sha256 x e none (some w) t now s v = v
finish_step-HasRanges sha256 x e (some j) w t now s v = elim (Bool-cases (str_eq j "")) [
  | inl c ↦ rw c v
  | inr c ↦ elim (Bool-cases (fence sha256 j w t now s.db)) [
    | inr k ↦ rw (c, k) v
    | inl k ↦ rw (c, k) (finish_found-HasRanges e now (by_step x j) (step_of x (some j) s) s refl v)
  ]
]

run_log_op-HasRanges :
    (sha256 : String → String) (o : LogOp) (now : ℕ) (s : LogDb)
    → HasRanges s
    → HasRanges (run_log_op sha256 o now s)
unfolding run_log_op
run_log_op-HasRanges sha256 (chunk id c w t) now s v =
    let (a, b) = chunk_steps sha256 id c w t now s in
    quiet-HasRanges (run_log_op-LogChange sha256 (chunk id c w t) now s) a b v
run_log_op-HasRanges sha256 (batch id k c w t) now s v =
    let (a, b) = batch_steps sha256 id k c w t now s in
    quiet-HasRanges (run_log_op-LogChange sha256 (batch id k c w t) now s) a b v
run_log_op-HasRanges sha256 (start_step id n st w t) now s v =
    add_step-HasRanges sha256 id n st w t now s v
run_log_op-HasRanges sha256 (end_step x e j w t) now s v =
    finish_step-HasRanges sha256 x e j w t now s v
run_log_op-HasRanges sha256 (controller o) now s v =
    quiet-HasRanges (run_log_op-LogChange sha256 (controller o) now s) refl refl v

-- However the callbacks mix with each other and with the controller's operations, and whatever end
-- a Worker reports, from tables whose steps have falling identifiers below the counter and ranges
-- that start no later than they end, within the log of their job, this stays so: no step's range
-- is inverted or beyond the log.
pub run_logs-HasRanges :
    (sha256 : String → String) (ops : List (LogOp × ℕ)) (s : LogDb)
    → HasRanges s
    → HasRanges (run_logs sha256 ops s)
unfolding run_logs
run_logs-HasRanges sha256 [] s v = v
run_logs-HasRanges sha256 ((o, now) ∷ rest) s v =
    run_logs-HasRanges sha256 rest (run_log_op sha256 o now s)
      (run_log_op-HasRanges sha256 o now s v)
