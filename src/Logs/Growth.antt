-- ===== src/Logs/Growth.antt =====
-- Logs over runs of the callbacks that write them, mixed with the controller's other operations.
use github_mcp.Prelude.{
  ◌≡◌, String, is_some, ℕ, List, Option, ◌∷◌, Bool-cases, true, str_eq, inr, some, arith, refl, [],
  ◌||◌, inl, none, ◌++◌, ap, sym, ◌∙◌, subst, str_eq_iff,
}
use github_mcp.Table.{find, select}
use github_mcp.Jobs.Lease.{begin_job_write, fence}
use github_mcp.Controller.{run_op, Op}
use github_mcp.Requests.Queries.{get_job}
use github_mcp.Logs.Text.{log_text, IsLog, append-IsLog, text_other, text_self}
use github_mcp.Logs.{
  LogDb, append_log_chunk, append_batch_row, finish_found, finish_step, append_new_batch,
  append_log_batch, add_step, insert_chunk, finish_row, Batch, new_chunk, StepEnd, by_batch, Step,
  step_of, is_empty, job_chunks,
}

pub data LogOp : Type 0 where
  chunk : (job_id : String) (content : List ℕ) (worker_id token : Option String) → LogOp
  batch : (job_id batch_id : String) (content : List ℕ) (worker_id token : Option String) → LogOp
  start_step : (job_id step_name status : String) (worker_id token : Option String) → LogOp
  end_step : (step_id : ℕ) → StepEnd → (job_id worker_id token : Option String) → LogOp
  controller : Op → LogOp

-- The tables after one operation at the time `now`, whether it returned or raised.
unfoldable pub run_log_op : (sha256 : String → String) → LogOp → (now : ℕ) → LogDb → LogDb
run_log_op sha256 (chunk id c w t) now s = (append_log_chunk sha256 id c w t now s).1
run_log_op sha256 (batch id b c w t) now s = (append_log_batch sha256 id b c w t now s).1
run_log_op sha256 (start_step id n st w t) now s = (add_step sha256 id n st w t now s).1
run_log_op sha256 (end_step x e j w t) now s = (finish_step sha256 x e j w t now s).1
run_log_op sha256 (controller o) now s = record s { db = run_op sha256 o now s.db }

unfoldable pub run_logs : (sha256 : String → String) → List (LogOp × ℕ) → LogDb → LogDb
run_logs sha256 [] s = s
run_logs sha256 ((o, now) ∷ rest) s = run_logs sha256 rest (run_log_op sha256 o now s)

-- A batch that is recorded stays recorded.
abbrev pub KeepsBatches : (s' s : LogDb) → Type 0
KeepsBatches s' s =
    (id b : String)
    → is_some (find (by_batch id b) s.batches) ≡ true
    → is_some (find (by_batch id b) s'.batches) ≡ true

-- What an operation may do to the logs.
pub data LogChange : LogDb → LogDb → Type 0 where
  quiet : {s s' : LogDb} → s'.chunks ≡ s.chunks → KeepsBatches s' s → LogChange s s'
  appended :
      {s s' : LogDb} (id : String) (content : List ℕ) (now : ℕ)
      → s'.chunks ≡ new_chunk id content now s ∷ s.chunks
      → KeepsBatches s' s
      → LogChange s s'

chunk-LogChange :
    (sha256 : String → String) (id : String) (c : List ℕ) (w t : Option String) (now : ℕ)
    (s : LogDb)
    → LogChange s (append_log_chunk sha256 id c w t now s).1
unfolding append_log_chunk begin_job_write insert_chunk
chunk-LogChange sha256 id c w t now s = elim (Bool-cases (fence sha256 id w t now s.db)) [
  | inr e ↦ rw e (quiet refl (λ i b h. h))
  | inl e ↦ elim (Bool-cases (is_some (get_job s.db id))) [
    | inr k ↦ rw (e, k) (quiet refl (λ i b h. h))
    | inl k ↦ rw (e, k) (appended id c now refl (λ i b h. h))
  ]
]

keep-cons :
    (id b i k : String) (now : ℕ) (xs : List Batch)
    → is_some (find (by_batch i k) xs) ≡ true
    → is_some (find (by_batch i k) (record { job_id = id; batch_id = b; created_at = now } ∷ xs))
      ≡ true
unfolding find
keep-cons id b i k now xs h = ground arith

new_batch-LogChange :
    (id b : String) (c : List ℕ) (now : ℕ) (s : LogDb)
    → LogChange s (append_new_batch id b c now s).1
unfolding append_new_batch insert_chunk job_chunks
new_batch-LogChange id b c now s = elim (Bool-cases (is_some (get_job s.db id))) [
  | inr k ↦ rw k (quiet refl (λ i b h. h))
  | inl k ↦ rw k (appended id c now refl (λ i k' h. keep-cons id b i k' now s.batches h))
]

batch_row-LogChange :
    (id b : String) (c : List ℕ) (now : ℕ) (s : LogDb)
    → LogChange s (append_batch_row id b c now s).1
unfolding append_batch_row
batch_row-LogChange id b c now s = elim (Bool-cases (str_eq b "" || is_empty c)) [
  | inl e ↦ rw e (quiet refl (λ i b h. h))
  | inr e ↦ elim (Bool-cases (is_some (find (by_batch id b) s.batches))) [
    | inl k ↦ rw (e, k) (quiet refl (λ i b h. h))
    | inr k ↦ rw (e, k) (new_batch-LogChange id b c now s)
  ]
]

batch-LogChange :
    (sha256 : String → String) (id b : String) (c : List ℕ) (w t : Option String) (now : ℕ)
    (s : LogDb)
    → LogChange s (append_log_batch sha256 id b c w t now s).1
unfolding append_log_batch begin_job_write
batch-LogChange sha256 id b c w t now s = elim (Bool-cases (fence sha256 id w t now s.db)) [
  | inr e ↦ rw e (quiet refl (λ i b h. h))
  | inl e ↦ rw e (batch_row-LogChange id b c now s)
]

add_step-LogChange :
    (sha256 : String → String) (id n st : String) (w t : Option String) (now : ℕ) (s : LogDb)
    → LogChange s (add_step sha256 id n st w t now s).1
unfolding add_step begin_job_write
add_step-LogChange sha256 id n st w t now s = elim (Bool-cases (fence sha256 id w t now s.db)) [
  | inr e ↦ rw e (quiet refl (λ i b h. h))
  | inl e ↦ elim (Bool-cases (is_some (get_job s.db id))) [
    | inr k ↦ rw (e, k) (quiet refl (λ i b h. h))
    | inl k ↦ rw (e, k) (quiet refl (λ i b h. h))
  ]
]

finish_found-LogChange :
    (e : StepEnd) (now : ℕ) (o : Option Step) (s : LogDb) → LogChange s (finish_found e now o s).1
unfolding finish_found finish_row
finish_found-LogChange e now none s = quiet refl (λ i b h. h)
finish_found-LogChange e now (some row) s = quiet refl (λ i b h. h)

finish_step-LogChange :
    (sha256 : String → String) (x : ℕ) (e : StepEnd) (j w t : Option String) (now : ℕ) (s : LogDb)
    → LogChange s (finish_step sha256 x e j w t now s).1
unfolding finish_step begin_job_write
finish_step-LogChange sha256 x e none none none now s =
    finish_found-LogChange e now (step_of x none s) s
finish_step-LogChange sha256 x e none none (some t) now s = quiet refl (λ i b h. h)
finish_step-LogChange sha256 x e none (some w) t now s = quiet refl (λ i b h. h)
finish_step-LogChange sha256 x e (some j) w t now s = elim (Bool-cases (str_eq j "")) [
  | inl c ↦ rw c (quiet refl (λ i b h. h))
  | inr c ↦ elim (Bool-cases (fence sha256 j w t now s.db)) [
    | inr k ↦ rw (c, k) (quiet refl (λ i b h. h))
    | inl k ↦ rw (c, k) (finish_found-LogChange e now (step_of x (some j) s) s)
  ]
]

pub run_log_op-LogChange :
    (sha256 : String → String) (o : LogOp) (now : ℕ) (s : LogDb)
    → LogChange s (run_log_op sha256 o now s)
unfolding run_log_op
run_log_op-LogChange sha256 (chunk id c w t) now s = chunk-LogChange sha256 id c w t now s
run_log_op-LogChange sha256 (batch id b c w t) now s = batch-LogChange sha256 id b c w t now s
run_log_op-LogChange sha256 (start_step id n st w t) now s =
    add_step-LogChange sha256 id n st w t now s
run_log_op-LogChange sha256 (end_step x e j w t) now s =
    finish_step-LogChange sha256 x e j w t now s
run_log_op-LogChange sha256 (controller o) now s = quiet refl (λ i b h. h)

LogChange-IsLog : {s s' : LogDb} → LogChange s s' → IsLog s → IsLog s'
unfolding job_chunks
LogChange-IsLog {s} {s'} (quiet e b) v = λ k. rw e (v k)
LogChange-IsLog {s} {s'} (appended id c now e b) v = append-IsLog id c now s s' e v

-- However the callbacks mix with each other and with the controller's operations, from tables where
-- the chunks of every job are numbered from 0 and each starts where the one before it ends, as
-- long as its content, this stays so: no log has a gap or an overlap.
pub run_logs-IsLog :
    (sha256 : String → String) (ops : List (LogOp × ℕ)) (s : LogDb)
    → IsLog s
    → IsLog (run_logs sha256 ops s)
unfolding run_logs
run_logs-IsLog sha256 [] s v = v
run_logs-IsLog sha256 ((o, now) ∷ rest) s v =
    run_logs-IsLog sha256 rest (run_log_op sha256 o now s)
      (LogChange-IsLog (run_log_op-LogChange sha256 o now s) v)

pub append_nil : (xs : List ℕ) → xs ++ [] ≡ xs
append_nil [] = refl
append_nil (x ∷ xs) = ap (λ ys. x ∷ ys) (append_nil xs)

pub append_assoc : (xs ys zs : List ℕ) → (xs ++ ys) ++ zs ≡ xs ++ (ys ++ zs)
append_assoc [] ys zs = refl
append_assoc (x ∷ xs) ys zs = ap (λ l. x ∷ l) (append_assoc xs ys zs)

LogChange-text :
    {s s' : LogDb}
    → LogChange s s'
    → (k : String) → (added : List ℕ) × (log_text k s' ≡ log_text k s ++ added)
unfolding log_text job_chunks
LogChange-text {s} {s'} (quiet e b) k = ([], rw e (sym (append_nil (log_text k s))))
LogChange-text {s} {s'} (appended id c now e b) k = elim (Bool-cases (str_eq id k)) [
  | inr ne ↦ ([], text_other id c now s s' e k ne ∙ sym (append_nil (log_text k s)))
  | inl same ↦ (
    c,
    subst (λ i. log_text i s' ≡ log_text i s ++ c) ((str_eq_iff id k).0 same)
        (text_self id c now s s' e),
  )
]

-- However the callbacks mix with each other and with the controller's operations, the log of every
-- job only grows at its end: what could be read before is a prefix of what can be read after.
pub run_logs-text :
    (sha256 : String → String) (ops : List (LogOp × ℕ)) (s : LogDb) (job_id : String)
    → (added : List ℕ) × (log_text job_id (run_logs sha256 ops s) ≡ log_text job_id s ++ added)
unfolding run_logs
run_logs-text sha256 [] s k = ([], sym (append_nil (log_text k s)))
run_logs-text sha256 ((o, now) ∷ rest) s k =
    let (a, e) = LogChange-text (run_log_op-LogChange sha256 o now s) k in
    let (b, d) = run_logs-text sha256 rest (run_log_op sha256 o now s) k in
    (a ++ b, d ∙ ap (λ l. l ++ b) e ∙ append_assoc (log_text k s) a b)

LogChange-KeepsBatches : {s s' : LogDb} → LogChange s s' → KeepsBatches s' s
LogChange-KeepsBatches (quiet e b) = b
LogChange-KeepsBatches (appended id c now e b) = b

pub run_logs-KeepsBatches :
    (sha256 : String → String) (ops : List (LogOp × ℕ)) (s : LogDb)
    → KeepsBatches (run_logs sha256 ops s) s
unfolding run_logs
run_logs-KeepsBatches sha256 [] s i b h = h
run_logs-KeepsBatches sha256 ((o, now) ∷ rest) s i b h =
    run_logs-KeepsBatches sha256 rest (run_log_op sha256 o now s) i b
      (LogChange-KeepsBatches (run_log_op-LogChange sha256 o now s) i b h)

-- A log is whole where there is none.
pub IsLog-nil : (s : LogDb) → s.chunks ≡ [] → IsLog s
unfolding job_chunks select
IsLog-nil s e k = rw e tt
