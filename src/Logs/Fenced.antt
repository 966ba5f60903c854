-- ===== src/Logs/Fenced.antt =====
-- The lease fence of every Worker callback of app/ci_database.py, in the terms of the job row.
use mathlib.Core.List.{Memᴰ}
-- Who may report on a job: the row is leased to the Worker, under this token, has not expired, and
-- is the row of an active attempt.
use github_mcp.Table.{count}
use github_mcp.Jobs.Lease.{fence, lease_alive, owns_lease, begin_job_write}
use github_mcp.Jobs.Queue.{matching_jobs}
use github_mcp.Schema.{Db, Job, JobStatus, is_active}
use github_mcp.Logs.{LogDb, append_log_chunk, append_log_batch, add_step, finish_step, StepEnd}
use github_mcp.Jobs.Finish.{
  complete_job, release_job, set_job_status, set_job_source_downloaded, Completion,
}
use github_mcp.Tx.{M, err, stale_job_lease}
use github_mcp.Prelude.{
  String, Option, Bool, ℕ, List, ◌≡◌, some, false, true, Bool-cases, ◌<◌, arith, inl, none, inr,
  refl, str_eq, ◌∷◌, str_eq_iff, [], col_eq_sound,
}

pub record IsHolder (sha256 : String → String) (id worker token : String) (now : ℕ) (db : Db)
    : Type 0 where
  pub job : Job
  pub is_stored : Memᴰ job db.jobs
  pub job_id : job.job_id ≡ id
  pub worker_id : job.worker_id ≡ some worker
  pub lease_token_hash : job.lease_token_hash ≡ some (sha256 token)
  pub expiry : ℕ
  pub lease_expires_at : job.lease_expires_at ≡ some expiry
  pub is_alive : now < expiry
  pub is_active : is_active job.status ≡ true

counted-Mem :
    {A : Type 0} (p : A → Bool) (xs : List A)
    → ¬ (count p xs ≡ 0)
    → (x : A) × Memᴰ x xs × (p x ≡ true)
unfolding count
counted-Mem p [] h = absurd (h refl)
counted-Mem p (x ∷ xs) h = elim (Bool-cases (p x)) [
  | inl e ↦ (x, Memᴰ.head refl, e)
  | inr e ↦ let (y, m, q) = counted-Mem p xs (rw e at h) in (y, Memᴰ.tail m, q)
]

alive_until :
    (t : Option ℕ) (now : ℕ) → lease_alive t now ≡ true → (e : ℕ) × (t ≡ some e) × (now < e)
alive_until none now h = absurd (ground arith)
alive_until (some e) now h = (e, refl, ground arith)

owner-IsHolder :
    (sha256 : String → String) (id worker token : String) (now : ℕ) (db : Db) (j : Job)
    → Memᴰ j db.jobs
    → owns_lease id worker (sha256 token) now j ≡ true
    → IsHolder sha256 id worker token now db
owner-IsHolder sha256 id worker token now db j m h =
    let alive : lease_alive j.lease_expires_at now ≡ true = ground arith in
    let (e, at, lt) = alive_until j.lease_expires_at now alive in
    record {
      job = j;
      is_stored = m;
      job_id = (str_eq_iff j.job_id id).0 (ground arith);
      worker_id = col_eq_sound j.worker_id worker (ground arith);
      lease_token_hash = col_eq_sound j.lease_token_hash (sha256 token) (ground arith);
      expiry = e;
      lease_expires_at = at;
      is_alive = lt;
      is_active = ground arith;
    }

fence-IsHolder :
    (sha256 : String → String) (id worker token : String) (now : ℕ) (db : Db)
    → fence sha256 id (some worker) (some token) now db ≡ true
    → IsHolder sha256 id worker token now db
unfolding fence matching_jobs
fence-IsHolder sha256 id worker token now db h =
    let (j, m, e) =
      counted-Mem (owns_lease id worker (sha256 token) now) db.jobs (λ z. ground arith) in
    owner-IsHolder sha256 id worker token now db j m e

refused :
    (sha256 : String → String) (id worker token : String) (now : ℕ) (db : Db)
    → ¬ IsHolder sha256 id worker token now db
    → fence sha256 id (some worker) (some token) now db ≡ false
refused sha256 id worker token now db h =
    elim (Bool-cases (fence sha256 id (some worker) (some token) now db)) [
      | inl e ↦ absurd (h (fence-IsHolder sha256 id worker token now db e))
      | inr e ↦ e
    ]

module _ (sha256 : String → String) (id worker token : String) (now : ℕ) (s : LogDb) where
  abbrev pub RaisesStale : {A : Type 0} → (Option String → Option String → ℕ → M LogDb A) → Type 0
  RaisesStale callback = callback (some worker) (some token) now s ≡ (err stale_job_lease, s)

  -- A callback for a job, of a Worker that gives its id and a token, raises the stale-lease error
  -- and changes no table, unless a row of the job is leased to that Worker under that token's
  -- digest, with a lease that expires later than now, in an active status: completion, release,
  -- status and source reports, log chunks and batches, and the start and the end of a step.
  pub stale_worker_refused :
      (c : Completion) (status : JobStatus) (digest : String) (size : ℕ) (content : List ℕ)
      (batch step_name step_status : String) (step_id : ℕ) (e : StepEnd)
      → ¬ IsHolder sha256 id worker token now s.db
      → (complete_job sha256 id c (some worker) (some token) now s.db ≡ (err stale_job_lease, s.db))
        × (release_job sha256 id (some worker) (some token) now s.db ≡ (err stale_job_lease, s.db))
        × (set_job_status sha256 id status (some worker) (some token) now s.db
            ≡ (err stale_job_lease, s.db))
        × (set_job_source_downloaded sha256 id digest size worker token now s.db
            ≡ (err stale_job_lease, s.db))
        × RaisesStale (append_log_chunk sha256 id content)
        × RaisesStale (append_log_batch sha256 id batch content)
        × RaisesStale (add_step sha256 id step_name step_status)
        × RaisesStale (finish_step sha256 step_id e (some id))
  unfolding complete_job release_job set_job_status set_job_source_downloaded begin_job_write
      append_log_chunk append_log_batch add_step finish_step
  stale_worker_refused c status digest size content batch step_name step_status step_id e h =
      let no = refused sha256 id worker token now s.db h in
      (
        rw no,
        rw no,
        rw no,
        rw no,
        rw no,
        rw no,
        rw no,
        elim (Bool-cases (str_eq id "")) [ inl b ↦ rw b | inr b ↦ rw (b, no) ],
      )
