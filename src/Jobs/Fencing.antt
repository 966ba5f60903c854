-- ===== src/Jobs/Fencing.antt =====
-- The lease fence of the Worker callbacks at the end of an attempt, which takes the lease away.
use github_mcp.Jobs.Lease.{fence, begin_job_write, owns_lease}
use github_mcp.Jobs.Finish.{
  complete_job, Completion, release_job, complete_found, complete_row, release_row, completed_row,
  requeued_row, release_found,
}
use github_mcp.Prelude.{
  String, ℕ, some, ◌≡◌, false, List, Option-cases, inl, none, arith, inr, ap, Option, true, ◌∙◌,
  ◌⊎◌, Bool, sym,
}
use github_mcp.Schema.{Db, Job}
use github_mcp.Table.Counts.{count-update_none}
use github_mcp.Requests.Reconcile.{reconcile_in_db, projection, apply_projection}
use github_mcp.Requests.Queries.{by_job_id, insert_event, get_job}
use github_mcp.Jobs.Queue.{
  matching_jobs, upsert_queue_state, free_worker, add_job_event, update_jobs,
}
use github_mcp.Requests.Transition.{cas_update}
use github_mcp.Table.{update}
use github_mcp.Prelude.{refl, inl, inr, none, some}
use github_mcp.Tx.{resume, pure, ok, err, Result, resume, pure, ok, M}

-- Reconciliation writes no job.
reconcile-jobs : (id : String) (now : ℕ) (db : Db) → (reconcile_in_db id now db).1.jobs ≡ db.jobs
unfolding reconcile_in_db apply_projection insert_event cas_update
reconcile-jobs id now db = elim (Option-cases (projection db id now)) [
  | inl e ↦ ground arith
  | inr (q, e) ↦ ground arith
]

complete_row-jobs :
    (id : String) (c : Completion) (now : ℕ) (row : Job) (db : Db)
    → (complete_row id c now row db).jobs
      ≡ update (by_job_id id) (completed_row c now row.started_at) db.jobs
unfolding complete_row upsert_queue_state free_worker add_job_event update_jobs
complete_row-jobs id c now row db = ground arith

release_row-jobs :
    (id : String) (now : ℕ) (row : Job) (db : Db)
    → (release_row id now row db).jobs ≡ update (by_job_id id) (requeued_row now) db.jobs
unfolding release_row upsert_queue_state free_worker add_job_event update_jobs
release_row-jobs id now row db = ground arith

-- No lease is left on the job `id` by an UPDATE that clears its lease columns.
fence-cleared :
    (sha256 : String → String) (id worker token : String) (now : ℕ) (f : Job → Job)
    (jobs : List Job) (db : Db)
    → ((j : Job) → (f j).lease_token_hash ≡ none)
    → db.jobs ≡ update (by_job_id id) f jobs
    → fence sha256 id (some worker) (some token) now db ≡ false
unfolding fence matching_jobs
fence-cleared sha256 id worker token now f jobs db cleared e =
    let none_left =
      count-update_none (owns_lease id worker (sha256 token) now) (by_job_id id) f
        (λ j c. ground arith) (λ j c. ground (arith, cleared j)) jobs in
    rw e (ground (arith, none_left))

resume-pure : {S A B : Type 0} (x : Result A × S) (b : B) → (resume x (λ _. pure b)).1 ≡ x.1
resume-pure (ok a, s) b = refl
resume-pure (err e, s) b = refl

complete_found-jobs :
    (id : String) (c : Completion) (now : ℕ) (row : Job) (db : Db)
    → (complete_found id c now (some row) db).1.jobs
      ≡ update (by_job_id id) (completed_row c now row.started_at) db.jobs
unfolding complete_found
complete_found-jobs id c now row db =
    ap (λ (d : Db). d.jobs)
      (resume-pure (reconcile_in_db id now (complete_row id c now row db)) true)
    ∙ reconcile-jobs id now (complete_row id c now row db)
    ∙ complete_row-jobs id c now row db

module _ (sha256 : String → String) (id : String) (w t : Option String) (now : ℕ)
    (db db' : Db) where
  fenced :
      {B : Type 0} (k : M Db B) (b : B)
      → resume (begin_job_write sha256 id w t now db) (λ _. k) ≡ (ok b, db')
      → k db ≡ (ok b, db')
  unfolding begin_job_write
  fenced k b h = ground arith

  complete_found_of :
      (c : Completion)
      → complete_job sha256 id c w t now db ≡ (ok true, db')
      → (row : Job) × (db'.jobs
          ≡ update (by_job_id id) (completed_row c now row.started_at) db.jobs)
  unfolding complete_job
  complete_found_of c h =
      let k = fenced (λ d. complete_found id c now (get_job d id) d) true h in
      elim (Option-cases (get_job db id)) [
        | inl e ↦ absurd (unfold complete_found in ground arith)
        | inr (row, e) ↦ (
          row,
          ap (λ (x : Result Bool × Db). x.1.jobs) (sym (rw e at k))
              ∙ complete_found-jobs id c now row db,
        )
      ]

  release_found_of :
      release_job sha256 id w t now db ≡ (ok true, db')
      → db'.jobs ≡ update (by_job_id id) (requeued_row now) db.jobs
  unfolding release_job release_found
  release_found_of h =
      let k = fenced (λ d. release_found id now (get_job d id) d) true h in
      elim (Option-cases (get_job db id)) [
        | inl e ↦ absurd (ground arith)
        | inr (row, e) ↦
            ap (λ (x : Result Bool × Db). x.1.jobs) (sym (rw e at k))
            ∙ release_row-jobs id now row db
      ]

  -- Once a completion or a release of a job has been accepted, no Worker and no token owns a lease
  -- on it in the database that it leaves, at any time.
  pub attempt_ends :
      (c : Completion) (worker token : String) (later : ℕ)
      → (complete_job sha256 id c w t now db ≡ (ok true, db'))
        ⊎ (release_job sha256 id w t now db ≡ (ok true, db'))
      → fence sha256 id (some worker) (some token) later db' ≡ false
  attempt_ends c worker token later (inl h) =
      let (row, e) = complete_found_of c h in
      fence-cleared sha256 id worker token later (completed_row c now row.started_at) db.jobs db'
        (λ j. refl) e
  attempt_ends c worker token later (inr h) =
      fence-cleared sha256 id worker token later (requeued_row now) db.jobs db' (λ j. refl)
        (release_found_of h)
