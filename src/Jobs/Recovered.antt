-- ===== src/Jobs/Recovered.antt =====
-- `recover_worker_jobs` leaves the Worker without an active job.
use github_mcp.Jobs.Recover.{
  recover_worker_jobs, recover_rows, recover_one, recovered_row, is_exhausted,
}
use github_mcp.Jobs.Lease.{held_by, running_count}
use github_mcp.Prelude.{
  Bool, String, List, ◌≡◌, ℕ, ◌&&◌, true, false, any, not, ◌∷◌, refl, str_eq, arith, Bool-cases,
  inl, [], str_eq_refl, inr,
}
use github_mcp.Jobs.Queue.{set_worker_idle, upsert_queue_state, add_job_event, update_jobs}
use github_mcp.Schema.{Job, Db}
use github_mcp.Requests.Queries.{by_job_id}
use github_mcp.Table.{count, update, select}

module _ {ℓ} {A : Type ℓ} where
  -- An UPDATE that takes rows out of `p`, where what stays in `p` was in `p'`.
  count-update_into :
      (p p' q : A → Bool) (f : A → A)
      → ((x : A) → q x ≡ true → p (f x) ≡ false)
      → ((x : A) → q x ≡ false → p' x ≡ false → p x ≡ false)
      → (xs : List A) → count p' xs ≡ 0
      → count p (update q f xs) ≡ 0
  unfolding count update
  count-update_into p p' q f out stays [] h = refl
  count-update_into p p' q f out stays (x ∷ xs) h =
      let rest = count-update_into p p' q f out stays xs in ground (arith, rest, out x, stays x)

abbrev listed : List Job → String → Bool
listed rows id = any (λ r. str_eq id r.job_id) rows

-- A job of the Worker that is not among the rows still to be recovered.
abbrev left_over : String → List Job → Job → Bool
left_over worker rows j = held_by worker j && not (listed rows j.job_id)

count-left_over :
    (worker : String) (rows xs : List Job)
    → ((id : String) → listed (select (held_by worker) xs) id ≡ true → listed rows id ≡ true)
    → count (left_over worker rows) xs ≡ 0
unfolding count select
count-left_over worker rows [] h = refl
count-left_over worker rows (x ∷ xs) h = elim (Bool-cases (held_by worker x)) [
  | inl e ↦
      let rest = count-left_over worker rows xs (λ id k. h id (ground arith)) in
      let here = h x.job_id (ground (arith, str_eq_refl x.job_id)) in ground arith
  | inr e ↦ let rest = count-left_over worker rows xs (λ id k. h id (ground arith)) in ground arith
]

recovered-free :
    (worker : String) (now : ℕ) (b : Bool) (j : Job)
    → held_by worker (recovered_row now b j) ≡ false
recovered-free worker now true j = refl
recovered-free worker now false j = refl

recover_one-jobs :
    (worker : String) (now : ℕ) (row : Job) (db : Db)
    → (recover_one worker now row db).jobs
      ≡ update (by_job_id row.job_id) (recovered_row now (is_exhausted row)) db.jobs
unfolding recover_one upsert_queue_state add_job_event update_jobs
recover_one-jobs worker now row db = ground arith

count-nothing_left :
    (worker : String) (xs : List Job)
    → count (left_over worker []) xs ≡ 0
    → count (held_by worker) xs ≡ 0
unfolding count
count-nothing_left worker [] h = refl
count-nothing_left worker (x ∷ xs) h =
    let rest = count-nothing_left worker xs in ground (arith, rest)

count-recover_rows :
    (worker : String) (now : ℕ) (rows : List Job) (db : Db)
    → count (left_over worker rows) db.jobs ≡ 0
    → count (held_by worker) (recover_rows worker now rows db).jobs ≡ 0
unfolding recover_rows
count-recover_rows worker now [] db h = count-nothing_left worker db.jobs h
count-recover_rows worker now (row ∷ rest) db h =
    count-recover_rows worker now rest (recover_one worker now row db) (
      rw (recover_one-jobs worker now row db) (
        count-update_into (left_over worker rest) (left_over worker (row ∷ rest))
          (by_job_id row.job_id) (recovered_row now (is_exhausted row))
          (λ x c. ground (arith, recovered-free worker now (is_exhausted row) x))
          (λ x c k. ground arith) db.jobs h))

-- After the recovery of a Worker that is gone, no job is active under its name.
pub recover_worker-running_count :
    (worker : String) (now : ℕ) (db : Db)
    → running_count worker (recover_worker_jobs worker now db).1 ≡ 0
unfolding running_count recover_worker_jobs set_worker_idle
recover_worker-running_count worker now db =
    count-recover_rows worker now (select (held_by worker) db.jobs) db
      (count-left_over worker (select (held_by worker) db.jobs) db.jobs (λ id h. h))
