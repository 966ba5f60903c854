-- ===== src/Jobs/Leasing.antt =====
-- What `lease_job` hands out: the first candidate of the queue's order, within the Worker's
-- capacity.
use github_mcp.Jobs.Lease.{next_job, running_count, is_candidate, goes_before, leased_row}
use github_mcp.Prelude.{String, List, ℕ, ◌≡◌, some, true, false, arith, ◌+◌, none, ◌≤◌}
use github_mcp.Schema.{Db, Job}
use github_mcp.Table.{find, select}
use github_mcp.Table.Counts.{first_by-first}

module _ (db : Db) where
  before_asym : (a b : Job) → goes_before db a b ≡ true → goes_before db b a ≡ false
  unfolding goes_before
  before_asym a b h = ground arith

  before_trans :
      (a b c : Job)
      → goes_before db a b ≡ false
      → goes_before db b c ≡ false
      → goes_before db a c ≡ false
  unfolding goes_before
  before_trans a b c h k = ground arith

  pub next_job-first :
      (profiles : List String) (row : Job)
      → next_job profiles db ≡ some row
      → find (λ j. goes_before db j row) (select (is_candidate profiles) db.jobs) ≡ none
  unfolding next_job
  next_job-first profiles row h =
      first_by-first (goes_before db) before_asym before_trans
        (select (is_candidate profiles) db.jobs) row h

-- What a successful `lease_job` has done.
pub record IsLease (sha256 : String → String) (worker token : String) (profiles : List String)
    (max_concurrent now : ℕ) (db db' : Db) (j : Job) : Type 0 where
  pub row : Job
  pub next : next_job profiles db ≡ some row
  pub first : find (λ k. goes_before db k row) (select (is_candidate profiles) db.jobs) ≡ none
  pub leased : j ≡ leased_row worker (sha256 token) now row
  pub one_more : running_count worker db' ≡ running_count worker db + 1
  pub within : running_count worker db' ≤ max_concurrent
