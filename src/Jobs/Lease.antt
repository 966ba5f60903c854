-- ===== src/Jobs/Lease.antt =====
-- Leases, app/ci_database.py: `lease_job`, `_begin_job_write`, `renew_lease`, `need_heartbeat`.
-- `sha256` is hashlib's digest; tokens and their digests are texts.
use github_mcp.Table.{find, select, first_by, count}
use github_mcp.Prelude.{
  List, String, Option, ℕ, if◌then◌else◌, Bool, none, some, false, str_eq, col_eq, ltb, ◌&&◌, true,
  ◌+◌, ◌||◌, ◌∷◌, ◌==◌, leb, not, any, [],
}
use github_mcp.Schema.{Db, Job, is_queued, JobStatus, is_active, JobEventKind, pos}
use github_mcp.Jobs.Queue.{
  matching_jobs, add_job_event, update_jobs, set_worker_busy, upsert_queue_state, minus_one,
}
use github_mcp.Jobs.Create.{queued_at_id}
use github_mcp.Tx.{M, ok, err, stale_job_lease}

abbrev pub held_by : String → Job → Bool
held_by worker_id j = col_eq j.worker_id worker_id && is_active j.status

-- SELECT COUNT(*) … WHERE worker_id = ? AND status IN (active)
unfoldable pub running_count : String → Db → ℕ
running_count worker_id db = count (held_by worker_id) db.jobs

abbrev pub is_candidate : List String → Job → Bool
is_candidate profiles j = is_queued j.status && any (λ p. str_eq j.profile p) profiles

-- COALESCE(rqs.last_dispatched_at, 0)
unfoldable pub last_dispatched : Db → Job → ℕ
last_dispatched db j = elim (find (λ q. str_eq q.repository j.repository) db.queue_states) [
  | none ↦ 0
  | some q ↦ q.last_dispatched_at
]

-- ORDER BY j.priority DESC, repo_last_dispatched ASC, j.created_at ASC; ties stand in the table's
-- order, the newest first.
unfoldable pub goes_before : Db → Job → Job → Bool
goes_before db a b =
    let da = last_dispatched db a in
    let db' = last_dispatched db b in
    ltb b.priority a.priority
    || (a.priority == b.priority) && (ltb da db' || (da == db') && ltb a.created_at b.created_at)

unfoldable pub next_job : List String → Db → Option Job
next_job profiles db = first_by (goes_before db) (select (is_candidate profiles) db.jobs)

abbrev pub lease_seconds : ℕ
lease_seconds = 120

abbrev pub leased_row : (worker_id token_hash : String) → (now : ℕ) → Job → Job
leased_row worker_id token_hash now j = record j {
  status = JobStatus.leased;
  worker_id = some worker_id;
  lease_token_hash = some token_hash;
  lease_expires_at = some (now + lease_seconds);
  attempts = j.attempts + 1;
  started_at = some now;
}

-- The writes for the chosen row; a rowcount other than 1 rolls back and returns None.
unfoldable pub lease_row : (worker_id token_hash : String) → (now : ℕ) → Job → Db → Option Job × Db
lease_row worker_id token_hash now row db =
    if matching_jobs (queued_at_id row.job_id) db == 1
    then (
      some (leased_row worker_id token_hash now row),
      add_job_event row.job_id (JobEventKind.leased worker_id (row.attempts + 1)) now (
          set_worker_busy worker_id row.job_id (
            upsert_queue_state row.repository minus_one (pos 1) (some now)
              (update_jobs (queued_at_id row.job_id) (leased_row worker_id token_hash now) db))),
    )
    else (none, db)

-- lease_job, to the row that was leased. `token` is the new lease token.
unfoldable pub lease_job :
    (sha256 : String → String)
    → (worker_id token : String) → (profiles : List String) → (max_concurrent now : ℕ) → Db
    → Option Job × Db
lease_job sha256 worker_id token [] max_concurrent now db = (none, db)
lease_job sha256 worker_id token (p ∷ ps) max_concurrent now db =
    if leb max_concurrent (running_count worker_id db)
    then (none, db)
    else elim (next_job (p ∷ ps) db) [
      | none ↦ (none, db)
      | some row ↦ lease_row worker_id (sha256 token) now row db
    ]

-- lease_expires_at > now; never true of NULL.
abbrev pub lease_alive : Option ℕ → (now : ℕ) → Bool
lease_alive none now = false
lease_alive (some t) now = ltb now t

-- The fence of `_begin_job_write`.
abbrev pub owns_lease : (job_id worker_id token_hash : String) → (now : ℕ) → Job → Bool
owns_lease job_id worker_id token_hash now j =
    str_eq j.job_id job_id
    && col_eq j.worker_id worker_id
    && col_eq j.lease_token_hash token_hash
    && lease_alive j.lease_expires_at now
    && is_active j.status

-- worker_id and lease_token, where a caller gives either.
unfoldable pub fence :
    (sha256 : String → String) → String → (worker_id token : Option String) → (now : ℕ) → Db → Bool
fence sha256 job_id none none now db = true
fence sha256 job_id none (some token) now db = false
fence sha256 job_id (some worker) none now db = false
fence sha256 job_id (some worker) (some token) now db =
    not (str_eq worker "")
    && not (str_eq token "")
    && (matching_jobs (owns_lease job_id worker (sha256 token) now) db == 1)

-- _begin_job_write: the UPDATE that it makes writes back the value that is there.
unfoldable pub begin_job_write :
    (sha256 : String → String)
    → String
    → (worker_id token : Option String) → (now : ℕ) → M Db (Unit {0})
begin_job_write sha256 job_id worker_id token now db =
    ((if fence sha256 job_id worker_id token now db then ok tt else err stale_job_lease), db)

-- The WHERE of `renew_lease`; an empty worker id matches any worker.
abbrev pub renews : (job_id token_hash worker_id : String) → (now : ℕ) → Job → Bool
renews job_id token_hash worker_id now j =
    str_eq j.job_id job_id
    && col_eq j.lease_token_hash token_hash
    && lease_alive j.lease_expires_at now
    && is_active j.status
    && (str_eq worker_id "" || col_eq j.worker_id worker_id)

abbrev pub renewed_row : (now : ℕ) → Job → Job
renewed_row now j = record j { lease_expires_at = some (now + lease_seconds) }

-- renew_lease
unfoldable pub renew_lease :
    (sha256 : String → String) → (job_id token worker_id : String) → (now : ℕ) → Db → Bool × Db
renew_lease sha256 job_id token worker_id now db =
    if str_eq token ""
    then (false, db)
    else let p = renews job_id (sha256 token) worker_id now in
      (matching_jobs p db == 1, update_jobs p (renewed_row now) db)

-- need_heartbeat: whether the Worker must give the job up.
unfoldable pub need_heartbeat : String → Db → Bool
need_heartbeat job_id db = elim (find (λ j. str_eq j.job_id job_id && is_active j.status) db.jobs) [
  | none ↦ true
  | some j ↦ j.is_cancel_requested
]
