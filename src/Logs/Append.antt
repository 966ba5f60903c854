-- ===== src/Logs/Append.antt =====
-- What one append to a log returns and writes, and the same batch sent again.
use github_mcp.Logs.Text.{
  log_text, IsLog, text_self, length_append, last_offset-IsTiled, text_other,
}
use github_mcp.Prelude.{
  String, List, ℕ, Option, ◌≡◌, ◌++◌, length, ◌∷◌, str_eq, true, ◌+◌, arith, false, ◌∙◌, is_some,
  ap, sym, str_eq_refl,
}
use github_mcp.Jobs.Lease.{begin_job_write}
use github_mcp.Tx.{ok}
use github_mcp.Logs.Growth.{LogOp, run_logs, run_logs-KeepsBatches}
use github_mcp.Table.{find}
use github_mcp.Logs.{
  LogDb, append_log_chunk, insert_chunk, new_chunk, last_offset, job_chunks, append_log_batch,
  append_batch_row, append_new_batch, by_batch,
}

chunk_written :
    (sha256 : String → String) (id : String) (c : List ℕ) (w t : Option String) (now n : ℕ)
    (s s' : LogDb)
    → append_log_chunk sha256 id c w t now s ≡ (ok n, s')
    → (s'.chunks ≡ new_chunk id c now s ∷ s.chunks) × (n ≡ last_offset (job_chunks id s) + length c)
unfolding append_log_chunk begin_job_write insert_chunk
chunk_written sha256 id c w t now n s s' h = ground arith

-- On whole logs a chunk that is appended adds its content at the end of the job's log and to the
-- log of no other job, and the returned offset is the length of the log.
pub append_log_chunk-text :
    (sha256 : String → String) (id other : String) (content : List ℕ)
    (worker_id token : Option String) (now n : ℕ) (s s' : LogDb)
    → IsLog s
    → str_eq id other ≡ false
    → append_log_chunk sha256 id content worker_id token now s ≡ (ok n, s')
    → (log_text id s' ≡ log_text id s ++ content)
      × (n ≡ length (log_text id s'))
      × (log_text other s' ≡ log_text other s)
append_log_chunk-text sha256 id other content w t now n s s' v ne h =
    let (e, offset) = chunk_written sha256 id content w t now n s s' h in
    let text = text_self id content now s s' e in
    let joined = length_append (log_text id s) content in
    let last : last_offset (job_chunks id s) ≡ length (log_text id s) =
      unfold log_text in last_offset-IsTiled (job_chunks id s) (v id) in
    (
      text,
      offset ∙ ap (λ k. k + length content) last ∙ sym joined ∙ ap length (sym text),
      text_other id content now s s' e other ne,
    )

batch_recorded :
    (sha256 : String → String) (id b : String) (c : List ℕ) (w t : Option String) (now n : ℕ)
    (s s' : LogDb)
    → append_log_batch sha256 id b c w t now s ≡ (ok (n, false), s')
    → is_some (find (by_batch id b) s'.batches) ≡ true
unfolding append_log_batch begin_job_write append_batch_row append_new_batch insert_chunk find
batch_recorded sha256 id b c w t now n s s' h = ground (arith, str_eq_refl id, str_eq_refl b)

resent :
    (sha256 : String → String) (id b : String) (c : List ℕ) (w t : Option String) (now : ℕ)
    (s : LogDb)
    → is_some (find (by_batch id b) s.batches) ≡ true
    → (append_log_batch sha256 id b c w t now s).1 ≡ s
unfolding append_log_batch begin_job_write append_batch_row
resent sha256 id b c w t now s h = ground arith

-- A batch that was appended is appended once: sent again after any operations, under any lease and
-- with any content, it changes no table.
pub append_log_batch_once :
    (sha256 : String → String) (id b : String) (c c' : List ℕ) (w t w' t' : Option String)
    (now later n : ℕ) (ops : List (LogOp × ℕ)) (s s' : LogDb)
    → append_log_batch sha256 id b c w t now s ≡ (ok (n, false), s')
    → (append_log_batch sha256 id b c' w' t' later (run_logs sha256 ops s')).1
      ≡ run_logs sha256 ops s'
append_log_batch_once sha256 id b c c' w t w' t' now later n ops s s' h =
    resent sha256 id b c' w' t' later (run_logs sha256 ops s')
      (run_logs-KeepsBatches sha256 ops s' id b (batch_recorded sha256 id b c w t now n s s' h))
