-- ===== src/Convergence/StepsCreate.antt =====
-- `create_or_get_convergence` is a change, in the sense of Convergence/Changes.
use github_mcp.Convergence.{RunDb, active_row, stored_run, get_row}
use github_mcp.Convergence.Writes.{insert_run_event}
use github_mcp.Convergence.Create.{
  create_or_get_convergence, create_run_body, create_unkeyed, create_new, insert_accepted_run,
  insert_run, accepted_run, created_event, pending_rows, NewRun, RunReply, RunIdentity, key_of,
  keyed_run, reply_keyed, reply_active, validate_create_identity, request_identity,
}
use github_mcp.Convergence.Changes.{RunChange, still, opened}
use github_mcp.Convergence.Steps.{atomically-RunChange, guarded-RunChange}
use github_mcp.Prelude.{
  refl, none, inl, inr, ◌∷◌, ◌++◌, String, ℕ, ◌≡◌, arith, Option-cases, sym, ap, ◌∙◌,
}
use github_mcp.Tx.{ok, Result, resume-ok, reading-ok}

pub insert_accepted_run-ok :
    (id hash : String) (n : NewRun) (now : ℕ) (db db' : RunDb)
    → insert_accepted_run id hash n now db ≡ (ok tt, db')
    → (stored_run db id ≡ none)
      × (db' ≡ record db {
        convergences = accepted_run id hash n now ∷ db.convergences;
        analysis = pending_rows id now ++ db.analysis;
        events = created_event id now ∷ db.events;
      })
unfolding insert_accepted_run insert_run insert_run_event
insert_accepted_run-ok id hash n now db db' h = ground arith

create_new-RunChange :
    (id hash : String) (n : NewRun) (now : ℕ) (db db' : RunDb) (r : RunReply)
    → active_row db (key_of n) ≡ none
    → create_new id hash n now db ≡ (ok r, db')
    → RunChange db db'
unfolding create_new
create_new-RunChange id hash n now db db' r free h =
    let (a, s, w, k) = resume-ok (insert_accepted_run id hash n now db) _ r db' h in
    let (fresh, e) = insert_accepted_run-ok id hash n now db s w in
    let (row, got, k') = reading-ok (get_row s id) _ r s db' k in
    let same : s ≡ db' = ap (λ (x : Result RunReply × RunDb). x.1) k' in
    let e' = sym same ∙ e in
    opened (accepted_run id hash n now) (created_event id now)
      (record {
        fresh = fresh;
        unique = free;
        revision = refl;
        event_id = refl;
        event_revision = refl;
        from_phase = refl;
        to_phase = refl;
      })
      (ap (λ (d : RunDb). d.convergences) e') (ap (λ (d : RunDb). d.events) e')

-- A reply from a stored row only reads.
read_reply-RunChange :
    (r : Result RunReply) (db db' : RunDb) (x : RunReply)
    → ◌≡◌ {A = Result RunReply × RunDb} (r, db) (ok x, db')
    → RunChange db db'
read_reply-RunChange r db db' x h =
    let e = sym (ap (λ (x : Result RunReply × RunDb). x.1) h) in
    still (ap (λ (d : RunDb). d.convergences) e) (ap (λ (d : RunDb). d.events) e)

create_unkeyed-RunChange :
    (id hash : String) (n : NewRun) (now : ℕ) (db db' : RunDb) (r : RunReply)
    → create_unkeyed id hash n now db ≡ (ok r, db')
    → RunChange db db'
unfolding create_unkeyed
create_unkeyed-RunChange id hash n now db db' r h = elim (Option-cases (active_row db (key_of n))) [
  | inl e ↦ create_new-RunChange id hash n now db db' r e (rw (e, create_unkeyed) at h)
  | inr (a, e) ↦ read_reply-RunChange (reply_active n a db) db db' r (rw (e, create_unkeyed) at h)
]

create_body-RunChange :
    (id hash : String) (n : NewRun) (now : ℕ) (db db' : RunDb) (r : RunReply)
    → create_run_body id hash n now db ≡ (ok r, db')
    → RunChange db db'
unfolding create_run_body
create_body-RunChange id hash n now db db' r h = elim (Option-cases (keyed_run n db)) [
  | inl e ↦ create_unkeyed-RunChange id hash n now db db' r (rw (e, create_run_body) at h)
  | inr (a, e) ↦
      read_reply-RunChange (reply_keyed hash a db) db db' r (rw (e, create_run_body) at h)
]

pub create_run-RunChange :
    (digest : RunIdentity → String) (id : String) (n : NewRun) (now : ℕ) (db : RunDb)
    → RunChange db (create_or_get_convergence digest id n now db).1
unfolding create_or_get_convergence
create_run-RunChange digest id n now db = guarded-RunChange db (validate_create_identity n) _ λ _.
    atomically-RunChange db (create_run_body id (digest (request_identity n)) n now)
      λ r db' h. create_body-RunChange id (digest (request_identity n)) n now db db' r h
