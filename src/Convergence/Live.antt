-- ===== src/Convergence/Live.antt =====
-- `transition_convergence` on a recorded database: its success, and the refusal of a stale revision.
use github_mcp.Table.{find, select, count, update}
use github_mcp.Convergence.History.{IsRecorded, run_events, run_id_of, by_event_run, History-bounds}
use github_mcp.Prelude.{
  String, ◌≡◌, Bool, List, some, none, ◌&&◌, str_eq, ◌∷◌, ◌==◌, Bool-cases, suc, inl, arith, inr, ℕ,
  str_eq_iff, [], refl, false, ap, ◌∙◌,
}
use github_mcp.Convergence.Writes.{
  write_run, at_revision, cas_run, insert_run_event, event_of, RunTarget, transition_convergence,
  run_transition_body, transitioned_run,
}
use github_mcp.Table.Laws.{find_sound}
use github_mcp.Table.Keys.{count-key}
use github_mcp.Tx.{ok, atomically, err, revision_conflict, Result}
use github_mcp.Convergence.Changes.{stored_run-update}
use github_mcp.Convergence.Steps.{run_id}
use github_mcp.Convergence.{
  RunDb, Convergence, stored_run, by_run_id, ConvergenceEvent, get_row, public_view, analysis_rows,
  require_revision, Public,
}

find_both-none :
    {A : Type 0} (p q : A → Bool) (xs : List A)
    → find q (select p xs) ≡ none
    → find (λ x. p x && q x) xs ≡ none
unfolding find select
find_both-none p q [] h = refl
find_both-none p q (x ∷ xs) h = elim (Bool-cases (p x)) [
  | inl e ↦ elim (Bool-cases (q x)) [
    | inl c ↦ absurd (ground arith)
    | inr c ↦ let rest = find_both-none p q xs (ground arith) in ground (arith, rest)
  ]
  | inr e ↦ let rest = find_both-none p q xs (ground arith) in ground (arith, rest)
]

module _ (db : RunDb) (v : IsRecorded db) (id : String) (row : Convergence)
    (found : stored_run db id ≡ some row) where
  no_later_event :
      find
        (λ (x : ConvergenceEvent). str_eq x.convergence_id id && (x.revision == suc row.revision))
        db.events
      ≡ none
  unfolding run_events
  no_later_event =
      find_both-none (by_event_run id) (λ (x : ConvergenceEvent). x.revision == suc row.revision)
        db.events
        (History-bounds (suc row.revision) (run_events db id) row.revision (some row.phase)
          (v.histories id row found) (omega arith))

  one_row : count (at_revision id row.revision) db.convergences ≡ 1
  unfolding stored_run
  one_row =
      let at = find_sound (by_run_id id) db.convergences row found in
      count-key run_id_of (at_revision id row.revision) (by_run_id id) db.convergences row v.keyed
        (λ x c.
          ground (arith, str_eq_iff x.convergence_id id, str_eq_iff row.convergence_id id, at))
        (ground (arith, at)) found

  write_run_lem :
      (event_type : String) (now : ℕ) (f : Convergence → Convergence)
      → ((r : Convergence) → (f r).convergence_id ≡ r.convergence_id)
      → (f row).revision ≡ suc row.revision
      → write_run id row.revision event_type now row f db ≡ (
        ok (public_view db (f row)),
        record db {
          convergences = update (at_revision id row.revision) f db.convergences;
          events = event_of event_type now row (f row) ∷ db.events;
        },
      )
  unfolding write_run cas_run insert_run_event get_row stored_run public_view analysis_rows
  write_run_lem event_type now f same grows =
      let after = stored_run-update db id row f db.convergences same found refl in
      let name = run_id db id row found in
      ground (arith, after, one_row, no_later_event, same row, grows, name)

transition_convergence_lem :
    (db : RunDb) (id : String) (row : Convergence) (t : RunTarget) (now : ℕ)
    → IsRecorded db
    → stored_run db id ≡ some row
    → row.terminal ≡ false
    → transition_convergence id row.revision t now db ≡ (
      ok (public_view db (transitioned_run t now row)),
      record db {
        convergences =
            update (at_revision id row.revision) (transitioned_run t now) db.convergences;
        events = event_of t.event_type now row (transitioned_run t now row) ∷ db.events;
      },
    )
unfolding transition_convergence run_transition_body atomically require_revision get_row
transition_convergence_lem db id row t now v found live =
    let w =
      write_run_lem db v id row found t.event_type now (transitioned_run t now) (λ r. refl)
        (omega arith) in
    ground (arith, w)

stale_transition :
    (id : String) (t : RunTarget) (n now : ℕ) (db : RunDb) (row : Convergence)
    → stored_run db id ≡ some row
    → row.revision ≡ suc n
    → transition_convergence id n t now db ≡ (err revision_conflict, db)
unfolding transition_convergence run_transition_body atomically require_revision get_row
stale_transition id t n now db row found newer = ground arith

-- On recorded tables a transition of a stored live convergence at its own revision succeeds, for any
-- phase: it returns and stores the row with the target's phase, status and error, at the next
-- revision; and a second transition that still expects the old revision is refused with a revision
-- conflict and changes nothing.
pub transition_convergence_once :
    (db : RunDb) (id : String) (row : Convergence) (t t' : RunTarget) (now later : ℕ)
    → IsRecorded db
    → stored_run db id ≡ some row
    → row.terminal ≡ false
    → ((transition_convergence id row.revision t now db).0
        ≡ ok (public_view db (transitioned_run t now row)))
      × (stored_run (transition_convergence id row.revision t now db).1 id
          ≡ some (transitioned_run t now row))
      × (transition_convergence id row.revision t' later
            (transition_convergence id row.revision t now db).1
          ≡ (err revision_conflict, (transition_convergence id row.revision t now db).1))
unfolding stored_run
transition_convergence_once db id row t t' now later v found live =
    let done = transition_convergence_lem db id row t now v found live in
    let after : stored_run (transition_convergence id row.revision t now db).1 id
        ≡ some (transitioned_run t now row) =
      ap (λ (x : Result Public × RunDb). find (by_run_id id) x.1.convergences) done
      ∙ stored_run-update db id row (transitioned_run t now) db.convergences (λ r. refl) found
          refl in
    (
      ap (λ (x : Result Public × RunDb). x.0) done,
      after,
      stale_transition id t' row.revision later (transition_convergence id row.revision t now db).1
          (transitioned_run t now row) after (omega arith),
    )
