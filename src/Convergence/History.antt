-- ===== src/Convergence/History.antt =====
-- The history of a convergence run: its events, the newest first, with revisions that count down
-- to 0, each starting at the phase where the one below it ended.
use github_mcp.Convergence.{RunDb, Convergence, ConvergenceEvent, RunPhase, stored_run, by_run_id}
use github_mcp.Convergence.Writes.{at_revision}
use github_mcp.Convergence.Changes.{RunChange, still, stepped, opened, IsStep, IsOpened}
use github_mcp.Convergence.Progress.{stepped_self, stepped_other, opened_get}
use github_mcp.Prelude.{
  [], none, some, inl, inr, ◌∷◌, ℕ, List, String, ◌≡◌, if◌then◌else◌, Bool-cases, some_inj, str_eq,
  Option, Bool, subst, str_eq_refl, suc, ◌<◌, ap, false, sym, arith, str_eq_iff, ◌∙◌, ◌==◌,
}
use github_mcp.Table.{find, select, update}
use github_mcp.Table.Keys.{IsKeyed, IsKeyed-update}

abbrev pub History : List ConvergenceEvent → ℕ → Option RunPhase → Type 0
History [] n p = ⊥
History (e ∷ []) n p = (n ≡ 0) × (e.revision ≡ 0) × (e.from_phase ≡ none) × (e.to_phase ≡ p)
History (e ∷ f ∷ es) n p =
    (n ≡ suc f.revision)
    × (e.revision ≡ n)
    × (e.from_phase ≡ f.to_phase)
    × (e.to_phase ≡ p)
    × History (f ∷ es) f.revision f.to_phase

History-head :
    (f : ConvergenceEvent) (es : List ConvergenceEvent) (n : ℕ) (p : Option RunPhase)
    → History (f ∷ es) n p
    → (f.revision ≡ n) × (f.to_phase ≡ p)
History-head f [] n p h = ground arith
History-head f (g ∷ es) n p h = (h.1, h.3)

History-extend :
    (e : ConvergenceEvent) (es : List ConvergenceEvent) (n : ℕ) (p q : Option RunPhase)
    → History es n p
    → e.revision ≡ suc n
    → e.from_phase ≡ p
    → e.to_phase ≡ q
    → History (e ∷ es) (suc n) q
History-extend e [] n p q h a b c = absurd h
History-extend e (f ∷ es) n p q h a b c =
    let (r, t) = History-head f es n p h in
    (
      ap suc (sym r),
      a,
      b ∙ sym t,
      c,
      subst (λ k. History (f ∷ es) k f.to_phase) (sym r)
          (subst (λ x. History (f ∷ es) n x) (sym t) h),
    )

-- No event is newer than the history.
pub History-bounds :
    (k : ℕ) (es : List ConvergenceEvent) (n : ℕ) (p : Option RunPhase)
    → History es n p
    → n < k
    → find (λ (e : ConvergenceEvent). e.revision == k) es ≡ none
unfolding find
History-bounds k [] n p h lt = absurd h
History-bounds k (e ∷ []) n p h lt = ground arith
History-bounds k (e ∷ f ∷ es) n p h lt =
    let below = History-bounds k (f ∷ es) f.revision f.to_phase h.4 (omega arith) in
    ground (arith, below)

abbrev pub by_event_run : String → ConvergenceEvent → Bool
by_event_run id e = str_eq e.convergence_id id

unfoldable pub run_events : RunDb → String → List ConvergenceEvent
run_events db id = select (by_event_run id) db.events

abbrev pub run_id_of : Convergence → String
run_id_of r = r.convergence_id

-- Every stored run has its whole history, and no event lacks its run.
pub record IsRecorded (db : RunDb) : Type 0 where
  pub keyed : IsKeyed run_id_of db.convergences
  pub histories :
      (id : String) (r : Convergence)
      → stored_run db id ≡ some r
      → History (run_events db id) r.revision (some r.phase)
  pub orphans : (id : String) → stored_run db id ≡ none → run_events db id ≡ []

events-cons :
    (db db' : RunDb) (e : ConvergenceEvent)
    → db'.events ≡ e ∷ db.events
    → (k : String)
    → run_events db' k
      ≡ (if str_eq e.convergence_id k then e ∷ run_events db k else run_events db k)
unfolding run_events select
events-cons db db' e h k = ap (select (by_event_run k)) h

module _ (db db' : RunDb) (id : String) (row : Convergence) (e : ConvergenceEvent)
    (f : Convergence → Convergence) (s : IsStep db id row e f)
    (a : db'.convergences ≡ update (at_revision id row.revision) f db.convergences)
    (b : db'.events ≡ e ∷ db.events) (v : IsRecorded db) where
  events_self : run_events db' id ≡ e ∷ run_events db id
  events_self = rw (events-cons db db' e b id, s.event_id, str_eq_refl)

  events_other : (k : String) → str_eq id k ≡ false → run_events db' k ≡ run_events db k
  events_other k ne = rw (events-cons db db' e b k, s.event_id, ne)

  History-self : History (run_events db' id) (f row).revision (some (f row).phase)
  History-self =
      rw (events_self, s.revision)
        (History-extend e (run_events db id) row.revision (some row.phase) (some (f row).phase)
          (v.histories id row s.found) s.event_revision s.from_phase s.to_phase)

  History-at :
      (k : String) (r : Convergence)
      → id ≡ k
      → stored_run db' k ≡ some r
      → History (run_events db' k) r.revision (some r.phase)
  History-at k r same h =
      let here : f row ≡ r =
        some_inj (f row) r
          (sym (stepped_self db db' id row e f s a) ∙ ap (stored_run db') same ∙ h) in
      subst (λ i. History (run_events db' i) r.revision (some r.phase)) same
        (subst (λ (x : Convergence). History (run_events db' id) x.revision (some x.phase)) here
          History-self)

  stepped-IsRecorded : IsRecorded db'
  stepped-IsRecorded = record {
    keyed = subst (IsKeyed run_id_of) (sym a) (
        IsKeyed-update run_id_of (at_revision id row.revision) f db.convergences
          (λ x. (s.same x).convergence_id) v.keyed);
    histories = λ k r h. elim (Bool-cases (str_eq id k)) [
      | inl same ↦ History-at k r ((str_eq_iff id k).0 same) h
      | inr ne ↦
          rw (events_other k ne)
            (v.histories k r (sym (stepped_other db db' id row e f s a k ne) ∙ h))
    ];
    orphans = λ k h. elim (Bool-cases (str_eq id k)) [
      | inl same ↦
          absurd (
            cc (stepped_self db db' id row e f s a, ap (stored_run db') ((str_eq_iff id k).0 same)))
      | inr ne ↦
          events_other k ne ∙ v.orphans k (sym (stepped_other db db' id row e f s a k ne) ∙ h)
    ];
  }

module _ (db db' : RunDb) (row : Convergence) (e : ConvergenceEvent) (o : IsOpened db row e)
    (a : db'.convergences ≡ row ∷ db.convergences) (b : db'.events ≡ e ∷ db.events)
    (v : IsRecorded db) where
  opened_events :
      (k : String)
      → run_events db' k
        ≡ (if str_eq row.convergence_id k then e ∷ run_events db k else run_events db k)
  opened_events k = rw (events-cons db db' e b k, o.event_id)

  opened-History :
      (k : String) (r : Convergence)
      → stored_run db' k ≡ some r
      → History (run_events db' k) r.revision (some r.phase)
  opened-History k r h = elim (Bool-cases (str_eq row.convergence_id k)) [
    | inr ne ↦
        rw (opened_events k, ne)
          (v.histories k r (
            ap (λ c. if c then some row else stored_run db k) (sym ne)
            ∙ sym (opened_get db db' row e o a k)
            ∙ h))
    | inl same ↦
        let here : row ≡ r = some_inj row r (sym (rw (opened_get db db' row e o a k, same)) ∙ h) in
        let old : run_events db k ≡ [] = v.orphans k (
          subst (λ i. stored_run db i ≡ none) ((str_eq_iff row.convergence_id k).0 same) o.fresh) in
        rw (opened_events k, same, old, ← here)
          (o.revision, o.event_revision, o.from_phase, o.to_phase)
  ]

  IsKeyed-open : IsKeyed run_id_of db'.convergences
  unfolding stored_run
  IsKeyed-open = subst (IsKeyed run_id_of) (sym a) (o.fresh, v.keyed)

  opened-IsRecorded : IsRecorded db'
  opened-IsRecorded = record {
    keyed = IsKeyed-open;
    histories = opened-History;
    orphans = λ k h. elim (Bool-cases (str_eq row.convergence_id k)) [
      | inl same ↦ absurd (cc (opened_get db db' row e o a k, same))
      | inr ne ↦
          rw (opened_events k, ne) (v.orphans k (sym (rw (opened_get db db' row e o a k, ne)) ∙ h))
    ];
  }

still-IsRecorded :
    (db db' : RunDb)
    → db'.convergences ≡ db.convergences
    → db'.events ≡ db.events
    → IsRecorded db
    → IsRecorded db'
unfolding stored_run run_events
still-IsRecorded db db' a b v = record {
  keyed = subst (IsKeyed run_id_of) (sym a) v.keyed;
  histories = λ k r h. rw b (v.histories k r (ap (find (by_run_id k)) (sym a) ∙ h));
  orphans = λ k h. rw b (v.orphans k (ap (find (by_run_id k)) (sym a) ∙ h));
}

pub RunChange-IsRecorded : {db db' : RunDb} → RunChange db db' → IsRecorded db → IsRecorded db'
RunChange-IsRecorded {db} {db'} (still a b) v = still-IsRecorded db db' a b v
RunChange-IsRecorded {db} {db'} (stepped id row e f s a b) v =
    stepped-IsRecorded db db' id row e f s a b v
RunChange-IsRecorded {db} {db'} (opened r e o a b) v = opened-IsRecorded db db' r e o a b v
