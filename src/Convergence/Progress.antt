-- ===== src/Convergence/Progress.antt =====
-- What a change of the convergence tables leaves of a stored run.
use mathlib.Core.Option
use github_mcp.Table.{find, update}
use github_mcp.Convergence.Writes.{at_revision}
use github_mcp.Table.Laws.{find-update, find_sound}
use github_mcp.Convergence.{RunDb, Convergence, stored_run, by_run_id, ConvergenceEvent}
use github_mcp.Convergence.Changes.{
  RunChange, still, stepped, opened, SameRun, Keeps, Kept, IsStep, IsOpened, stored_run-update,
}
use github_mcp.Table.{find}
use github_mcp.Prelude.{
  refl, some, inl, inr, ◌∷◌, String, arith, ◌≤◌, ◌≡◌, ap, ◌∙◌, cond_row, Bool-cases, if◌then◌else◌,
  Option, str_eq, truthy, false, str_eq_iff, some_inj, Option-cases, sym, subst,
}

-- `r'` is `r` at the same time or later.
pub record IsRunLater (r' r : Convergence) : Type 0 where
  pub same : SameRun r' r
  pub keeps : Keeps r' r
  pub revision : r.revision ≤ r'.revision
  pub unchanged : r'.revision ≡ r.revision → r' ≡ r

pub IsRunLater-refl : (r : Convergence) → IsRunLater r r
IsRunLater-refl r = ground arith

Kept-trans : (a b c : Option String) → Kept a b → Kept b c → Kept a c
Kept-trans a b c x y h = let e = y h in x (ap truthy e ∙ h) ∙ e

Keeps-trans : (a b c : Convergence) → Keeps a b → Keeps b c → Keeps a c
Keeps-trans a b c x y = record {
  index_job_id =
      Kept-trans a.index_job_id b.index_job_id c.index_job_id x.index_job_id y.index_job_id;
  ci_request_id =
      Kept-trans a.ci_request_id b.ci_request_id c.ci_request_id x.ci_request_id y.ci_request_id;
  ci_job_id = Kept-trans a.ci_job_id b.ci_job_id c.ci_job_id x.ci_job_id y.ci_job_id;
  attestation_id =
      Kept-trans a.attestation_id b.attestation_id c.attestation_id x.attestation_id
        y.attestation_id;
  failure_pack_id =
      Kept-trans a.failure_pack_id b.failure_pack_id c.failure_pack_id x.failure_pack_id
        y.failure_pack_id;
  terminal = λ h. x.terminal (y.terminal h);
  phase = λ h. x.phase (y.terminal h) ∙ y.phase h;
  status = λ h. x.status (y.terminal h) ∙ y.status h;
}

SameRun-trans : (a b c : Convergence) → SameRun a b → SameRun b c → SameRun a c
SameRun-trans a b c x y = ground arith

pub IsRunLater-trans : (a b c : Convergence) → IsRunLater a b → IsRunLater b c → IsRunLater a c
IsRunLater-trans a b c x y = record {
  same = SameRun-trans a b c x.same y.same;
  keeps = Keeps-trans a b c x.keeps y.keeps;
  revision = omega (arith, x.revision, y.revision);
  unchanged = λ h.
      x.unchanged (omega (arith, x.revision, y.revision))
      ∙ y.unchanged (omega (arith, x.revision, y.revision));
}

step-IsRunLater :
    (db : RunDb) (id : String) (row : Convergence) (e : ConvergenceEvent)
    (f : Convergence → Convergence)
    → IsStep db id row e f
    → IsRunLater (f row) row
step-IsRunLater db id row e f s = record {
  same = s.same row;
  keeps = s.keeps;
  revision = omega (arith, s.revision);
  unchanged = λ h. absurd (omega (arith, s.revision));
}

module _ (db db' : RunDb) (id : String) (row : Convergence) (e : ConvergenceEvent)
    (f : Convergence → Convergence) (s : IsStep db id row e f)
    (a : db'.convergences ≡ update (at_revision id row.revision) f db.convergences) where
  pub stepped_self : stored_run db' id ≡ some (f row)
  unfolding stored_run
  stepped_self =
      ap (find (by_run_id id)) a
      ∙ stored_run-update db id row f db.convergences (λ r. (s.same r).convergence_id) s.found refl

  missed :
      (k : String) (r : Convergence)
      → str_eq id k ≡ false
      → stored_run db k ≡ some r
      → at_revision id row.revision r ≡ false
  unfolding stored_run
  missed k r ne h = ground (
    arith,
    find_sound (by_run_id k) db.convergences r h,
    str_eq_iff r.convergence_id k,
    str_eq_iff r.convergence_id id,
    str_eq_iff id k,
  )

  stepped-map :
      (k : String)
      → stored_run db' k ≡ Option.map (cond_row (at_revision id row.revision) f) (stored_run db k)
  unfolding stored_run
  stepped-map k =
      ap (find (by_run_id k)) a
      ∙ find-update (by_run_id k) (at_revision id row.revision) f db.convergences
          (λ x. ap (λ i. str_eq i k) ((s.same x).convergence_id))

  pub stepped_other : (k : String) → str_eq id k ≡ false → stored_run db' k ≡ stored_run db k
  stepped_other k ne = elim (Option-cases (stored_run db k)) [
    | inl h ↦ rw (stepped-map, h)
    | inr (r, h) ↦ rw (stepped-map, h, missed k r ne h)
  ]

  stepped-IsRunLater :
      (k : String) (r : Convergence)
      → stored_run db k ≡ some r
      → (r' : Convergence) × (stored_run db' k ≡ some r') × IsRunLater r' r
  stepped-IsRunLater k r h = elim (Bool-cases (str_eq id k)) [
    | inr ne ↦ (r, stepped_other k ne ∙ h, IsRunLater-refl r)
    | inl same ↦
        let at : id ≡ k = (str_eq_iff id k).0 same in
        let here : row ≡ r = some_inj row r (sym s.found ∙ ap (stored_run db) at ∙ h) in
        (
          f row,
          ap (stored_run db') (sym at) ∙ stepped_self,
          subst (λ x. IsRunLater (f row) x) here (step-IsRunLater db id row e f s),
        )
  ]

module _ (db db' : RunDb) (row : Convergence) (e : ConvergenceEvent) (o : IsOpened db row e)
    (a : db'.convergences ≡ row ∷ db.convergences) where
  pub opened_get :
      (k : String)
      → stored_run db' k ≡ (if str_eq row.convergence_id k then some row else stored_run db k)
  unfolding stored_run find
  opened_get k = ap (find (by_run_id k)) a

  pub opened_other :
      (k : String) (r : Convergence) → stored_run db k ≡ some r → stored_run db' k ≡ some r
  opened_other k r h = elim (Bool-cases (str_eq row.convergence_id k)) [
    | inr ne ↦ rw (opened_get k, ne) h
    | inl same ↦
        absurd (cc (o.fresh, ap (stored_run db) ((str_eq_iff row.convergence_id k).0 same)))
  ]

-- A run that is stored before a change is stored after it, the same or later.
pub RunChange-IsRunLater :
    {db db' : RunDb}
    → RunChange db db'
    → (id : String) (r : Convergence) → stored_run db id ≡ some r
    → (r' : Convergence) × (stored_run db' id ≡ some r') × IsRunLater r' r
unfolding stored_run
RunChange-IsRunLater (still a b) id r h = (r, ap (find (by_run_id id)) a ∙ h, IsRunLater-refl r)
RunChange-IsRunLater {db} {db'} (stepped k row e f s a b) id r h =
    stepped-IsRunLater db db' k row e f s a id r h
RunChange-IsRunLater {db} {db'} (opened row e s a b) id r h =
    (r, opened_other db db' row e s a id r h, IsRunLater-refl r)
