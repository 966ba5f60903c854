-- ===== src/Convergence/Unique.antt =====
-- One active convergence for one identity.
use github_mcp.Convergence.{
  RunDb, Convergence, RunKey, stored_run, active_row, is_active_run, older_run, by_run_id, mode_eq,
  ConvergenceEvent, Mode,
}
use github_mcp.Convergence.Writes.{at_revision}
use github_mcp.Convergence.Changes.{RunChange, still, stepped, opened, IsStep, SameRun, key_of_run}
use github_mcp.Convergence.History.{IsRecorded, run_id_of}
use github_mcp.Prelude.{
  [], refl, none, inl, inr, ◌∷◌, Bool, arith, ◌≡◌, String, ◌≤◌, true, Bool-cases, List, str_eq_iff,
  Option-cases, subst,
}
use github_mcp.Table.{count, update, select, first_by}
use github_mcp.Table.Laws.{find_sound}
use github_mcp.Table.Keys.{IsKeyed, count-update-le}

-- At most one stored run is active for each repository, session, head, tree, mode and base.
abbrev pub HasOneActive : RunDb → Type 0
HasOneActive db = (k : RunKey) → count (is_active_run k) db.convergences ≤ 1

first_by-some :
    {A : Type 0} (before : A → A → Bool) (p : A → Bool) (xs : List A)
    → first_by before (select p xs) ≡ none
    → count p xs ≡ 0
unfolding first_by select count
first_by-some before p [] h = refl
first_by-some before p (x ∷ xs) h = elim (Bool-cases (p x)) [
  | inr e ↦ let rest = first_by-some before p xs (rw e at h) in rw e rest
  | inl e ↦ elim (Option-cases (first_by before (select p xs))) [
    | inl c ↦ absurd (ground arith)
    | inr (y, c) ↦ absurd (ground arith)
  ]
]

active-step :
    (k : RunKey) (r' r : Convergence)
    → SameRun r' r
    → (r.terminal ≡ true → r'.terminal ≡ true)
    → is_active_run k r' ≡ true
    → is_active_run k r ≡ true
active-step k r' r s t h = ground arith

mode_eq_sound : (a b : Mode) → mode_eq a b ≡ true → a ≡ b
mode_eq_sound Mode.fast Mode.fast h = refl
mode_eq_sound Mode.full Mode.full h = refl
mode_eq_sound Mode.fast Mode.full h = cc
mode_eq_sound Mode.full Mode.fast h = cc

-- An active run counts under its own identity only.
key_of_active : (k : RunKey) (r : Convergence) → is_active_run k r ≡ true → key_of_run r ≡ k
key_of_active k r h =
    let a = (str_eq_iff r.repository k.repository).0 (ground arith) in
    let b = (str_eq_iff r.development_session_id k.development_session_id).0 (ground arith) in
    let c = (str_eq_iff r.head_sha k.head_sha).0 (ground arith) in
    let d = (str_eq_iff r.tree_sha k.tree_sha).0 (ground arith) in
    let e = mode_eq_sound r.mode k.mode (ground arith) in
    let f = (str_eq_iff r.base_branch k.base_branch).0 (ground arith) in
    let g = (str_eq_iff r.base_sha k.base_sha).0 (ground arith) in rw (a, b, c, d, e, f, g) refl

opened-count :
    (db : RunDb) (r : Convergence) (k : RunKey)
    → active_row db (key_of_run r) ≡ none
    → count (is_active_run k) db.convergences ≤ 1
    → count (is_active_run k) (r ∷ db.convergences) ≤ 1
unfolding active_row count
opened-count db r k free v = elim (Bool-cases (is_active_run k r)) [
  | inr e ↦ rw e v
  | inl e ↦
      let free_here : count (is_active_run k) db.convergences ≡ 0 =
        first_by-some older_run (is_active_run k) db.convergences
          (subst (λ x. active_row db x ≡ none) (key_of_active k r e) free) in
      rw (e, free_here) (omega arith)
]

stepped-count :
    (db : RunDb) (id : String) (row : Convergence) (e : ConvergenceEvent)
    (f : Convergence → Convergence)
    → IsStep db id row e f
    → IsKeyed run_id_of db.convergences
    → (k : RunKey)
    → count (is_active_run k) (update (at_revision id row.revision) f db.convergences)
      ≤ count (is_active_run k) db.convergences
unfolding stored_run
stepped-count db id row e f s keyed k =
    count-update-le run_id_of (at_revision id row.revision) (is_active_run k) (by_run_id id) f
      db.convergences row keyed s.found
      (λ x c. ground (
        arith,
        str_eq_iff x.convergence_id id,
        str_eq_iff row.convergence_id id,
        find_sound (by_run_id id) db.convergences row s.found,
      ))
      (active-step k (f row) row (s.same row) s.keeps.terminal)

pub RunChange-HasOneActive :
    {db db' : RunDb} → RunChange db db' → IsRecorded db → HasOneActive db → HasOneActive db'
RunChange-HasOneActive {db} {db'} (still a b) r v k = rw a (v k)
RunChange-HasOneActive {db} {db'} (stepped id row e f s a b) r v k =
    let le = stepped-count db id row e f s r.keyed k in rw a (omega (arith, le, v k))
RunChange-HasOneActive {db} {db'} (opened row e o a b) r v k =
    rw a (opened-count db row k o.unique (v k))
