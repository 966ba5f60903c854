-- ===== src/Convergence/Replay.antt =====
-- `create_or_get_convergence` called again.
use github_mcp.Table.{first_by, find, select}
use github_mcp.Prelude.{
  String, Bool, ◌≡◌, List, ℕ, true, none, [], refl, ◌∷◌, arith, Option-cases, inl, str_eq_refl,
  ◌++◌, inr, ◌⊎◌, some, Bool-cases, str_eq, is_some, ap, subst, ◌∙◌, sym,
}
use github_mcp.Convergence.Create.{
  NewRun, accepted_run, key_of, pending_rows, created_event, keyed_run, reply_keyed,
  create_run_body, RunReply, create_unkeyed, create_new, reply_active, insert_accepted_run,
  create_or_get_convergence, Reason, RunIdentity, validate_create_identity, request_identity,
}
use github_mcp.Tx.{ok, resume-ok, reading-ok, Result, atomically, atomically-ok}
use github_mcp.Convergence.StepsCreate.{insert_accepted_run-ok}
use github_mcp.Convergence.{
  RunDb, Convergence, stored_run, Mode, mode_eq, is_active_run, get_row, active_row, older_run,
  public_view,
}

first_by-empty :
    {A : Type 0} (before : A → A → Bool) (xs : List A) → first_by before xs ≡ none → xs ≡ []
unfolding first_by
first_by-empty before [] h = refl
first_by-empty before (x ∷ xs) h = elim (Option-cases (first_by before xs)) [
  | inl c ↦ absurd (ground arith)
  | inr (y, c) ↦ absurd (ground arith)
]

mode_eq_refl : (a : Mode) → mode_eq a a ≡ true
mode_eq_refl Mode.fast = refl
mode_eq_refl Mode.full = refl

accepted_is_active :
    (id hash : String) (n : NewRun) (now : ℕ)
    → is_active_run (key_of n) (accepted_run id hash n now) ≡ true
accepted_is_active id hash n now = ground (
  arith,
  str_eq_refl n.repository,
  str_eq_refl n.development_session_id,
  str_eq_refl n.head_sha,
  str_eq_refl n.tree_sha,
  mode_eq_refl n.mode,
  str_eq_refl n.base_branch,
  str_eq_refl n.base_sha,
)

module _ (id hash : String) (n : NewRun) (now : ℕ) (db db' : RunDb)
    (e : db' ≡ record db {
      convergences = accepted_run id hash n now ∷ db.convergences;
      analysis = pending_rows id now ++ db.analysis;
      events = created_event id now ∷ db.events;
    }) where
  created_get : get_row db' id ≡ ok (accepted_run id hash n now)
  unfolding get_row stored_run find
  created_get = ground (arith, e, str_eq_refl id)

  created_active :
      active_row db (key_of n) ≡ none
      → active_row db' (key_of n) ≡ some (accepted_run id hash n now)
  unfolding active_row first_by select
  created_active h =
      let empty = first_by-empty older_run (select (is_active_run (key_of n)) db.convergences) h in
      rw (e, accepted_is_active id hash n now, empty) refl

  created_keyed :
      keyed_run n db ≡ none
      → (keyed_run n db' ≡ none) ⊎ (keyed_run n db' ≡ some (accepted_run id hash n now))
  unfolding keyed_run find
  created_keyed h = elim (Bool-cases (str_eq n.idempotency_key "")) [
    | inl c ↦ inl (rw (e, c) refl)
    | inr c ↦ inr (rw (e, c, str_eq_refl n.repository, str_eq_refl n.idempotency_key) refl)
  ]

-- A creation that found a row.
data IsReply (hash : String) (n : NewRun) (db : RunDb) (r : RunReply) : Type 0 where
  keyed :
      (row : Convergence)
      → keyed_run n db ≡ some row
      → reply_keyed hash row db ≡ ok r
      → IsReply hash n db r
  active :
      (row : Convergence)
      → keyed_run n db ≡ none
      → active_row db (key_of n) ≡ some row
      → reply_active n row db ≡ ok r
      → IsReply hash n db r

IsReply-create :
    (id hash : String) (n : NewRun) (now : ℕ) (db : RunDb) (r : RunReply)
    → IsReply hash n db r
    → create_run_body id hash n now db ≡ (ok r, db)
unfolding create_run_body create_unkeyed
IsReply-create id hash n now db r (keyed row h e) = rw (h, create_run_body, e) refl
IsReply-create id hash n now db r (active row h a e) =
    rw (h, create_run_body, create_unkeyed, a, e) refl

IsReply-deduplicated :
    (hash : String) (n : NewRun) (db : RunDb) (r : RunReply)
    → IsReply hash n db r
    → is_some r.dedupe_reason ≡ true
unfolding reply_keyed reply_active
IsReply-deduplicated hash n db r (keyed row h e) = ground arith
IsReply-deduplicated hash n db r (active row h a e) = ground arith

-- What the tables answer after a creation that inserted.
created-IsReply :
    (id hash : String) (n : NewRun) (now : ℕ) (db s : RunDb)
    → s ≡ record db {
      convergences = accepted_run id hash n now ∷ db.convergences;
      analysis = pending_rows id now ++ db.analysis;
      events = created_event id now ∷ db.events;
    }
    → keyed_run n db ≡ none
    → active_row db (key_of n) ≡ none
    → (r : RunReply) × (r.result ≡ public_view s (accepted_run id hash n now)) × IsReply hash n s r
unfolding reply_keyed reply_active
created-IsReply id hash n now db s e free idle = elim (created_keyed id hash n now db s e free) [
  | inr h ↦ (
    record {
      result = public_view s (accepted_run id hash n now);
      dedupe_reason = some Reason.by_idempotency_key;
    },
    refl,
    keyed (accepted_run id hash n now) h (rw (str_eq_refl hash) refl),
  )
  | inl h ↦ (
    record {
      result = public_view s (accepted_run id hash n now);
      dedupe_reason = some Reason.by_active_identity;
    },
    refl,
    active (accepted_run id hash n now) h (created_active id hash n now db s e idle)
        (rw (str_eq_refl n.branch, str_eq_refl n.workspace_id) refl),
  )
]

same_row : (a b : Convergence) (x : Result Convergence) → x ≡ ok a → x ≡ ok b → a ≡ b
same_row a b x h k = cc (h, k)

shown :
    (s db' : RunDb) (row : Convergence) (r : RunReply)
    → ◌≡◌ {A = Result RunReply × RunDb}
        (ok (record { result = public_view s row; dedupe_reason = none }), s)
        (ok r, db')
    → public_view s row ≡ r.result
shown s db' row r h = ground arith

created_result :
    (id hash : String) (n : NewRun) (now : ℕ) (db db' : RunDb) (r : RunReply)
    → keyed_run n db ≡ none
    → active_row db (key_of n) ≡ none
    → create_new id hash n now db ≡ (ok r, db')
    → (r' : RunReply) × (r'.result ≡ r.result) × IsReply hash n db' r'
unfolding create_new
created_result id hash n now db db' r free idle h =
    let (a, s, w, k) = resume-ok (insert_accepted_run id hash n now db) _ r db' h in
    let (fresh, e) = insert_accepted_run-ok id hash n now db s w in
    let (row, got, k') = reading-ok (get_row s id) _ r s db' k in
    let at : row ≡ accepted_run id hash n now =
      same_row row (accepted_run id hash n now) (get_row s id) got
        (created_get id hash n now db s e) in
    let (r', same, reply) = created-IsReply id hash n now db s e free idle in
    (
      r',
      same ∙ ap (public_view s) (sym at) ∙ shown s db' row r k',
      subst (λ d. IsReply hash n d r') (ap (λ (x : Result RunReply × RunDb). x.1) k') reply,
    )

-- A reply from a stored row leaves the tables.
read_result :
    (id hash : String) (n : NewRun) (db db' : RunDb) (r : RunReply) (x : Result RunReply)
    → ((r' : RunReply) → x ≡ ok r' → IsReply hash n db r')
    → ◌≡◌ {A = Result RunReply × RunDb} (x, db) (ok r, db')
    → IsReply hash n db' r
read_result id hash n db db' r x h e =
    subst (λ d. IsReply hash n d r) (ap (λ (y : Result RunReply × RunDb). y.1) e)
      (h r (ap (λ (y : Result RunReply × RunDb). y.0) e))

module _ (id hash : String) (n : NewRun) (now : ℕ) (db db' : RunDb) (r : RunReply) where
  unkeyed_result :
      keyed_run n db ≡ none
      → create_unkeyed id hash n now db ≡ (ok r, db')
      → (r' : RunReply) × (r'.result ≡ r.result) × IsReply hash n db' r'
  unfolding create_unkeyed
  unkeyed_result e h = elim (Option-cases (active_row db (key_of n))) [
    | inl c ↦ created_result id hash n now db db' r e c (rw (c, create_unkeyed) at h)
    | inr (row, c) ↦ (
      r,
      refl,
      read_result id hash n db db' r (reply_active n row db) (λ r'. active row e c)
          (rw (c, create_unkeyed) at h),
    )
  ]

  repeated_result :
      create_run_body id hash n now db ≡ (ok r, db')
      → (r' : RunReply) × (r'.result ≡ r.result) × IsReply hash n db' r'
  unfolding create_run_body
  repeated_result h = elim (Option-cases (keyed_run n db)) [
    | inl e ↦ unkeyed_result e (rw (e, create_run_body) at h)
    | inr (row, e) ↦ (
      r,
      refl,
      read_result id hash n db db' r (reply_keyed hash row db) (λ r'. keyed row e)
          (rw (e, create_run_body) at h),
    )
  ]

-- A creation that returned, called again with the same arguments, whatever identifier and time it
-- draws, returns the same convergence with its analysis, marks it as deduplicated, and changes
-- nothing; with an idempotency key or without one.
pub create_convergence_twice :
    (digest : RunIdentity → String) (id id' : String) (n : NewRun) (now later : ℕ) (db db' : RunDb)
    (r : RunReply)
    → create_or_get_convergence digest id n now db ≡ (ok r, db')
    → (r' : RunReply) × (create_or_get_convergence digest id' n later db' ≡ (ok r', db'))
      × (r'.result ≡ r.result)
      × (is_some r'.dedupe_reason ≡ true)
unfolding create_or_get_convergence atomically
create_convergence_twice digest id id' n now later db db' r h =
    let (u, valid, w) = reading-ok (validate_create_identity n) _ r db db' h in
    let body = atomically-ok (create_run_body id (digest (request_identity n)) n now) db r db' w in
    let (r', same, reply) = repeated_result id (digest (request_identity n)) n now db db' r body in
    (
      r',
      rw (valid, IsReply-create id' (digest (request_identity n)) n later db' r' reply) refl,
      same,
      IsReply-deduplicated (digest (request_identity n)) n db' r' reply,
    )
