-- ===== src/Controller/Again.antt =====
-- The calls of the request store that come again, however long after the first.
use github_mcp.Controller.{Op, run_op, run}
use github_mcp.Requests.Queries.{
  is_lower_hex, is_sha, get_ci_request_by_idempotency_key, get_ci_request,
}
use github_mcp.Prelude.{
  Option, String, truthy, List, ℕ, ◌≡◌, true, some, Bool-cases, arith, ◌∷◌, str_eq, opt_eq_sound,
  inr, some_inj, ap, inl, sym, str_eq_iff, ◌∙◌, [], opt_eq, refl, subst, opt_eq_refl, none, false,
  ◌≤◌,
}
use github_mcp.Requests.Create.{
  validate_new_request_identity, check_replay, NewRequest, is_sha_or_none, some_tree, Reply,
  create_or_get_ci_request,
}
use github_mcp.Requests.Checks.{assert_identity, matches_identity, agrees_opt}
use github_mcp.Tx.{ok, err, idempotency_conflict, Result}
use github_mcp.Schema.{Request, Db, Phase}
use github_mcp.Requests.Progress.{IsLater}
use github_mcp.Requests.Audit.{IsAudited}
use github_mcp.Requests.Keyed.{key-stored, Change-key}
use github_mcp.Requests.ChangesAudit.{Change-IsAudited}
use github_mcp.Requests.Dispatch.{DispatchArgs, is_dispatched, Dispatched, dispatch_ci_request}
use github_mcp.Requests.Graph.{phase_rank}
use github_mcp.Requests.Replay.{created-stored, replay_found, conflict_found}
use github_mcp.Requests.DispatchOnce.{dispatched-stored, dispatched_before}
use github_mcp.Requests.StepsCreate.{create-Change}
use github_mcp.Requests.StepsDispatch.{dispatch-Change}
use github_mcp.Controller.Lifecycle.{run-IsLater, run-IsAudited, run_op-Change}

run_key :
    (sha256 : String → String) (ops : List (Op × ℕ)) (db : Db) (k : String) (r : Request)
    → IsAudited db
    → get_ci_request_by_idempotency_key db k ≡ some r
    → (r' : Request) × (get_ci_request_by_idempotency_key (run sha256 ops db) k ≡ some r')
      × (r'.request_id ≡ r.request_id)
unfolding run
run_key sha256 [] db k r v h = (r, h, refl)
run_key sha256 ((o, now) ∷ rest) db k r v h =
    let c = run_op-Change sha256 o now db v in
    let (r₁, h₁, e₁) = Change-key c k r h in
    let (r₂, h₂, e₂) =
      run_key sha256 rest (run_op sha256 o now db) k r₁ (Change-IsAudited c v) h₁ in
    (r₂, h₂, e₂ ∙ e₁)

-- The request under a key, after a run: the same one, later in its life.
keyed-IsLater :
    (sha256 : String → String) (ops : List (Op × ℕ)) (db : Db) (k : String) (r : Request)
    → IsAudited db
    → get_ci_request_by_idempotency_key db k ≡ some r
    → (r' : Request) × (get_ci_request_by_idempotency_key (run sha256 ops db) k ≡ some r')
      × IsLater r' r
keyed-IsLater sha256 ops db k r v h =
    let (r', at, same) = run_key sha256 ops db k r v h in
    let stored = key-stored (run sha256 ops db) k r' (run-IsAudited sha256 ops db v) at in
    let (later, found, l) = run-IsLater sha256 ops db r.request_id r v (key-stored db k r v h) in
    let here : later ≡ r' =
      some_inj later r' (sym found ∙ ap (get_ci_request (run sha256 ops db)) (sym same) ∙ stored) in
    (r', at, subst (λ x. IsLater x r) here l)

-- A tree that a caller gave is a digest, so it is not empty.
given_tree : (t : String) → is_sha t ≡ true → truthy (some t) ≡ true
unfolding is_lower_hex
given_tree t h = elim (Bool-cases (str_eq t "")) [
  | inr e ↦ rw e refl
  | inl e ↦ absurd (cc (ap is_sha ((str_eq_iff t "").0 e), h))
]

later_tree :
    (given r' r : Option String)
    → (truthy r ≡ true → r' ≡ r)
    → is_sha_or_none given ≡ true
    → agrees_opt (some_tree given) r ≡ true
    → agrees_opt (some_tree given) r' ≡ true
later_tree none r' r kept h a = refl
later_tree (some t) r' r kept h a =
    let e = opt_eq_sound r (some t) a in
    let same = kept (ap truthy e ∙ given_tree t h) in
    ap (λ x. opt_eq x (some t)) (same ∙ e) ∙ opt_eq_refl (some t)

valid_tree :
    (n : NewRequest) → validate_new_request_identity n ≡ ok tt → is_sha_or_none n.tree_sha ≡ true
unfolding validate_new_request_identity
valid_tree n h = ground arith

-- What a replay checks still holds of the request later.
check_replay-later :
    (n : NewRequest) (r' r : Request)
    → IsLater r' r
    → validate_new_request_identity n ≡ ok tt
    → check_replay n r ≡ ok tt
    → check_replay n r' ≡ ok tt
unfolding check_replay assert_identity matches_identity
check_replay-later n r' r l valid c =
    let i = l.identity in
    let tree = later_tree n.tree_sha r'.tree_sha r.tree_sha l.tree (valid_tree n valid) in
    ground (
      arith, tree, i.repository, i.branch, i.commit_sha, i.profile, i.effective_config_digest,
      i.normalized_request_hash,
    )

checked_hash :
    (n : NewRequest) (r : Request)
    → check_replay n r ≡ ok tt
    → opt_eq r.normalized_request_hash (some n.normalized_request_hash) ≡ true
unfolding check_replay
checked_hash n r h = ground arith

other_hash :
    (n n' : NewRequest) (r : Request)
    → check_replay n r ≡ ok tt
    → str_eq n.normalized_request_hash n'.normalized_request_hash ≡ false
    → check_replay n' r ≡ err idempotency_conflict
unfolding check_replay
other_hash n n' r same differs =
    let e =
      opt_eq_sound r.normalized_request_hash (some n.normalized_request_hash)
        (checked_hash n r same) in
    rw (e, differs) refl

module _ (sha256 : String → String) (ops : List (Op × ℕ)) (id : String) (n : NewRequest) (now : ℕ)
    (db db' : Db) (reply : Reply) (v : IsAudited db)
    (h : create_or_get_ci_request id n now db ≡ (ok reply, db')) where
  created-IsAudited : IsAudited db'
  created-IsAudited =
      subst IsAudited (ap (λ (x : Result Reply × Db). x.1) h)
        (Change-IsAudited (create-Change id n now db) v)

  created-IsLater :
      (r : Request) × (get_ci_request_by_idempotency_key (run sha256 ops db') n.idempotency_key
        ≡ some r)
      × (check_replay n r ≡ ok tt)
      × IsLater r reply.request
  created-IsLater =
      let (valid, by_key, checks) = created-stored id n now db reply db' h in
      let (r, at, l) =
        keyed-IsLater sha256 ops db' n.idempotency_key reply.request created-IsAudited by_key in
      (r, at, check_replay-later n r reply.request l valid checks, l)

  -- After a creation that returned on an audited database, and after any operations, the same
  -- request created again returns the row that the first call returned, later in its life, as
  -- deduplicated, and changes nothing.
  pub create_twice :
      (id' : String) (later : ℕ)
      → (r : Request) × (create_or_get_ci_request id' n later (run sha256 ops db')
          ≡ (ok (record { request = r; deduplicated = true }), run sha256 ops db'))
        × IsLater r reply.request
  create_twice id' later =
      let (valid, by_key, checks) = created-stored id n now db reply db' h in
      let (r, at, same, l) = created-IsLater in
      (r, replay_found id' n later (run sha256 ops db') r valid at same, l)

  -- After a creation that returned on an audited database, and after any operations, a valid
  -- request with the same idempotency key and another normalized request hash is refused with the
  -- idempotency conflict, and changes nothing.
  pub key_conflict :
      (id' : String) (n' : NewRequest) (later : ℕ)
      → n'.idempotency_key ≡ n.idempotency_key
      → validate_new_request_identity n' ≡ ok tt
      → str_eq n.normalized_request_hash n'.normalized_request_hash ≡ false
      → create_or_get_ci_request id' n' later (run sha256 ops db')
        ≡ (err idempotency_conflict, run sha256 ops db')
  key_conflict id' n' later key valid differs =
      let (r, at, same, l) = created-IsLater in
      conflict_found id' n' later (run sha256 ops db') r valid
        (ap (get_ci_request_by_idempotency_key (run sha256 ops db')) key ∙ at)
        (other_hash n n' r same differs)

-- A request that was dispatched is so at every later phase.
is_dispatched-later :
    (p q : Phase) → phase_rank p ≤ phase_rank q → is_dispatched p ≡ true → is_dispatched q ≡ true
is_dispatched-later p q l h = ground arith

-- After a dispatch that returned on an audited database, and after any operations, a dispatch of
-- the same request with a valid tree returns the row that the first one returned, later in its
-- life, with no new Worker Job, and changes nothing.
pub dispatch_twice :
    (sha256 : String → String) (ops : List (Op × ℕ)) (id job_id : String) (a : DispatchArgs)
    (now : ℕ) (db db' : Db) (d : Dispatched)
    → IsAudited db
    → dispatch_ci_request id job_id a now db ≡ (ok d, db')
    → (job_id' : String) (a' : DispatchArgs) (later : ℕ) → is_sha a'.tree_sha ≡ true
    → (r : Request) × (dispatch_ci_request id job_id' a' later (run sha256 ops db')
        ≡ (ok (record { request = r; worker_job = none }), run sha256 ops db'))
      × IsLater r d.request
dispatch_twice sha256 ops id job_id a now db db' d v h job_id' a' later sha =
    let (at, phase) = dispatched-stored id job_id a now db db' d h in
    let v' =
      subst IsAudited (ap (λ (x : Result Dispatched × Db). x.1) h)
        (Change-IsAudited (dispatch-Change id job_id a now db) v) in
    let (r, at', l) = run-IsLater sha256 ops db' id d.request v' at in
    (
      r,
      dispatched_before id job_id' a' later (run sha256 ops db') r sha at'
          (is_dispatched-later d.request.phase r.phase l.phase phase),
      l,
    )
