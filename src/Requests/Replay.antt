-- ===== src/Requests/Replay.antt =====
-- `create_or_get_ci_request` with a key that is in use: what the first call leaves for the second.
use github_mcp.Requests.Create.{
  create_or_get_ci_request, NewRequest, Reply, validate_new_request_identity, create_body,
  check_replay, reply_to, accepted_row, set_last_event, insert_accepted,
}
use github_mcp.Prelude.{
  String, ℕ, ◌≡◌, some, true, Option, sym, Option-cases, arith, none, str_eq_refl, ap, ◌∙◌, inl,
  inr, opt_eq_refl, subst,
}
use github_mcp.Schema.{Db, Request}
use github_mcp.Tx.{atomically, ok, resume-ok, Result, atomically-ok, err, idempotency_conflict}
use github_mcp.Requests.Transition.{read_back}
use github_mcp.Requests.Checks.{assert_identity, matches_identity}
use github_mcp.Requests.StepsCreate.{
  create_body-old, opened_db, create_body-new, insert_accepted-ok,
}
use github_mcp.Table.{find, update}
use github_mcp.Requests.Queries.{get_ci_request_by_idempotency_key, get_ci_request}

some_result :
    {S A : Type 0} (a b : A) (s t : S) → ◌≡◌ {A = Result A × S} (ok a, s) (ok b, t) → a ≡ b
some_result a b s t h = cc

module _ (id : String) (n : NewRequest) (now : ℕ) (db : Db) where
  pub replay_found :
      (r : Request)
      → validate_new_request_identity n ≡ ok tt
      → get_ci_request_by_idempotency_key db n.idempotency_key ≡ some r
      → check_replay n r ≡ ok tt
      → create_or_get_ci_request id n now db
        ≡ (ok (record { request = r; deduplicated = true }), db)
  unfolding create_or_get_ci_request atomically
  replay_found r valid e c = rw (valid, create_body-old id n now db r e, c)

  pub conflict_found :
      (r : Request)
      → validate_new_request_identity n ≡ ok tt
      → get_ci_request_by_idempotency_key db n.idempotency_key ≡ some r
      → check_replay n r ≡ err idempotency_conflict
      → create_or_get_ci_request id n now db ≡ (err idempotency_conflict, db)
  unfolding create_or_get_ci_request atomically
  conflict_found r valid e c = rw (valid, create_body-old id n now db r e, c)

  stored_old :
      (x : Option Request) (s : Db) (reply : Reply) (db' : Db) (existing : Request)
      → get_ci_request_by_idempotency_key db n.idempotency_key ≡ some existing
      → create_body id n now db ≡ (ok x, s)
      → reply_to id x s ≡ (ok reply, db')
      → (get_ci_request_by_idempotency_key db' n.idempotency_key ≡ some reply.request)
        × (check_replay n reply.request ≡ ok tt)
  stored_old x s reply db' existing e h k =
      let (a, s₁, p, q) =
        resume-ok (check_replay n existing, db) _ x s
          (sym (create_body-old id n now db existing e) ∙ h) in
      ground arith

  new_row : (event_id : ℕ) → Request
  new_row event_id = record (accepted_row id n now) { last_event_id = some event_id }

  check_replay-new : (k : ℕ) → check_replay n (new_row k) ≡ ok tt
  unfolding check_replay new_row assert_identity matches_identity
  check_replay-new k = ground (
    arith,
    str_eq_refl n.normalized_request_hash,
    str_eq_refl n.repository,
    str_eq_refl n.branch,
    str_eq_refl n.commit_sha,
    str_eq_refl n.profile,
    str_eq_refl n.effective_config_digest,
    opt_eq_refl n.tree_sha,
  )

  set_last-key :
      (k : ℕ)
      → get_ci_request_by_idempotency_key
          (set_last_event id k (opened_db db id n now)).1
          n.idempotency_key
        ≡ some (new_row k)
  unfolding set_last_event get_ci_request_by_idempotency_key new_row find update
  set_last-key k = ground (arith, str_eq_refl id, str_eq_refl n.idempotency_key)

  set_last-get :
      (k : ℕ) → get_ci_request (set_last_event id k (opened_db db id n now)).1 id ≡ some (new_row k)
  unfolding set_last_event get_ci_request new_row find update
  set_last-get k = ground (arith, str_eq_refl id)

  reply_new :
      (r : Request) (s : Db) (reply : Reply) (db' : Db)
      → get_ci_request s id ≡ some r
      → reply_to id none s ≡ (ok reply, db')
      → (reply.request ≡ r) × (db' ≡ s)
  unfolding read_back
  reply_new r s reply db' e h = ground arith

  stored_new :
      (x : Option Request) (s : Db) (reply : Reply) (db' : Db)
      → get_ci_request_by_idempotency_key db n.idempotency_key ≡ none
      → create_body id n now db ≡ (ok x, s)
      → reply_to id x s ≡ (ok reply, db')
      → (get_ci_request_by_idempotency_key db' n.idempotency_key ≡ some reply.request)
        × (check_replay n reply.request ≡ ok tt)
  stored_new x s reply db' e h k =
      let (a, s₁, p, q) =
        resume-ok (insert_accepted id n now db) _ x s (sym (create_body-new id n now db e) ∙ h) in
      let (fresh, e₁) = insert_accepted-ok id n now db s₁ p in
      let by_key = set_last-key db.next_event_id in
      let by_id = set_last-get db.next_event_id in
      let checks = check_replay-new db.next_event_id in
      let e_s : s ≡ s₁ = sym (ap (λ (y : Result (Option Request) × Db). y.1) q) in
      let e_x : none ≡ x = some_result none x s₁ s q in
      let got : get_ci_request s id ≡ some (new_row db.next_event_id) =
        ap (λ (d : Db). get_ci_request d id) (e_s ∙ e₁) ∙ by_id in
      let (row, same) =
        reply_new (new_row db.next_event_id) s reply db' got
          (subst (λ o. reply_to id o s ≡ (ok reply, db')) (sym e_x) k) in
      (
        ap (λ (d : Db). get_ci_request_by_idempotency_key d n.idempotency_key) (same ∙ e_s ∙ e₁)
            ∙ by_key
            ∙ ap some (sym row),
        subst (λ r. check_replay n r ≡ ok tt) (sym row) checks,
      )

  stored :
      (x : Option Request) (s : Db) (reply : Reply) (db' : Db)
      → create_body id n now db ≡ (ok x, s)
      → reply_to id x s ≡ (ok reply, db')
      → (get_ci_request_by_idempotency_key db' n.idempotency_key ≡ some reply.request)
        × (check_replay n reply.request ≡ ok tt)
  stored x s reply db' h k =
      elim (Option-cases (get_ci_request_by_idempotency_key db n.idempotency_key)) [
        | inl e ↦ stored_new x s reply db' e h k
        | inr (r, e) ↦ stored_old x s reply db' r e h k
      ]

  pub created-stored :
      (reply : Reply) (db' : Db)
      → create_or_get_ci_request id n now db ≡ (ok reply, db')
      → (validate_new_request_identity n ≡ ok tt)
        × (get_ci_request_by_idempotency_key db' n.idempotency_key ≡ some reply.request)
        × (check_replay n reply.request ≡ ok tt)
  unfolding create_or_get_ci_request
  created-stored reply db' h =
      let (a, s, p, k) = resume-ok (validate_new_request_identity n, db) _ reply db' h in
      let (x, s', p', k') =
        resume-ok (atomically (create_body id n now) s) (reply_to id) reply db' k in
      let same : s ≡ db = sym (ap (λ (y : Result (Unit {0}) × Db). y.1) p) in
      let valid = ap (λ (y : Result (Unit {0}) × Db). y.0) p in
      let committed =
        atomically-ok (create_body id n now) db x s'
          (subst (λ d. atomically (create_body id n now) d ≡ (ok x, s')) same p') in
      let (by_key, checks) = stored x s' reply db' committed k' in (valid, by_key, checks)
