-- ===== src/Requests/StepsCreate.antt =====
-- `create_or_get_ci_request` and `dispatch_ci_request` are changes, in the sense of
-- Requests/Changes.
use github_mcp.Requests.Changes.{Change, still, added, touched, chain}
use github_mcp.Requests.Steps.{resume-Change, atomically-Change}
use github_mcp.Requests.Queries.{
  insert_event, event_row, get_ci_request, get_ci_request_by_idempotency_key,
}
use github_mcp.Schema.{Db, Request}
use github_mcp.Prelude.{
  String, ℕ, Option, ◌∷◌, ◌≡◌, refl, suc, str_eq, none, ◌&&◌, arith, ◌==◌, some, ap, Option-cases,
  subst, inr, sym, ◌∙◌, inl, str_eq_iff,
}
use github_mcp.Tx.{atomically, ok, resume, resume-ok, pure, Result}
use github_mcp.Requests.Lifecycle.{is_valid_pair}
use github_mcp.Requests.Transition.{read_back}
use github_mcp.Requests.Create.{
  insert_accepted, create_body, create_or_get_ci_request, accepted_row, accepted_event, reply_to,
  insert_request, set_last_event, NewRequest, validate_new_request_identity, check_replay,
}

-- The database with a request and its event, before `last_event_id` is set.
abbrev pub opened_db : Db → String → NewRequest → (now : ℕ) → Db
opened_db db id n now = record db {
  requests = accepted_row id n now ∷ db.requests;
  request_events = event_row db.next_event_id id 0 (accepted_event n) now ∷ db.request_events;
  next_event_id = suc db.next_event_id;
}

pub insert_accepted-ok :
    (id : String) (n : NewRequest) (now : ℕ) (db db' : Db)
    → insert_accepted id n now db ≡ (ok tt, db')
    → (get_ci_request db id ≡ none)
      × (db' ≡ (set_last_event id db.next_event_id (opened_db db id n now)).1)
unfolding insert_accepted insert_request insert_event set_last_event
insert_accepted-ok id n now db db' h = ground arith

insert_accepted-Change :
    (id : String) (n : NewRequest) (now : ℕ) (db db' : Db)
    → get_ci_request_by_idempotency_key db n.idempotency_key ≡ none
    → insert_accepted id n now db ≡ (ok tt, db')
    → Change db db'
unfolding set_last_event
insert_accepted-Change id n now db db' free h =
    let (fresh, e) = insert_accepted-ok id n now db db' h in
    chain
      (added {db' = opened_db db id n now} (accepted_row id n now)
        (event_row db.next_event_id id 0 (accepted_event n) now)
        (record {
          fresh = fresh;
          event_id = refl;
          revision = refl;
          event_revision = refl;
          from_phase = refl;
          to_phase = refl;
          to_status = refl;
          valid = unfold is_valid_pair in refl;
          new_key = λ k same.
              subst (λ i. get_ci_request_by_idempotency_key db i ≡ none)
                ((str_eq_iff n.idempotency_key k).0 same) free;
        })
        refl refl)
      (touched (λ r. str_eq r.request_id id && (r.revision == 0))
        (λ r. record r { last_event_id = some db.next_event_id }) (λ r. ground arith)
        (ap (λ (d : Db). d.requests) e) (ap (λ (d : Db). d.request_events) e))

module _ (id : String) (n : NewRequest) (now : ℕ) (db : Db) where
  pub create_body-old :
      (existing : Request)
      → get_ci_request_by_idempotency_key db n.idempotency_key ≡ some existing
      → create_body id n now db ≡ resume (check_replay n existing, db) (λ _. pure (some existing))
  unfolding create_body
  create_body-old existing e = rw (e, create_body)

  pub create_body-new :
      get_ci_request_by_idempotency_key db n.idempotency_key ≡ none
      → create_body id n now db ≡ resume (insert_accepted id n now db) (λ _. pure none)
  unfolding create_body
  create_body-new e = rw (e, create_body)

  create_body-Change :
      (db' : Db) (x : Option Request) → create_body id n now db ≡ (ok x, db') → Change db db'
  create_body-Change db' x h =
      elim (Option-cases (get_ci_request_by_idempotency_key db n.idempotency_key)) [
        | inr (existing, e) ↦
            let (a, s, p, q) =
              resume-ok (check_replay n existing, db) _ x db'
                (sym (create_body-old existing e) ∙ h) in
            let same : db' ≡ db =
              sym (ap (λ (y : Result (Option Request) × Db). y.1) q)
              ∙ sym (ap (λ (y : Result (Unit {0}) × Db). y.1) p) in
            still (ap (λ (d : Db). d.requests) same) (ap (λ (d : Db). d.request_events) same)
        | inl e ↦
            let (a, s, p, q) =
              resume-ok (insert_accepted id n now db) _ x db' (sym (create_body-new e) ∙ h) in
            insert_accepted-Change id n now db db' e
              (p ∙ ap (λ (d : Db). (ok tt, d)) (ap (λ (y : Result (Option Request) × Db). y.1) q))
      ]

-- The reply only reads.
reply_to-state : (id : String) (x : Option Request) (db : Db) → (reply_to id x db).1 ≡ db
unfolding read_back
reply_to-state id none db = ground arith
reply_to-state id (some x) db = refl

pub create-Change :
    (id : String) (n : NewRequest) (now : ℕ) (db : Db)
    → Change db (create_or_get_ci_request id n now db).1
unfolding create_or_get_ci_request
create-Change id n now db =
    resume-Change db (validate_new_request_identity n, db) _ (still refl refl)
      λ _.
        resume-Change db (atomically (create_body id n now) db) (reply_to id)
          (atomically-Change db (create_body id n now)
            λ x db' h. create_body-Change id n now db db' x h)
          λ x.
            subst (λ d. Change (atomically (create_body id n now) db).1 d)
              (sym (reply_to-state id x (atomically (create_body id n now) db).1)) (still refl refl)
