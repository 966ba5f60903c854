-- ===== src/Requests/Audit.antt =====
-- Every request has a complete audit trail: the invariant, and that the parts of the store keep it.
use mathlib.Core.Option
use github_mcp.Requests.Trail.{Trail, Trail-extend}
use github_mcp.Schema.{Db, Request, RequestEvent}
use github_mcp.Prelude.{
  String, Bool, ◌≡◌, some, str_eq, true, none, false, suc, [], ◌∷◌, Option-cases, inl, str_eq_refl,
  inr, Bool-cases, cond_row, sym, arith, ◌∙◌, ap, str_eq_iff, subst, truthy,
}
use github_mcp.Requests.Queries.{get_ci_request, get_ci_request_events, by_request_id}
use github_mcp.Table.{select}
use github_mcp.Requests.Graph.{Move}
use github_mcp.Table.Laws.{find-update, find_sound}
use github_mcp.Table.Keys.{IsKeyed, IsKeyed-update}
use github_mcp.Requests.Inversion.{advanced}

abbrev pub id_of : Request → String
id_of r = r.request_id

pub record IsAudited (db : Db) : Type 0 where
  pub keyed : IsKeyed id_of db.requests
  pub trails :
      (id : String) (r : Request)
      → get_ci_request db id ≡ some r
      → Trail (get_ci_request_events db id) r.revision r.phase r.status
  pub orphans : (id : String) → get_ci_request db id ≡ none → get_ci_request_events db id ≡ []

-- What no operation changes of a request: what it was created for.
pub record SameIdentity (r' r : Request) : Type 0 where
  pub request_id : r'.request_id ≡ r.request_id
  pub repository : r'.repository ≡ r.repository
  pub branch : r'.branch ≡ r.branch
  pub commit_sha : r'.commit_sha ≡ r.commit_sha
  pub profile : r'.profile ≡ r.profile
  pub effective_config_digest : r'.effective_config_digest ≡ r.effective_config_digest
  pub idempotency_key : r'.idempotency_key ≡ r.idempotency_key
  pub normalized_request_hash : r'.normalized_request_hash ≡ r.normalized_request_hash
  pub created_at : r'.created_at ≡ r.created_at

-- An advance of the request `id` from `row`, by an UPDATE whose condition is `p`.
pub record IsAdvance (db : Db) (id : String) (row : Request) (e : RequestEvent) (p : Request → Bool)
    (f : Request → Request) : Type 0 where
  pub found : get_ci_request db id ≡ some row
  pub only : (r : Request) → p r ≡ true → str_eq r.request_id id ≡ true
  pub hit : p row ≡ true
  pub event_id : e.request_id ≡ id
  pub event_revision : e.revision ≡ suc row.revision
  pub row_revision : (f row).revision ≡ suc row.revision
  pub from_phase : e.from_phase ≡ some row.phase
  pub from_status : e.from_status ≡ some row.status
  pub to_phase : e.to_phase ≡ (f row).phase
  pub to_status : e.to_status ≡ (f row).status
  pub keeps_source : (r : Request) → SameIdentity (f r) r
  pub keeps_tree : truthy row.tree_sha ≡ true → (f row).tree_sha ≡ row.tree_sha
  pub moves : Move row.phase row.status (f row).phase (f row).status

module _ (db : Db) (id : String) (row : Request) (e : RequestEvent) (p : Request → Bool)
    (f : Request → Request) (a : IsAdvance db id row e p f) where
  pub advanced-get :
      (k : String)
      → get_ci_request (advanced db e p f) k ≡ Option.map (cond_row p f) (get_ci_request db k)
  unfolding get_ci_request
  advanced-get k =
      find-update (by_request_id k) p f db.requests
        (λ x. ap (λ i. str_eq i k) ((a.keeps_source x).request_id))

  pub advanced-get_self : get_ci_request (advanced db e p f) id ≡ some (f row)
  advanced-get_self = rw (advanced-get, a.found, a.hit)

  pub advanced-events_self :
      get_ci_request_events (advanced db e p f) id ≡ e ∷ get_ci_request_events db id
  unfolding get_ci_request_events select
  advanced-events_self = rw (a.event_id, str_eq_refl)

  -- A row of another request does not meet the condition.
  missed :
      (k : String) (r : Request) → str_eq id k ≡ false → get_ci_request db k ≡ some r → p r ≡ false
  unfolding get_ci_request
  missed k r ne h = elim (Bool-cases (p r)) [
    | inr e ↦ e
    | inl e ↦ absurd (
        ground (
          arith,
          find_sound (by_request_id k) db.requests r h,
          a.only r e,
          str_eq_iff r.request_id k,
          str_eq_iff r.request_id id,
          str_eq_iff id k,
        ))
  ]

  pub advanced-get_other :
      (k : String)
      → str_eq id k ≡ false
      → get_ci_request (advanced db e p f) k ≡ get_ci_request db k
  advanced-get_other k ne = elim (Option-cases (get_ci_request db k)) [
    | inl h ↦ rw (advanced-get, h)
    | inr (r, h) ↦ rw (advanced-get, h, missed k r ne h)
  ]

  pub advanced-events_other :
      (k : String)
      → str_eq id k ≡ false
      → get_ci_request_events (advanced db e p f) k ≡ get_ci_request_events db k
  unfolding get_ci_request_events select
  advanced-events_other k ne = rw (a.event_id, ne)

  -- The trail of the request that moved.
  Trail-self :
      IsAudited db
      → Trail
          (get_ci_request_events (advanced db e p f) id)
          (f row).revision
          (f row).phase
          (f row).status
  Trail-self v =
      rw (advanced-events_self, a.row_revision)
        (Trail-extend e (get_ci_request_events db id) row.revision row.phase row.status
          (f row).phase (f row).status (v.trails id row a.found) a.event_revision a.from_phase
          a.from_status a.to_phase a.to_status a.moves)

  same_row : (r : Request) → get_ci_request (advanced db e p f) id ≡ some r → f row ≡ r
  same_row r h = cc advanced-get_self

  Trail-at :
      (k : String) (r : Request)
      → IsAudited db
      → id ≡ k
      → get_ci_request (advanced db e p f) k ≡ some r
      → Trail (get_ci_request_events (advanced db e p f) k) r.revision r.phase r.status
  Trail-at k r v same =
      subst
        (λ i.
          get_ci_request (advanced db e p f) i ≡ some r
          → Trail (get_ci_request_events (advanced db e p f) i) r.revision r.phase r.status)
        same
        (λ h.
          subst
            (λ (x : Request).
              Trail (get_ci_request_events (advanced db e p f) id) x.revision x.phase x.status)
            (same_row r h) (Trail-self v))

  not_orphan :
      (k : String)
      → id ≡ k
      → get_ci_request (advanced db e p f) k ≡ none
      → get_ci_request_events (advanced db e p f) k ≡ []
  not_orphan k same h = cc (advanced-get_self, ap (get_ci_request (advanced db e p f)) same)

  -- An advance keeps every trail complete.
  pub advanced-IsAudited : IsAudited db → IsAudited (advanced db e p f)
  advanced-IsAudited v = record {
    keyed = IsKeyed-update id_of p f db.requests (λ x. (a.keeps_source x).request_id) v.keyed;
    trails = λ k r h. elim (Bool-cases (str_eq id k)) [
      | inl same ↦ Trail-at k r v ((str_eq_iff id k).0 same) h
      | inr ne ↦ rw (advanced-events_other k ne) (v.trails k r (sym (advanced-get_other k ne) ∙ h))
    ];
    orphans = λ k h. elim (Bool-cases (str_eq id k)) [
      | inl same ↦ not_orphan k ((str_eq_iff id k).0 same) h
      | inr ne ↦ rw (advanced-events_other k ne) (v.orphans k (sym (advanced-get_other k ne) ∙ h))
    ];
  }
