-- ===== src/Requests/ChangesAudit.antt =====
-- Every change keeps the audit trail of every request complete.
use mathlib.Core.Option
use github_mcp.Requests.Changes.{Change, still, moved, added, touched, chain, SameStage, IsOpening}
use github_mcp.Schema.{Db, Request, RequestEvent}
use github_mcp.Prelude.{
  Bool, ◌≡◌, cond_row, ◌∷◌, subst, Bool-cases, String, inl, inr, some, if◌then◌else◌, none, sym,
  ◌∙◌, str_eq, Option-cases, arith, true, str_eq_iff, ap, [], some_inj, false,
}
use github_mcp.Requests.Inversion.{advanced}
use github_mcp.Requests.Queries.{get_ci_request_events, get_ci_request, by_request_id}
use github_mcp.Table.{update, find, select}
use github_mcp.Table.Keys.{IsKeyed, IsKeyed-update}
use github_mcp.Table.Laws.{find-update}
use github_mcp.Requests.Trail.{Trail}
use github_mcp.Requests.Audit.{IsAudited, advanced-IsAudited, id_of}

-- Two databases with the same request tables.
module _ (db db' : Db) (rs : db'.requests ≡ db.requests) where
  pub get-same : (k : String) → get_ci_request db' k ≡ get_ci_request db k
  unfolding get_ci_request
  get-same k = rw rs

module _ (db db' : Db) (es : db'.request_events ≡ db.request_events) where
  pub events-same : (k : String) → get_ci_request_events db' k ≡ get_ci_request_events db k
  unfolding get_ci_request_events
  events-same k = rw es

module _ (db db' : Db) (rs : db'.requests ≡ db.requests)
    (es : db'.request_events ≡ db.request_events) where
  IsAudited-same : IsAudited db → IsAudited db'
  IsAudited-same v = record {
    keyed = subst (λ xs. IsKeyed id_of xs) (sym rs) v.keyed;
    trails = λ k r h. rw (events-same db db' es k) (v.trails k r (sym (get-same db db' rs k) ∙ h));
    orphans = λ k h. rw (events-same db db' es k) (v.orphans k (sym (get-same db db' rs k) ∙ h));
  }

module _ (p : Request → Bool) (f : Request → Request)
    (keep : (r : Request) → SameStage (f r) r) where
  -- The row that is touched is at the stage that it was.
  SameStage-cond_row : (r : Request) → SameStage (cond_row p f r) r
  SameStage-cond_row r = elim (Bool-cases (p r)) [
    | inl e ↦ rw e (keep r)
    | inr e ↦ rw e (ground arith)
  ]

module _ (db db' : Db) (p : Request → Bool) (f : Request → Request)
    (keep : (r : Request) → SameStage (f r) r) (rs : db'.requests ≡ update p f db.requests) where
  get-touched :
      (k : String) → get_ci_request db' k ≡ Option.map (cond_row p f) (get_ci_request db k)
  unfolding get_ci_request
  get-touched k = rw rs (
      find-update (by_request_id k) p f db.requests
        (λ x. ap (λ i. str_eq i k) (keep x).identity.request_id))

  -- The row under a key before and after.
  pub touched_row :
      (k : String) (r : Request)
      → get_ci_request db' k ≡ some r
      → (r₀ : Request) × (get_ci_request db k ≡ some r₀) × SameStage r r₀
  touched_row k r h = elim (Option-cases (get_ci_request db k)) [
    | inl e ↦ absurd (cc (get-touched k, ap (Option.map (cond_row p f)) e))
    | inr (r₀, e) ↦
        let same : cond_row p f r₀ ≡ r =
          some_inj (cond_row p f r₀) r
            (sym (get-touched k ∙ ap (Option.map (cond_row p f)) e) ∙ h) in
        (r₀, e, subst (λ x. SameStage x r₀) same (SameStage-cond_row p f keep r₀))
  ]

  -- The row under a key after, from the row before.
  pub touched_later :
      (k : String) (r : Request)
      → get_ci_request db k ≡ some r
      → (get_ci_request db' k ≡ some (cond_row p f r)) × SameStage (cond_row p f r) r
  touched_later k r h =
      (get-touched k ∙ ap (Option.map (cond_row p f)) h, SameStage-cond_row p f keep r)

  touched_none : (k : String) → get_ci_request db' k ≡ none → get_ci_request db k ≡ none
  touched_none k h = elim (Option-cases (get_ci_request db k)) [
    | inl e ↦ e
    | inr (r₀, e) ↦ absurd (cc (get-touched k, ap (Option.map (cond_row p f)) e))
  ]

  IsAudited-touched : db'.request_events ≡ db.request_events → IsAudited db → IsAudited db'
  IsAudited-touched es v = record {
    keyed =
        subst (λ xs. IsKeyed id_of xs) (sym rs)
          (IsKeyed-update id_of p f db.requests (λ x. (keep x).identity.request_id) v.keyed);
    trails = λ k r h.
        let (r₀, e, same) = touched_row k r h in
        rw (events-same db db' es k, same.revision, same.phase, same.status) (v.trails k r₀ e);
    orphans = λ k h. rw (events-same db db' es k) (v.orphans k (touched_none k h));
  }

module _ (db db' : Db) (r : Request) (rs : db'.requests ≡ r ∷ db.requests) where
  pub get-added :
      (k : String)
      → get_ci_request db' k ≡ (if str_eq r.request_id k then some r else get_ci_request db k)
  unfolding get_ci_request find
  get-added k = rw rs

module _ (db db' : Db) (e : RequestEvent) (es : db'.request_events ≡ e ∷ db.request_events) where
  events-added :
      (k : String)
      → get_ci_request_events db' k ≡ (
          if str_eq e.request_id k
          then e ∷ get_ci_request_events db k
          else get_ci_request_events db k)
  unfolding get_ci_request_events select
  events-added k = rw es

module _ (db db' : Db) (r : Request) (e : RequestEvent) (o : IsOpening db r e)
    (rs : db'.requests ≡ r ∷ db.requests) (es : db'.request_events ≡ e ∷ db.request_events) where
  -- The trail of the new request.
  opened :
      (k : String) (x : Request)
      → IsAudited db
      → r.request_id ≡ k
      → get_ci_request db' k ≡ some x
      → Trail (get_ci_request_events db' k) x.revision x.phase x.status
  opened k x v same h =
      let hit : str_eq r.request_id k ≡ true = (str_eq_iff r.request_id k).1 same in
      let hit_e : str_eq e.request_id k ≡ true = rw o.event_id hit in
      let row : r ≡ x = cc (get-added db db' r rs k, hit) in
      let old : get_ci_request_events db k ≡ [] =
        v.orphans k (subst (λ i. get_ci_request db i ≡ none) same o.fresh) in
      let hist : get_ci_request_events db' k ≡ e ∷ [] =
        rw (events-added db db' e es k, hit_e, old) in
      rw (hist, ← row)
        (o.revision, o.event_revision, o.from_phase, o.to_phase, o.to_status, o.valid)

  IsKeyed-added : IsAudited db → IsKeyed id_of db'.requests
  unfolding get_ci_request
  IsKeyed-added v = subst (λ xs. IsKeyed id_of xs) (sym rs) (o.fresh, v.keyed)

  -- The other requests, under a key that is not the new one's.
  module _ (k : String) (ne : str_eq r.request_id k ≡ false) where
    get-other : get_ci_request db' k ≡ get_ci_request db k
    get-other = rw (get-added db db' r rs k, ne)

    events-other : get_ci_request_events db' k ≡ get_ci_request_events db k
    events-other =
        let miss : str_eq e.request_id k ≡ false = rw o.event_id ne in
        rw (events-added db db' e es k, miss)

  IsAudited-added : IsAudited db → IsAudited db'
  IsAudited-added v = record {
    keyed = IsKeyed-added v;
    trails = λ k x h. elim (Bool-cases (str_eq r.request_id k)) [
      | inl same ↦ opened k x v ((str_eq_iff r.request_id k).0 same) h
      | inr ne ↦ rw (events-other k ne) (v.trails k x (sym (get-other k ne) ∙ h))
    ];
    orphans = λ k h. elim (Bool-cases (str_eq r.request_id k)) [
      | inl same ↦ absurd (cc (get-added db db' r rs k, same))
      | inr ne ↦ rw (events-other k ne) (v.orphans k (sym (get-other k ne) ∙ h))
    ];
  }

-- Every change keeps the audit.
pub Change-IsAudited : {db db' : Db} → Change db db' → IsAudited db → IsAudited db'
Change-IsAudited {db} {db'} (still rs es) v = IsAudited-same db db' rs es v
Change-IsAudited {db} {db'} (moved id row e p f a rs es) v =
    IsAudited-same (advanced db e p f) db' rs es (advanced-IsAudited db id row e p f a v)
Change-IsAudited {db} {db'} (added r e o rs es) v = IsAudited-added db db' r e o rs es v
Change-IsAudited {db} {db'} (touched p f keep rs es) v = IsAudited-touched db db' p f keep rs es v
Change-IsAudited (chain c d) v = Change-IsAudited d (Change-IsAudited c v)
