-- ===== src/Requests/Progress.antt =====
-- Requests only go forward: what every change keeps of a stored request.
use github_mcp.Requests.Changes.{Change, still, moved, added, touched, chain, SameStage, IsOpening}
use github_mcp.Requests.ChangesAudit.{get-same, touched_later, get-added}
use github_mcp.Schema.{Db, Request, RequestEvent, Phase}
use github_mcp.Prelude.{
  String, arith, ◌≤◌, Bool, ◌≡◌, ◌∙◌, some, ◌∷◌, Bool-cases, str_eq, refl, cond_row, inr, inl,
  str_eq_iff, ap, sym, subst, truthy, true,
}
use github_mcp.Requests.Queries.{get_ci_request}
use github_mcp.Requests.Graph.{phase_rank, Move-forward}
use github_mcp.Requests.Inversion.{advanced}
use github_mcp.Requests.Audit.{IsAdvance, SameIdentity, advanced-get_self, advanced-get_other}

-- `r'` is the request `r`, later in its life.
pub record IsLater (r' r : Request) : Type 0 where
  pub identity : SameIdentity r' r
  pub tree : truthy r.tree_sha ≡ true → r'.tree_sha ≡ r.tree_sha
  pub revision : r.revision ≤ r'.revision
  pub phase : phase_rank r.phase ≤ phase_rank r'.phase
  pub final : r.phase ≡ Phase.terminal → (r'.phase ≡ Phase.terminal) × (r'.status ≡ r.status)

pub IsLater-refl : (r : Request) → IsLater r r
IsLater-refl r = record {
  identity = ground arith;
  tree = λ _. refl;
  revision = omega arith;
  phase = omega arith;
  final = λ h. (h, refl);
}

SameIdentity-trans : (a b c : Request) → SameIdentity a b → SameIdentity b c → SameIdentity a c
SameIdentity-trans a b c x y = ground arith

pub IsLater-trans : (a b c : Request) → IsLater a b → IsLater b c → IsLater a c
IsLater-trans a b c x y = record {
  identity = SameIdentity-trans a b c x.identity y.identity;
  tree = λ h. let e = y.tree h in x.tree (ap truthy e ∙ h) ∙ e;
  revision = omega (arith, x.revision, y.revision);
  phase = omega (arith, x.phase, y.phase);
  final = λ h. let (t, s) = y.final h in let (t', s') = x.final t in (t', s' ∙ s);
}

IsLater-stage : (r' r : Request) → SameStage r' r → IsLater r' r
IsLater-stage r' r s = record {
  identity = s.identity;
  tree = λ _. s.tree_sha;
  revision = omega (arith, s.revision);
  phase = rw s.phase (omega arith);
  final = λ h. (s.phase ∙ h, s.status);
}

module _ (db : Db) (id : String) (row : Request) (e : RequestEvent) (p : Request → Bool)
    (f : Request → Request) (a : IsAdvance db id row e p f) where
  IsLater-advance : IsLater (f row) row
  IsLater-advance =
      let (up, final) = Move-forward row.phase row.status (f row).phase (f row).status a.moves in
      record {
        identity = a.keeps_source row;
        tree = a.keeps_tree;
        revision = omega (arith, a.row_revision);
        phase = up;
        final = final;
      }

  advanced-IsLater :
      (k : String) (r : Request)
      → get_ci_request db k ≡ some r
      → (r' : Request) × (get_ci_request (advanced db e p f) k ≡ some r') × IsLater r' r
  advanced-IsLater k r h = elim (Bool-cases (str_eq id k)) [
    | inr ne ↦ (r, advanced-get_other db id row e p f a k ne ∙ h, IsLater-refl r)
    | inl same ↦
        let at : id ≡ k = (str_eq_iff id k).0 same in
        let here : row ≡ r = cc (a.found, ap (get_ci_request db) at) in
        (
          f row,
          ap (get_ci_request (advanced db e p f)) (sym at) ∙ advanced-get_self db id row e p f a,
          subst (λ x. IsLater (f row) x) here IsLater-advance,
        )
  ]

added_old :
    (db db' : Db) (x : Request) (e : RequestEvent)
    → IsOpening db x e
    → db'.requests ≡ x ∷ db.requests
    → (k : String) (r : Request) → get_ci_request db k ≡ some r
    → get_ci_request db' k ≡ some r
added_old db db' x e o rs k r h = elim (Bool-cases (str_eq x.request_id k)) [
  | inr ne ↦ rw (get-added db db' x rs k, ne) h
  | inl same ↦ absurd (cc (o.fresh, ap (get_ci_request db) ((str_eq_iff x.request_id k).0 same)))
]

-- Every request that was stored is stored after a change, at the same or a later stage.
pub Change-IsLater :
    {db db' : Db}
    → Change db db'
    → (k : String) (r : Request) → get_ci_request db k ≡ some r
    → (r' : Request) × (get_ci_request db' k ≡ some r') × IsLater r' r
Change-IsLater {db} {db'} (still rs es) k r h = (r, get-same db db' rs k ∙ h, IsLater-refl r)
Change-IsLater {db} {db'} (moved id row e p f a rs es) k r h =
    let (r', h', l) = advanced-IsLater db id row e p f a k r h in
    (r', get-same (advanced db e p f) db' rs k ∙ h', l)
Change-IsLater {db} {db'} (added x e o rs es) k r h =
    (r, added_old db db' x e o rs k r h, IsLater-refl r)
Change-IsLater {db} {db'} (touched p f keep rs es) k r h =
    let (h', s) = touched_later db db' p f keep rs k r h in
    (cond_row p f r, h', IsLater-stage (cond_row p f r) r s)
Change-IsLater (chain c d) k r h =
    let (r₁, h₁, l₁) = Change-IsLater c k r h in
    let (r₂, h₂, l₂) = Change-IsLater d k r₁ h₁ in (r₂, h₂, IsLater-trans r₂ r₁ r l₂ l₁)
