-- ===== src/Requests/Keyed.antt =====
-- An idempotency key stays with its request through every change.
use mathlib.Core.Option
use github_mcp.Schema.{Request, Db}
use github_mcp.Prelude.{
  String, Bool, ◌≡◌, List, col_eq, ap, some, ◌∙◌, cond_row, Bool-cases, inl, inr, ◌∷◌, refl,
}
use github_mcp.Requests.Queries.{get_ci_request_by_idempotency_key, get_ci_request}
use github_mcp.Table.{find, update}
use github_mcp.Requests.Audit.{IsAudited, SameIdentity, id_of}
use github_mcp.Table.Keys.{find-key}
use github_mcp.Table.Laws.{find-update}
use github_mcp.Requests.Changes.{Change, still, moved, added, touched, chain}

key-update :
    (p : Request → Bool) (f : Request → Request) (xs : List Request) (k : String) (r : Request)
    → ((x : Request) → SameIdentity (f x) x)
    → find (λ (x : Request). col_eq x.idempotency_key k) xs ≡ some r
    → (r' : Request) × (find (λ (x : Request). col_eq x.idempotency_key k) (update p f xs)
        ≡ some r')
      × (r'.request_id ≡ r.request_id)
key-update p f xs k r same h = (
  cond_row p f r,
  find-update (λ (x : Request). col_eq x.idempotency_key k) p f xs
        (λ x. ap (λ i. col_eq i k) ((same x).idempotency_key))
      ∙ ap (Option.map (cond_row p f)) h,
  elim (Bool-cases (p r)) [ inl e ↦ rw e ((same r).request_id) | inr e ↦ rw e refl ],
)

key-get :
    (db db' : Db) (xs : List Request) (k : String)
    → db'.requests ≡ xs
    → get_ci_request_by_idempotency_key db' k
      ≡ find (λ (x : Request). col_eq x.idempotency_key k) xs
unfolding get_ci_request_by_idempotency_key
key-get db db' xs k e = ap (find (λ (x : Request). col_eq x.idempotency_key k)) e

-- The request that a key finds before a change, it finds after it.
pub Change-key :
    {db db' : Db}
    → Change db db'
    → (k : String) (r : Request) → get_ci_request_by_idempotency_key db k ≡ some r
    → (r' : Request) × (get_ci_request_by_idempotency_key db' k ≡ some r')
      × (r'.request_id ≡ r.request_id)
unfolding get_ci_request_by_idempotency_key find
Change-key {db} {db'} (still rs es) k r h = (r, key-get db db' db.requests k rs ∙ h, refl)
Change-key {db} {db'} (moved id row e p f a rs es) k r h =
    let (r', at, same) = key-update p f db.requests k r a.keeps_source h in
    (r', key-get db db' (update p f db.requests) k rs ∙ at, same)
Change-key {db} {db'} (added x e o rs es) k r h = elim (Bool-cases (col_eq x.idempotency_key k)) [
  | inl same ↦ absurd (cc (o.new_key k same, h))
  | inr ne ↦ (r, key-get db db' (x ∷ db.requests) k rs ∙ rw ne h, refl)
]
Change-key {db} {db'} (touched p f keep rs es) k r h =
    let (r', at, same) = key-update p f db.requests k r (λ x. (keep x).identity) h in
    (r', key-get db db' (update p f db.requests) k rs ∙ at, same)
Change-key (chain c d) k r h =
    let (r₁, h₁, e₁) = Change-key c k r h in
    let (r₂, h₂, e₂) = Change-key d k r₁ h₁ in (r₂, h₂, e₂ ∙ e₁)

-- A row that a key finds is the one that its own id finds.
pub key-stored :
    (db : Db) (k : String) (r : Request)
    → IsAudited db
    → get_ci_request_by_idempotency_key db k ≡ some r
    → get_ci_request db r.request_id ≡ some r
unfolding get_ci_request_by_idempotency_key get_ci_request
key-stored db k r v h =
    find-key id_of (λ (x : Request). col_eq x.idempotency_key k) db.requests r v.keyed h
