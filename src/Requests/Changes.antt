-- ===== src/Requests/Changes.antt =====
-- What an operation may do to the request tables: nothing, an advance, a new request with its first
-- event, an UPDATE of columns outside the lifecycle, or one such change after another.
use github_mcp.Schema.{Request, Db, RequestEvent}
use github_mcp.Prelude.{Bool, ◌≡◌, none, ◌∷◌, String, true, col_eq}
use github_mcp.Requests.Queries.{get_ci_request, get_ci_request_by_idempotency_key}
use github_mcp.Table.{update}
use github_mcp.Requests.Lifecycle.{is_valid_pair}
use github_mcp.Requests.Audit.{IsAdvance, SameIdentity}

-- The columns that the lifecycle is about.
pub record SameStage (r' r : Request) : Type 0 where
  pub identity : SameIdentity r' r
  pub tree_sha : r'.tree_sha ≡ r.tree_sha
  pub revision : r'.revision ≡ r.revision
  pub phase : r'.phase ≡ r.phase
  pub status : r'.status ≡ r.status

-- A new request and its first event.
pub record IsOpening (db : Db) (r : Request) (e : RequestEvent) : Type 0 where
  pub fresh : get_ci_request db r.request_id ≡ none
  pub event_id : e.request_id ≡ r.request_id
  pub revision : r.revision ≡ 0
  pub event_revision : e.revision ≡ 0
  pub from_phase : e.from_phase ≡ none
  pub to_phase : e.to_phase ≡ r.phase
  pub to_status : e.to_status ≡ r.status
  pub valid : is_valid_pair r.phase r.status ≡ true
  pub new_key :
      (k : String)
      → col_eq r.idempotency_key k ≡ true
      → get_ci_request_by_idempotency_key db k ≡ none

pub data Change : Db → Db → Type 0 where
  still :
      {db db' : Db}
      → db'.requests ≡ db.requests
      → db'.request_events ≡ db.request_events
      → Change db db'
  moved :
      {db db' : Db} (id : String) (row : Request) (e : RequestEvent) (p : Request → Bool)
      (f : Request → Request)
      → IsAdvance db id row e p f
      → db'.requests ≡ update p f db.requests
      → db'.request_events ≡ e ∷ db.request_events
      → Change db db'
  added :
      {db db' : Db} (r : Request) (e : RequestEvent)
      → IsOpening db r e
      → db'.requests ≡ r ∷ db.requests
      → db'.request_events ≡ e ∷ db.request_events
      → Change db db'
  touched :
      {db db' : Db} (p : Request → Bool) (f : Request → Request)
      → ((r : Request) → SameStage (f r) r)
      → db'.requests ≡ update p f db.requests
      → db'.request_events ≡ db.request_events
      → Change db db'
  chain : {db db₁ db' : Db} → Change db db₁ → Change db₁ db' → Change db db'
