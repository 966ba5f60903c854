-- ===== src/Requests/Queries.antt =====
-- Reads and the event writer of app/ci_request_store.py: `get_ci_request` and its variants,
-- `_get_ci_request_payload_in_db`, `list_pending_ci_requests`, `_assert_worker_job_identity`,
-- `_insert_event`, and the validators of a new request.
use Prim.Native.Char.{code}
use github_mcp.Schema.{Payload, EventType, Job, Db, RequestEvent, Request, Phase, RequestStatus}
use github_mcp.Prelude.{
  String, ℕ, List, Bool, str_eq, Option, none, [], true, length, col_eq, leb, any, ◌∷◌, ◌==◌, ◌&&◌,
  ◌||◌, some, suc,
}
use github_mcp.Tx.{identity_mismatch, integrity_error}
use github_mcp.Tx.{M, Result, ok, err}
use github_mcp.Tx.Check.{◌>>=◌, found, require}
use github_mcp.Table.{find, select}

-- The code points of a text.
abbrev pub codes : String → List ℕ
codes String.[] = []
codes (String.◌∷◌ c s) = code c ∷ codes s

is_hex_digit : ℕ → Bool
is_hex_digit c = leb b'0' c && leb c b'9' || leb b'a' c && leb c b'f'

all_hex : List ℕ → Bool
unfolding is_hex_digit
all_hex [] = true
all_hex (c ∷ cs) = is_hex_digit c && all_hex cs

-- _SHA_RE.fullmatch, _HASH_RE.fullmatch: exactly `n` lowercase hexadecimal digits.
unfoldable pub is_lower_hex : ℕ → String → Bool
unfolding all_hex
is_lower_hex n s = (length (codes s) == n) && all_hex (codes s)

abbrev pub is_sha : String → Bool
is_sha = is_lower_hex 40

abbrev pub is_sha256 : String → Bool
is_sha256 = is_lower_hex 64

-- "/" in repository
unfoldable pub has_slash : String → Bool
has_slash s = any (λ c. c == b'/') (codes s)

abbrev pub by_request_id : String → Request → Bool
by_request_id id r = str_eq r.request_id id

-- get_ci_request
unfoldable pub get_ci_request : Db → String → Option Request
get_ci_request db id = find (by_request_id id) db.requests

-- get_ci_request_by_idempotency_key
unfoldable pub get_ci_request_by_idempotency_key : Db → String → Option Request
get_ci_request_by_idempotency_key db key = find (λ r. col_eq r.idempotency_key key) db.requests

-- get_ci_request_by_worker_job_id
unfoldable pub get_ci_request_by_worker_job_id : Db → String → Option Request
get_ci_request_by_worker_job_id db id = find (λ r. col_eq r.worker_job_id id) db.requests

abbrev pub by_event_request : String → RequestEvent → Bool
by_event_request id e = str_eq e.request_id id

-- get_ci_request_events, the newest first
unfoldable pub get_ci_request_events : Db → String → List RequestEvent
get_ci_request_events db id = select (by_event_request id) db.request_events

unfoldable pub no_payload : Payload
no_payload = record {
  priority = none;
  timeout_seconds = none;
  base_sha = none;
  supersede_previous = none;
}

-- _get_ci_request_payload_in_db
unfoldable pub get_ci_request_payload : Db → String → Payload
get_ci_request_payload db id =
    elim (find (λ e. str_eq e.request_id id && (e.revision == 0)) db.request_events) [
      | none ↦ no_payload
      | some e ↦ elim e.request_payload [ none ↦ no_payload | some p ↦ p ]
    ]

abbrev pub by_job_id : String → Job → Bool
by_job_id id j = str_eq j.job_id id

unfoldable pub get_job : Db → String → Option Job
get_job db id = find (by_job_id id) db.jobs

-- repository, branch, commit_sha and profile agree
unfoldable pub same_source : Job → Request → Bool
same_source j r =
    str_eq j.repository r.repository
    && str_eq j.branch r.branch
    && str_eq j.commit_sha r.commit_sha
    && str_eq j.profile r.profile

-- _assert_worker_job_identity
unfoldable pub assert_worker_job_identity : Db → Request → String → Result (Unit {0})
assert_worker_job_identity db r id = do
  job ← found (get_job db id) identity_mismatch
  require (same_source job r) identity_mismatch

-- What `_insert_event` is given, less the identity and revision of the request.
pub record NewEvent : Type 0 where
  pub event_type : EventType
  pub from_phase : Option Phase
  pub from_status : Option RequestStatus
  pub to_phase : Phase
  pub to_status : RequestStatus
  pub request_payload : Option Payload

-- The row that an INSERT into ci_request_events adds.
abbrev pub event_row : ℕ → String → ℕ → NewEvent → ℕ → RequestEvent
event_row event_id id revision e now = record {
  event_id = event_id;
  request_id = id;
  revision = revision;
  event_type = e.event_type;
  from_phase = e.from_phase;
  from_status = e.from_status;
  to_phase = e.to_phase;
  to_status = e.to_status;
  request_payload = e.request_payload;
  created_at = now;
}

-- _insert_event, with the table's UNIQUE (request_id, revision)
unfoldable pub insert_event : String → ℕ → NewEvent → ℕ → M Db ℕ
insert_event id revision e now db =
    elim (find (λ x. str_eq x.request_id id && (x.revision == revision)) db.request_events) [
      | some x ↦ (err integrity_error, db)
      | none ↦ (
        ok db.next_event_id,
        record db {
          request_events = event_row db.next_event_id id revision e now ∷ db.request_events;
          next_event_id = suc db.next_event_id;
        },
      )
    ]
