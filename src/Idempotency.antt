-- ===== src/Idempotency.antt =====
-- The Idempotency-Key middleware, services/github-action-service/app/idempotency.py. All requests
-- share one connection, and each `await` of `dispatch` is a step: the statements, commits and
-- rollbacks of other requests may fall between two steps of a request. `digest` is the SHA-256 of a
-- request's method, path and body.
pub mod Durable
pub mod Answers
pub mod Claims
use github_mcp.Prelude.{
  String, Bool, ℕ, List, true, some, ltb, if◌then◌else◌, false, ◌∷◌, not, ◌==◌, str_eq, none, ◌&&◌,
  ◌||◌, ◌+◌, leb, ◌-◌, [], length, ◌*◌, any, is_some, Option,
}
use github_mcp.Requests.Queries.{codes}
use github_mcp.Table.{find, select, update}

pub data ClaimState : Type 0 where
  running completed : ClaimState

abbrev pub is_running : ClaimState → Bool
is_running ClaimState.running = true
is_running ClaimState.completed = false

-- Table idempotency, with PRIMARY KEY key.
pub record Claim : Type 0 where
  pub key : String
  pub request_hash : String
  pub status_code : ℕ
  pub response_json : String
  pub state : ClaimState
  pub created_at : ℕ

-- The connection: the table as its open transaction sees it, the table as committed, and the
-- middleware's `_last_cleanup_at`.
pub record Connection : Type 0 where
  pub working : List Claim
  pub committed : List Claim
  pub last_cleanup_at : ℕ

pub data Method : Type 0 where
  post put patch delete : Method
  other_method : String → Method

-- request.method in _IDEMPOTENCY_METHODS
abbrev pub is_guarded : Method → Bool
is_guarded (other_method m) = false
is_guarded _ = true

-- A request; the key is "" where the header is missing.
pub record HttpRequest : Type 0 where
  pub method : Method
  pub path : String
  pub body : String
  pub idempotency_key : String

-- A response, its body as text.
pub record Response : Type 0 where
  pub status_code : ℕ
  pub body : String

abbrev pub is_reserved : ℕ → Bool
is_reserved c = (c == 0x00) || (c == 0x0a) || (c == 0x0d)

-- _validate_idempotency_key
unfoldable pub validate_idempotency_key : String → Bool
validate_idempotency_key key =
    not (str_eq key "") && leb (length (codes key)) 256 && not (any is_reserved (codes key))

-- created_at < now - IDEMPOTENCY_TTL_HOURS * 3600
abbrev pub is_outdated : (ttl_hours now : ℕ) → Claim → Bool
is_outdated ttl_hours now c = ltb (c.created_at + ttl_hours * 3600) now

-- What the middleware answers without calling the application on a claim.
pub data Answer : Type 0 where
  pass_through : Answer
  invalid_idempotency_key : Answer
  idempotency_unavailable : Answer
  idempotency_key_reuse : Answer
  idempotency_in_progress : Answer
  replay : Response → Answer

abbrev pub by_key : String → Claim → Bool
by_key key c = str_eq c.key key

-- The answer to a request that could not insert its claim, from the row that it then finds.
unfoldable pub answer : (request_hash : String) → Option Claim → Answer
answer request_hash none = Answer.idempotency_unavailable
answer request_hash (some c) =
    if not (str_eq c.request_hash request_hash)
    then Answer.idempotency_key_reuse
    else if is_running c.state
    then Answer.idempotency_in_progress
    else Answer.replay (record { status_code = c.status_code; body = c.response_json })

abbrev pub new_claim : (key request_hash : String) → (now : ℕ) → Claim
new_claim key request_hash now = record {
  key = key;
  request_hash = request_hash;
  status_code = 0;
  response_json = "";
  state = ClaimState.running;
  created_at = now;
}

-- key = ? AND request_hash = ? AND state = 'running'
abbrev pub is_claim : (key request_hash : String) → Claim → Bool
is_claim key request_hash c =
    str_eq c.key key && str_eq c.request_hash request_hash && is_running c.state

abbrev pub completed_claim : Response → Claim → Claim
completed_claim a c = record c {
  status_code = a.status_code;
  response_json = a.body;
  state = ClaimState.completed;
}

-- What the middleware sends to the connection, less the SELECT, which changes nothing.
pub data Statement : Type 0 where
  insert : Claim → Statement
  store_response : (key request_hash : String) → Response → Statement
  remove_claim : (key request_hash : String) → Statement
  expire : (ttl_hours now : ℕ) → Statement
  commit rollback : Statement

-- A refused INSERT leaves the transaction open.
unfoldable pub execute : Statement → Connection → Connection
execute (insert c) s =
    if is_some (find (by_key c.key) s.working) then s else record s { working = c ∷ s.working }
execute (store_response key hash a) s = record s {
  working = update (is_claim key hash) (completed_claim a) s.working;
}
execute (remove_claim key hash) s = record s {
  working = select (λ c. not (is_claim key hash c)) s.working;
}
execute (expire ttl_hours now) s = record s {
  working = select (λ c. not (is_outdated ttl_hours now c)) s.working;
}
execute commit s = record s { committed = s.working }
execute rollback s = record s { working = s.committed }

unfoldable pub execute_all : List Statement → Connection → Connection
execute_all [] s = s
execute_all (x ∷ xs) s = execute_all xs (execute x s)

-- What `call_next` did, with the reading of the body: `unfinished` is a cancellation, or an
-- exception from `body_iterator`, for which no handler releases the claim.
pub data Outcome : Type 0 where
  raised unfinished : Outcome
  responded : Response → Outcome

-- Where a request stands in `dispatch`: the `await` that it has reached.
pub data Position : Type 0 where
  arriving cleaning cleaned inserting : (now : ℕ) → Position
  inserted colliding selecting executing : Position
  completing completed : Response → Position
  releasing released : Position
  answered : Answer → Position
  done stopped : Position

-- dispatch up to the first statement, with the test of `_cleanup_if_due`
unfoldable pub arrive : HttpRequest → (now : ℕ) → Connection → Position
arrive r now s =
    if not (is_guarded r.method) || str_eq r.idempotency_key ""
    then Position.answered Answer.pass_through
    else if not (validate_idempotency_key r.idempotency_key)
    then Position.answered Answer.invalid_idempotency_key
    else if ltb (now - s.last_cleanup_at) 3600
    then Position.inserting now
    else Position.cleaning now

-- dispatch, behind `call_next`
unfoldable pub after_call : Outcome → Position
after_call raised = Position.releasing
after_call unfinished = Position.stopped
after_call (responded a) =
    if leb 200 a.status_code && ltb a.status_code 500
    then Position.completing a
    else Position.releasing

-- One `await` of dispatch. The outcome is what the application does, if this step calls it.
unfoldable pub step :
    (digest : HttpRequest → String) (ttl_hours : ℕ)
    → HttpRequest
    → Outcome
    → Position
    → Connection
    → Position × Connection
step digest ttl r o (Position.arriving now) s = (arrive r now s, s)
step digest ttl r o (Position.cleaning now) s = (Position.cleaned now, execute (expire ttl now) s)
step digest ttl r o (Position.cleaned now) s =
    (Position.inserting now, record (execute commit s) { last_cleanup_at = now })
step digest ttl r o (Position.inserting now) s = (
  (if is_some (find (by_key r.idempotency_key) s.working)
      then Position.colliding
      else Position.inserted),
  execute (insert (new_claim r.idempotency_key (digest r) now)) s,
)
step digest ttl r o Position.inserted s = (Position.executing, execute commit s)
step digest ttl r o Position.colliding s = (Position.selecting, execute rollback s)
step digest ttl r o Position.selecting s =
    (Position.answered (answer (digest r) (find (by_key r.idempotency_key) s.working)), s)
step digest ttl r o Position.executing s = (after_call o, s)
step digest ttl r o (Position.completing a) s =
    (Position.completed a, execute (store_response r.idempotency_key (digest r) a) s)
step digest ttl r o (Position.completed a) s = (Position.done, execute commit s)
step digest ttl r o Position.releasing s =
    (Position.released, execute (remove_claim r.idempotency_key (digest r)) s)
step digest ttl r o Position.released s = (Position.done, execute commit s)
step digest ttl r o (Position.answered a) s = (Position.answered a, s)
step digest ttl r o Position.done s = (Position.done, s)
step digest ttl r o Position.stopped s = (Position.stopped, s)

-- A request, and behind each of its steps the statements that others send. A request that is
-- cancelled at an `await` takes no more steps.
unfoldable pub serve :
    (digest : HttpRequest → String) (ttl_hours : ℕ)
    → HttpRequest
    → Outcome
    → (others : List (List Statement)) → Position
    → Connection
    → Position × Connection
serve digest ttl r o [] st s = (st, s)
serve digest ttl r o (xs ∷ rest) st s =
    let (st', s') = step digest ttl r o st s in serve digest ttl r o rest st' (execute_all xs s')

-- cleanup
abbrev cleanup : (ttl_hours now : ℕ) → List Statement
cleanup ttl_hours now = expire ttl_hours now ∷ commit ∷ []
