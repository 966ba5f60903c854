-- ===== src/Convergence.antt =====
-- Convergence runs: the tables of services/github-action-service/app/
-- development_convergence_store.py (`init_convergence_db`) and the queries on them.
pub mod Writes
pub mod Create
pub mod Changes
pub mod Steps
pub mod StepsCreate
pub mod Progress
pub mod History
pub mod Unique
pub mod Runs
pub mod Binding
pub mod Live
pub mod Replay
use github_mcp.Tx.Check.{◌>>=◌, ◌>>◌, require, found}
use github_mcp.Table.{find, select, first_by}
use github_mcp.Requests.Queries.{codes, is_sha, is_sha256}
use github_mcp.Tx.{Result, ok, not_found, revision_conflict}
use github_mcp.Prelude.{
  [], ◌∷◌, none, some, true, false, Option, List, String, ℕ, Bool, leb, not, ltb, str_eq, ◌&&◌,
  ◌==◌, any, ◌||◌,
}

pub data Mode : Type 0 where
  fast full : Mode

abbrev pub mode_eq : Mode → Mode → Bool
mode_eq Mode.fast Mode.fast = true
mode_eq Mode.full Mode.full = true
mode_eq _ _ = false

-- CONVERGENCE_PHASES; a text outside it cannot be written down here.
pub data RunPhase : Type 0 where
  accepted index_requested analysis_pending ci_requested ci_running : RunPhase
  post_ci_finalize passed failed blocked : RunPhase

-- TERMINAL_PHASES
unfoldable pub is_terminal_phase : RunPhase → Bool
is_terminal_phase RunPhase.passed = true
is_terminal_phase RunPhase.failed = true
is_terminal_phase RunPhase.blocked = true
is_terminal_phase _ = false

-- Table development_convergences. NULL is `none`.
pub record Convergence : Type 0 where
  pub convergence_id : String
  pub repository : String
  pub branch : String
  pub development_session_id : String
  pub workspace_id : String
  pub session_revision : ℕ
  pub workspace_revision : ℕ
  pub head_sha : String
  pub tree_sha : String
  pub base_branch : String
  pub base_sha : String
  pub mode : Mode
  pub phase : RunPhase
  pub status : String
  pub revision : ℕ
  pub terminal : Bool
  pub index_job_id : Option String
  pub ci_request_id : Option String
  pub ci_job_id : Option String
  pub attestation_id : Option String
  pub failure_pack_id : Option String
  pub error_code : Option String
  pub error_message : Option String
  pub idempotency_key : Option String
  pub request_identity_hash : String
  pub caller_identity_hash : Option String
  pub created_at : ℕ
  pub updated_at : ℕ
  pub finished_at : Option ℕ

-- ANALYSIS_STAGES
pub data Stage : Type 0 where
  index change_context change_impact contract_detection affected_tests : Stage

abbrev pub stage_eq : Stage → Stage → Bool
stage_eq Stage.index Stage.index = true
stage_eq Stage.change_context Stage.change_context = true
stage_eq Stage.change_impact Stage.change_impact = true
stage_eq Stage.contract_detection Stage.contract_detection = true
stage_eq Stage.affected_tests Stage.affected_tests = true
stage_eq _ _ = false

-- ANALYSIS_STATES
pub data AnalysisState : Type 0 where
  pending ready failed degraded : AnalysisState

-- Table development_convergence_analysis.
pub record Analysis : Type 0 where
  pub convergence_id : String
  pub stage : Stage
  pub state : AnalysisState
  pub resource_uri : Option String
  pub resource_identity : Option String
  pub error_code : Option String
  pub error_message : Option String
  pub updated_at : ℕ

-- Table development_convergence_events, less the metadata, which only a reader of the history sees.
pub record ConvergenceEvent : Type 0 where
  pub convergence_id : String
  pub revision : ℕ
  pub event_type : String
  pub from_phase : Option RunPhase
  pub to_phase : Option RunPhase
  pub from_status : Option String
  pub to_status : Option String
  pub created_at : ℕ

pub record RunDb : Type 0 where
  pub convergences : List Convergence
  pub analysis : List Analysis
  pub events : List ConvergenceEvent

abbrev pub by_run_id : String → Convergence → Bool
by_run_id id r = str_eq r.convergence_id id

-- SELECT * … WHERE convergence_id = ?
unfoldable pub stored_run : RunDb → String → Option Convergence
stored_run db id = find (by_run_id id) db.convergences

-- _get_row; the error is DEVELOPMENT_CONVERGENCE_NOT_FOUND.
unfoldable pub get_row : RunDb → String → Result Convergence
get_row db id = found (stored_run db id) not_found

-- _require_revision; the error is DEVELOPMENT_CONVERGENCE_REVISION_MISMATCH.
unfoldable pub require_revision : RunDb → String → (expected_revision : ℕ) → Result Convergence
require_revision db id expected_revision = do
  row ← get_row db id
  require (row.revision == expected_revision) revision_conflict
  ok row

-- _analysis_rows
unfoldable pub analysis_rows : RunDb → String → List Analysis
analysis_rows db id = select (λ a. str_eq a.convergence_id id) db.analysis

-- _public: the row and its analysis.
pub record Public : Type 0 where
  pub run : Convergence
  pub analysis : List Analysis

unfoldable pub public_view : RunDb → Convergence → Public
public_view db row = record { run = row; analysis = analysis_rows db row.convergence_id }

-- get_convergence
unfoldable pub get_convergence : RunDb → String → Result Public
get_convergence db id = do row ← get_row db id; ok (public_view db row)

-- What makes two runs the same while one is active.
pub record RunKey : Type 0 where
  pub repository : String
  pub development_session_id : String
  pub head_sha : String
  pub tree_sha : String
  pub mode : Mode
  pub base_branch : String
  pub base_sha : String

-- The WHERE of `_active_row`.
abbrev pub is_active_run : RunKey → Convergence → Bool
is_active_run k r =
    str_eq r.repository k.repository
    && str_eq r.development_session_id k.development_session_id
    && str_eq r.head_sha k.head_sha
    && str_eq r.tree_sha k.tree_sha
    && mode_eq r.mode k.mode
    && str_eq r.base_branch k.base_branch
    && str_eq r.base_sha k.base_sha
    && not r.terminal

-- ORDER BY created_at LIMIT 1
abbrev pub older_run : Convergence → Convergence → Bool
older_run a b = ltb a.created_at b.created_at

-- _active_row
unfoldable pub active_row : RunDb → RunKey → Option Convergence
active_row db k = first_by older_run (select (is_active_run k) db.convergences)

-- find_active_convergence
unfoldable pub find_active_convergence : RunDb → RunKey → Option Public
find_active_convergence db k = elim (active_row db k) [
  | none ↦ none
  | some r ↦ some (public_view db r)
]

-- Python's str.isspace, on a code point.
abbrev is_space : ℕ → Bool
is_space c =
    leb 9 c && leb c 13
    || leb 28 c && leb c 32
    || c == 0x85
    || c == 0xa0
    || c == 0x1680
    || leb 0x2000 c && leb c 0x200a
    || c == 0x2028
    || c == 0x2029
    || c == 0x202f
    || c == 0x205f
    || c == 0x3000

-- not str(value or "").strip()
unfoldable pub is_blank : String → Bool
is_blank s = not (any (λ c. not (is_space c)) (codes s))
