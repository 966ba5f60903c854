-- ===== src/Requests/Lifecycle.antt =====
-- The phases and statuses of a CI request, and the moves between them: the tables at the top of
-- app/ci_request_store.py and `_validate_phase_status`, `_validate_transition_metadata`.
use github_mcp.Prelude.{Bool, true, false, ◌&&◌, ◌||◌, not, ℕ, ◌==◌, Option, String, truthy}
use github_mcp.Schema.{Phase, RequestStatus}
use github_mcp.Tx.{Result, illegal_transition}
use github_mcp.Tx.Check.{◌>>◌, require}

-- _TERMINAL_STATUSES
abbrev pub is_terminal_status : RequestStatus → Bool
is_terminal_status RequestStatus.accepted = false
is_terminal_status RequestStatus.preparing = false
is_terminal_status RequestStatus.queued = false
is_terminal_status RequestStatus.running = false
is_terminal_status _ = true

abbrev pub is_terminal : Phase → Bool
is_terminal Phase.terminal = true
is_terminal _ = false

abbrev pub phase_eq : Phase → Phase → Bool
phase_eq Phase.accepted Phase.accepted = true
phase_eq Phase.preparing Phase.preparing = true
phase_eq Phase.queued Phase.queued = true
phase_eq Phase.running Phase.running = true
phase_eq Phase.terminal Phase.terminal = true
phase_eq _ _ = false

-- A number for each status, by which two are compared.
abbrev pub status_code : RequestStatus → ℕ
status_code RequestStatus.accepted = 0
status_code RequestStatus.preparing = 1
status_code RequestStatus.queued = 2
status_code RequestStatus.running = 3
status_code RequestStatus.passed = 4
status_code RequestStatus.failed = 5
status_code RequestStatus.timed_out = 6
status_code RequestStatus.cancelled = 7
status_code RequestStatus.superseded = 8
status_code RequestStatus.worker_lost = 9
status_code RequestStatus.internal_error = 10
status_code RequestStatus.preflight_failed = 11

unfoldable pub status_eq : RequestStatus → RequestStatus → Bool
status_eq a b = status_code a == status_code b

-- (phase, status) in _VALID_PHASE_STATUS, which is also the table's CHECK.
unfoldable pub is_valid_pair : Phase → RequestStatus → Bool
is_valid_pair Phase.accepted RequestStatus.accepted = true
is_valid_pair Phase.preparing RequestStatus.preparing = true
is_valid_pair Phase.queued RequestStatus.queued = true
is_valid_pair Phase.running RequestStatus.running = true
is_valid_pair Phase.terminal s = is_terminal_status s
is_valid_pair _ _ = false

-- The entry of _ALLOWED_TRANSITIONS for a phase, whose status is the phase's own.
abbrev allowed_from : Phase → RequestStatus → Phase → RequestStatus → Bool
allowed_from Phase.accepted RequestStatus.accepted Phase.preparing RequestStatus.preparing = true
allowed_from Phase.accepted RequestStatus.accepted Phase.terminal RequestStatus.cancelled = true
allowed_from Phase.accepted RequestStatus.accepted Phase.terminal RequestStatus.superseded = true
allowed_from Phase.accepted RequestStatus.accepted Phase.terminal RequestStatus.internal_error =
    true
allowed_from Phase.preparing RequestStatus.preparing Phase.queued RequestStatus.queued = true
allowed_from Phase.preparing RequestStatus.preparing Phase.terminal RequestStatus.preflight_failed =
    true
allowed_from Phase.preparing RequestStatus.preparing Phase.terminal RequestStatus.cancelled = true
allowed_from Phase.preparing RequestStatus.preparing Phase.terminal RequestStatus.superseded = true
allowed_from Phase.preparing RequestStatus.preparing Phase.terminal RequestStatus.internal_error =
    true
allowed_from Phase.queued RequestStatus.queued Phase.running RequestStatus.running = true
allowed_from Phase.queued RequestStatus.queued Phase.terminal RequestStatus.cancelled = true
allowed_from Phase.queued RequestStatus.queued Phase.terminal RequestStatus.superseded = true
allowed_from Phase.queued RequestStatus.queued Phase.terminal RequestStatus.worker_lost = true
allowed_from Phase.queued RequestStatus.queued Phase.terminal RequestStatus.internal_error = true
allowed_from Phase.running RequestStatus.running Phase.terminal RequestStatus.passed = true
allowed_from Phase.running RequestStatus.running Phase.terminal RequestStatus.failed = true
allowed_from Phase.running RequestStatus.running Phase.terminal RequestStatus.timed_out = true
allowed_from Phase.running RequestStatus.running Phase.terminal RequestStatus.cancelled = true
allowed_from Phase.running RequestStatus.running Phase.terminal RequestStatus.superseded = true
allowed_from Phase.running RequestStatus.running Phase.terminal RequestStatus.worker_lost = true
allowed_from Phase.running RequestStatus.running Phase.terminal RequestStatus.internal_error = true
allowed_from _ _ _ _ = false

-- target in _ALLOWED_TRANSITIONS.get(current, set())
unfoldable pub allowed : Phase → RequestStatus → Phase → RequestStatus → Bool
allowed p s p' s' = allowed_from p s p' s'

-- `_validate_phase_status`; values outside the enumerations cannot be written down here.
unfoldable pub validate_phase_status : Phase → RequestStatus → Result (Unit {0})
validate_phase_status p s = require (is_valid_pair p s) illegal_transition

-- The optional columns that a transition may set.
pub record Metadata : Type 0 where
  pub preflight_error_id : Option String
  pub preflight_error_code : Option String
  pub terminal_reason : Option String
  pub failure_pack_id : Option String
  pub attestation_id : Option String

-- `_validate_transition_metadata`
unfoldable pub validate_transition_metadata : Phase → RequestStatus → Metadata → Result (Unit {0})
validate_transition_metadata p s m = do
  require
      (not (
        (truthy m.preflight_error_id || truthy m.preflight_error_code)
        && not (status_eq s RequestStatus.preflight_failed)))
      illegal_transition
  require (not (status_eq s RequestStatus.preflight_failed && not (truthy m.preflight_error_code)))
      illegal_transition
  require (not (truthy m.terminal_reason && not (is_terminal p))) illegal_transition
  require (not (truthy m.failure_pack_id && not (is_terminal p))) illegal_transition
  require (not (truthy m.attestation_id && not (status_eq s RequestStatus.passed)))
      illegal_transition
