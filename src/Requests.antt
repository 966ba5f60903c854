-- ===== src/Requests.antt =====
-- Durable CI requests: services/github-action-service/app/ci_request_store.py.
pub mod Lifecycle
pub mod Queries
pub mod Checks
pub mod Create
pub mod Transition
pub mod Reconcile
pub mod Graph
pub mod Guards
pub mod Keyed
pub mod Trail
pub mod Audit
pub mod Dispatch
pub mod Inversion
pub mod Changes
pub mod ChangesAudit
pub mod Progress
pub mod Projected
pub mod Steps
pub mod StepsCreate
pub mod StepsDispatch
pub mod TransitionOutcome
pub mod TransitionTotal
pub mod Evidence
pub mod Replay
pub mod Settled
pub mod DispatchOnce
