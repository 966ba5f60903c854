-- ===== src/Schema.antt =====
-- The tables of the CI database: the schemas in services/github-action-service/app/ci_database.py
-- (`init_db`) and app/ci_request_store.py (`init_ci_request_schema`), and the enumerations of
-- app/ci_models.py. NULL is `none`; a REAL time stamp is a number of clock ticks.
use github_mcp.Prelude.{ℕ, ◌-◌, ◌==◌, leb, Bool, true, false, String, Option, List, if◌then◌else◌}

-- Signed integers: exit codes and time differences. `negsuc n` is -(n + 1).
pub data ℤ : Type 0 where
  pos : ℕ → ℤ
  negsuc : ℕ → ℤ

-- a - b, as an integer.
abbrev pub sub_ℕ : ℕ → ℕ → ℤ
sub_ℕ a b = if leb b a then pos (a - b) else negsuc (b - a - 1)

abbrev pub is_zero : ℤ → Bool
is_zero (pos n) = n == 0
is_zero (negsuc n) = false

-- CIJobStatus. The column is plain text, and a Worker's callback may write any; `other` is a text
-- that is none of the enumeration's.
pub data JobStatus : Type 0 where
  queued leased downloading preparing running passed failed timed_out : JobStatus
  cancel_requested cancelled worker_lost internal_error superseded : JobStatus
  other : String → JobStatus

-- status IN ('leased', 'downloading', 'preparing', 'running')
abbrev pub is_active : JobStatus → Bool
is_active JobStatus.leased = true
is_active JobStatus.downloading = true
is_active JobStatus.preparing = true
is_active JobStatus.running = true
is_active _ = false

abbrev pub is_queued : JobStatus → Bool
is_queued JobStatus.queued = true
is_queued _ = false

-- CIRequestPhase
pub data Phase : Type 0 where
  accepted preparing queued running terminal : Phase

-- CIRequestStatus
pub data RequestStatus : Type 0 where
  accepted preparing queued running passed failed timed_out cancelled : RequestStatus
  superseded worker_lost internal_error preflight_failed : RequestStatus

-- What `json.loads` makes of a job's `summary_json`.
pub data Summary : Type 0 where
  malformed : Summary
  not_object : Summary
  object : (git_tree_sha : Option String) → Summary

-- Table ci_jobs, less the columns that only monitoring reads.
pub record Job : Type 0 where
  pub job_id : String
  pub idempotency_key : String
  pub repository : String
  pub branch : String
  pub commit_sha : String
  pub base_sha : String
  pub changed_files : List String
  pub changed_files_total : ℕ
  pub changed_files_truncated : Bool
  pub profile : String
  pub priority : ℕ
  pub status : JobStatus
  pub worker_id : Option String
  pub lease_token_hash : Option String
  pub lease_expires_at : Option ℕ
  pub is_cancel_requested : Bool
  pub superseded_by_job_id : Option String
  pub attempts : ℕ
  pub max_attempts : ℕ
  pub exit_code : Option ℤ
  pub summary : Option Summary
  pub source_sha256 : Option String
  pub source_size_bytes : Option ℕ
  pub timeout_seconds : ℕ
  pub error_code : Option String
  pub error_message : Option String
  pub created_at : ℕ
  pub queued_at : Option ℕ
  pub started_at : Option ℕ
  pub finished_at : Option ℕ
  pub duration_seconds : Option ℤ
  pub log_total_bytes : ℕ

pub data WorkerStatus : Type 0 where
  idle busy : WorkerStatus

-- Table ci_workers.
pub record Worker : Type 0 where
  pub worker_id : String
  pub token_hash : String
  pub supported_profiles : List String
  pub max_concurrent : ℕ
  pub status : WorkerStatus
  pub current_job_id : Option String
  pub last_heartbeat : ℕ
  pub registered_at : ℕ

-- Table ci_repository_queue_state.
pub record QueueState : Type 0 where
  pub repository : String
  pub last_dispatched_at : ℕ
  pub running_jobs : ℕ
  pub queued_jobs : ℕ

-- The event types of ci_job_events, with what their `event_data` holds.
pub data JobEventKind : Type 0 where
  leased : (worker_id : String) (attempt : ℕ) → JobEventKind
  completed : JobStatus → ℤ → JobEventKind
  cancel_requested cancelled released : JobEventKind
  lease_expired : (attempts max_attempts : ℕ) → JobEventKind
  worker_recovered : (worker_id : String) → JobStatus → JobEventKind
  superseded : (old_job_id new_job_id : String) → JobEventKind
  source_downloaded : (size_bytes : ℕ) → JobEventKind
  log_revision : (bytes : ℕ) (batch_id : Option String) → JobEventKind
  step_completed : (step_id : ℕ) (step_name status : String) → JobEventKind

-- Table ci_job_events.
pub record JobEvent : Type 0 where
  pub job_id : String
  pub event_type : JobEventKind
  pub created_at : ℕ

-- The keys of a durable request payload that dispatch needs; `none` is a missing key.
pub record Payload : Type 0 where
  pub priority : Option ℕ
  pub timeout_seconds : Option ℕ
  pub base_sha : Option String
  pub supersede_previous : Option Bool

-- Table ci_requests.
pub record Request : Type 0 where
  pub request_id : String
  pub repository : String
  pub branch : String
  pub commit_sha : String
  pub tree_sha : Option String
  pub profile : String
  pub effective_config_digest : Option String
  pub status : RequestStatus
  pub phase : Phase
  pub revision : ℕ
  pub idempotency_key : Option String
  pub normalized_request_hash : Option String
  pub worker_job_id : Option String
  pub preflight_error_id : Option String
  pub preflight_error_code : Option String
  pub terminal_reason : Option String
  pub failure_pack_id : Option String
  pub attestation_id : Option String
  pub created_at : ℕ
  pub updated_at : ℕ
  pub last_event_id : Option ℕ

pub data EventType : Type 0 where
  legacy_backfill accepted worker_queued transition worker_terminal_reconciled : EventType
  worker_running_reconciled worker_attestation_linked : EventType

-- Table ci_request_events. Of `event_data` only the payload of an `accepted` event is read back.
pub record RequestEvent : Type 0 where
  pub event_id : ℕ
  pub request_id : String
  pub revision : ℕ
  pub event_type : EventType
  pub from_phase : Option Phase
  pub from_status : Option RequestStatus
  pub to_phase : Phase
  pub to_status : RequestStatus
  pub request_payload : Option Payload
  pub created_at : ℕ

-- The columns of ci_tree_attestations that the request store reads.
pub record Attestation : Type 0 where
  pub attestation_id : String
  pub private_ci_job_id : String
  pub repository : String
  pub tested_commit_sha : String
  pub tested_tree_sha : String
  pub profile : String
  pub is_active : Bool
  pub revoked_at : Option ℕ
  pub expires_at : ℕ
  pub created_at : ℕ

-- The database, and the AUTOINCREMENT counter of ci_request_events.
pub record Db : Type 0 where
  pub jobs : List Job
  pub workers : List Worker
  pub queue_states : List QueueState
  pub job_events : List JobEvent
  pub requests : List Request
  pub request_events : List RequestEvent
  pub attestations : List Attestation
  pub next_event_id : ℕ
