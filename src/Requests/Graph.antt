-- ===== src/Requests/Graph.antt =====
-- The lifecycle graph of requests: every move goes forward, and `terminal` has no way out.
use github_mcp.Requests.Lifecycle.{allowed, is_valid_pair, phase_eq, status_eq, status_code}
use github_mcp.Schema.{RequestStatus, Phase, JobStatus}
use github_mcp.Prelude.{
  ℕ, ◌≡◌, suc, zero, true, sym, arith, ◌<◌, ◌∙◌, ap, ◌⊎◌, refl, ◌≤◌, inl, inr, Bool, false, some,
}
use github_mcp.Requests.Reconcile.{may_project, worker_target}

pub phase_eq_sound : (p q : Phase) → phase_eq p q ≡ true → p ≡ q
phase_eq_sound p q h = ground arith

pub phase_eq_refl : (p : Phase) → phase_eq p p ≡ true
phase_eq_refl p = ground arith

of_code : ℕ → RequestStatus
of_code zero = RequestStatus.accepted
of_code (suc zero) = RequestStatus.preparing
of_code (suc (suc zero)) = RequestStatus.queued
of_code (suc (suc (suc zero))) = RequestStatus.running
of_code (suc (suc (suc (suc zero)))) = RequestStatus.passed
of_code (suc (suc (suc (suc (suc zero))))) = RequestStatus.failed
of_code (suc (suc (suc (suc (suc (suc zero)))))) = RequestStatus.timed_out
of_code (suc (suc (suc (suc (suc (suc (suc zero))))))) = RequestStatus.cancelled
of_code (suc (suc (suc (suc (suc (suc (suc (suc zero)))))))) = RequestStatus.superseded
of_code (suc (suc (suc (suc (suc (suc (suc (suc (suc zero))))))))) = RequestStatus.worker_lost
of_code (suc (suc (suc (suc (suc (suc (suc (suc (suc (suc zero)))))))))) =
    RequestStatus.internal_error
of_code _ = RequestStatus.preflight_failed

of_code-status_code : (s : RequestStatus) → of_code (status_code s) ≡ s
unfolding of_code
of_code-status_code RequestStatus.accepted = refl
of_code-status_code _ = refl

pub status_eq_sound : (a b : RequestStatus) → status_eq a b ≡ true → a ≡ b
unfolding status_eq
status_eq_sound a b h =
    sym (of_code-status_code a) ∙ ap of_code (ground arith) ∙ of_code-status_code b

pub status_eq_refl : (a : RequestStatus) → status_eq a a ≡ true
unfolding status_eq
status_eq_refl a = ground arith

-- How far a request has come.
abbrev pub phase_rank : Phase → ℕ
phase_rank Phase.accepted = 0
phase_rank Phase.preparing = 1
phase_rank Phase.queued = 2
phase_rank Phase.running = 3
phase_rank Phase.terminal = 4

pub allowed-lt-phase_rank :
    (p : Phase) (s : RequestStatus) (p' : Phase) (s' : RequestStatus)
    → allowed p s p' s' ≡ true
    → phase_rank p < phase_rank p'
unfolding allowed
allowed-lt-phase_rank p s p' s' h = ground arith

pub allowed-is_valid_pair :
    (p : Phase) (s : RequestStatus) (p' : Phase) (s' : RequestStatus)
    → allowed p s p' s' ≡ true
    → is_valid_pair p s ≡ true × is_valid_pair p' s' ≡ true
unfolding allowed is_valid_pair
allowed-is_valid_pair p s p' s' h = ground arith

-- The phases that a Worker Job can put its request into.
abbrev pub is_executed : Phase → Bool
is_executed Phase.running = true
is_executed Phase.terminal = true
is_executed _ = false

-- A move that a request may make: one of `_ALLOWED_TRANSITIONS`, or a projection of its Worker Job.
abbrev pub Move : Phase → RequestStatus → Phase → RequestStatus → Type 0
Move p s p' s' =
    (is_valid_pair p' s' ≡ true)
    × ((allowed p s p' s' ≡ true) ⊎ (may_project p s p' s' ≡ true) × (is_executed p' ≡ true))

-- A job's status calls for a valid stage, running or terminal.
pub worker_target_valid :
    (s : JobStatus) (p' : Phase) (s' : RequestStatus)
    → worker_target s ≡ some (p', s')
    → (is_valid_pair p' s' ≡ true) × (is_executed p' ≡ true)
unfolding is_valid_pair
worker_target_valid s p' s' h = ground arith

-- A move, one of the transition table or a projection of a Worker Job, never goes to an earlier
-- phase, and one from `terminal` stays terminal with the same status.
pub Move-forward :
    (p : Phase) (s : RequestStatus) (p' : Phase) (s' : RequestStatus)
    → Move p s p' s'
    → (phase_rank p ≤ phase_rank p') × (p ≡ Phase.terminal → (p' ≡ Phase.terminal) × (s' ≡ s))
unfolding allowed may_project
Move-forward Phase.terminal s p' s' (v, inl a) = absurd (ground arith)
Move-forward Phase.terminal s p' s' (v, inr a) =
    ground (arith, phase_eq_sound p' Phase.terminal, status_eq_sound s s')
Move-forward _ s p' s' (v, inl a) = ground arith
Move-forward _ s p' s' (v, inr a) = ground arith
