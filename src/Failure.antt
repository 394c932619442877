-- ===== src/Failure.antt =====
-- src/error.rs: the kinds of execution failures, and the terminal outcome, the retry advice and the
-- telemetry code of each. The texts of a failure are not modelled.
use rustgrid_agent.Prelude.{ℕ, String, Bool, true, false, Option}

pub data TerminalOutcome : Type 0 where
  cancelled lease_lost timed_out blocked failed : TerminalOutcome

pub data TelemetryErrorCode : Type 0 where
  execution_cancelled worker_shutdown lease_lost authentication_rejected : TelemetryErrorCode
  authorization_rejected invalid_signed_manifest invalid_execution_policy : TelemetryErrorCode
  control_plane_unavailable control_plane_rejected provider_protocol_failure : TelemetryErrorCode
  provider_budget_exhausted invalid_model_artifact repository_conflict : TelemetryErrorCode
  remote_branch_moved validation_failed publication_failed recovery_failed : TelemetryErrorCode
  local_infrastructure_failed execution_timed_out human_intervention_required : TelemetryErrorCode
  internal_invariant_failed : TelemetryErrorCode

pub data CancellationError : Type 0 where
  requested command : CancellationError

pub data AccessError : Type 0 where
  authentication_rejected authorization_rejected : AccessError

pub data ManifestError : Type 0 where
  invalid_signature invalid_policy : ManifestError

-- The operation, the status and the request id.
pub data ControlPlaneError : Type 0 where
  retryable rejected : String → Option ℕ → Option String → ControlPlaneError

pub data ProviderError : Type 0 where
  protocol budget_exhausted invalid_artifact : ProviderError

pub data RepositoryError : Type 0 where
  conflict : Option String → RepositoryError
  remote_branch_moved : String → RepositoryError

pub data RecoveryError : Type 0 where
  journal_read journal_write invalid_checkpoint publication : RecoveryError

-- `validation` has the gate and `repairable`, `publication` the stage and `retryable`,
-- `infrastructure` the component and `retryable`.
pub data ExecutionFailureKind : Type 0 where
  cancellation : CancellationError → ExecutionFailureKind
  shutdown : ExecutionFailureKind
  lease_lost : String → ExecutionFailureKind
  access : AccessError → ExecutionFailureKind
  manifest : ManifestError → ExecutionFailureKind
  control_plane : ControlPlaneError → ExecutionFailureKind
  provider : ProviderError → ExecutionFailureKind
  repository : RepositoryError → ExecutionFailureKind
  validation : Option String → Bool → ExecutionFailureKind
  publication : String → Bool → ExecutionFailureKind
  recovery : RecoveryError → ExecutionFailureKind
  infrastructure : String → Bool → ExecutionFailureKind
  timed_out : Option ℕ → ExecutionFailureKind
  human_blocked : ExecutionFailureKind
  invariant : ExecutionFailureKind

unfoldable pub is_retryable : ExecutionFailureKind → Bool
is_retryable (ExecutionFailureKind.control_plane (ControlPlaneError.retryable o s r)) = true
is_retryable (ExecutionFailureKind.recovery RecoveryError.journal_read) = true
is_retryable (ExecutionFailureKind.recovery RecoveryError.journal_write) = true
is_retryable (ExecutionFailureKind.recovery RecoveryError.publication) = true
is_retryable (ExecutionFailureKind.timed_out seconds) = true
is_retryable (ExecutionFailureKind.validation gate repairable) = repairable
is_retryable (ExecutionFailureKind.publication stage retry) = retry
is_retryable (ExecutionFailureKind.infrastructure component retry) = retry
is_retryable _ = false

unfoldable pub terminal_outcome : ExecutionFailureKind → TerminalOutcome
terminal_outcome (ExecutionFailureKind.cancellation c) = TerminalOutcome.cancelled
terminal_outcome ExecutionFailureKind.shutdown = TerminalOutcome.cancelled
terminal_outcome (ExecutionFailureKind.lease_lost operation) = TerminalOutcome.lease_lost
terminal_outcome (ExecutionFailureKind.timed_out seconds) = TerminalOutcome.timed_out
terminal_outcome (ExecutionFailureKind.access e) = TerminalOutcome.blocked
terminal_outcome (ExecutionFailureKind.manifest e) = TerminalOutcome.blocked
terminal_outcome (ExecutionFailureKind.control_plane (ControlPlaneError.rejected o s r)) =
    TerminalOutcome.blocked
terminal_outcome (ExecutionFailureKind.provider e) = TerminalOutcome.blocked
terminal_outcome (ExecutionFailureKind.repository e) = TerminalOutcome.blocked
terminal_outcome (ExecutionFailureKind.validation gate repairable) = TerminalOutcome.blocked
terminal_outcome (ExecutionFailureKind.publication stage false) = TerminalOutcome.blocked
terminal_outcome (ExecutionFailureKind.recovery RecoveryError.invalid_checkpoint) =
    TerminalOutcome.blocked
terminal_outcome (ExecutionFailureKind.infrastructure component false) = TerminalOutcome.blocked
terminal_outcome ExecutionFailureKind.human_blocked = TerminalOutcome.blocked
terminal_outcome _ = TerminalOutcome.failed

unfoldable pub telemetry_code : ExecutionFailureKind → TelemetryErrorCode
telemetry_code (ExecutionFailureKind.cancellation c) = TelemetryErrorCode.execution_cancelled
telemetry_code ExecutionFailureKind.shutdown = TelemetryErrorCode.worker_shutdown
telemetry_code (ExecutionFailureKind.lease_lost operation) = TelemetryErrorCode.lease_lost
telemetry_code (ExecutionFailureKind.access AccessError.authentication_rejected) =
    TelemetryErrorCode.authentication_rejected
telemetry_code (ExecutionFailureKind.access AccessError.authorization_rejected) =
    TelemetryErrorCode.authorization_rejected
telemetry_code (ExecutionFailureKind.manifest ManifestError.invalid_signature) =
    TelemetryErrorCode.invalid_signed_manifest
telemetry_code (ExecutionFailureKind.manifest ManifestError.invalid_policy) =
    TelemetryErrorCode.invalid_execution_policy
telemetry_code (ExecutionFailureKind.control_plane (ControlPlaneError.retryable o s r)) =
    TelemetryErrorCode.control_plane_unavailable
telemetry_code (ExecutionFailureKind.control_plane (ControlPlaneError.rejected o s r)) =
    TelemetryErrorCode.control_plane_rejected
telemetry_code (ExecutionFailureKind.provider ProviderError.protocol) =
    TelemetryErrorCode.provider_protocol_failure
telemetry_code (ExecutionFailureKind.provider ProviderError.budget_exhausted) =
    TelemetryErrorCode.provider_budget_exhausted
telemetry_code (ExecutionFailureKind.provider ProviderError.invalid_artifact) =
    TelemetryErrorCode.invalid_model_artifact
telemetry_code (ExecutionFailureKind.repository (RepositoryError.conflict path)) =
    TelemetryErrorCode.repository_conflict
telemetry_code (ExecutionFailureKind.repository (RepositoryError.remote_branch_moved branch)) =
    TelemetryErrorCode.remote_branch_moved
telemetry_code (ExecutionFailureKind.validation gate repairable) =
    TelemetryErrorCode.validation_failed
telemetry_code (ExecutionFailureKind.publication stage retry) =
    TelemetryErrorCode.publication_failed
telemetry_code (ExecutionFailureKind.recovery e) = TelemetryErrorCode.recovery_failed
telemetry_code (ExecutionFailureKind.infrastructure component retry) =
    TelemetryErrorCode.local_infrastructure_failed
telemetry_code (ExecutionFailureKind.timed_out seconds) = TelemetryErrorCode.execution_timed_out
telemetry_code ExecutionFailureKind.human_blocked = TelemetryErrorCode.human_intervention_required
telemetry_code ExecutionFailureKind.invariant = TelemetryErrorCode.internal_invariant_failed

unfoldable pub may_publish_terminal_state : ExecutionFailureKind → Bool
may_publish_terminal_state (ExecutionFailureKind.lease_lost operation) = false
may_publish_terminal_state _ = true
