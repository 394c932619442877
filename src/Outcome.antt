-- ===== src/Outcome.antt =====
-- src/outcome.rs: how the result of an execution and the signals around it become one outcome.
use rustgrid_agent.Prelude.{ℕ, String, Bool, true, false, not, Option, none, some, if◌then◌else◌}
use rustgrid_agent.Failure.{
  CancellationError, ExecutionFailureKind, TerminalOutcome, terminal_outcome,
}

pub record RunSummary : Type 0 where
  pub ticket_key : String
  pub branch : String
  pub commit : String
  pub pull_request_url : String
  pub direct_operation_summary : Option String

abbrev pub unwrap_or : Option String → String → String
unwrap_or none s = s
unwrap_or (some t) s = t

unfoldable pub output_summary : RunSummary → String
output_summary s = unwrap_or s.direct_operation_summary s.pull_request_url

pub data ExecutionResult : Type 0 where
  finished : RunSummary → ExecutionResult
  failure : ExecutionFailureKind → ExecutionResult

pub data RunOutcome : Type 0 where
  succeeded : RunSummary → RunOutcome
  blocked cancelled timed_out lease_lost failed : ExecutionFailureKind → RunOutcome

unfoldable pub should_retain_sandbox : RunOutcome → Bool
should_retain_sandbox (RunOutcome.succeeded s) = false
should_retain_sandbox _ = true

unfoldable pub by_terminal_outcome : TerminalOutcome → ExecutionFailureKind → RunOutcome
by_terminal_outcome TerminalOutcome.lease_lost error = RunOutcome.lease_lost error
by_terminal_outcome TerminalOutcome.cancelled error = RunOutcome.cancelled error
by_terminal_outcome TerminalOutcome.timed_out error = RunOutcome.timed_out error
by_terminal_outcome TerminalOutcome.blocked error = RunOutcome.blocked error
by_terminal_outcome TerminalOutcome.failed error = RunOutcome.failed error

unfoldable pub resolve_result : ExecutionResult → Bool → Bool → RunOutcome
unfolding by_terminal_outcome terminal_outcome
resolve_result (ExecutionResult.finished summary) execution_running shutdown_requested =
    RunOutcome.succeeded summary
resolve_result (ExecutionResult.failure error) execution_running shutdown_requested =
    if shutdown_requested
    then RunOutcome.cancelled ExecutionFailureKind.shutdown
    else if not execution_running
    then RunOutcome.cancelled (ExecutionFailureKind.cancellation CancellationError.requested)
    else by_terminal_outcome (terminal_outcome error) error

unfoldable pub resolve : ExecutionResult → Bool → Bool → Bool → Bool → ℕ → RunOutcome
unfolding resolve_result
resolve result lost expired execution_running shutdown_requested timeout_seconds =
    if lost
    then RunOutcome.lease_lost (ExecutionFailureKind.lease_lost "run supervision")
    else if expired
    then RunOutcome.timed_out (ExecutionFailureKind.timed_out (some timeout_seconds))
    else resolve_result result execution_running shutdown_requested
