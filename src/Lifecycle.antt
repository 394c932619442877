-- ===== src/Lifecycle.antt =====
-- src/lifecycle.rs: the phases of a run, and the guarded write of the phase in src/reporting.rs.
pub mod Phases
use rustgrid_agent.Prelude.{Bool, true, false, String, if◌then◌else◌}

pub data RunPhase : Type 0 where
  claimed preparing executing verifying publishing awaiting_review succeeded : RunPhase
  blocked failed cancelled timed_out : RunPhase

unfoldable pub as_str : RunPhase → String
as_str RunPhase.claimed = "claimed"
as_str RunPhase.preparing = "preparing"
as_str RunPhase.executing = "executing"
as_str RunPhase.verifying = "verifying"
as_str RunPhase.publishing = "publishing"
as_str RunPhase.awaiting_review = "awaiting_review"
as_str RunPhase.succeeded = "succeeded"
as_str RunPhase.blocked = "blocked"
as_str RunPhase.failed = "failed"
as_str RunPhase.cancelled = "cancelled"
as_str RunPhase.timed_out = "timed_out"

unfoldable pub is_terminal : RunPhase → Bool
is_terminal RunPhase.succeeded = true
is_terminal RunPhase.blocked = true
is_terminal RunPhase.failed = true
is_terminal RunPhase.cancelled = true
is_terminal RunPhase.timed_out = true
is_terminal _ = false

-- The pairs of the `matches!`; the last clauses are its `(_, Blocked | Failed | …)`.
unfoldable pub allowed : RunPhase → RunPhase → Bool
allowed RunPhase.claimed RunPhase.preparing = true
allowed RunPhase.preparing RunPhase.executing = true
allowed RunPhase.preparing RunPhase.publishing = true
allowed RunPhase.executing RunPhase.verifying = true
allowed RunPhase.verifying RunPhase.executing = true
allowed RunPhase.verifying RunPhase.publishing = true
allowed RunPhase.publishing RunPhase.executing = true
allowed RunPhase.publishing RunPhase.verifying = true
allowed RunPhase.publishing RunPhase.awaiting_review = true
allowed RunPhase.awaiting_review RunPhase.succeeded = true
allowed _ RunPhase.blocked = true
allowed _ RunPhase.failed = true
allowed _ RunPhase.cancelled = true
allowed _ RunPhase.timed_out = true
allowed _ _ = false

unfoldable pub can_transition_to : RunPhase → RunPhase → Bool
unfolding is_terminal allowed
can_transition_to phase next = if is_terminal phase then false else allowed phase next

-- The phase after `Reporter::set_phase`, which ignores a transition that is not allowed.
unfoldable pub set_phase : RunPhase → RunPhase → RunPhase
unfolding can_transition_to
set_phase phase next = if can_transition_to phase next then next else phase
