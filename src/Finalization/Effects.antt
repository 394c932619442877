-- ===== src/Finalization/Effects.antt =====
-- What the endings of a run write.
use rustgrid_agent.Prelude.{
  ℕ, ◌≡◌, refl, ◌↔◌, Bool, true, false, not, ◌&&◌, ◌||◌, List, arith, any, all,
}
use rustgrid_agent.Lifecycle.{RunPhase, is_terminal}
use rustgrid_agent.Failure.{ExecutionFailureKind}
use rustgrid_agent.Outcome.{RunOutcome, ExecutionResult, resolve}
use rustgrid_agent.Finalization.{
  AgentRunStatus, TicketStatus, Effect, Answers, is_succeeded, finalize,
}

abbrev pub is_remote : Effect → Bool
is_remote Effect.journal_error = false
is_remote (Effect.journal_phase p) = false
is_remote _ = true

abbrev pub reports_failure : Effect → Bool
reports_failure (Effect.update_run AgentRunStatus.failed) = true
reports_failure _ = false

-- When supervision has lost the lease, then whatever the execution returned and the other signals
-- say, the final step writes nothing to the control plane, leaves the phase and does not succeed.
pub lease_lost_writes_nothing :
    (result : ExecutionResult) (expired running shutdown : Bool) (seconds : ℕ) (p : RunPhase)
    (a : Answers)
    → let (effects, q, success) =
        finalize (resolve result true expired running shutdown seconds) p a in
      (any is_remote effects ≡ false) × (q ≡ p) × (success ≡ false)
unfolding resolve finalize
lease_lost_writes_nothing result expired running shutdown seconds p a = (refl, refl, refl)

-- `finalize` returns `Ok` exactly for a succeeded outcome whose token report and whose run update
-- were both accepted.
pub finalize_success :
    (o : RunOutcome) (p : RunPhase) (a : Answers)
    → ((finalize o p a).2 ≡ true) ↔ ((is_succeeded o && a.consumption_ok && a.run_ok) ≡ true)
unfolding finalize
finalize_success (RunOutcome.succeeded summary) p a = ground arith
finalize_success (RunOutcome.lease_lost k) p a = ground arith
finalize_success (RunOutcome.blocked k) p a = ground arith
finalize_success (RunOutcome.timed_out k) p a = ground arith
finalize_success (RunOutcome.cancelled k) p a = ground arith
finalize_success (RunOutcome.failed k) p a = ground arith

abbrev pub sets_ticket_blocked : Effect → Bool
sets_ticket_blocked (Effect.set_ticket_status TicketStatus.blocked) = true
sets_ticket_blocked _ = false

abbrev pub sets_ticket : Effect → Bool
sets_ticket (Effect.set_ticket_status status) = true
sets_ticket _ = false

abbrev pub sets_ticket_todo : Effect → Bool
sets_ticket_todo (Effect.set_ticket_status TicketStatus.todo) = true
sets_ticket_todo _ = false

-- The trace of an ending: the phase that it reaches, an attempt to report the run as failed, an
-- attempt to update the ticket, no attempt to give the ticket another status, and no success.
abbrev pub EndsIn : RunPhase → (Effect → Bool) → List Effect × RunPhase × Bool → Type 0
EndsIn q ticket (effects, p, success) =
    (p ≡ q)
    × (any reports_failure effects ≡ true)
    × (any ticket effects ≡ true)
    × (all (λ e. not (sets_ticket e) || ticket e) effects ≡ true)
    × (success ≡ false)

-- From every phase that is not terminal, and whichever calls the control plane refuses: a blocked run
-- ends in the phase `blocked`, a timed-out one in `timed_out`, and for both an update of the ticket to
-- blocked is attempted; a failed run ends in `failed`, and an update of the ticket to todo is
-- attempted. For all three an update of the run to failed is attempted, no other status of
-- the ticket is, and the step does not succeed. Whether the updates are accepted is not stated.
pub failures_reported :
    (k : ExecutionFailureKind) (p : RunPhase) (a : Answers)
    → is_terminal p ≡ false
    → EndsIn RunPhase.blocked sets_ticket_blocked (finalize (RunOutcome.blocked k) p a)
      × EndsIn RunPhase.timed_out sets_ticket_blocked (finalize (RunOutcome.timed_out k) p a)
      × EndsIn RunPhase.failed sets_ticket_todo (finalize (RunOutcome.failed k) p a)
unfolding finalize
failures_reported k RunPhase.claimed a h =
    ((refl, refl, refl, refl, refl), (refl, refl, refl, refl, refl), (refl, refl, refl, refl, refl))
failures_reported k RunPhase.succeeded a h = cc
failures_reported k RunPhase.blocked a h = cc
failures_reported k RunPhase.failed a h = cc
failures_reported k RunPhase.cancelled a h = cc
failures_reported k RunPhase.timed_out a h = cc
failures_reported k _ a h =
    ((refl, refl, refl, refl, refl), (refl, refl, refl, refl, refl), (refl, refl, refl, refl, refl))
