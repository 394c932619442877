-- ===== src/Examples/Run.antt =====
-- The theorems on phases, endings, supervision, backoff and token counts on concrete data.
use mathlib.Core.List.{Memᴰ}
use rustgrid_agent.Prelude.{
  ℕ, ◌+◌, ◌≤◌, ◌≡◌, refl, ◌⊎◌, ◌↔◌, true, false, none, some, List, [], ◌∷◌, any, arith, ◌&&◌, ◌-◌,
  ◌<◌,
}
use rustgrid_agent.Words.{u64_max, saturating_sub, saturating_mul_u64}
use rustgrid_agent.Lifecycle.{RunPhase, is_terminal, set_phase}
use rustgrid_agent.Lifecycle.Phases.{set_phases, published_needs_publishing, endings_reachable}
use rustgrid_agent.Failure.{ExecutionFailureKind}
use rustgrid_agent.Outcome.{ExecutionResult, RunOutcome, resolve}
use rustgrid_agent.Finalization.{Answers, finalize, is_succeeded}
use rustgrid_agent.Finalization.Effects.{
  is_remote, EndsIn, sets_ticket_blocked, sets_ticket_todo, lease_lost_writes_nothing,
  finalize_success, failures_reported,
}
use rustgrid_agent.Coordinator.{CoordinatorState, CoordinatorHealth, HealthEvent, is_leaving}
use rustgrid_agent.Coordinator.Backoff.{observe_all, leaving_absorbs}
use rustgrid_agent.Supervisor.{
  LeaseResult, RunSupervisorConfig, Round, Supervision, round, supervise, start_with,
}
use rustgrid_agent.Supervisor.Safety.{Agrees, supervise-start_with-Agrees, proceeds_within_limit}
use rustgrid_agent.TokenConsumption.{TokenConsumption, AddError, add_counts, total_tokens}
use rustgrid_agent.TokenConsumption.Totals.{IsValid, add_counts_exact, add_counts_overflow}

-- Phases.
abbrev good_run : List RunPhase
good_run =
    RunPhase.preparing ∷ RunPhase.executing ∷ RunPhase.verifying ∷ RunPhase.publishing
    ∷ RunPhase.awaiting_review ∷ RunPhase.succeeded ∷ []

good_run_eq : set_phases good_run RunPhase.claimed ≡ RunPhase.succeeded
unfolding set_phase
good_run_eq = refl

published_needs_publishing_example : Memᴰ RunPhase.publishing good_run
unfolding set_phase
published_needs_publishing_example = published_needs_publishing good_run refl

endings_reachable_example :
    (set_phase RunPhase.verifying RunPhase.blocked ≡ RunPhase.blocked)
    × (set_phase RunPhase.verifying RunPhase.failed ≡ RunPhase.failed)
    × (set_phase RunPhase.verifying RunPhase.cancelled ≡ RunPhase.cancelled)
    × (set_phase RunPhase.verifying RunPhase.timed_out ≡ RunPhase.timed_out)
    × ((set_phase RunPhase.verifying RunPhase.succeeded ≡ RunPhase.succeeded)
        ↔ (RunPhase.verifying ≡ RunPhase.awaiting_review))
unfolding is_terminal
endings_reachable_example = endings_reachable RunPhase.verifying refl

-- Endings.
abbrev offline : Answers
offline = record {
  consumption_ok = false;
  journal_ok = true;
  step_ok = false;
  comment_ok = false;
  ticket_ok = false;
  run_ok = false;
}

abbrev failure : ExecutionFailureKind
failure = ExecutionFailureKind.human_blocked

lease_lost_writes_nothing_example :
    let (effects, q, success) =
      finalize
        (resolve (ExecutionResult.failure failure) true true false true 600)
        RunPhase.executing
        offline in
    (any is_remote effects ≡ false) × (q ≡ RunPhase.executing) × (success ≡ false)
lease_lost_writes_nothing_example =
    lease_lost_writes_nothing (ExecutionResult.failure failure) true false true 600
      RunPhase.executing offline

finalize_success_example :
    ((finalize (RunOutcome.failed failure) RunPhase.executing offline).2 ≡ true) ↔ (
      (is_succeeded (RunOutcome.failed failure) && offline.consumption_ok && offline.run_ok) ≡ true)
finalize_success_example = finalize_success (RunOutcome.failed failure) RunPhase.executing offline

failures_reported_example :
    EndsIn RunPhase.blocked sets_ticket_blocked
      (finalize (RunOutcome.blocked failure) RunPhase.executing offline)
    × EndsIn RunPhase.timed_out sets_ticket_blocked
        (finalize (RunOutcome.timed_out failure) RunPhase.executing offline)
    × EndsIn RunPhase.failed sets_ticket_todo
        (finalize (RunOutcome.failed failure) RunPhase.executing offline)
unfolding is_terminal
failures_reported_example = failures_reported failure RunPhase.executing offline refl

abbrev draining : CoordinatorHealth
draining = record { state = CoordinatorState.draining; consecutive_failures = 3 }

abbrev reports : List HealthEvent
reports = HealthEvent.success ∷ HealthEvent.transient_failure ∷ []

leaving_absorbs_example :
    (is_leaving (observe_all reports draining).state ≡ true)
    × (draining.state ≡ CoordinatorState.stopped
        → (observe_all reports draining).state ≡ CoordinatorState.stopped)
leaving_absorbs_example = leaving_absorbs reports draining refl

-- Supervision: a lease of 60 s with a heartbeat every 15 s.
abbrev config : RunSupervisorConfig
config = record { heartbeat_interval = 15000; lease_seconds = 60; run_timeout = 3600000 }

abbrev round_at : ℕ → LeaseResult → Round
round_at now lease = record {
  stop_requested = false;
  now = now;
  shutdown_requested = false;
  heartbeat_ok = true;
  lease = lease;
  observed_at = now + 10;
}

abbrev outage : List Round
outage =
    round_at 15000 (LeaseResult.renewed 8)
    ∷ round_at 30000 LeaseResult.unavailable
    ∷ round_at 45010 LeaseResult.unavailable
    ∷ []

abbrev started : Supervision
started = start_with 0 config true 7

-- The lease is given up 30 s after its last renewal.
outage_eq : (supervise outage started).lease_lost ≡ true
unfolding supervise round start_with saturating_sub saturating_mul_u64
outage_eq = refl

supervise-start_with-Agrees_example : Agrees (supervise outage started)
supervise-start_with-Agrees_example = supervise-start_with-Agrees 0 config true 7 outage

abbrev late : Round
late = round_at 25000 LeaseResult.unavailable

proceeds_within_limit_example :
    (25010 - (round late started).monitor.last_lease_success < started.monitor.uncertainty_limit)
    ⊎ ((round late started).monitor.last_lease_success ≡ 25010)
unfolding round start_with saturating_sub saturating_mul_u64
proceeds_within_limit_example = proceeds_within_limit late started refl

-- Token counts.
abbrev counted : TokenConsumption
counted = record { input_tokens = 100; cached_input_tokens = 40; output_tokens = 20 }

counted-IsValid : IsValid counted
counted-IsValid = ground arith

add_counts_exact_example :
    ((add_counts counted 10 5 7).1 ≡ none) ↔ ((5 ≤ 10) × (110 + 27 ≤ u64_max))
add_counts_exact_example = add_counts_exact counted 10 5 7 counted-IsValid

add_counts_overflow_example :
    ((add_counts counted (u64_max - 100) 60 30).1 ≡ some AddError.total_overflow)
    × ((add_counts counted (u64_max - 100) 60 30).0
        ≡ record { input_tokens = u64_max; cached_input_tokens = 100; output_tokens = 50 })
    × (total_tokens (add_counts counted (u64_max - 100) 60 30).0 ≡ none)
add_counts_overflow_example =
    add_counts_overflow counted (u64_max - 100) 60 30 counted-IsValid (omega arith) (omega arith)
      (omega arith) (omega arith)
