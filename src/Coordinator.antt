-- ===== src/Coordinator.antt =====
-- src/coordinator.rs: the health of the worker's connection to the control plane.
pub mod Backoff
use rustgrid_agent.Prelude.{ℕ, ◌+◌, ◌*◌, ◌^◌, min, Bool, true, false, if◌then◌else◌}
use rustgrid_agent.Words.{saturating_add_u32, saturating_sub}

pub data CoordinatorState : Type 0 where
  starting healthy degraded draining stopped : CoordinatorState

pub record CoordinatorHealth : Type 0 where
  pub state : CoordinatorState
  pub consecutive_failures : ℕ  -- u32

-- `CoordinatorHealth::starting()`
abbrev pub starting_health : CoordinatorHealth
starting_health = record { state = CoordinatorState.starting; consecutive_failures = 0 }

-- `matches!(state, Draining | Stopped)`
abbrev pub is_leaving : CoordinatorState → Bool
is_leaving CoordinatorState.draining = true
is_leaving CoordinatorState.stopped = true
is_leaving _ = false

unfoldable pub record_success : CoordinatorHealth → CoordinatorHealth
record_success h = record {
  state = if is_leaving h.state then h.state else CoordinatorState.healthy;
  consecutive_failures = 0;
}

-- The new health, and the delay in milliseconds before the next attempt.
unfoldable pub record_transient_failure : CoordinatorHealth → CoordinatorHealth × ℕ
record_transient_failure h =
    let failures = saturating_add_u32 h.consecutive_failures 1 in
    let exponent = min (saturating_sub failures 1) 6 in
    (
      record {
        state = if is_leaving h.state then h.state else CoordinatorState.degraded;
        consecutive_failures = failures;
      },
      250 * 2 ^ exponent,
    )

abbrev pub is_stopped : CoordinatorState → Bool
is_stopped CoordinatorState.stopped = true
is_stopped _ = false

unfoldable pub start_draining : CoordinatorHealth → CoordinatorHealth
start_draining h = if is_stopped h.state then h else record h { state = CoordinatorState.draining }

unfoldable pub stop : CoordinatorHealth → CoordinatorHealth
stop h = record h { state = CoordinatorState.stopped }

-- What the worker's loop reports.
pub data HealthEvent : Type 0 where
  success transient_failure drain halt : HealthEvent

unfoldable pub observe : HealthEvent → CoordinatorHealth → CoordinatorHealth
unfolding record_success record_transient_failure start_draining stop
observe HealthEvent.success h = record_success h
observe HealthEvent.transient_failure h = (record_transient_failure h).0
observe HealthEvent.drain h = start_draining h
observe HealthEvent.halt h = stop h
