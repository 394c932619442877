-- ===== src/Supervisor.antt =====
-- src/supervisor.rs: the lease monitor, and the loop of the supervising thread over what it meets.
-- Durations and instants are milliseconds. `heartbeat_interval` is a `Duration`; its whole seconds
-- are `/ 1000`.
pub mod Safety
use rustgrid_agent.Prelude.{
  ℕ, zero, suc, ◌+◌, ◌-◌, ◌*◌, ◌/◌, max, Bool, true, false, Option, none, some, List, [], ◌∷◌, leb,
  if◌then◌else◌,
}
use rustgrid_agent.Words.{saturating_sub, saturating_mul_u64}

pub data LeaseResult : Type 0 where
  renewed : ℕ → LeaseResult
  lost unavailable : LeaseResult

pub data LeaseDecision : Type 0 where
  proceed : Bool → ℕ → LeaseDecision
  stop_lease_lost stop_timed_out stop_shutdown : LeaseDecision

pub record RunSupervisorConfig : Type 0 where
  pub heartbeat_interval : ℕ
  pub lease_seconds : ℕ
  pub run_timeout : ℕ

pub record LeaseMonitor : Type 0 where
  pub started_at : ℕ
  pub last_lease_success : ℕ
  pub uncertainty_limit : ℕ
  pub run_timeout : ℕ

abbrev pub as_secs : ℕ → ℕ
as_secs d = d / 1000

-- `LeaseMonitor::new`
unfoldable pub new_monitor : ℕ → RunSupervisorConfig → LeaseMonitor
new_monitor now config = record {
  started_at = now;
  last_lease_success = now;
  uncertainty_limit =
      1000
      * max
          (saturating_sub config.lease_seconds
            (saturating_mul_u64 (as_secs config.heartbeat_interval) 2))
          (as_secs config.heartbeat_interval);
  run_timeout = config.run_timeout;
}

unfoldable pub before_renewal : LeaseMonitor → ℕ → Bool → Option LeaseDecision
before_renewal m now shutdown_requested =
    if shutdown_requested
    then some LeaseDecision.stop_shutdown
    else if leb m.run_timeout (saturating_sub now m.started_at)
    then some LeaseDecision.stop_timed_out
    else none

unfoldable pub observe : LeaseMonitor → ℕ → Bool → LeaseResult → LeaseMonitor × LeaseDecision
observe m now heartbeat_ok (LeaseResult.renewed row_version) =
    (record m { last_lease_success = now }, LeaseDecision.proceed heartbeat_ok row_version)
observe m now heartbeat_ok LeaseResult.lost = (m, LeaseDecision.stop_lease_lost)
observe m now heartbeat_ok LeaseResult.unavailable = (
  m,
  if leb m.uncertainty_limit (saturating_sub now m.last_lease_success)
      then LeaseDecision.stop_lease_lost
      else LeaseDecision.proceed false 0,
)

-- The flags that the thread shares with the run, its monitor, and whether its loop has ended.
pub record Supervision : Type 0 where
  pub monitor : LeaseMonitor
  pub healthy : Bool
  pub lease_lost : Bool
  pub timed_out : Bool
  pub execution_running : Bool
  pub row_version : ℕ
  pub ended : Bool

-- What one round of the loop meets: the stop flag, the clock and the shutdown flag before the
-- renewal, the answers of the control plane, and the clock after them.
pub record Round : Type 0 where
  pub stop_requested : Bool
  pub now : ℕ
  pub shutdown_requested : Bool
  pub heartbeat_ok : Bool
  pub lease : LeaseResult
  pub observed_at : ℕ

-- Before the renewal: `StopTimedOut` sets its flag; both decisions end the run and the loop.
unfoldable pub halted : LeaseDecision → Supervision → Supervision
halted LeaseDecision.stop_timed_out s = record s {
  timed_out = true;
  execution_running = false;
  ended = true;
}
halted _ s = record s { execution_running = false; ended = true }

abbrev pub renewed_row : LeaseResult → ℕ → ℕ
renewed_row (LeaseResult.renewed row_version) old = row_version
renewed_row _ old = old

-- The `match` on the observation. The last clause is `unreachable!()`.
unfoldable pub acted : LeaseDecision → LeaseResult → Supervision → Supervision
acted (LeaseDecision.proceed healthy row_version) (LeaseResult.renewed v) s = record s {
  healthy = healthy;
  row_version = row_version;
}
acted (LeaseDecision.proceed healthy row_version) _ s = record s { healthy = healthy }
acted LeaseDecision.stop_lease_lost lease s = record s {
  healthy = false;
  lease_lost = true;
  execution_running = false;
  ended = true;
}
acted _ lease s = s

abbrev pub after_check : Option LeaseDecision → Round → Supervision → Supervision
after_check (some decision) r s = halted decision s
after_check none r s =
    let (m, decision) = observe s.monitor r.observed_at r.heartbeat_ok r.lease in
    acted decision r.lease (record s { monitor = m })

unfoldable pub round : Round → Supervision → Supervision
unfolding before_renewal observe halted acted
round r s =
    if s.ended
    then s
    else if r.stop_requested
    then record s { ended = true }
    else after_check (before_renewal s.monitor r.now r.shutdown_requested) r s

unfoldable pub supervise : List Round → Supervision → Supervision
supervise [] s = s
supervise (r ∷ rs) s = supervise rs (round r s)

-- `RunSupervisor::start_with`, before the first round.
unfoldable pub start_with : ℕ → RunSupervisorConfig → Bool → ℕ → Supervision
unfolding new_monitor
start_with now config execution_running row_version = record {
  monitor = new_monitor now config;
  healthy = true;
  lease_lost = false;
  timed_out = false;
  execution_running = execution_running;
  row_version = row_version;
  ended = false;
}

-- `heartbeat_interval.as_millis().div_ceil(250)` sleeps of 250 ms.
unfoldable pub sleep_slices : ℕ → ℕ
sleep_slices heartbeat_interval = (heartbeat_interval + 249) / 250
