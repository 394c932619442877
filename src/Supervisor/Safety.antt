-- ===== src/Supervisor/Safety.antt =====
-- What holds of the supervision after any rounds.
use rustgrid_agent.Prelude.{
  ℕ, ◌+◌, ◌-◌, ◌*◌, ◌/◌, ◌≤◌, ◌<◌, ◌≡◌, ◌⊎◌, Bool, true, false, List, [], ◌∷◌, arith,
}
use rustgrid_agent.Words.{saturating_sub, saturating_mul_u64, u64_max}
use rustgrid_agent.Supervisor.{
  RunSupervisorConfig, Supervision, Round, new_monitor, round, supervise, start_with,
}

-- The flags agree: a lost lease or a timeout has ended the loop and stopped the run, and a lost lease
-- is never reported as healthy.
pub record Agrees (s : Supervision) : Type 0 where
  pub lost_stops : s.lease_lost ≡ true → (s.execution_running ≡ false) × (s.ended ≡ true)
  pub timeout_stops : s.timed_out ≡ true → (s.execution_running ≡ false) × (s.ended ≡ true)
  pub lost_unhealthy : s.lease_lost ≡ true → s.healthy ≡ false
  pub one_cause : s.lease_lost ≡ true → s.timed_out ≡ false

round-Agrees : (r : Round) (s : Supervision) → Agrees s → Agrees (round r s)
unfolding round
round-Agrees r s a = ground arith

-- Rounds keep the agreement of the flags.
supervise-Agrees : (rs : List Round) (s : Supervision) → Agrees s → Agrees (supervise rs s)
unfolding supervise
supervise-Agrees [] s a = a
supervise-Agrees (r ∷ rs) s a = supervise-Agrees rs (round r s) (round-Agrees r s a)

start_with-Agrees :
    (now : ℕ) (config : RunSupervisorConfig) (running : Bool) (row_version : ℕ)
    → Agrees (start_with now config running row_version)
unfolding start_with
start_with-Agrees now config running row_version = ground arith

-- From the start of a supervision, after any rounds and whatever the control plane answered in them:
-- a lost lease or a timeout has stopped the run and ended the loop, a lost lease is not reported as
-- healthy, and at most one of the two is reported.
pub supervise-start_with-Agrees :
    (now : ℕ) (config : RunSupervisorConfig) (running : Bool) (row_version : ℕ) (rs : List Round)
    → Agrees (supervise rs (start_with now config running row_version))
supervise-start_with-Agrees now config running row_version rs =
    supervise-Agrees rs (start_with now config running row_version)
      (start_with-Agrees now config running row_version)

-- A round that neither ends the loop nor finds it ended has seen the lease renewed less than the
-- uncertainty limit ago, by the clock of its observation, or just now.
pub proceeds_within_limit :
    (r : Round) (s : Supervision)
    → (round r s).ended ≡ false
    → (r.observed_at - (round r s).monitor.last_lease_success < s.monitor.uncertainty_limit)
      ⊎ ((round r s).monitor.last_lease_success ≡ r.observed_at)
unfolding round saturating_sub
proceeds_within_limit r s h = ground arith

-- The limit leaves two heartbeats before the lease runs out, where the lease is at least three long.
pub limit_margin :
    (now : ℕ) (c : RunSupervisorConfig)
    → c.heartbeat_interval / 1000 * 3 ≤ c.lease_seconds
    → c.lease_seconds ≤ u64_max
    → (new_monitor now c).uncertainty_limit + 2000 * (c.heartbeat_interval / 1000)
      ≡ 1000 * c.lease_seconds
unfolding new_monitor saturating_sub saturating_mul_u64
limit_margin now c h b = omega arith
