-- ===== src/Protocol/Ledger/Check/Counts.antt =====
-- `validate_budget_invariants` of src/execution_protocol/reducer.rs: the counts that it computes,
-- one for each field of a usage that calls add to.
use rustgrid_agent.Prelude.{refl, arith}
use rustgrid_agent.Words.{u32_max, u64_max, saturating_add_u32, saturating_add_u64}
use rustgrid_agent.Protocol.Model.{owns_reservation}
use rustgrid_agent.Protocol.Usage.{reserve_usage}
use rustgrid_agent.Protocol.Ledger.{charge_attempt}
use rustgrid_agent.Protocol.Ledger.Accounts.{
  reserved_call, reserved_cost, reserved_duration, consumed_call, consumed_cost, consumed_duration,
}
use rustgrid_agent.Protocol.Ledger.Check.{add_record, charge_rebuild}
use rustgrid_agent.Protocol.Ledger.Check.Tally.{Counts}

-- The six counts of a usage.
pub Counts-calls_reserved : Counts (λ u. u.model_calls_reserved) reserved_call u32_max
unfolding add_record reserve_usage charge_attempt charge_rebuild saturating_add_u32
    saturating_add_u64 owns_reservation
Counts-calls_reserved = record {
  added = λ s a u h. ground arith;
  attempts = λ u. refl;
  rebuilds = λ u. refl;
  empty = refl;
}

pub Counts-calls_consumed : Counts (λ u. u.model_calls_consumed) consumed_call u32_max
unfolding add_record reserve_usage charge_attempt charge_rebuild saturating_add_u32
    saturating_add_u64
Counts-calls_consumed = record {
  added = λ s a u h. ground arith;
  attempts = λ u. refl;
  rebuilds = λ u. refl;
  empty = refl;
}

pub Counts-cost_reserved : Counts (λ u. u.cost_micros_reserved) reserved_cost u64_max
unfolding add_record reserve_usage charge_attempt charge_rebuild saturating_add_u32
    saturating_add_u64 owns_reservation
Counts-cost_reserved = record {
  added = λ s a u h. ground arith;
  attempts = λ u. refl;
  rebuilds = λ u. refl;
  empty = refl;
}

pub Counts-cost_consumed : Counts (λ u. u.cost_micros_consumed) consumed_cost u64_max
unfolding add_record reserve_usage charge_attempt charge_rebuild saturating_add_u32
    saturating_add_u64
Counts-cost_consumed = record {
  added = λ s a u h. ground arith;
  attempts = λ u. refl;
  rebuilds = λ u. refl;
  empty = refl;
}

pub Counts-duration_reserved : Counts (λ u. u.duration_ms_reserved) reserved_duration u64_max
unfolding add_record reserve_usage charge_attempt charge_rebuild saturating_add_u32
    saturating_add_u64 owns_reservation
Counts-duration_reserved = record {
  added = λ s a u h. ground arith;
  attempts = λ u. refl;
  rebuilds = λ u. refl;
  empty = refl;
}

pub Counts-duration_consumed : Counts (λ u. u.duration_ms_consumed) consumed_duration u64_max
unfolding add_record reserve_usage charge_attempt charge_rebuild saturating_add_u32
    saturating_add_u64
Counts-duration_consumed = record {
  added = λ s a u h. ground arith;
  attempts = λ u. refl;
  rebuilds = λ u. refl;
  empty = refl;
}
