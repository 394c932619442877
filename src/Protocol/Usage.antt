-- ===== src/Protocol/Usage.antt =====
-- The budget arithmetic at the end of src/execution_protocol/reducer.rs: what a model call reserves,
-- releases and consumes, and the tests of a usage against its contract.
pub mod Capacity
use rustgrid_agent.Prelude.{
  ℕ, String, Bool, true, false, ◌||◌, Option, none, some, nat_eq, ltb, if◌then◌else◌,
}
use rustgrid_agent.Words.{saturating_add_u32, saturating_add_u64, saturating_sub}
use rustgrid_agent.Protocol.Violation.{Result, ok, err, budget_exceeded, reject_if, ◌>>=◌, ◌>>◌}
use rustgrid_agent.Protocol.Model.{
  MissionBudgetContract, NodeBudgetContract, BudgetUsage, ModelCallAdmission, ExecutionNode,
}

unfoldable pub reserve_usage : BudgetUsage → ModelCallAdmission → BudgetUsage
reserve_usage usage admission = record usage {
  model_calls_reserved = saturating_add_u32 usage.model_calls_reserved 1;
  cost_micros_reserved =
      saturating_add_u64 usage.cost_micros_reserved admission.reserved_cost_micros;
  duration_ms_reserved =
      saturating_add_u64 usage.duration_ms_reserved admission.duration_allowance_ms;
}

unfoldable pub release_usage : BudgetUsage → ModelCallAdmission → BudgetUsage
release_usage usage admission = record usage {
  model_calls_reserved = saturating_sub usage.model_calls_reserved 1;
  cost_micros_reserved = saturating_sub usage.cost_micros_reserved admission.reserved_cost_micros;
  duration_ms_reserved = saturating_sub usage.duration_ms_reserved admission.duration_allowance_ms;
}

unfoldable pub consume_usage : BudgetUsage → ModelCallAdmission → ℕ → ℕ → BudgetUsage
unfolding release_usage
consume_usage usage admission actual_cost_micros duration_ms =
    let released = release_usage usage admission in
    record released {
      model_calls_consumed = saturating_add_u32 released.model_calls_consumed 1;
      cost_micros_consumed = saturating_add_u64 released.cost_micros_consumed actual_cost_micros;
      duration_ms_consumed = saturating_add_u64 released.duration_ms_consumed duration_ms;
    }

unfoldable pub ensure_usage_capacity :
    BudgetUsage → NodeBudgetContract → ModelCallAdmission → Option String → Result (Unit {0})
ensure_usage_capacity usage budget admission node_id = do
  reject_if
      (ltb budget.max_model_calls (
        saturating_add_u32
          (saturating_add_u32 usage.model_calls_consumed usage.model_calls_reserved) 1))
      (budget_exceeded node_id "model_calls")
  reject_if
      (ltb budget.max_cost_micros (
        saturating_add_u64
          (saturating_add_u64 usage.cost_micros_consumed usage.cost_micros_reserved)
          admission.reserved_cost_micros))
      (budget_exceeded node_id "cost_micros")
  reject_if
      (ltb budget.max_duration_ms (
        saturating_add_u64
          (saturating_add_u64 usage.duration_ms_consumed usage.duration_ms_reserved)
          admission.duration_allowance_ms))
      (budget_exceeded node_id "duration_ms")
  ok tt

-- The mission's part of `ensure_model_call_capacity`.
unfoldable pub ensure_mission_capacity :
    BudgetUsage → MissionBudgetContract → ModelCallAdmission → Result (Unit {0})
ensure_mission_capacity usage budget admission = do
  reject_if
      (ltb budget.max_model_calls (
        saturating_add_u32
          (saturating_add_u32 usage.model_calls_consumed usage.model_calls_reserved) 1))
      (budget_exceeded none "model_calls")
  reject_if
      (ltb budget.max_cost_micros (
        saturating_add_u64
          (saturating_add_u64 usage.cost_micros_consumed usage.cost_micros_reserved)
          admission.reserved_cost_micros))
      (budget_exceeded none "cost_micros")
  reject_if
      (ltb budget.max_duration_ms (
        saturating_add_u64
          (saturating_add_u64 usage.duration_ms_consumed usage.duration_ms_reserved)
          admission.duration_allowance_ms))
      (budget_exceeded none "duration_ms")
  ok tt

unfoldable pub validate_usage_limits :
    BudgetUsage → NodeBudgetContract → Option String → Result (Unit {0})
validate_usage_limits usage budget node_id = do
  reject_if
      (ltb budget.max_model_calls
        (saturating_add_u32 usage.model_calls_consumed usage.model_calls_reserved))
      (budget_exceeded node_id "model_calls")
  reject_if
      (ltb budget.max_cost_micros
        (saturating_add_u64 usage.cost_micros_consumed usage.cost_micros_reserved))
      (budget_exceeded node_id "cost_micros")
  reject_if
      (ltb budget.max_duration_ms
        (saturating_add_u64 usage.duration_ms_consumed usage.duration_ms_reserved))
      (budget_exceeded node_id "duration_ms")
  ok tt

unfoldable pub validate_mission_usage_limits :
    BudgetUsage → MissionBudgetContract → Result (Unit {0})
validate_mission_usage_limits usage budget = do
  reject_if
      (ltb budget.max_model_calls
        (saturating_add_u32 usage.model_calls_consumed usage.model_calls_reserved))
      (budget_exceeded none "model_calls")
  reject_if
      (ltb budget.max_cost_micros
        (saturating_add_u64 usage.cost_micros_consumed usage.cost_micros_reserved))
      (budget_exceeded none "cost_micros")
  reject_if
      (ltb budget.max_duration_ms
        (saturating_add_u64 usage.duration_ms_consumed usage.duration_ms_reserved))
      (budget_exceeded none "duration_ms")
  ok tt

unfoldable pub node_budget_is_exhausted : ExecutionNode → Bool
node_budget_is_exhausted node =
    nat_eq (saturating_add_u32 node.usage.model_calls_consumed node.usage.model_calls_reserved)
      node.budget.max_model_calls
    || nat_eq (saturating_add_u64 node.usage.cost_micros_consumed node.usage.cost_micros_reserved)
        node.budget.max_cost_micros
    || nat_eq (saturating_add_u64 node.usage.duration_ms_consumed node.usage.duration_ms_reserved)
        node.budget.max_duration_ms
