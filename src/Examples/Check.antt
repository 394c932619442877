-- ===== src/Examples/Check.antt =====
-- A ledger that passes `validate_budget_invariants` of src/execution_protocol/reducer.rs.
use rustgrid_agent.Prelude.{String, ◌≡◌, refl, some, arith, eq_iff}
use rustgrid_agent.Words.{saturating_add_u32, saturating_add_u64}
use rustgrid_agent.Map.{get, insert, modify}
use rustgrid_agent.Protocol.Stage.{requires_model}
use rustgrid_agent.Protocol.Violation.{ok}
use rustgrid_agent.Protocol.Model.{ExecutionNode, is_open}
use rustgrid_agent.Protocol.Usage.{
  reserve_usage, validate_usage_limits, validate_mission_usage_limits,
}
use rustgrid_agent.Protocol.Usage.Capacity.{IsProper, node_limits}
use rustgrid_agent.Protocol.Ledger.Guards.{trim_is_empty, is_whitespace}
use rustgrid_agent.Protocol.Ledger.Sound.{IsSound}
use rustgrid_agent.Protocol.Ledger.Check.{
  count_open, check_calls, add_record, tally_calls, mutation_calls, tally_attempts, tally_rebuilds,
  usage_eq, check_node, check_nodes, no_node_usage, validate_budget_invariants,
}
use rustgrid_agent.Protocol.Ledger.Check.Calls.{IsKeyed}
use rustgrid_agent.Protocol.Ledger.Check.Books.{validate_budget_invariants-IsSound}
use rustgrid_agent.Examples.Ledger.{continued, IsProper-node, IsProper-mission}

validated : validate_budget_invariants continued ≡ ok tt
unfolding validate_budget_invariants check_calls count_open tally_calls add_record mutation_calls
    tally_attempts tally_rebuilds check_nodes check_node usage_eq no_node_usage get insert modify
    requires_model trim_is_empty is_whitespace is_open reserve_usage validate_usage_limits
    validate_mission_usage_limits saturating_add_u32 saturating_add_u64
validated = refl

keyed : IsKeyed continued.nodes
unfolding get
keyed n node h = ground (arith, eq_iff "review" n)

IsProper-nodes :
    (n : String) (node : ExecutionNode)
    → get n continued.nodes ≡ some node
    → IsProper (node_limits node.budget)
unfolding get
IsProper-nodes n node h = ground (arith, IsProper-node)

validate_budget_invariants-IsSound_example : IsSound continued
validate_budget_invariants-IsSound_example =
    validate_budget_invariants-IsSound continued keyed IsProper-nodes IsProper-mission validated
