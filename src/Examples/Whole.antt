-- ===== src/Examples/Whole.antt =====
-- A running planning node passes the test of the whole graph (`validate_graph` of
-- src/execution_protocol/reducer.rs).
use rustgrid_agent.Prelude.{String, ◌≡◌, refl, true, false, some, arith, eq_iff, contains, distinct}
use rustgrid_agent.Words.{saturating_sub}
use rustgrid_agent.Map.{get, values, keys, contains_key, insert, modify}
use rustgrid_agent.Protocol.Stage.{stage, requires_model, is_planned_node, proof_satisfies_node}
use rustgrid_agent.Protocol.Violation.{ok, err, expect_mut, invariant}
use rustgrid_agent.Protocol.Model.{NodeState, ExecutionNode, owns_execution, satisfies_dependency}
use rustgrid_agent.Protocol.Graph.{is_satisfied, ensure_dependencies_satisfied, check_dependencies}
use rustgrid_agent.Protocol.Graph.Orderly.{is_counted, IsOrderly}
use rustgrid_agent.Protocol.Graph.Topology.{filter}
use rustgrid_agent.Protocol.Graph.Acyclic.{
  validate_graph_acyclic, no_degrees, add_dependency, add_dependencies, add_nodes, initially_ready,
  release, release_all, drain,
}
use rustgrid_agent.Protocol.Graph.Check.{
  PlanContracts, keys_match, same_names, materialization_events, check_materialization, owners,
  check_owners, ready_eligible, check_known, check_proof, check_graph_node, check_graph_nodes,
  validate_graph,
}
use rustgrid_agent.Protocol.Graph.Check.Accepted.{validate_graph-IsOrderly}
use rustgrid_agent.Examples.Graph.{running, impact_map}

-- No plan is accepted yet.
abbrev unplanned : PlanContracts
unplanned = record {
  materialized_planning_nodes = λ st. err (invariant "none");
  planning_acceptance_proof = λ st. impact_map;
}

running_counted :
    (n : String) (node : ExecutionNode)
    → get n running.nodes ≡ some node
    → is_counted node.state node.attempts_started ≡ true
unfolding get
running_counted n node h = ground (arith, eq_iff "discovery" n, eq_iff "planning" n)

running_accepted : validate_graph unplanned running ≡ ok tt
unfolding validate_graph keys_match same_names contains distinct keys values validate_graph_acyclic
    no_degrees add_dependency add_dependencies add_nodes initially_ready release release_all drain
    check_materialization materialization_events is_planned_node owners filter owns_execution
    check_owners stage check_graph_nodes check_graph_node check_known check_proof ready_eligible
    requires_model ensure_dependencies_satisfied check_dependencies satisfies_dependency
    proof_satisfies_node is_satisfied get contains_key insert modify expect_mut saturating_sub
running_accepted = refl

validate_graph-IsOrderly_example :
    IsOrderly running
    × ((n : String) (node : ExecutionNode)
        → get n running.nodes ≡ some node
        → node.state ≡ NodeState.pending
        → ready_eligible running node ≡ false)
validate_graph-IsOrderly_example =
    validate_graph-IsOrderly unplanned running running_counted running_accepted
