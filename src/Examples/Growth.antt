-- ===== src/Examples/Growth.antt =====
-- A plan's nodes and a repair node join a graph (`add_plan_nodes` and `add_validation_repair_node` of
-- src/execution_protocol/reducer.rs).
use rustgrid_agent.Prelude.{
  String, ◌≡◌, refl, true, some, List, [], ◌∷◌, arith, contains, push_all, distinct,
}
use rustgrid_agent.Words.{saturating_sub}
use rustgrid_agent.Map.{get, contains_key, insert, modify}
use rustgrid_agent.Map.Sums.{total}
use rustgrid_agent.Protocol.Stage.{
  ProtocolStage, NodeKind, ProofKind, ProofKind-discrete, protocol_node_order, requires_model,
}
use rustgrid_agent.Protocol.Violation.{ok, err, expect_mut, invariant}
use rustgrid_agent.Protocol.Model.{
  NodeState, NodeSpec, ProofRecord, ExecutionState, from_spec, ordered_nodes,
}
use rustgrid_agent.Protocol.Graph.{validate_node_budget, refresh_ready_nodes}
use rustgrid_agent.Protocol.Graph.Orderly.{IsOrderly}
use rustgrid_agent.Protocol.Graph.Paths.{has_dependency_path, search_path}
use rustgrid_agent.Protocol.Graph.Acyclic.{
  add_dependency, add_dependencies, add_nodes, no_degrees, initially_ready, release, release_all,
  drain, validate_graph_acyclic,
}
use rustgrid_agent.Protocol.Graph.Topology.{
  filter, required_nodes, require_stages, stable_indexes, check_monotonic, check_dependency_order,
  lacks_path, require_paths, validate_plan_topology,
}
use rustgrid_agent.Protocol.Graph.Check.{PlanContracts, exact_event, check_known}
use rustgrid_agent.Protocol.Graph.Growth.{
  RepairContracts, check_incoming_dependencies, check_incoming, push_node, push_nodes,
  add_plan_nodes, already_selected, add_validation_repair_node,
}
use rustgrid_agent.Protocol.Graph.Growth.Kept.{Extends}
use rustgrid_agent.Protocol.Graph.Growth.Added.{
  add_plan_nodes-IsOrderly, add_validation_repair_node-IsOrderly,
}
use rustgrid_agent.Examples.Ledger.{fresh, node_contract}
use rustgrid_agent.Examples.Graph.{impact_map}

bare-IsOrderly : (st : ExecutionState) → st.nodes ≡ [] → IsOrderly st
unfolding get
bare-IsOrderly st bare = record {
  at_node = λ n node e. absurd (ground (arith, bare));
  one_owner = λ n m a b ha hb oa ob. absurd (ground (arith, bare));
}

abbrev spec : String → NodeKind → List String → NodeSpec
spec id kind dependencies = record {
  id = id;
  kind = kind;
  required = true;
  dependencies = dependencies;
  budget = node_contract;
}

abbrev unplanned : PlanContracts
unplanned = record {
  materialized_planning_nodes = λ st. err (invariant "none");
  planning_acceptance_proof = λ st. impact_map;
}

abbrev unselected : RepairContracts
unselected = record { authoritative_selection = λ st. err (invariant "none") }

abbrev chain : List NodeSpec
chain =
    spec "build" NodeKind.implementation []
    ∷ spec "test" NodeKind.validation ("build" ∷ [])
    ∷ spec "review" NodeKind.review ("test" ∷ [])
    ∷ spec "complete" NodeKind.completion_evaluation ("review" ∷ [])
    ∷ spec "publish" NodeKind.publication ("complete" ∷ [])
    ∷ []

abbrev plan : ProofRecord
plan = record impact_map { id = "plan"; kind = ProofKind.plan_accepted }

abbrev accepted : ExecutionState
accepted = record fresh {
  position = ProtocolStage.planning;
  nodes = [];
  node_order = [];
  proofs = ("plan", plan) ∷ [];
}

chain_added : add_plan_nodes unplanned "plan" chain accepted ≡ ok (push_nodes chain accepted)
unfolding add_plan_nodes check_incoming check_incoming_dependencies exact_event validate_node_budget
    push_nodes push_node from_spec requires_model ProofKind-discrete validate_graph_acyclic
    add_nodes add_dependencies add_dependency no_degrees initially_ready drain release_all release
    contains_key modify expect_mut saturating_sub validate_plan_topology require_stages
    required_nodes filter ordered_nodes stable_indexes check_dependency_order check_monotonic
    require_paths lacks_path has_dependency_path search_path get insert total contains push_all
    distinct protocol_node_order
chain_added = refl

add_plan_nodes-IsOrderly_example :
    IsOrderly (push_nodes chain accepted)
    × Extends accepted (push_nodes chain accepted)
    × (validate_graph_acyclic (push_nodes chain accepted).nodes ≡ ok tt)
    × (validate_plan_topology (push_nodes chain accepted) ≡ ok tt)
add_plan_nodes-IsOrderly_example =
    add_plan_nodes-IsOrderly unplanned "plan" chain accepted (push_nodes chain accepted)
      (bare-IsOrderly accepted refl) chain_added

abbrev eligible : ProofRecord
eligible = record impact_map {
  id = "eligible";
  kind = ProofKind.repair_eligibility;
  related_proof_ids = "failure" ∷ [];
}

abbrev repairing : ExecutionState
repairing = record fresh {
  position = ProtocolStage.repair;
  nodes = [];
  node_order = [];
  proofs = ("eligible", eligible) ∷ [];
  latest_transition_proof = some "failure";
}

abbrev repair : NodeSpec
repair = spec "repair" NodeKind.validation_repair []

abbrev repaired : ExecutionState
repaired = refresh_ready_nodes (push_node repair repairing)

repair_added : add_validation_repair_node unselected "eligible" repair repairing ≡ ok repaired
unfolding add_validation_repair_node already_selected validate_node_budget check_known
    requires_model ProofKind-discrete contains_key contains get
repair_added = refl

add_validation_repair_node-IsOrderly_example :
    IsOrderly repaired
    × (get "repair" repaired.nodes ≡ some (record (from_spec repair) { state = NodeState.ready }))
add_validation_repair_node-IsOrderly_example =
    add_validation_repair_node-IsOrderly unselected "eligible" repair repairing repaired
      (bare-IsOrderly repairing refl) repair_added
