-- ===== src/Examples/Plan.antt =====
-- A plan of five nodes in a chain, for the tests of the graph in src/execution_protocol/reducer.rs.
use rustgrid_agent.Prelude.{
  ℕ, String, ◌≡◌, refl, ◌↔◌, Bool, true, none, some, List, [], ◌∷◌, contains, push_all, distinct,
}
use rustgrid_agent.Words.{saturating_sub}
use rustgrid_agent.Map.{get, contains_key, insert, modify}
use rustgrid_agent.Map.Sums.{total}
use rustgrid_agent.Protocol.Stage.{NodeKind, ProtocolStage, protocol_node_order}
use rustgrid_agent.Protocol.Violation.{Returns, ok, err, invalid_graph, expect_mut}
use rustgrid_agent.Protocol.Model.{
  no_usage, NodeState, ExecutionNode, ExecutionState, ordered_nodes,
}
use rustgrid_agent.Protocol.Graph.Paths.{Depends, has_dependency_path, search_path}
use rustgrid_agent.Protocol.Graph.Paths.Search.{has_dependency_path_decides}
use rustgrid_agent.Protocol.Graph.Acyclic.{
  add_dependency, add_dependencies, add_nodes, no_degrees, initially_ready, release, release_all,
  drain, validate_graph_acyclic,
}
use rustgrid_agent.Protocol.Graph.Acyclic.Degrees.{is_indexed}
use rustgrid_agent.Protocol.Graph.Acyclic.Order.{
  IsRanked, validate_graph_acyclic_exact, validate_graph_acyclic-Returns,
}
use rustgrid_agent.Protocol.Graph.Topology.{
  filter, required_nodes, require_stages, stable_indexes, check_monotonic, check_dependency_order,
  lacks_path, require_paths, validate_plan_topology,
}
use rustgrid_agent.Protocol.Graph.Topology.Chain.{IsRequired, publication-Depends}
use rustgrid_agent.Protocol.Graph.Topology.Ranks.{validate_plan_topology-acyclic}
use rustgrid_agent.Examples.Ledger.{fresh, node_contract}

abbrev node_after : String → NodeKind → List String → ExecutionNode
node_after id kind dependencies = record {
  id = id;
  kind = kind;
  required = true;
  dependencies = dependencies;
  budget = node_contract;
  usage = no_usage;
  state = NodeState.pending;
  attempts_started = 0;
}

abbrev planned : ExecutionState
planned = record fresh {
  position = ProtocolStage.planning;
  nodes =
      ("build", node_after "build" NodeKind.implementation [])
      ∷ ("complete", node_after "complete" NodeKind.completion_evaluation ("review" ∷ []))
      ∷ ("publish", node_after "publish" NodeKind.publication ("complete" ∷ []))
      ∷ ("review", node_after "review" NodeKind.review ("test" ∷ []))
      ∷ ("test", node_after "test" NodeKind.validation ("build" ∷ []))
      ∷ [];
  node_order = "build" ∷ "test" ∷ "review" ∷ "complete" ∷ "publish" ∷ [];
}

-- Two nodes that wait for each other are refused.
circle_refused :
    validate_graph_acyclic (
      ("a", node_after "a" NodeKind.review ("b" ∷ []))
      ∷ ("b", node_after "b" NodeKind.review ("a" ∷ []))
      ∷ [])
    ≡ err (invalid_graph "dependency_cycle" none)
unfolding validate_graph_acyclic add_nodes add_dependencies add_dependency no_degrees
    initially_ready drain release_all release get contains_key insert modify expect_mut
    saturating_sub
circle_refused = refl

path_found : has_dependency_path planned.nodes "publish" "build" ≡ some true
unfolding has_dependency_path search_path get total contains push_all
path_found = refl

planned-is_indexed : is_indexed planned.nodes ≡ true
unfolding is_indexed contains_key
planned-is_indexed = refl

planned_accepted : validate_plan_topology planned ≡ ok tt
unfolding validate_plan_topology require_stages required_nodes filter ordered_nodes stable_indexes
    check_dependency_order check_monotonic require_paths lacks_path has_dependency_path search_path
    get insert total contains push_all distinct protocol_node_order
planned_accepted = refl

publish-IsRequired : IsRequired planned NodeKind.publication "publish"
unfolding required_nodes filter ordered_nodes get contains
publish-IsRequired = refl

has_dependency_path_decides_example :
    (b : Bool) × (has_dependency_path planned.nodes "publish" "build" ≡ some b)
    × ((b ≡ true) ↔ Depends planned.nodes "publish" "build")
has_dependency_path_decides_example = has_dependency_path_decides planned.nodes "publish" "build"

validate_graph_acyclic_exact_example :
    (validate_graph_acyclic planned.nodes ≡ ok tt)
    ↔ ((rank : String → ℕ) × IsRanked planned.nodes rank)
validate_graph_acyclic_exact_example = validate_graph_acyclic_exact planned.nodes planned-is_indexed

validate_graph_acyclic-Returns_example : Returns (validate_graph_acyclic planned.nodes)
validate_graph_acyclic-Returns_example =
    validate_graph_acyclic-Returns planned.nodes planned-is_indexed

publication-Depends_example :
    ((c : String)
      → IsRequired planned NodeKind.completion_evaluation c
      → Depends planned.nodes "publish" c)
    × ((r : String) → IsRequired planned NodeKind.review r → Depends planned.nodes "publish" r)
publication-Depends_example =
    publication-Depends planned "publish" planned_accepted publish-IsRequired

validate_plan_topology-acyclic_example : validate_graph_acyclic planned.nodes ≡ ok tt
validate_plan_topology-acyclic_example =
    validate_plan_topology-acyclic planned planned-is_indexed planned_accepted
