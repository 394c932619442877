-- ===== src/Protocol/Graph/Topology.antt =====
-- `validate_plan_topology` of src/execution_protocol/reducer.rs: the stages of a plan, the order of
-- its dependencies, and the chain from publication over completion to review.
pub mod Chain
pub mod Ranks
use rustgrid_agent.Prelude.{
  ℕ, ◌+◌, String, Bool, true, false, not, ◌&&◌, ◌||◌, Option, none, some, List, [], ◌∷◌, ◌==◌, map,
  ltb, leb, nat_eq, distinct, if◌then◌else◌,
}
use rustgrid_agent.Map.{Map, get, insert}
use rustgrid_agent.Protocol.Stage.{NodeKind, kind_eq, protocol_node_order}
use rustgrid_agent.Protocol.Violation.{
  ProtocolViolation, Result, ok, err, invalid_graph, reject_if, ok_or, expect, ◌>>=◌, ◌>>◌,
}
use rustgrid_agent.Protocol.Model.{ExecutionNode, ExecutionState, ordered_nodes}
use rustgrid_agent.Protocol.Graph.Paths.{has_dependency_path}

abbrev pub is_required : NodeKind → ExecutionNode → Bool
is_required kind node = node.required && kind_eq node.kind kind

unfoldable pub filter : (ExecutionNode → Bool) → List ExecutionNode → List ExecutionNode
filter p [] = []
filter p (node ∷ nodes) = let rest = filter p nodes in if p node then node ∷ rest else rest

unfoldable pub required_nodes : NodeKind → ExecutionState → List ExecutionNode
required_nodes kind st = filter (is_required kind) (ordered_nodes st.nodes st.node_order)

unfoldable pub require_stages : List NodeKind → ExecutionState → Result (Unit {0})
require_stages [] st = ok tt
require_stages (kind ∷ kinds) st = elim (required_nodes kind st) [
  | [] ↦ err (invalid_graph "required_plan_stage_missing" none)
  | _ ∷ _ ↦ require_stages kinds st
]

-- The index of each id, `n` for the first.
unfoldable pub stable_indexes : ℕ → List String → Map ℕ → Map ℕ
stable_indexes n [] m = m
stable_indexes n (k ∷ ks) m = stable_indexes (n + 1) ks (insert k n m)

unfoldable pub check_monotonic :
    Map ExecutionNode → Map ℕ → ExecutionNode → ℕ → List String → Result (Unit {0})
check_monotonic nodes indexes node node_index [] = ok tt
check_monotonic nodes indexes node node_index (dependency_id ∷ rest) = do
  dependency ← ok_or (get dependency_id nodes) (invalid_graph "unknown_dependency" (some node.id))
  let node_rank = protocol_node_order node.kind
  let dependency_rank = protocol_node_order dependency.kind
  dependency_index ← expect (get dependency_id indexes) "stable order was validated before topology"
  reject_if
      (ltb node_rank dependency_rank
        || (nat_eq dependency_rank node_rank && leb node_index dependency_index))
      (invalid_graph "dependency_is_not_stage_monotonic" (some node.id))
  check_monotonic nodes indexes node node_index rest

unfoldable pub check_dependency_order :
    Map ExecutionNode → Map ℕ → Map ExecutionNode → Result (Unit {0})
check_dependency_order nodes indexes [] = ok tt
check_dependency_order nodes indexes ((k, node) ∷ rest) = do
  reject_if (not (distinct node.dependencies)) (invalid_graph "duplicate_dependency" (some node.id))
  node_index ← expect (get node.id indexes) "stable order was validated before topology"
  check_monotonic nodes indexes node node_index node.dependencies
  check_dependency_order nodes indexes rest

-- Whether some of the ancestors cannot be reached; the search stops at the first.
unfoldable pub lacks_path : Map ExecutionNode → String → List String → Result Bool
lacks_path nodes n [] = ok false
lacks_path nodes n (a ∷ ancestors) = do
  found ← expect (has_dependency_path nodes n a) "out of fuel"
  elim found [ true ↦ lacks_path nodes n ancestors | false ↦ ok true ]

unfoldable pub require_paths :
    String → Map ExecutionNode → List String → List ExecutionNode → Result (Unit {0})
require_paths code nodes ancestors [] = ok tt
require_paths code nodes ancestors (node ∷ rest) = do
  lacking ← lacks_path nodes node.id ancestors
  reject_if lacking (invalid_graph code (some node.id))
  require_paths code nodes ancestors rest

abbrev pub ids : List ExecutionNode → List String
ids = map (λ node. node.id)

unfoldable pub validate_plan_topology : ExecutionState → Result (Unit {0})
validate_plan_topology st = do
  require_stages
      (NodeKind.implementation ∷ NodeKind.validation ∷ NodeKind.review
        ∷ NodeKind.completion_evaluation ∷ NodeKind.publication ∷ [])
      st
  check_dependency_order st.nodes (stable_indexes 0 st.node_order []) st.nodes
  require_paths "completion_does_not_depend_on_required_review" st.nodes
      (ids (required_nodes NodeKind.review st)) (required_nodes NodeKind.completion_evaluation st)
  require_paths "publication_does_not_depend_on_completion" st.nodes
      (ids (required_nodes NodeKind.completion_evaluation st))
      (required_nodes NodeKind.publication st)
