-- ===== src/Protocol/Graph/Growth.antt =====
-- `add_plan_nodes` and `add_validation_repair_node` of src/execution_protocol/reducer.rs: how the graph
-- grows.
pub mod Kept
pub mod Added
use rustgrid_agent.Prelude.{
  String, Bool, true, false, not, ◌&&◌, ◌||◌, Option, none, some, List, [], ◌∷◌, ◌++◌, ◌==◌, map,
  any, is_some, is_some_and, is_none_or, contains, distinct, if◌then◌else◌,
}
use rustgrid_agent.Map.{Map, get, insert, contains_key}
use rustgrid_agent.Protocol.Stage.{
  ProtocolStage, stage_eq, NodeKind, kind_eq, ProofKind, proof_kind_eq,
}
use rustgrid_agent.Protocol.Violation.{
  Result, ok, err, illegal_transition, missing_transition_proof, planning_contract,
  validation_contract, invalid_graph, invalid_proof, duplicate_node, wrong_position, reject_if,
  ok_or, ◌>>=◌, ◌>>◌,
}
use rustgrid_agent.Protocol.Model.{
  NodeSpec, ExecutionNode, ExecutionState, ProofRecord, LoggedEvent, from_spec, proof_eq,
}
use rustgrid_agent.Protocol.Graph.{validate_node_budget, refresh_ready_nodes}
use rustgrid_agent.Protocol.Graph.Acyclic.{validate_graph_acyclic}
use rustgrid_agent.Protocol.Graph.Topology.{validate_plan_topology}
use rustgrid_agent.Protocol.Graph.Advance.{proof_kind}
use rustgrid_agent.Protocol.Graph.Check.{PlanContracts, exact_event, spec_eq, specs_eq, check_known}

-- The repair node that is selected for the active failure, and the proof of its eligibility.
pub record RepairContracts : Type 0 where
  pub authoritative_selection : ExecutionState → Result (NodeSpec × ProofRecord)

abbrev pub has_kind : ProofKind → String → ExecutionState → Bool
has_kind kind proof_id st =
    is_some_and (proof_kind proof_id st.proofs) λ recorded. proof_kind_eq recorded kind

abbrev pub is_recorded : String → ProofRecord → ExecutionState → Bool
is_recorded proof_id expected st =
    proof_id == expected.id
    && is_some_and (get proof_id st.proofs) λ recorded. proof_eq recorded expected

unfoldable pub check_plan :
    PlanContracts → String → List NodeSpec → ExecutionState → Result (Unit {0})
check_plan p plan_proof_id nodes st = do
  reject_if (not (is_some_and st.planning λ planning. planning.accepted_plan))
      (planning_contract "plan_graph_without_accepted_plan")
  reject_if (not (is_recorded plan_proof_id (p.planning_acceptance_proof st) st))
      (planning_contract "plan_graph_not_accepted_plan_projection")
  expected_nodes ← p.materialized_planning_nodes st
  reject_if (not (specs_eq nodes expected_nodes))
      (planning_contract "plan_graph_not_accepted_plan_projection")

abbrev pub is_illegal : NodeKind → Bool
is_illegal NodeKind.discovery = true
is_illegal NodeKind.planning = true
is_illegal NodeKind.validation_repair = true
is_illegal _ = false

unfoldable pub check_incoming_dependencies :
    Map ExecutionNode → List String → String → List String → Result (Unit {0})
check_incoming_dependencies nodes incoming_ids node_id [] = ok tt
check_incoming_dependencies nodes incoming_ids node_id (dependency ∷ rest) = do
  reject_if (not (contains_key dependency nodes) && not (contains dependency incoming_ids))
      (invalid_graph "unknown_dependency" (some node_id))
  reject_if (dependency == node_id) (invalid_graph "self_dependency" (some node_id))
  check_incoming_dependencies nodes incoming_ids node_id rest

unfoldable pub check_incoming : Map ExecutionNode → List String → List NodeSpec → Result (Unit {0})
check_incoming nodes incoming_ids [] = ok tt
check_incoming nodes incoming_ids (node ∷ rest) = do
  reject_if (contains_key node.id nodes) (duplicate_node node.id)
  reject_if (is_illegal node.kind) (invalid_graph "plan_contains_illegal_node_kind" (some node.id))
  validate_node_budget node
  check_incoming_dependencies nodes incoming_ids node.id node.dependencies
  check_incoming nodes incoming_ids rest

-- The push to the order and the insertion into the map.
unfoldable pub push_node : NodeSpec → ExecutionState → ExecutionState
push_node spec st = record st {
  node_order = st.node_order ++ spec.id ∷ [];
  nodes = insert spec.id (from_spec spec) st.nodes;
}

unfoldable pub push_nodes : List NodeSpec → ExecutionState → ExecutionState
push_nodes [] st = st
push_nodes (spec ∷ specs) st = push_nodes specs (push_node spec st)

abbrev pub spec_ids : List NodeSpec → List String
spec_ids = map (λ spec. spec.id)

abbrev pub is_empty : List NodeSpec → Bool
is_empty [] = true
is_empty (_ ∷ _) = false

unfoldable pub add_plan_nodes :
    PlanContracts → String → List NodeSpec → ExecutionState → Result ExecutionState
add_plan_nodes p plan_proof_id nodes st = do
  reject_if (not (stage_eq st.position ProtocolStage.planning))
      (illegal_transition st.position ProtocolStage.implementation)
  reject_if (not (has_kind ProofKind.plan_accepted plan_proof_id st))
      (missing_transition_proof ProofKind.plan_accepted)
  if is_some st.planning then check_plan p plan_proof_id nodes st else ok tt
  reject_if (is_some (exact_event st.event_log))
      (invalid_graph "plan_graph_already_materialized" none)
  reject_if (is_empty nodes) (invalid_graph "accepted_mutation_plan_has_no_nodes" none)
  reject_if (not (distinct (spec_ids nodes))) (invalid_graph "duplicate_incoming_node_id" none)
  check_incoming st.nodes (spec_ids nodes) nodes
  validate_graph_acyclic (push_nodes nodes st).nodes
  validate_plan_topology (push_nodes nodes st)
  ok (push_nodes nodes st)

unfoldable pub check_selection :
    RepairContracts → String → NodeSpec → ExecutionState → Result (Unit {0})
check_selection c eligibility_proof_id node st = do
  selection ← c.authoritative_selection st
  reject_if
      (not (spec_eq node selection.0) || not (is_recorded eligibility_proof_id selection.1 st))
      (validation_contract "repair_node_not_authoritative_selection")

abbrev pub is_bound : String → String → ExecutionState → Bool
is_bound failure_id proof_id st =
    is_some_and (get proof_id st.proofs)
      λ eligibility. contains failure_id eligibility.related_proof_ids

-- Whether a repair of this failure has been added before.
unfoldable pub already_selected : String → ExecutionState → List LoggedEvent → Bool
already_selected failure_id st [] = false
already_selected failure_id st (LoggedEvent.repair_node_added recorded_eligibility ∷ log) =
    is_bound failure_id recorded_eligibility st || already_selected failure_id st log
already_selected failure_id st (_ ∷ log) = already_selected failure_id st log

abbrev pub is_independent : NodeSpec → Bool
is_independent node = elim node.dependencies [ [] ↦ node.required | _ ∷ _ ↦ false ]

unfoldable pub add_validation_repair_node :
    RepairContracts → String → NodeSpec → ExecutionState → Result ExecutionState
add_validation_repair_node c eligibility_proof_id node st = do
  reject_if (not (stage_eq st.position ProtocolStage.repair)) (wrong_position node.id st.position)
  reject_if (not (has_kind ProofKind.repair_eligibility eligibility_proof_id st))
      (missing_transition_proof ProofKind.repair_eligibility)
  if is_some st.validation then check_selection c eligibility_proof_id node st else ok tt
  current_failure_id ←
      ok_or st.latest_transition_proof
        (invalid_proof eligibility_proof_id "current_validation_failure_proof_missing")
  reject_if (not (is_bound current_failure_id eligibility_proof_id st))
      (invalid_proof eligibility_proof_id "repair_eligibility_not_bound_to_current_failure")
  reject_if (not (kind_eq node.kind NodeKind.validation_repair))
      (invalid_graph "repair_node_kind_mismatch" (some node.id))
  reject_if (not (is_independent node))
      (invalid_graph "repair_node_must_be_required_and_independent" (some node.id))
  reject_if (already_selected current_failure_id st st.event_log)
      (invalid_graph "repair_node_already_selected_for_failure" (some node.id))
  reject_if (contains_key node.id st.nodes) (duplicate_node node.id)
  validate_node_budget node
  check_known node.id st.nodes node.dependencies
  ok (refresh_ready_nodes (push_node node st))
