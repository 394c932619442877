-- ===== src/Protocol/Graph/Check.antt =====
-- `validate_graph` of src/execution_protocol/reducer.rs: the test of a whole execution graph.
pub mod Accepted
use rustgrid_agent.Prelude.{
  ℕ, suc, String, Bool, true, false, not, ◌&&◌, ◌||◌, Option, none, some, List, [], ◌∷◌, ◌==◌,
  nat_eq, ltb, any, all, is_some, is_some_and, length, contains, distinct, if◌then◌else◌,
}
use rustgrid_agent.Map.{Map, get, values, keys, contains_key}
use rustgrid_agent.Protocol.Stage.{
  NodeKind, kind_eq, ProofKind, proof_kind_eq, stage, stage_eq, requires_model, is_planned_node,
  proof_satisfies_node,
}
use rustgrid_agent.Protocol.Violation.{
  Result, ok, err, invalid_graph, planning_contract, invariant, wrong_position, invalid_node_state,
  invalid_proof, unknown_proof, reject_if, ok_or, ◌>>=◌, ◌>>◌,
}
use rustgrid_agent.Protocol.Model.{
  NodeBudgetContract, NodeState, NodeSpec, ExecutionNode, ExecutionState, ProofRecord, LoggedEvent,
  owns_execution, names_eq,
}
use rustgrid_agent.Protocol.Graph.{is_zero, is_satisfied, ensure_dependencies_satisfied}
use rustgrid_agent.Protocol.Graph.Orderly.{needs_support}
use rustgrid_agent.Protocol.Graph.Acyclic.{validate_graph_acyclic}
use rustgrid_agent.Protocol.Graph.Topology.{filter, validate_plan_topology}
use rustgrid_agent.Protocol.Graph.Advance.{proof_kind}

-- What the accepted plan stands for.
pub record PlanContracts : Type 0 where
  pub materialized_planning_nodes : ExecutionState → Result (List NodeSpec)
  pub planning_acceptance_proof : ExecutionState → ProofRecord

unfoldable pub keys_match : Map ExecutionNode → Bool
keys_match [] = true
keys_match ((node_id, node) ∷ nodes) = node_id == node.id && keys_match nodes

-- Equality as sets.
unfoldable pub same_names : List String → List String → Bool
same_names xs ys = all (λ x. contains x ys) xs && all (λ y. contains y xs) ys

unfoldable pub materialization_events : List LoggedEvent → ℕ
materialization_events [] = 0
materialization_events (LoggedEvent.nodes_added proof_id nodes ∷ log) =
    suc (materialization_events log)
materialization_events (_ ∷ log) = materialization_events log

unfoldable pub exact_event : List LoggedEvent → Option (String × List NodeSpec)
exact_event [] = none
exact_event (LoggedEvent.nodes_added proof_id nodes ∷ log) = some (proof_id, nodes)
exact_event (_ ∷ log) = exact_event log

-- The derived `PartialEq`.
unfoldable pub budget_eq : NodeBudgetContract → NodeBudgetContract → Bool
budget_eq a b =
    nat_eq a.max_model_calls b.max_model_calls
    && nat_eq a.max_cost_micros b.max_cost_micros
    && nat_eq a.max_duration_ms b.max_duration_ms
    && nat_eq a.max_mutation_attempts b.max_mutation_attempts
    && nat_eq a.max_context_rebuilds b.max_context_rebuilds
    && nat_eq a.max_input_tokens_per_call b.max_input_tokens_per_call
    && nat_eq a.max_output_tokens_per_call b.max_output_tokens_per_call

abbrev pub same_flag : Bool → Bool → Bool
same_flag true b = b
same_flag false b = not b

unfoldable pub spec_eq : NodeSpec → NodeSpec → Bool
spec_eq a b =
    a.id == b.id
    && kind_eq a.kind b.kind
    && same_flag a.required b.required
    && names_eq a.dependencies b.dependencies
    && budget_eq a.budget b.budget

unfoldable pub specs_eq : List NodeSpec → List NodeSpec → Bool
specs_eq [] [] = true
specs_eq (a ∷ xs) (b ∷ ys) = spec_eq a b && specs_eq xs ys
specs_eq _ _ = false

unfoldable pub check_projection : PlanContracts → ExecutionState → Result (Unit {0})
check_projection p st = do
  reject_if (not (is_some_and st.planning λ planning. planning.accepted_plan))
      (planning_contract "materialized_graph_has_no_accepted_plan")
  expected_nodes ← p.materialized_planning_nodes st
  reject_if
      (not (
        is_some_and (exact_event st.event_log) λ event.
          event.0 == (p.planning_acceptance_proof st).id && specs_eq event.1 expected_nodes))
      (planning_contract "materialized_graph_projection_mismatch")

unfoldable pub check_materialization : PlanContracts → ExecutionState → Result (Unit {0})
check_materialization p st = do
  let planned_nodes_present =
      any (λ (node : ExecutionNode). is_planned_node node.kind) (values st.nodes)
  reject_if
      (not (nat_eq (materialization_events st.event_log) (if planned_nodes_present then 1 else 0)))
      (invalid_graph "plan_graph_materialization_event_mismatch" none)
  if planned_nodes_present
      then (do
        validate_plan_topology st
        if is_some st.planning then check_projection p st else ok tt)
      else ok tt

unfoldable pub owners : Map ExecutionNode → List ExecutionNode
owners nodes = filter (λ node. owns_execution node.state) (values nodes)

unfoldable pub check_owners : ExecutionState → Result (Unit {0})
check_owners st = do
  reject_if (ltb 1 (length (owners st.nodes))) (invariant "multiple_active_owners")
  elim (owners st.nodes) [
    | [] ↦ ok tt
    | owner ∷ _ ↦
        reject_if (not (stage_eq (stage owner.kind) st.position))
          (wrong_position owner.id st.position)
  ]

abbrev pub rerun_scheduled : ExecutionState → Bool
rerun_scheduled st =
    is_some_and st.validation (λ validation. validation.pending_rerun)
    && is_some_and st.latest_transition_proof λ proof_id.
      is_some_and (proof_kind proof_id st.proofs)
        λ kind. proof_kind_eq kind ProofKind.validation_rerun_scheduled

unfoldable pub ready_eligible : ExecutionState → ExecutionNode → Bool
ready_eligible st node =
    stage_eq (stage node.kind) st.position && all (is_satisfied st.nodes) node.dependencies

abbrev pub unready : ExecutionState → ExecutionNode → NodeState → Result (Unit {0})
unready st node NodeState.pending =
    reject_if (ready_eligible st node) (invalid_node_state node.id "eligible_node_is_not_ready")
unready st node NodeState.ready =
    reject_if (not (ready_eligible st node) && not (is_some st.terminal))
      (invalid_node_state node.id "ready_node_is_not_eligible")
unready st node (NodeState.failed_recoverable revision) =
    reject_if
      (ready_eligible st node && kind_eq node.kind NodeKind.validation && rerun_scheduled st)
      (invalid_node_state node.id "scheduled_validation_rerun_is_not_ready")
unready st node _ = ok tt

unfoldable pub check_known : String → Map ExecutionNode → List String → Result (Unit {0})
check_known node_id nodes [] = ok tt
check_known node_id nodes (dependency_id ∷ rest) = do
  reject_if (not (contains_key dependency_id nodes))
      (invalid_graph "unknown_dependency" (some node_id))
  check_known node_id nodes rest

unfoldable pub check_proof : ExecutionState → ExecutionNode → String → Result (Unit {0})
check_proof st node proof_id = do
  proof ← ok_or (get proof_id st.proofs) (unknown_proof proof_id)
  reject_if
      (not (any (λ k. k == node.id) proof.node_ids)
        || not (proof_satisfies_node node.kind proof.kind))
      (invalid_proof proof_id "node_success_proof_mismatch")

abbrev pub check_success : ExecutionState → ExecutionNode → NodeState → Result (Unit {0})
check_success st node (NodeState.succeeded proof_id) = check_proof st node proof_id
check_success st node (NodeState.skipped proof_id) = check_proof st node proof_id
check_success st node _ = ok tt

unfoldable pub check_graph_node : ExecutionState → ExecutionNode → Result (Unit {0})
check_graph_node st node = do
  reject_if
      (requires_model node.kind
        && (is_zero node.budget.max_model_calls
            || is_zero node.budget.max_input_tokens_per_call
            || is_zero node.budget.max_output_tokens_per_call))
      (invalid_graph "model_node_has_no_viable_budget" (some node.id))
  unready st node node.state
  check_known node.id st.nodes node.dependencies
  if needs_support node.state then ensure_dependencies_satisfied node.id st else ok tt
  check_success st node node.state

unfoldable pub check_graph_nodes : ExecutionState → Map ExecutionNode → Result (Unit {0})
check_graph_nodes st [] = ok tt
check_graph_nodes st ((k, node) ∷ nodes) = do check_graph_node st node; check_graph_nodes st nodes

unfoldable pub validate_graph : PlanContracts → ExecutionState → Result (Unit {0})
validate_graph p st = do
  reject_if (not (keys_match st.nodes)) (invalid_graph "node_map_key_identity_mismatch" none)
  reject_if (not (distinct st.node_order) || not (same_names st.node_order (keys st.nodes)))
      (invalid_graph "stable_order_node_map_mismatch" none)
  validate_graph_acyclic st.nodes
  check_materialization p st
  check_owners st
  check_graph_nodes st st.nodes
