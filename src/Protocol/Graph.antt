-- ===== src/Protocol/Graph.antt =====
-- The execution graph of src/execution_protocol/reducer.rs: `apply_graph_event` with the handlers that
-- start, suspend, resume and end a node. What the phases decide is asked of `PhaseContracts`.
pub mod Guards
pub mod Orderly
pub mod Refresh
pub mod Steps
pub mod Events
pub mod Frame
pub mod Accounting
pub mod Paths
pub mod Acyclic
pub mod Topology
pub mod Advance
pub mod Check
pub mod Growth
use rustgrid_agent.Prelude.{
  ℕ, String, Bool, true, false, not, ◌&&◌, ◌||◌, Option, none, some, List, [], ◌∷◌, ◌==◌, nat_eq,
  any, all, is_some_and, if◌then◌else◌,
}
use rustgrid_agent.Words.{saturating_add_u32}
use rustgrid_agent.Map.{Map, get, modify}
use rustgrid_agent.Protocol.Stage.{
  ProtocolStage, NodeKind, stage, stage_eq, requires_model, proof_satisfies_node,
}
use rustgrid_agent.Protocol.Violation.{
  Result, ok, err, unknown_node, unknown_proof, invalid_node_state, invalid_proof, invalid_graph,
  wrong_position, active_owner_conflict, unsatisfied_dependency, mutation_contract, reject_if,
  ok_or, expect_mut, ◌>>=◌, ◌>>◌,
}
use rustgrid_agent.Protocol.Model.{
  NodeState, NodeSpec, ExecutionNode, ExecutionState, ProofRecord, active_node,
  satisfies_dependency, is_active,
}
use rustgrid_agent.Protocol.Ledger.{has_open_model_call_for_node}
use Guards.{PhaseContracts, start_guards, succeed_guards, fail_guards, suspension_guards}

abbrev pub is_ready : NodeState → Bool
is_ready NodeState.ready = true
is_ready _ = false

abbrev pub is_zero : ℕ → Bool
is_zero n = nat_eq n 0

unfoldable pub validate_node_budget : NodeSpec → Result (Unit {0})
validate_node_budget node = do
  reject_if
      (requires_model node.kind
        && (is_zero node.budget.max_model_calls
            || is_zero node.budget.max_input_tokens_per_call
            || is_zero node.budget.max_output_tokens_per_call))
      (invalid_graph "model_node_has_no_viable_budget" (some node.id))
  ok tt

-- `self.nodes.get(id).is_some_and(|node| node.state.satisfies_dependency())`
unfoldable pub is_satisfied : Map ExecutionNode → String → Bool
is_satisfied nodes k = is_some_and (get k nodes) (λ node. satisfies_dependency node.state)

-- The loop over the dependencies.
unfoldable pub check_dependencies : String → Map ExecutionNode → List String → Result (Unit {0})
check_dependencies node_id nodes [] = ok tt
check_dependencies node_id nodes (dependency_id ∷ rest) = do
  dependency ← ok_or (get dependency_id nodes) (invalid_graph "unknown_dependency" (some node_id))
  reject_if (not (satisfies_dependency dependency.state))
      (unsatisfied_dependency node_id dependency_id)
  check_dependencies node_id nodes rest

unfoldable pub ensure_dependencies_satisfied : String → ExecutionState → Result (Unit {0})
ensure_dependencies_satisfied node_id st = do
  node ← ok_or (get node_id st.nodes) (unknown_node node_id)
  check_dependencies node_id st.nodes node.dependencies

-- A pending node, or a validation that failed and can be run again.
abbrev pub may_become_ready : NodeKind → NodeState → Bool
may_become_ready kind NodeState.pending = true
may_become_ready NodeKind.validation (NodeState.failed_recoverable revision) = true
may_become_ready _ _ = false

unfoldable pub becomes_ready : ProtocolStage → Map ExecutionNode → ExecutionNode → Bool
becomes_ready position nodes node =
    stage_eq (stage node.kind) position
    && may_become_ready node.kind node.state
    && all (is_satisfied nodes) node.dependencies

-- The ids that are collected before any write.
unfoldable pub ready_ids : ProtocolStage → Map ExecutionNode → List String → List String
ready_ids position nodes [] = []
ready_ids position nodes (k ∷ ks) =
    let rest = ready_ids position nodes ks in
    elim (get k nodes) [
      | none ↦ rest
      | some node ↦ if becomes_ready position nodes node then node.id ∷ rest else rest
    ]

abbrev pub with_state : NodeState → ExecutionNode → ExecutionNode
with_state s node = record node { state = s }

unfoldable pub set_ready : List String → Map ExecutionNode → Map ExecutionNode
set_ready [] nodes = nodes
set_ready (k ∷ ks) nodes = set_ready ks (modify k (with_state NodeState.ready) nodes)

unfoldable pub refresh_ready_nodes : ExecutionState → ExecutionState
refresh_ready_nodes st = record st {
  nodes = set_ready (ready_ids st.position st.nodes st.node_order) st.nodes;
}

abbrev no_owner : Option ExecutionNode → String → Result (Unit {0})
no_owner none node_id = ok tt
no_owner (some active) node_id = err (active_owner_conflict active.id node_id)

abbrev pub started : ℕ → ExecutionNode → ExecutionNode
started attempt node = record node { attempts_started = attempt; state = NodeState.active attempt }

unfoldable pub start_node : String → ℕ → ExecutionState → Result ExecutionState
start_node node_id attempt st = do
  no_owner (active_node st) node_id
  node ← ok_or (get node_id st.nodes) (unknown_node node_id)
  start_guards node.kind st node
  reject_if (not (stage_eq (stage node.kind) st.position)) (wrong_position node_id st.position)
  reject_if
      (not (is_ready node.state)
        || not (nat_eq attempt (saturating_add_u32 node.attempts_started 1)))
      (invalid_node_state node_id "node_started")
  ensure_dependencies_satisfied node_id st
  nodes ← expect_mut "node was checked" node_id (started attempt) st.nodes
  ok (record st { nodes = nodes })

-- The write of a waiting state, from an active one.
abbrev pub wait_in : String → String → NodeState → Result NodeState
wait_in node_id effect_id (NodeState.active attempt) = ok (NodeState.waiting attempt effect_id)
wait_in node_id effect_id _ = err (invalid_node_state node_id "node_waiting")

unfoldable pub wait_node : String → String → ExecutionState → Result ExecutionState
wait_node node_id effect_id st = do
  suspension_guards "phase7_graph_wait_unavailable" node_id st
  reject_if (has_open_model_call_for_node st.budgets.model_calls node_id)
      (invalid_node_state node_id "node_waiting_with_open_model_call")
  node ← ok_or (get node_id st.nodes) (unknown_node node_id)
  state ← wait_in node_id effect_id node.state
  ok (record st { nodes = modify node_id (with_state state) st.nodes })

abbrev pub resume_in : String → String → NodeState → Result NodeState
resume_in node_id effect_id (NodeState.waiting attempt active_effect_id) =
    if active_effect_id == effect_id
    then ok (NodeState.active attempt)
    else err (invalid_node_state node_id "effect_identity_mismatch")
resume_in node_id effect_id _ = err (invalid_node_state node_id "node_resumed")

unfoldable pub resume_node : String → String → ExecutionState → Result ExecutionState
resume_node node_id effect_id st = do
  suspension_guards "phase7_graph_resume_unavailable" node_id st
  node ← ok_or (get node_id st.nodes) (unknown_node node_id)
  state ← resume_in node_id effect_id node.state
  ok (record st { nodes = modify node_id (with_state state) st.nodes })

abbrev pub failed : Bool → String → NodeState
failed true revision = NodeState.failed_terminal revision
failed false revision = NodeState.failed_recoverable revision

-- The events that move one node along.
pub data NodeEvent : Type 0 where
  node_started : String → ℕ → NodeEvent
  node_waiting node_resumed node_succeeded : String → String → NodeEvent
  node_failed : String → String → Bool → NodeEvent

abbrev continuing_node_id : NodeEvent → Option String
continuing_node_id (NodeEvent.node_waiting node_id effect_id) = some node_id
continuing_node_id (NodeEvent.node_resumed node_id effect_id) = some node_id
continuing_node_id (NodeEvent.node_succeeded node_id proof_id) = some node_id
continuing_node_id _ = none

abbrev is_implementation : NodeKind → Bool
is_implementation NodeKind.implementation = true
is_implementation _ = false

module _ (c : PhaseContracts) where
  unfoldable pub succeed_node : String → String → ExecutionState → Result ExecutionState
  succeed_node node_id proof_id st = do
    reject_if (has_open_model_call_for_node st.budgets.model_calls node_id)
        (invalid_node_state node_id "node_succeeded_with_open_model_call")
    proof ← ok_or (get proof_id st.proofs) (unknown_proof proof_id)
    node ← ok_or (get node_id st.nodes) (unknown_node node_id)
    succeed_guards c node.kind node_id proof_id proof st
    reject_if (not (is_active node.state) || not (any (λ k. k == node_id) proof.node_ids))
        (invalid_node_state node_id "node_succeeded")
    reject_if (not (proof_satisfies_node node.kind proof.kind))
        (invalid_proof proof_id "proof_kind_does_not_satisfy_node")
    nodes ←
        expect_mut "node was checked" node_id (with_state (NodeState.succeeded proof_id)) st.nodes
    ok (refresh_ready_nodes (record st { nodes = nodes }))

  unfoldable pub fail_node : String → String → Bool → ExecutionState → Result ExecutionState
  fail_node node_id failure_revision_id terminal st = do
    reject_if (has_open_model_call_for_node st.budgets.model_calls node_id)
        (invalid_node_state node_id "node_failed_with_open_model_call")
    fail_guards c node_id failure_revision_id terminal st
    node ← ok_or (get node_id st.nodes) (unknown_node node_id)
    reject_if (not (is_active node.state)) (invalid_node_state node_id "node_failed")
    ok (record st {
      nodes = modify node_id (with_state (failed terminal failure_revision_id)) st.nodes;
    })

  abbrev blocked_by_convergence : Option String → ExecutionState → Bool
  blocked_by_convergence none st = false
  blocked_by_convergence (some node_id) st =
      is_some_and (get node_id st.nodes) (λ node. is_implementation node.kind)
      && c.mutation_converged st node_id

  abbrev pub move : NodeEvent → ExecutionState → Result ExecutionState
  move (NodeEvent.node_started node_id attempt) st = start_node node_id attempt st
  move (NodeEvent.node_waiting node_id effect_id) st = wait_node node_id effect_id st
  move (NodeEvent.node_resumed node_id effect_id) st = resume_node node_id effect_id st
  move (NodeEvent.node_succeeded node_id proof_id) st = succeed_node node_id proof_id st
  move (NodeEvent.node_failed node_id failure_revision_id terminal) st =
      fail_node node_id failure_revision_id terminal st

  unfoldable pub apply_graph_event : NodeEvent → ExecutionState → Result ExecutionState
  apply_graph_event e st = do
    reject_if (blocked_by_convergence (continuing_node_id e) st)
        (mutation_contract "implementation_progress_after_mutation_convergence")
    move e st
