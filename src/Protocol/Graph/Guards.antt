-- ===== src/Protocol/Graph/Guards.antt =====
-- What the phases must agree to before a node of theirs starts, waits, succeeds or fails (the tests
-- by kind in `start_node`, `wait_node`, `resume_node`, `succeed_node` and `fail_node` of
-- src/execution_protocol/reducer.rs).
use rustgrid_agent.Prelude.{
  String, Bool, true, false, not, ◌&&◌, ◌||◌, Option, none, some, ◌==◌, is_some, is_some_and,
  is_none_or, any, if◌then◌else◌,
}
use rustgrid_agent.Map.{get, values}
use rustgrid_agent.Protocol.Stage.{NodeKind, is_planned_node}
use rustgrid_agent.Protocol.Violation.{
  ProtocolViolation, Result, ok, err, panic, discovery_contract, planning_contract,
  mutation_contract, validation_contract, review_contract, publication_contract, invalid_proof,
  reject_if, ok_or, ◌>>=◌, ◌>>◌,
}
use rustgrid_agent.Protocol.Model.{
  ProofRecord, proof_eq, DiscoveryConvergence, PlanningState, ValidationState, ReviewState,
  PublicationState, ExecutionNode, ExecutionState,
}

-- What the graph asks of the phases, by the names of their functions. `accepted_plan_graph_exists`
-- says that a logged `NodesAdded` with this proof carries the nodes of the accepted plan, and
-- `mutation_converged` that the node's current mutation target has a convergence of either sort.
pub record PhaseContracts : Type 0 where
  pub accepted_plan_graph_exists : ExecutionState → String → Bool
  pub validation_pass_proof : ExecutionState → String → Result ProofRecord
  pub review_completion_proof : ExecutionState → Result ProofRecord
  pub completion_evaluation_proof : ExecutionState → Result ProofRecord
  pub publication_completion_proof : ExecutionState → Result ProofRecord
  pub mutation_terminal_failure_revision : ExecutionState → String → Result String
  pub mutation_converged : ExecutionState → String → Bool

-- `map_err(|_| e)`
abbrev pub map_err {ℓ} : {A : Type ℓ} → Result A → ProtocolViolation → Result A
map_err (ok a) e = ok a
map_err (err _) e = err e
map_err (panic message) e = panic message

unfoldable pub start_guards : NodeKind → ExecutionState → ExecutionNode → Result (Unit {0})
start_guards NodeKind.discovery st node =
    if is_some st.repository_profile
    then (do
      discovery ← ok_or st.discovery (discovery_contract "discovery_start_without_goal")
      reject_if
          (not (discovery.node_id == node.id)
            || is_none_or st.repository_profile
                (λ profile_id. not (profile_id == discovery.repository_profile_id)))
          (discovery_contract "discovery_start_profile_binding_mismatch")
      ok tt)
    else ok tt
start_guards NodeKind.planning st node = do
  reject_if
      (is_some st.repository_profile
        && is_none_or st.planning (λ planning. not (planning.node_id == node.id)))
      (planning_contract "planning_start_without_authoritative_state")
  ok tt
start_guards NodeKind.validation st node = do
  reject_if
      (is_some_and st.validation
        λ validation. is_none_or validation.next_gate_node_id (λ gate. not (gate == node.id)))
      (validation_contract "validation_node_is_not_canonical_next_gate")
  ok tt
start_guards NodeKind.validation_repair st node = do
  reject_if
      (is_some_and st.validation λ validation.
        is_none_or validation.selected_repair_node_id (λ repair. not (repair == node.id)))
      (validation_contract "repair_node_is_not_authoritative_selection")
  ok tt
start_guards _ st node = ok tt

abbrev is_delivery : NodeKind → Bool
is_delivery NodeKind.review = true
is_delivery NodeKind.completion_evaluation = true
is_delivery NodeKind.publication = true
is_delivery _ = false

abbrev is_repair : NodeKind → Bool
is_repair NodeKind.validation_repair = true
is_repair _ = false

-- The tests that waiting and resuming share, with the code that each reports.
unfoldable pub suspension_guards : String → String → ExecutionState → Result (Unit {0})
suspension_guards code node_id st = do
  reject_if
      ((is_some st.review || is_some st.publication)
        && is_some_and (get node_id st.nodes) (λ node. is_delivery node.kind))
      (review_contract code)
  reject_if
      (is_some st.validation && is_some_and (get node_id st.nodes) (λ node. is_repair node.kind))
      (validation_contract "repair_execution_effect_unavailable")
  ok tt

-- The proof that is offered must be the one that the phase expects now.
abbrev expects : Result ProofRecord → String → ProofRecord → String → Result (Unit {0})
expects expected proof_id proof code = do
  e ← expected
  reject_if (not (proof_id == e.id) || not (proof_eq proof e)) (invalid_proof proof_id code)
  ok tt

-- The convergence is the acceptance of this very map.
abbrev accepts_map : Option DiscoveryConvergence → Option String → Bool
accepts_map (some (DiscoveryConvergence.impact_map_accepted evidence_id)) (some actual_id) =
    evidence_id == actual_id
accepts_map _ _ = false

abbrev is_blocking : Option DiscoveryConvergence → Bool
is_blocking (some DiscoveryConvergence.insufficient_evidence) = true
is_blocking (some DiscoveryConvergence.budget_blocked) = true
is_blocking _ = false

abbrev planning_success :
    PhaseContracts → Option PlanningState → String → ExecutionState → Result (Unit {0})
planning_success c none proof_id st = ok tt
planning_success c (some planning) proof_id st = do
  reject_if
      (is_some st.current_planning_action
        || planning.convergence
        || not (
            c.accepted_plan_graph_exists st proof_id
            || planning.accepted_no_op
              && not (any (λ node. is_planned_node node.kind) (values st.nodes))))
      (planning_contract "planning_success_without_accepted_projection")
  ok tt

unfoldable pub succeed_guards :
    PhaseContracts → NodeKind → String → String → ProofRecord → ExecutionState → Result (Unit {0})
succeed_guards c NodeKind.discovery node_id proof_id proof st =
    if is_some st.repository_profile
    then (do
      discovery ← ok_or st.discovery (discovery_contract "discovery_state_missing")
      reject_if
          (is_some st.current_discovery_action
            || not (accepts_map discovery.convergence discovery.impact_map))
          (discovery_contract "discovery_success_without_accepted_impact_map")
      ok tt)
    else ok tt
succeed_guards c NodeKind.planning node_id proof_id proof st =
    planning_success c st.planning proof_id st
succeed_guards c NodeKind.validation node_id proof_id proof st =
    let code : String = "validation_node_success_proof_not_current" in
    if is_some st.validation
    then expects (map_err (c.validation_pass_proof st node_id) (invalid_proof proof_id code))
        proof_id proof code
    else ok tt
succeed_guards c NodeKind.review node_id proof_id proof st =
    if is_some st.review
    then expects (c.review_completion_proof st) proof_id proof
        "review_node_success_proof_not_current"
    else ok tt
succeed_guards c NodeKind.completion_evaluation node_id proof_id proof st =
    if is_some st.review
    then expects (c.completion_evaluation_proof st) proof_id proof
        "completion_node_success_proof_not_current"
    else ok tt
succeed_guards c NodeKind.publication node_id proof_id proof st =
    if is_some st.publication
    then expects (c.publication_completion_proof st) proof_id proof
        "publication_node_success_proof_not_current"
    else ok tt
succeed_guards c _ node_id proof_id proof st = ok tt

-- A failure must be terminal, and be the one that the phase has converged on.
abbrev exact_failure : Result String → String → Bool → ProtocolViolation → Result (Unit {0})
exact_failure expected failure_revision_id terminal e = do
  revision ← expected
  reject_if (not terminal || not (revision == failure_revision_id)) e
  ok tt

abbrev validation_failure : ValidationState → String → String → Bool → Bool
validation_failure validation node_id revision true =
    is_some_and validation.convergence (λ r. r == revision)
validation_failure validation node_id revision false =
    is_some_and validation.current_failure λ failure. failure.0 == node_id && failure.1 == revision

abbrev review_convergence : Option ReviewState → Option String
review_convergence none = none
review_convergence (some review) = review.convergence

abbrev publication_convergence : Option PublicationState → Option String
publication_convergence none = none
publication_convergence (some publication) = publication.convergence

unfoldable pub fail_guards_by_kind :
    PhaseContracts → NodeKind → String → String → Bool → ExecutionState → Result (Unit {0})
fail_guards_by_kind c NodeKind.discovery node_id revision terminal st = do
  reject_if
      (is_some st.repository_profile
        && (not terminal
            || is_some st.current_discovery_action
            || not (is_some_and st.discovery (λ discovery. is_blocking discovery.convergence))))
      (discovery_contract "discovery_failure_without_blocking_convergence")
  ok tt
fail_guards_by_kind c NodeKind.planning node_id revision terminal st = do
  reject_if
      (is_some st.planning
        && (not terminal
            || is_some st.current_planning_action
            || is_none_or st.planning (λ planning. not planning.convergence)))
      (planning_contract "planning_failure_without_blocking_convergence")
  ok tt
fail_guards_by_kind c NodeKind.implementation node_id revision terminal st =
    let e = mutation_contract "implementation_failure_without_exact_mutation_convergence" in
    exact_failure (map_err (c.mutation_terminal_failure_revision st node_id) e) revision terminal e
fail_guards_by_kind c NodeKind.validation_repair node_id revision terminal st =
    let e = validation_contract "repair_failure_without_exact_mutation_convergence" in
    if is_some st.validation
    then exact_failure (map_err (c.mutation_terminal_failure_revision st node_id) e) revision
        terminal e
    else ok tt
fail_guards_by_kind c NodeKind.validation node_id revision terminal st = do
  reject_if
      (is_some_and st.validation
        λ validation. not (validation_failure validation node_id revision terminal))
      (validation_contract "validation_failure_without_exact_convergence")
  ok tt
fail_guards_by_kind c NodeKind.publication node_id revision terminal st =
    let e = publication_contract "publication_failure_without_exact_convergence" in
    if is_some st.publication
    then exact_failure (ok_or (publication_convergence st.publication) e) revision terminal e
    else ok tt
-- Review and completion evaluation.
fail_guards_by_kind c _ node_id revision terminal st =
    let e = review_contract "review_failure_without_exact_convergence" in
    if is_some st.review
    then exact_failure (ok_or (review_convergence st.review) e) revision terminal e
    else ok tt

-- No test concerns a node that does not exist.
unfoldable pub fail_guards :
    PhaseContracts → String → String → Bool → ExecutionState → Result (Unit {0})
fail_guards c node_id revision terminal st = elim (get node_id st.nodes) [
  | none ↦ ok tt
  | some node ↦ fail_guards_by_kind c node.kind node_id revision terminal st
]
