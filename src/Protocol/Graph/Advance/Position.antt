-- ===== src/Protocol/Graph/Advance/Position.antt =====
-- `advance_position` and `record_canonical_result` of src/execution_protocol/reducer.rs.
use rustgrid_agent.Prelude.{
  String, Bool, not, ◌&&◌, ◌||◌, some, List, [], ◌∷◌, ◌==◌, is_some, is_some_and, if◌then◌else◌,
}
use rustgrid_agent.Map.{Map}
use rustgrid_agent.Protocol.Stage.{
  ProtocolStage, stage_eq, NodeKind, kind_eq, proof_kind_eq, transition_proof,
}
use rustgrid_agent.Protocol.Violation.{
  Result, ok, err, illegal_transition, planning_contract, implementation_contract,
  validation_contract, review_contract, publication_contract, invariant, missing_transition_proof,
  terminal_immutable, terminal_predicate, reject_if, ok_or, ◌>>=◌, ◌>>◌,
}
use rustgrid_agent.Protocol.Model.{
  NodeState, ExecutionNode, ExecutionState, CanonicalResult, active_node, satisfies_dependency,
  names_eq,
}
use rustgrid_agent.Protocol.Ledger.{has_open_model_call}
use rustgrid_agent.Protocol.Ledger.Guards.{trim_is_empty}
use rustgrid_agent.Protocol.Graph.{is_ready, refresh_ready_nodes}
use rustgrid_agent.Protocol.Graph.Topology.{required_nodes}
use rustgrid_agent.Protocol.Graph.Advance.{
  TransitionContracts, moves, profile_guards, plan_guards, proof_kind,
  validate_transition_completion,
}

-- `single_required_node_id`
unfoldable pub single_required_node_id : NodeKind → ExecutionState → Result String
single_required_node_id kind st = elim (required_nodes kind st) [
  | [] ↦ err (invariant "phase7_required_node_cardinality_invalid")
  | node ∷ rest ↦ elim rest [
    | [] ↦ ok node.id
    | _ ∷ _ ↦ err (invariant "phase7_required_node_cardinality_invalid")
  ]
]

-- The write to every node of the map, in place.
abbrev pub postpone_node : ExecutionNode → ExecutionNode
postpone_node node =
    if kind_eq node.kind NodeKind.validation && is_ready node.state
    then record node { state = NodeState.pending }
    else node

unfoldable pub postpone_validations : Map ExecutionNode → Map ExecutionNode
postpone_validations [] = []
postpone_validations ((k, node) ∷ nodes) = (k, postpone_node node) ∷ postpone_validations nodes

abbrev accepted_plan : ExecutionState → Bool
accepted_plan st = is_some_and st.planning λ planning. planning.accepted_plan

-- The position and the proof of the transition, once its phase is entered.
unfoldable pub arrive : ProtocolStage → String → ExecutionState → ExecutionState
arrive to proof_id st =
    refresh_ready_nodes (record st { position = to; latest_transition_proof = some proof_id })

-- `unresolved_required_nodes`, in the order of the map's keys.
unfoldable pub unresolved_required_nodes : Map ExecutionNode → List String
unresolved_required_nodes [] = []
unresolved_required_nodes ((k, node) ∷ nodes) =
    let rest = unresolved_required_nodes nodes in
    if node.required && not (satisfies_dependency node.state) then node.id ∷ rest else rest

module _ (t : TransitionContracts) where
  unfoldable pub enter_planning : ExecutionState → Result ExecutionState
  enter_planning st = do
    reject_if (is_some st.planning || is_some st.current_planning_action)
        (planning_contract "planning_state_already_initialized")
    reject_if (not (is_some st.discovery)) (planning_contract "planning_discovery_state_missing")
    planning ← t.new_planning st
    ok (record st { planning = some planning })

  unfoldable pub enter_implementation : ExecutionState → Result ExecutionState
  enter_implementation st = do
    reject_if (is_some st.implementation)
        (implementation_contract "implementation_state_already_initialized")
    reject_if (not (accepted_plan st))
        (implementation_contract "implementation_accepted_plan_missing")
    implementation ← t.new_implementation st
    ok (record st { implementation = some implementation })

  unfoldable pub enter_validation : ExecutionState → Result ExecutionState
  enter_validation st = do
    reject_if (is_some st.validation) (validation_contract "validation_state_already_initialized")
    reject_if (not (is_some st.repository_profile))
        (validation_contract "validation_repository_profile_missing")
    reject_if (not (accepted_plan st)) (validation_contract "validation_accepted_plan_missing")
    validation ← t.new_validation st
    ok (record st { validation = some validation })

  unfoldable pub enter_review : ExecutionState → Result ExecutionState
  enter_review st = do
    reject_if (is_some st.review) (review_contract "review_state_already_initialized")
    t.validate_finalization_policy st
    reject_if (not (accepted_plan st)) (review_contract "review_accepted_plan_missing")
    review_node_id ← single_required_node_id NodeKind.review st
    completion_node_id ← single_required_node_id NodeKind.completion_evaluation st
    review ← t.new_review st review_node_id completion_node_id
    ok (record st { review = some review })

  unfoldable pub enter_publication : ExecutionState → Result ExecutionState
  enter_publication st = do
    reject_if (is_some st.publication)
        (publication_contract "publication_state_already_initialized")
    reject_if (not (is_some_and st.review λ review. review.eligibility))
        (publication_contract "publication_eligibility_missing")
    publication_node_id ← single_required_node_id NodeKind.publication st
    publication ← t.new_publication st publication_node_id
    ok (record st { publication = some publication })

  -- The first state of the phase that the transition enters.
  unfoldable pub enter : ProtocolStage → ProtocolStage → ExecutionState → Result ExecutionState
  enter from to st =
      if is_some st.repository_profile
        && moves from to ProtocolStage.discovery ProtocolStage.planning
      then enter_planning st
      else if is_some st.repository_profile
          && moves from to ProtocolStage.planning ProtocolStage.implementation
      then enter_implementation st
      else if moves from to ProtocolStage.implementation ProtocolStage.validation
          && st.validation_policy
      then enter_validation st
      else if moves from to ProtocolStage.validation ProtocolStage.repair
      then ok (record st { nodes = postpone_validations st.nodes })
      else if moves from to ProtocolStage.validation ProtocolStage.review && st.finalization_policy
      then enter_review st
      else if moves from to ProtocolStage.review ProtocolStage.publication && st.finalization_policy
      then enter_publication st
      else ok st

  unfoldable pub advance_guards :
      ProtocolStage → ProtocolStage → String → ExecutionState → Result (Unit {0})
  advance_guards from to proof_id st = do
    reject_if (not (stage_eq st.position from)) (illegal_transition st.position to)
    if is_some st.repository_profile then profile_guards from to st else ok tt
    reject_if (is_some (active_node st) || has_open_model_call st)
        (invariant "transition_with_active_owner")
    plan_guards from to st
    required ← ok_or (transition_proof from to) (illegal_transition from to)
    reject_if
        (not (is_some_and (proof_kind proof_id st.proofs) λ kind. proof_kind_eq kind required))
        (missing_transition_proof required)
    validate_transition_completion t from to proof_id st

  unfoldable pub advance_position :
      ProtocolStage → ProtocolStage → String → ExecutionState → Result ExecutionState
  advance_position from to proof_id st = do
    advance_guards from to proof_id st
    entered ← enter from to st
    ok (arrive to proof_id entered)

  unfoldable pub validate_canonical_result :
      CanonicalResult → ProtocolStage → ExecutionState → Result (Unit {0})
  validate_canonical_result result source_stage st = do
    reject_if (not (result.repository_revision == st.repository_revision))
        (terminal_predicate "repository_revision_mismatch")
    reject_if (trim_is_empty result.reason_code) (terminal_predicate "reason_code_missing")
    reject_if (not (names_eq result.remaining_work (unresolved_required_nodes st.nodes)))
        (terminal_predicate "remaining_work_is_not_canonical")
    t.validate_terminal_mission st result source_stage

  unfoldable pub record_canonical_result : CanonicalResult → ExecutionState → Result ExecutionState
  record_canonical_result result st = do
    reject_if (is_some st.terminal) terminal_immutable
    reject_if (is_some (active_node st) || has_open_model_call st)
        (terminal_predicate "active_work_or_reservation")
    validate_canonical_result result st.position st
    ok (record st { position = ProtocolStage.terminal; terminal = some result })
