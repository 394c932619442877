-- ===== src/Protocol/Graph/Advance.antt =====
-- `advance_position`, `validate_transition_completion`, `record_canonical_result` and
-- `validate_canonical_result` of src/execution_protocol/reducer.rs: the step from stage to stage, and
-- the end. A position is its stage here; the step within a stage is not kept.
pub mod Position
pub mod Carried
pub mod Entered
pub mod Kept
use rustgrid_agent.Prelude.{
  ℕ, String, Bool, true, false, not, ◌&&◌, ◌||◌, Option, none, some, List, [], ◌∷◌, ◌==◌, any, all,
  is_some, is_some_and, is_none_or, if◌then◌else◌,
}
use rustgrid_agent.Map.{Map, get, modify}
use rustgrid_agent.Protocol.Stage.{
  ProtocolStage, stage_eq, NodeKind, kind_eq, ProofKind, proof_kind_eq, transition_proof,
}
use rustgrid_agent.Protocol.Violation.{
  ProtocolViolation, Result, ok, err, illegal_transition, discovery_contract, planning_contract,
  implementation_contract, validation_contract, review_contract, publication_contract, invariant,
  missing_transition_proof, invalid_proof, terminal_immutable, terminal_predicate, reject_if, ok_or,
  ◌>>=◌, ◌>>◌,
}
use rustgrid_agent.Protocol.Model.{
  NodeState, ExecutionNode, ExecutionState, ProofRecord, proof_eq, DiscoveryConvergence,
  PlanningState, ValidationState, ReviewState, PublicationState, CanonicalResult, active_node,
  satisfies_dependency, names_eq,
}
use rustgrid_agent.Protocol.Ledger.{has_open_model_call}
use rustgrid_agent.Protocol.Ledger.Guards.{trim_is_empty}
use rustgrid_agent.Protocol.Graph.{is_ready, with_state, refresh_ready_nodes}
use rustgrid_agent.Protocol.Graph.Topology.{required_nodes}

-- What a transition asks of the phases: the proofs that it must name, and the first state of the
-- phase that it enters. `new_validation` includes the policy's test, the plan's graph and the
-- gates, `new_review` the ancestry.
pub record TransitionContracts : Type 0 where
  pub validation_failure_proof : ExecutionState → Result ProofRecord
  pub validation_rerun_proof : ExecutionState → Result ProofRecord
  pub required_validation_proof : ExecutionState → Result ProofRecord
  pub publication_eligibility_proof : ExecutionState → Result ProofRecord
  pub new_planning : ExecutionState → Result PlanningState
  pub new_implementation : ExecutionState → Result (Unit {0})
  pub new_validation : ExecutionState → Result ValidationState
  pub validate_finalization_policy : ExecutionState → Result (Unit {0})
  pub new_review : ExecutionState → String → String → Result ReviewState
  pub new_publication : ExecutionState → String → Result PublicationState
  pub validate_terminal_mission :
      ExecutionState → CanonicalResult → ProtocolStage → Result (Unit {0})

abbrev pub moves : ProtocolStage → ProtocolStage → ProtocolStage → ProtocolStage → Bool
moves from to a b = stage_eq from a && stage_eq to b

abbrev pub is_succeeded : NodeState → Bool
is_succeeded (NodeState.succeeded proof_id) = true
is_succeeded _ = false

abbrev is_impact_map : DiscoveryConvergence → Bool
is_impact_map (DiscoveryConvergence.impact_map_accepted evidence_id) = true
is_impact_map _ = false

-- The tests that hold where a repository profile is present.
unfoldable pub profile_guards : ProtocolStage → ProtocolStage → ExecutionState → Result (Unit {0})
profile_guards ProtocolStage.profiling ProtocolStage.discovery st = do
  discovery ← ok_or st.discovery (discovery_contract "discovery_transition_without_goal")
  reject_if
      (is_none_or st.repository_profile
        λ profile_id. not (profile_id == discovery.repository_profile_id))
      (discovery_contract "discovery_transition_profile_binding_mismatch")
profile_guards ProtocolStage.discovery ProtocolStage.planning st =
    reject_if
      (is_some st.current_discovery_action
        || not
            (is_some_and st.discovery λ discovery. is_some_and discovery.convergence is_impact_map))
      (discovery_contract "planning_transition_without_discovery_convergence")
profile_guards _ _ st = ok tt

unfoldable pub plan_guards : ProtocolStage → ProtocolStage → ExecutionState → Result (Unit {0})
plan_guards from to st =
    if is_some st.repository_profile
      && moves from to ProtocolStage.planning ProtocolStage.implementation
    then (do
      planning ← ok_or st.planning (planning_contract "planning_transition_without_state")
      reject_if
          (is_some st.current_planning_action
            || not planning.accepted_plan
            || planning.accepted_no_op
            || planning.convergence)
          (planning_contract "implementation_transition_without_accepted_plan"))
    else ok tt

-- `proof_kind(proof_id)`
abbrev pub proof_kind : String → Map ProofRecord → Option ProofKind
proof_kind proof_id proofs = elim (get proof_id proofs) [ none ↦ none | some p ↦ some p.kind ]

-- The proof that the transition names is the expected one, and is recorded as such.
unfoldable pub check_expected : String → String → ExecutionState → ProofRecord → Result (Unit {0})
check_expected code proof_id st expected =
    reject_if
      (not (proof_id == expected.id)
        || is_none_or (get proof_id st.proofs) λ recorded. not (proof_eq recorded expected))
      (invalid_proof proof_id code)

unfoldable pub all_succeeded : NodeKind → ExecutionState → Bool
all_succeeded kind st = all (λ node. is_succeeded node.state) (required_nodes kind st)

unfoldable pub owner_completed : NodeKind → String → ExecutionState → Result (Unit {0})
owner_completed kind proof_id st =
    reject_if (not (all_succeeded kind st))
      (invalid_proof proof_id "phase_owner_node_not_completed")

module _ (t : TransitionContracts) where
  unfoldable pub validate_transition_completion :
      ProtocolStage → ProtocolStage → String → ExecutionState → Result (Unit {0})
  validate_transition_completion ProtocolStage.discovery ProtocolStage.planning proof_id st =
      owner_completed NodeKind.discovery proof_id st
  validate_transition_completion ProtocolStage.planning ProtocolStage.implementation proof_id st =
      owner_completed NodeKind.planning proof_id st
  validate_transition_completion ProtocolStage.validation ProtocolStage.repair proof_id st =
      if is_some st.validation
      then (do
        reject_if (not (is_some_and st.validation λ validation. is_some validation.current_failure))
            (validation_contract "validation_transition_failure_missing")
        expected ← t.validation_failure_proof st
        check_expected "validation_failure_transition_proof_mismatch" proof_id st expected)
      else ok tt
  validate_transition_completion ProtocolStage.repair ProtocolStage.validation proof_id st =
      if is_some st.validation
      then (do
        reject_if (not (all_succeeded NodeKind.validation_repair st))
            (invalid_proof proof_id "repair_node_not_completed")
        reject_if (not (is_some_and st.validation λ validation. validation.pending_rerun))
            (validation_contract "repair_transition_rerun_missing")
        expected ← t.validation_rerun_proof st
        check_expected "validation_rerun_transition_proof_mismatch" proof_id st expected)
      else ok tt
  validate_transition_completion ProtocolStage.validation ProtocolStage.review proof_id st =
      if is_some st.validation
      then (do
        expected ← t.required_validation_proof st
        check_expected "required_validation_transition_proof_mismatch" proof_id st expected)
      else ok tt
  validate_transition_completion ProtocolStage.review ProtocolStage.publication proof_id st =
      if is_some st.review
      then (do
        expected ← t.publication_eligibility_proof st
        check_expected "publication_eligibility_transition_proof_mismatch" proof_id st expected)
      else ok tt
  validate_transition_completion _ _ proof_id st = ok tt
