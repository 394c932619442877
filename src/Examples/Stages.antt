-- ===== src/Examples/Stages.antt =====
-- A state in validation whose required validation has passed goes on to review (`advance_position` of
-- src/execution_protocol/reducer.rs).
use rustgrid_agent.Prelude.{◌≡◌, refl, [], ◌∷◌}
use rustgrid_agent.Map.{get, values}
use rustgrid_agent.Protocol.Stage.{ProtocolStage, ProofKind, ProofKind-discrete, transition_proof}
use rustgrid_agent.Protocol.Violation.{ok}
use rustgrid_agent.Protocol.Model.{
  ProofRecord, ExecutionState, active_node, ordered_nodes, owns_execution,
}
use rustgrid_agent.Protocol.Ledger.{has_open_model_call}
use rustgrid_agent.Protocol.Graph.{refresh_ready_nodes}
use rustgrid_agent.Protocol.Graph.Advance.{plan_guards, validate_transition_completion}
use rustgrid_agent.Protocol.Graph.Advance.Position.{arrive, enter, advance_guards, advance_position}
use rustgrid_agent.Protocol.History.{DomainEvent, apply_payload, History}
use rustgrid_agent.Protocol.History.Gates.{HasProof, stages_proved}
use rustgrid_agent.Examples.Graph.{quiet, settled, ready, impact_map}

abbrev passed : ProofRecord
passed = record impact_map { id = "passed"; kind = ProofKind.required_validation_passed }

abbrev validated : ExecutionState
validated = record ready {
  position = ProtocolStage.validation;
  proofs = ("map", impact_map) ∷ ("passed", passed) ∷ [];
}

abbrev reviewing : ExecutionState
reviewing = arrive ProtocolStage.review "passed" validated

review_eq :
    apply_payload quiet settled
      (DomainEvent.position_advanced ProtocolStage.validation ProtocolStage.review "passed")
      validated
    ≡ ok reviewing
unfolding apply_payload advance_position advance_guards enter arrive plan_guards
    validate_transition_completion transition_proof ProofKind-discrete active_node ordered_nodes
    owns_execution has_open_model_call get values
review_eq = refl

at_review : reviewing.position ≡ ProtocolStage.review
unfolding arrive refresh_ready_nodes
at_review = refl

stages_proved_example :
    (reviewing.position ≡ ProtocolStage.review
      → HasProof reviewing.proofs ProofKind.required_validation_passed)
    × (reviewing.position ≡ ProtocolStage.publication
        → HasProof reviewing.proofs ProofKind.required_validation_passed
          × HasProof reviewing.proofs ProofKind.publication_eligibility)
stages_proved_example = stages_proved quiet settled validated reviewing refl (
    History.accepted
      (DomainEvent.position_advanced ProtocolStage.validation ProtocolStage.review "passed")
      History.opened review_eq)
