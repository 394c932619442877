-- ===== src/Protocol/Graph/Advance/Entered.antt =====
-- What the entry into a phase keeps (`advance_position` in src/execution_protocol/reducer.rs).
use rustgrid_agent.Prelude.{◌≡◌, refl, inl, inr, ◌&&◌, some, arith, is_some, Bool-cases}
use rustgrid_agent.Protocol.Stage.{ProtocolStage, NodeKind}
use rustgrid_agent.Protocol.Violation.{ok, Result-cases}
use rustgrid_agent.Protocol.Model.{
  ExecutionState, PlanningState, ValidationState, ReviewState, PublicationState,
}
use rustgrid_agent.Protocol.Graph.Advance.{TransitionContracts, moves}
use rustgrid_agent.Protocol.Graph.Advance.Position.{
  enter_planning, enter_implementation, enter_validation, enter_review, enter_publication,
  single_required_node_id, enter,
}
use rustgrid_agent.Protocol.Graph.Advance.Carried.{Enters, kept, postponed_kept}

module _ (t : TransitionContracts) where
  enter_planning_facts :
      (st x : ExecutionState)
      → enter_planning t st ≡ ok x
      → (phase : PlanningState) × (x ≡ record st { planning = some phase })
  unfolding enter_planning
  enter_planning_facts st x h = elim (Result-cases (t.new_planning st)) [
    | inr other ↦ absurd (ground arith)
    | inl (phase, e) ↦ (phase, ground arith)
  ]

  enter_implementation_facts :
      (st x : ExecutionState)
      → enter_implementation t st ≡ ok x
      → (phase : Unit {0}) × (x ≡ record st { implementation = some phase })
  unfolding enter_implementation
  enter_implementation_facts st x h = elim (Result-cases (t.new_implementation st)) [
    | inr other ↦ absurd (ground arith)
    | inl (phase, e) ↦ (phase, ground arith)
  ]

  enter_validation_facts :
      (st x : ExecutionState)
      → enter_validation t st ≡ ok x
      → (phase : ValidationState) × (x ≡ record st { validation = some phase })
  unfolding enter_validation
  enter_validation_facts st x h = elim (Result-cases (t.new_validation st)) [
    | inr other ↦ absurd (ground arith)
    | inl (phase, e) ↦ (phase, ground arith)
  ]

  enter_review_facts :
      (st x : ExecutionState)
      → enter_review t st ≡ ok x
      → (phase : ReviewState) × (x ≡ record st { review = some phase })
  unfolding enter_review
  enter_review_facts st x h = elim (Result-cases (t.validate_finalization_policy st)) [
    | inr other ↦ absurd (ground arith)
    | inl (tt, e_policy) ↦ elim (Result-cases (single_required_node_id NodeKind.review st)) [
      | inr other ↦ absurd (ground arith)
      | inl (review_id, e_review_id) ↦
          elim (Result-cases (single_required_node_id NodeKind.completion_evaluation st)) [
            | inr other ↦ absurd (ground arith)
            | inl (completion_id, e_completion_id) ↦
                elim (Result-cases (t.new_review st review_id completion_id)) [
                  | inr other ↦ absurd (ground arith)
                  | inl (phase, e) ↦ (phase, ground arith)
                ]
          ]
    ]
  ]

  enter_publication_facts :
      (st x : ExecutionState)
      → enter_publication t st ≡ ok x
      → (phase : PublicationState) × (x ≡ record st { publication = some phase })
  unfolding enter_publication
  enter_publication_facts st x h =
      elim (Result-cases (single_required_node_id NodeKind.publication st)) [
        | inr other ↦ absurd (ground arith)
        | inl (publication_id, e_publication_id) ↦
            elim (Result-cases (t.new_publication st publication_id)) [
              | inr other ↦ absurd (ground arith)
              | inl (phase, e) ↦ (phase, ground arith)
            ]
      ]

  pub enter-Enters :
      (from to : ProtocolStage) (st x : ExecutionState) → enter t from to st ≡ ok x → Enters st x
  unfolding enter
  enter-Enters from to st x h =
      elim (Bool-cases (
        is_some st.repository_profile
        && moves from to ProtocolStage.discovery ProtocolStage.planning)) [
          | inl q0 ↦
              let (phase, same) = enter_planning_facts st x (ground arith) in
              kept st x (record st { planning = some phase }) same refl refl refl refl refl refl
          | inr q0 ↦
              elim (Bool-cases (
                is_some st.repository_profile
                && moves from to ProtocolStage.planning ProtocolStage.implementation)) [
                  | inl q1 ↦
                      let (phase, same) = enter_implementation_facts st x (ground arith) in
                      kept st x (record st { implementation = some phase }) same refl refl refl refl
                        refl refl
                  | inr q1 ↦
                      elim (Bool-cases (
                        moves from to ProtocolStage.implementation ProtocolStage.validation
                        && st.validation_policy)) [
                          | inl q2 ↦
                              let (phase, same) = enter_validation_facts st x (ground arith) in
                              kept st x (record st { validation = some phase }) same refl refl refl
                                refl refl refl
                          | inr q2 ↦
                              elim (Bool-cases
                                (moves from to ProtocolStage.validation ProtocolStage.repair)) [
                                  | inl q3 ↦ postponed_kept st x (ground arith)
                                  | inr q3 ↦
                                      elim (Bool-cases (
                                        moves from to ProtocolStage.validation ProtocolStage.review
                                        && st.finalization_policy)) [
                                          | inl q4 ↦
                                              let (phase, same) =
                                                enter_review_facts st x (ground arith) in
                                              kept st x (record st { review = some phase }) same
                                                refl refl refl refl refl refl
                                          | inr q4 ↦
                                              elim (Bool-cases (
                                                moves from to ProtocolStage.review
                                                  ProtocolStage.publication
                                                && st.finalization_policy)) [
                                                  | inl q5 ↦
                                                      let (phase, same) =
                                                        enter_publication_facts st x
                                                          (ground arith) in
                                                      kept st x
                                                        (record st { publication = some phase })
                                                        same refl refl refl refl refl refl
                                                  | inr q5 ↦
                                                      kept st x st (ground arith) refl refl refl
                                                        refl refl refl
                                                ]
                                        ]
                                ]
                        ]
                ]
        ]
