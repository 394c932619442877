-- ===== src/Protocol/History/Gates.antt =====
-- The proofs behind the stages of an execution attempt (`transition_proof` and `advance_position` in
-- src/execution_protocol/reducer.rs).
use mathlib.Core.Path.{subst}
use rustgrid_agent.Prelude.{String, ◌≡◌, sym, ap, ◌∙◌, Bool, true, false, some, arith}
use rustgrid_agent.Map.{Map}
use rustgrid_agent.Protocol.Stage.{ProtocolStage, ProofKind, transition_proof}
use rustgrid_agent.Protocol.Violation.{ok}
use rustgrid_agent.Protocol.Model.{ExecutionState, ProofRecord}
use rustgrid_agent.Protocol.Graph.{refresh_ready_nodes}
use rustgrid_agent.Protocol.Graph.Guards.{PhaseContracts}
use rustgrid_agent.Protocol.Graph.Advance.{TransitionContracts, proof_kind}
use rustgrid_agent.Protocol.Graph.Advance.Position.{arrive, advance_position}
use rustgrid_agent.Protocol.Graph.Advance.Entered.{enter-Enters}
use rustgrid_agent.Protocol.Graph.Advance.Kept.{
  advance_position-Advanced, record_canonical_result-Ended,
}
use rustgrid_agent.Protocol.History.{
  DomainEvent, apply_payload, History, opened, accepted, Frame, SameFrame, graph_frame,
  budget_frame,
}

-- Some recorded proof is of the kind.
pub record HasProof (proofs : Map ProofRecord) (kind : ProofKind) : Type 0 where
  pub proof_id : String
  pub recorded : proof_kind proof_id proofs ≡ some kind

-- The stages before the review.
abbrev pub is_early : ProtocolStage → Bool
is_early ProtocolStage.review = false
is_early ProtocolStage.publication = false
is_early ProtocolStage.terminal = false
is_early _ = true

-- What is proved once a stage is reached.
record Gate (proofs : Map ProofRecord) (position : ProtocolStage) : Type 0 where
  at_review : position ≡ ProtocolStage.review → HasProof proofs ProofKind.required_validation_passed
  at_publication :
      position ≡ ProtocolStage.publication
      → HasProof proofs ProofKind.required_validation_passed
        × HasProof proofs ProofKind.publication_eligibility

Gate-early :
    (proofs : Map ProofRecord) (position : ProtocolStage)
    → is_early position ≡ true
    → Gate proofs position
Gate-early proofs position h = record {
  at_review = λ e. absurd (ground arith);
  at_publication = λ e. absurd (ground arith);
}

into_review :
    (from : ProtocolStage) (kind : ProofKind)
    → transition_proof from ProtocolStage.review ≡ some kind
    → kind ≡ ProofKind.required_validation_passed
unfolding transition_proof
into_review from kind h = ground arith

into_publication :
    (from : ProtocolStage) (kind : ProofKind)
    → transition_proof from ProtocolStage.publication ≡ some kind
    → (from ≡ ProtocolStage.review) × (kind ≡ ProofKind.publication_eligibility)
unfolding transition_proof
into_publication from kind h = (ground arith, ground arith)

Gate-onward :
    (proofs : Map ProofRecord) (from to : ProtocolStage) (kind : ProofKind)
    → transition_proof from to ≡ some kind
    → HasProof proofs kind
    → Gate proofs from
    → Gate proofs to
Gate-onward proofs from to kind h p g = record {
  at_review = λ e.
      subst (HasProof proofs) (into_review from kind (ap (transition_proof from) (sym e) ∙ h)) p;
  at_publication = λ e.
      let (was, same) = into_publication from kind (ap (transition_proof from) (sym e) ∙ h) in
      (g.at_review was, subst (HasProof proofs) same p);
}

abbrev Gated : ExecutionState → Type 0
Gated st = Gate st.proofs st.position

Gated-frame : (st st' : ExecutionState) → SameFrame st st' → Gated st → Gated st'
Gated-frame st st' same g = subst (λ (f : Frame). Gate f.proofs f.position) (sym same) g

module _ (c : PhaseContracts) (t : TransitionContracts) where
  advanced-Gated :
      (from to : ProtocolStage) (proof_id : String) (st st' : ExecutionState)
      → advance_position t from to proof_id st ≡ ok st'
      → Gated st
      → Gated st'
  unfolding arrive refresh_ready_nodes
  advanced-Gated from to proof_id st st' h g =
      let a = advance_position-Advanced t from to proof_id st st' h in
      let same : st'.proofs ≡ st.proofs =
        ap (λ (x : ExecutionState). x.proofs) a.arrives
        ∙ (enter-Enters t from to st a.entered a.enters).0.proofs in
      let at : st'.position ≡ to = ap (λ (x : ExecutionState). x.position) a.arrives in
      let onward : Gate st.proofs to =
        Gate-onward st.proofs from to a.kind a.allowed
          (record { proof_id = proof_id; recorded = a.proved }) (subst (Gate st.proofs) a.at g) in
      subst (λ ps. Gate ps st'.position) (sym same) (subst (Gate st.proofs) (sym at) onward)

  step-Gated :
      (e : DomainEvent) (st st' : ExecutionState)
      → apply_payload c t e st ≡ ok st'
      → Gated st
      → Gated st'
  unfolding apply_payload
  step-Gated (DomainEvent.graph e) st st' h g = Gated-frame st st' (graph_frame c e st st' h) g
  step-Gated (DomainEvent.budget e) st st' h g = Gated-frame st st' (budget_frame e st st' h) g
  step-Gated (DomainEvent.position_advanced from to proof_id) st st' h g =
      advanced-Gated from to proof_id st st' h g
  step-Gated (DomainEvent.canonical_result_recorded result) st st' h g =
      let at : st'.position ≡ ProtocolStage.terminal =
        ap (λ (x : ExecutionState). x.position)
          (record_canonical_result-Ended t result st st' h).ends in
      record { at_review = λ e. absurd (ground arith); at_publication = λ e. absurd (ground arith) }

  History-Gated :
      (st last : ExecutionState) → is_early st.position ≡ true → History c t st last → Gated last
  History-Gated st last early opened = Gate-early st.proofs st.position early
  History-Gated st last early (accepted {mid} e past h) =
      step-Gated e mid last h (History-Gated st mid early past)

-- From a state before the review, whatever events of the four kinds are accepted in whatever order: a
-- state in review has a recorded proof that the required validation has passed, and a state in
-- publication has that proof and one that publication is eligible.
pub stages_proved :
    (c : PhaseContracts) (t : TransitionContracts) (st last : ExecutionState)
    → is_early st.position ≡ true
    → History c t st last
    → (last.position ≡ ProtocolStage.review
        → HasProof last.proofs ProofKind.required_validation_passed)
      × (last.position ≡ ProtocolStage.publication
          → HasProof last.proofs ProofKind.required_validation_passed
            × HasProof last.proofs ProofKind.publication_eligibility)
stages_proved c t st last early past =
    let g : Gated last = History-Gated c t st last early past in (g.at_review, g.at_publication)
