-- ===== src/Protocol/Graph/Advance/Kept.antt =====
-- `advance_position` and `record_canonical_result` of src/execution_protocol/reducer.rs keep the graph
-- orderly and the ledger sound.
use mathlib.Core.Path.{subst}
use rustgrid_agent.Prelude.{
  String, ◌≡◌, refl, sym, ap, inl, inr, true, false, Option, none, some, arith, is_some,
  is_some_and, Option-cases,
}
use rustgrid_agent.Protocol.Stage.{
  ProtocolStage, stage_eq, ProofKind, proof_kind_eq, ProofKind-discrete, transition_proof,
}
use rustgrid_agent.Protocol.Violation.{ok, Result-cases}
use rustgrid_agent.Protocol.Model.{ExecutionState, CanonicalResult, active_node}
use rustgrid_agent.Protocol.Ledger.{has_open_model_call}
use rustgrid_agent.Protocol.Ledger.Sound.{IsSound}
use rustgrid_agent.Protocol.Graph.Orderly.{IsOrderly}
use rustgrid_agent.Protocol.Graph.Refresh.{refresh_ready_nodes-IsOrderly}
use rustgrid_agent.Protocol.Graph.Accounting.{refresh-IsSound}
use rustgrid_agent.Protocol.Graph.Steps.{stage_eq→≡, Unowned-active_node}
use rustgrid_agent.Protocol.Graph.Advance.{TransitionContracts, proof_kind}
use rustgrid_agent.Protocol.Graph.Advance.Position.{
  enter, arrive, advance_guards, advance_position, validate_canonical_result,
  record_canonical_result,
}
use rustgrid_agent.Protocol.Graph.Advance.Carried.{
  IsCarried, IsCarried-IsOrderly, IsCarried-IsSound,
}
use rustgrid_agent.Protocol.Graph.Advance.Entered.{enter-Enters}

proof_kind_eq-≡ : (a b : ProofKind) → proof_kind_eq a b ≡ true → a ≡ b
proof_kind_eq-≡ a b h = ground (arith, ProofKind-discrete a b)

module _ (t : TransitionContracts) where
  -- What an accepted step between stages was.
  pub record Advanced (from to : ProtocolStage) (proof_id : String) (st st' : ExecutionState)
      : Type 0 where
    pub entered : ExecutionState
    pub at : st.position ≡ from
    pub idle : active_node st ≡ none
    pub kind : ProofKind
    pub allowed : transition_proof from to ≡ some kind
    pub proved : proof_kind proof_id st.proofs ≡ some kind
    pub enters : enter t from to st ≡ ok entered
    pub arrives : st' ≡ arrive to proof_id entered

  guards_position :
      (from to : ProtocolStage) (proof_id : String) (st : ExecutionState)
      → advance_guards t from to proof_id st ≡ ok tt
      → (stage_eq st.position from ≡ true) × (is_some (active_node st) ≡ false)
  unfolding advance_guards
  guards_position from to proof_id st h = (ground arith, ground arith)

  guards_proof :
      (from to : ProtocolStage) (proof_id : String) (st : ExecutionState)
      → advance_guards t from to proof_id st ≡ ok tt
      → (kind : ProofKind) × (transition_proof from to ≡ some kind)
        × (is_some_and (proof_kind proof_id st.proofs) (λ k. proof_kind_eq k kind) ≡ true)
  unfolding advance_guards
  guards_proof from to proof_id st h = elim (Option-cases (transition_proof from to)) [
    | inl e ↦ absurd (ground arith)
    | inr (kind, e) ↦ (kind, e, ground arith)
  ]

  named_proof :
      (o : Option ProofKind) (kind : ProofKind)
      → is_some_and o (λ k. proof_kind_eq k kind) ≡ true
      → o ≡ some kind
  named_proof none kind h = absurd (ground arith)
  named_proof (some k) kind h = ap some (proof_kind_eq-≡ k kind h)

  pub advance_position-Advanced :
      (from to : ProtocolStage) (proof_id : String) (st st' : ExecutionState)
      → advance_position t from to proof_id st ≡ ok st'
      → Advanced from to proof_id st st'
  unfolding advance_position
  advance_position-Advanced from to proof_id st st' h = elim (Result-cases (enter t from to st)) [
    | inr other ↦ absurd (ground arith)
    | inl (x, e) ↦
        let passed : advance_guards t from to proof_id st ≡ ok tt = ground arith in
        let (here, idle) = guards_position from to proof_id st passed in
        let (kind, allowed, named) = guards_proof from to proof_id st passed in
        record {
          entered = x;
          at = stage_eq→≡ st.position from here;
          idle = ground arith;
          kind = kind;
          allowed = allowed;
          proved = named_proof (proof_kind proof_id st.proofs) kind named;
          enters = e;
          arrives = ground arith;
        }
  ]

  abbrev moved : ProtocolStage → String → ExecutionState → ExecutionState
  moved to proof_id x = record x { position = to; latest_transition_proof = some proof_id }

  IsCarried-moved :
      (st x : ExecutionState) (to : ProtocolStage) (proof_id : String)
      → IsCarried st x
      → IsCarried st (moved to proof_id x)
  IsCarried-moved st x to proof_id c = record {
    order = c.order;
    proofs = c.proofs;
    budgets = c.budgets;
    mission = c.mission;
    nodes = c.nodes;
  }

  pub advance_position-IsOrderly :
      (from to : ProtocolStage) (proof_id : String) (st st' : ExecutionState)
      → IsOrderly st
      → advance_position t from to proof_id st ≡ ok st'
      → IsOrderly st'
  unfolding arrive
  advance_position-IsOrderly from to proof_id st st' o h =
      let a = advance_position-Advanced from to proof_id st st' h in
      let c =
        IsCarried-moved st a.entered to proof_id (enter-Enters t from to st a.entered a.enters).0 in
      subst IsOrderly (sym a.arrives) (
        refresh_ready_nodes-IsOrderly (moved to proof_id a.entered) (
          IsCarried-IsOrderly st (moved to proof_id a.entered) c o
            (Unowned-active_node st o a.idle)))

  pub advance_position-IsSound :
      (from to : ProtocolStage) (proof_id : String) (st st' : ExecutionState)
      → IsSound st
      → advance_position t from to proof_id st ≡ ok st'
      → IsSound st'
  unfolding arrive
  advance_position-IsSound from to proof_id st st' sound h =
      let a = advance_position-Advanced from to proof_id st st' h in
      let c =
        IsCarried-moved st a.entered to proof_id (enter-Enters t from to st a.entered a.enters).0 in
      subst IsSound (sym a.arrives) (
        refresh-IsSound (moved to proof_id a.entered)
          (IsCarried-IsSound st (moved to proof_id a.entered) c sound))

  -- What a recorded result found, and the state that it leaves.
  pub record Ended (result : CanonicalResult) (st st' : ExecutionState) : Type 0 where
    pub fresh : st.terminal ≡ none
    pub idle : active_node st ≡ none
    pub settled : has_open_model_call st ≡ false
    pub valid : validate_canonical_result t result st.position st ≡ ok tt
    pub ends : st' ≡ record st { position = ProtocolStage.terminal; terminal = some result }

  pub record_canonical_result-Ended :
      (result : CanonicalResult) (st st' : ExecutionState)
      → record_canonical_result t result st ≡ ok st'
      → Ended result st st'
  unfolding record_canonical_result
  record_canonical_result-Ended result st st' h = record {
    fresh = ground arith;
    idle = ground arith;
    settled = ground arith;
    valid = ground arith;
    ends = ground arith;
  }

  IsCarried-ended :
      (result : CanonicalResult) (st : ExecutionState)
      → IsCarried st (record st { position = ProtocolStage.terminal; terminal = some result })
  IsCarried-ended result st = record {
    order = refl;
    proofs = refl;
    budgets = refl;
    mission = refl;
    nodes = λ n. inl refl;
  }

  pub record_canonical_result-IsOrderly :
      (result : CanonicalResult) (st st' : ExecutionState)
      → IsOrderly st
      → record_canonical_result t result st ≡ ok st'
      → IsOrderly st'
  record_canonical_result-IsOrderly result st st' o h =
      let e = record_canonical_result-Ended result st st' h in
      let x = record st { position = ProtocolStage.terminal; terminal = some result } in
      subst IsOrderly (sym e.ends)
        (IsCarried-IsOrderly st x (IsCarried-ended result st) o (Unowned-active_node st o e.idle))

  pub record_canonical_result-IsSound :
      (result : CanonicalResult) (st st' : ExecutionState)
      → IsSound st
      → record_canonical_result t result st ≡ ok st'
      → IsSound st'
  record_canonical_result-IsSound result st st' sound h =
      let e = record_canonical_result-Ended result st st' h in
      let x = record st { position = ProtocolStage.terminal; terminal = some result } in
      subst IsSound (sym e.ends) (IsCarried-IsSound st x (IsCarried-ended result st) sound)
