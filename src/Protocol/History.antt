-- ===== src/Protocol/History.antt =====
-- The budget events, the events that move a node, the steps between the stages and the final result,
-- in any order, as one history of an execution attempt (four arms of `apply_payload` in
-- src/execution_protocol/reducer.rs).
pub mod Gates
use mathlib.Core.Path.{subst}
use rustgrid_agent.Prelude.{
  String, Bool, true, false, Option, none, some, ◌≤◌, ◌≡◌, refl, sym, ap, ◌∙◌, arith, is_some, ◌||◌,
}
use rustgrid_agent.Map.{Map}
use rustgrid_agent.Protocol.Stage.{ProtocolStage, ProofKind, transition_proof}
use rustgrid_agent.Protocol.Violation.{Result, ok, ◌>>=◌, ◌>>◌, reject_if}
use rustgrid_agent.Protocol.Model.{
  ExecutionState, MissionBudgetContract, ProofRecord, CanonicalResult, active_node,
}
use rustgrid_agent.Protocol.Ledger.{BudgetEvent, apply_budget_event}
use rustgrid_agent.Protocol.Ledger.Lifecycle.{apply_budget_event-Moved}
use rustgrid_agent.Protocol.Ledger.Sound.{IsSound}
use rustgrid_agent.Protocol.Ledger.Spending.{
  apply_budget_event-IsSound, committed_calls, committed_cost, committed_duration,
}
use rustgrid_agent.Protocol.Graph.{NodeEvent, apply_graph_event, move, refresh_ready_nodes}
use rustgrid_agent.Protocol.Graph.Guards.{PhaseContracts}
use rustgrid_agent.Protocol.Graph.Orderly.{IsOrderly}
use rustgrid_agent.Protocol.Graph.Steps.{
  start_facts, wait_facts, resume_facts, succeed_facts, fail_facts,
}
use rustgrid_agent.Protocol.Graph.Events.{apply_graph_event-IsOrderly}
use rustgrid_agent.Protocol.Graph.Frame.{apply_budget_event-IsOrderly}
use rustgrid_agent.Protocol.Graph.Accounting.{apply_graph_event-IsSound}
use rustgrid_agent.Protocol.Graph.Advance.{TransitionContracts, proof_kind}
use rustgrid_agent.Protocol.Graph.Advance.Position.{
  arrive, advance_position, record_canonical_result,
}
use rustgrid_agent.Protocol.Graph.Advance.Entered.{enter-Enters}
use rustgrid_agent.Protocol.Graph.Advance.Kept.{
  advance_position-IsOrderly, advance_position-IsSound, advance_position-Advanced,
  record_canonical_result-Ended, record_canonical_result-IsOrderly, record_canonical_result-IsSound,
}

pub data DomainEvent : Type 0 where
  graph : NodeEvent → DomainEvent
  budget : BudgetEvent → DomainEvent
  position_advanced : ProtocolStage → ProtocolStage → String → DomainEvent
  canonical_result_recorded : CanonicalResult → DomainEvent

unfoldable pub apply_payload :
    PhaseContracts → TransitionContracts → DomainEvent → ExecutionState → Result ExecutionState
apply_payload c t (DomainEvent.graph e) st = apply_graph_event c e st
apply_payload c t (DomainEvent.budget e) st = apply_budget_event e st
apply_payload c t (DomainEvent.position_advanced from to proof_id) st =
    advance_position t from to proof_id st
apply_payload c t (DomainEvent.canonical_result_recorded result) st =
    record_canonical_result t result st

pub data History (c : PhaseContracts) (t : TransitionContracts) (st : ExecutionState)
    : ExecutionState → Type 0 where
  opened : History c t st st
  accepted :
      {mid last : ExecutionState} (e : DomainEvent)
      → History c t st mid
      → apply_payload c t e mid ≡ ok last
      → History c t st last

-- What a history keeps of the state that it began in.
pub record IsKept (st last : ExecutionState) : Type 0 where
  pub sound : IsSound last
  pub orderly : IsOrderly last
  pub mission : last.mission_budget ≡ st.mission_budget

-- What no event of the graph or of the budget changes.
pub record Frame : Type 0 where
  pub mission : MissionBudgetContract
  pub position : ProtocolStage
  pub proofs : Map ProofRecord

abbrev pub frame_of : ExecutionState → Frame
frame_of x = record { mission = x.mission_budget; position = x.position; proofs = x.proofs }

abbrev pub SameFrame : ExecutionState → ExecutionState → Type 0
SameFrame st last = frame_of last ≡ frame_of st

move_frame :
    (c : PhaseContracts) (e : NodeEvent) (st st' : ExecutionState)
    → move c e st ≡ ok st'
    → SameFrame st st'
unfolding refresh_ready_nodes
move_frame c (NodeEvent.node_started k attempt) st st' h =
    let (node, e, _, _, _, _, _, q) = start_facts k attempt st st' h in sym (ap frame_of q)
move_frame c (NodeEvent.node_waiting k effect) st st' h =
    let (node, attempt, e, was, q) = wait_facts k effect st st' h in sym (ap frame_of q)
move_frame c (NodeEvent.node_resumed k effect) st st' h =
    let (node, attempt, e, was, q) = resume_facts k effect st st' h in sym (ap frame_of q)
move_frame c (NodeEvent.node_succeeded k proof_id) st st' h =
    let (node, proof, _, _, _, _, _, _, q) = succeed_facts c k proof_id st st' h in
    sym (ap frame_of q)
move_frame c (NodeEvent.node_failed k revision terminal) st st' h =
    let (node, _, _, q) = fail_facts c k revision st st' terminal h in sym (ap frame_of q)

pub graph_frame :
    (c : PhaseContracts) (e : NodeEvent) (st st' : ExecutionState)
    → apply_graph_event c e st ≡ ok st'
    → SameFrame st st'
unfolding apply_graph_event
graph_frame c e st st' h = move_frame c e st st' (ground arith)

pub budget_frame :
    (e : BudgetEvent) (st st' : ExecutionState)
    → apply_budget_event e st ≡ ok st'
    → SameFrame st st'
budget_frame e st st' h = sym (ap frame_of (apply_budget_event-Moved e st st' h).frame)

module _ (c : PhaseContracts) (t : TransitionContracts) where
  advanced_mission :
      (from to : ProtocolStage) (proof_id : String) (st st' : ExecutionState)
      → advance_position t from to proof_id st ≡ ok st'
      → st'.mission_budget ≡ st.mission_budget
  unfolding arrive refresh_ready_nodes
  advanced_mission from to proof_id st st' h =
      let a = advance_position-Advanced t from to proof_id st st' h in
      ap (λ (x : ExecutionState). x.mission_budget) a.arrives
      ∙ (enter-Enters t from to st a.entered a.enters).0.mission

  step-IsKept :
      (e : DomainEvent) (st mid last : ExecutionState)
      → IsKept st mid
      → apply_payload c t e mid ≡ ok last
      → IsKept st last
  unfolding apply_payload
  step-IsKept (DomainEvent.graph e) st mid last k h = record {
    sound = apply_graph_event-IsSound c e mid last k.sound h;
    orderly = apply_graph_event-IsOrderly c e mid last k.orderly h;
    mission = ap (λ (f : Frame). f.mission) (graph_frame c e mid last h) ∙ k.mission;
  }
  step-IsKept (DomainEvent.budget e) st mid last k h = record {
    sound = apply_budget_event-IsSound e mid last k.sound h;
    orderly = apply_budget_event-IsOrderly e mid last k.orderly h;
    mission = ap (λ (f : Frame). f.mission) (budget_frame e mid last h) ∙ k.mission;
  }
  step-IsKept (DomainEvent.position_advanced from to proof_id) st mid last k h = record {
    sound = advance_position-IsSound t from to proof_id mid last k.sound h;
    orderly = advance_position-IsOrderly t from to proof_id mid last k.orderly h;
    mission = advanced_mission from to proof_id mid last h ∙ k.mission;
  }
  step-IsKept (DomainEvent.canonical_result_recorded result) st mid last k h = record {
    sound = record_canonical_result-IsSound t result mid last k.sound h;
    orderly = record_canonical_result-IsOrderly t result mid last k.orderly h;
    mission =
        ap (λ (x : ExecutionState). x.mission_budget)
          (record_canonical_result-Ended t result mid last h).ends
        ∙ k.mission;
  }

  History-IsKept :
      (st last : ExecutionState) → IsSound st → IsOrderly st → History c t st last → IsKept st last
  History-IsKept st last s o opened = record { sound = s; orderly = o; mission = refl }
  History-IsKept st last s o (accepted {mid} e past h) =
      step-IsKept e st mid last (History-IsKept st mid s o past) h

-- From a sound and orderly state, whatever events of the four kinds are accepted in whatever order and
-- whatever the phases decide: the graph is orderly, so at most one node owns the execution and only
-- with its dependencies done; and what all calls have consumed and hold reserved, in exact
-- arithmetic, is within the mission's contract in calls, in cost and in duration.
pub events_bounded :
    (c : PhaseContracts) (t : TransitionContracts) (st last : ExecutionState)
    → IsSound st
    → IsOrderly st
    → History c t st last
    → IsOrderly last
      × (committed_calls last ≤ st.mission_budget.max_model_calls)
      × (committed_cost last ≤ st.mission_budget.max_cost_micros)
      × (committed_duration last ≤ st.mission_budget.max_duration_ms)
events_bounded c t st last s o past =
    let k : IsKept st last = History-IsKept c t st last s o past in
    let b : IsSound last = k.sound in
    (
      k.orderly,
      ground (arith, b.mission.accounts, b.mission.within, k.mission),
      ground (arith, b.mission.accounts, b.mission.within, k.mission),
      ground (arith, b.mission.accounts, b.mission.within, k.mission),
    )
