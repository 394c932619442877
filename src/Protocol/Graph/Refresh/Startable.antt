-- ===== src/Protocol/Graph/Refresh/Startable.antt =====
-- Which nodes `refresh_ready_nodes` of src/execution_protocol/reducer.rs marks ready, in words that do
-- not use its tests.
use rustgrid_agent.Prelude.{
  String, ◌≡◌, refl, true, ◌⊎◌, inl, inr, some, List, [], ◌∷◌, all, contains, arith, eq_iff,
  eq_refl, Bool-cases, Option-cases,
}
use rustgrid_agent.Map.{Map, get}
use rustgrid_agent.Protocol.Stage.{ProtocolStage, NodeKind, stage, stage_eq}
use rustgrid_agent.Protocol.Model.{NodeState, ExecutionNode, ExecutionState, satisfies_dependency}
use rustgrid_agent.Protocol.Graph.{
  is_satisfied, becomes_ready, may_become_ready, refresh_ready_nodes,
}
use rustgrid_agent.Protocol.Graph.Orderly.{IsOrderly}
use rustgrid_agent.Protocol.Graph.Steps.{stage_eq→≡}
use rustgrid_agent.Protocol.Graph.Refresh.{refresh_ready_nodes_exact}

-- The node under the id is there, and has succeeded or was skipped.
abbrev pub IsDone : Map ExecutionNode → String → Type 0
IsDone nodes d =
    (x : ExecutionNode) × (get d nodes ≡ some x)
    × (((proof_id : String) × (x.state ≡ NodeState.succeeded proof_id))
        ⊎ ((proof_id : String) × (x.state ≡ NodeState.skipped proof_id)))

-- It has not been started, or is a validation whose failure allows another attempt.
abbrev pub IsOpen : ExecutionNode → Type 0
IsOpen node =
    (node.state ≡ NodeState.pending)
    ⊎ ((node.kind ≡ NodeKind.validation)
        × ((revision : String) × (node.state ≡ NodeState.failed_recoverable revision)))

pub record IsStartable (st : ExecutionState) (node : ExecutionNode) : Type 0 where
  pub in_stage : stage node.kind ≡ st.position
  pub unstarted : IsOpen node
  pub supported : (d : String) → contains d node.dependencies ≡ true → IsDone st.nodes d

module _ (nodes : Map ExecutionNode) where
  done_state :
      (s : NodeState)
      → satisfies_dependency s ≡ true
      → ((proof_id : String) × (s ≡ NodeState.succeeded proof_id))
        ⊎ ((proof_id : String) × (s ≡ NodeState.skipped proof_id))
  unfolding satisfies_dependency
  done_state (NodeState.succeeded proof_id) h = inl (proof_id, refl)
  done_state (NodeState.skipped proof_id) h = inr (proof_id, refl)
  done_state NodeState.pending h = absurd (ground arith)
  done_state NodeState.ready h = absurd (ground arith)
  done_state (NodeState.active attempt) h = absurd (ground arith)
  done_state (NodeState.waiting attempt effect_id) h = absurd (ground arith)
  done_state (NodeState.failed_recoverable revision) h = absurd (ground arith)
  done_state (NodeState.failed_terminal revision) h = absurd (ground arith)
  done_state (NodeState.superseded revision) h = absurd (ground arith)

  satisfied-IsDone : (d : String) → is_satisfied nodes d ≡ true → IsDone nodes d
  unfolding is_satisfied
  satisfied-IsDone d h = elim (Option-cases (get d nodes)) [
    | inl e ↦ absurd (ground arith)
    | inr (x, e) ↦ (x, e, done_state x.state (ground arith))
  ]

  IsDone-satisfied : (d : String) → IsDone nodes d → is_satisfied nodes d ≡ true
  unfolding is_satisfied satisfies_dependency
  IsDone-satisfied d (x, e, inl (proof_id, s)) = ground arith
  IsDone-satisfied d (x, e, inr (proof_id, s)) = ground arith

  all-contains :
      (ds : List String) (d : String)
      → all (is_satisfied nodes) ds ≡ true
      → contains d ds ≡ true
      → is_satisfied nodes d ≡ true
  unfolding contains
  all-contains [] d h c = absurd (ground arith)
  all-contains (x ∷ ds) d h c = ground (arith, eq_iff x d, all-contains ds d)

  contains-all :
      (ds : List String)
      → ((d : String) → contains d ds ≡ true → is_satisfied nodes d ≡ true)
      → all (is_satisfied nodes) ds ≡ true
  unfolding contains
  contains-all [] h = refl
  contains-all (x ∷ ds) h =
      ground (arith, h x, eq_refl x, contains-all ds λ d c. h d (ground arith))

open_node :
    (kind : NodeKind) (s : NodeState)
    → may_become_ready kind s ≡ true
    → (s ≡ NodeState.pending)
      ⊎ ((kind ≡ NodeKind.validation)
          × ((revision : String) × (s ≡ NodeState.failed_recoverable revision)))
open_node kind NodeState.pending h = inl refl
open_node NodeKind.validation (NodeState.failed_recoverable revision) h =
    inr (refl, (revision, refl))
open_node _ _ h = absurd (ground arith)

module _ (st : ExecutionState) (node : ExecutionNode) where
  becomes_ready-IsStartable : becomes_ready st.position st.nodes node ≡ true → IsStartable st node
  unfolding becomes_ready
  becomes_ready-IsStartable h = record {
    in_stage = stage_eq→≡ (stage node.kind) st.position (ground arith);
    unstarted = open_node node.kind node.state (ground arith);
    supported = λ d c.
        satisfied-IsDone st.nodes d (all-contains st.nodes node.dependencies d (ground arith) c);
  }

  stage_eq_refl : (a b : ProtocolStage) → a ≡ b → stage_eq a b ≡ true
  stage_eq_refl a b h = ground arith

  IsOpen-may : IsOpen node → may_become_ready node.kind node.state ≡ true
  IsOpen-may (inl s) = ground arith
  IsOpen-may (inr (k, (revision, s))) = ground arith

  IsStartable-becomes_ready : IsStartable st node → becomes_ready st.position st.nodes node ≡ true
  unfolding becomes_ready
  IsStartable-becomes_ready p =
      let every =
        contains-all st.nodes node.dependencies
          λ d c. IsDone-satisfied st.nodes d (p.supported d c) in
      ground (
        arith,
        stage_eq_refl (stage node.kind) st.position p.in_stage,
        IsOpen-may p.unstarted,
        every,
      )

  -- Refreshing an orderly graph makes a node of it ready exactly where the node can be started: it is of
  -- the state's stage, it is pending or a validation that failed recoverably, and each of its
  -- dependencies is there and has succeeded or was skipped. A node that cannot stays as it is.
  pub refresh_ready_nodes-IsStartable :
      (k : String)
      → IsOrderly st
      → get k st.nodes ≡ some node
      → (IsStartable st node
          → get k (refresh_ready_nodes st).nodes ≡ some (record node { state = NodeState.ready }))
        × (¬ IsStartable st node → get k (refresh_ready_nodes st).nodes ≡ some node)
  refresh_ready_nodes-IsStartable k o e =
      let exact = refresh_ready_nodes_exact st k node o e in
      (
        λ p. ground (arith, exact, IsStartable-becomes_ready p),
        λ no. elim (Bool-cases (becomes_ready st.position st.nodes node)) [
          | inl yes_ready ↦ absurd (no (becomes_ready-IsStartable yes_ready))
          | inr unready ↦ ground (arith, exact)
        ],
      )
