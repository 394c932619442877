-- ===== src/Protocol/Graph/Events.antt =====
-- What the events of the graph that move a node keep (`apply_graph_event` in
-- src/execution_protocol/reducer.rs).
use rustgrid_agent.Prelude.{ℕ, String, ◌≡◌, sym, ap, ◌∙◌, some, arith, eq_iff, eq_refl}
use rustgrid_agent.Map.{get, modify, get-modify}
use rustgrid_agent.Protocol.Violation.{ok}
use rustgrid_agent.Protocol.Model.{NodeState, ExecutionNode, ExecutionState}
use rustgrid_agent.Protocol.Graph.{
  NodeEvent, apply_graph_event, with_state, wait_node, resume_node, move,
}
use rustgrid_agent.Protocol.Graph.Guards.{PhaseContracts, suspension_guards}
use rustgrid_agent.Protocol.Graph.Orderly.{IsOrderly}
use rustgrid_agent.Protocol.Graph.Steps.{
  start_node-IsOrderly, wait_facts, wait_node-IsOrderly, resume_node-IsOrderly,
  succeed_node-IsOrderly, fail_node-IsOrderly,
}

move-IsOrderly :
    (c : PhaseContracts) (e : NodeEvent) (st st' : ExecutionState)
    → move c e st ≡ ok st'
    → IsOrderly st
    → IsOrderly st'
move-IsOrderly c (NodeEvent.node_started k attempt) st st' h =
    start_node-IsOrderly k attempt st st' h
move-IsOrderly c (NodeEvent.node_waiting k effect) st st' h = wait_node-IsOrderly k effect st st' h
move-IsOrderly c (NodeEvent.node_resumed k effect) st st' h =
    resume_node-IsOrderly k effect st st' h
move-IsOrderly c (NodeEvent.node_succeeded k proof) st st' h =
    succeed_node-IsOrderly c k proof st st' h
move-IsOrderly c (NodeEvent.node_failed k revision terminal) st st' h =
    fail_node-IsOrderly c k revision st st' terminal h

-- Whatever the phases decide, an accepted event that starts, suspends, resumes or ends a node keeps
-- the graph orderly: at most one node owns the execution, in the stage of the state's position; each
-- ready or running node has all its dependencies done; a running attempt is the last one counted; and
-- a done node names a recorded proof that is about it and fits its kind.
pub apply_graph_event-IsOrderly :
    (c : PhaseContracts) (e : NodeEvent) (st st' : ExecutionState)
    → IsOrderly st
    → apply_graph_event c e st ≡ ok st'
    → IsOrderly st'
unfolding apply_graph_event
apply_graph_event-IsOrderly c e st st' o h = move-IsOrderly c e st st' (ground arith) o

module _ (k effect : String) (st : ExecutionState) (node : ExecutionNode) (attempt : ℕ)
    (e : get k st.nodes ≡ some node) (was : node.state ≡ NodeState.active attempt) where
  abbrev suspended : ExecutionState
  suspended = record st {
    nodes = modify k (with_state (NodeState.waiting attempt effect)) st.nodes;
  }

  abbrev resumed : ExecutionState
  resumed = record st { nodes = modify k (with_state (NodeState.active attempt)) suspended.nodes }

  at_suspended : get k suspended.nodes ≡ some (with_state (NodeState.waiting attempt effect) node)
  at_suspended =
      ground
        (arith, get-modify k k (with_state (NodeState.waiting attempt effect)) st.nodes, eq_refl k)

  guards-suspended :
      (code other : String)
      → suspension_guards code k st ≡ ok tt
      → suspension_guards other k suspended ≡ ok tt
  unfolding suspension_guards
  guards-suspended code other h = ground (arith, at_suspended)

  resume-suspended :
      (code : String)
      → suspension_guards code k st ≡ ok tt
      → resume_node k effect suspended ≡ ok resumed
  unfolding resume_node
  resume-suspended code h = ground (
    arith,
    at_suspended,
    eq_refl effect,
    guards-suspended code "phase7_graph_resume_unavailable" h,
  )

  nodes-resumed : (j : String) → get j resumed.nodes ≡ get j st.nodes
  nodes-resumed j = ground (
    arith,
    eq_iff k j,
    get-modify k j (with_state (NodeState.waiting attempt effect)) st.nodes,
    get-modify k j (with_state (NodeState.active attempt)) suspended.nodes,
  )

wait_guards :
    (k effect : String) (st mid : ExecutionState)
    → wait_node k effect st ≡ ok mid
    → suspension_guards "phase7_graph_wait_unavailable" k st ≡ ok tt
unfolding wait_node
wait_guards k effect st mid h = ground arith

-- A node that was accepted to wait for an effect can be resumed by that effect at once, and then
-- every node is as it was before.
pub resume-wait_node :
    (k effect : String) (st mid : ExecutionState)
    → wait_node k effect st ≡ ok mid
    → (last : ExecutionState) × (resume_node k effect mid ≡ ok last)
      × ((j : String) → get j last.nodes ≡ get j st.nodes)
resume-wait_node k effect st mid h =
    let (node, attempt, e, was, q) = wait_facts k effect st mid h in
    (
      resumed k effect st node attempt e was,
      ap (resume_node k effect) (sym q)
          ∙ resume-suspended k effect st node attempt e was "phase7_graph_wait_unavailable"
              (wait_guards k effect st mid h),
      nodes-resumed k effect st node attempt e was,
    )
