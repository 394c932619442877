-- ===== src/Examples/Refresh.antt =====
-- A pending planning node whose discovery is done becomes ready (`refresh_ready_nodes` of
-- src/execution_protocol/reducer.rs).
use mathlib.Core.Path.{subst}
use rustgrid_agent.Prelude.{String, ◌≡◌, refl, true, inl, some, contains, arith, eq_iff}
use rustgrid_agent.Map.{get, modify}
use rustgrid_agent.Protocol.Stage.{stage}
use rustgrid_agent.Protocol.Model.{NodeState, ExecutionState, owns_execution, satisfies_dependency}
use rustgrid_agent.Protocol.Graph.{with_state, refresh_ready_nodes}
use rustgrid_agent.Protocol.Graph.Orderly.{Allowed, IsOrderly, IsOrderly-modify}
use rustgrid_agent.Protocol.Graph.Refresh.Startable.{
  IsDone, IsStartable, refresh_ready_nodes-IsStartable,
}
use rustgrid_agent.Examples.Graph.{
  ready, ready-IsOrderly, planning_in, planning_node, discovery_node,
}

abbrev idle : ExecutionState
idle = planning_in NodeState.pending 0

at_planning : get "planning" idle.nodes ≡ some (planning_node NodeState.pending 0)
unfolding get
at_planning = refl

discovery-IsDone : IsDone idle.nodes "discovery"
unfolding get
discovery-IsDone = (discovery_node, refl, inl ("map", refl))

dependencies-IsDone :
    (d : String)
    → contains d (planning_node NodeState.pending 0).dependencies ≡ true
    → IsDone idle.nodes d
unfolding contains
dependencies-IsDone d c =
    subst (IsDone idle.nodes) (ground (arith, eq_iff "discovery" d)) discovery-IsDone

-- The planning node can be started.
planning-IsStartable : IsStartable idle (planning_node NodeState.pending 0)
unfolding stage
planning-IsStartable = record {
  in_stage = refl;
  unstarted = inl refl;
  supported = dependencies-IsDone;
}

ready-Allowed :
    Allowed ready "planning" (planning_node NodeState.ready 0) (planning_node NodeState.pending 0)
unfolding satisfies_dependency owns_execution
ready-Allowed = record {
  same_id = refl;
  same_kind = refl;
  same_dependencies = refl;
  kept = λ h. absurd (cc h);
  in_stage = λ h. absurd (cc h);
  owner = λ h. absurd (cc h);
  supported = λ h. absurd (cc h);
  counted = refl;
  proved = refl;
}

idle-IsOrderly : IsOrderly idle
unfolding modify get
idle-IsOrderly =
    IsOrderly-modify ready "planning" (with_state NodeState.pending)
      (planning_node NodeState.ready 0) refl ready-Allowed ready-IsOrderly

refresh_ready_nodes-IsStartable_example :
    (IsStartable idle (planning_node NodeState.pending 0)
      → get "planning" (refresh_ready_nodes idle).nodes ≡ some (planning_node NodeState.ready 0))
    × (¬ IsStartable idle (planning_node NodeState.pending 0)
        → get "planning" (refresh_ready_nodes idle).nodes
          ≡ some (planning_node NodeState.pending 0))
refresh_ready_nodes-IsStartable_example =
    refresh_ready_nodes-IsStartable idle (planning_node NodeState.pending 0) "planning"
      idle-IsOrderly at_planning

-- It is made ready.
planning_ready :
    get "planning" (refresh_ready_nodes idle).nodes ≡ some (planning_node NodeState.ready 0)
planning_ready =
    (refresh_ready_nodes-IsStartable idle (planning_node NodeState.pending 0) "planning"
        idle-IsOrderly at_planning).0
      planning-IsStartable
