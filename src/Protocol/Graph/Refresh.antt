-- ===== src/Protocol/Graph/Refresh.antt =====
-- What `refresh_ready_nodes` of src/execution_protocol/reducer.rs does to the invariant of the graph.
pub mod Startable
use rustgrid_agent.Prelude.{
  String, ◌≡◌, refl, Bool, true, not, ◌&&◌, inl, inr, some, List, [], ◌∷◌, ◌==◌, all, any,
  is_some_and, arith, eq_iff, Option-cases, if◌then◌else◌,
}
use rustgrid_agent.Map.{Map, get, modify, get-modify, apply_to}
use rustgrid_agent.Protocol.Stage.{ProtocolStage}
use rustgrid_agent.Protocol.Model.{
  NodeState, ExecutionNode, ExecutionState, owns_execution, satisfies_dependency,
}
use rustgrid_agent.Protocol.Graph.{
  is_satisfied, becomes_ready, ready_ids, with_state, set_ready, refresh_ready_nodes,
}
use rustgrid_agent.Protocol.Graph.Orderly.{
  IsPlaced, IsOrderly, Allowed, all_mono, is_satisfied-modify, IsOrderly-modify,
}

-- The node may be marked ready: it is not done, and what it depends on is.
abbrev pub may_be_ready : Map ExecutionNode → String → Bool
may_be_ready nodes k =
    is_some_and (get k nodes)
      λ node. not (satisfies_dependency node.state) && all (is_satisfied nodes) node.dependencies

module _ (st : ExecutionState) (k : String) (node : ExecutionNode) (e : get k st.nodes ≡ some node)
    (may : may_be_ready st.nodes k ≡ true) where
  Allowed-ready : Allowed st k node (with_state NodeState.ready node)
  unfolding satisfies_dependency owns_execution
  Allowed-ready = record {
    same_id = refl;
    same_kind = refl;
    same_dependencies = refl;
    kept = λ h. ground arith;
    in_stage = λ h. absurd (cc h);
    owner = λ h. absurd (cc h);
    supported = λ h. ground arith;
    counted = refl;
    proved = refl;
  }

  may_be_ready-modify :
      (j : String)
      → may_be_ready st.nodes j ≡ true
      → may_be_ready (modify k (with_state NodeState.ready) st.nodes) j ≡ true
  unfolding satisfies_dependency
  may_be_ready-modify j h = elim (Option-cases (get j st.nodes)) [
    | inl no_node ↦ absurd (ground arith)
    | inr (x, there) ↦
        let kept : all (is_satisfied (modify k (with_state NodeState.ready) st.nodes))
              x.dependencies
            ≡ true =
          all_mono (is_satisfied st.nodes)
            (is_satisfied (modify k (with_state NodeState.ready) st.nodes)) x.dependencies
            (is_satisfied-modify st k (with_state NodeState.ready) node e Allowed-ready.kept)
            (ground arith) in
        ground (arith, get-modify k j (with_state NodeState.ready) st.nodes, eq_iff k j)
  ]

abbrev all_may : Map ExecutionNode → List String → Bool
all_may nodes ks = all (may_be_ready nodes) ks

pub set_ready-IsOrderly :
    (ks : List String) (st : ExecutionState)
    → all_may st.nodes ks ≡ true
    → IsOrderly st
    → IsOrderly (record st { nodes = set_ready ks st.nodes })
unfolding set_ready
set_ready-IsOrderly [] st h o = o
set_ready-IsOrderly (k ∷ ks) st h o = elim (Option-cases (get k st.nodes)) [
  | inl no_node ↦ absurd (ground arith)
  | inr (node, e) ↦
      let may : may_be_ready st.nodes k ≡ true = ground arith in
      let rest : all_may st.nodes ks ≡ true = ground arith in
      set_ready-IsOrderly ks (record st { nodes = modify k (with_state NodeState.ready) st.nodes })
        (all_mono (may_be_ready st.nodes)
          (may_be_ready (modify k (with_state NodeState.ready) st.nodes)) ks
          (may_be_ready-modify st k node e may) rest)
        (IsOrderly-modify st k (with_state NodeState.ready) node e (Allowed-ready st k node e may)
          o)
]

ready_may :
    (position : ProtocolStage) (nodes : Map ExecutionNode) (k : String) (node : ExecutionNode)
    → get k nodes ≡ some node
    → node.id ≡ k
    → becomes_ready position nodes node ≡ true
    → may_be_ready nodes node.id ≡ true
unfolding becomes_ready satisfies_dependency
ready_may position nodes k node e i h = ground arith

all_may-ready_ids :
    (position : ProtocolStage) (nodes : Map ExecutionNode) (ks : List String)
    → ((k : String) (node : ExecutionNode) → get k nodes ≡ some node → node.id ≡ k)
    → all_may nodes (ready_ids position nodes ks) ≡ true
unfolding ready_ids
all_may-ready_ids position nodes [] i = refl
all_may-ready_ids position nodes (k ∷ ks) i = elim (Option-cases (get k nodes)) [
  | inl no_node ↦ ground (arith, all_may-ready_ids position nodes ks i)
  | inr (node, e) ↦
      ground (
        arith,
        all_may-ready_ids position nodes ks i,
        ready_may position nodes k node e (i k node e),
      )
]

pub refresh_ready_nodes-IsOrderly :
    (st : ExecutionState) → IsOrderly st → IsOrderly (refresh_ready_nodes st)
unfolding refresh_ready_nodes
refresh_ready_nodes-IsOrderly st o =
    set_ready-IsOrderly (ready_ids st.position st.nodes st.node_order) st
      (all_may-ready_ids st.position st.nodes st.node_order
        (λ k node e. (o.at_node k node e).identity))
      o

get-set_ready :
    (ks : List String) (j : String) (nodes : Map ExecutionNode)
    → get j (set_ready ks nodes) ≡ (
        if any (λ i. i == j) ks
        then apply_to (with_state NodeState.ready) (get j nodes)
        else get j nodes)
unfolding set_ready
get-set_ready [] j nodes = refl
get-set_ready (k ∷ ks) j nodes = elim (Option-cases (get j nodes)) [
  | inl e ↦ ground (
    arith,
    get-set_ready ks j (modify k (with_state NodeState.ready) nodes),
    get-modify k j (with_state NodeState.ready) nodes,
  )
  | inr (x, e) ↦ ground (
    arith,
    get-set_ready ks j (modify k (with_state NodeState.ready) nodes),
    get-modify k j (with_state NodeState.ready) nodes,
  )
]

any-ready_ids :
    (position : ProtocolStage) (nodes : Map ExecutionNode) (ks : List String) (j : String)
    (node : ExecutionNode)
    → ((k : String) (x : ExecutionNode) → get k nodes ≡ some x → x.id ≡ k)
    → get j nodes ≡ some node
    → any (λ i. i == j) (ready_ids position nodes ks)
      ≡ (any (λ i. i == j) ks && becomes_ready position nodes node)
unfolding ready_ids
any-ready_ids position nodes [] j node i e = refl
any-ready_ids position nodes (k ∷ ks) j node i e = elim (Option-cases (get k nodes)) [
  | inl no_node ↦ ground (arith, eq_iff k j, any-ready_ids position nodes ks j node i e)
  | inr (x, there) ↦
      ground (arith, eq_iff k j, i k x there, any-ready_ids position nodes ks j node i e)
]

-- Refreshing an orderly graph marks the nodes that pass `becomes_ready`, and no other.
pub refresh_ready_nodes_exact :
    (st : ExecutionState) (k : String) (node : ExecutionNode)
    → IsOrderly st
    → get k st.nodes ≡ some node
    → get k (refresh_ready_nodes st).nodes
      ≡ some (
          if becomes_ready st.position st.nodes node then with_state NodeState.ready node else node)
unfolding refresh_ready_nodes
refresh_ready_nodes_exact st k node o e =
    let p : IsPlaced st k node = o.at_node k node e in
    ground (
      arith,
      p.listed,
      get-set_ready (ready_ids st.position st.nodes st.node_order) k st.nodes,
      any-ready_ids st.position st.nodes st.node_order k node (λ j x h. (o.at_node j x h).identity)
          e,
    )
