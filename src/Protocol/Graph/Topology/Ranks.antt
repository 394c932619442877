-- ===== src/Protocol/Graph/Topology/Ranks.antt =====
-- `validate_plan_topology` of src/execution_protocol/reducer.rs: a graph that passes is ranked by the
-- kinds of its nodes and then by the stable order, so it passes `validate_graph_acyclic` too.
use native.Mathlib.Nat.{mul-le-mul_right}
use rustgrid_agent.Prelude.{
  ℕ, ◌+◌, ◌*◌, ◌≤◌, ◌<◌, String, ◌≡◌, ◌⊎◌, inl, inr, true, none, some, List, [], ◌∷◌, arith, ◌==◌,
  eq_iff, ltb, length, contains, Bool-cases, Option-cases,
}
use rustgrid_agent.Map.{Map, get, contains_key, insert, get-insert, is_some-get}
use rustgrid_agent.Protocol.Stage.{protocol_node_order}
use rustgrid_agent.Protocol.Violation.{ok, Result-cases}
use rustgrid_agent.Protocol.Model.{ExecutionNode, ExecutionState}
use rustgrid_agent.Protocol.Graph.Paths.{IsEdge}
use rustgrid_agent.Protocol.Graph.Acyclic.{validate_graph_acyclic}
use rustgrid_agent.Protocol.Graph.Acyclic.Degrees.{is_indexed}
use rustgrid_agent.Protocol.Graph.Acyclic.Order.{validate_graph_acyclic_exact}
use rustgrid_agent.Protocol.Graph.Topology.{
  stable_indexes, check_monotonic, check_dependency_order, validate_plan_topology,
}
use rustgrid_agent.Protocol.Graph.Topology.Chain.{Tested, tested}

abbrev index_in : String → Map ℕ → ℕ
index_in n m = elim (get n m) [ none ↦ 0 | some k ↦ k ]

-- No index is as large as the end of the order.
index-lt :
    (n : String) (start : ℕ) (order : List String) (m : Map ℕ)
    → index_in n m ≤ start
    → index_in n (stable_indexes start order m) ≤ start + length order
unfolding stable_indexes
index-lt n start [] m h = omega (arith, h)
index-lt n start (k ∷ order) m h =
    let below : index_in n (insert k start m) ≤ start + 1 =
      ground (arith, get-insert k n start m) in
    omega (arith, index-lt n (start + 1) order (insert k start m) below)

-- What a passing dependency shows.
check_monotonic-lt :
    (nodes : Map ExecutionNode) (m : Map ℕ) (node : ExecutionNode) (i : ℕ) (ds : List String)
    (d : String) (bound : ℕ)
    → check_monotonic nodes m node i ds ≡ ok tt
    → contains d ds ≡ true
    → index_in d m ≤ bound
    → (dependency : ExecutionNode) × (get d nodes ≡ some dependency)
      × ((protocol_node_order dependency.kind < protocol_node_order node.kind)
          ⊎ ((protocol_node_order dependency.kind ≡ protocol_node_order node.kind)
              × (index_in d m < i)))
unfolding check_monotonic contains
check_monotonic-lt nodes m node i [] d bound h c b = absurd (ground arith)
check_monotonic-lt nodes m node i (e ∷ ds) d bound h c b = elim (Option-cases (get e nodes)) [
  | inl none_there ↦ absurd (ground arith)
  | inr (dependency, there) ↦ elim (Option-cases (get e m)) [
    | inl no_index ↦ absurd (ground arith)
    | inr (j, index) ↦ elim (Bool-cases (e == d)) [
      | inl same ↦ (
        dependency,
        ground (arith, eq_iff e d),
        elim (Bool-cases
            (ltb (protocol_node_order dependency.kind) (protocol_node_order node.kind))) [
              | inl less ↦ inl (ground arith)
              | inr other ↦ inr (ground (arith, eq_iff e d))
            ],
      )
      | inr other ↦ check_monotonic-lt nodes m node i ds d bound (ground arith) (ground arith) b
    ]
  ]
]

check_dependency_order-get :
    (nodes : Map ExecutionNode) (m : Map ℕ) (rest : Map ExecutionNode) (n : String)
    (node : ExecutionNode)
    → check_dependency_order nodes m rest ≡ ok tt
    → get n rest ≡ some node
    → (i : ℕ) × (get node.id m ≡ some i)
      × (check_monotonic nodes m node i node.dependencies ≡ ok tt)
unfolding check_dependency_order get
check_dependency_order-get nodes m [] n node h e = absurd (ground arith)
check_dependency_order-get nodes m ((k, x) ∷ rest) n node h e = elim (Option-cases (get x.id m)) [
  | inl no_index ↦ absurd (ground arith)
  | inr (i, index) ↦ elim (Result-cases (check_monotonic nodes m x i x.dependencies)) [
    | inr other ↦ absurd (ground arith)
    | inl (tt, q) ↦ elim (Bool-cases (k == n)) [
      | inl here ↦ (i, ground arith, ground arith)
      | inr there ↦ check_dependency_order-get nodes m rest n node (ground arith) (ground arith)
    ]
  ]
]

is_indexed-get :
    (nodes : Map ExecutionNode) (n : String) (node : ExecutionNode)
    → is_indexed nodes ≡ true
    → get n nodes ≡ some node
    → node.id ≡ n
unfolding is_indexed get
is_indexed-get [] n node w e = absurd (ground arith)
is_indexed-get ((k, x) ∷ nodes) n node w e =
    ground (arith, is_indexed-get nodes n node, eq_iff k n, eq_iff x.id k)

-- First by the kind, then by the stable order.
rank_in : Map ExecutionNode → Map ℕ → ℕ → String → ℕ
rank_in nodes m bound n = elim (get n nodes) [
  | none ↦ 0
  | some node ↦ protocol_node_order node.kind * (bound + 1) + index_in n m
]

kinds_first : (a b c x y : ℕ) → a < b → x < c → a * c + x < b * c + y
kinds_first a b c x y h k = omega (arith, mul-le-mul_right c h)

module _ (st : ExecutionState) (t : Tested st) (w : is_indexed st.nodes ≡ true) where
  abbrev indexes : Map ℕ
  indexes = stable_indexes 0 st.node_order []

  abbrev last_index : ℕ
  last_index = length st.node_order

  index-le : (n : String) → index_in n indexes ≤ last_index
  unfolding get
  index-le n = omega (arith, index-lt n 0 st.node_order [] (omega arith))

  edge_ranked :
      (n d : String)
      → IsEdge st.nodes n d
      → (contains_key d st.nodes ≡ true)
        × (rank_in st.nodes indexes last_index d < rank_in st.nodes indexes last_index n)
  unfolding rank_in contains
  edge_ranked n d edge = elim (Option-cases (get n st.nodes)) [
    | inl none_there ↦ absurd (ground arith)
    | inr (node, there) ↦
        let (i, index, passed) =
          check_dependency_order-get st.nodes indexes st.nodes n node t.order there in
        let (dependency, e, less) =
          check_monotonic-lt st.nodes indexes node i node.dependencies d last_index passed
            (ground arith) (index-le d) in
        (
          ground (arith, is_some-get d st.nodes),
          ground (
            arith,
            is_indexed-get st.nodes n node w there,
            index-le d,
            kinds_first (protocol_node_order dependency.kind) (protocol_node_order node.kind)
                (last_index + 1) (index_in d indexes) (index_in n indexes),
          ),
        )
  ]

-- In a map whose nodes stand under their names, once each, a graph that passes
-- `validate_plan_topology` also passes `validate_graph_acyclic`.
pub validate_plan_topology-acyclic :
    (st : ExecutionState)
    → is_indexed st.nodes ≡ true
    → validate_plan_topology st ≡ ok tt
    → validate_graph_acyclic st.nodes ≡ ok tt
validate_plan_topology-acyclic st w h =
    let t : Tested st = tested st h in
    (validate_graph_acyclic_exact st.nodes w).1
      (rank_in st.nodes (indexes st t w) (last_index st t w), edge_ranked st t w)
