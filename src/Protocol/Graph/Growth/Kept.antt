-- ===== src/Protocol/Graph/Growth/Kept.antt =====
-- New nodes keep the graph of src/execution_protocol/reducer.rs orderly.
use rustgrid_agent.Prelude.{
  String, ◌≡◌, refl, Bool, true, false, not, ◌||◌, none, some, List, [], ◌∷◌, ◌++◌, ◌==◌, any, all,
  ◌⊎◌, inl, inr, contains, distinct, arith, eq_iff, Option-cases,
}
use rustgrid_agent.Map.{Map, get, insert, contains_key, is_some-get, get-insert}
use rustgrid_agent.Protocol.Model.{
  NodeSpec, ExecutionNode, ExecutionState, from_spec, owns_execution,
}
use rustgrid_agent.Protocol.Graph.{is_satisfied}
use rustgrid_agent.Protocol.Graph.Orderly.{IsPlaced, IsOrderly, all_mono}
use rustgrid_agent.Protocol.Graph.Growth.{push_node, push_nodes, spec_ids}

-- Every node stays as it is.
abbrev pub Extends : ExecutionState → ExecutionState → Type 0
Extends st x = (n : String) (a : ExecutionNode) → get n st.nodes ≡ some a → get n x.nodes ≡ some a

any-append : (p : String → Bool) (xs ys : List String) → any p (xs ++ ys) ≡ (any p xs || any p ys)
any-append p [] ys = refl
any-append p (x ∷ xs) ys = ground (arith, any-append p xs ys)

module _ (spec : NodeSpec) (st : ExecutionState)
    (fresh : contains_key spec.id st.nodes ≡ false) where
  absent : get spec.id st.nodes ≡ none
  absent = ground (arith, is_some-get spec.id st.nodes)

  pub push_node-Extends : Extends st (push_node spec st)
  unfolding push_node
  push_node-Extends n a e =
      ground (arith, absent, eq_iff spec.id n, get-insert spec.id n (from_spec spec) st.nodes)

  pushed_cases :
      (n : String) (b : ExecutionNode)
      → get n (push_node spec st).nodes ≡ some b
      → ((spec.id ≡ n) × (b ≡ from_spec spec)) ⊎ (get n st.nodes ≡ some b)
  unfolding push_node
  pushed_cases n b h =
      ground (arith, eq_iff spec.id n, get-insert spec.id n (from_spec spec) st.nodes)

  still_satisfied :
      (k : String)
      → is_satisfied st.nodes k ≡ true
      → is_satisfied (push_node spec st).nodes k ≡ true
  unfolding is_satisfied
  still_satisfied k h = elim (Option-cases (get k st.nodes)) [
    | inl e ↦ absurd (ground arith)
    | inr (a, e) ↦ ground (arith, push_node-Extends k a e)
  ]

  new-IsPlaced :
      (n : String) (b : ExecutionNode)
      → spec.id ≡ n
      → b ≡ from_spec spec
      → IsPlaced (push_node spec st) n b
  unfolding push_node from_spec owns_execution
  new-IsPlaced n b k same = record {
    identity = ground arith;
    listed =
        ground (arith, any-append (λ i. i == n) st.node_order (spec.id ∷ []), eq_iff spec.id n);
    in_stage = λ h. absurd (ground arith);
    supported = λ h. absurd (ground arith);
    counted = ground arith;
    proved = ground arith;
  }

  old-IsPlaced :
      (n : String) (b : ExecutionNode) → IsPlaced st n b → IsPlaced (push_node spec st) n b
  unfolding push_node
  old-IsPlaced n b p = record {
    identity = p.identity;
    listed = ground (arith, any-append (λ i. i == n) st.node_order (spec.id ∷ []), p.listed);
    in_stage = p.in_stage;
    supported = λ s.
        all_mono (is_satisfied st.nodes) (is_satisfied (push_node spec st).nodes) b.dependencies
          still_satisfied (p.supported s);
    counted = p.counted;
    proved = p.proved;
  }

  owner_before :
      (n : String) (b : ExecutionNode)
      → get n (push_node spec st).nodes ≡ some b
      → owns_execution b.state ≡ true
      → get n st.nodes ≡ some b
  unfolding from_spec owns_execution
  owner_before n b h o = elim (pushed_cases n b h) [
    | inl (k, same) ↦ absurd (ground arith)
    | inr e ↦ e
  ]

  pub push_node-IsOrderly : IsOrderly st → IsOrderly (push_node spec st)
  push_node-IsOrderly o = record {
    at_node = λ n b h. elim (pushed_cases n b h) [
      | inl (k, same) ↦ new-IsPlaced n b k same
      | inr e ↦ old-IsPlaced n b (o.at_node n b e)
    ];
    one_owner = λ n m a b ha hb oa ob.
        o.one_owner n m a b (owner_before n a ha oa) (owner_before m b hb ob) oa ob;
  }

abbrev pub all_fresh : Map ExecutionNode → List NodeSpec → Bool
all_fresh nodes specs = all (λ spec. not (contains_key spec.id nodes)) specs

fresh-insert :
    (spec : NodeSpec) (nodes : Map ExecutionNode) (specs : List NodeSpec)
    → contains spec.id (spec_ids specs) ≡ false
    → all_fresh nodes specs ≡ true
    → all_fresh (insert spec.id (from_spec spec) nodes) specs ≡ true
unfolding contains
fresh-insert spec nodes [] c h = refl
fresh-insert spec nodes (s ∷ specs) c h = ground (
  arith,
  fresh-insert spec nodes specs,
  eq_iff s.id spec.id,
  eq_iff spec.id s.id,
  get-insert spec.id s.id (from_spec spec) nodes,
  is_some-get s.id nodes,
  is_some-get s.id (insert spec.id (from_spec spec) nodes),
)

-- What the growth by new nodes keeps.
pub record Grown (specs : List NodeSpec) (st x : ExecutionState) : Type 0 where
  pub orderly : IsOrderly x
  pub extends : Extends st x

pub push_nodes-Grown :
    (specs : List NodeSpec) (st : ExecutionState)
    → distinct (spec_ids specs) ≡ true
    → all_fresh st.nodes specs ≡ true
    → IsOrderly st
    → Grown specs st (push_nodes specs st)
unfolding push_nodes push_node distinct
push_nodes-Grown [] st d f o = record { orderly = o; extends = λ n a e. e }
push_nodes-Grown (spec ∷ specs) st d f o =
    let here : contains_key spec.id st.nodes ≡ false = ground arith in
    let apart : contains spec.id (spec_ids specs) ≡ false = ground arith in
    let rest =
      push_nodes-Grown specs (push_node spec st) (ground arith)
        (fresh-insert spec st.nodes specs apart (ground arith))
        (push_node-IsOrderly spec st here o) in
    record {
      orderly = rest.orderly;
      extends = λ n a e. rest.extends n a (push_node-Extends spec st here n a e);
    }
