-- ===== src/Protocol/Graph/Orderly.antt =====
-- The invariant of the execution graph, after the tests of `validate_graph` in
-- src/execution_protocol/reducer.rs, and how the change of one node keeps it.
use mathlib.Core.Path.{subst}
use rustgrid_agent.Prelude.{
  ℕ, String, ◌≡◌, refl, ap, Bool, true, false, ◌&&◌, ◌⊎◌, inl, inr, Option, some, List, [], ◌∷◌,
  ◌==◌, nat_eq, any, all, is_some_and, arith, eq_iff,
}
use rustgrid_agent.Map.{Map, get, modify, get-modify}
use rustgrid_agent.Protocol.Stage.{NodeKind, stage, proof_satisfies_node}
use rustgrid_agent.Protocol.Model.{
  NodeState, ExecutionNode, ExecutionState, ProofRecord, owns_execution, satisfies_dependency,
}
use rustgrid_agent.Protocol.Graph.{is_satisfied}

-- `matches!(state, Ready | Active | Waiting)`
abbrev pub needs_support : NodeState → Bool
needs_support NodeState.ready = true
needs_support (NodeState.active attempt) = true
needs_support (NodeState.waiting attempt effect_id) = true
needs_support _ = false

-- The running attempt is the last one started.
abbrev pub is_counted : NodeState → ℕ → Bool
is_counted (NodeState.active attempt) started = nat_eq attempt started
is_counted (NodeState.waiting attempt effect_id) started = nat_eq attempt started
is_counted _ started = true

abbrev pub names_fitting : NodeKind → String → Option ProofRecord → Bool
names_fitting kind n proof =
    is_some_and proof λ p. any (λ k. k == n) p.node_ids && proof_satisfies_node kind p.kind

-- A node that is done names a proof that is about it and fits its kind.
abbrev pub is_proved : Map ProofRecord → NodeKind → String → NodeState → Bool
is_proved proofs kind n (NodeState.succeeded proof_id) = names_fitting kind n (get proof_id proofs)
is_proved proofs kind n (NodeState.skipped proof_id) = names_fitting kind n (get proof_id proofs)
is_proved proofs kind n _ = true

pub record IsPlaced (st : ExecutionState) (n : String) (node : ExecutionNode) : Type 0 where
  pub identity : node.id ≡ n
  pub listed : any (λ k. k == n) st.node_order ≡ true
  pub in_stage : owns_execution node.state ≡ true → stage node.kind ≡ st.position
  pub supported :
      needs_support node.state ≡ true → all (is_satisfied st.nodes) node.dependencies ≡ true
  pub counted : is_counted node.state node.attempts_started ≡ true
  pub proved : is_proved st.proofs node.kind n node.state ≡ true

pub record IsOrderly (st : ExecutionState) : Type 0 where
  pub at_node :
      (n : String) (node : ExecutionNode) → get n st.nodes ≡ some node → IsPlaced st n node
  pub one_owner :
      (n m : String) (a b : ExecutionNode)
      → get n st.nodes ≡ some a
      → get m st.nodes ≡ some b
      → owns_execution a.state ≡ true
      → owns_execution b.state ≡ true
      → n ≡ m

abbrev pub Unowned : ExecutionState → Type 0
Unowned st =
    (m : String) (b : ExecutionNode) → get m st.nodes ≡ some b → owns_execution b.state ≡ false

-- A change of the node under `n` that the invariant allows.
pub record Allowed (st : ExecutionState) (n : String) (node node' : ExecutionNode) : Type 0 where
  pub same_id : node'.id ≡ node.id
  pub same_kind : node'.kind ≡ node.kind
  pub same_dependencies : node'.dependencies ≡ node.dependencies
  pub kept : satisfies_dependency node.state ≡ true → satisfies_dependency node'.state ≡ true
  pub in_stage : owns_execution node'.state ≡ true → stage node'.kind ≡ st.position
  pub owner : owns_execution node'.state ≡ true → (owns_execution node.state ≡ true) ⊎ Unowned st
  pub supported :
      needs_support node'.state ≡ true → all (is_satisfied st.nodes) node'.dependencies ≡ true
  pub counted : is_counted node'.state node'.attempts_started ≡ true
  pub proved : is_proved st.proofs node'.kind n node'.state ≡ true

pub all_mono :
    (p q : String → Bool) (ds : List String)
    → ((k : String) → p k ≡ true → q k ≡ true)
    → all p ds ≡ true
    → all q ds ≡ true
all_mono p q [] h e = refl
all_mono p q (d ∷ ds) h e = ground (arith, h d, all_mono p q ds h)

module _ (st : ExecutionState) (n : String) (f : ExecutionNode → ExecutionNode)
    (node : ExecutionNode) (e : get n st.nodes ≡ some node) where
  abbrev changed : ExecutionState
  changed = record st { nodes = modify n f st.nodes }

  pub is_satisfied-modify :
      (satisfies_dependency node.state ≡ true → satisfies_dependency (f node).state ≡ true)
      → (k : String) → is_satisfied st.nodes k ≡ true
      → is_satisfied (modify n f st.nodes) k ≡ true
  unfolding is_satisfied
  is_satisfied-modify kept k h = ground (arith, get-modify n k f st.nodes, eq_iff n k)

  IsPlaced-same : Allowed st n node (f node) → IsPlaced st n node → IsPlaced changed n (f node)
  IsPlaced-same a p = record {
    identity = cc (a.same_id, p.identity);
    listed = p.listed;
    in_stage = a.in_stage;
    supported = λ s.
        all_mono (is_satisfied st.nodes) (is_satisfied changed.nodes) (f node).dependencies
          (is_satisfied-modify a.kept) (a.supported s);
    counted = a.counted;
    proved = a.proved;
  }

  IsPlaced-other :
      (m : String) (b : ExecutionNode)
      → Allowed st n node (f node)
      → IsPlaced st m b
      → IsPlaced changed m b
  IsPlaced-other m b a p = record {
    identity = p.identity;
    listed = p.listed;
    in_stage = p.in_stage;
    supported = λ s.
        all_mono (is_satisfied st.nodes) (is_satisfied changed.nodes) b.dependencies
          (is_satisfied-modify a.kept) (p.supported s);
    counted = p.counted;
    proved = p.proved;
  }

  -- Where a value of the changed map comes from.
  at_changed :
      (m : String) (b : ExecutionNode)
      → get m changed.nodes ≡ some b
      → ((n ≡ m) × (f node ≡ b)) ⊎ (((n == m) ≡ false) × (get m st.nodes ≡ some b))
  at_changed m b h = ground (arith, get-modify n m f st.nodes, eq_iff n m)

  changed_node :
      Allowed st n node (f node)
      → IsOrderly st
      → (m : String) (b : ExecutionNode) → get m changed.nodes ≡ some b
      → IsPlaced changed m b
  changed_node a o m b h = elim (at_changed m b h) [
    | inl (this, same) ↦
        subst (λ x. IsPlaced changed m x) same
          (subst (λ k. IsPlaced changed k (f node)) this (IsPlaced-same a (o.at_node n node e)))
    | inr (other, there) ↦ IsPlaced-other m b a (o.at_node m b there)
  ]

  -- Who owns the execution after the change did so before, or nobody did.
  owned_before :
      Allowed st n node (f node)
      → (m : String) (b : ExecutionNode) → get m changed.nodes ≡ some b
      → owns_execution b.state ≡ true
      → ((x : ExecutionNode) × (get m st.nodes ≡ some x) × (owns_execution x.state ≡ true))
        ⊎ ((n ≡ m) × Unowned st)
  owned_before a m b h owns = elim (at_changed m b h) [
    | inl (this, same) ↦
        elim (a.owner (cc (ap (λ (x : ExecutionNode). owns_execution x.state) same, owns))) [
          | inl was ↦ inl (node, subst (λ k. get k st.nodes ≡ some node) this e, was)
          | inr nobody ↦ inr (this, nobody)
        ]
    | inr (other, there) ↦ inl (b, there, owns)
  ]

  changed_owner :
      Allowed st n node (f node)
      → IsOrderly st
      → (m k : String) (b c : ExecutionNode) → get m changed.nodes ≡ some b
      → get k changed.nodes ≡ some c
      → owns_execution b.state ≡ true
      → owns_execution c.state ≡ true
      → m ≡ k
  changed_owner a o m k b c hb hc ob oc = elim (owned_before a m b hb ob) [
    | inl (x, hx, ox) ↦ elim (owned_before a k c hc oc) [
      | inl (y, hy, oy) ↦ o.one_owner m k x y hx hy ox oy
      | inr (this, nobody) ↦ absurd (cc (nobody m x hx, ox))
    ]
    | inr (this, nobody) ↦ elim (owned_before a k c hc oc) [
      | inl (y, hy, oy) ↦ absurd (cc (nobody k y hy, oy))
      | inr (that, _) ↦ cc
    ]
  ]

  pub IsOrderly-modify : Allowed st n node (f node) → IsOrderly st → IsOrderly changed
  IsOrderly-modify a o = record { at_node = changed_node a o; one_owner = changed_owner a o }
