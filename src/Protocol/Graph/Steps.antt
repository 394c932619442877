-- ===== src/Protocol/Graph/Steps.antt =====
-- Each handler of `apply_graph_event` in src/execution_protocol/reducer.rs that moves a node: what its
-- success says, and the graph after it.
use mathlib.Core.Path.{subst}
use rustgrid_agent.Prelude.{
  ℕ, String, ◌≡◌, refl, Bool, true, false, not, ◌||◌, nat_eq, inl, inr, none, some, List, [], ◌∷◌,
  ◌==◌, all, any, find, arith, eq_iff, Option-cases, ◌↔◌,
}
use rustgrid_agent.Words.{saturating_add_u32}
use rustgrid_agent.Map.{Map, get, modify}
use rustgrid_agent.Protocol.Stage.{ProtocolStage, stage, stage_eq, proof_satisfies_node}
use rustgrid_agent.Protocol.Violation.{
  ProtocolViolation, Result, ok, invalid_node_state, expect_mut, reject_if, ◌>>=◌, ◌>>◌,
}
use rustgrid_agent.Protocol.Model.{
  NodeState, ExecutionNode, ExecutionState, ProofRecord, owns_execution, satisfies_dependency,
  active_node, ordered_nodes, is_active,
}
use rustgrid_agent.Protocol.Ledger.{has_open_model_call_for_node}
use rustgrid_agent.Protocol.Graph.{
  is_ready, is_satisfied, check_dependencies, ensure_dependencies_satisfied, with_state, started,
  failed, resume_in, refresh_ready_nodes, start_node, wait_node, resume_node, succeed_node,
  fail_node,
}
use rustgrid_agent.Protocol.Graph.Guards.{PhaseContracts}
use rustgrid_agent.Protocol.Graph.Orderly.{
  IsPlaced, IsOrderly, Unowned, is_proved, is_counted, IsOrderly-modify,
}
use rustgrid_agent.Protocol.Graph.Refresh.{refresh_ready_nodes-IsOrderly}

pub stage_eq→≡ : (a b : ProtocolStage) → stage_eq a b ≡ true → a ≡ b
stage_eq→≡ a b h = ground arith

pub check_dependencies_exact :
    (n : String) (nodes : Map ExecutionNode) (ds : List String)
    → (check_dependencies n nodes ds ≡ ok tt) ↔ (all (is_satisfied nodes) ds ≡ true)
unfolding check_dependencies is_satisfied
check_dependencies_exact n nodes [] = ground arith
check_dependencies_exact n nodes (d ∷ ds) = elim (Option-cases (get d nodes)) [
  | inl e ↦ ground arith
  | inr (x, e) ↦ ground (arith, check_dependencies_exact n nodes ds)
]

not_found :
    (nodes : Map ExecutionNode) (ks : List String) (n : String) (a : ExecutionNode)
    → find (λ x. owns_execution x.state) (ordered_nodes nodes ks) ≡ none
    → any (λ k. k == n) ks ≡ true
    → get n nodes ≡ some a
    → owns_execution a.state ≡ false
unfolding ordered_nodes
not_found nodes [] n a h l e = cc
not_found nodes (k ∷ ks) n a h l e = elim (Option-cases (get k nodes)) [
  | inl no_node ↦ ground (arith, not_found nodes ks n a, eq_iff k n)
  | inr (x, there) ↦ ground (arith, not_found nodes ks n a, eq_iff k n)
]

pub Unowned-active_node : (st : ExecutionState) → IsOrderly st → active_node st ≡ none → Unowned st
unfolding active_node
Unowned-active_node st o h m b e = not_found st.nodes st.node_order m b h (o.at_node m b e).listed e

start_attempt :
    (attempt : ℕ) (node : ExecutionNode) (e : ProtocolViolation) (rest : Result ExecutionState)
    (st' : ExecutionState)
    → (do
      reject_if
          (not (is_ready node.state)
            || not (nat_eq attempt (saturating_add_u32 node.attempts_started 1)))
          e
      rest)
      ≡ ok st'
    → (node.state ≡ NodeState.ready) × (attempt ≡ saturating_add_u32 node.attempts_started 1)
start_attempt attempt node e rest st' h = (ground arith, ground arith)

start_rest :
    (k : String) (attempt : ℕ) (st st' : ExecutionState) (node : ExecutionNode)
    → start_node k attempt st ≡ ok st'
    → get k st.nodes ≡ some node
    → (do
      reject_if
          (not (is_ready node.state)
            || not (nat_eq attempt (saturating_add_u32 node.attempts_started 1)))
          (invalid_node_state k "node_started")
      ensure_dependencies_satisfied k st
      nodes ← expect_mut "node was checked" k (started attempt) st.nodes
      ok (record st { nodes = nodes }))
      ≡ ok st'
unfolding start_node
start_rest k attempt st st' node h e = ground arith

pub start_facts :
    (k : String) (attempt : ℕ) (st st' : ExecutionState)
    → start_node k attempt st ≡ ok st'
    → (node : ExecutionNode) × (get k st.nodes ≡ some node)
      × (active_node st ≡ none)
      × (node.state ≡ NodeState.ready)
      × (stage_eq (stage node.kind) st.position ≡ true)
      × (attempt ≡ saturating_add_u32 node.attempts_started 1)
      × (check_dependencies k st.nodes node.dependencies ≡ ok tt)
      × (record st { nodes = modify k (started attempt) st.nodes } ≡ st')
unfolding start_node expect_mut ensure_dependencies_satisfied
start_facts k attempt st st' h = elim (Option-cases (get k st.nodes)) [
  | inl e ↦ absurd (ground arith)
  | inr (node, e) ↦
      let (was, counted) =
        start_attempt attempt node (invalid_node_state k "node_started")
          (do
            ensure_dependencies_satisfied k st
            nodes ← expect_mut "node was checked" k (started attempt) st.nodes
            ok (record st { nodes = nodes }))
          st' (start_rest k attempt st st' node h e) in
      (node, e, ground arith, was, ground arith, counted, ground arith, ground arith)
]

pub start_node-IsOrderly :
    (k : String) (attempt : ℕ) (st st' : ExecutionState)
    → start_node k attempt st ≡ ok st'
    → IsOrderly st
    → IsOrderly st'
unfolding owns_execution satisfies_dependency
start_node-IsOrderly k attempt st st' h o =
    let (node, e, idle, was, at, _, deps, q) = start_facts k attempt st st' h in
    subst IsOrderly q (
      IsOrderly-modify st k (started attempt) node e
        (record {
          same_id = refl;
          same_kind = refl;
          same_dependencies = refl;
          kept = λ s. absurd (ground arith);
          in_stage = λ _. stage_eq→≡ (stage node.kind) st.position at;
          owner = λ _. inr (Unowned-active_node st o idle);
          supported = λ _. (check_dependencies_exact k st.nodes node.dependencies).0 deps;
          counted = ground arith;
          proved = refl;
        })
        o)

-- A state that the node under `k` takes instead of the running one, with the same attempt or ended.
module _ (st : ExecutionState) (k : String) (node : ExecutionNode) (s : NodeState)
    (e : get k st.nodes ≡ some node) (o : IsOrderly st)
    (owned : owns_execution node.state ≡ true) where
  with_state-IsOrderly :
      is_counted s node.attempts_started ≡ true
      → is_proved st.proofs node.kind k s ≡ true
      → IsOrderly (record st { nodes = modify k (with_state s) st.nodes })
  unfolding owns_execution satisfies_dependency
  with_state-IsOrderly count proof =
      let p : IsPlaced st k node = o.at_node k node e in
      IsOrderly-modify st k (with_state s) node e
        (record {
          same_id = refl;
          same_kind = refl;
          same_dependencies = refl;
          kept = λ d. absurd (ground arith);
          in_stage = λ _. p.in_stage owned;
          owner = λ _. inl owned;
          supported = λ _. p.supported (ground arith);
          counted = count;
          proved = proof;
        })
        o

resume_in_facts :
    (k effect : String) (s s' : NodeState)
    → resume_in k effect s ≡ ok s'
    → (attempt : ℕ) × (s ≡ NodeState.waiting attempt effect) × (s' ≡ NodeState.active attempt)
resume_in_facts k effect (NodeState.waiting attempt other) s' h =
    (attempt, ground (arith, eq_iff other effect), ground arith)
resume_in_facts k effect (NodeState.active attempt) s' h = cc
resume_in_facts k effect _ s' h = cc

module _ (k effect : String) (st st' : ExecutionState) where
  pub wait_facts :
      wait_node k effect st ≡ ok st'
      → (node : ExecutionNode) × (attempt : ℕ) × (get k st.nodes ≡ some node)
        × (node.state ≡ NodeState.active attempt)
        × (record st { nodes = modify k (with_state (NodeState.waiting attempt effect)) st.nodes }
            ≡ st')
  unfolding wait_node
  wait_facts h = elim (Option-cases (get k st.nodes)) [
    | inl e ↦ absurd (ground arith)
    | inr (node, e) ↦ ground arith
  ]

  resumed_state :
      (node : ExecutionNode)
      → get k st.nodes ≡ some node
      → resume_node k effect st ≡ ok st'
      → (s : NodeState) × (resume_in k effect node.state ≡ ok s)
        × (record st { nodes = modify k (with_state s) st.nodes } ≡ st')
  unfolding resume_node
  resumed_state node e h = ground arith

  resumed_attempt :
      (node : ExecutionNode) (s : NodeState)
      → resume_in k effect node.state ≡ ok s
      → record st { nodes = modify k (with_state s) st.nodes } ≡ st'
      → (attempt : ℕ) × (node.state ≡ NodeState.waiting attempt effect)
        × (record st { nodes = modify k (with_state (NodeState.active attempt)) st.nodes } ≡ st')
  resumed_attempt node s r q =
      let (attempt, was, now) = resume_in_facts k effect node.state s r in
      (
        attempt,
        was,
        subst (λ x. record st { nodes = modify k (with_state x) st.nodes } ≡ st') now q,
      )

  pub resume_facts :
      resume_node k effect st ≡ ok st'
      → (node : ExecutionNode) × (attempt : ℕ) × (get k st.nodes ≡ some node)
        × (node.state ≡ NodeState.waiting attempt effect)
        × (record st { nodes = modify k (with_state (NodeState.active attempt)) st.nodes } ≡ st')
  unfolding resume_node
  resume_facts h = elim (Option-cases (get k st.nodes)) [
    | inl e ↦ absurd (ground arith)
    | inr (node, e) ↦
        let (s, r, q) = resumed_state node e h in
        let (attempt, was, last) = resumed_attempt node s r q in (node, attempt, e, was, last)
  ]

  pub wait_node-IsOrderly : wait_node k effect st ≡ ok st' → IsOrderly st → IsOrderly st'
  unfolding owns_execution
  wait_node-IsOrderly h o =
      let (node, attempt, e, was, q) = wait_facts h in
      let p : IsPlaced st k node = o.at_node k node e in
      subst IsOrderly q (
        with_state-IsOrderly st k node (NodeState.waiting attempt effect) e o (ground arith)
          (ground (arith, p.counted)) refl)

  pub resume_node-IsOrderly : resume_node k effect st ≡ ok st' → IsOrderly st → IsOrderly st'
  unfolding owns_execution
  resume_node-IsOrderly h o =
      let (node, attempt, e, was, q) = resume_facts h in
      let p : IsPlaced st k node = o.at_node k node e in
      subst IsOrderly q (
        with_state-IsOrderly st k node (NodeState.active attempt) e o (ground arith)
          (ground (arith, p.counted)) refl)

module _ (c : PhaseContracts) (k text : String) (st st' : ExecutionState) where
  pub succeed_facts :
      succeed_node c k text st ≡ ok st'
      → (node : ExecutionNode) × (proof : ProofRecord) × (get k st.nodes ≡ some node)
        × (get text st.proofs ≡ some proof)
        × (is_active node.state ≡ true)
        × (any (λ j. j == k) proof.node_ids ≡ true)
        × (proof_satisfies_node node.kind proof.kind ≡ true)
        × (has_open_model_call_for_node st.budgets.model_calls k ≡ false)
        × (refresh_ready_nodes
              (record st { nodes = modify k (with_state (NodeState.succeeded text)) st.nodes })
            ≡ st')
  unfolding succeed_node expect_mut
  succeed_facts h = elim (Option-cases (get k st.nodes)) [
    | inl e ↦ absurd (elim (Option-cases (get text st.proofs)) [
      | inl no_proof ↦ ground arith
      | inr (proof, there) ↦ ground arith
    ])
    | inr (node, e) ↦ elim (Option-cases (get text st.proofs)) [
      | inl no_proof ↦ absurd (ground arith)
      | inr (proof, there) ↦ (
        node,
        proof,
        e,
        there,
        ground arith,
        ground arith,
        ground arith,
        ground arith,
        ground arith,
      )
    ]
  ]

  pub succeed_node-IsOrderly : succeed_node c k text st ≡ ok st' → IsOrderly st → IsOrderly st'
  unfolding owns_execution
  succeed_node-IsOrderly h o =
      let (node, proof, e, there, was, about, fits, _, q) = succeed_facts h in
      subst IsOrderly q (
        refresh_ready_nodes-IsOrderly
          (record st { nodes = modify k (with_state (NodeState.succeeded text)) st.nodes })
          (with_state-IsOrderly st k node (NodeState.succeeded text) e o (ground arith) refl
            (ground arith)))

  pub fail_facts :
      (terminal : Bool)
      → fail_node c k text terminal st ≡ ok st'
      → (node : ExecutionNode) × (get k st.nodes ≡ some node)
        × (is_active node.state ≡ true)
        × (record st { nodes = modify k (with_state (failed terminal text)) st.nodes } ≡ st')
  unfolding fail_node
  fail_facts terminal h = elim (Option-cases (get k st.nodes)) [
    | inl e ↦ absurd (ground arith)
    | inr (node, e) ↦ (node, e, ground arith, ground arith)
  ]

  pub fail_node-IsOrderly :
      (terminal : Bool) → fail_node c k text terminal st ≡ ok st' → IsOrderly st → IsOrderly st'
  unfolding owns_execution
  fail_node-IsOrderly terminal h o =
      let (node, e, was, q) = fail_facts terminal h in
      subst IsOrderly q (
        with_state-IsOrderly st k node (failed terminal text) e o (ground arith) (ground arith)
          (ground arith))
