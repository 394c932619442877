-- ===== src/Protocol/Graph/Accounting.antt =====
-- The ledger under the events of the graph (`apply_graph_event` in src/execution_protocol/reducer.rs).
use mathlib.Core.Path.{subst}
use rustgrid_agent.Prelude.{
  ℕ, String, ◌≡◌, ◌∙◌, ◌⊎◌, some, List, [], ◌∷◌, arith, inl, inr, Option-cases,
}
use rustgrid_agent.Map.{get, modify, get-modify}
use rustgrid_agent.Protocol.Violation.{ok}
use rustgrid_agent.Protocol.Model.{NodeState, ExecutionNode, ExecutionState}
use rustgrid_agent.Protocol.Ledger.Sound.{IsSound, NodeBooks, Owned, owner-modify}
use rustgrid_agent.Protocol.Graph.{
  NodeEvent, apply_graph_event, move, with_state, failed, set_ready, ready_ids, refresh_ready_nodes,
}
use rustgrid_agent.Protocol.Graph.Guards.{PhaseContracts}
use rustgrid_agent.Protocol.Graph.Steps.{
  start_facts, wait_facts, resume_facts, succeed_facts, fail_facts,
}

-- Only the state and the attempts of the node change.
abbrev restate : (ExecutionNode → NodeState) → (ExecutionNode → ℕ) → ExecutionNode → ExecutionNode
restate s a x = record x { state = s x; attempts_started = a x }

module _ (s : ExecutionNode → NodeState) (a : ExecutionNode → ℕ) (n : String) (st : ExecutionState)
    (sound : IsSound st) where
  restated_from :
      (m : String) (node : ExecutionNode)
      → get m (modify n (restate s a) st.nodes) ≡ some node
      → (x : ExecutionNode) × (get m st.nodes ≡ some x) × ((x ≡ node) ⊎ (restate s a x ≡ node))
  restated_from m node h = elim (Option-cases (get m st.nodes)) [
    | inl e ↦ absurd (ground (arith, get-modify n m (restate s a) st.nodes))
    | inr (x, e) ↦ (x, e, ground (arith, get-modify n m (restate s a) st.nodes))
  ]

  restated_books :
      (m : String) (x : ExecutionNode)
      → NodeBooks m x st.budgets.model_calls
      → NodeBooks m (restate s a x) st.budgets.model_calls
  restated_books m x b = record {
    identity = b.identity;
    books = b.books;
    attempts = b.attempts;
    one_open = b.one_open;
  }

  restate-IsSound : IsSound (record st { nodes = modify n (restate s a) st.nodes })
  restate-IsSound = record {
    mission = sound.mission;
    at_node = λ m node h.
        let (x, e, from) = restated_from m node h in
        let b : NodeBooks m x st.budgets.model_calls = sound.at_node m x e in
        elim from [
          | inl q ↦ subst (λ y. NodeBooks m y st.budgets.model_calls) q b
          | inr q ↦ subst (λ y. NodeBooks m y st.budgets.model_calls) q (restated_books m x b)
        ];
    at_call = λ k r h.
        let o : Owned st.nodes k r = sound.at_call k r h in
        record {
          identity = o.identity;
          owner = owner-modify r.admission.node_id n (restate s a) st.nodes ∙ o.owner;
        };
  }

state-IsSound :
    (s : NodeState) (n : String) (st : ExecutionState)
    → IsSound st
    → IsSound (record st { nodes = modify n (with_state s) st.nodes })
state-IsSound s n st sound = restate-IsSound (λ _. s) (λ x. x.attempts_started) n st sound

set_ready-IsSound :
    (ks : List String) (st : ExecutionState)
    → IsSound st
    → IsSound (record st { nodes = set_ready ks st.nodes })
unfolding set_ready
set_ready-IsSound [] st sound = sound
set_ready-IsSound (k ∷ ks) st sound =
    set_ready-IsSound ks (record st { nodes = modify k (with_state NodeState.ready) st.nodes })
      (state-IsSound NodeState.ready k st sound)

pub refresh-IsSound : (st : ExecutionState) → IsSound st → IsSound (refresh_ready_nodes st)
unfolding refresh_ready_nodes
refresh-IsSound st sound = set_ready-IsSound (ready_ids st.position st.nodes st.node_order) st sound

move-IsSound :
    (c : PhaseContracts) (e : NodeEvent) (st st' : ExecutionState)
    → move c e st ≡ ok st'
    → IsSound st
    → IsSound st'
move-IsSound c (NodeEvent.node_started k attempt) st st' h sound =
    let (node, e, _, _, _, _, _, q) = start_facts k attempt st st' h in
    subst IsSound q (restate-IsSound (λ _. NodeState.active attempt) (λ _. attempt) k st sound)
move-IsSound c (NodeEvent.node_waiting k effect) st st' h sound =
    let (node, attempt, e, was, q) = wait_facts k effect st st' h in
    subst IsSound q (state-IsSound (NodeState.waiting attempt effect) k st sound)
move-IsSound c (NodeEvent.node_resumed k effect) st st' h sound =
    let (node, attempt, e, was, q) = resume_facts k effect st st' h in
    subst IsSound q (state-IsSound (NodeState.active attempt) k st sound)
move-IsSound c (NodeEvent.node_succeeded k proof_id) st st' h sound =
    let (node, proof, _, _, _, _, _, _, q) = succeed_facts c k proof_id st st' h in
    subst IsSound q (
      refresh-IsSound
        (record st { nodes = modify k (with_state (NodeState.succeeded proof_id)) st.nodes })
        (state-IsSound (NodeState.succeeded proof_id) k st sound))
move-IsSound c (NodeEvent.node_failed k revision terminal) st st' h sound =
    let (node, _, _, q) = fail_facts c k revision st st' terminal h in
    subst IsSound q (state-IsSound (failed terminal revision) k st sound)

-- An accepted event that moves a node keeps the ledger sound.
pub apply_graph_event-IsSound :
    (c : PhaseContracts) (e : NodeEvent) (st st' : ExecutionState)
    → IsSound st
    → apply_graph_event c e st ≡ ok st'
    → IsSound st'
unfolding apply_graph_event
apply_graph_event-IsSound c e st st' sound h = move-IsSound c e st st' (ground arith) sound
