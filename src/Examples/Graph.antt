-- ===== src/Examples/Graph.antt =====
-- A planning node that is started, waits and resumes, and asks for a model call, for the graph of
-- src/execution_protocol/reducer.rs.
use mathlib.Core.Path.{subst}
use rustgrid_agent.Prelude.{
  ◌⊎◌, inl, inr, ℕ, String, ◌≡◌, refl, true, false, some, [], ◌∷◌, arith, eq_iff,
}
use rustgrid_agent.Words.{saturating_add_u32}
use rustgrid_agent.Map.{get, modify, values}
use rustgrid_agent.Protocol.Stage.{ProtocolStage, NodeKind, ProofKind, stage, proof_satisfies_node}
use rustgrid_agent.Protocol.Violation.{ok, err, expect_mut, invariant}
use rustgrid_agent.Protocol.Model.{
  no_usage, NodeState, ExecutionNode, ProofRecord, ExecutionState, owns_execution,
  satisfies_dependency, active_node, ordered_nodes,
}
use rustgrid_agent.Protocol.Ledger.{has_open_model_call_for_node}
use rustgrid_agent.Protocol.Graph.{
  NodeEvent, apply_graph_event, start_node, wait_node, resume_node, is_satisfied,
  check_dependencies, ensure_dependencies_satisfied,
}
use rustgrid_agent.Protocol.Graph.Guards.{PhaseContracts, start_guards, suspension_guards}
use rustgrid_agent.Protocol.Graph.Orderly.{IsPlaced, IsOrderly}
use rustgrid_agent.Protocol.Graph.Events.{apply_graph_event-IsOrderly, resume-wait_node}
use rustgrid_agent.Protocol.Model.{ModelCallAdmission, ModelCallState}
use rustgrid_agent.Words.{saturating_add_u64}
use rustgrid_agent.Map.{contains_key, insert}
use rustgrid_agent.Map.Sums.{total}
use rustgrid_agent.Prelude.{◌≤◌}
use rustgrid_agent.Protocol.Stage.{requires_model}
use rustgrid_agent.Protocol.Usage.{ensure_usage_capacity, ensure_mission_capacity}
use rustgrid_agent.Protocol.Ledger.{
  BudgetEvent, apply_budget_event, admit_model_call, ensure_model_call_capacity,
}
use rustgrid_agent.Protocol.Ledger.Guards.{
  trim_is_empty, is_whitespace, admission_guards, guards_by_kind,
}
use rustgrid_agent.Protocol.Ledger.Sound.{IsSound, NodeBooks}
use rustgrid_agent.Protocol.Ledger.Spending.{committed_calls, committed_cost, committed_duration}
use rustgrid_agent.Protocol.Graph.Advance.{TransitionContracts}
use rustgrid_agent.Protocol.History.{DomainEvent, apply_payload, History, events_bounded}
use rustgrid_agent.Examples.Ledger.{call, fresh, node_contract}

-- Phases that expect no proof and have no mutation.
abbrev pub quiet : PhaseContracts
quiet = record {
  accepted_plan_graph_exists = λ st proof_id. true;
  validation_pass_proof = λ st node_id. err (invariant "none");
  review_completion_proof = λ st. err (invariant "none");
  completion_evaluation_proof = λ st. err (invariant "none");
  publication_completion_proof = λ st. err (invariant "none");
  mutation_terminal_failure_revision = λ st node_id. err (invariant "none");
  mutation_converged = λ st node_id. false;
}

-- Phases that expect no proof and no state of their own, and accept every result.
abbrev pub settled : TransitionContracts
settled = record {
  validation_failure_proof = λ st. err (invariant "none");
  validation_rerun_proof = λ st. err (invariant "none");
  required_validation_proof = λ st. err (invariant "none");
  publication_eligibility_proof = λ st. err (invariant "none");
  new_planning = λ st. err (invariant "none");
  new_implementation = λ st. err (invariant "none");
  new_validation = λ st. err (invariant "none");
  validate_finalization_policy = λ st. ok tt;
  new_review = λ st review completion. err (invariant "none");
  new_publication = λ st publication. err (invariant "none");
  validate_terminal_mission = λ st result source_stage. ok tt;
}

abbrev pub impact_map : ProofRecord
impact_map = record {
  id = "map";
  kind = ProofKind.discovery_impact_map;
  repository_revision = "r0";
  node_ids = "discovery" ∷ [];
  related_proof_ids = [];
  related_evidence_ids = [];
  detail_hash = "hash";
}

abbrev pub discovery_node : ExecutionNode
discovery_node = record {
  id = "discovery";
  kind = NodeKind.discovery;
  required = true;
  dependencies = [];
  budget = node_contract;
  usage = no_usage;
  state = NodeState.succeeded "map";
  attempts_started = 1;
}

abbrev pub planning_node : NodeState → ℕ → ExecutionNode
planning_node s attempts = record {
  id = "planning";
  kind = NodeKind.planning;
  required = true;
  dependencies = "discovery" ∷ [];
  budget = node_contract;
  usage = no_usage;
  state = s;
  attempts_started = attempts;
}

abbrev pub planning_in : NodeState → ℕ → ExecutionState
planning_in s attempts = record fresh {
  position = ProtocolStage.planning;
  nodes = ("discovery", discovery_node) ∷ ("planning", planning_node s attempts) ∷ [];
  node_order = "discovery" ∷ "planning" ∷ [];
  proofs = ("map", impact_map) ∷ [];
}

abbrev pub ready : ExecutionState
ready = planning_in NodeState.ready 0

abbrev pub running : ExecutionState
running = planning_in (NodeState.active 1) 1

abbrev waiting : ExecutionState
waiting = planning_in (NodeState.waiting 1 "effect") 1

nodes_of_ready :
    (n : String) (node : ExecutionNode)
    → get n ready.nodes ≡ some node
    → (("discovery" ≡ n) × (discovery_node ≡ node))
      ⊎ (("planning" ≡ n) × (planning_node NodeState.ready 0 ≡ node))
unfolding get
nodes_of_ready n node h = ground (arith, eq_iff "discovery" n, eq_iff "planning" n)

discovery-IsPlaced : IsPlaced ready "discovery" discovery_node
unfolding get owns_execution stage proof_satisfies_node
discovery-IsPlaced = record {
  identity = refl;
  listed = refl;
  in_stage = λ h. absurd (cc h);
  supported = λ h. refl;
  counted = refl;
  proved = refl;
}

planning-IsPlaced : IsPlaced ready "planning" (planning_node NodeState.ready 0)
unfolding get is_satisfied owns_execution satisfies_dependency
planning-IsPlaced = record {
  identity = refl;
  listed = refl;
  in_stage = λ h. absurd (cc h);
  supported = λ h. refl;
  counted = refl;
  proved = refl;
}

at_ready :
    (n : String) (node : ExecutionNode) → get n ready.nodes ≡ some node → IsPlaced ready n node
at_ready n node h = elim (nodes_of_ready n node h) [
  | inl (k, x) ↦
      subst (λ y. IsPlaced ready n y) x
        (subst (λ i. IsPlaced ready i discovery_node) k discovery-IsPlaced)
  | inr (k, x) ↦
      subst (λ y. IsPlaced ready n y) x
        (subst (λ i. IsPlaced ready i (planning_node NodeState.ready 0)) k planning-IsPlaced)
]

idle_ready :
    (n : String) (node : ExecutionNode)
    → get n ready.nodes ≡ some node
    → owns_execution node.state ≡ false
unfolding get owns_execution
idle_ready n node h = ground (arith, eq_iff "discovery" n, eq_iff "planning" n)

pub ready-IsOrderly : IsOrderly ready
ready-IsOrderly = record {
  at_node = at_ready;
  one_owner = λ n m a b ha hb oa ob. absurd (cc (idle_ready n a ha, oa));
}

started_eq : apply_graph_event quiet (NodeEvent.node_started "planning" 1) ready ≡ ok running
unfolding apply_graph_event start_node get modify expect_mut active_node ordered_nodes
    owns_execution start_guards ensure_dependencies_satisfied check_dependencies
    satisfies_dependency stage saturating_add_u32
started_eq = refl

apply_graph_event-IsOrderly_example : IsOrderly running
apply_graph_event-IsOrderly_example =
    apply_graph_event-IsOrderly quiet (NodeEvent.node_started "planning" 1) ready running
      ready-IsOrderly started_eq

waiting_eq : wait_node "planning" "effect" running ≡ ok waiting
unfolding wait_node get modify suspension_guards has_open_model_call_for_node values
waiting_eq = refl

resume-wait_node_example :
    (last : ExecutionState) × (resume_node "planning" "effect" waiting ≡ ok last)
    × ((j : String) → get j last.nodes ≡ get j running.nodes)
resume-wait_node_example = resume-wait_node "planning" "effect" running waiting waiting_eq

ready_books :
    (n : String) (node : ExecutionNode) → get n ready.nodes ≡ some node → NodeBooks n node []
unfolding get total
ready_books n node h = ground (arith, eq_iff "discovery" n, eq_iff "planning" n)

ready-IsSound : IsSound ready
unfolding get total
ready-IsSound = record {
  mission = ground arith;
  at_node = ready_books;
  at_call = λ k r h. absurd (ground arith);
}

abbrev planning_call : ModelCallAdmission
planning_call = record call { node_id = "planning" }

abbrev asked : ExecutionState
asked = record running {
  budgets = record {
    mission_usage = no_usage;
    model_calls =
        ("call", record { admission = planning_call; state = ModelCallState.admitted }) ∷ [];
  };
}

asked_eq :
    apply_payload quiet settled
      (DomainEvent.budget (BudgetEvent.model_call_admitted planning_call))
      running
    ≡ ok asked
unfolding apply_payload apply_budget_event admit_model_call get contains_key insert values
    requires_model trim_is_empty is_whitespace admission_guards guards_by_kind
    ensure_model_call_capacity ensure_usage_capacity ensure_mission_capacity
    has_open_model_call_for_node saturating_add_u32 saturating_add_u64
asked_eq = refl

start_eq :
    apply_payload quiet settled (DomainEvent.graph (NodeEvent.node_started "planning" 1)) ready
    ≡ ok running
unfolding apply_payload
start_eq = started_eq

events_bounded_example :
    IsOrderly asked
    × (committed_calls asked ≤ 10)
    × (committed_cost asked ≤ 5000)
    × (committed_duration asked ≤ 60000)
events_bounded_example = events_bounded quiet settled ready asked ready-IsSound ready-IsOrderly (
    History.accepted (DomainEvent.budget (BudgetEvent.model_call_admitted planning_call))
      (History.accepted (DomainEvent.graph (NodeEvent.node_started "planning" 1)) History.opened
        start_eq)
      asked_eq)
