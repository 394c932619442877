-- ===== src/Protocol/Model.antt =====
-- The state of src/execution_protocol/model.rs, as far as the graph and the budget ledger read it.
-- Of the phases' own states it keeps the parts that the modelled handlers look at.
use rustgrid_agent.Prelude.{
  ℕ, String, Bool, true, false, ◌&&◌, ◌⊎◌, Option, none, some, List, [], ◌∷◌, ◌==◌, nat_eq, find,
}
use rustgrid_agent.Map.{Map, get}
use rustgrid_agent.Protocol.Stage.{ProtocolStage, NodeKind, ProofKind, proof_kind_eq}
use rustgrid_agent.Protocol.Violation.{ProtocolViolation}

pub data NodeState : Type 0 where
  pending ready : NodeState
  active : ℕ → NodeState
  waiting : ℕ → String → NodeState
  succeeded : String → NodeState
  failed_recoverable failed_terminal : String → NodeState
  superseded : String → NodeState
  skipped : String → NodeState

unfoldable pub owns_execution : NodeState → Bool
owns_execution (NodeState.active attempt) = true
owns_execution (NodeState.waiting attempt effect_id) = true
owns_execution _ = false

unfoldable pub satisfies_dependency : NodeState → Bool
satisfies_dependency (NodeState.succeeded proof_id) = true
satisfies_dependency (NodeState.skipped proof_id) = true
satisfies_dependency _ = false

abbrev pub is_active : NodeState → Bool
is_active (NodeState.active attempt) = true
is_active _ = false

pub record MissionBudgetContract : Type 0 where
  pub max_model_calls : ℕ  -- u32
  pub max_cost_micros : ℕ  -- u64
  pub max_duration_ms : ℕ  -- u64

pub record NodeBudgetContract : Type 0 where
  pub max_model_calls : ℕ  -- u32
  pub max_cost_micros : ℕ  -- u64
  pub max_duration_ms : ℕ  -- u64
  pub max_mutation_attempts : ℕ  -- u32
  pub max_context_rebuilds : ℕ  -- u32
  pub max_input_tokens_per_call : ℕ  -- u32
  pub max_output_tokens_per_call : ℕ  -- u32

pub record BudgetUsage : Type 0 where
  pub model_calls_reserved : ℕ  -- u32
  pub model_calls_consumed : ℕ  -- u32
  pub cost_micros_reserved : ℕ  -- u64
  pub cost_micros_consumed : ℕ  -- u64
  pub duration_ms_reserved : ℕ  -- u64
  pub duration_ms_consumed : ℕ  -- u64
  pub mutation_attempts : ℕ  -- u32
  pub context_rebuilds : ℕ  -- u32

-- `BudgetUsage::default()`
abbrev pub no_usage : BudgetUsage
no_usage = record {
  model_calls_reserved = 0;
  model_calls_consumed = 0;
  cost_micros_reserved = 0;
  cost_micros_consumed = 0;
  duration_ms_reserved = 0;
  duration_ms_consumed = 0;
  mutation_attempts = 0;
  context_rebuilds = 0;
}

pub record NodeSpec : Type 0 where
  pub id : String
  pub kind : NodeKind
  pub required : Bool
  pub dependencies : List String
  pub budget : NodeBudgetContract

pub record ExecutionNode : Type 0 where
  pub id : String
  pub kind : NodeKind
  pub required : Bool
  pub dependencies : List String
  pub budget : NodeBudgetContract
  pub usage : BudgetUsage
  pub state : NodeState
  pub attempts_started : ℕ  -- u32

-- `impl From<NodeSpec> for ExecutionNode`
unfoldable pub from_spec : NodeSpec → ExecutionNode
from_spec spec = record {
  id = spec.id;
  kind = spec.kind;
  required = spec.required;
  dependencies = spec.dependencies;
  budget = spec.budget;
  usage = no_usage;
  state = NodeState.pending;
  attempts_started = 0;
}

pub record ProofRecord : Type 0 where
  pub id : String
  pub kind : ProofKind
  pub repository_revision : String
  pub node_ids : List String
  pub related_proof_ids : List String
  pub related_evidence_ids : List String
  pub detail_hash : String

pub record ModelCallAdmission : Type 0 where
  pub call_id : String
  pub node_id : String
  pub action_id : String
  pub payload_hash : String
  pub input_tokens : ℕ  -- u32
  pub output_tokens : ℕ  -- u32
  pub reserved_cost_micros : ℕ  -- u64
  pub duration_allowance_ms : ℕ  -- u64

-- The derived `PartialEq`.
unfoldable pub admission_eq : ModelCallAdmission → ModelCallAdmission → Bool
admission_eq a b =
    a.call_id == b.call_id
    && a.node_id == b.node_id
    && a.action_id == b.action_id
    && a.payload_hash == b.payload_hash
    && nat_eq a.input_tokens b.input_tokens
    && nat_eq a.output_tokens b.output_tokens
    && nat_eq a.reserved_cost_micros b.reserved_cost_micros
    && nat_eq a.duration_allowance_ms b.duration_allowance_ms

pub data ModelCallState : Type 0 where
  admitted reserved dispatched : ModelCallState
  reconciled_consumed : ℕ → ℕ → ModelCallState
  reconciled_released : ModelCallState

unfoldable pub owns_reservation : ModelCallState → Bool
owns_reservation ModelCallState.reserved = true
owns_reservation ModelCallState.dispatched = true
owns_reservation _ = false

-- `matches!(state, Admitted | Reserved | Dispatched)`
unfoldable pub is_open : ModelCallState → Bool
is_open ModelCallState.admitted = true
is_open ModelCallState.reserved = true
is_open ModelCallState.dispatched = true
is_open _ = false

pub record ModelCallRecord : Type 0 where
  pub admission : ModelCallAdmission
  pub state : ModelCallState

pub data ModelCallReconciliation : Type 0 where
  consumed : ℕ → ℕ → ModelCallReconciliation
  released_uncontacted : ModelCallReconciliation

pub record BudgetLedger : Type 0 where
  pub mission_usage : BudgetUsage
  pub model_calls : Map ModelCallRecord

-- A prepared action of discovery, planning or review: the provider envelope's payload identity and
-- call, and the admission.
pub record PreparedAction : Type 0 where
  pub payload_identity : String
  pub envelope_call_id : String
  pub admission : ModelCallAdmission

-- A prepared mutation action. `request_payload_hash` is what hashing its provider
-- request gives, an error or the hash.
pub record PreparedMutation : Type 0 where
  pub request_payload_hash : ProtocolViolation ⊎ String
  pub request_call_id : String
  pub policy_node_id : String
  pub policy_attempt_id : String
  pub admission : ModelCallAdmission

-- The payloads of committed events that the ledger and the graph look for.
pub data LoggedEvent : Type 0 where
  mutation_prepared : PreparedMutation → LoggedEvent
  target_context_superseded : String → LoggedEvent
  nodes_added : String → List NodeSpec → LoggedEvent
  repair_node_added : String → LoggedEvent  -- the proof of its eligibility
  other : LoggedEvent

-- The variants that carry evidence are told apart by name only where nothing reads the evidence.
pub data DiscoveryConvergence : Type 0 where
  impact_map_accepted : String → DiscoveryConvergence
  evidence_sufficient insufficient_evidence budget_blocked : DiscoveryConvergence

-- `impact_map` is the evidence id of the map.
pub record DiscoveryState : Type 0 where
  pub node_id : String
  pub repository_profile_id : String
  pub impact_map : Option String
  pub convergence : Option DiscoveryConvergence

-- `accepted_plan`, `accepted_no_op` and `convergence` say whether there is one.
pub record PlanningState : Type 0 where
  pub node_id : String
  pub accepted_plan : Bool
  pub accepted_no_op : Bool
  pub convergence : Bool

-- `next_gate_node_id` is the node of `next_gate()`, `selected_repair_node_id` the repair node of the
-- selection for the active failure. `convergence` is the failure revision of the convergence,
-- `current_failure` the node and the failure revision of `current_failure()`.
pub record ValidationState : Type 0 where
  pub next_gate_node_id : Option String
  pub selected_repair_node_id : Option String
  pub convergence : Option String
  pub current_failure : Option (String × String)
  pub pending_rerun : Bool  -- whether there is one

-- `current_action` is the open action, if there is one; `eligibility` says whether there is one;
-- `convergence` is what `review_convergence_failure_revision` gives for the convergence.
pub record ReviewState : Type 0 where
  pub current_action : Option PreparedAction
  pub eligibility : Bool
  pub convergence : Option String

-- `convergence` is what `publication_convergence_failure_revision` gives for the convergence.
pub record PublicationState : Type 0 where
  pub convergence : Option String

-- The mission's result, with the outcome's own data as one text, and the health of the process.
pub record CanonicalResult : Type 0 where
  pub mission : String
  pub process_health : String
  pub reason_code : String
  pub repository_revision : String
  pub remaining_work : List String

-- `validation_policy` and `finalization_policy` say whether there is one.
pub record ExecutionState : Type 0 where
  pub position : ProtocolStage
  pub repository_revision : String
  pub latest_transition_proof : Option String
  pub validation_policy : Bool
  pub finalization_policy : Bool
  pub terminal : Option CanonicalResult
  pub mission_budget : MissionBudgetContract
  pub nodes : Map ExecutionNode
  pub node_order : List String
  pub proofs : Map ProofRecord
  pub repository_profile : Option String
  pub discovery : Option DiscoveryState
  pub current_discovery_action : Option PreparedAction
  pub planning : Option PlanningState
  pub current_planning_action : Option PreparedAction
  pub implementation : Option (Unit {0})
  pub validation : Option ValidationState
  pub review : Option ReviewState
  pub publication : Option PublicationState
  pub budgets : BudgetLedger
  pub event_log : List LoggedEvent

-- The nodes of `node_order` that exist, in that order.
unfoldable pub ordered_nodes : Map ExecutionNode → List String → List ExecutionNode
ordered_nodes m [] = []
ordered_nodes m (k ∷ ks) =
    let rest = ordered_nodes m ks in elim (get k m) [ none ↦ rest | some n ↦ n ∷ rest ]

unfoldable pub active_node : ExecutionState → Option ExecutionNode
unfolding ordered_nodes owns_execution
active_node st = find (λ n. owns_execution n.state) (ordered_nodes st.nodes st.node_order)

unfoldable pub names_eq : List String → List String → Bool
names_eq [] [] = true
names_eq (x ∷ xs) (y ∷ ys) = x == y && names_eq xs ys
names_eq _ _ = false

-- The derived `PartialEq`.
unfoldable pub proof_eq : ProofRecord → ProofRecord → Bool
unfolding names_eq
proof_eq a b =
    a.id == b.id
    && proof_kind_eq a.kind b.kind
    && a.repository_revision == b.repository_revision
    && names_eq a.node_ids b.node_ids
    && names_eq a.related_proof_ids b.related_proof_ids
    && names_eq a.related_evidence_ids b.related_evidence_ids
    && a.detail_hash == b.detail_hash
