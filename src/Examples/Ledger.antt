-- ===== src/Examples/Ledger.antt =====
-- One model call of a review node, from its admission to its reconciliation, for the ledger of
-- src/execution_protocol/reducer.rs.
use rustgrid_agent.Prelude.{
  ◌≤◌, String, ◌≡◌, refl, ◌↔◌, true, false, none, some, [], ◌∷◌, arith, eq_iff,
}
use rustgrid_agent.Words.{saturating_add_u32, saturating_add_u64, saturating_sub}
use rustgrid_agent.Map.{get, contains_key, insert, modify, values}
use rustgrid_agent.Map.Sums.{total}
use rustgrid_agent.Protocol.Stage.{ProtocolStage, NodeKind, requires_model}
use rustgrid_agent.Protocol.Violation.{Returns, ok, err, expect_mut, model_call_lifecycle}
use rustgrid_agent.Protocol.Model.{
  MissionBudgetContract, NodeBudgetContract, BudgetUsage, no_usage, NodeState, ExecutionNode,
  ModelCallAdmission, ModelCallState, ModelCallReconciliation, ExecutionState, owns_reservation,
  is_open,
}
use rustgrid_agent.Protocol.Usage.{
  reserve_usage, release_usage, consume_usage, ensure_usage_capacity, ensure_mission_capacity,
}
use rustgrid_agent.Protocol.Ledger.{
  set_calls, BudgetEvent, apply_budget_event, admit_model_call, reserve_model_call,
  start_provider_dispatch, reconcile_model_call, reconcile_record, settle,
  ensure_model_call_capacity, has_open_model_call_for_node, attempt_budget_check,
  charge_mutation_attempt,
}
use rustgrid_agent.Protocol.Ledger.Guards.{
  trim_is_empty, is_whitespace, admission_guards, guards_by_kind, review_guard, dispatch_guards,
  payload_mismatch, review_payload_mismatch, mutation_dispatch_guard, prepared_mutation_for,
  attempt_already_consumed,
}
use rustgrid_agent.Protocol.Ledger.Sound.{IsSound, NodeBooks}
use rustgrid_agent.Protocol.Ledger.Spending.{
  apply_budget_event-IsSound, Reaches, committed_calls, committed_cost, committed_duration,
  spending_bounded, reconciled_final,
}
use rustgrid_agent.Protocol.Ledger.Lifecycle.{Moved, apply_budget_event-Moved}
use rustgrid_agent.Protocol.Ledger.Totality.{apply_budget_event-Returns}
use rustgrid_agent.Protocol.Ledger.Release.{Restored, reconcile-reserve_model_call}
use rustgrid_agent.Protocol.Usage.Capacity.{IsProper, HasRoom, node_limits, mission_limits}
use rustgrid_agent.Protocol.Ledger.Room.{ensure_model_call_capacity_exact}

abbrev pub mission_contract : MissionBudgetContract
mission_contract = record { max_model_calls = 10; max_cost_micros = 5000; max_duration_ms = 60000 }

abbrev pub node_contract : NodeBudgetContract
node_contract = record {
  max_model_calls = 2;
  max_cost_micros = 1000;
  max_duration_ms = 20000;
  max_mutation_attempts = 1;
  max_context_rebuilds = 1;
  max_input_tokens_per_call = 800;
  max_output_tokens_per_call = 200;
}

abbrev pub review_node : ExecutionNode
review_node = record {
  id = "review";
  kind = NodeKind.review;
  required = true;
  dependencies = [];
  budget = node_contract;
  usage = no_usage;
  state = NodeState.active 1;
  attempts_started = 1;
}

abbrev pub fresh : ExecutionState
fresh = record {
  position = ProtocolStage.review;
  repository_revision = "r0";
  latest_transition_proof = none;
  validation_policy = false;
  finalization_policy = false;
  terminal = none;
  mission_budget = mission_contract;
  nodes = ("review", review_node) ∷ [];
  node_order = "review" ∷ [];
  proofs = [];
  repository_profile = none;
  discovery = none;
  current_discovery_action = none;
  planning = none;
  current_planning_action = none;
  implementation = none;
  validation = none;
  review = none;
  publication = none;
  budgets = record { mission_usage = no_usage; model_calls = [] };
  event_log = [];
}

abbrev pub call : ModelCallAdmission
call = record {
  call_id = "call";
  node_id = "review";
  action_id = "action";
  payload_hash = "hash";
  input_tokens = 700;
  output_tokens = 100;
  reserved_cost_micros = 600;
  duration_allowance_ms = 9000;
}

fresh_node :
    (n : String) (node : ExecutionNode) → get n fresh.nodes ≡ some node → NodeBooks n node []
unfolding get total
fresh_node n node h = ground (arith, eq_iff "review" n)

fresh-IsSound : IsSound fresh
unfolding total get
fresh-IsSound = record {
  mission = ground arith;
  at_node = fresh_node;
  at_call = λ k r h. absurd (ground arith);
}

abbrev admitted : ExecutionState
admitted = record fresh {
  budgets = record {
    mission_usage = no_usage;
    model_calls = ("call", record { admission = call; state = ModelCallState.admitted }) ∷ [];
  };
}

admitted_eq : apply_budget_event (BudgetEvent.model_call_admitted call) fresh ≡ ok admitted
unfolding apply_budget_event admit_model_call get contains_key insert values requires_model
    trim_is_empty is_whitespace admission_guards guards_by_kind review_guard
    ensure_model_call_capacity ensure_usage_capacity ensure_mission_capacity
    has_open_model_call_for_node saturating_add_u32 saturating_add_u64
admitted_eq = refl

-- The usage of the node and of the mission, and the state of the call.
abbrev with_call : BudgetUsage → ModelCallState → ExecutionState
with_call usage s = record fresh {
  nodes = ("review", record review_node { usage = usage }) ∷ [];
  budgets = record {
    mission_usage = usage;
    model_calls = ("call", record { admission = call; state = s }) ∷ [];
  };
}

abbrev reserved_usage : BudgetUsage
reserved_usage = record no_usage {
  model_calls_reserved = 1;
  cost_micros_reserved = 600;
  duration_ms_reserved = 9000;
}

abbrev consumed_usage : BudgetUsage
consumed_usage = record no_usage {
  model_calls_consumed = 1;
  cost_micros_consumed = 450;
  duration_ms_consumed = 8000;
}

abbrev reserved : ExecutionState
reserved = with_call reserved_usage ModelCallState.reserved

abbrev dispatched : ExecutionState
dispatched = with_call reserved_usage ModelCallState.dispatched

abbrev spent : ExecutionState
spent = with_call consumed_usage (ModelCallState.reconciled_consumed 450 8000)

abbrev actual : ModelCallReconciliation
actual = ModelCallReconciliation.consumed 450 8000

reserved_eq : apply_budget_event (BudgetEvent.model_call_reserved "call") admitted ≡ ok reserved
unfolding apply_budget_event reserve_model_call get modify expect_mut ensure_model_call_capacity
    ensure_usage_capacity ensure_mission_capacity reserve_usage saturating_add_u32
    saturating_add_u64
reserved_eq = refl

dispatched_eq :
    apply_budget_event (BudgetEvent.provider_dispatch_started "call" "hash") reserved
    ≡ ok dispatched
unfolding apply_budget_event start_provider_dispatch get modify dispatch_guards payload_mismatch
    review_payload_mismatch mutation_dispatch_guard prepared_mutation_for
dispatched_eq = refl

spent_eq :
    apply_budget_event (BudgetEvent.model_call_reconciled "call" actual) dispatched ≡ ok spent
unfolding apply_budget_event reconcile_model_call reconcile_record settle get modify expect_mut
    owns_reservation prepared_mutation_for attempt_already_consumed attempt_budget_check
    charge_mutation_attempt consume_usage release_usage saturating_add_u32 saturating_add_u64
    saturating_sub
spent_eq = refl

-- A call that is reconciled is not reconciled again.
spent_once :
    apply_budget_event (BudgetEvent.model_call_reconciled "call" actual) spent
    ≡ err (model_call_lifecycle "call" "reservation_already_reconciled")
unfolding apply_budget_event reconcile_model_call get owns_reservation
spent_once = refl

Reaches-spent : Reaches fresh spent
Reaches-spent =
    Reaches.next (BudgetEvent.model_call_reconciled "call" actual)
      (Reaches.next (BudgetEvent.provider_dispatch_started "call" "hash")
        (Reaches.next (BudgetEvent.model_call_reserved "call")
          (Reaches.next (BudgetEvent.model_call_admitted call) Reaches.here admitted_eq)
          reserved_eq)
        dispatched_eq)
      spent_eq

spending_bounded_example :
    (committed_calls spent ≤ 10)
    × (committed_cost spent ≤ 5000)
    × (committed_duration spent ≤ 60000)
spending_bounded_example = spending_bounded fresh spent fresh-IsSound Reaches-spent

apply_budget_event-IsSound_example : IsSound admitted
apply_budget_event-IsSound_example =
    apply_budget_event-IsSound (BudgetEvent.model_call_admitted call) fresh admitted fresh-IsSound
      admitted_eq

-- Later the node admits a second call.
abbrev second : ModelCallAdmission
second = record call { call_id = "second"; reserved_cost_micros = 500 }

abbrev pub continued : ExecutionState
continued = set_calls spent (
    ("call", record { admission = call; state = ModelCallState.reconciled_consumed 450 8000 })
    ∷ ("second", record { admission = second; state = ModelCallState.admitted })
    ∷ [])

continued_eq : apply_budget_event (BudgetEvent.model_call_admitted second) spent ≡ ok continued
unfolding apply_budget_event admit_model_call get contains_key insert values requires_model
    trim_is_empty is_whitespace admission_guards guards_by_kind review_guard
    ensure_model_call_capacity ensure_usage_capacity ensure_mission_capacity
    has_open_model_call_for_node saturating_add_u32 saturating_add_u64 is_open
continued_eq = refl

reconciled_final_example :
    get "call" continued.budgets.model_calls ≡ get "call" spent.budgets.model_calls
unfolding get
reconciled_final_example =
    reconciled_final "call" (ModelCallState.reconciled_consumed 450 8000) spent continued refl refl
      (Reaches.next (BudgetEvent.model_call_admitted second) Reaches.here continued_eq)

apply_budget_event-Moved_example : Moved "call" dispatched spent
apply_budget_event-Moved_example =
    apply_budget_event-Moved (BudgetEvent.model_call_reconciled "call" actual) dispatched spent
      spent_eq

apply_budget_event-Returns_example :
    Returns (apply_budget_event (BudgetEvent.model_call_admitted call) fresh)
apply_budget_event-Returns_example =
    apply_budget_event-Returns (BudgetEvent.model_call_admitted call) fresh fresh-IsSound

reserve_eq : reserve_model_call "call" admitted ≡ ok reserved
unfolding reserve_model_call get modify expect_mut ensure_model_call_capacity ensure_usage_capacity
    ensure_mission_capacity reserve_usage saturating_add_u32 saturating_add_u64
reserve_eq = refl

reconcile-reserve_model_call_example :
    (last : ExecutionState) × (reconcile_model_call "call"
        ModelCallReconciliation.released_uncontacted reserved
      ≡ ok last)
    × Restored "call" admitted last
reconcile-reserve_model_call_example =
    reconcile-reserve_model_call "call" admitted reserved apply_budget_event-IsSound_example
      reserve_eq

pub IsProper-node : IsProper (node_limits node_contract)
IsProper-node = ground arith

pub IsProper-mission : IsProper (mission_limits mission_contract)
IsProper-mission = ground arith

ensure_model_call_capacity_exact_example :
    (ensure_model_call_capacity spent review_node second ≡ ok tt) ↔ (
      HasRoom no_usage (node_limits node_contract) second
      × HasRoom consumed_usage (mission_limits mission_contract) second)
ensure_model_call_capacity_exact_example =
    ensure_model_call_capacity_exact spent review_node second IsProper-node IsProper-mission
