-- ===== src/Protocol/Ledger.antt =====
-- The budget ledger of src/execution_protocol/reducer.rs: `apply_budget_event` and the four handlers
-- that it calls. Each returns the whole next state, or the first violation that it meets.
pub mod Guards
pub mod Accounts
pub mod Sound
pub mod Totality
pub mod Lifecycle
pub mod Spending
pub mod Release
pub mod Room
pub mod Check
use rustgrid_agent.Prelude.{
  ℕ, ◌+◌, String, Bool, true, false, not, ◌&&◌, ◌||◌, Option, none, some, List, [], ◌∷◌, ◌==◌, ltb,
  any, if◌then◌else◌,
}
use rustgrid_agent.Words.{u32_max, saturating_add_u32}
use rustgrid_agent.Map.{Map, get, contains_key, insert, modify, values}
use rustgrid_agent.Protocol.Stage.{requires_model}
use rustgrid_agent.Protocol.Violation.{
  Result, ok, err, unknown_node, invalid_node_state, budget_exceeded, model_call_lifecycle,
  reject_if, ok_or, expect, expect_mut, ◌>>=◌, ◌>>◌,
}
use rustgrid_agent.Protocol.Model.{
  NodeState, ModelCallAdmission, ModelCallState, ModelCallRecord, ModelCallReconciliation,
  BudgetUsage, BudgetLedger, ExecutionNode, ExecutionState, PreparedMutation, is_active,
  owns_reservation, is_open,
}
use rustgrid_agent.Protocol.Usage.{
  reserve_usage, release_usage, consume_usage, ensure_usage_capacity, ensure_mission_capacity,
}
use Guards.{
  admission_guards, dispatch_guards, prepared_mutation_for, attempt_already_consumed, trim_is_empty,
}

abbrev pub is_admitted : ModelCallState → Bool
is_admitted ModelCallState.admitted = true
is_admitted _ = false

abbrev pub is_reserved : ModelCallState → Bool
is_reserved ModelCallState.reserved = true
is_reserved _ = false

abbrev pub is_dispatched : ModelCallState → Bool
is_dispatched ModelCallState.dispatched = true
is_dispatched _ = false

unfoldable pub has_open_model_call : ExecutionState → Bool
has_open_model_call st = any (λ r. is_open r.state) (values st.budgets.model_calls)

unfoldable pub has_open_model_call_for_node : Map ModelCallRecord → String → Bool
has_open_model_call_for_node calls node_id =
    any (λ r. r.admission.node_id == node_id && is_open r.state) (values calls)

unfoldable pub ensure_model_call_capacity :
    ExecutionState → ExecutionNode → ModelCallAdmission → Result (Unit {0})
ensure_model_call_capacity st node admission = do
  ensure_usage_capacity node.usage node.budget admission (some node.id)
  ensure_mission_capacity st.budgets.mission_usage st.mission_budget admission

abbrev pub set_calls : ExecutionState → Map ModelCallRecord → ExecutionState
set_calls st calls = record st { budgets = record st.budgets { model_calls = calls } }

abbrev pub set_state : ModelCallState → ModelCallRecord → ModelCallRecord
set_state s r = record r { state = s }

abbrev pub on_usage : (BudgetUsage → BudgetUsage) → ExecutionNode → ExecutionNode
on_usage f node = record node { usage = f node.usage }

unfoldable pub admit_model_call : ModelCallAdmission → ExecutionState → Result ExecutionState
admit_model_call admission st = do
  reject_if (contains_key admission.call_id st.budgets.model_calls)
      (model_call_lifecycle admission.call_id "call_identity_already_exists")
  node ← ok_or (get admission.node_id st.nodes) (unknown_node admission.node_id)
  admission_guards st node admission
  reject_if (not (is_active node.state) || not (requires_model node.kind))
      (invalid_node_state admission.node_id "model_call_admission")
  reject_if (trim_is_empty admission.payload_hash)
      (model_call_lifecycle admission.call_id "payload_hash_missing")
  reject_if (ltb node.budget.max_input_tokens_per_call admission.input_tokens)
      (budget_exceeded (some node.id) "input_tokens_per_call")
  reject_if (ltb node.budget.max_output_tokens_per_call admission.output_tokens)
      (budget_exceeded (some node.id) "output_tokens_per_call")
  reject_if (has_open_model_call_for_node st.budgets.model_calls node.id)
      (model_call_lifecycle admission.call_id "node_already_has_open_call")
  ensure_model_call_capacity st node admission
  ok (
      set_calls st (
        insert admission.call_id (record { admission = admission; state = ModelCallState.admitted })
          st.budgets.model_calls))

unfoldable pub reserve_model_call : String → ExecutionState → Result ExecutionState
reserve_model_call call_id st = do
  r ←
      ok_or (get call_id st.budgets.model_calls)
        (model_call_lifecycle call_id "reservation_without_admission")
  reject_if (not (is_admitted r.state)) (model_call_lifecycle call_id "reservation_not_admitted")
  node ← ok_or (get r.admission.node_id st.nodes) (unknown_node r.admission.node_id)
  reject_if (not (is_active node.state)) (invalid_node_state node.id "reservation_owner_not_active")
  ensure_model_call_capacity st node r.admission
  nodes ←
      expect_mut "reservation node was checked" r.admission.node_id
        (on_usage (λ u. reserve_usage u r.admission)) st.nodes
  calls ←
      expect_mut "model call was checked" call_id (set_state ModelCallState.reserved)
        st.budgets.model_calls
  ok (record st {
    nodes = nodes;
    budgets = record {
      mission_usage = reserve_usage st.budgets.mission_usage r.admission;
      model_calls = calls;
    };
  })

unfoldable pub start_provider_dispatch : String → String → ExecutionState → Result ExecutionState
start_provider_dispatch call_id payload_hash st = do
  dispatch_guards st call_id payload_hash
  r ←
      ok_or (get call_id st.budgets.model_calls)
        (model_call_lifecycle call_id "dispatch_without_reservation")
  reject_if (not (is_reserved r.state)) (model_call_lifecycle call_id "dispatch_not_reserved")
  reject_if (not (r.admission.payload_hash == payload_hash))
      (model_call_lifecycle call_id "dispatch_payload_hash_mismatch")
  ok (set_calls st (modify call_id (set_state ModelCallState.dispatched) st.budgets.model_calls))

-- The mutation attempt that the call belongs to is charged once more.
unfoldable pub charge_attempt : BudgetUsage → BudgetUsage
charge_attempt usage = record usage {
  mutation_attempts = saturating_add_u32 usage.mutation_attempts 1;
}

unfoldable pub attempt_budget_check : ExecutionState → Option PreparedMutation → Result (Unit {0})
attempt_budget_check st none = ok tt
attempt_budget_check st (some p) = do
  node ← ok_or (get p.policy_node_id st.nodes) (unknown_node p.policy_node_id)
  reject_if
      (ltb node.budget.max_mutation_attempts (saturating_add_u32 node.usage.mutation_attempts 1))
      (budget_exceeded (some p.policy_node_id) "mutation_attempts")
  ok tt

unfoldable pub charge_mutation_attempt :
    Option PreparedMutation → ExecutionState → Result ExecutionState
charge_mutation_attempt none st = ok st
charge_mutation_attempt (some p) st = do
  nodes ←
      expect_mut "mutation budget owner was checked" p.policy_node_id (on_usage charge_attempt)
        st.nodes
  ok (record st {
    nodes = nodes;
    budgets = record st.budgets { mission_usage = charge_attempt st.budgets.mission_usage };
  })

-- The writes that both outcomes of a reconciliation share: the owner's usage, the mission's usage
-- and the state of the call.
unfoldable pub settle :
    String
    → ModelCallRecord
    → (BudgetUsage → BudgetUsage)
    → ModelCallState
    → ExecutionState
    → Result ExecutionState
settle call_id r f s st = do
  nodes ← expect_mut "reservation owner exists" r.admission.node_id (on_usage f) st.nodes
  calls ← expect_mut "model call exists" call_id (set_state s) st.budgets.model_calls
  ok (record st {
    nodes = nodes;
    budgets = record { mission_usage = f st.budgets.mission_usage; model_calls = calls };
  })

unfoldable pub reconcile_record :
    String → ModelCallRecord → ModelCallReconciliation → ExecutionState → Result ExecutionState
reconcile_record call_id r (ModelCallReconciliation.consumed actual_cost_micros duration_ms) st = do
  reject_if (not (is_dispatched r.state))
      (model_call_lifecycle call_id "consumed_call_was_not_dispatched")
  reject_if
      (ltb r.admission.reserved_cost_micros actual_cost_micros
        || ltb r.admission.duration_allowance_ms duration_ms)
      (model_call_lifecycle call_id "actual_usage_exceeds_reservation")
  let attempt = prepared_mutation_for call_id st.event_log
  reject_if (attempt_already_consumed attempt st)
      (model_call_lifecycle call_id "mutation_attempt_already_consumed")
  attempt_budget_check st attempt
  st' ←
      settle call_id r (λ u. consume_usage u r.admission actual_cost_micros duration_ms)
        (ModelCallState.reconciled_consumed actual_cost_micros duration_ms) st
  charge_mutation_attempt attempt st'
reconcile_record call_id r ModelCallReconciliation.released_uncontacted st =
    settle call_id r (λ u. release_usage u r.admission) ModelCallState.reconciled_released st

unfoldable pub reconcile_model_call :
    String → ModelCallReconciliation → ExecutionState → Result ExecutionState
reconcile_model_call call_id result st = do
  r ←
      ok_or (get call_id st.budgets.model_calls)
        (model_call_lifecycle call_id "reconciliation_without_admission")
  reject_if (not (owns_reservation r.state))
      (model_call_lifecycle call_id "reservation_already_reconciled")
  reconcile_record call_id r result st

pub data BudgetEvent : Type 0 where
  model_call_admitted : ModelCallAdmission → BudgetEvent
  model_call_reserved : String → BudgetEvent
  provider_dispatch_started : String → String → BudgetEvent
  model_call_reconciled : String → ModelCallReconciliation → BudgetEvent

unfoldable pub apply_budget_event : BudgetEvent → ExecutionState → Result ExecutionState
apply_budget_event (BudgetEvent.model_call_admitted admission) st = admit_model_call admission st
apply_budget_event (BudgetEvent.model_call_reserved call_id) st = reserve_model_call call_id st
apply_budget_event (BudgetEvent.provider_dispatch_started call_id payload_hash) st =
    start_provider_dispatch call_id payload_hash st
apply_budget_event (BudgetEvent.model_call_reconciled call_id result) st =
    reconcile_model_call call_id result st
