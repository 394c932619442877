-- ===== src/Protocol/Ledger/Check.antt =====
-- `validate_budget_invariants` of src/execution_protocol/reducer.rs: the test of a whole ledger
-- against its calls and its log.
pub mod Books
pub mod Calls
pub mod Counts
pub mod Tally
use rustgrid_agent.Prelude.{
  ℕ, ◌+◌, String, Bool, true, false, not, ◌&&◌, ◌||◌, Option, none, some, List, [], ◌∷◌, ◌==◌, ltb,
  nat_eq, any, is_some_and, if◌then◌else◌,
}
use rustgrid_agent.Words.{saturating_add_u32, saturating_add_u64}
use rustgrid_agent.Map.{Map, get, insert, modify, values}
use rustgrid_agent.Protocol.Stage.{requires_model}
use rustgrid_agent.Protocol.Violation.{
  Result, ok, err, invariant, unknown_node, model_call_lifecycle, budget_exceeded, reject_if, ok_or,
  expect, ◌>>=◌, ◌>>◌,
}
use rustgrid_agent.Protocol.Model.{
  BudgetUsage, no_usage, ModelCallAdmission, ModelCallState, ModelCallRecord, ExecutionNode,
  ExecutionState, LoggedEvent, is_active, is_open,
}
use rustgrid_agent.Protocol.Usage.{
  reserve_usage, validate_usage_limits, validate_mission_usage_limits,
}
use rustgrid_agent.Protocol.Ledger.{charge_attempt}
use rustgrid_agent.Protocol.Ledger.Guards.{trim_is_empty, is_consumed}

abbrev pub or_default : Option ℕ → ℕ
or_default none = 0
or_default (some n) = n

-- An open call belongs to an active node, and is its only one.
unfoldable pub count_open : String → ExecutionNode → ModelCallState → Map ℕ → Result (Map ℕ)
count_open call_id node s open_calls =
    if is_open s
    then (do
      reject_if (not (is_active node.state))
          (model_call_lifecycle call_id "open_call_owner_is_not_active")
      let open_count = saturating_add_u64 (or_default (get node.id open_calls)) 1
      reject_if (ltb 1 open_count) (model_call_lifecycle call_id "node_has_multiple_open_calls")
      ok (insert node.id open_count open_calls))
    else ok open_calls

abbrev pub overspent : ModelCallState → ModelCallAdmission → Bool
overspent (ModelCallState.reconciled_consumed actual_cost_micros duration_ms) a =
    ltb a.reserved_cost_micros actual_cost_micros || ltb a.duration_allowance_ms duration_ms
overspent _ a = false

unfoldable pub check_calls : Map ExecutionNode → Map ModelCallRecord → Map ℕ → Result (Unit {0})
check_calls nodes [] open_calls = ok tt
check_calls nodes ((call_id, r) ∷ calls) open_calls = do
  reject_if (not (call_id == r.admission.call_id))
      (invariant "model_call_map_key_identity_mismatch")
  node ← ok_or (get r.admission.node_id nodes) (unknown_node r.admission.node_id)
  reject_if (not (requires_model node.kind))
      (model_call_lifecycle call_id "model_call_owned_by_deterministic_node")
  reject_if (trim_is_empty r.admission.payload_hash)
      (model_call_lifecycle call_id "payload_hash_missing")
  reject_if (ltb node.budget.max_input_tokens_per_call r.admission.input_tokens)
      (budget_exceeded (some node.id) "input_tokens_per_call")
  reject_if (ltb node.budget.max_output_tokens_per_call r.admission.output_tokens)
      (budget_exceeded (some node.id) "output_tokens_per_call")
  open_calls' ← count_open call_id node r.state open_calls
  reject_if (overspent r.state r.admission)
      (model_call_lifecycle call_id "actual_usage_exceeds_reservation")
  check_calls nodes calls open_calls'

-- `computed_node_usage` and `computed_mission_usage`.
pub record Computed : Type 0 where
  pub node_usage : Map BudgetUsage
  pub mission : BudgetUsage

abbrev pub both : String → (BudgetUsage → BudgetUsage) → Computed → Computed
both node_id f t = record { node_usage = modify node_id f t.node_usage; mission = f t.mission }

-- What one record adds to a usage.
unfoldable pub add_record : ModelCallState → ModelCallAdmission → BudgetUsage → BudgetUsage
add_record ModelCallState.reserved a usage = reserve_usage usage a
add_record ModelCallState.dispatched a usage = reserve_usage usage a
add_record (ModelCallState.reconciled_consumed actual_cost_micros duration_ms) a usage =
    record usage {
      model_calls_consumed = saturating_add_u32 usage.model_calls_consumed 1;
      cost_micros_consumed = saturating_add_u64 usage.cost_micros_consumed actual_cost_micros;
      duration_ms_consumed = saturating_add_u64 usage.duration_ms_consumed duration_ms;
    }
add_record ModelCallState.admitted a usage = usage
add_record ModelCallState.reconciled_released a usage = usage

unfoldable pub tally_calls : Map ModelCallRecord → Computed → Result Computed
tally_calls [] t = ok t
tally_calls ((call_id, r) ∷ calls) t = do
  _ ← ok_or (get r.admission.node_id t.node_usage) (unknown_node r.admission.node_id)
  tally_calls calls (both r.admission.node_id (add_record r.state r.admission) t)

-- The calls that mutations were prepared for, with the node and the attempt of each; a later
-- preparation replaces an earlier one.
unfoldable pub mutation_calls : List LoggedEvent → Map (String × String) → Map (String × String)
mutation_calls [] m = m
mutation_calls (LoggedEvent.mutation_prepared p ∷ log) m =
    mutation_calls log (insert p.admission.call_id (p.policy_node_id, p.policy_attempt_id) m)
mutation_calls (_ ∷ log) m = mutation_calls log m

-- One round over `mutation_calls`, with the attempts consumed so far.
unfoldable pub attempt_round :
    Map ModelCallRecord
    → String
    → String
    → String
    → List String × Computed
    → Result (List String × Computed)
attempt_round calls call_id node_id attempt_id (seen, t) =
    if not (is_some_and (get call_id calls) (λ r. is_consumed r.state)) then ok (seen, t) else (do
      reject_if (any (λ a. a == attempt_id) seen)
          (invariant "mutation_attempt_has_multiple_consumed_calls")
      _ ← ok_or (get node_id t.node_usage) (unknown_node node_id)
      ok (attempt_id ∷ seen, both node_id charge_attempt t))

unfoldable pub tally_attempts :
    Map ModelCallRecord
    → Map (String × String)
    → List String × Computed
    → Result (List String × Computed)
tally_attempts calls [] t = ok t
tally_attempts calls ((call_id, (node_id, attempt_id)) ∷ rest) t = do
  t' ← attempt_round calls call_id node_id attempt_id t
  tally_attempts calls rest t'

unfoldable pub charge_rebuild : BudgetUsage → BudgetUsage
charge_rebuild usage = record usage {
  context_rebuilds = saturating_add_u32 usage.context_rebuilds 1;
}

unfoldable pub rebuild_round : LoggedEvent → Computed → Result Computed
rebuild_round (LoggedEvent.target_context_superseded node_id) t = do
  _ ← ok_or (get node_id t.node_usage) (unknown_node node_id)
  ok (both node_id charge_rebuild t)
rebuild_round _ t = ok t

unfoldable pub tally_rebuilds : List LoggedEvent → Computed → Result Computed
tally_rebuilds [] t = ok t
tally_rebuilds (e ∷ log) t = do t' ← rebuild_round e t; tally_rebuilds log t'

unfoldable pub usage_eq : BudgetUsage → BudgetUsage → Bool
usage_eq u v =
    nat_eq u.model_calls_reserved v.model_calls_reserved
    && nat_eq u.model_calls_consumed v.model_calls_consumed
    && nat_eq u.cost_micros_reserved v.cost_micros_reserved
    && nat_eq u.cost_micros_consumed v.cost_micros_consumed
    && nat_eq u.duration_ms_reserved v.duration_ms_reserved
    && nat_eq u.duration_ms_consumed v.duration_ms_consumed
    && nat_eq u.mutation_attempts v.mutation_attempts
    && nat_eq u.context_rebuilds v.context_rebuilds

unfoldable pub check_node : Map BudgetUsage → ExecutionNode → Result (Unit {0})
check_node computed_node_usage node = do
  computed ← expect (get node.id computed_node_usage) "usage exists"
  reject_if (not (usage_eq node.usage computed))
      (invariant "node_budget_usage_does_not_match_calls")
  validate_usage_limits node.usage node.budget (some node.id)
  reject_if (ltb node.budget.max_mutation_attempts node.usage.mutation_attempts)
      (budget_exceeded (some node.id) "mutation_attempts")
  reject_if (ltb node.budget.max_context_rebuilds node.usage.context_rebuilds)
      (budget_exceeded (some node.id) "context_rebuilds")
  ok tt

unfoldable pub check_nodes : Map BudgetUsage → Map ExecutionNode → Result (Unit {0})
check_nodes computed_node_usage [] = ok tt
check_nodes computed_node_usage ((k, node) ∷ nodes) = do
  check_node computed_node_usage node
  check_nodes computed_node_usage nodes

-- Each node with `BudgetUsage::default()`.
unfoldable pub no_node_usage : Map ExecutionNode → Map BudgetUsage
no_node_usage [] = []
no_node_usage ((k, node) ∷ nodes) = (k, no_usage) ∷ no_node_usage nodes

unfoldable pub validate_budget_invariants : ExecutionState → Result (Unit {0})
validate_budget_invariants st = do
  check_calls st.nodes st.budgets.model_calls []
  by_calls ←
      tally_calls st.budgets.model_calls
        (record { node_usage = no_node_usage st.nodes; mission = no_usage })
  by_attempts ←
      tally_attempts st.budgets.model_calls (mutation_calls st.event_log []) ([], by_calls)
  computed ← tally_rebuilds st.event_log by_attempts.1
  check_nodes computed.node_usage st.nodes
  reject_if (not (usage_eq st.budgets.mission_usage computed.mission))
      (invariant "mission_budget_usage_does_not_match_calls")
  validate_mission_usage_limits st.budgets.mission_usage st.mission_budget
