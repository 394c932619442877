-- ===== src/Protocol/Graph/Frame.antt =====
-- The graph under the budget events (`apply_budget_event` in src/execution_protocol/reducer.rs).
use mathlib.Core.Path.{subst}
use rustgrid_agent.Prelude.{String, ◌≡◌, refl, none, some, arith, inl, inr, Option, Option-cases}
use rustgrid_agent.Map.{get, modify}
use rustgrid_agent.Protocol.Violation.{ok, expect_mut, ok_injective}
use rustgrid_agent.Protocol.Model.{
  BudgetUsage, BudgetLedger, ModelCallState, ModelCallRecord, ModelCallReconciliation,
  ExecutionNode, ExecutionState, PreparedMutation,
}
use rustgrid_agent.Protocol.Usage.{reserve_usage, release_usage, consume_usage}
use rustgrid_agent.Protocol.Ledger.{
  on_usage, BudgetEvent, apply_budget_event, reconcile_record, charge_attempt,
  charge_mutation_attempt,
}
use rustgrid_agent.Protocol.Ledger.Guards.{prepared_mutation_for}
use rustgrid_agent.Protocol.Ledger.Sound.Writes.{settled}
use rustgrid_agent.Protocol.Ledger.Sound.Admission.{charged}
use rustgrid_agent.Protocol.Ledger.Sound.Steps.{admitted_facts, reserved_facts, dispatched_facts}
use rustgrid_agent.Protocol.Ledger.Sound.Reconcile.{reconciled_facts, consumed_facts, settle_facts}
use rustgrid_agent.Protocol.Graph.Orderly.{IsPlaced, IsOrderly, IsOrderly-modify}

IsOrderly-budgets :
    (b : BudgetLedger) (st : ExecutionState) → IsOrderly st → IsOrderly (record st { budgets = b })
IsOrderly-budgets b st o = record {
  at_node = λ n node h.
      let p : IsPlaced st n node = o.at_node n node h in
      record {
        identity = p.identity;
        listed = p.listed;
        in_stage = p.in_stage;
        supported = p.supported;
        counted = p.counted;
        proved = p.proved;
      };
  one_owner = o.one_owner;
}

on_usage-IsOrderly :
    (st : ExecutionState) (n : String) (f : BudgetUsage → BudgetUsage) (b : BudgetLedger)
    (node : ExecutionNode)
    → get n st.nodes ≡ some node
    → IsOrderly st
    → IsOrderly (record st { nodes = modify n (on_usage f) st.nodes; budgets = b })
on_usage-IsOrderly st n f b node e o =
    let p : IsPlaced st n node = o.at_node n node e in
    IsOrderly-budgets b (record st { nodes = modify n (on_usage f) st.nodes })
      (IsOrderly-modify st n (on_usage f) node e
        (record {
          same_id = refl;
          same_kind = refl;
          same_dependencies = refl;
          kept = λ d. d;
          in_stage = p.in_stage;
          owner = λ owned. inl owned;
          supported = p.supported;
          counted = p.counted;
          proved = p.proved;
        })
        o)

charge_facts :
    (p : PreparedMutation) (mid last : ExecutionState)
    → charge_mutation_attempt (some p) mid ≡ ok last
    → (owner : ExecutionNode) × (get p.policy_node_id mid.nodes ≡ some owner)
      × (charged p.policy_node_id mid ≡ last)
unfolding charge_mutation_attempt expect_mut
charge_facts p mid last h = elim (Option-cases (get p.policy_node_id mid.nodes)) [
  | inl e ↦ absurd (ground arith)
  | inr (owner, e) ↦ (owner, e, ground arith)
]

charge-IsOrderly :
    (o : Option PreparedMutation) (mid last : ExecutionState)
    → charge_mutation_attempt o mid ≡ ok last
    → IsOrderly mid
    → IsOrderly last
unfolding charge_mutation_attempt
charge-IsOrderly none mid last h orderly = subst IsOrderly (ok_injective h) orderly
charge-IsOrderly (some p) mid last h orderly =
    let (owner, e, q) = charge_facts p mid last h in
    subst IsOrderly q (
      on_usage-IsOrderly mid p.policy_node_id charge_attempt (charged p.policy_node_id mid).budgets
        owner e orderly)

settled-IsOrderly :
    (k : String) (r : ModelCallRecord) (f : BudgetUsage → BudgetUsage) (s : ModelCallState)
    (st : ExecutionState) (owner : ExecutionNode)
    → get r.admission.node_id st.nodes ≡ some owner
    → IsOrderly st
    → IsOrderly (settled k r f s st)
settled-IsOrderly k r f s st owner e o =
    on_usage-IsOrderly st r.admission.node_id f (settled k r f s st).budgets owner e o

reconcile-IsOrderly :
    (k : String) (r : ModelCallRecord) (result : ModelCallReconciliation) (st st' : ExecutionState)
    → reconcile_record k r result st ≡ ok st'
    → IsOrderly st
    → IsOrderly st'
reconcile-IsOrderly k r (ModelCallReconciliation.consumed cost duration) st st' h o =
    let (owner, at, was, c, d, allowed, q) = consumed_facts k r cost duration st st' h in
    charge-IsOrderly (prepared_mutation_for k st.event_log)
      (settled k r (λ u. consume_usage u r.admission cost duration)
        (ModelCallState.reconciled_consumed cost duration) st)
      st' q
      (settled-IsOrderly k r (λ u. consume_usage u r.admission cost duration)
        (ModelCallState.reconciled_consumed cost duration) st owner at o)
reconcile-IsOrderly k r ModelCallReconciliation.released_uncontacted st st' h o =
    let (owner, at, q) =
      settle_facts k r (λ u. release_usage u r.admission) ModelCallState.reconciled_released st st'
        (unfold reconcile_record in h) in
    subst IsOrderly q (
      settled-IsOrderly k r (λ u. release_usage u r.admission) ModelCallState.reconciled_released st
        owner at o)

-- An accepted budget event keeps the graph orderly.
pub apply_budget_event-IsOrderly :
    (e : BudgetEvent) (st st' : ExecutionState)
    → IsOrderly st
    → apply_budget_event e st ≡ ok st'
    → IsOrderly st'
unfolding apply_budget_event
apply_budget_event-IsOrderly (BudgetEvent.model_call_admitted a) st st' o h =
    let (node, at, fresh, idle, q) = admitted_facts a st st' h in
    subst IsOrderly q (IsOrderly-budgets _ st o)
apply_budget_event-IsOrderly (BudgetEvent.model_call_reserved k) st st' o h =
    let (r, owner, e, at, was, _, _, _, q) = reserved_facts k st st' h in
    subst IsOrderly q (
      settled-IsOrderly k r (λ u. reserve_usage u r.admission) ModelCallState.reserved st owner at
        o)
apply_budget_event-IsOrderly (BudgetEvent.provider_dispatch_started k payload) st st' o h =
    let (r, e, was, _, q) = dispatched_facts k payload st st' h in
    subst IsOrderly q (IsOrderly-budgets _ st o)
apply_budget_event-IsOrderly (BudgetEvent.model_call_reconciled k result) st st' o h =
    let (r, e, owns, q) = reconciled_facts k result st st' h in
    reconcile-IsOrderly k r result st st' q o
