-- ===== src/Protocol/Ledger/Totality.antt =====
-- The `expect`s of the ledger's handlers, on a sound state.
use rustgrid_agent.Prelude.{
  String, ◌≡◌, true, Option, none, some, arith, Option-cases, inl, inr, is_some,
}
use rustgrid_agent.Map.{get}
use rustgrid_agent.Protocol.Stage.{NodeKind}
use rustgrid_agent.Protocol.Violation.{Returns, Returns-bind, Result, ok, expect_mut, ◌>>=◌, ◌>>◌}
use rustgrid_agent.Protocol.Model.{
  ModelCallAdmission, ModelCallState, ModelCallRecord, ModelCallReconciliation, PreparedMutation,
  BudgetUsage, ExecutionNode, ExecutionState,
}
use rustgrid_agent.Protocol.Usage.{
  release_usage, consume_usage, ensure_usage_capacity, ensure_mission_capacity,
}
use rustgrid_agent.Protocol.Ledger.{
  BudgetEvent, apply_budget_event, admit_model_call, reserve_model_call, start_provider_dispatch,
  reconcile_model_call, reconcile_record, settle, charge_mutation_attempt, attempt_budget_check,
  ensure_model_call_capacity, on_usage,
}
use rustgrid_agent.Protocol.Ledger.Guards.{
  admission_guards, dispatch_guards, guards_by_kind, matches_prepared, mutation_guard, review_guard,
  mutation_dispatch_guard, prepared_mutation_for,
}
use rustgrid_agent.Protocol.Ledger.Sound.{IsSound, Owned, owner-modify}
use rustgrid_agent.Protocol.Ledger.Sound.Writes.{settled}

capacity-Returns :
    (st : ExecutionState) (node : ExecutionNode) (a : ModelCallAdmission)
    → Returns (ensure_model_call_capacity st node a)
unfolding ensure_model_call_capacity ensure_usage_capacity ensure_mission_capacity
capacity-Returns st node a = ground arith

guards_return :
    (kind : NodeKind) (st : ExecutionState) (node : ExecutionNode) (a : ModelCallAdmission)
    → Returns (guards_by_kind kind st node a)
unfolding guards_by_kind matches_prepared mutation_guard review_guard
guards_return NodeKind.discovery st node a = ground arith
guards_return _ st node a = ground arith

mutation_dispatch-Returns :
    (o : Option PreparedMutation) (k payload : String)
    → Returns (mutation_dispatch_guard o k payload)
unfolding mutation_dispatch_guard
mutation_dispatch-Returns o k payload = ground arith

admit-Returns : (a : ModelCallAdmission) (st : ExecutionState) → Returns (admit_model_call a st)
unfolding admit_model_call admission_guards
admit-Returns a st = elim (Option-cases (get a.node_id st.nodes)) [
  | inl e ↦ ground arith
  | inr (node, e) ↦ ground (arith, guards_return node.kind st node a, capacity-Returns st node a)
]

reserve-Returns : (k : String) (st : ExecutionState) → Returns (reserve_model_call k st)
unfolding reserve_model_call expect_mut
reserve-Returns k st = elim (Option-cases (get k st.budgets.model_calls)) [
  | inl e ↦ ground arith
  | inr (r, e) ↦ elim (Option-cases (get r.admission.node_id st.nodes)) [
    | inl e' ↦ ground arith
    | inr (node, e') ↦ ground (arith, capacity-Returns st node r.admission)
  ]
]

dispatch-Returns :
    (k payload : String) (st : ExecutionState) → Returns (start_provider_dispatch k payload st)
unfolding start_provider_dispatch dispatch_guards
dispatch-Returns k payload st =
    ground (arith, mutation_dispatch-Returns (prepared_mutation_for k st.event_log) k payload)

pub settle_ok :
    (k : String) (r : ModelCallRecord) (f : BudgetUsage → BudgetUsage) (s : ModelCallState)
    (st : ExecutionState)
    → get k st.budgets.model_calls ≡ some r
    → is_some (get r.admission.node_id st.nodes) ≡ true
    → settle k r f s st ≡ ok (settled k r f s st)
unfolding settle expect_mut
settle_ok k r f s st e owner = ground arith

charge-Returns :
    (o : Option PreparedMutation) (k : String) (r : ModelCallRecord) (f : BudgetUsage → BudgetUsage)
    (s : ModelCallState) (st : ExecutionState)
    → attempt_budget_check st o ≡ ok tt
    → Returns (charge_mutation_attempt o (settled k r f s st))
unfolding charge_mutation_attempt attempt_budget_check expect_mut
charge-Returns none k r f s st allowed = tt
charge-Returns (some p) k r f s st allowed =
    ground (arith, owner-modify p.policy_node_id r.admission.node_id (on_usage f) st.nodes)

attempt_check-Returns :
    (o : Option PreparedMutation) (st : ExecutionState) → Returns (attempt_budget_check st o)
unfolding attempt_budget_check
attempt_check-Returns none st = tt
attempt_check-Returns (some p) st = ground arith

unit_ok : (m : Result (Unit {0})) (u : Unit {0}) → m ≡ ok u → m ≡ ok tt
unit_ok m tt h = h

module _ (k : String) (r : ModelCallRecord) (st : ExecutionState)
    (e : get k st.budgets.model_calls ≡ some r)
    (owner : is_some (get r.admission.node_id st.nodes) ≡ true) where
  spend-Returns :
      (o : Option PreparedMutation) (f : BudgetUsage → BudgetUsage) (s : ModelCallState)
      → Returns (attempt_budget_check st o >> (settle k r f s st >>= charge_mutation_attempt o))
  spend-Returns o f s =
      Returns-bind (attempt_budget_check st o) _ (attempt_check-Returns o st) λ u allowed.
        rw (settle_ok k r f s st e owner)
          (charge-Returns o k r f s st (unit_ok (attempt_budget_check st o) u allowed))

  record-Returns : (result : ModelCallReconciliation) → Returns (reconcile_record k r result st)
  unfolding reconcile_record
  record-Returns (ModelCallReconciliation.consumed cost duration) = ground (
    arith,
    spend-Returns (prepared_mutation_for k st.event_log)
        (λ u. consume_usage u r.admission cost duration)
        (ModelCallState.reconciled_consumed cost duration),
  )
  record-Returns ModelCallReconciliation.released_uncontacted =
      rw
        (settle_ok k r (λ u. release_usage u r.admission) ModelCallState.reconciled_released st e
          owner)
        tt

reconcile-Returns :
    (k : String) (result : ModelCallReconciliation) (st : ExecutionState)
    → IsSound st
    → Returns (reconcile_model_call k result st)
unfolding reconcile_model_call
reconcile-Returns k result st sound = elim (Option-cases (get k st.budgets.model_calls)) [
  | inl e ↦ ground arith
  | inr (r, e) ↦
      let o : Owned st.nodes k r = sound.at_call k r e in
      ground (arith, record-Returns k r st e o.owner result)
]

-- On a sound state no budget event makes an `expect` of its handler fail: the event is accepted or
-- refused with a violation.
pub apply_budget_event-Returns :
    (e : BudgetEvent) (st : ExecutionState) → IsSound st → Returns (apply_budget_event e st)
unfolding apply_budget_event
apply_budget_event-Returns (BudgetEvent.model_call_admitted a) st sound = admit-Returns a st
apply_budget_event-Returns (BudgetEvent.model_call_reserved k) st sound = reserve-Returns k st
apply_budget_event-Returns (BudgetEvent.provider_dispatch_started k payload) st sound =
    dispatch-Returns k payload st
apply_budget_event-Returns (BudgetEvent.model_call_reconciled k result) st sound =
    reconcile-Returns k result st sound
