-- ===== src/Protocol/Ledger/Sound/Reconcile.antt =====
-- `reconcile_model_call` keeps the books: a released call gives its reservation back, a consumed one
-- replaces it by what was used and charges its mutation attempt.
use mathlib.Core.Path.{subst}
use rustgrid_agent.Prelude.{
  ℕ, ◌≤◌, String, ◌≡◌, refl, true, Option, none, some, arith, ◌==◌, eq_refl, Bool-cases,
  Option-cases, inl, inr,
}
use rustgrid_agent.Map.{get, get-modify}
use rustgrid_agent.Words.{saturating_add_u32}
use rustgrid_agent.Protocol.Violation.{ok, expect_mut, ok_injective}
use rustgrid_agent.Protocol.Model.{
  BudgetUsage, ModelCallAdmission, ModelCallState, ModelCallRecord, ModelCallReconciliation,
  ExecutionNode, ExecutionState, PreparedMutation, is_open, owns_reservation,
}
use rustgrid_agent.Protocol.Usage.{release_usage, consume_usage}
use rustgrid_agent.Protocol.Usage.Capacity.{node_limits, mission_limits}
use rustgrid_agent.Protocol.Ledger.{
  on_usage, settle, reconcile_record, reconcile_model_call, attempt_budget_check,
  charge_mutation_attempt,
}
use rustgrid_agent.Protocol.Ledger.Accounts.{everyone, owned_by}
use rustgrid_agent.Protocol.Ledger.Guards.{prepared_mutation_for}
use rustgrid_agent.Protocol.Ledger.Sound.{IsSound}
use rustgrid_agent.Protocol.Ledger.Sound.Writes.{settled, settled-IsSound}
use rustgrid_agent.Protocol.Ledger.Sound.Calls.{Books-release, Books-consume}
use rustgrid_agent.Protocol.Ledger.Sound.Admission.{charged, charged-IsSound}

module _ (k : String) (r : ModelCallRecord) (f : BudgetUsage → BudgetUsage) (s : ModelCallState)
    (st st' : ExecutionState) (h : settle k r f s st ≡ ok st') where
  pub settle_facts :
      (owner : ExecutionNode) × (get r.admission.node_id st.nodes ≡ some owner)
      × (settled k r f s st ≡ st')
  unfolding settle expect_mut
  settle_facts = elim (Option-cases (get r.admission.node_id st.nodes)) [
    | inl e ↦ absurd (ground arith)
    | inr (owner, e) ↦ (owner, e, ground arith)
  ]

-- The charge of an attempt that the contract was found to allow before the call was settled.
module _ (p : PreparedMutation) (k : String) (r : ModelCallRecord) (f : BudgetUsage → BudgetUsage)
    (s : ModelCallState) (st st' : ExecutionState)
    (same : (u : BudgetUsage) → (f u).mutation_attempts ≡ u.mutation_attempts)
    (allowed : attempt_budget_check st (some p) ≡ ok tt)
    (h : charge_mutation_attempt (some p) (settled k r f s st) ≡ ok st') where
  charged_facts :
      (owner : ExecutionNode) × (get p.policy_node_id (settled k r f s st).nodes ≡ some owner)
      × (saturating_add_u32 owner.usage.mutation_attempts 1 ≤ owner.budget.max_mutation_attempts)
      × (charged p.policy_node_id (settled k r f s st) ≡ st')
  unfolding charge_mutation_attempt attempt_budget_check expect_mut
  charged_facts = elim (Option-cases (get p.policy_node_id st.nodes)) [
    | inl e ↦ absurd (ground arith)
    | inr (owner, e) ↦ elim (Bool-cases (r.admission.node_id == p.policy_node_id)) [
      | inl this ↦ (
        on_usage f owner,
        ground (arith, get-modify r.admission.node_id p.policy_node_id (on_usage f) st.nodes),
        ground (arith, same owner.usage),
        ground (arith, get-modify r.admission.node_id p.policy_node_id (on_usage f) st.nodes),
      )
      | inr other ↦ (
        owner,
        ground (arith, get-modify r.admission.node_id p.policy_node_id (on_usage f) st.nodes),
        ground arith,
        ground (arith, get-modify r.admission.node_id p.policy_node_id (on_usage f) st.nodes),
      )
    ]
  ]

  charge_mutation_attempt-IsSound : IsSound (settled k r f s st) → IsSound st'
  charge_mutation_attempt-IsSound sound =
      let (owner, at, room, q) = charged_facts in
      subst IsSound q (charged-IsSound (settled k r f s st) p.policy_node_id owner sound at room)

charge-IsSound :
    (o : Option PreparedMutation) (k : String) (r : ModelCallRecord) (f : BudgetUsage → BudgetUsage)
    (s : ModelCallState) (st st' : ExecutionState)
    → ((u : BudgetUsage) → (f u).mutation_attempts ≡ u.mutation_attempts)
    → attempt_budget_check st o ≡ ok tt
    → charge_mutation_attempt o (settled k r f s st) ≡ ok st'
    → IsSound (settled k r f s st)
    → IsSound st'
unfolding charge_mutation_attempt
charge-IsSound none k r f s st st' same allowed h sound = subst IsSound (ok_injective h) sound
charge-IsSound (some p) k r f s st st' same allowed h sound =
    charge_mutation_attempt-IsSound p k r f s st st' same allowed h sound

consume_usage_attempts :
    (a : ModelCallAdmission) (cost duration : ℕ) (u : BudgetUsage)
    → (consume_usage u a cost duration).mutation_attempts ≡ u.mutation_attempts
unfolding consume_usage
consume_usage_attempts a cost duration u = refl

module _ (k : String) (r : ModelCallRecord) (st : ExecutionState) (sound : IsSound st)
    (e : get k st.budgets.model_calls ≡ some r) (owner : ExecutionNode)
    (at : get r.admission.node_id st.nodes ≡ some owner) where
  released-IsSound :
      owns_reservation r.state ≡ true
      → IsSound
          (settled k r (λ u. release_usage u r.admission) ModelCallState.reconciled_released st)
  unfolding is_open owns_reservation release_usage
  released-IsSound owns =
      settled-IsSound st k r ModelCallState.reconciled_released sound e (ground arith)
        (λ u. release_usage u r.admission) owner at refl
        (Books-release owner.usage (node_limits owner.budget) (owned_by r.admission.node_id)
          st.budgets.model_calls k r e (eq_refl r.admission.node_id)
          (sound.at_node r.admission.node_id owner at).books owns)
        (Books-release st.budgets.mission_usage (mission_limits st.mission_budget) everyone
          st.budgets.model_calls k r e refl sound.mission owns)

  module _ (cost duration : ℕ) (c : cost ≤ r.admission.reserved_cost_micros)
      (d : duration ≤ r.admission.duration_allowance_ms)
      (was : r.state ≡ ModelCallState.dispatched) where
    consumed-IsSound : IsSound (
        settled k r
          (λ u. consume_usage u r.admission cost duration)
          (ModelCallState.reconciled_consumed cost duration)
          st)
    unfolding is_open
    consumed-IsSound =
        settled-IsSound st k r (ModelCallState.reconciled_consumed cost duration) sound e
          (ground arith) (λ u. consume_usage u r.admission cost duration) owner at
          (consume_usage_attempts r.admission cost duration owner.usage)
          (Books-consume owner.usage (node_limits owner.budget) (owned_by r.admission.node_id)
            st.budgets.model_calls k r e (eq_refl r.admission.node_id)
            (sound.at_node r.admission.node_id owner at).books cost duration c d was)
          (Books-consume st.budgets.mission_usage (mission_limits st.mission_budget) everyone
            st.budgets.model_calls k r e refl sound.mission cost duration c d was)

-- What a consumed reconciliation has found.
module _ (k : String) (r : ModelCallRecord) (cost duration : ℕ) (st st' : ExecutionState)
    (h : reconcile_record k r (ModelCallReconciliation.consumed cost duration) st ≡ ok st') where
  abbrev spend : BudgetUsage → BudgetUsage
  spend u = consume_usage u r.admission cost duration

  abbrev done : ModelCallState
  done = ModelCallState.reconciled_consumed cost duration

  pub consumed_facts :
      (owner : ExecutionNode) × (get r.admission.node_id st.nodes ≡ some owner)
      × (r.state ≡ ModelCallState.dispatched)
      × (cost ≤ r.admission.reserved_cost_micros)
      × (duration ≤ r.admission.duration_allowance_ms)
      × (attempt_budget_check st (prepared_mutation_for k st.event_log) ≡ ok tt)
      × (charge_mutation_attempt (prepared_mutation_for k st.event_log) (settled k r spend done st)
          ≡ ok st')
  unfolding reconcile_record settle expect_mut
  consumed_facts = elim (Option-cases (get r.admission.node_id st.nodes)) [
    | inl e ↦ absurd (ground arith)
    | inr (owner, e) ↦
        (owner, e, ground arith, ground arith, ground arith, ground arith, ground arith)
  ]

reconcile_record-IsSound :
    (k : String) (r : ModelCallRecord) (result : ModelCallReconciliation) (st st' : ExecutionState)
    → IsSound st
    → get k st.budgets.model_calls ≡ some r
    → owns_reservation r.state ≡ true
    → reconcile_record k r result st ≡ ok st'
    → IsSound st'
reconcile_record-IsSound k r (ModelCallReconciliation.consumed cost duration) st st' sound e owns
      h =
    let (owner, at, was, c, d, allowed, q) = consumed_facts k r cost duration st st' h in
    charge-IsSound (prepared_mutation_for k st.event_log) k r
      (λ u. consume_usage u r.admission cost duration)
      (ModelCallState.reconciled_consumed cost duration) st st'
      (consume_usage_attempts r.admission cost duration) allowed q
      (consumed-IsSound k r st sound e owner at cost duration c d was)
reconcile_record-IsSound k r ModelCallReconciliation.released_uncontacted st st' sound e owns h =
    let (owner, at, q) =
      settle_facts k r (λ u. release_usage u r.admission) ModelCallState.reconciled_released st st'
        (unfold reconcile_record in h) in
    subst IsSound q (released-IsSound k r st sound e owner at owns)

module _ (k : String) (result : ModelCallReconciliation) (st st' : ExecutionState)
    (h : reconcile_model_call k result st ≡ ok st') where
  pub reconciled_facts :
      (r : ModelCallRecord) × (get k st.budgets.model_calls ≡ some r)
      × (owns_reservation r.state ≡ true)
      × (reconcile_record k r result st ≡ ok st')
  unfolding reconcile_model_call
  reconciled_facts = elim (Option-cases (get k st.budgets.model_calls)) [
    | inl e ↦ absurd (ground arith)
    | inr (r, e) ↦ (r, e, ground arith, ground arith)
  ]

  pub reconcile_model_call-IsSound : IsSound st → IsSound st'
  reconcile_model_call-IsSound sound =
      let (r, e, owns, q) = reconciled_facts in
      reconcile_record-IsSound k r result st st' sound e owns q
