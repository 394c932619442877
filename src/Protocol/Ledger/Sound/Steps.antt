-- ===== src/Protocol/Ledger/Sound/Steps.antt =====
-- Each handler of the ledger, on a sound state.
use mathlib.Core.Path.{subst}
use rustgrid_agent.Prelude.{
  String, ◌≡◌, refl, true, false, some, arith, eq_iff, eq_refl, Option-cases, inl, inr,
}
use rustgrid_agent.Map.{get, contains_key, insert, modify}
use rustgrid_agent.Protocol.Violation.{ok, expect_mut}
use rustgrid_agent.Protocol.Model.{
  ModelCallAdmission, ModelCallState, ModelCallRecord, ExecutionNode, ExecutionState, is_open,
  is_active,
}
use rustgrid_agent.Protocol.Usage.{reserve_usage, ensure_usage_capacity, ensure_mission_capacity}
use rustgrid_agent.Protocol.Usage.Capacity.{
  node_limits, mission_limits, ensure_usage_capacity-HasRoom, ensure_mission_capacity-HasRoom,
}
use rustgrid_agent.Protocol.Ledger.{
  set_calls, set_state, ensure_model_call_capacity, admit_model_call, reserve_model_call,
  start_provider_dispatch, has_open_model_call_for_node,
}
use rustgrid_agent.Protocol.Ledger.Accounts.{everyone, owned_by, Balance-dispatch}
use rustgrid_agent.Protocol.Ledger.Sound.{NodeBooks, IsSound}
use rustgrid_agent.Protocol.Ledger.Sound.Writes.{settled, settled-IsSound, set_calls-IsSound}
use rustgrid_agent.Protocol.Ledger.Sound.Calls.{Books-reserve}
use rustgrid_agent.Protocol.Ledger.Sound.Admission.{admitted-IsSound}

module _ (a : ModelCallAdmission) (st st' : ExecutionState)
    (h : admit_model_call a st ≡ ok st') where
  pub admitted_facts :
      (node : ExecutionNode) × (get a.node_id st.nodes ≡ some node)
      × (contains_key a.call_id st.budgets.model_calls ≡ false)
      × (has_open_model_call_for_node st.budgets.model_calls node.id ≡ false)
      × (set_calls st (
            insert a.call_id
              (record { admission = a; state = ModelCallState.admitted })
              st.budgets.model_calls)
          ≡ st')
  unfolding admit_model_call
  admitted_facts = elim (Option-cases (get a.node_id st.nodes)) [
    | inl e ↦ absurd (ground arith)
    | inr (node, e) ↦ (node, e, ground arith, ground arith, ground arith)
  ]

  pub admit_model_call-IsSound : IsSound st → IsSound st'
  admit_model_call-IsSound sound =
      let (node, at, fresh, idle, e) = admitted_facts in
      subst IsSound e (admitted-IsSound st a node sound fresh at idle)

-- What a reservation has found: the call, admitted, and its owner, with room in both budgets.
module _ (k : String) (st st' : ExecutionState) (h : reserve_model_call k st ≡ ok st') where
  pub reserved_facts :
      (r : ModelCallRecord) × (owner : ExecutionNode) × (get k st.budgets.model_calls ≡ some r)
      × (get r.admission.node_id st.nodes ≡ some owner)
      × (r.state ≡ ModelCallState.admitted)
      × (is_active owner.state ≡ true)
      × (ensure_usage_capacity owner.usage owner.budget r.admission (some owner.id) ≡ ok tt)
      × (ensure_mission_capacity st.budgets.mission_usage st.mission_budget r.admission ≡ ok tt)
      × (settled k r (λ u. reserve_usage u r.admission) ModelCallState.reserved st ≡ st')
  unfolding reserve_model_call ensure_model_call_capacity expect_mut
  reserved_facts = elim (Option-cases (get k st.budgets.model_calls)) [
    | inl e ↦ absurd (ground arith)
    | inr (r, e) ↦ elim (Option-cases (get r.admission.node_id st.nodes)) [
      | inl no_owner ↦ absurd (ground arith)
      | inr (owner, at) ↦
          (r, owner, e, at, ground arith, ground arith, ground arith, ground arith, ground arith)
    ]
  ]

  pub reserve_model_call-IsSound : IsSound st → IsSound st'
  unfolding is_open reserve_usage
  reserve_model_call-IsSound sound =
      let (r, owner, e, at, was, _, fits, mission_fits, q) = reserved_facts in
      let b : NodeBooks r.admission.node_id owner st.budgets.model_calls =
        sound.at_node r.admission.node_id owner at in
      subst IsSound q (
        settled-IsSound st k r ModelCallState.reserved sound e (ground arith)
          (λ u. reserve_usage u r.admission) owner at refl
          (Books-reserve owner.usage (node_limits owner.budget) (owned_by r.admission.node_id)
            st.budgets.model_calls k r e (eq_refl r.admission.node_id) b.books
            (ensure_usage_capacity-HasRoom owner.usage r.admission owner.budget (some owner.id)
              b.books.proper fits)
            was)
          (Books-reserve st.budgets.mission_usage (mission_limits st.mission_budget) everyone
            st.budgets.model_calls k r e refl sound.mission
            (ensure_mission_capacity-HasRoom st.budgets.mission_usage r.admission st.mission_budget
              sound.mission.proper mission_fits)
            was))

module _ (k payload : String) (st st' : ExecutionState)
    (h : start_provider_dispatch k payload st ≡ ok st') where
  pub dispatched_facts :
      (r : ModelCallRecord) × (get k st.budgets.model_calls ≡ some r)
      × (r.state ≡ ModelCallState.reserved)
      × (r.admission.payload_hash ≡ payload)
      × (set_calls st (modify k (set_state ModelCallState.dispatched) st.budgets.model_calls) ≡ st')
  unfolding start_provider_dispatch
  dispatched_facts = elim (Option-cases (get k st.budgets.model_calls)) [
    | inl e ↦ absurd (ground arith)
    | inr (r, e) ↦
        (r, e, ground arith, ground (arith, eq_iff r.admission.payload_hash payload), ground arith)
  ]

  pub start_provider_dispatch-IsSound : IsSound st → IsSound st'
  unfolding is_open
  start_provider_dispatch-IsSound sound =
      let (r, e, was, _, q) = dispatched_facts in
      subst IsSound q (
        set_calls-IsSound st k r ModelCallState.dispatched sound e (ground arith)
          (λ u scope. Balance-dispatch u scope r was))
