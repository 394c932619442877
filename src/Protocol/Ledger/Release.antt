-- ===== src/Protocol/Ledger/Release.antt =====
-- Reserving a call and releasing it again.
use rustgrid_agent.Prelude.{String, ◌≡◌, sym, ap, ◌∙◌, true, some, arith, eq_iff, eq_refl, is_some}
use rustgrid_agent.Map.{get, get-modify}
use rustgrid_agent.Protocol.Violation.{ok}
use rustgrid_agent.Protocol.Model.{
  ModelCallState, ModelCallRecord, ModelCallReconciliation, ExecutionNode, ExecutionState,
  owns_reservation,
}
use rustgrid_agent.Protocol.Usage.{reserve_usage, release_usage}
use rustgrid_agent.Protocol.Usage.Capacity.{
  node_limits, mission_limits, ensure_usage_capacity-HasRoom, ensure_mission_capacity-HasRoom,
  release_usage-reserve_usage,
}
use rustgrid_agent.Protocol.Ledger.{
  set_state, on_usage, reserve_model_call, reconcile_model_call, reconcile_record,
}
use rustgrid_agent.Protocol.Ledger.Lifecycle.{call_state}
use rustgrid_agent.Protocol.Ledger.Sound.{IsSound, NodeBooks, owner-modify}
use rustgrid_agent.Protocol.Ledger.Sound.Writes.{settled}
use rustgrid_agent.Protocol.Ledger.Sound.Steps.{reserved_facts}
use rustgrid_agent.Protocol.Ledger.Totality.{settle_ok}

-- `last` has the budgets that `st` had, and the call is released.
pub record Restored (k : String) (st last : ExecutionState) : Type 0 where
  pub mission : last.budgets.mission_usage ≡ st.budgets.mission_usage
  pub at_node : (n : String) → get n last.nodes ≡ get n st.nodes
  pub released : call_state k last ≡ some ModelCallState.reconciled_released

module _ (k : String) (r : ModelCallRecord) where
  abbrev reserved_record : ModelCallRecord
  reserved_record = set_state ModelCallState.reserved r

  abbrev taken : ExecutionState → ExecutionState
  taken = settled k r (λ u. reserve_usage u r.admission) ModelCallState.reserved

  abbrev given_back : ExecutionState → ExecutionState
  given_back st =
      settled k reserved_record (λ u. release_usage u r.admission)
        ModelCallState.reconciled_released (taken st)

module _ (k : String) (r : ModelCallRecord) (st : ExecutionState)
    (e : get k st.budgets.model_calls ≡ some r) where
  taken_call : get k (taken k r st).budgets.model_calls ≡ some (reserved_record k r)
  taken_call =
      ground (
        arith,
        get-modify k k (set_state ModelCallState.reserved) st.budgets.model_calls,
        eq_refl k,
      )

  given_back_call : call_state k (given_back k r st) ≡ some ModelCallState.reconciled_released
  given_back_call = ground (
    arith,
    get-modify k k (set_state ModelCallState.reconciled_released)
        (taken k r st).budgets.model_calls,
    eq_refl k,
    taken_call,
  )

  reconcile-taken :
      is_some (get r.admission.node_id st.nodes) ≡ true
      → reconcile_model_call k ModelCallReconciliation.released_uncontacted (taken k r st)
        ≡ ok (given_back k r st)
  unfolding reconcile_model_call reconcile_record owns_reservation
  reconcile-taken owner = ground (
    arith,
    taken_call,
    settle_ok k (reserved_record k r) (λ u. release_usage u r.admission)
        ModelCallState.reconciled_released (taken k r st) taken_call
        (owner-modify r.admission.node_id r.admission.node_id
            (on_usage (λ u. reserve_usage u r.admission)) st.nodes
          ∙ owner),
  )

  node-given_back :
      (owner : ExecutionNode) (n : String)
      → get r.admission.node_id st.nodes ≡ some owner
      → release_usage (reserve_usage owner.usage r.admission) r.admission ≡ owner.usage
      → get n (given_back k r st).nodes ≡ get n st.nodes
  node-given_back owner n at same = ground (
    arith,
    eq_iff r.admission.node_id n,
    get-modify r.admission.node_id n (on_usage (λ u. reserve_usage u r.admission)) st.nodes,
    get-modify r.admission.node_id n (on_usage (λ u. release_usage u r.admission))
        (taken k r st).nodes,
  )

-- A call that was reserved on a sound state can be released as uncontacted at once; that gives every
-- node and the mission back the usage that they had, and the call ends as released.
pub reconcile-reserve_model_call :
    (k : String) (st mid : ExecutionState)
    → IsSound st
    → reserve_model_call k st ≡ ok mid
    → (last : ExecutionState) × (reconcile_model_call k ModelCallReconciliation.released_uncontacted
          mid
        ≡ ok last)
      × Restored k st last
reconcile-reserve_model_call k st mid sound h =
    let (r, owner, e, at, was, _, fits, mission_fits, q) = reserved_facts k st mid h in
    let b : NodeBooks r.admission.node_id owner st.budgets.model_calls =
      sound.at_node r.admission.node_id owner at in
    (
      given_back k r st,
      ap (reconcile_model_call k ModelCallReconciliation.released_uncontacted) (sym q)
          ∙ reconcile-taken k r st e (ap is_some at),
      record {
        mission =
            release_usage-reserve_usage st.budgets.mission_usage r.admission
              (mission_limits st.mission_budget) sound.mission.proper
              (ensure_mission_capacity-HasRoom st.budgets.mission_usage r.admission
                st.mission_budget sound.mission.proper mission_fits);
        at_node = λ n. node-given_back k r st e owner n at (
            release_usage-reserve_usage owner.usage r.admission (node_limits owner.budget)
              b.books.proper
              (ensure_usage_capacity-HasRoom owner.usage r.admission owner.budget (some owner.id)
                b.books.proper fits));
        released = given_back_call k r st e;
      },
    )
