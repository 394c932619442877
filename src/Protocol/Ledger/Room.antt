-- ===== src/Protocol/Ledger/Room.antt =====
-- `ensure_model_call_capacity` of src/execution_protocol/reducer.rs against exact arithmetic.
use rustgrid_agent.Prelude.{◌≡◌, ◌↔◌, some, arith}
use rustgrid_agent.Protocol.Violation.{Result, ok, ◌>>◌}
use rustgrid_agent.Protocol.Model.{ExecutionNode, ExecutionState, ModelCallAdmission}
use rustgrid_agent.Protocol.Usage.{ensure_usage_capacity, ensure_mission_capacity}
use rustgrid_agent.Protocol.Usage.Capacity.{
  node_limits, mission_limits, IsProper, HasRoom, ensure_usage_capacity-HasRoom,
  HasRoom-ensure_usage_capacity, ensure_mission_capacity-HasRoom, HasRoom-ensure_mission_capacity,
}
use rustgrid_agent.Protocol.Ledger.{ensure_model_call_capacity}

>>-eq-ok : (m k : Result (Unit {0})) → ((m >> k) ≡ ok tt) ↔ ((m ≡ ok tt) × (k ≡ ok tt))
>>-eq-ok m k = ground arith

-- Where no limit of the node or of the mission is the largest word of its type, the capacity test
-- accepts a call exactly when, without any saturation, one more call with its cost and its duration
-- fits beside what is consumed and reserved, on the node and on the mission.
pub ensure_model_call_capacity_exact :
    (st : ExecutionState) (node : ExecutionNode) (a : ModelCallAdmission)
    → IsProper (node_limits node.budget)
    → IsProper (mission_limits st.mission_budget)
    → (ensure_model_call_capacity st node a ≡ ok tt) ↔ (
        HasRoom node.usage (node_limits node.budget) a
        × HasRoom st.budgets.mission_usage (mission_limits st.mission_budget) a)
unfolding ensure_model_call_capacity
ensure_model_call_capacity_exact st node a p q = ground (
  arith,
  >>-eq-ok (ensure_usage_capacity node.usage node.budget a (some node.id))
      (ensure_mission_capacity st.budgets.mission_usage st.mission_budget a),
  ensure_usage_capacity-HasRoom node.usage a node.budget (some node.id) p,
  HasRoom-ensure_usage_capacity node.usage a node.budget (some node.id) p,
  ensure_mission_capacity-HasRoom st.budgets.mission_usage a st.mission_budget q,
  HasRoom-ensure_mission_capacity st.budgets.mission_usage a st.mission_budget q,
)
