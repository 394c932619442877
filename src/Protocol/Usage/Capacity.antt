-- ===== src/Protocol/Usage/Capacity.antt =====
-- The capacity tests against exact arithmetic.
use rustgrid_agent.Prelude.{ℕ, ◌+◌, ◌≤◌, ◌<◌, ◌≡◌, String, Option, arith}
use rustgrid_agent.Words.{u32_max, u64_max, saturating_add_u32, saturating_add_u64, saturating_sub}
use rustgrid_agent.Protocol.Violation.{ok}
use rustgrid_agent.Protocol.Model.{
  MissionBudgetContract, NodeBudgetContract, BudgetUsage, ModelCallAdmission,
}
use rustgrid_agent.Protocol.Usage.{
  reserve_usage, release_usage, ensure_usage_capacity, ensure_mission_capacity,
}

-- Three limits, of a node's contract or of the mission's.
pub record Limits : Type 0 where
  pub calls : ℕ
  pub cost : ℕ
  pub duration : ℕ

abbrev pub node_limits : NodeBudgetContract → Limits
node_limits b = record {
  calls = b.max_model_calls;
  cost = b.max_cost_micros;
  duration = b.max_duration_ms;
}

abbrev pub mission_limits : MissionBudgetContract → Limits
mission_limits b = record {
  calls = b.max_model_calls;
  cost = b.max_cost_micros;
  duration = b.max_duration_ms;
}

-- No limit is the largest word of its type, where a saturated sum would pass every test.
pub record IsProper (l : Limits) : Type 0 where
  pub calls_proper : l.calls < u32_max
  pub cost_proper : l.cost < u64_max
  pub duration_proper : l.duration < u64_max

-- In exact arithmetic, what is consumed and reserved stays within the limits.
pub record Within (u : BudgetUsage) (l : Limits) : Type 0 where
  pub calls_within : u.model_calls_consumed + u.model_calls_reserved ≤ l.calls
  pub cost_within : u.cost_micros_consumed + u.cost_micros_reserved ≤ l.cost
  pub duration_within : u.duration_ms_consumed + u.duration_ms_reserved ≤ l.duration

-- There is room for one more call.
pub record HasRoom (u : BudgetUsage) (l : Limits) (a : ModelCallAdmission) : Type 0 where
  pub calls_room : u.model_calls_consumed + u.model_calls_reserved + 1 ≤ l.calls
  pub cost_room : u.cost_micros_consumed + u.cost_micros_reserved + a.reserved_cost_micros ≤ l.cost
  pub duration_room :
      u.duration_ms_consumed + u.duration_ms_reserved + a.duration_allowance_ms ≤ l.duration

module _ (u : BudgetUsage) (a : ModelCallAdmission) where
  -- The saturating test of a node's capacity accepts exactly the calls that fit.
  pub ensure_usage_capacity-HasRoom :
      (b : NodeBudgetContract) (n : Option String)
      → IsProper (node_limits b)
      → ensure_usage_capacity u b a n ≡ ok tt
      → HasRoom u (node_limits b) a
  unfolding ensure_usage_capacity saturating_add_u32 saturating_add_u64
  ensure_usage_capacity-HasRoom b n p h = ground arith

  pub HasRoom-ensure_usage_capacity :
      (b : NodeBudgetContract) (n : Option String)
      → IsProper (node_limits b)
      → HasRoom u (node_limits b) a
      → ensure_usage_capacity u b a n ≡ ok tt
  unfolding ensure_usage_capacity saturating_add_u32 saturating_add_u64
  HasRoom-ensure_usage_capacity b n p h = ground arith

  pub ensure_mission_capacity-HasRoom :
      (b : MissionBudgetContract)
      → IsProper (mission_limits b)
      → ensure_mission_capacity u b a ≡ ok tt
      → HasRoom u (mission_limits b) a
  unfolding ensure_mission_capacity saturating_add_u32 saturating_add_u64
  ensure_mission_capacity-HasRoom b p h = ground arith

  pub HasRoom-ensure_mission_capacity :
      (b : MissionBudgetContract)
      → IsProper (mission_limits b)
      → HasRoom u (mission_limits b) a
      → ensure_mission_capacity u b a ≡ ok tt
  unfolding ensure_mission_capacity saturating_add_u32 saturating_add_u64
  HasRoom-ensure_mission_capacity b p h = ground arith

  -- A reservation that fits stays within the limits.
  pub reserve_usage-Within :
      (l : Limits) → IsProper l → HasRoom u l a → Within (reserve_usage u a) l
  unfolding reserve_usage saturating_add_u32 saturating_add_u64
  reserve_usage-Within l p h = ground arith

  pub release_usage-Within : (l : Limits) → Within u l → Within (release_usage u a) l
  unfolding release_usage saturating_sub
  release_usage-Within l h = ground arith

  -- Releasing what was just reserved gives the usage back.
  pub release_usage-reserve_usage :
      (l : Limits) → IsProper l → HasRoom u l a → release_usage (reserve_usage u a) a ≡ u
  unfolding release_usage reserve_usage saturating_add_u32 saturating_add_u64 saturating_sub
  release_usage-reserve_usage l p h = ground arith
