-- ===== src/Protocol/Ledger/Accounts.antt =====
-- The exact books of the ledger: what a set of calls has reserved and consumed, summed over the
-- records in `model_calls`.
use rustgrid_agent.Prelude.{
  ℕ, ◌+◌, ◌≤◌, String, ◌≡◌, Bool, true, false, none, some, arith, ◌==◌, if◌then◌else◌,
}
use rustgrid_agent.Words.{saturating_add_u32, saturating_add_u64, saturating_sub}
use rustgrid_agent.Map.{Map, get, insert, modify}
use rustgrid_agent.Map.Sums.{total, total-modify, total-insert, le-total}
use rustgrid_agent.Protocol.Model.{
  BudgetUsage, ModelCallAdmission, ModelCallState, ModelCallRecord, owns_reservation, is_open,
}
use rustgrid_agent.Protocol.Usage.{reserve_usage, release_usage, consume_usage}
use rustgrid_agent.Protocol.Usage.Capacity.{Limits, IsProper, Within, HasRoom}
use rustgrid_agent.Protocol.Ledger.{set_state}

-- The calls of one owner: a node's, or all of them.
abbrev pub Scope : Type 0
Scope = ModelCallAdmission → Bool

abbrev pub everyone : Scope
everyone a = true

abbrev pub owned_by : String → Scope
owned_by n a = a.node_id == n

abbrev pub reserved_call : ModelCallState → ModelCallAdmission → ℕ
reserved_call s a = if owns_reservation s then 1 else 0

abbrev pub reserved_cost : ModelCallState → ModelCallAdmission → ℕ
reserved_cost s a = if owns_reservation s then a.reserved_cost_micros else 0

abbrev pub reserved_duration : ModelCallState → ModelCallAdmission → ℕ
reserved_duration s a = if owns_reservation s then a.duration_allowance_ms else 0

abbrev pub consumed_call : ModelCallState → ModelCallAdmission → ℕ
consumed_call (ModelCallState.reconciled_consumed c d) a = 1
consumed_call _ a = 0

abbrev pub consumed_cost : ModelCallState → ModelCallAdmission → ℕ
consumed_cost (ModelCallState.reconciled_consumed c d) a = c
consumed_cost _ a = 0

abbrev pub consumed_duration : ModelCallState → ModelCallAdmission → ℕ
consumed_duration (ModelCallState.reconciled_consumed c d) a = d
consumed_duration _ a = 0

abbrev pub open_call : ModelCallState → ModelCallAdmission → ℕ
open_call s a = if is_open s then 1 else 0

abbrev pub share : Scope → (ModelCallState → ModelCallAdmission → ℕ) → ModelCallRecord → ℕ
share scope g r = if scope r.admission then g r.state r.admission else 0

-- The usage `u` is what the calls of the scope add up to.
pub record Accounts (u : BudgetUsage) (scope : Scope) (calls : Map ModelCallRecord) : Type 0 where
  pub calls_reserved : u.model_calls_reserved ≡ total (share scope reserved_call) calls
  pub calls_consumed : u.model_calls_consumed ≡ total (share scope consumed_call) calls
  pub cost_reserved : u.cost_micros_reserved ≡ total (share scope reserved_cost) calls
  pub cost_consumed : u.cost_micros_consumed ≡ total (share scope consumed_cost) calls
  pub duration_reserved : u.duration_ms_reserved ≡ total (share scope reserved_duration) calls
  pub duration_consumed : u.duration_ms_consumed ≡ total (share scope consumed_duration) calls

module _ (u : BudgetUsage) (scope : Scope) (calls : Map ModelCallRecord) where
  -- A new call that reserves nothing yet leaves the books as they are.
  pub Accounts-insert :
      (k : String) (a : ModelCallAdmission)
      → get k calls ≡ none
      → Accounts u scope calls
      → Accounts u scope
          (insert k (record { admission = a; state = ModelCallState.admitted }) calls)
  unfolding owns_reservation
  Accounts-insert k a h b =
      let r : ModelCallRecord = record { admission = a; state = ModelCallState.admitted } in
      ground (
        arith,
        total-insert (share scope reserved_call) k r calls,
        total-insert (share scope consumed_call) k r calls,
        total-insert (share scope reserved_cost) k r calls,
        total-insert (share scope consumed_cost) k r calls,
        total-insert (share scope reserved_duration) k r calls,
        total-insert (share scope consumed_duration) k r calls,
      )

-- A call that moves from the record `r` to `r'` moves the usage from `u` to `u'`.
pub record Balance (u u' : BudgetUsage) (scope : Scope) (r r' : ModelCallRecord) : Type 0 where
  pub call_reserved :
      u'.model_calls_reserved + share scope reserved_call r
      ≡ u.model_calls_reserved + share scope reserved_call r'
  pub call_consumed :
      u'.model_calls_consumed + share scope consumed_call r
      ≡ u.model_calls_consumed + share scope consumed_call r'
  pub cost_reserved :
      u'.cost_micros_reserved + share scope reserved_cost r
      ≡ u.cost_micros_reserved + share scope reserved_cost r'
  pub cost_consumed :
      u'.cost_micros_consumed + share scope consumed_cost r
      ≡ u.cost_micros_consumed + share scope consumed_cost r'
  pub duration_reserved :
      u'.duration_ms_reserved + share scope reserved_duration r
      ≡ u.duration_ms_reserved + share scope reserved_duration r'
  pub duration_consumed :
      u'.duration_ms_consumed + share scope consumed_duration r
      ≡ u.duration_ms_consumed + share scope consumed_duration r'

module _ (u u' : BudgetUsage) (scope : Scope) (calls : Map ModelCallRecord) where
  pub Accounts-modify :
      (k : String) (s : ModelCallState) (r : ModelCallRecord)
      → get k calls ≡ some r
      → Accounts u scope calls
      → Balance u u' scope r (set_state s r)
      → Accounts u' scope (modify k (set_state s) calls)
  Accounts-modify k s r h b e = record {
    calls_reserved =
        omega (arith, b, e, total-modify (share scope reserved_call) k (set_state s) calls r h);
    calls_consumed =
        omega (arith, b, e, total-modify (share scope consumed_call) k (set_state s) calls r h);
    cost_reserved =
        omega (arith, b, e, total-modify (share scope reserved_cost) k (set_state s) calls r h);
    cost_consumed =
        omega (arith, b, e, total-modify (share scope consumed_cost) k (set_state s) calls r h);
    duration_reserved =
        omega (arith, b, e, total-modify (share scope reserved_duration) k (set_state s) calls r h);
    duration_consumed =
        omega (arith, b, e, total-modify (share scope consumed_duration) k (set_state s) calls r h);
  }

-- What a call that owns a reservation has reserved is part of the usage.
pub record Holds (u : BudgetUsage) (a : ModelCallAdmission) : Type 0 where
  pub holds_call : 1 ≤ u.model_calls_reserved
  pub holds_cost : a.reserved_cost_micros ≤ u.cost_micros_reserved
  pub holds_duration : a.duration_allowance_ms ≤ u.duration_ms_reserved

pub Accounts-Holds :
    (u : BudgetUsage) (scope : Scope) (calls : Map ModelCallRecord) (k : String)
    (r : ModelCallRecord)
    → get k calls ≡ some r
    → Accounts u scope calls
    → owns_reservation r.state ≡ true
    → scope r.admission ≡ true
    → Holds u r.admission
Accounts-Holds u scope calls k r h b was here = ground (
  arith,
  le-total (share scope reserved_call) k calls r h,
  le-total (share scope reserved_cost) k calls r h,
  le-total (share scope reserved_duration) k calls r h,
)

module _ (u : BudgetUsage) (scope : Scope) (r : ModelCallRecord) where
  -- A call outside the scope changes nothing.
  pub Balance-other :
      (s : ModelCallState) → scope r.admission ≡ false → Balance u u scope r (set_state s r)
  Balance-other s out = ground arith

  pub Balance-dispatch :
      r.state ≡ ModelCallState.reserved
      → Balance u u scope r (set_state ModelCallState.dispatched r)
  unfolding owns_reservation
  Balance-dispatch was = ground arith

  pub Balance-release :
      Holds u r.admission
      → owns_reservation r.state ≡ true
      → scope r.admission ≡ true
      → Balance u
          (release_usage u r.admission)
          scope
          r
          (set_state ModelCallState.reconciled_released r)
  unfolding release_usage saturating_sub owns_reservation
  Balance-release held was here = ground arith

module _ (u : BudgetUsage) (scope : Scope) (r : ModelCallRecord) (l : Limits) where
  pub Balance-reserve :
      IsProper l
      → HasRoom u l r.admission
      → r.state ≡ ModelCallState.admitted
      → scope r.admission ≡ true
      → Balance u (reserve_usage u r.admission) scope r (set_state ModelCallState.reserved r)
  unfolding reserve_usage saturating_add_u32 saturating_add_u64 owns_reservation
  Balance-reserve p room was here = ground arith

  pub Balance-consume :
      (cost duration : ℕ)
      → IsProper l
      → Within u l
      → Holds u r.admission
      → cost ≤ r.admission.reserved_cost_micros
      → duration ≤ r.admission.duration_allowance_ms
      → r.state ≡ ModelCallState.dispatched
      → scope r.admission ≡ true
      → Balance u
          (consume_usage u r.admission cost duration)
          scope
          r
          (set_state (ModelCallState.reconciled_consumed cost duration) r)
  unfolding consume_usage saturating_add_u32 saturating_add_u64 saturating_sub owns_reservation
  Balance-consume cost duration p w held c d was here = ground arith

  -- What is consumed in place of a reservation stays within the limits.
  pub consume_usage-Within :
      (cost duration : ℕ)
      → IsProper l
      → Within u l
      → Holds u r.admission
      → cost ≤ r.admission.reserved_cost_micros
      → duration ≤ r.admission.duration_allowance_ms
      → Within (consume_usage u r.admission cost duration) l
  unfolding consume_usage saturating_add_u32 saturating_add_u64 saturating_sub
  consume_usage-Within cost duration p w held c d = ground arith
