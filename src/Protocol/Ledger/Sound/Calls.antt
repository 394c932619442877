-- ===== src/Protocol/Ledger/Sound/Calls.antt =====
-- The books of one usage, when one of its calls is reserved, released or consumed.
use rustgrid_agent.Prelude.{ℕ, ◌≤◌, String, ◌≡◌, true, some, arith}
use rustgrid_agent.Map.{Map, get, modify}
use rustgrid_agent.Protocol.Model.{BudgetUsage, ModelCallState, ModelCallRecord, owns_reservation}
use rustgrid_agent.Protocol.Usage.{reserve_usage, release_usage, consume_usage}
use rustgrid_agent.Protocol.Usage.Capacity.{
  Limits, HasRoom, reserve_usage-Within, release_usage-Within,
}
use rustgrid_agent.Protocol.Ledger.{set_state}
use rustgrid_agent.Protocol.Ledger.Accounts.{
  Scope, Accounts-modify, Accounts-Holds, Balance-reserve, Balance-release, Balance-consume, Holds,
  consume_usage-Within,
}
use rustgrid_agent.Protocol.Ledger.Sound.{Books}

module _ (u : BudgetUsage) (l : Limits) (scope : Scope) (calls : Map ModelCallRecord) (k : String)
    (r : ModelCallRecord) (h : get k calls ≡ some r) (here : scope r.admission ≡ true)
    (b : Books u l scope calls) where
  pub Books-reserve :
      HasRoom u l r.admission
      → r.state ≡ ModelCallState.admitted
      → Books
          (reserve_usage u r.admission)
          l
          scope
          (modify k (set_state ModelCallState.reserved) calls)
  Books-reserve room was = record {
    proper = b.proper;
    accounts =
        Accounts-modify u (reserve_usage u r.admission) scope calls k ModelCallState.reserved r h
          b.accounts (Balance-reserve u scope r l b.proper room was here);
    within = reserve_usage-Within u r.admission l b.proper room;
  }

  held : owns_reservation r.state ≡ true → Holds u r.admission
  held owns = Accounts-Holds u scope calls k r h b.accounts owns here

  pub Books-release :
      owns_reservation r.state ≡ true
      → Books
          (release_usage u r.admission)
          l
          scope
          (modify k (set_state ModelCallState.reconciled_released) calls)
  Books-release owns = record {
    proper = b.proper;
    accounts =
        Accounts-modify u (release_usage u r.admission) scope calls k
          ModelCallState.reconciled_released r h b.accounts
          (Balance-release u scope r (held owns) owns here);
    within = release_usage-Within u r.admission l b.within;
  }

  pub Books-consume :
      (cost duration : ℕ)
      → cost ≤ r.admission.reserved_cost_micros
      → duration ≤ r.admission.duration_allowance_ms
      → r.state ≡ ModelCallState.dispatched
      → Books
          (consume_usage u r.admission cost duration)
          l
          scope
          (modify k (set_state (ModelCallState.reconciled_consumed cost duration)) calls)
  unfolding owns_reservation
  Books-consume cost duration c d was =
      let p : Holds u r.admission = held (ground arith) in
      record {
        proper = b.proper;
        accounts =
            Accounts-modify u (consume_usage u r.admission cost duration) scope calls k
              (ModelCallState.reconciled_consumed cost duration) r h b.accounts
              (Balance-consume u scope r l cost duration b.proper b.within p c d was here);
        within = consume_usage-Within u scope r l cost duration b.proper b.within p c d;
      }
