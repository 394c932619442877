-- ===== src/Protocol/Ledger/Spending.antt =====
-- Sequences of accepted budget events, against the books and the mission's limits.
use mathlib.Core.Path.{subst}
use rustgrid_agent.Prelude.{
  ℕ, ◌+◌, ◌≤◌, String, ◌≡◌, refl, sym, ap, ◌∙◌, Bool, true, false, arith, some, ◌==◌, eq_iff,
  Bool-cases, inl, inr,
}
use rustgrid_agent.Map.{get}
use rustgrid_agent.Map.Sums.{total}
use rustgrid_agent.Protocol.Violation.{ok}
use rustgrid_agent.Protocol.Model.{ExecutionState, ModelCallState}
use rustgrid_agent.Protocol.Ledger.{BudgetEvent, apply_budget_event}
use rustgrid_agent.Protocol.Ledger.Accounts.{
  everyone, share, reserved_call, consumed_call, reserved_cost, consumed_cost, reserved_duration,
  consumed_duration,
}
use rustgrid_agent.Protocol.Ledger.Lifecycle.{
  CallStep, call_state, state_of, named, Moved, apply_budget_event-Moved,
}
use rustgrid_agent.Protocol.Ledger.Sound.{IsSound}
use rustgrid_agent.Protocol.Ledger.Sound.Steps.{
  admit_model_call-IsSound, reserve_model_call-IsSound, start_provider_dispatch-IsSound,
}
use rustgrid_agent.Protocol.Ledger.Sound.Reconcile.{reconcile_model_call-IsSound}

-- Every accepted budget event, of each of the four kinds, keeps the ledger sound.
pub apply_budget_event-IsSound :
    (e : BudgetEvent) (st st' : ExecutionState)
    → IsSound st
    → apply_budget_event e st ≡ ok st'
    → IsSound st'
unfolding apply_budget_event
apply_budget_event-IsSound (BudgetEvent.model_call_admitted a) st st' sound h =
    admit_model_call-IsSound a st st' h sound
apply_budget_event-IsSound (BudgetEvent.model_call_reserved k) st st' sound h =
    reserve_model_call-IsSound k st st' h sound
apply_budget_event-IsSound (BudgetEvent.provider_dispatch_started k payload) st st' sound h =
    start_provider_dispatch-IsSound k payload st st' h sound
apply_budget_event-IsSound (BudgetEvent.model_call_reconciled k result) st st' sound h =
    reconcile_model_call-IsSound k result st st' h sound

-- States that accepted budget events lead to.
pub data Reaches (st : ExecutionState) : ExecutionState → Type 0 where
  here : Reaches st st
  next :
      {mid last : ExecutionState} (e : BudgetEvent)
      → Reaches st mid
      → apply_budget_event e mid ≡ ok last
      → Reaches st last

pub Reaches-IsSound : {st last : ExecutionState} → IsSound st → Reaches st last → IsSound last
Reaches-IsSound sound here = sound
Reaches-IsSound sound (next {mid} {last} e r h) =
    apply_budget_event-IsSound e mid last (Reaches-IsSound sound r) h

Reaches-mission_budget :
    {st last : ExecutionState} → Reaches st last → last.mission_budget ≡ st.mission_budget
Reaches-mission_budget here = refl
Reaches-mission_budget (next {mid} {last} e r h) =
    sym
      (ap (λ (x : ExecutionState). x.mission_budget) (apply_budget_event-Moved e mid last h).frame)
    ∙ Reaches-mission_budget r

-- What all calls together have consumed and hold reserved, in exact arithmetic.
abbrev pub committed_calls : ExecutionState → ℕ
committed_calls st =
    total (share everyone consumed_call) st.budgets.model_calls
    + total (share everyone reserved_call) st.budgets.model_calls

abbrev pub committed_cost : ExecutionState → ℕ
committed_cost st =
    total (share everyone consumed_cost) st.budgets.model_calls
    + total (share everyone reserved_cost) st.budgets.model_calls

abbrev pub committed_duration : ExecutionState → ℕ
committed_duration st =
    total (share everyone consumed_duration) st.budgets.model_calls
    + total (share everyone reserved_duration) st.budgets.model_calls

-- From a sound state, whatever budget events are accepted, the exact sums over all model calls of
-- what they have consumed and what they hold reserved stay within the mission's contract: in calls,
-- in cost and in duration.
pub spending_bounded :
    (st last : ExecutionState)
    → IsSound st
    → Reaches st last
    → (committed_calls last ≤ st.mission_budget.max_model_calls)
      × (committed_cost last ≤ st.mission_budget.max_cost_micros)
      × (committed_duration last ≤ st.mission_budget.max_duration_ms)
spending_bounded st last sound r =
    let b : IsSound last = Reaches-IsSound sound r in
    ground (arith, b.mission.accounts, b.mission.within, Reaches-mission_budget r)

abbrev pub is_reconciled : ModelCallState → Bool
is_reconciled (ModelCallState.reconciled_consumed cost duration) = true
is_reconciled ModelCallState.reconciled_released = true
is_reconciled _ = false

not_from_reconciled : (s t : ModelCallState) → is_reconciled s ≡ true → ¬ (CallStep (some s) t)
not_from_reconciled ModelCallState.admitted t h step = cc
not_from_reconciled ModelCallState.reserved t h step = cc
not_from_reconciled ModelCallState.dispatched t h step = cc
not_from_reconciled (ModelCallState.reconciled_consumed c d) t h step = elim step [ ]
not_from_reconciled ModelCallState.reconciled_released t h step = elim step [ ]

final_step :
    (k n : String) (st st' : ExecutionState) (s : ModelCallState)
    → call_state k st ≡ some s
    → is_reconciled s ≡ true
    → Moved n st st'
    → get k st'.budgets.model_calls ≡ get k st.budgets.model_calls
final_step k n st st' s at done m = elim (Bool-cases (n == k)) [
  | inl this ↦
      let q : n ≡ k = (eq_iff n k).0 this in
      absurd (
        not_from_reconciled s m.target done
          (subst (λ o. CallStep o m.target) (ap (λ j. call_state j st) q ∙ at) m.step))
  | inr other ↦ m.others k other
]

-- A reconciled call is final: whatever budget events are accepted afterwards, its record, with the
-- usage that it was reconciled to, stays as it is.
pub reconciled_final :
    (k : String) (s : ModelCallState) (st last : ExecutionState)
    → call_state k st ≡ some s
    → is_reconciled s ≡ true
    → Reaches st last
    → get k last.budgets.model_calls ≡ get k st.budgets.model_calls
reconciled_final k s st last at done here = refl
reconciled_final k s st last at done (next {mid} e r h) =
    let same : get k mid.budgets.model_calls ≡ get k st.budgets.model_calls =
      reconciled_final k s st mid at done r in
    final_step k (named e) mid last s (ap state_of same ∙ at) done
      (apply_budget_event-Moved e mid last h)
    ∙ same
