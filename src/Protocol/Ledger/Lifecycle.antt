-- ===== src/Protocol/Ledger/Lifecycle.antt =====
-- The life of one model call, as a step relation, against the handlers of the ledger.
use mathlib.Core.Path.{subst}
use rustgrid_agent.Prelude.{
  ℕ, String, ◌≡◌, refl, sym, ap, true, false, Option, none, some, arith, ◌==◌, eq_refl,
}
use rustgrid_agent.Map.{get, insert, modify, get-insert, get-modify}
use rustgrid_agent.Protocol.Violation.{ok, expect_mut, ok_injective}
use rustgrid_agent.Protocol.Model.{
  BudgetUsage, ModelCallAdmission, ModelCallState, ModelCallRecord, ModelCallReconciliation,
  ExecutionState, PreparedMutation, owns_reservation,
}
use rustgrid_agent.Protocol.Usage.{reserve_usage, release_usage, consume_usage}
use rustgrid_agent.Protocol.Ledger.{
  set_calls, set_state, BudgetEvent, apply_budget_event, reconcile_record, charge_mutation_attempt,
}
use rustgrid_agent.Protocol.Ledger.Guards.{prepared_mutation_for}
use rustgrid_agent.Protocol.Ledger.Sound.Writes.{settled}
use rustgrid_agent.Protocol.Ledger.Sound.Admission.{get_of_contains_key, charged}
use rustgrid_agent.Protocol.Ledger.Sound.Steps.{admitted_facts, reserved_facts, dispatched_facts}
use rustgrid_agent.Protocol.Ledger.Sound.Reconcile.{reconciled_facts, consumed_facts, settle_facts}

pub data CallStep : Option ModelCallState → ModelCallState → Type 0 where
  admit : CallStep none ModelCallState.admitted
  reserve : CallStep (some ModelCallState.admitted) ModelCallState.reserved
  dispatch : CallStep (some ModelCallState.reserved) ModelCallState.dispatched
  release_reserved : CallStep (some ModelCallState.reserved) ModelCallState.reconciled_released
  release_dispatched : CallStep (some ModelCallState.dispatched) ModelCallState.reconciled_released
  consume :
      (cost duration : ℕ)
      → CallStep (some ModelCallState.dispatched) (ModelCallState.reconciled_consumed cost duration)

abbrev pub state_of : Option ModelCallRecord → Option ModelCallState
state_of none = none
state_of (some r) = some r.state

abbrev pub call_state : String → ExecutionState → Option ModelCallState
call_state k st = state_of (get k st.budgets.model_calls)

-- The call that the event names.
abbrev pub named : BudgetEvent → String
named (BudgetEvent.model_call_admitted a) = a.call_id
named (BudgetEvent.model_call_reserved k) = k
named (BudgetEvent.provider_dispatch_started k payload) = k
named (BudgetEvent.model_call_reconciled k result) = k

-- From `st` to `st'` the call under `k` takes one step, no other call changes, and nothing outside
-- the nodes and the budgets does.
pub record Moved (k : String) (st st' : ExecutionState) : Type 0 where
  pub target : ModelCallState
  pub now : call_state k st' ≡ some target
  pub step : CallStep (call_state k st) target
  pub others :
      (j : String) → (k == j) ≡ false → get j st'.budgets.model_calls ≡ get j st.budgets.model_calls
  pub frame : record st { nodes = st'.nodes; budgets = st'.budgets } ≡ st'

module _ (k : String) (st : ExecutionState) (r : ModelCallRecord) (s : ModelCallState)
    (e : get k st.budgets.model_calls ≡ some r) (step : CallStep (some r.state) s) where
  step' : CallStep (call_state k st) s
  step' = subst (λ o. CallStep (state_of o) s) (sym e) step

  now' : state_of (get k (modify k (set_state s) st.budgets.model_calls)) ≡ some s
  now' = ground (arith, get-modify k k (set_state s) st.budgets.model_calls, eq_refl k)

  others' :
      (j : String)
      → (k == j) ≡ false
      → get j (modify k (set_state s) st.budgets.model_calls) ≡ get j st.budgets.model_calls
  others' j other = ground (arith, get-modify k j (set_state s) st.budgets.model_calls)

  Moved-set_calls : Moved k st (set_calls st (modify k (set_state s) st.budgets.model_calls))
  Moved-set_calls = record { target = s; now = now'; step = step'; others = others'; frame = refl }

  Moved-settled : (f : BudgetUsage → BudgetUsage) → Moved k st (settled k r f s st)
  Moved-settled f = record { target = s; now = now'; step = step'; others = others'; frame = refl }

Moved-charged :
    (k owner : String) (st mid : ExecutionState) → Moved k st mid → Moved k st (charged owner mid)
Moved-charged k owner st mid m = record {
  target = m.target;
  now = m.now;
  step = m.step;
  others = m.others;
  frame = ap (charged owner) m.frame;
}

charge_eq :
    (p : PreparedMutation) (mid last : ExecutionState)
    → charge_mutation_attempt (some p) mid ≡ ok last
    → charged p.policy_node_id mid ≡ last
unfolding charge_mutation_attempt expect_mut
charge_eq p mid last h = ground arith

Moved-charge :
    (k : String) (o : Option PreparedMutation) (st mid last : ExecutionState)
    → Moved k st mid
    → charge_mutation_attempt o mid ≡ ok last
    → Moved k st last
unfolding charge_mutation_attempt expect_mut
Moved-charge k none st mid last m h = subst (λ x. Moved k st x) (ok_injective h) m
Moved-charge k (some p) st mid last m h =
    subst (λ x. Moved k st x) (charge_eq p mid last h) (Moved-charged k p.policy_node_id st mid m)

Moved-admit :
    (a : ModelCallAdmission) (st : ExecutionState)
    → get a.call_id st.budgets.model_calls ≡ none
    → Moved a.call_id st (
        set_calls st (
          insert a.call_id
            (record { admission = a; state = ModelCallState.admitted })
            st.budgets.model_calls))
Moved-admit a st e =
    let r : ModelCallRecord = record { admission = a; state = ModelCallState.admitted } in
    record {
      target = ModelCallState.admitted;
      now =
          ground
            (arith, get-insert a.call_id a.call_id r st.budgets.model_calls, eq_refl a.call_id);
      step = subst (λ o. CallStep (state_of o) ModelCallState.admitted) (sym e) CallStep.admit;
      others = λ j other. ground (arith, get-insert a.call_id j r st.budgets.model_calls);
      frame = refl;
    }

release_step :
    (s : ModelCallState)
    → owns_reservation s ≡ true
    → CallStep (some s) ModelCallState.reconciled_released
unfolding owns_reservation
release_step ModelCallState.reserved h = CallStep.release_reserved
release_step ModelCallState.dispatched h = CallStep.release_dispatched
release_step ModelCallState.admitted h = cc
release_step (ModelCallState.reconciled_consumed c d) h = cc
release_step ModelCallState.reconciled_released h = cc

Moved-reconcile :
    (k : String) (result : ModelCallReconciliation) (r : ModelCallRecord) (st st' : ExecutionState)
    → get k st.budgets.model_calls ≡ some r
    → owns_reservation r.state ≡ true
    → reconcile_record k r result st ≡ ok st'
    → Moved k st st'
Moved-reconcile k (ModelCallReconciliation.consumed cost duration) r st st' e owns h =
    let (owner, at, was, c, d, allowed, q) = consumed_facts k r cost duration st st' h in
    let f : BudgetUsage → BudgetUsage = λ u. consume_usage u r.admission cost duration in
    let done : ModelCallState = ModelCallState.reconciled_consumed cost duration in
    Moved-charge k (prepared_mutation_for k st.event_log) st (settled k r f done st) st'
      (Moved-settled k st r done e
        (subst (λ s. CallStep (some s) done) (sym was) (CallStep.consume cost duration)) f)
      q
Moved-reconcile k ModelCallReconciliation.released_uncontacted r st st' e owns h =
    let f : BudgetUsage → BudgetUsage = λ u. release_usage u r.admission in
    let (owner, at, q) =
      settle_facts k r f ModelCallState.reconciled_released st st' (unfold reconcile_record in h) in
    subst (λ x. Moved k st x) q
      (Moved-settled k st r ModelCallState.reconciled_released e (release_step r.state owns) f)

-- Every accepted budget event takes the call that it names one step along `CallStep`, and changes no
-- other call, and nothing of the state but the nodes and the budgets.
pub apply_budget_event-Moved :
    (e : BudgetEvent) (st st' : ExecutionState)
    → apply_budget_event e st ≡ ok st'
    → Moved (named e) st st'
unfolding apply_budget_event
apply_budget_event-Moved (BudgetEvent.model_call_admitted a) st st' h =
    let (node, at, fresh, idle, q) = admitted_facts a st st' h in
    subst (λ x. Moved a.call_id st x) q
      (Moved-admit a st (get_of_contains_key a.call_id st.budgets.model_calls fresh))
apply_budget_event-Moved (BudgetEvent.model_call_reserved k) st st' h =
    let (r, owner, e, at, was, _, _, _, q) = reserved_facts k st st' h in
    subst (λ x. Moved k st x) q
      (Moved-settled k st r ModelCallState.reserved e
        (subst (λ s. CallStep (some s) ModelCallState.reserved) (sym was) CallStep.reserve)
        (λ u. reserve_usage u r.admission))
apply_budget_event-Moved (BudgetEvent.provider_dispatch_started k payload) st st' h =
    let (r, e, was, _, q) = dispatched_facts k payload st st' h in
    subst (λ x. Moved k st x) q
      (Moved-set_calls k st r ModelCallState.dispatched e
        (subst (λ s. CallStep (some s) ModelCallState.dispatched) (sym was) CallStep.dispatch))
apply_budget_event-Moved (BudgetEvent.model_call_reconciled k result) st st' h =
    let (r, e, owns, q) = reconciled_facts k result st st' h in
    Moved-reconcile k result r st st' e owns q
