-- ===== src/Protocol/Ledger/Check/Tally.antt =====
-- The sums of `validate_budget_invariants` in src/execution_protocol/reducer.rs against the exact
-- sums over the calls.
use rustgrid_agent.Prelude.{
  ℕ, ◌+◌, ◌≤◌, min, String, ◌≡◌, refl, Option, none, some, List, [], ◌∷◌, arith, eq_iff,
  Option-cases, inl, inr,
}
use rustgrid_agent.Map.{Map, get, get-modify}
use rustgrid_agent.Map.Sums.{total}
use rustgrid_agent.Protocol.Violation.{ok, Result-cases, Fails-bind}
use rustgrid_agent.Protocol.Model.{
  BudgetUsage, no_usage, ModelCallAdmission, ModelCallState, ModelCallRecord, ExecutionNode,
  LoggedEvent,
}
use rustgrid_agent.Protocol.Ledger.{charge_attempt}
use rustgrid_agent.Protocol.Ledger.Accounts.{everyone, owned_by, share}
use rustgrid_agent.Protocol.Ledger.Check.{
  Computed, both, add_record, tally_calls, attempt_round, tally_attempts, charge_rebuild,
  rebuild_round, tally_rebuilds, no_node_usage,
}

-- One count of a usage, read in the map of computed usages.
abbrev pub read_in : (BudgetUsage → ℕ) → Option BudgetUsage → ℕ
read_in g none = 0
read_in g (some u) = g u

abbrev pub read : (BudgetUsage → ℕ) → String → Computed → ℕ
read g n t = read_in g (get n t.node_usage)

-- A count with what a call adds to it, and the largest word of its type.
pub record Counts (g : BudgetUsage → ℕ) (w : ModelCallState → ModelCallAdmission → ℕ) (m : ℕ)
    : Type 0 where
  pub added :
      (s : ModelCallState) (a : ModelCallAdmission) (u : BudgetUsage)
      → g u ≤ m
      → g (add_record s a u) ≡ min (g u + w s a) m
  pub attempts : (u : BudgetUsage) → g (charge_attempt u) ≡ g u
  pub rebuilds : (u : BudgetUsage) → g (charge_rebuild u) ≡ g u
  pub empty : g no_usage ≡ 0

module _ (g : BudgetUsage → ℕ) (w : ModelCallState → ModelCallAdmission → ℕ) (m : ℕ)
    (c : Counts g w m) where
  read-both :
      (n : String) (r : ModelCallRecord) (t : Computed) (u : BudgetUsage)
      → get r.admission.node_id t.node_usage ≡ some u
      → read g n t ≤ m
      → read g n (both r.admission.node_id (add_record r.state r.admission) t)
        ≡ min (read g n t + share (owned_by n) w r) m
  read-both n r t u e h = elim (Option-cases (get n t.node_usage)) [
    | inl no_usage_there ↦ ground (
      arith,
      eq_iff r.admission.node_id n,
      get-modify r.admission.node_id n (add_record r.state r.admission) t.node_usage,
    )
    | inr (v, there) ↦ ground (
      arith,
      eq_iff r.admission.node_id n,
      get-modify r.admission.node_id n (add_record r.state r.admission) t.node_usage,
      c.added r.state r.admission v,
    )
  ]

  pub tally_calls_sum :
      (n : String) (calls : Map ModelCallRecord) (t t' : Computed)
      → tally_calls calls t ≡ ok t'
      → read g n t ≤ m
      → g t.mission ≤ m
      → (read g n t' ≡ min (read g n t + total (share (owned_by n) w) calls) m)
        × (g t'.mission ≡ min (g t.mission + total (share everyone w) calls) m)
  unfolding tally_calls total
  tally_calls_sum n [] t t' h a b = ground arith
  tally_calls_sum n ((k, r) ∷ calls) t t' h a b =
      elim (Option-cases (get r.admission.node_id t.node_usage)) [
        | inl no_owner ↦ absurd (ground arith)
        | inr (u, e) ↦
            let t1 = both r.admission.node_id (add_record r.state r.admission) t in
            ground (
              arith,
              read-both n r t u e,
              c.added r.state r.admission t.mission,
              tally_calls_sum n calls t1 t',
            )
      ]

module _ (g : BudgetUsage → ℕ) where
  -- A write that the count does not see.
  read-both_same :
      (n k : String) (f : BudgetUsage → BudgetUsage) (t : Computed)
      → ((u : BudgetUsage) → g (f u) ≡ g u)
      → (read g n (both k f t) ≡ read g n t) × (g (both k f t).mission ≡ g t.mission)
  read-both_same n k f t same = elim (Option-cases (get n t.node_usage)) [
    | inl e ↦ ground (arith, get-modify k n f t.node_usage, same t.mission)
    | inr (u, e) ↦ ground (arith, get-modify k n f t.node_usage, same u, same t.mission)
  ]

  abbrev Kept : String → Computed → Computed → Type 0
  Kept n t t' = (read g n t' ≡ read g n t) × (g t'.mission ≡ g t.mission)

  attempt-Kept :
      (n : String) (calls : Map ModelCallRecord) (k node attempt : String)
      (s s' : List String × Computed)
      → ((u : BudgetUsage) → g (charge_attempt u) ≡ g u)
      → attempt_round calls k node attempt s ≡ ok s'
      → Kept n s.1 s'.1
  unfolding attempt_round
  attempt-Kept n calls k node attempt (seen, t) s' same h =
      elim (Option-cases (get node t.node_usage)) [
        | inl e ↦ ground (arith, read-both_same n node charge_attempt t same)
        | inr (u, e) ↦ ground (arith, read-both_same n node charge_attempt t same)
      ]

  pub tally_attempts-Kept :
      (n : String) (calls : Map ModelCallRecord) (m : Map (String × String))
      (s s' : List String × Computed)
      → ((u : BudgetUsage) → g (charge_attempt u) ≡ g u)
      → tally_attempts calls m s ≡ ok s'
      → Kept n s.1 s'.1
  unfolding tally_attempts
  tally_attempts-Kept n calls [] s s' same h = ground arith
  tally_attempts-Kept n calls ((k, (node, attempt)) ∷ m) s s' same h =
      elim (Result-cases (attempt_round calls k node attempt s)) [
        | inl (mid, e) ↦ ground (
          arith,
          attempt-Kept n calls k node attempt s mid same e,
          tally_attempts-Kept n calls m mid s' same,
        )
        | inr other ↦
            absurd (
              Fails-bind (attempt_round calls k node attempt s) (tally_attempts calls m) s' other h)
      ]

  rebuild-Kept :
      (n : String) (e : LoggedEvent) (t t' : Computed)
      → ((u : BudgetUsage) → g (charge_rebuild u) ≡ g u)
      → rebuild_round e t ≡ ok t'
      → Kept n t t'
  unfolding rebuild_round
  rebuild-Kept n (LoggedEvent.target_context_superseded k) t t' same h =
      elim (Option-cases (get k t.node_usage)) [
        | inl e ↦ absurd (ground arith)
        | inr (u, e) ↦ ground (arith, read-both_same n k charge_rebuild t same)
      ]
  rebuild-Kept n (LoggedEvent.mutation_prepared p) t t' same h = ground arith
  rebuild-Kept n (LoggedEvent.nodes_added proof_id nodes) t t' same h = ground arith
  rebuild-Kept n (LoggedEvent.repair_node_added proof_id) t t' same h = ground arith
  rebuild-Kept n LoggedEvent.other t t' same h = ground arith

  pub tally_rebuilds-Kept :
      (n : String) (log : List LoggedEvent) (t t' : Computed)
      → ((u : BudgetUsage) → g (charge_rebuild u) ≡ g u)
      → tally_rebuilds log t ≡ ok t'
      → Kept n t t'
  unfolding tally_rebuilds
  tally_rebuilds-Kept n [] t t' same h = ground arith
  tally_rebuilds-Kept n (e ∷ log) t t' same h = elim (Result-cases (rebuild_round e t)) [
    | inl (mid, q) ↦
        ground (arith, rebuild-Kept n e t mid same q, tally_rebuilds-Kept n log mid t' same)
    | inr other ↦ absurd (Fails-bind (rebuild_round e t) (tally_rebuilds log) t' other h)
  ]

  pub read-no_node_usage :
      (n : String) (nodes : Map ExecutionNode)
      → g no_usage ≡ 0
      → read_in g (get n (no_node_usage nodes)) ≡ 0
  unfolding no_node_usage get
  read-no_node_usage n [] z = refl
  read-no_node_usage n ((k, node) ∷ nodes) z = ground (arith, read-no_node_usage n nodes z)
