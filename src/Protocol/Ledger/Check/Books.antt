-- ===== src/Protocol/Ledger/Check/Books.antt =====
-- `validate_budget_invariants` of src/execution_protocol/reducer.rs: a state that passes has the
-- exact books.
use rustgrid_agent.Prelude.{
  ℕ, min, String, ◌≡◌, true, Option, some, List, [], ◌∷◌, arith, Option-cases, inl, inr,
}
use rustgrid_agent.Words.{u32_max, u64_max, saturating_add_u32, saturating_add_u64}
use rustgrid_agent.Map.{Map, get}
use rustgrid_agent.Map.Sums.{total}
use rustgrid_agent.Protocol.Violation.{ok, Result-cases}
use rustgrid_agent.Protocol.Model.{
  BudgetUsage, no_usage, NodeBudgetContract, MissionBudgetContract, ModelCallAdmission,
  ModelCallState, ModelCallRecord, ExecutionNode, ExecutionState,
}
use rustgrid_agent.Protocol.Usage.{validate_usage_limits, validate_mission_usage_limits}
use rustgrid_agent.Protocol.Usage.Capacity.{node_limits, mission_limits, IsProper}
use rustgrid_agent.Protocol.Ledger.Accounts.{
  Scope, everyone, owned_by, share, reserved_call, reserved_cost, reserved_duration, consumed_call,
  consumed_cost, consumed_duration,
}
use rustgrid_agent.Protocol.Ledger.Sound.{Books, NodeBooks, IsSound}
use rustgrid_agent.Protocol.Ledger.Check.{
  Computed, tally_calls, tally_attempts, tally_rebuilds, usage_eq, check_node, check_nodes,
  check_calls, mutation_calls, no_node_usage, validate_budget_invariants,
}
use rustgrid_agent.Protocol.Ledger.Check.Tally.{
  Counts, read, tally_calls_sum, tally_attempts-Kept, tally_rebuilds-Kept, read-no_node_usage,
}
use rustgrid_agent.Protocol.Ledger.Check.Counts.{
  Counts-calls_reserved, Counts-calls_consumed, Counts-cost_reserved, Counts-cost_consumed,
  Counts-duration_reserved, Counts-duration_consumed,
}
use rustgrid_agent.Protocol.Ledger.Check.Calls.{IsKeyed, check_calls-Owned, check_calls-one_open}

usage_eq-≡ : (u v : BudgetUsage) → usage_eq u v ≡ true → u ≡ v
unfolding usage_eq
usage_eq-≡ u v h = ground arith

-- The three rounds together, on one count.
record Rounds (st : ExecutionState) : Type 0 where
  by_calls : Computed
  by_attempts : List String × Computed
  computed : Computed
  calls :
      tally_calls st.budgets.model_calls
        (record { node_usage = no_node_usage st.nodes; mission = no_usage })
      ≡ ok by_calls
  attempts :
      tally_attempts st.budgets.model_calls (mutation_calls st.event_log []) ([], by_calls)
      ≡ ok by_attempts
  rebuilds : tally_rebuilds st.event_log by_attempts.1 ≡ ok computed
  checked : check_calls st.nodes st.budgets.model_calls [] ≡ ok tt
  nodes : check_nodes computed.node_usage st.nodes ≡ ok tt
  mission : st.budgets.mission_usage ≡ computed.mission
  limits : validate_mission_usage_limits st.budgets.mission_usage st.mission_budget ≡ ok tt

module _ (st : ExecutionState) where
  abbrev start : Computed
  start = record { node_usage = no_node_usage st.nodes; mission = no_usage }

  rounds : validate_budget_invariants st ≡ ok tt → Rounds st
  unfolding validate_budget_invariants
  rounds h = elim (Result-cases (check_calls st.nodes st.budgets.model_calls [])) [
    | inr other ↦ absurd (ground arith)
    | inl (tt, a) ↦ elim (Result-cases (tally_calls st.budgets.model_calls start)) [
      | inr other ↦ absurd (ground arith)
      | inl (c, b) ↦
          elim (Result-cases
            (tally_attempts st.budgets.model_calls (mutation_calls st.event_log []) ([], c))) [
              | inr other ↦ absurd (ground arith)
              | inl (d, e) ↦ elim (Result-cases (tally_rebuilds st.event_log d.1)) [
                | inr other ↦ absurd (ground arith)
                | inl (f, q) ↦ elim (Result-cases (check_nodes f.node_usage st.nodes)) [
                  | inr other ↦ absurd (ground arith)
                  | inl (tt, i) ↦ record {
                    by_calls = c;
                    by_attempts = d;
                    computed = f;
                    calls = b;
                    attempts = e;
                    rebuilds = q;
                    checked = a;
                    nodes = i;
                    mission = usage_eq-≡ st.budgets.mission_usage f.mission (ground arith);
                    limits = ground arith;
                  }
                ]
              ]
            ]
    ]
  ]

  module _ (g : BudgetUsage → ℕ) (w : ModelCallState → ModelCallAdmission → ℕ) (m : ℕ)
      (c : Counts g w m) (p : Rounds st) where
    read_computed :
        (n : String)
        → (read g n p.computed ≡ min (total (share (owned_by n) w) st.budgets.model_calls) m)
          × (g p.computed.mission ≡ min (total (share everyone w) st.budgets.model_calls) m)
    read_computed n = ground (
      arith,
      c.empty,
      read-no_node_usage g n st.nodes c.empty,
      tally_calls_sum g w m c n st.budgets.model_calls start p.by_calls p.calls,
      tally_attempts-Kept g n st.budgets.model_calls (mutation_calls st.event_log [])
          ([], p.by_calls) p.by_attempts c.attempts p.attempts,
      tally_rebuilds-Kept g n st.event_log p.by_attempts.1 p.computed c.rebuilds p.rebuilds,
    )

-- A usage that is what the calls of the scope add up to, as far as its words reach.
record Filled (u : BudgetUsage) (scope : Scope) (calls : Map ModelCallRecord) : Type 0 where
  calls_reserved : u.model_calls_reserved ≡ min (total (share scope reserved_call) calls) u32_max
  calls_consumed : u.model_calls_consumed ≡ min (total (share scope consumed_call) calls) u32_max
  cost_reserved : u.cost_micros_reserved ≡ min (total (share scope reserved_cost) calls) u64_max
  cost_consumed : u.cost_micros_consumed ≡ min (total (share scope consumed_cost) calls) u64_max
  duration_reserved :
      u.duration_ms_reserved ≡ min (total (share scope reserved_duration) calls) u64_max
  duration_consumed :
      u.duration_ms_consumed ≡ min (total (share scope consumed_duration) calls) u64_max

module _ (u : BudgetUsage) (scope : Scope) (calls : Map ModelCallRecord) where
  node-Books :
      (b : NodeBudgetContract) (name : Option String)
      → IsProper (node_limits b)
      → Filled u scope calls
      → validate_usage_limits u b name ≡ ok tt
      → Books u (node_limits b) scope calls
  unfolding validate_usage_limits saturating_add_u32 saturating_add_u64
  node-Books b name p f h = record {
    proper = p;
    accounts = record {
      calls_reserved = ground arith;
      calls_consumed = ground arith;
      cost_reserved = ground arith;
      cost_consumed = ground arith;
      duration_reserved = ground arith;
      duration_consumed = ground arith;
    };
    within = record {
      calls_within = ground arith;
      cost_within = ground arith;
      duration_within = ground arith;
    };
  }

  mission-Books :
      (b : MissionBudgetContract)
      → IsProper (mission_limits b)
      → Filled u scope calls
      → validate_mission_usage_limits u b ≡ ok tt
      → Books u (mission_limits b) scope calls
  unfolding validate_mission_usage_limits saturating_add_u32 saturating_add_u64
  mission-Books b p f h = record {
    proper = p;
    accounts = record {
      calls_reserved = ground arith;
      calls_consumed = ground arith;
      cost_reserved = ground arith;
      cost_consumed = ground arith;
      duration_reserved = ground arith;
      duration_consumed = ground arith;
    };
    within = record {
      calls_within = ground arith;
      cost_within = ground arith;
      duration_within = ground arith;
    };
  }

pub check_nodes-get :
    (m : Map BudgetUsage) (n : String) (node : ExecutionNode) (nodes : Map ExecutionNode)
    → check_nodes m nodes ≡ ok tt
    → get n nodes ≡ some node
    → check_node m node ≡ ok tt
unfolding check_nodes get
check_nodes-get m n node [] h e = absurd (ground arith)
check_nodes-get m n node ((k, x) ∷ nodes) h e = elim (Result-cases (check_node m x)) [
  | inr other ↦ absurd (ground arith)
  | inl (tt, q) ↦ ground (arith, check_nodes-get m n node nodes)
]

module _ (st : ExecutionState) (p : Rounds st) where
  Filled-mission : Filled st.budgets.mission_usage everyone st.budgets.model_calls
  Filled-mission =
      let e = p.mission in
      record {
        calls_reserved = ground (
          arith,
          e,
          (read_computed st (λ u. u.model_calls_reserved) reserved_call u32_max
              Counts-calls_reserved p "").1,
        );
        calls_consumed = ground (
          arith,
          e,
          (read_computed st (λ u. u.model_calls_consumed) consumed_call u32_max
              Counts-calls_consumed p "").1,
        );
        cost_reserved = ground (
          arith,
          e,
          (read_computed st (λ u. u.cost_micros_reserved) reserved_cost u64_max Counts-cost_reserved
              p "").1,
        );
        cost_consumed = ground (
          arith,
          e,
          (read_computed st (λ u. u.cost_micros_consumed) consumed_cost u64_max Counts-cost_consumed
              p "").1,
        );
        duration_reserved = ground (
          arith,
          e,
          (read_computed st (λ u. u.duration_ms_reserved) reserved_duration u64_max
              Counts-duration_reserved p "").1,
        );
        duration_consumed = ground (
          arith,
          e,
          (read_computed st (λ u. u.duration_ms_consumed) consumed_duration u64_max
              Counts-duration_consumed p "").1,
        );
      }

  Filled-node :
      (n : String) (node : ExecutionNode) (u : BudgetUsage)
      → get n p.computed.node_usage ≡ some u
      → node.usage ≡ u
      → Filled node.usage (owned_by n) st.budgets.model_calls
  Filled-node n node u there e = record {
    calls_reserved = ground (
      arith,
      there,
      e,
      (read_computed st (λ u. u.model_calls_reserved) reserved_call u32_max Counts-calls_reserved p
          n).0,
    );
    calls_consumed = ground (
      arith,
      there,
      e,
      (read_computed st (λ u. u.model_calls_consumed) consumed_call u32_max Counts-calls_consumed p
          n).0,
    );
    cost_reserved = ground (
      arith,
      there,
      e,
      (read_computed st (λ u. u.cost_micros_reserved) reserved_cost u64_max Counts-cost_reserved p
          n).0,
    );
    cost_consumed = ground (
      arith,
      there,
      e,
      (read_computed st (λ u. u.cost_micros_consumed) consumed_cost u64_max Counts-cost_consumed p
          n).0,
    );
    duration_reserved = ground (
      arith,
      there,
      e,
      (read_computed st (λ u. u.duration_ms_reserved) reserved_duration u64_max
          Counts-duration_reserved p n).0,
    );
    duration_consumed = ground (
      arith,
      there,
      e,
      (read_computed st (λ u. u.duration_ms_consumed) consumed_duration u64_max
          Counts-duration_consumed p n).0,
    );
  }

  node_checked :
      (n : String) (node : ExecutionNode)
      → IsKeyed st.nodes
      → IsProper (node_limits node.budget)
      → get n st.nodes ≡ some node
      → NodeBooks n node st.budgets.model_calls
  unfolding check_node get
  node_checked n node keyed proper h =
      let c : check_node p.computed.node_usage node ≡ ok tt =
        check_nodes-get p.computed.node_usage n node st.nodes p.nodes h in
      let named : node.id ≡ n = keyed n node h in
      elim (Option-cases (get node.id p.computed.node_usage)) [
        | inl e ↦ absurd (ground arith)
        | inr (u, e) ↦ record {
          identity = named;
          books =
              node-Books node.usage (owned_by n) st.budgets.model_calls node.budget (some node.id)
                proper
                (Filled-node n node u (ground (arith, e, named))
                  (usage_eq-≡ node.usage u (ground arith)))
                (ground arith);
          attempts = ground arith;
          one_open = omega (
            arith,
            check_calls-one_open st.nodes n st.budgets.model_calls [] keyed p.checked (omega arith),
          );
        }
      ]

-- A state that passes `validate_budget_invariants` has the exact books, when each node stands
-- under its own name and no limit is the largest word: every usage is the exact sum over its
-- calls and within its limits, no node has two open calls, and every call has its name and an
-- owner.
pub validate_budget_invariants-IsSound :
    (st : ExecutionState)
    → IsKeyed st.nodes
    → ((n : String) (node : ExecutionNode)
        → get n st.nodes ≡ some node
        → IsProper (node_limits node.budget))
    → IsProper (mission_limits st.mission_budget)
    → validate_budget_invariants st ≡ ok tt
    → IsSound st
validate_budget_invariants-IsSound st keyed proper at_mission h =
    let p : Rounds st = rounds st h in
    record {
      mission =
          mission-Books st.budgets.mission_usage everyone st.budgets.model_calls st.mission_budget
            at_mission (Filled-mission st p) p.limits;
      at_node = λ n node e. node_checked st p n node keyed (proper n node e) e;
      at_call = λ k r e. check_calls-Owned st.nodes st.budgets.model_calls [] k r p.checked e;
    }
