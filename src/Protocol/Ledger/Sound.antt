-- ===== src/Protocol/Ledger/Sound.antt =====
-- The invariant of the ledger, and how the two kinds of write keep it: a call that changes its
-- state, and an owner whose usage changes with it.
pub mod Writes
pub mod Admission
pub mod Calls
pub mod Steps
pub mod Reconcile
use mathlib.Core.Path.{subst}
use rustgrid_agent.Prelude.{
  ℕ, ◌+◌, ◌≤◌, String, ◌≡◌, refl, Bool, true, false, Option, none, some, arith, ◌==◌, eq_iff,
  eq_refl, Bool-cases, inl, inr, is_some, Option-cases, ◌∷◌, List, if◌then◌else◌,
}
use rustgrid_agent.Map.{Map, get, insert, modify, get-insert, get-modify, apply_to}
use rustgrid_agent.Map.Sums.{total, total-modify, total-insert}
use rustgrid_agent.Protocol.Model.{
  BudgetUsage, BudgetLedger, ModelCallAdmission, ModelCallState, ModelCallRecord, ExecutionNode,
  ExecutionState, is_open,
}
use rustgrid_agent.Protocol.Usage.Capacity.{Limits, node_limits, mission_limits, IsProper, Within}
use rustgrid_agent.Protocol.Ledger.{set_calls, set_state, on_usage, charge_attempt}
use rustgrid_agent.Protocol.Ledger.Accounts.{
  Scope, everyone, owned_by, open_call, share, Accounts, Accounts-insert, Accounts-modify, Balance,
  Balance-other,
}

-- The books of a usage: it is what its calls add up to, and it is within limits.
pub record Books (u : BudgetUsage) (l : Limits) (scope : Scope) (calls : Map ModelCallRecord)
    : Type 0 where
  pub proper : IsProper l
  pub accounts : Accounts u scope calls
  pub within : Within u l

pub record NodeBooks (n : String) (node : ExecutionNode) (calls : Map ModelCallRecord)
    : Type 0 where
  pub identity : node.id ≡ n
  pub books : Books node.usage (node_limits node.budget) (owned_by n) calls
  pub attempts : node.usage.mutation_attempts ≤ node.budget.max_mutation_attempts
  pub one_open : total (share (owned_by n) open_call) calls ≤ 1

-- The record under a key is the call of that name, and its owner exists.
pub record Owned (nodes : Map ExecutionNode) (k : String) (r : ModelCallRecord) : Type 0 where
  pub identity : r.admission.call_id ≡ k
  pub owner : is_some (get r.admission.node_id nodes) ≡ true

pub record IsSound (st : ExecutionState) : Type 0 where
  pub mission :
      Books st.budgets.mission_usage
        (mission_limits st.mission_budget)
        everyone
        st.budgets.model_calls
  pub at_node :
      (n : String) (node : ExecutionNode)
      → get n st.nodes ≡ some node
      → NodeBooks n node st.budgets.model_calls
  pub at_call :
      (k : String) (r : ModelCallRecord)
      → get k st.budgets.model_calls ≡ some r
      → Owned st.nodes k r

-- Every call's owner is there still after a write to a node.
pub owner-modify :
    (n k : String) (f : ExecutionNode → ExecutionNode) (nodes : Map ExecutionNode)
    → is_some (get n (modify k f nodes)) ≡ is_some (get n nodes)
owner-modify n k f nodes = ground (arith, get-modify k n f nodes)

pub Owned-set_state :
    (nodes : Map ExecutionNode) (k j : String) (r : ModelCallRecord) (s : ModelCallState)
    (calls : Map ModelCallRecord)
    → ((i : String) (x : ModelCallRecord) → get i calls ≡ some x → Owned nodes i x)
    → get j (modify k (set_state s) calls) ≡ some r
    → Owned nodes j r
Owned-set_state nodes k j r s calls all h = elim (Option-cases (get j calls)) [
  | inl e ↦ absurd (ground (arith, get-modify k j (set_state s) calls))
  | inr (x, e) ↦
      let o : Owned nodes j x = all j x e in
      record {
        identity = ground (arith, get-modify k j (set_state s) calls, o.identity);
        owner = ground (arith, get-modify k j (set_state s) calls, o.owner);
      }
]

-- A call that was open, in the state `s` from now on.
module _ (calls : Map ModelCallRecord) (k : String) (r : ModelCallRecord) (s : ModelCallState)
    (h : get k calls ≡ some r) (was : is_open r.state ≡ true) where
  pub one_open-set_state :
      (scope : Scope)
      → total (share scope open_call) calls ≤ 1
      → total (share scope open_call) (modify k (set_state s) calls) ≤ 1
  one_open-set_state scope one =
      ground (arith, total-modify (share scope open_call) k (set_state s) calls r h)

  -- The books of a node that does not own the call.
  pub NodeBooks-other :
      (n : String) (node : ExecutionNode)
      → (r.admission.node_id == n) ≡ false
      → NodeBooks n node calls
      → NodeBooks n node (modify k (set_state s) calls)
  NodeBooks-other n node out b = record {
    identity = b.identity;
    books = record {
      proper = b.books.proper;
      accounts =
          Accounts-modify node.usage node.usage (owned_by n) calls k s r h b.books.accounts
            (Balance-other node.usage (owned_by n) r s out);
      within = b.books.within;
    };
    attempts = b.attempts;
    one_open = one_open-set_state (owned_by n) b.one_open;
  }

  pub NodeBooks-owner :
      (f : BudgetUsage → BudgetUsage) (n : String) (node : ExecutionNode)
      → (f node.usage).mutation_attempts ≡ node.usage.mutation_attempts
      → NodeBooks n node calls
      → Books (f node.usage) (node_limits node.budget) (owned_by n) (modify k (set_state s) calls)
      → NodeBooks n (on_usage f node) (modify k (set_state s) calls)
  NodeBooks-owner f n node same b b' = record {
    identity = b.identity;
    books = b';
    attempts = omega (arith, b.attempts, same);
    one_open = one_open-set_state (owned_by n) b.one_open;
  }
