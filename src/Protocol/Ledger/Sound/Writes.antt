-- ===== src/Protocol/Ledger/Sound/Writes.antt =====
-- The writes of the ledger's handlers, each on a sound state.
use mathlib.Core.Path.{subst}
use rustgrid_agent.Prelude.{String, ◌≡◌, ◌∙◌, true, some, arith, ◌==◌, eq_iff, Bool-cases, inl, inr}
use rustgrid_agent.Map.{Map, get, modify, get-modify}
use rustgrid_agent.Protocol.Model.{
  BudgetUsage, ModelCallState, ModelCallRecord, ExecutionNode, ExecutionState, is_open,
}
use rustgrid_agent.Protocol.Usage.Capacity.{node_limits, mission_limits}
use rustgrid_agent.Protocol.Ledger.{set_calls, set_state, on_usage}
use rustgrid_agent.Protocol.Ledger.Accounts.{Scope, everyone, owned_by, Accounts-modify, Balance}
use rustgrid_agent.Protocol.Ledger.Sound.{
  Books, NodeBooks, Owned, IsSound, owner-modify, Owned-set_state, one_open-set_state,
  NodeBooks-other, NodeBooks-owner,
}

-- `st` with the owner's usage and the mission's usage sent through `f`, and the call in state `s`.
abbrev pub settled :
    String
    → ModelCallRecord
    → (BudgetUsage → BudgetUsage)
    → ModelCallState
    → ExecutionState
    → ExecutionState
settled k r f s st = record st {
  nodes = modify r.admission.node_id (on_usage f) st.nodes;
  budgets = record {
    mission_usage = f st.budgets.mission_usage;
    model_calls = modify k (set_state s) st.budgets.model_calls;
  };
}

module _ (st : ExecutionState) (k : String) (r : ModelCallRecord) (s : ModelCallState)
    (sound : IsSound st) (h : get k st.budgets.model_calls ≡ some r)
    (was : is_open r.state ≡ true) where
  abbrev calls' : Map ModelCallRecord
  calls' = modify k (set_state s) st.budgets.model_calls

  module _ (f : BudgetUsage → BudgetUsage) where
    NodeBooks-settled :
        (owner : ExecutionNode)
        → get r.admission.node_id st.nodes ≡ some owner
        → (f owner.usage).mutation_attempts ≡ owner.usage.mutation_attempts
        → Books (f owner.usage) (node_limits owner.budget) (owned_by r.admission.node_id) calls'
        → (n : String) (node : ExecutionNode)
        → get n (modify r.admission.node_id (on_usage f) st.nodes) ≡ some node
        → NodeBooks n node calls'
    NodeBooks-settled owner at same books n node e = elim (Bool-cases (r.admission.node_id == n)) [
      | inl this ↦
          let q : r.admission.node_id ≡ n = (eq_iff r.admission.node_id n).0 this in
          let p : on_usage f owner ≡ node =
            ground (arith, get-modify r.admission.node_id n (on_usage f) st.nodes) in
          subst (λ x. NodeBooks x node calls') q
            (subst (λ x. NodeBooks r.admission.node_id x calls') p
              (NodeBooks-owner st.budgets.model_calls k r s h was f r.admission.node_id owner same
                (sound.at_node r.admission.node_id owner at) books))
      | inr other ↦ NodeBooks-other st.budgets.model_calls k r s h was n node other (
          sound.at_node n node
            (ground (arith, get-modify r.admission.node_id n (on_usage f) st.nodes)))
    ]

    pub settled-IsSound :
        (owner : ExecutionNode)
        → get r.admission.node_id st.nodes ≡ some owner
        → (f owner.usage).mutation_attempts ≡ owner.usage.mutation_attempts
        → Books (f owner.usage) (node_limits owner.budget) (owned_by r.admission.node_id) calls'
        → Books (f st.budgets.mission_usage) (mission_limits st.mission_budget) everyone calls'
        → IsSound (settled k r f s st)
    settled-IsSound owner at same books mission = record {
      mission = mission;
      at_node = NodeBooks-settled owner at same books;
      at_call = λ j x e.
          let o : Owned st.nodes j x =
            Owned-set_state st.nodes k j x s st.budgets.model_calls sound.at_call e in
          record {
            identity = o.identity;
            owner =
                owner-modify x.admission.node_id r.admission.node_id (on_usage f) st.nodes
                ∙ o.owner;
          };
    }

  -- Only the call changes, and the books agree with that.
  pub set_calls-IsSound :
      ((u : BudgetUsage) (scope : Scope) → Balance u u scope r (set_state s r))
      → IsSound (set_calls st calls')
  set_calls-IsSound balance = record {
    mission = record {
      proper = sound.mission.proper;
      accounts =
          Accounts-modify st.budgets.mission_usage st.budgets.mission_usage everyone
            st.budgets.model_calls k s r h sound.mission.accounts
            (balance st.budgets.mission_usage everyone);
      within = sound.mission.within;
    };
    at_node = λ n node e.
        let b : NodeBooks n node st.budgets.model_calls = sound.at_node n node e in
        record {
          identity = b.identity;
          books = record {
            proper = b.books.proper;
            accounts =
                Accounts-modify node.usage node.usage (owned_by n) st.budgets.model_calls k s r h
                  b.books.accounts (balance node.usage (owned_by n));
            within = b.books.within;
          };
          attempts = b.attempts;
          one_open = one_open-set_state st.budgets.model_calls k r s h was (owned_by n) b.one_open;
        };
    at_call = λ j x e. Owned-set_state st.nodes k j x s st.budgets.model_calls sound.at_call e;
  }
