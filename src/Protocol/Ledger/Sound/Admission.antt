-- ===== src/Protocol/Ledger/Sound/Admission.antt =====
-- A new call, and one more charged mutation attempt, on a sound state.
use mathlib.Core.Path.{subst}
use rustgrid_agent.Prelude.{
  ◌≤◌, String, ◌≡◌, refl, false, none, some, [], ◌∷◌, arith, ◌==◌, eq_iff, Bool-cases, inl, inr,
}
use rustgrid_agent.Map.{Map, get, contains_key, insert, modify, values, get-insert, get-modify}
use rustgrid_agent.Map.Sums.{total, total-insert}
use rustgrid_agent.Words.{saturating_add_u32}
use rustgrid_agent.Protocol.Model.{
  ModelCallAdmission, ModelCallState, ModelCallRecord, ExecutionNode, ExecutionState, is_open,
}
use rustgrid_agent.Protocol.Ledger.{
  has_open_model_call_for_node, set_calls, on_usage, charge_attempt,
}
use rustgrid_agent.Protocol.Ledger.Accounts.{everyone, owned_by, open_call, share, Accounts-insert}
use rustgrid_agent.Protocol.Ledger.Sound.{NodeBooks, Owned, IsSound, owner-modify}

pub get_of_contains_key {ℓ} :
    {V : Type ℓ} (k : String) (m : Map V) → contains_key k m ≡ false → get k m ≡ none
unfolding contains_key get
get_of_contains_key k [] h = refl
get_of_contains_key k ((j, v) ∷ m) h = ground (arith, get_of_contains_key k m)

-- The test for an open call of a node counts none.
pub no_open_calls :
    (n : String) (calls : Map ModelCallRecord)
    → has_open_model_call_for_node calls n ≡ false
    → total (share (owned_by n) open_call) calls ≡ 0
unfolding has_open_model_call_for_node values total
no_open_calls n [] h = refl
no_open_calls n ((k, r) ∷ calls) h = ground (arith, no_open_calls n calls)

module _ (st : ExecutionState) (a : ModelCallAdmission) (node : ExecutionNode) (sound : IsSound st)
    (fresh : contains_key a.call_id st.budgets.model_calls ≡ false)
    (at : get a.node_id st.nodes ≡ some node)
    (idle : has_open_model_call_for_node st.budgets.model_calls node.id ≡ false) where
  abbrev new_record : ModelCallRecord
  new_record = record { admission = a; state = ModelCallState.admitted }

  abbrev calls' : Map ModelCallRecord
  calls' = insert a.call_id new_record st.budgets.model_calls

  absent : get a.call_id st.budgets.model_calls ≡ none
  absent = get_of_contains_key a.call_id st.budgets.model_calls fresh

  one_open-insert :
      (n : String) (x : ExecutionNode)
      → NodeBooks n x st.budgets.model_calls
      → total (share (owned_by n) open_call) calls' ≤ 1
  unfolding is_open
  one_open-insert n x b = ground (
    arith,
    b.one_open,
    total-insert (share (owned_by n) open_call) a.call_id new_record st.budgets.model_calls absent,
    eq_iff a.node_id n,
    (sound.at_node a.node_id node at).identity,
    no_open_calls node.id st.budgets.model_calls idle,
  )

  pub admitted-IsSound : IsSound (set_calls st calls')
  admitted-IsSound = record {
    mission = record {
      proper = sound.mission.proper;
      accounts =
          Accounts-insert st.budgets.mission_usage everyone st.budgets.model_calls a.call_id a
            absent sound.mission.accounts;
      within = sound.mission.within;
    };
    at_node = λ n x e.
        let b : NodeBooks n x st.budgets.model_calls = sound.at_node n x e in
        record {
          identity = b.identity;
          books = record {
            proper = b.books.proper;
            accounts =
                Accounts-insert x.usage (owned_by n) st.budgets.model_calls a.call_id a absent
                  b.books.accounts;
            within = b.books.within;
          };
          attempts = b.attempts;
          one_open = one_open-insert n x b;
        };
    at_call = λ j x e. elim (Bool-cases (a.call_id == j)) [
      | inl this ↦
          let q : a.call_id ≡ j = (eq_iff a.call_id j).0 this in
          let p : new_record ≡ x =
            ground (arith, get-insert a.call_id j new_record st.budgets.model_calls) in
          subst (λ y. Owned st.nodes j y) p (record { identity = q; owner = ground arith })
      | inr other ↦
          sound.at_call j x
            (ground (arith, get-insert a.call_id j new_record st.budgets.model_calls))
    ];
  }

-- One more attempt for the node under `k`, where its contract allows it.
abbrev pub charged : String → ExecutionState → ExecutionState
charged k st = record st {
  nodes = modify k (on_usage charge_attempt) st.nodes;
  budgets = record st.budgets { mission_usage = charge_attempt st.budgets.mission_usage };
}

module _ (st : ExecutionState) (k : String) (owner : ExecutionNode) (sound : IsSound st)
    (at : get k st.nodes ≡ some owner)
    (room : saturating_add_u32 owner.usage.mutation_attempts 1
      ≤ owner.budget.max_mutation_attempts) where
  NodeBooks-charged : NodeBooks k (on_usage charge_attempt owner) st.budgets.model_calls
  unfolding charge_attempt
  NodeBooks-charged =
      let b : NodeBooks k owner st.budgets.model_calls = sound.at_node k owner at in
      record {
        identity = b.identity;
        books = record {
          proper = b.books.proper;
          accounts = ground (arith, b.books.accounts);
          within = ground (arith, b.books.within);
        };
        attempts = room;
        one_open = b.one_open;
      }

  pub charged-IsSound : IsSound (charged k st)
  unfolding charge_attempt
  charged-IsSound = record {
    mission = record {
      proper = sound.mission.proper;
      accounts = ground (arith, sound.mission.accounts);
      within = ground (arith, sound.mission.within);
    };
    at_node = λ n x e. elim (Bool-cases (k == n)) [
      | inl this ↦
          let q : k ≡ n = (eq_iff k n).0 this in
          let p : on_usage charge_attempt owner ≡ x =
            ground (arith, get-modify k n (on_usage charge_attempt) st.nodes) in
          subst (λ y. NodeBooks y x st.budgets.model_calls) q
            (subst (λ y. NodeBooks k y st.budgets.model_calls) p NodeBooks-charged)
      | inr other ↦
          sound.at_node n x (ground (arith, get-modify k n (on_usage charge_attempt) st.nodes))
    ];
    at_call = λ j x e.
        let o : Owned st.nodes j x = sound.at_call j x e in
        record {
          identity = o.identity;
          owner = ground (
            arith,
            owner-modify x.admission.node_id k (on_usage charge_attempt) st.nodes,
            o.owner,
          );
        };
  }
