-- ===== src/Protocol/Graph/Advance/Carried.antt =====
-- A change of the phases' states that moves no node keeps the graph orderly and the ledger sound (the
-- writes of `advance_position` in src/execution_protocol/reducer.rs).
use mathlib.Core.Path.{subst}
use rustgrid_agent.Prelude.{
  String, ◌≡◌, refl, sym, ap, ◌∙◌, ◌⊎◌, inl, inr, true, false, some, [], ◌∷◌, arith, ◌==◌, eq_iff,
  all, Bool-cases, Option-cases,
}
use rustgrid_agent.Map.{Map, get, apply_to}
use rustgrid_agent.Protocol.Model.{
  BudgetLedger, NodeState, ExecutionNode, ExecutionState, owns_execution, satisfies_dependency,
}
use rustgrid_agent.Protocol.Ledger.Sound.{IsSound, Books, NodeBooks, Owned}
use rustgrid_agent.Protocol.Ledger.Accounts.{everyone}
use rustgrid_agent.Protocol.Usage.Capacity.{mission_limits}
use rustgrid_agent.Protocol.Graph.{is_satisfied}
use rustgrid_agent.Protocol.Graph.Orderly.{IsPlaced, IsOrderly, Unowned, all_mono}
use rustgrid_agent.Protocol.Graph.Advance.Position.{postpone_node, postpone_validations}

get-postpone_validations :
    (n : String) (nodes : Map ExecutionNode)
    → get n (postpone_validations nodes) ≡ apply_to postpone_node (get n nodes)
unfolding postpone_validations get
get-postpone_validations n [] = refl
get-postpone_validations n ((k, node) ∷ nodes) = elim (Bool-cases (k == n)) [
  | inl e ↦ ground (arith, eq_iff k n)
  | inr e ↦ ground (arith, eq_iff k n, get-postpone_validations n nodes)
]

-- A state with the same books and proofs whose nodes are the same, but for validations that are
-- ready no more.
pub record IsCarried (st x : ExecutionState) : Type 0 where
  pub order : x.node_order ≡ st.node_order
  pub proofs : x.proofs ≡ st.proofs
  pub budgets : x.budgets ≡ st.budgets
  pub mission : x.mission_budget ≡ st.mission_budget
  pub nodes :
      (n : String)
      → (get n x.nodes ≡ get n st.nodes) ⊎ (get n x.nodes ≡ apply_to postpone_node (get n st.nodes))

module _ (st x : ExecutionState) (c : IsCarried st x) where
  carried_from :
      (n : String) (b : ExecutionNode)
      → get n x.nodes ≡ some b
      → (a : ExecutionNode) × (get n st.nodes ≡ some a) × ((b ≡ a) ⊎ (b ≡ postpone_node a))
  carried_from n b h = elim (Option-cases (get n st.nodes)) [
    | inl e ↦ absurd (ground (arith, c.nodes n))
    | inr (a, e) ↦ (a, e, ground (arith, c.nodes n))
  ]

  carried_satisfied : (k : String) → is_satisfied st.nodes k ≡ true → is_satisfied x.nodes k ≡ true
  unfolding is_satisfied satisfies_dependency
  carried_satisfied k h = elim (Option-cases (get k st.nodes)) [
    | inl e ↦ absurd (ground arith)
    | inr (a, e) ↦ ground (arith, c.nodes k)
  ]

  postponed-IsPlaced :
      (n : String) (a b : ExecutionNode)
      → IsPlaced st n a
      → owns_execution a.state ≡ false
      → (b ≡ a) ⊎ (b ≡ postpone_node a)
      → IsPlaced x n b
  unfolding owns_execution
  postponed-IsPlaced n a b p idle like = record {
    identity = ground (arith, p.identity);
    listed = ground (arith, p.listed, c.order);
    in_stage = λ owns. absurd (ground arith);
    supported = λ s.
        let kept : all (is_satisfied st.nodes) b.dependencies ≡ true =
          ground (arith, p.supported) in
        all_mono (is_satisfied st.nodes) (is_satisfied x.nodes) b.dependencies carried_satisfied
          kept;
    counted = ground (arith, p.counted);
    proved = ground (arith, p.proved, c.proofs);
  }

  carried_idle : Unowned st → Unowned x
  unfolding owns_execution
  carried_idle idle n b h = let (a, e, like) = carried_from n b h in ground (arith, idle n a e)

  -- Nobody owns the execution, so a change of stage moves no owner.
  pub IsCarried-IsOrderly : IsOrderly st → Unowned st → IsOrderly x
  IsCarried-IsOrderly o idle = record {
    at_node = λ n b h.
        let (a, e, like) = carried_from n b h in
        postponed-IsPlaced n a b (o.at_node n a e) (idle n a e) like;
    one_owner = λ n m a b ha hb oa ob. absurd (ground (arith, carried_idle idle n a ha));
  }

  postpone_cases :
      (a : ExecutionNode)
      → (postpone_node a ≡ a) ⊎ (record a { state = NodeState.pending } ≡ postpone_node a)
  postpone_cases a = ground arith

  carried_books :
      (n : String) (a b : ExecutionNode)
      → NodeBooks n a st.budgets.model_calls
      → (b ≡ a) ⊎ (b ≡ postpone_node a)
      → NodeBooks n b x.budgets.model_calls
  carried_books n a b k like =
      let kept : NodeBooks n a x.budgets.model_calls =
        subst (λ l. NodeBooks n a l.model_calls) (sym c.budgets) k in
      let pending : NodeBooks n (record a { state = NodeState.pending }) x.budgets.model_calls =
        record {
          identity = kept.identity;
          books = kept.books;
          attempts = kept.attempts;
          one_open = kept.one_open;
        } in
      elim like [
        | inl same ↦ subst (λ y. NodeBooks n y x.budgets.model_calls) (sym same) kept
        | inr same ↦ elim (postpone_cases a) [
          | inl stays ↦ subst (λ y. NodeBooks n y x.budgets.model_calls) (sym stays ∙ sym same) kept
          | inr changes ↦
              subst (λ y. NodeBooks n y x.budgets.model_calls) (changes ∙ sym same) pending
        ]
      ]

  pub IsCarried-IsSound : IsSound st → IsSound x
  IsCarried-IsSound sound = record {
    mission =
        subst
          (λ (l : BudgetLedger).
            Books l.mission_usage (mission_limits x.mission_budget) everyone l.model_calls)
          (sym c.budgets)
          (subst
            (λ b. Books st.budgets.mission_usage (mission_limits b) everyone st.budgets.model_calls)
            (sym c.mission) sound.mission);
    at_node = λ n b h.
        let (a, e, like) = carried_from n b h in carried_books n a b (sound.at_node n a e) like;
    at_call = λ k r h.
        let o : Owned st.nodes k r =
          sound.at_call k r (ap (λ (l : BudgetLedger). get k l.model_calls) (sym c.budgets) ∙ h) in
        record {
          identity = o.identity;
          owner = ground (arith, o.owner, c.nodes r.admission.node_id);
        };
  }

-- The entry keeps the graph, the books and the stage.
abbrev pub Enters : ExecutionState → ExecutionState → Type 0
Enters st x = IsCarried st x × (x.position ≡ st.position)

pub kept :
    (st x y : ExecutionState)
    → x ≡ y
    → y.node_order ≡ st.node_order
    → y.proofs ≡ st.proofs
    → y.budgets ≡ st.budgets
    → y.mission_budget ≡ st.mission_budget
    → y.nodes ≡ st.nodes
    → y.position ≡ st.position
    → Enters st x
kept st x y same o p b m n s =
    subst (Enters st) (sym same) (
      record { order = o; proofs = p; budgets = b; mission = m; nodes = λ k. inl (ap (get k) n) },
      s,
    )

pub postponed_kept :
    (st x : ExecutionState) → x ≡ record st { nodes = postpone_validations st.nodes } → Enters st x
postponed_kept st x same = subst (Enters st) (sym same) (
  record {
    order = refl;
    proofs = refl;
    budgets = refl;
    mission = refl;
    nodes = λ n. inr (get-postpone_validations n st.nodes);
  },
  refl,
)
