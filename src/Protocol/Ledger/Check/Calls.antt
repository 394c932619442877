-- ===== src/Protocol/Ledger/Check/Calls.antt =====
-- `validate_budget_invariants` of src/execution_protocol/reducer.rs: what its round over the
-- calls establishes.
use rustgrid_agent.Prelude.{
  ℕ, ◌+◌, ◌≤◌, String, ◌≡◌, none, some, [], ◌∷◌, arith, ◌==◌, eq_iff, Option-cases, inl, inr,
  if◌then◌else◌,
}
use rustgrid_agent.Words.{saturating_add_u64}
use rustgrid_agent.Map.{Map, get, get-insert}
use rustgrid_agent.Map.Sums.{total}
use rustgrid_agent.Protocol.Violation.{ok, Result-cases}
use rustgrid_agent.Protocol.Model.{ModelCallState, ModelCallRecord, ExecutionNode, is_open}
use rustgrid_agent.Protocol.Ledger.Accounts.{owned_by, open_call, share}
use rustgrid_agent.Protocol.Ledger.Sound.{Owned}
use rustgrid_agent.Protocol.Ledger.Check.{or_default, count_open, check_calls}

-- Every node stands under its own name.
abbrev pub IsKeyed : Map ExecutionNode → Type 0
IsKeyed nodes = (n : String) (node : ExecutionNode) → get n nodes ≡ some node → node.id ≡ n

abbrev count : String → Map ℕ → ℕ
count n m = or_default (get n m)

count_open_facts :
    (n call_id : String) (node : ExecutionNode) (s : ModelCallState) (m m' : Map ℕ)
    → count_open call_id node s m ≡ ok m'
    → count n m ≤ 1
    → (count n m' ≡ count n m + (if node.id == n then (if is_open s then 1 else 0) else 0))
      × (count n m' ≤ 1)
unfolding count_open saturating_add_u64
count_open_facts n call_id node s m m' h one =
    ground
      (arith, eq_iff node.id n, get-insert node.id n (saturating_add_u64 (count node.id m) 1) m)

module _ (nodes : Map ExecutionNode) where
  -- What one round over the calls has seen when it passes.
  record Passed (k : String) (r : ModelCallRecord) (calls : Map ModelCallRecord) (m : Map ℕ)
      : Type 0 where
    node : ExecutionNode
    after : Map ℕ
    named : r.admission.call_id ≡ k
    owner : get r.admission.node_id nodes ≡ some node
    counted : count_open k node r.state m ≡ ok after
    rest : check_calls nodes calls after ≡ ok tt

  passed :
      (k : String) (r : ModelCallRecord) (calls : Map ModelCallRecord) (m : Map ℕ)
      → check_calls nodes ((k, r) ∷ calls) m ≡ ok tt
      → Passed k r calls m
  unfolding check_calls
  passed k r calls m h = elim (Option-cases (get r.admission.node_id nodes)) [
    | inl e ↦ absurd (ground arith)
    | inr (node, e) ↦ elim (Result-cases (count_open k node r.state m)) [
      | inl (after, q) ↦ record {
        node = node;
        after = after;
        named = ground (arith, eq_iff k r.admission.call_id);
        owner = e;
        counted = q;
        rest = ground arith;
      }
      | inr other ↦ absurd (ground arith)
    ]
  ]

  pub check_calls-Owned :
      (calls : Map ModelCallRecord) (m : Map ℕ) (k : String) (r : ModelCallRecord)
      → check_calls nodes calls m ≡ ok tt
      → get k calls ≡ some r
      → Owned nodes k r
  unfolding get
  check_calls-Owned [] m k r h e = absurd (ground arith)
  check_calls-Owned ((j, x) ∷ calls) m k r h e =
      let p : Passed j x calls m = passed j x calls m h in
      elim (Option-cases (if j == k then some x else none)) [
        | inl other ↦ check_calls-Owned calls p.after k r p.rest (ground (arith, eq_iff j k))
        | inr (y, same) ↦ record {
          identity = ground (arith, eq_iff j k, p.named);
          owner = ground (arith, eq_iff j k, p.owner);
        }
      ]

  pub check_calls-one_open :
      (n : String) (calls : Map ModelCallRecord) (m : Map ℕ)
      → IsKeyed nodes
      → check_calls nodes calls m ≡ ok tt
      → count n m ≤ 1
      → count n m + total (share (owned_by n) open_call) calls ≤ 1
  unfolding total
  check_calls-one_open n [] m keyed h one = ground arith
  check_calls-one_open n ((k, r) ∷ calls) m keyed h one =
      let p : Passed k r calls m = passed k r calls m h in
      ground (
        arith,
        keyed r.admission.node_id p.node p.owner,
        count_open_facts n k p.node r.state m p.after p.counted one,
        check_calls-one_open n calls p.after keyed p.rest,
      )
