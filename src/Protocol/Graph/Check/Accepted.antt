-- ===== src/Protocol/Graph/Check/Accepted.antt =====
-- A graph that `validate_graph` of src/execution_protocol/reducer.rs accepts is orderly.
use rustgrid_agent.Prelude.{
  ◌≤◌, String, ◌≡◌, refl, sym, ap, ◌∙◌, Bool, true, false, some, List, [], ◌∷◌, ◌==◌, any, all,
  is_some, inl, inr, length, contains, arith, eq_iff, Option-cases, List-cases, if◌then◌else◌,
}
use rustgrid_agent.Map.{Map, get, values, keys, contains-keys, is_some-get}
use rustgrid_agent.Protocol.Stage.{stage}
use rustgrid_agent.Protocol.Violation.{ok, Result-cases}
use rustgrid_agent.Protocol.Model.{NodeState, ExecutionNode, ExecutionState, owns_execution}
use rustgrid_agent.Protocol.Graph.{is_satisfied, ensure_dependencies_satisfied}
use rustgrid_agent.Protocol.Graph.Orderly.{
  needs_support, is_counted, is_proved, names_fitting, IsPlaced, IsOrderly,
}
use rustgrid_agent.Protocol.Graph.Steps.{stage_eq→≡, check_dependencies_exact}
use rustgrid_agent.Protocol.Graph.Topology.{filter}
use rustgrid_agent.Protocol.Graph.Acyclic.{validate_graph_acyclic}
use rustgrid_agent.Protocol.Graph.Check.{
  PlanContracts, keys_match, same_names, owners, check_owners, check_materialization, unready,
  check_known, check_proof, ready_eligible, check_success, check_graph_node, check_graph_nodes,
  validate_graph,
}

keys_match-get :
    (nodes : Map ExecutionNode) (n : String) (node : ExecutionNode)
    → keys_match nodes ≡ true
    → get n nodes ≡ some node
    → node.id ≡ n
unfolding keys_match get
keys_match-get [] n node h e = absurd (ground arith)
keys_match-get ((k, a) ∷ nodes) n node h e =
    ground (arith, eq_iff k n, eq_iff k a.id, keys_match-get nodes n node)

all-contains :
    (p : String → Bool) (xs : List String) (x : String)
    → all p xs ≡ true
    → contains x xs ≡ true
    → p x ≡ true
unfolding contains
all-contains p [] x h c = absurd (ground arith)
all-contains p (y ∷ xs) x h c = ground (arith, eq_iff y x, all-contains p xs x)

any-contains : (x : String) (xs : List String) → any (λ k. k == x) xs ≡ contains x xs
unfolding contains
any-contains x [] = refl
any-contains x (y ∷ xs) = ground (arith, any-contains x xs)

check_graph_nodes-get :
    (st : ExecutionState) (nodes : Map ExecutionNode) (n : String) (node : ExecutionNode)
    → check_graph_nodes st nodes ≡ ok tt
    → get n nodes ≡ some node
    → check_graph_node st node ≡ ok tt
unfolding check_graph_nodes get
check_graph_nodes-get st [] n node h e = absurd (ground arith)
check_graph_nodes-get st ((k, a) ∷ nodes) n node h e = elim (Result-cases (check_graph_node st a)) [
  | inr other ↦ absurd (ground arith)
  | inl (tt, q) ↦ ground (arith, eq_iff k n, check_graph_nodes-get st nodes n node)
]

module _ (n : String) (a : ExecutionNode) (owns : owns_execution a.state ≡ true) where
  owners-present : (nodes : Map ExecutionNode) → get n nodes ≡ some a → 1 ≤ length (owners nodes)
  unfolding owners filter values get
  owners-present [] e = absurd (ground arith)
  owners-present ((k, b) ∷ nodes) e = ground (arith, owners-present nodes)

  owners-single :
      (nodes : Map ExecutionNode)
      → length (owners nodes) ≤ 1
      → get n nodes ≡ some a
      → owners nodes ≡ a ∷ []
  unfolding owners filter values get
  owners-single [] h e = absurd (ground arith)
  owners-single ((k, b) ∷ nodes) h e = elim (List-cases (owners nodes)) [
    | inl none_left ↦ ground (arith, owners-present nodes)
    | inr (x, rest, more) ↦ ground (arith, owners-present nodes, owners-single nodes)
  ]

-- What the tests of an accepted graph were.
record Tested (st : ExecutionState) : Type 0 where
  identities : keys_match st.nodes ≡ true
  listed : same_names st.node_order (keys st.nodes) ≡ true
  owned : check_owners st ≡ ok tt
  nodes : check_graph_nodes st st.nodes ≡ ok tt

validate_graph-Tested :
    (p : PlanContracts) (st : ExecutionState) → validate_graph p st ≡ ok tt → Tested st
unfolding validate_graph
validate_graph-Tested p st h = elim (Result-cases (validate_graph_acyclic st.nodes)) [
  | inr other ↦ absurd (ground arith)
  | inl (tt, q) ↦ elim (Result-cases (check_materialization p st)) [
    | inr other ↦ absurd (ground arith)
    | inl (tt, r) ↦ elim (Result-cases (check_owners st)) [
      | inr other ↦ absurd (ground arith)
      | inl (tt, s) ↦ record {
        identities = ground arith;
        listed = ground arith;
        owned = s;
        nodes = ground arith;
      }
    ]
  ]
]

module _ (st : ExecutionState) (t : Tested st) (n : String) (node : ExecutionNode)
    (e : get n st.nodes ≡ some node) where
  node_id : node.id ≡ n
  node_id = keys_match-get st.nodes n node t.identities e

  node_checked : check_graph_node st node ≡ ok tt
  node_checked = check_graph_nodes-get st st.nodes n node t.nodes e

  node_listed : any (λ k. k == n) st.node_order ≡ true
  unfolding same_names
  node_listed =
      let every : all (λ y. contains y st.node_order) (keys st.nodes) ≡ true =
        ground (arith, t.listed) in
      any-contains n st.node_order
      ∙ all-contains (λ y. contains y st.node_order) (keys st.nodes) n every
          (contains-keys n st.nodes ∙ sym (is_some-get n st.nodes) ∙ ap is_some e)

  sole_owner : owns_execution node.state ≡ true → owners st.nodes ≡ node ∷ []
  unfolding check_owners
  sole_owner o = owners-single n node o st.nodes (ground (arith, t.owned)) e

  in_stage : owns_execution node.state ≡ true → stage node.kind ≡ st.position
  unfolding check_owners
  in_stage o = stage_eq→≡ (stage node.kind) st.position (ground (arith, t.owned, sole_owner o))

  -- The last tests of the node.
  record NodeTests : Type 0 where
    ready : unready st node node.state ≡ ok tt
    supports :
        (if needs_support node.state then ensure_dependencies_satisfied node.id st else ok tt)
        ≡ ok tt
    success : check_success st node node.state ≡ ok tt

  node_tests : NodeTests
  unfolding check_graph_node
  node_tests = elim (Result-cases (unready st node node.state)) [
    | inr other ↦ absurd (ground (arith, node_checked))
    | inl (tt, q) ↦ elim (Result-cases (check_known node.id st.nodes node.dependencies)) [
      | inr other ↦ absurd (ground (arith, node_checked))
      | inl (tt, r) ↦
          elim (Result-cases (
            if needs_support node.state then ensure_dependencies_satisfied node.id st else ok tt)) [
              | inr other ↦ absurd (ground (arith, node_checked))
              | inl (tt, s) ↦ record {
                ready = q;
                supports = s;
                success = ground (arith, node_checked);
              }
            ]
    ]
  ]

  supported : needs_support node.state ≡ true → all (is_satisfied st.nodes) node.dependencies ≡ true
  unfolding ensure_dependencies_satisfied
  supported s =
      (check_dependencies_exact node.id st.nodes node.dependencies).0
        (ground (arith, node_tests.supports, node_id))

  check_proof-fits :
      (proof_id : String)
      → check_proof st node proof_id ≡ ok tt
      → names_fitting node.kind n (get proof_id st.proofs) ≡ true
  unfolding check_proof
  check_proof-fits proof_id h = elim (Option-cases (get proof_id st.proofs)) [
    | inl none_there ↦ absurd (ground arith)
    | inr (proof, there) ↦ ground (arith, node_id)
  ]

  success-is_proved :
      (s : NodeState) → check_success st node s ≡ ok tt → is_proved st.proofs node.kind n s ≡ true
  success-is_proved (NodeState.succeeded proof_id) h = check_proof-fits proof_id h
  success-is_proved (NodeState.skipped proof_id) h = check_proof-fits proof_id h
  success-is_proved _ h = refl

  pending_waits : node.state ≡ NodeState.pending → ready_eligible st node ≡ false
  pending_waits s = ground (arith, node_tests.ready)

  Tested-IsPlaced : is_counted node.state node.attempts_started ≡ true → IsPlaced st n node
  Tested-IsPlaced c = record {
    identity = node_id;
    listed = node_listed;
    in_stage = in_stage;
    supported = supported;
    counted = c;
    proved = success-is_proved node.state node_tests.success;
  }

abbrev pub AllCounted : ExecutionState → Type 0
AllCounted st =
    (n : String) (node : ExecutionNode)
    → get n st.nodes ≡ some node
    → is_counted node.state node.attempts_started ≡ true

sole_owners :
    (st : ExecutionState) (t : Tested st) (n m : String) (a b : ExecutionNode)
    → get n st.nodes ≡ some a
    → get m st.nodes ≡ some b
    → owns_execution a.state ≡ true
    → owns_execution b.state ≡ true
    → n ≡ m
sole_owners st t n m a b ha hb oa ob =
    let same : a ≡ b = ground (arith, sole_owner st t n a ha oa, sole_owner st t m b hb ob) in
    sym (node_id st t n a ha) ∙ ap (λ (x : ExecutionNode). x.id) same ∙ node_id st t m b hb

-- A state that the test accepts, whose running attempts are the last ones started, is orderly: at most
-- one node owns the execution, in its own stage; what is ready or running has its dependencies done;
-- what is done names a proof that fits. And no pending node could be made ready.
pub validate_graph-IsOrderly :
    (p : PlanContracts) (st : ExecutionState)
    → AllCounted st
    → validate_graph p st ≡ ok tt
    → IsOrderly st
      × ((n : String) (node : ExecutionNode)
          → get n st.nodes ≡ some node
          → node.state ≡ NodeState.pending
          → ready_eligible st node ≡ false)
validate_graph-IsOrderly p st c h =
    let t = validate_graph-Tested p st h in
    (
      record {
        at_node = λ n node e. Tested-IsPlaced st t n node e (c n node e);
        one_owner = sole_owners st t;
      },
      λ n node e s. pending_waits st t n node e s,
    )
