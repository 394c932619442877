-- ===== src/Protocol/Graph/Growth/Added.antt =====
-- What `add_plan_nodes` and `add_validation_repair_node` of src/execution_protocol/reducer.rs leave.
use mathlib.Core.Path.{subst}
use rustgrid_agent.Prelude.{
  String, ◌≡◌, refl, sym, ap, ◌∙◌, true, false, some, List, [], ◌∷◌, is_some, inl, inr, distinct,
  arith, eq_refl, Option-cases, List-cases, if◌then◌else◌,
}
use rustgrid_agent.Map.{Map, get, contains_key, get-insert}
use rustgrid_agent.Protocol.Stage.{ProtocolStage, NodeKind, stage}
use rustgrid_agent.Protocol.Violation.{ok, Result-cases}
use rustgrid_agent.Protocol.Model.{NodeState, NodeSpec, ExecutionNode, ExecutionState, from_spec}
use rustgrid_agent.Protocol.Graph.{becomes_ready, validate_node_budget, refresh_ready_nodes}
use rustgrid_agent.Protocol.Graph.Orderly.{IsOrderly}
use rustgrid_agent.Protocol.Graph.Refresh.{refresh_ready_nodes-IsOrderly, refresh_ready_nodes_exact}
use rustgrid_agent.Protocol.Graph.Acyclic.{validate_graph_acyclic}
use rustgrid_agent.Protocol.Graph.Topology.{validate_plan_topology}
use rustgrid_agent.Protocol.Graph.Check.{PlanContracts, check_known}
use rustgrid_agent.Protocol.Graph.Growth.{
  RepairContracts, check_plan, check_incoming_dependencies, check_incoming, push_node, push_nodes,
  spec_ids, add_plan_nodes, check_selection, add_validation_repair_node,
}
use rustgrid_agent.Protocol.Graph.Growth.Kept.{
  Extends, all_fresh, push_nodes-Grown, push_node-IsOrderly,
}

check_incoming-fresh :
    (nodes : Map ExecutionNode) (incoming : List String) (specs : List NodeSpec)
    → check_incoming nodes incoming specs ≡ ok tt
    → all_fresh nodes specs ≡ true
unfolding check_incoming
check_incoming-fresh nodes incoming [] h = refl
check_incoming-fresh nodes incoming (spec ∷ specs) h =
    elim (Result-cases (validate_node_budget spec)) [
      | inr other ↦ absurd (ground arith)
      | inl (tt, q) ↦
          elim (Result-cases
            (check_incoming_dependencies nodes incoming spec.id spec.dependencies)) [
              | inr other ↦ absurd (ground arith)
              | inl (tt, r) ↦ ground (arith, check_incoming-fresh nodes incoming specs)
            ]
    ]

-- What the tests of an accepted growth were.
record Passed (specs : List NodeSpec) (st st' : ExecutionState) : Type 0 where
  apart : distinct (spec_ids specs) ≡ true
  incoming : check_incoming st.nodes (spec_ids specs) specs ≡ ok tt
  grows : st' ≡ push_nodes specs st
  acyclic : validate_graph_acyclic (push_nodes specs st).nodes ≡ ok tt
  topology : validate_plan_topology (push_nodes specs st) ≡ ok tt

module _ (p : PlanContracts) (plan_proof_id : String) (specs : List NodeSpec)
    (st st' : ExecutionState) where
  add_plan_nodes-Passed : add_plan_nodes p plan_proof_id specs st ≡ ok st' → Passed specs st st'
  unfolding add_plan_nodes
  add_plan_nodes-Passed h =
      elim (Result-cases
        (if is_some st.planning then check_plan p plan_proof_id specs st else ok tt)) [
          | inr other ↦ absurd (ground arith)
          | inl (tt, q) ↦ elim (Result-cases (check_incoming st.nodes (spec_ids specs) specs)) [
            | inr other ↦ absurd (ground arith)
            | inl (tt, r) ↦
                elim (Result-cases (validate_graph_acyclic (push_nodes specs st).nodes)) [
                  | inr other ↦ absurd (ground arith)
                  | inl (tt, a) ↦
                      elim (Result-cases (validate_plan_topology (push_nodes specs st))) [
                        | inr other ↦ absurd (ground arith)
                        | inl (tt, b) ↦ record {
                          apart = ground arith;
                          incoming = r;
                          grows = ground arith;
                          acyclic = a;
                          topology = b;
                        }
                      ]
                ]
          ]
        ]

  -- An accepted plan's nodes keep an orderly graph orderly and every node that is there as it is, and the
  -- grown graph passes the tests for cycles and for the plan's topology.
  pub add_plan_nodes-IsOrderly :
      IsOrderly st
      → add_plan_nodes p plan_proof_id specs st ≡ ok st'
      → IsOrderly st'
        × Extends st st'
        × (validate_graph_acyclic st'.nodes ≡ ok tt)
        × (validate_plan_topology st' ≡ ok tt)
  add_plan_nodes-IsOrderly o h =
      let t = add_plan_nodes-Passed h in
      let g =
        push_nodes-Grown specs st t.apart
          (check_incoming-fresh st.nodes (spec_ids specs) specs t.incoming) o in
      (
        subst IsOrderly (sym t.grows) g.orderly,
        subst (Extends st) (sym t.grows) g.extends,
        ap (λ (x : ExecutionState). validate_graph_acyclic x.nodes) t.grows ∙ t.acyclic,
        ap validate_plan_topology t.grows ∙ t.topology,
      )

-- What an accepted repair was.
record Repair (node : NodeSpec) (st st' : ExecutionState) : Type 0 where
  at : st.position ≡ ProtocolStage.repair
  kind : node.kind ≡ NodeKind.validation_repair
  independent : node.dependencies ≡ []
  fresh : contains_key node.id st.nodes ≡ false
  grows : st' ≡ refresh_ready_nodes (push_node node st)

module _ (c : RepairContracts) (eligibility_proof_id : String) (node : NodeSpec)
    (st st' : ExecutionState) where
  add_validation_repair_node-Repair :
      add_validation_repair_node c eligibility_proof_id node st ≡ ok st' → Repair node st st'
  unfolding add_validation_repair_node
  add_validation_repair_node-Repair h =
      elim (Result-cases
        (if is_some st.validation then check_selection c eligibility_proof_id node st else ok tt)) [
          | inr other ↦ absurd (ground arith)
          | inl (tt, q) ↦ elim (Option-cases st.latest_transition_proof) [
            | inl missing ↦ absurd (ground arith)
            | inr (failure_id, e) ↦ elim (Result-cases (validate_node_budget node)) [
              | inr other ↦ absurd (ground arith)
              | inl (tt, r) ↦ elim (Result-cases (check_known node.id st.nodes node.dependencies)) [
                | inr other ↦ absurd (ground arith)
                | inl (tt, s) ↦ record {
                  at = ground arith;
                  kind = ground arith;
                  independent = elim (List-cases node.dependencies) [
                    | inl none_left ↦ none_left
                    | inr (d, rest, some_left) ↦ absurd (ground arith)
                  ];
                  fresh = ground arith;
                  grows = ground arith;
                }
              ]
            ]
          ]
        ]

  pushed_at :
      contains_key node.id st.nodes ≡ false
      → get node.id (push_node node st).nodes ≡ some (from_spec node)
  unfolding push_node
  pushed_at f =
      ground (arith, eq_refl node.id, get-insert node.id node.id (from_spec node) st.nodes)

  -- An accepted repair node keeps an orderly graph orderly, and is ready at once.
  pub add_validation_repair_node-IsOrderly :
      IsOrderly st
      → add_validation_repair_node c eligibility_proof_id node st ≡ ok st'
      → IsOrderly st'
        × (get node.id st'.nodes ≡ some (record (from_spec node) { state = NodeState.ready }))
  unfolding push_node becomes_ready stage from_spec
  add_validation_repair_node-IsOrderly o h =
      let r = add_validation_repair_node-Repair h in
      let pushed = push_node-IsOrderly node st r.fresh o in
      let exact =
        refresh_ready_nodes_exact (push_node node st) node.id (from_spec node) pushed
          (pushed_at r.fresh) in
      (
        subst IsOrderly (sym r.grows) (refresh_ready_nodes-IsOrderly (push_node node st) pushed),
        ground (arith, r.grows, exact, r.at, r.kind, r.independent),
      )
