-- ===== src/Protocol/Graph/Topology/Chain.antt =====
-- `validate_plan_topology` of src/execution_protocol/reducer.rs: in a graph that passes, every required
-- publication depends on every required completion and on every required review.
use mathlib.Core.Path.{subst}
use rustgrid_agent.Prelude.{
  String, ◌≡◌, inl, inr, true, false, List, [], ◌∷◌, arith, ◌==◌, eq_iff, eq_refl, contains,
  Bool-cases, List-cases,
}
use rustgrid_agent.Map.{Map}
use rustgrid_agent.Protocol.Stage.{NodeKind}
use rustgrid_agent.Protocol.Violation.{ok, Result-cases}
use rustgrid_agent.Protocol.Model.{ExecutionNode, ExecutionState}
use rustgrid_agent.Protocol.Graph.Paths.{Depends, direct, through}
use rustgrid_agent.Protocol.Graph.Paths.Search.{has_dependency_path_decides}
use rustgrid_agent.Protocol.Graph.Topology.{
  required_nodes, require_stages, stable_indexes, check_dependency_order, lacks_path, require_paths,
  ids, validate_plan_topology,
}

pub Depends-trans :
    (nodes : Map ExecutionNode) (n m a : String)
    → Depends nodes n m
    → Depends nodes m a
    → Depends nodes n a
Depends-trans nodes n m a (direct edge) way = through edge way
Depends-trans nodes n m a (through {d} edge first) way =
    through edge (Depends-trans nodes d m a first way)

lacks_path-Depends :
    (nodes : Map ExecutionNode) (n a : String) (ancestors : List String)
    → lacks_path nodes n ancestors ≡ ok false
    → contains a ancestors ≡ true
    → Depends nodes n a
unfolding lacks_path contains
lacks_path-Depends nodes n a [] h i = absurd (ground arith)
lacks_path-Depends nodes n a (b ∷ ancestors) h i =
    let (found, e, exact) = has_dependency_path_decides nodes n b in
    elim (Bool-cases (b == a)) [
      | inl same ↦ subst (Depends nodes n) ((eq_iff b a).0 same) (exact.0 (ground arith))
      | inr other ↦ lacks_path-Depends nodes n a ancestors (ground arith) (ground arith)
    ]

require_paths-Depends :
    (code : String) (nodes : Map ExecutionNode) (ancestors : List String)
    (rest : List ExecutionNode) (n a : String)
    → require_paths code nodes ancestors rest ≡ ok tt
    → contains n (ids rest) ≡ true
    → contains a ancestors ≡ true
    → Depends nodes n a
unfolding require_paths contains
require_paths-Depends code nodes ancestors [] n a h i j = absurd (ground arith)
require_paths-Depends code nodes ancestors (node ∷ rest) n a h i j =
    elim (Result-cases (lacks_path nodes node.id ancestors)) [
      | inr other ↦ absurd (ground arith)
      | inl (lacking, e) ↦ elim (Bool-cases (node.id == n)) [
        | inl same ↦
            subst (λ m. Depends nodes m a) ((eq_iff node.id n).0 same)
              (lacks_path-Depends nodes node.id a ancestors (ground arith) j)
        | inr different ↦
            require_paths-Depends code nodes ancestors rest n a (ground arith) (ground arith) j
      ]
    ]

-- A node of the kind that the mission requires.
abbrev pub IsRequired : ExecutionState → NodeKind → String → Type 0
IsRequired st kind n = contains n (ids (required_nodes kind st)) ≡ true

stage_present :
    (st : ExecutionState) (kind : NodeKind) (rest : List NodeKind)
    → require_stages (kind ∷ rest) st ≡ ok tt
    → ((n : String) × IsRequired st kind n) × (require_stages rest st ≡ ok tt)
unfolding require_stages contains
stage_present st kind rest h = elim (List-cases (required_nodes kind st)) [
  | inl e ↦ absurd (ground arith)
  | inr (node, more, e) ↦ ((node.id, ground (arith, eq_refl node.id)), ground arith)
]

-- What the passing test says of the chain.
pub record Tested (st : ExecutionState) : Type 0 where
  pub stages :
      require_stages
        (NodeKind.implementation ∷ NodeKind.validation ∷ NodeKind.review
          ∷ NodeKind.completion_evaluation ∷ NodeKind.publication ∷ [])
        st
      ≡ ok tt
  pub order : check_dependency_order st.nodes (stable_indexes 0 st.node_order []) st.nodes ≡ ok tt
  pub completions :
      require_paths "completion_does_not_depend_on_required_review" st.nodes
        (ids (required_nodes NodeKind.review st))
        (required_nodes NodeKind.completion_evaluation st)
      ≡ ok tt
  pub publications :
      require_paths "publication_does_not_depend_on_completion" st.nodes
        (ids (required_nodes NodeKind.completion_evaluation st))
        (required_nodes NodeKind.publication st)
      ≡ ok tt

pub tested : (st : ExecutionState) → validate_plan_topology st ≡ ok tt → Tested st
unfolding validate_plan_topology
tested st h =
    let kinds =
      NodeKind.implementation ∷ NodeKind.validation ∷ NodeKind.review
      ∷ NodeKind.completion_evaluation ∷ NodeKind.publication ∷ [] in
    let indexes = stable_indexes 0 st.node_order [] in
    elim (Result-cases (require_stages kinds st)) [
      | inr other ↦ absurd (ground arith)
      | inl (tt, a) ↦ elim (Result-cases (check_dependency_order st.nodes indexes st.nodes)) [
        | inr other ↦ absurd (ground arith)
        | inl (tt, b) ↦
            elim (Result-cases (
              require_paths "completion_does_not_depend_on_required_review" st.nodes
                (ids (required_nodes NodeKind.review st))
                (required_nodes NodeKind.completion_evaluation st))) [
                  | inr other ↦ absurd (ground arith)
                  | inl (tt, c) ↦ record {
                    stages = a;
                    order = b;
                    completions = c;
                    publications = ground arith;
                  }
                ]
      ]
    ]

-- In a graph that passes `validate_plan_topology`, a required publication depends, over a chain of
-- dependencies, on every required completion evaluation and on every required review.
pub publication-Depends :
    (st : ExecutionState) (p : String)
    → validate_plan_topology st ≡ ok tt
    → IsRequired st NodeKind.publication p
    → ((c : String) → IsRequired st NodeKind.completion_evaluation c → Depends st.nodes p c)
      × ((r : String) → IsRequired st NodeKind.review r → Depends st.nodes p r)
publication-Depends st p h i =
    let t : Tested st = tested st h in
    let (_, after1) = stage_present st NodeKind.implementation _ t.stages in
    let (_, after2) = stage_present st NodeKind.validation _ after1 in
    let (_, after3) = stage_present st NodeKind.review _ after2 in
    let ((c, there), _) = stage_present st NodeKind.completion_evaluation _ after3 in
    let on_completion = λ (d : String) (k : IsRequired st NodeKind.completion_evaluation d).
      require_paths-Depends "publication_does_not_depend_on_completion" st.nodes
        (ids (required_nodes NodeKind.completion_evaluation st))
        (required_nodes NodeKind.publication st) p d t.publications i k in
    (
      on_completion,
      λ r k. Depends-trans st.nodes p c r (on_completion c there) (
          require_paths-Depends "completion_does_not_depend_on_required_review" st.nodes
            (ids (required_nodes NodeKind.review st))
            (required_nodes NodeKind.completion_evaluation st) c r t.completions there k),
    )
