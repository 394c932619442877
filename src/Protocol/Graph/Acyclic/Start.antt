-- ===== src/Protocol/Graph/Acyclic/Start.antt =====
-- `validate_graph_acyclic` of src/execution_protocol/reducer.rs: what its last loop starts with,
-- and how a run of the whole function goes.
use rustgrid_agent.Prelude.{
  ℕ, ◌≤◌, String, ◌≡◌, refl, ◌↔◌, ◌⊎◌, inl, inr, true, not, ◌&&◌, none, List, [], ◌∷◌, arith, ◌==◌,
  eq_iff, nat_eq, length, contains, distinct, occurrences, ◌∙◌, sym, ap,
}
use rustgrid_agent.Map.{Map, get, contains_key, keys, contains-keys, is_some-get}
use rustgrid_agent.Protocol.Violation.{ProtocolViolation, invalid_graph, err, reject_if}
use rustgrid_agent.Protocol.Model.{ExecutionNode}
use rustgrid_agent.Protocol.Graph.Paths.{IsEdge}
use rustgrid_agent.Protocol.Graph.Acyclic.{
  Arcs, no_degrees, initially_ready, validate_graph_acyclic,
}
use rustgrid_agent.Protocol.Graph.Acyclic.Degrees.{is_indexed, pairs_of, pairs, arcs, arcs-append}
use rustgrid_agent.Protocol.Graph.Acyclic.Build.{
  degree, add_nodes-add_pairs, Built, Bad, add_pairs-Built, AllAdmissible,
}
use rustgrid_agent.Protocol.Graph.Acyclic.Drain.{IsOrdered, Balanced, drain-Drained}

arcs-pairs_of :
    (m n d : String) (ds : List String)
    → (1 ≤ arcs n d (pairs_of m ds)) ↔ ((m == n && contains d ds) ≡ true)
unfolding arcs contains
arcs-pairs_of m n d [] = ground arith
arcs-pairs_of m n d (e ∷ ds) = ground (arith, arcs-pairs_of m n d ds)

pub arcs-key :
    (n d : String) (nodes : Map ExecutionNode)
    → is_indexed nodes ≡ true
    → 1 ≤ arcs n d (pairs nodes)
    → contains_key n nodes ≡ true
unfolding is_indexed pairs arcs contains_key
arcs-key n d [] w h = absurd (omega arith)
arcs-key n d ((k, node) ∷ nodes) w h = ground (
  arith,
  arcs-append n d (pairs_of node.id node.dependencies) (pairs nodes),
  arcs-pairs_of node.id n d node.dependencies,
  arcs-key n d nodes,
  eq_iff node.id n,
  eq_iff node.id k,
  eq_iff k n,
)

-- The counted dependencies are those of the nodes.
pub arcs-IsEdge :
    (n d : String) (nodes : Map ExecutionNode)
    → is_indexed nodes ≡ true
    → (1 ≤ arcs n d (pairs nodes)) ↔ IsEdge nodes n d
unfolding is_indexed pairs arcs get contains
arcs-IsEdge n d [] w = ground arith
arcs-IsEdge n d ((k, node) ∷ nodes) w = ground (
  arith,
  arcs-append n d (pairs_of node.id node.dependencies) (pairs nodes),
  arcs-pairs_of node.id n d node.dependencies,
  arcs-key n d nodes,
  arcs-IsEdge n d nodes,
  eq_iff node.id n,
  eq_iff node.id k,
  eq_iff k n,
)

pub distinct-keys :
    (nodes : Map ExecutionNode) → is_indexed nodes ≡ true → distinct (keys nodes) ≡ true
unfolding is_indexed keys distinct
distinct-keys [] w = refl
distinct-keys ((k, node) ∷ nodes) w = ground (arith, distinct-keys nodes, contains-keys k nodes)

keys-no_degrees : (nodes : Map ExecutionNode) → keys (no_degrees nodes) ≡ keys nodes
unfolding no_degrees keys
keys-no_degrees [] = refl
keys-no_degrees ((k, node) ∷ nodes) = ground (arith, keys-no_degrees nodes)

degree-no_degrees : (n : String) (nodes : Map ExecutionNode) → degree n (no_degrees nodes) ≡ 0
unfolding no_degrees get
degree-no_degrees n [] = refl
degree-no_degrees n ((k, node) ∷ nodes) = ground (arith, degree-no_degrees n nodes)

initially_ready-keys :
    (n : String) (m : Map ℕ) → contains n (initially_ready m) ≡ true → contains n (keys m) ≡ true
unfolding initially_ready keys contains
initially_ready-keys n [] h = absurd (ground arith)
initially_ready-keys n ((k, g) ∷ m) h = ground (arith, initially_ready-keys n m)

contains-initially_ready :
    (n : String) (m : Map ℕ)
    → distinct (keys m) ≡ true
    → contains n (initially_ready m) ≡ (contains_key n m && nat_eq (degree n m) 0)
unfolding initially_ready keys contains distinct contains_key get
contains-initially_ready n [] w = refl
contains-initially_ready n ((k, g) ∷ m) w =
    ground (arith, contains-initially_ready n m, initially_ready-keys n m, eq_iff k n)

distinct-initially_ready :
    (m : Map ℕ) → distinct (keys m) ≡ true → distinct (initially_ready m) ≡ true
unfolding initially_ready keys distinct
distinct-initially_ready [] w = refl
distinct-initially_ready ((k, g) ∷ m) w =
    ground (arith, distinct-initially_ready m, initially_ready-keys k m)

module _ (nodes : Map ExecutionNode) (w : is_indexed nodes ≡ true) where
  abbrev blank : Arcs
  blank = record { indegree = no_degrees nodes; dependents = [] }

  abbrev all : List (String × String)
  all = pairs nodes

  Balanced-start :
      (after : Arcs)
      → Built all blank after
      → Balanced nodes all [] after.indegree (initially_ready after.indegree) []
  unfolding IsOrdered contains distinct occurrences
  Balanced-start after b =
      let same : keys after.indegree ≡ keys nodes = b.same_keys ∙ keys-no_degrees nodes in
      let once : distinct (keys after.indegree) ≡ true = ap distinct same ∙ distinct-keys nodes w in
      let known : (n : String) → contains_key n after.indegree ≡ contains_key n nodes =
        λ n. sym (contains-keys n after.indegree) ∙ ap (contains n) same ∙ contains-keys n nodes in
      record {
        degrees = λ n. omega (arith, b.degrees n, degree-no_degrees n nodes);
        known = λ n. is_some-get n after.indegree ∙ known n;
        members = λ n. ground (arith, known n, contains-initially_ready n after.indegree once);
        once_ready = distinct-initially_ready after.indegree once;
        once_gone = refl;
        apart = λ n. ground arith;
        ordered = tt;
      }

  -- A run of the whole function whose dependencies are admissible.
  pub record Run : Type 0 where
    pub final : Map ℕ
    pub gone : List String
    pub returns :
        validate_graph_acyclic nodes
        ≡ reject_if
            (not (nat_eq (length gone) (length nodes)))
            (invalid_graph "dependency_cycle" none)
    pub balanced : Balanced nodes all [] final [] gone
    pub admitted : AllAdmissible nodes all

  pub record Stopped : Type 0 where
    pub violation : ProtocolViolation
    pub returns : validate_graph_acyclic nodes ≡ err violation
    pub bad : Bad nodes all

  pub runs : Run ⊎ Stopped
  unfolding validate_graph_acyclic occurrences get
  runs =
      elim (add_pairs-Built nodes all blank λ n d h. ground (
        arith,
        is_some-get n (no_degrees nodes),
        contains-keys n (no_degrees nodes),
        keys-no_degrees nodes,
        contains-keys n nodes,
        arcs-key n d nodes w h,
      )) [
        | inr r ↦ inr (record {
          violation = r.violation;
          returns = ground (arith, r.returns, add_nodes-add_pairs nodes nodes blank);
          bad = r.bad;
        })
        | inl p ↦
            let end =
              drain-Drained nodes all p.after.dependents (λ n d. omega (arith, p.built.lists n d))
                (λ n d h. arcs-key n d nodes w h) (length nodes) p.after.indegree
                (initially_ready p.after.indegree) [] (omega arith)
                (Balanced-start p.after p.built) in
            inl (record {
              final = end.final;
              gone = end.gone;
              returns =
                  ground (arith, p.returns, end.returns, add_nodes-add_pairs nodes nodes blank);
              balanced = end.balanced;
              admitted = p.admitted;
            })
      ]
