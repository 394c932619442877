-- ===== src/Protocol/Graph/Acyclic/Order.antt =====
-- `validate_graph_acyclic` of src/execution_protocol/reducer.rs: it accepts exactly the graphs whose
-- nodes can be ranked along their dependencies, and never panics.
use rustgrid_agent.Prelude.{
  ℕ, zero, suc, ◌≤◌, ◌<◌, String, ◌≡◌, ◌↔◌, inl, inr, true, List, [], ◌∷◌, arith, ◌==◌, eq_iff,
  nat_eq, Bool-cases, length, contains, distinct, length-distinct, occurrences, if◌then◌else◌, ◌∙◌,
  sym,
}
use rustgrid_agent.Map.{Map, contains_key, keys, contains-keys, length-keys}
use rustgrid_agent.Protocol.Violation.{Returns, ok}
use rustgrid_agent.Protocol.Model.{ExecutionNode}
use rustgrid_agent.Protocol.Graph.Paths.{IsEdge}
use rustgrid_agent.Protocol.Graph.Acyclic.{validate_graph_acyclic}
use rustgrid_agent.Protocol.Graph.Acyclic.Degrees.{is_indexed, pairs, arcs, owed-none, owed-some}
use rustgrid_agent.Protocol.Graph.Acyclic.Build.{degree}
use rustgrid_agent.Protocol.Graph.Acyclic.Drain.{IsOrdered}
use rustgrid_agent.Protocol.Graph.Acyclic.Start.{arcs-key, arcs-IsEdge, distinct-keys, Run, runs}

-- Every dependency is a node of a smaller rank.
abbrev pub IsRanked : Map ExecutionNode → (String → ℕ) → Type 0
IsRanked nodes rank =
    (n d : String) → IsEdge nodes n d → (contains_key d nodes ≡ true) × (rank d < rank n)

-- How early a node was taken away.
unfoldable position : String → List String → ℕ
position n [] = 0
position n (m ∷ gone) = if m == n then suc (length gone) else position n gone

position-le : (n : String) (gone : List String) → position n gone ≤ length gone
unfolding position
position-le n [] = omega arith
position-le n (m ∷ gone) = ground (arith, position-le n gone)

-- What a node depends on was taken away before it.
position-lt :
    (nodes : Map ExecutionNode) (ps : List (String × String)) (n d : String) (gone : List String)
    → IsOrdered nodes ps gone
    → distinct gone ≡ true
    → contains n gone ≡ true
    → 1 ≤ arcs n d ps
    → (contains d gone ≡ true) × (position d gone < position n gone)
unfolding position contains distinct IsOrdered
position-lt nodes ps n d [] o w i h = absurd (ground arith)
position-lt nodes ps n d (m ∷ gone) (none_owed, o) w i h = elim (Bool-cases (m == n)) [
  | inl e ↦
      let there : contains d gone ≡ true = owed-none n d gone ps (ground (arith, eq_iff m n)) h in
      ground (arith, there, position-le d gone, eq_iff m d)
  | inr e ↦ ground (arith, position-lt nodes ps n d gone o, eq_iff m d)
]

module _ (nodes : Map ExecutionNode) (w : is_indexed nodes ≡ true) (r : Run nodes w) where
  -- Once as many nodes are gone as there are, all are gone.
  all_gone :
      length r.gone ≡ length nodes
      → (n : String) → contains_key n nodes ≡ true
      → contains n r.gone ≡ true
  unfolding contains distinct
  all_gone same n k = elim (Bool-cases (contains n r.gone)) [
    | inl e ↦ e
    | inr out ↦ absurd (
        omega (
          arith,
          length-distinct (n ∷ r.gone) (keys nodes) (ground (arith, r.balanced.once_gone))
              λ z i. ground (arith, r.balanced.members z, contains-keys z nodes, eq_iff n z),
          length-keys nodes,
        ))
  ]

  gone_IsRanked : length r.gone ≡ length nodes → IsRanked nodes (λ n. position n r.gone)
  gone_IsRanked same n d edge =
      let counted = (arcs-IsEdge n d nodes w).1 edge in
      let a = r.admitted n d counted in
      let here = all_gone same n (arcs-key n d nodes w counted) in
      ground (
        arith,
        position-lt nodes (pairs nodes) n d r.gone r.balanced.ordered r.balanced.once_gone here
            counted,
      )

  -- With a ranking every node is taken away, those of small rank first.
  ranked_gone :
      (rank : String → ℕ)
      → IsRanked nodes rank
      → (bound : ℕ) (n : String) → rank n < bound
      → contains_key n nodes ≡ true
      → contains n r.gone ≡ true
  unfolding occurrences contains
  ranked_gone rank ranked zero n h k = absurd (omega arith)
  ranked_gone rank ranked (suc bound) n h k = elim (Bool-cases (nat_eq (degree n r.final) 0)) [
    | inl e ↦ ground (arith, r.balanced.members n)
    | inr e ↦
        let (d, counted, out) =
          owed-some n r.gone (pairs nodes) (ground (arith, r.balanced.degrees n)) in
        let (there, less) = ranked n d ((arcs-IsEdge n d nodes w).0 counted) in
        let gone = ranked_gone rank ranked bound d (omega arith) there in absurd (ground arith)
  ]

  ranked_length : (rank : String → ℕ) → IsRanked nodes rank → length r.gone ≡ length nodes
  unfolding contains
  ranked_length rank ranked = omega (
    arith,
    length-keys nodes,
    length-distinct (keys nodes) r.gone (distinct-keys nodes w) λ z i.
        ranked_gone rank ranked (suc (rank z)) z (omega arith) (sym (contains-keys z nodes) ∙ i),
    length-distinct r.gone (keys nodes) r.balanced.once_gone
        λ z i. ground (arith, r.balanced.members z, contains-keys z nodes),
  )

-- In a map whose nodes stand under their names, once each, `validate_graph_acyclic` accepts exactly
-- the graphs that have a ranking in which every dependency is a node of a smaller rank.
pub validate_graph_acyclic_exact :
    (nodes : Map ExecutionNode)
    → is_indexed nodes ≡ true
    → (validate_graph_acyclic nodes ≡ ok tt) ↔ ((rank : String → ℕ) × IsRanked nodes rank)
validate_graph_acyclic_exact nodes w = elim (runs nodes w) [
  | inl r ↦ (
    λ h. (λ n. position n r.gone, gone_IsRanked nodes w r (ground (arith, r.returns))),
    λ (rank, ranked). ground (arith, r.returns, ranked_length nodes w r rank ranked),
  )
  | inr s ↦ (
    λ h. absurd (ground (arith, s.returns)),
    λ (rank, ranked).
        let (there, less) =
          ranked s.bad.node s.bad.dependency
            ((arcs-IsEdge s.bad.node s.bad.dependency nodes w).0 s.bad.counted) in
        absurd (ground (arith, s.bad.refused, eq_iff s.bad.dependency s.bad.node)),
  )
]

-- In such a map the loops end within their fuel and no `expect` fails: `validate_graph_acyclic`
-- accepts or reports a violation.
pub validate_graph_acyclic-Returns :
    (nodes : Map ExecutionNode) → is_indexed nodes ≡ true → Returns (validate_graph_acyclic nodes)
validate_graph_acyclic-Returns nodes w = elim (runs nodes w) [
  | inl r ↦ ground (arith, r.returns)
  | inr s ↦ ground (arith, s.returns)
]
