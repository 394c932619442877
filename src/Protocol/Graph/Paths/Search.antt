-- ===== src/Protocol/Graph/Paths/Search.antt =====
-- `has_dependency_path` of src/execution_protocol/reducer.rs: the search ends, and finds exactly
-- the nodes that a chain of dependencies leads to.
use mathlib.Core.Path.{subst}
use rustgrid_agent.Prelude.{
  ℕ, zero, suc, ◌+◌, ◌≤◌, String, ◌≡◌, refl, ◌↔◌, ◌⊎◌, inl, inr, Bool, true, false, ◌||◌, some,
  List, [], ◌∷◌, arith, ◌==◌, eq_iff, eq_refl, length, contains, push_all, contains-push_all,
  length-push_all, Bool-cases, if◌then◌else◌, ◌∙◌, ap,
}
use rustgrid_agent.Map.{Map, get}
use rustgrid_agent.Map.Sums.{total}
use rustgrid_agent.Protocol.Model.{ExecutionNode}
use rustgrid_agent.Protocol.Graph.Paths.{
  dependencies_of, IsEdge, Depends, direct, through, search_path, dependency_count,
  has_dependency_path,
}

-- The dependencies of the nodes that were not visited.
unvisited : List String → Map ExecutionNode → ℕ
unvisited seen [] = 0
unvisited seen ((k, node) ∷ nodes) =
    (if contains k seen then 0 else length node.dependencies) + unvisited seen nodes

unvisited-none : (nodes : Map ExecutionNode) → unvisited [] nodes ≡ total dependency_count nodes
unfolding unvisited contains total
unvisited-none [] = refl
unvisited-none ((k, node) ∷ nodes) = omega (arith, unvisited-none nodes)

unvisited_mono :
    (c : String) (seen : List String) (nodes : Map ExecutionNode)
    → unvisited (c ∷ seen) nodes ≤ unvisited seen nodes
unfolding unvisited contains
unvisited_mono c seen [] = omega arith
unvisited_mono c seen ((k, node) ∷ nodes) = ground (arith, unvisited_mono c seen nodes)

unvisited-visit :
    (c : String) (seen : List String) (nodes : Map ExecutionNode)
    → contains c seen ≡ false
    → length (dependencies_of (get c nodes)) + unvisited (c ∷ seen) nodes ≤ unvisited seen nodes
unfolding unvisited contains get
unvisited-visit c seen [] h = omega arith
unvisited-visit c seen ((k, node) ∷ nodes) h = elim (Bool-cases (k == c)) [
  | inl e ↦ ground (arith, eq_iff k c, eq_refl c, unvisited_mono c seen nodes)
  | inr e ↦ ground (arith, eq_iff c k, eq_iff k c, unvisited-visit c seen nodes)
]

module _ (nodes : Map ExecutionNode) (a : String) where
  search_path-Returns :
      (fuel : ℕ) (pending seen : List String)
      → length pending + unvisited seen nodes ≤ fuel
      → (b : Bool) × (search_path fuel nodes a pending seen ≡ some b)
  unfolding search_path
  search_path-Returns fuel [] seen h = (false, refl)
  search_path-Returns zero (c ∷ pending) seen h = absurd (omega arith)
  search_path-Returns (suc fuel) (c ∷ pending) seen h = elim (Bool-cases (c == a)) [
    | inl e ↦ (true, ground arith)
    | inr e ↦ elim (Bool-cases (contains c seen)) [
      | inl old ↦
          let (b, q) = search_path-Returns fuel pending seen (omega arith) in (b, ground arith)
      | inr new ↦
          let next = push_all (dependencies_of (get c nodes)) pending in
          let (b, q) = search_path-Returns fuel next (c ∷ seen) (
            omega (
              arith,
              length-push_all (dependencies_of (get c nodes)) pending,
              unvisited-visit c seen nodes new,
            )) in
          (b, ground arith)
    ]
  ]

  -- One of the pending nodes is the ancestor or depends on it.
  record Found (pending : List String) : Type 0 where
    node : String
    waits : contains node pending ≡ true
    leads : (node ≡ a) ⊎ Depends nodes node a

  search_path-Found :
      (fuel : ℕ) (pending seen : List String)
      → search_path fuel nodes a pending seen ≡ some true
      → Found pending
  unfolding search_path contains
  search_path-Found fuel [] seen h = absurd (ground arith)
  search_path-Found zero (c ∷ pending) seen h = absurd (ground arith)
  search_path-Found (suc fuel) (c ∷ pending) seen h = elim (Bool-cases (c == a)) [
    | inl e ↦ record {
      node = c;
      waits = ground (arith, eq_refl c);
      leads = inl (ground (arith, eq_iff c a));
    }
    | inr e ↦ elim (Bool-cases (contains c seen)) [
      | inl old ↦
          let f : Found pending = search_path-Found fuel pending seen (ground arith) in
          record { node = f.node; waits = ground (arith, f.waits); leads = f.leads }
      | inr new ↦
          let deps = dependencies_of (get c nodes) in
          let f : Found (push_all deps pending) =
            search_path-Found fuel (push_all deps pending) (c ∷ seen) (ground arith) in
          elim (Bool-cases (contains f.node deps)) [
            | inl edge ↦ record {
              node = c;
              waits = ground (arith, eq_refl c);
              leads = inr (leads_on c f.node edge f.leads);
            }
            | inr other ↦ record {
              node = f.node;
              waits = ground (arith, f.waits, contains-push_all f.node deps pending);
              leads = f.leads;
            }
          ]
    ]
  ]
    where
      leads_on : (n d : String) → IsEdge nodes n d → (d ≡ a) ⊎ Depends nodes d a → Depends nodes n a
      leads_on n d edge (inl e) = direct (subst (IsEdge nodes n) e edge)
      leads_on n d edge (inr way) = through edge way

  -- What was visited does not hold the ancestor, and its dependencies are visited or pending.
  record IsClosed (pending seen : List String) : Type 0 where
    clear : contains a seen ≡ false
    edges :
        (u v : String)
        → contains u seen ≡ true
        → IsEdge nodes u v
        → (contains v seen || contains v pending) ≡ true

  -- A closed set around the pending nodes keeps the ancestor out.
  record Barred (pending seen : List String) : Type 0 where
    inside : List String
    holds : (v : String) → (contains v seen || contains v pending) ≡ true → contains v inside ≡ true
    closed : IsClosed [] inside

  search_path-Barred :
      (fuel : ℕ) (pending seen : List String)
      → search_path fuel nodes a pending seen ≡ some false
      → IsClosed pending seen
      → Barred pending seen
  unfolding search_path contains
  search_path-Barred fuel [] seen h c = record {
    inside = seen;
    holds = λ v e. ground arith;
    closed = c;
  }
  search_path-Barred zero (c ∷ pending) seen h k = absurd (ground arith)
  search_path-Barred (suc fuel) (c ∷ pending) seen h k = elim (Bool-cases (c == a)) [
    | inl e ↦ absurd (ground arith)
    | inr e ↦ elim (Bool-cases (contains c seen)) [
      | inl old ↦
          let b : Barred pending seen =
            search_path-Barred fuel pending seen (ground arith) (record {
              clear = k.clear;
              edges = λ u v i j. ground (arith, k.edges u v i j, eq_iff c v);
            }) in
          record {
            inside = b.inside;
            holds = λ v i. ground (arith, b.holds v, eq_iff c v);
            closed = b.closed;
          }
      | inr new ↦
          let deps = dependencies_of (get c nodes) in
          let b : Barred (push_all deps pending) (c ∷ seen) =
            search_path-Barred fuel (push_all deps pending) (c ∷ seen) (ground arith) (record {
              clear = ground (arith, k.clear);
              edges = λ u v i j.
                  ground (arith, k.edges u v, eq_iff c u, contains-push_all v deps pending, j);
            }) in
          record {
            inside = b.inside;
            holds = λ v i. ground (arith, b.holds v, contains-push_all v deps pending);
            closed = b.closed;
          }
    ]
  ]

  no_way_in :
      (inside : List String) (n : String)
      → IsClosed [] inside
      → contains n inside ≡ true
      → Depends nodes n a
      → ⊥
  unfolding contains
  no_way_in inside n c i (direct edge) = ground (arith, c.clear, c.edges n a i edge)
  no_way_in inside n c i (through {d} edge way) =
      no_way_in inside d c (ground (arith, c.edges n d i edge)) way

module _ (nodes : Map ExecutionNode) (n a : String) where
  abbrev below : List String
  below = dependencies_of (get n nodes)

  starts_Closed : IsClosed nodes a (push_all below []) []
  unfolding contains
  starts_Closed = record { clear = refl; edges = λ u v i j. absurd (ground arith) }

  Found-Depends : Found nodes a (push_all below []) → Depends nodes n a
  unfolding contains
  Found-Depends f =
      let edge : IsEdge nodes n f.node =
        ground (arith, f.waits, contains-push_all f.node below []) in
      elim f.leads [ inl e ↦ direct (subst (IsEdge nodes n) e edge) | inr way ↦ through edge way ]

  Barred-Depends : Barred nodes a (push_all below []) [] → Depends nodes n a → ⊥
  unfolding contains
  Barred-Depends b (direct edge) =
      ground (arith, b.closed.clear, b.holds a, contains-push_all a below [], edge)
  Barred-Depends b (through {d} edge way) =
      no_way_in nodes a b.inside d b.closed
        (ground (arith, b.holds d, contains-push_all d below [], edge)) way

-- The search for a dependency path always ends within its fuel, and answers true exactly when a
-- chain of dependencies leads from the node to the ancestor.
pub has_dependency_path_decides :
    (nodes : Map ExecutionNode) (n a : String)
    → (b : Bool) × (has_dependency_path nodes n a ≡ some b) × ((b ≡ true) ↔ Depends nodes n a)
unfolding has_dependency_path
has_dependency_path_decides nodes n a =
    let pending = push_all (dependencies_of (get n nodes)) [] in
    let fuel = length (dependencies_of (get n nodes)) + total dependency_count nodes in
    let (b, q) =
      search_path-Returns nodes a fuel pending []
        (omega (arith, length-push_all (dependencies_of (get n nodes)) [], unvisited-none nodes)) in
    elim (Bool-cases b) [
      | inl e ↦
          let way =
            Found-Depends nodes n a (search_path-Found nodes a fuel pending [] (q ∙ ap some e)) in
          (b, q, (λ _. way, λ _. e))
      | inr e ↦
          let out = Barred-Depends nodes n a (
            search_path-Barred nodes a fuel pending [] (q ∙ ap some e) (starts_Closed nodes n a)) in
          (b, q, (λ t. absurd (ground arith), λ way. absurd (out way)))
    ]
