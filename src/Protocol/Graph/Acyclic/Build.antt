-- ===== src/Protocol/Graph/Acyclic/Build.antt =====
-- `validate_graph_acyclic` of src/execution_protocol/reducer.rs: its first loop counts all
-- dependencies, or reports one that is not admissible.
use rustgrid_agent.Prelude.{
  ℕ, ◌+◌, ◌≤◌, String, ◌≡◌, refl, ◌⊎◌, inl, inr, Bool, true, false, not, ◌&&◌, none, some, List, [],
  ◌∷◌, ◌++◌, arith, ◌==◌, eq_iff, eq_refl, Bool-cases, Option-cases, is_some, contains, occurrences,
  occurrences-append, ◌∙◌,
}
use rustgrid_agent.Map.{
  Map, get, contains_key, insert, get-insert, modify, get-modify, keys, keys-modify,
}
use rustgrid_agent.Protocol.Violation.{
  ProtocolViolation, invalid_graph, Result, ok, err, ◌>>=◌, expect_mut, Result-cases,
}
use rustgrid_agent.Protocol.Model.{ExecutionNode}
use rustgrid_agent.Protocol.Graph.Acyclic.{
  Arcs, names_or_default, add_dependency, add_dependencies, add_nodes,
}
use rustgrid_agent.Protocol.Graph.Acyclic.Degrees.{pairs_of, pairs, arcs, owed}

abbrev pub degree : String → Map ℕ → ℕ
degree n m = elim (get n m) [ none ↦ 0 | some k ↦ k ]

abbrev pub waiting_for : String → Map (List String) → List String
waiting_for d m = names_or_default (get d m)

-- What the loop leaves of the counts, after the dependencies `ps`.
pub record Built (ps : List (String × String)) (before after : Arcs) : Type 0 where
  pub degrees : (n : String) → degree n after.indegree ≡ degree n before.indegree + owed n [] ps
  pub lists :
      (n d : String)
      → occurrences n (waiting_for d after.dependents)
        ≡ occurrences n (waiting_for d before.dependents) + arcs n d ps
  pub known : (n : String) → is_some (get n after.indegree) ≡ is_some (get n before.indegree)
  pub same_keys : keys after.indegree ≡ keys before.indegree

module _ (nodes : Map ExecutionNode) where
  abbrev pub admissible : String → String → Bool
  admissible n d = not (d == n) && contains_key d nodes

  -- The loop as one pass over all dependencies.
  pub add_pairs : List (String × String) → Arcs → Result Arcs
  add_pairs [] before = ok before
  add_pairs ((n, d) ∷ ps) before = do after ← add_dependency nodes n d before; add_pairs ps after

  add_pairs-append :
      (ps qs : List (String × String)) (before : Arcs)
      → add_pairs (ps ++ qs) before ≡ (add_pairs ps before >>= add_pairs qs)
  unfolding add_pairs
  add_pairs-append [] qs before = refl
  add_pairs-append ((n, d) ∷ ps) qs before = elim (Result-cases (add_dependency nodes n d before)) [
    | inl (after, e) ↦ ground (arith, add_pairs-append ps qs after)
    | inr other ↦ ground arith
  ]

  add_dependencies-add_pairs :
      (n : String) (ds : List String) (before : Arcs)
      → add_dependencies nodes n ds before ≡ add_pairs (pairs_of n ds) before
  unfolding add_pairs add_dependencies
  add_dependencies-add_pairs n [] before = refl
  add_dependencies-add_pairs n (d ∷ ds) before =
      elim (Result-cases (add_dependency nodes n d before)) [
        | inl (after, e) ↦ ground (arith, add_dependencies-add_pairs n ds after)
        | inr other ↦ ground arith
      ]

  pub add_nodes-add_pairs :
      (rest : Map ExecutionNode) (before : Arcs)
      → add_nodes nodes rest before ≡ add_pairs (pairs rest) before
  unfolding add_nodes pairs add_pairs
  add_nodes-add_pairs [] before = refl
  add_nodes-add_pairs ((k, node) ∷ rest) before =
      elim (Result-cases (add_pairs (pairs_of node.id node.dependencies) before)) [
        | inl (after, e) ↦ ground (
          arith,
          add_dependencies-add_pairs node.id node.dependencies before,
          add_pairs-append (pairs_of node.id node.dependencies) (pairs rest) before,
          add_nodes-add_pairs rest after,
        )
        | inr other ↦ ground (
          arith,
          add_dependencies-add_pairs node.id node.dependencies before,
          add_pairs-append (pairs_of node.id node.dependencies) (pairs rest) before,
        )
      ]

  -- One dependency that can be counted is, once.
  add_dependency-Built :
      (n d : String) (before : Arcs)
      → is_some (get n before.indegree) ≡ true
      → admissible n d ≡ true
      → (after : Arcs) × (add_dependency nodes n d before ≡ ok after)
        × Built ((n, d) ∷ []) before after
  unfolding add_dependency expect_mut owed arcs contains occurrences
  add_dependency-Built n d before k a =
      let names = waiting_for d before.dependents ++ n ∷ [] in
      elim (Option-cases (get n before.indegree)) [
        | inl e ↦ absurd (ground arith)
        | inr (g, e) ↦ (
          record {
            indegree = modify n (λ degree. degree + 1) before.indegree;
            dependents = insert d names before.dependents;
          },
          ground arith,
          record {
            degrees = λ m.
                ground (arith, eq_iff n m, get-modify n m (λ degree. degree + 1) before.indegree);
            lists = λ m f. ground (
              arith,
              eq_iff n m,
              eq_iff d f,
              get-insert d f names before.dependents,
              occurrences-append m (waiting_for d before.dependents) (n ∷ []),
            );
            known = λ m.
                ground (arith, eq_iff n m, get-modify n m (λ degree. degree + 1) before.indegree);
            same_keys = keys-modify n (λ degree. degree + 1) before.indegree;
          },
        )
      ]

  pub record Bad (ps : List (String × String)) : Type 0 where
    pub node : String
    pub dependency : String
    pub counted : 1 ≤ arcs node dependency ps
    pub refused : admissible node dependency ≡ false

  add_dependency-refused :
      (n d : String) (before : Arcs)
      → admissible n d ≡ false
      → (e : ProtocolViolation) × (add_dependency nodes n d before ≡ err e)
  unfolding add_dependency
  add_dependency-refused n d before a = elim (Bool-cases (d == n)) [
    | inl e ↦ (invalid_graph "self_dependency" (some n), ground arith)
    | inr e ↦ (invalid_graph "unknown_dependency" (some n), ground arith)
  ]

  abbrev pub AllAdmissible : List (String × String) → Type 0
  AllAdmissible ps = (n d : String) → 1 ≤ arcs n d ps → admissible n d ≡ true

  pub record Passed (ps : List (String × String)) (before : Arcs) : Type 0 where
    pub after : Arcs
    pub returns : add_pairs ps before ≡ ok after
    pub built : Built ps before after
    pub admitted : AllAdmissible ps

  pub record Refused (ps : List (String × String)) (before : Arcs) : Type 0 where
    pub violation : ProtocolViolation
    pub returns : add_pairs ps before ≡ err violation
    pub bad : Bad ps

  Passed-cons :
      (n d : String) (ps : List (String × String)) (before mid : Arcs)
      → admissible n d ≡ true
      → add_dependency nodes n d before ≡ ok mid
      → Built ((n, d) ∷ []) before mid
      → Passed ps mid
      → Passed ((n, d) ∷ ps) before
  unfolding add_pairs owed arcs
  Passed-cons n d ps before mid a e b p = record {
    after = p.after;
    returns = ground (arith, p.returns);
    built = record {
      degrees = λ m. ground (arith, b.degrees m, p.built.degrees m);
      lists = λ m f. ground (arith, b.lists m f, p.built.lists m f);
      known = λ m. p.built.known m ∙ b.known m;
      same_keys = p.built.same_keys ∙ b.same_keys;
    };
    admitted = λ m f h. ground (arith, eq_iff n m, eq_iff d f, p.admitted m f);
  }

  pub add_pairs-Built :
      (ps : List (String × String)) (before : Arcs)
      → ((n d : String) → 1 ≤ arcs n d ps → is_some (get n before.indegree) ≡ true)
      → Passed ps before ⊎ Refused ps before
  unfolding add_pairs owed arcs
  add_pairs-Built [] before k = inl (record {
    after = before;
    returns = refl;
    built = record {
      degrees = λ n. omega arith;
      lists = λ n d. omega arith;
      known = λ n. refl;
      same_keys = refl;
    };
    admitted = λ n d h. absurd (omega arith);
  })
  add_pairs-Built ((n, d) ∷ ps) before k =
      let here : 1 ≤ arcs n d ((n, d) ∷ ps) = ground (arith, eq_refl n, eq_refl d) in
      elim (Bool-cases (admissible n d)) [
        | inr a ↦
            let (e, q) = add_dependency-refused n d before a in
            inr (record {
              violation = e;
              returns = ground arith;
              bad = record { node = n; dependency = d; counted = here; refused = a };
            })
        | inl a ↦
            let (mid, q, b) = add_dependency-Built n d before (k n d here) a in
            elim (add_pairs-Built ps mid λ m f h. ground (arith, b.known m, k m f)) [
              | inl p ↦ inl (Passed-cons n d ps before mid a q b p)
              | inr r ↦ inr (record {
                violation = r.violation;
                returns = ground (arith, r.returns);
                bad = record {
                  node = r.bad.node;
                  dependency = r.bad.dependency;
                  counted = ground (arith, r.bad.counted);
                  refused = r.bad.refused;
                };
              })
            ]
      ]
