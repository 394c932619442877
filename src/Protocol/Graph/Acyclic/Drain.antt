-- ===== src/Protocol/Graph/Acyclic/Drain.antt =====
-- `validate_graph_acyclic` of src/execution_protocol/reducer.rs: the nodes that its last loop takes
-- away, each once and after all that it depends on.
use rustgrid_agent.Prelude.{
  ℕ, zero, suc, ◌+◌, ◌≤◌, String, ◌≡◌, refl, inl, inr, true, false, ◌&&◌, ◌||◌, List, [], ◌∷◌, ◌++◌,
  arith, eq_iff, eq_refl, nat_eq, Option-cases, is_some, length, contains, contains-append,
  occurrences, distinct, distinct-append, length-distinct, if◌then◌else◌,
}
use rustgrid_agent.Words.{saturating_sub}
use rustgrid_agent.Map.{
  Map, get, contains_key, modify, get-modify, keys, contains-keys, length-keys,
}
use rustgrid_agent.Protocol.Violation.{ok}
use rustgrid_agent.Protocol.Model.{ExecutionNode}
use rustgrid_agent.Protocol.Graph.Acyclic.{release, release_all, drain}
use rustgrid_agent.Protocol.Graph.Acyclic.Degrees.{arcs, owed, owed-gone}
use rustgrid_agent.Protocol.Graph.Acyclic.Build.{degree, waiting_for}

module _ (nodes : Map ExecutionNode) (ps : List (String × String)) where
  -- Every node was taken away after its dependencies; the last one stands first.
  unfoldable pub IsOrdered : List String → Type 0
  IsOrdered [] = Unit {0}
  IsOrdered (n ∷ gone) = (owed n gone ps ≡ 0) × IsOrdered gone

  -- The state of the loop: the nodes that are gone, the nodes that are ready, and `rest`, the
  -- dependents of the last one that are to be released still.
  pub record Balanced (rest : List String) (indegree : Map ℕ) (ready gone : List String)
      : Type 0 where
    pub degrees : (n : String) → degree n indegree ≡ owed n gone ps + occurrences n rest
    pub known : (n : String) → is_some (get n indegree) ≡ contains_key n nodes
    pub members :
        (n : String)
        → (contains n ready || contains n gone)
          ≡ (contains_key n nodes && nat_eq (degree n indegree) 0)
    pub once_ready : distinct ready ≡ true
    pub once_gone : distinct gone ≡ true
    pub apart : (n : String) → (contains n ready && contains n gone) ≡ false
    pub ordered : IsOrdered gone

  release-Balanced :
      (n : String) (rest : List String) (indegree : Map ℕ) (ready gone : List String)
      → contains_key n nodes ≡ true
      → Balanced (n ∷ rest) indegree ready gone
      → (s : Map ℕ × List String) × (release n (indegree, ready) ≡ ok s)
        × Balanced rest s.0 s.1 gone
  unfolding release occurrences saturating_sub contains
  release-Balanced n rest indegree ready gone k b = elim (Option-cases (get n indegree)) [
    | inl e ↦ absurd (ground (arith, b.known n))
    | inr (g, e) ↦
        let left = saturating_sub g 1 in
        let ready' = if nat_eq left 0 then ready ++ n ∷ [] else ready in
        let out : (contains n ready || contains n gone) ≡ false =
          ground (arith, b.members n, b.degrees n, eq_refl n) in
        (
          (modify n (λ _. left) indegree, ready'),
          ground arith,
          record {
            degrees = λ m.
                ground (
                  arith,
                  eq_iff n m,
                  b.degrees m,
                  b.degrees n,
                  get-modify n m (λ _. left) indegree,
                );
            known = λ m. ground (arith, eq_iff n m, b.known m, get-modify n m (λ _. left) indegree);
            members = λ m. ground (
              arith,
              eq_iff n m,
              b.members m,
              b.known m,
              get-modify n m (λ _. left) indegree,
              contains-append m ready (n ∷ []),
              out,
            );
            once_ready = ground (arith, b.once_ready, out, distinct-append n ready);
            once_gone = b.once_gone;
            apart =
                λ m. ground (arith, eq_iff n m, b.apart m, out, contains-append m ready (n ∷ []));
            ordered = b.ordered;
          },
        )
  ]

  release_all-Balanced :
      (rest : List String) (indegree : Map ℕ) (ready gone : List String)
      → ((n : String) → 1 ≤ occurrences n rest → contains_key n nodes ≡ true)
      → Balanced rest indegree ready gone
      → (s : Map ℕ × List String) × (release_all rest (indegree, ready) ≡ ok s)
        × Balanced [] s.0 s.1 gone
  unfolding release_all occurrences
  release_all-Balanced [] indegree ready gone k b = ((indegree, ready), refl, b)
  release_all-Balanced (n ∷ rest) indegree ready gone k b =
      let (s, e, mid) =
        release-Balanced n rest indegree ready gone (k n (ground (arith, eq_refl n))) b in
      let (t, f, after) = release_all-Balanced rest s.0 s.1 gone (λ m h. k m (ground arith)) mid in
      (t, ground arith, after)

  -- What the loop ends with.
  pub record Drained (dependents : Map (List String)) (fuel : ℕ) (indegree : Map ℕ)
      (ready : List String) (visited : ℕ) : Type 0 where
    pub final : Map ℕ
    pub gone : List String
    pub returns : drain fuel dependents indegree ready visited ≡ ok (length gone)
    pub balanced : Balanced [] final [] gone

  -- A node that is ready is taken away next.
  Balanced-pop :
      (dependents : List String) (indegree : Map ℕ) (n : String) (ready gone : List String)
      → ((m : String) → occurrences m dependents ≡ arcs m n ps)
      → Balanced [] indegree (n ∷ ready) gone
      → Balanced dependents indegree ready (n ∷ gone)
  unfolding IsOrdered contains distinct occurrences
  Balanced-pop dependents indegree n ready gone l b =
      let out : contains n gone ≡ false = ground (arith, b.apart n, eq_refl n) in
      record {
        degrees = λ m. ground (arith, b.degrees m, l m, owed-gone m n gone ps);
        known = b.known;
        members = λ m. ground (arith, b.members m);
        once_ready = ground (arith, b.once_ready);
        once_gone = ground (arith, b.once_gone, out);
        apart = λ m. ground (arith, b.apart m, b.once_ready, eq_iff n m);
        ordered = (ground (arith, b.degrees n, b.members n, eq_refl n), b.ordered);
      }

  -- All nodes that are gone or ready are distinct nodes of the map.
  Balanced-room :
      (indegree : Map ℕ) (n : String) (ready gone : List String)
      → Balanced [] indegree (n ∷ ready) gone
      → suc (length gone) ≤ length nodes
  unfolding contains distinct
  Balanced-room indegree n ready gone b = omega (
    arith,
    length-distinct (n ∷ gone) (keys nodes) (ground (arith, b.once_gone, b.apart n, eq_refl n))
        λ z i. ground (arith, b.members z, contains-keys z nodes, eq_iff n z),
    length-keys nodes,
  )

  module _ (dependents : Map (List String))
      (lists : (n d : String) → occurrences n (waiting_for d dependents) ≡ arcs n d ps)
      (nodes_known : (n d : String) → 1 ≤ arcs n d ps → contains_key n nodes ≡ true) where
    pub drain-Drained :
        (fuel : ℕ) (indegree : Map ℕ) (ready gone : List String)
        → length gone + fuel ≡ length nodes
        → Balanced [] indegree ready gone
        → Drained dependents fuel indegree ready (length gone)
    unfolding drain
    drain-Drained fuel indegree [] gone enough b = record {
      final = indegree;
      gone = gone;
      returns = refl;
      balanced = b;
    }
    drain-Drained zero indegree (n ∷ ready) gone enough b =
        absurd (omega (arith, Balanced-room indegree n ready gone b))
    drain-Drained (suc fuel) indegree (n ∷ ready) gone enough b =
        let names = waiting_for n dependents in
        let (s, e, mid) =
          release_all-Balanced names indegree ready (n ∷ gone)
            (λ m h. nodes_known m n (omega (arith, lists m n)))
            (Balanced-pop names indegree n ready gone (λ m. lists m n) b) in
        let after = drain-Drained fuel s.0 s.1 (n ∷ gone) (omega arith) mid in
        record {
          final = after.final;
          gone = after.gone;
          returns = ground (arith, after.returns);
          balanced = after.balanced;
        }
