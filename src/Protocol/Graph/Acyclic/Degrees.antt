-- ===== src/Protocol/Graph/Acyclic/Degrees.antt =====
-- `validate_graph_acyclic` of src/execution_protocol/reducer.rs: the degrees and dependents that its
-- first loop counts, against the list of all dependencies.
use rustgrid_agent.Prelude.{
  ℕ, ◌+◌, ◌≤◌, String, ◌≡◌, inl, inr, Bool, true, false, not, ◌&&◌, List, [], ◌∷◌, ◌++◌, arith,
  ◌==◌, eq_iff, eq_refl, Bool-cases, contains, if◌then◌else◌,
}
use rustgrid_agent.Map.{Map, contains_key}
use rustgrid_agent.Protocol.Model.{ExecutionNode}

-- The map's own order: every node under its name, and no name twice.
unfoldable pub is_indexed : Map ExecutionNode → Bool
is_indexed [] = true
is_indexed ((k, node) ∷ nodes) = node.id == k && not (contains_key k nodes) && is_indexed nodes

-- All dependencies, as pairs of a node and what it depends on.
abbrev pub pairs_of : String → List String → List (String × String)
pairs_of n [] = []
pairs_of n (d ∷ ds) = (n, d) ∷ pairs_of n ds

unfoldable pub pairs : Map ExecutionNode → List (String × String)
pairs [] = []
pairs ((k, node) ∷ nodes) = pairs_of node.id node.dependencies ++ pairs nodes

-- How often `n` depends on `d`.
unfoldable pub arcs : String → String → List (String × String) → ℕ
arcs n d [] = 0
arcs n d ((m, e) ∷ ps) = (if m == n && e == d then 1 else 0) + arcs n d ps

-- How many dependencies of `n` are outside of `gone`.
unfoldable pub owed : String → List String → List (String × String) → ℕ
owed n gone [] = 0
owed n gone ((m, e) ∷ ps) = (if m == n && not (contains e gone) then 1 else 0) + owed n gone ps

pub owed-gone :
    (n x : String) (gone : List String) (ps : List (String × String))
    → contains x gone ≡ false
    → owed n (x ∷ gone) ps + arcs n x ps ≡ owed n gone ps
unfolding owed arcs contains
owed-gone n x gone [] h = omega arith
owed-gone n x gone ((m, e) ∷ ps) h = ground (arith, owed-gone n x gone ps, eq_iff x e, eq_iff e x)

pub arcs-append :
    (n d : String) (ps qs : List (String × String))
    → arcs n d (ps ++ qs) ≡ arcs n d ps + arcs n d qs
unfolding arcs
arcs-append n d [] qs = omega arith
arcs-append n d ((m, e) ∷ ps) qs = omega (arith, arcs-append n d ps qs)

-- A dependency that is not owed is gone.
pub owed-none :
    (n d : String) (gone : List String) (ps : List (String × String))
    → owed n gone ps ≡ 0
    → 1 ≤ arcs n d ps
    → contains d gone ≡ true
unfolding owed arcs
owed-none n d gone [] z h = absurd (omega arith)
owed-none n d gone ((m, e) ∷ ps) z h = ground (arith, owed-none n d gone ps, eq_iff e d)

pub owed-some :
    (n : String) (gone : List String) (ps : List (String × String))
    → 1 ≤ owed n gone ps
    → (d : String) × (1 ≤ arcs n d ps) × (contains d gone ≡ false)
unfolding owed arcs
owed-some n gone [] h = absurd (omega arith)
owed-some n gone ((m, e) ∷ ps) h = elim (Bool-cases (m == n && not (contains e gone))) [
  | inl here ↦ (e, ground (arith, eq_refl e), ground arith)
  | inr other ↦ let (d, a, out) = owed-some n gone ps (ground arith) in (d, ground arith, out)
]
