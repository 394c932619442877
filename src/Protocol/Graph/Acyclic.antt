-- ===== src/Protocol/Graph/Acyclic.antt =====
-- `validate_graph_acyclic` of src/execution_protocol/reducer.rs: the nodes are taken away one by one,
-- those without an outstanding dependency first. The fuel counts the rounds of the last loop.
pub mod Degrees
pub mod Build
pub mod Drain
pub mod Start
pub mod Order
use rustgrid_agent.Prelude.{
  ℕ, zero, suc, ◌+◌, String, Bool, true, false, not, ◌&&◌, Option, none, some, List, [], ◌∷◌, ◌++◌,
  ◌==◌, nat_eq, length, if◌then◌else◌,
}
use rustgrid_agent.Words.{saturating_sub}
use rustgrid_agent.Map.{Map, get, contains_key, insert, modify, values}
use rustgrid_agent.Protocol.Violation.{
  Result, ok, panic, invalid_graph, reject_if, expect, expect_mut, ◌>>=◌, ◌>>◌,
}
use rustgrid_agent.Protocol.Model.{ExecutionNode}

-- `indegree` and `dependents`.
pub record Arcs : Type 0 where
  pub indegree : Map ℕ
  pub dependents : Map (List String)

abbrev pub names_or_default : Option (List String) → List String
names_or_default none = []
names_or_default (some names) = names

unfoldable pub add_dependency : Map ExecutionNode → String → String → Arcs → Result Arcs
add_dependency nodes node_id dependency arcs = do
  reject_if (dependency == node_id) (invalid_graph "self_dependency" (some node_id))
  reject_if (not (contains_key dependency nodes))
      (invalid_graph "unknown_dependency" (some node_id))
  indegree ← expect_mut "node has indegree" node_id (λ degree. degree + 1) arcs.indegree
  ok (record {
    indegree = indegree;
    dependents =
        insert dependency (names_or_default (get dependency arcs.dependents) ++ node_id ∷ [])
          arcs.dependents;
  })

unfoldable pub add_dependencies : Map ExecutionNode → String → List String → Arcs → Result Arcs
add_dependencies nodes node_id [] arcs = ok arcs
add_dependencies nodes node_id (dependency ∷ dependencies) arcs = do
  arcs' ← add_dependency nodes node_id dependency arcs
  add_dependencies nodes node_id dependencies arcs'

unfoldable pub add_nodes : Map ExecutionNode → Map ExecutionNode → Arcs → Result Arcs
add_nodes nodes [] arcs = ok arcs
add_nodes nodes ((k, node) ∷ rest) arcs = do
  arcs' ← add_dependencies nodes node.id node.dependencies arcs
  add_nodes nodes rest arcs'

unfoldable pub no_degrees : Map ExecutionNode → Map ℕ
no_degrees [] = []
no_degrees ((k, node) ∷ nodes) = (k, 0) ∷ no_degrees nodes

unfoldable pub initially_ready : Map ℕ → List String
initially_ready [] = []
initially_ready ((k, degree) ∷ indegree) =
    let rest = initially_ready indegree in if nat_eq degree 0 then k ∷ rest else rest

-- One dependency of `dependent` is taken away.
unfoldable pub release : String → Map ℕ × List String → Result (Map ℕ × List String)
release dependent (indegree, ready) = do
  degree ← expect (get dependent indegree) "dependent has indegree"
  let left = saturating_sub degree 1
  ok (
    modify dependent (λ _. left) indegree,
    if nat_eq left 0 then ready ++ dependent ∷ [] else ready,
  )

unfoldable pub release_all : List String → Map ℕ × List String → Result (Map ℕ × List String)
release_all [] s = ok s
release_all (dependent ∷ dependents) s = do s' ← release dependent s; release_all dependents s'

unfoldable pub drain : ℕ → Map (List String) → Map ℕ → List String → ℕ → Result ℕ
drain fuel dependents indegree [] visited = ok visited
drain zero dependents indegree (node_id ∷ ready) visited = panic "out of fuel"
drain (suc fuel) dependents indegree (node_id ∷ ready) visited = do
  s ← release_all (names_or_default (get node_id dependents)) (indegree, ready)
  drain fuel dependents s.0 s.1 (visited + 1)

unfoldable pub validate_graph_acyclic : Map ExecutionNode → Result (Unit {0})
validate_graph_acyclic nodes = do
  arcs ← add_nodes nodes nodes (record { indegree = no_degrees nodes; dependents = [] })
  visited ← drain (length nodes) arcs.dependents arcs.indegree (initially_ready arcs.indegree) 0
  reject_if (not (nat_eq visited (length nodes))) (invalid_graph "dependency_cycle" none)
