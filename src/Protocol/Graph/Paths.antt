-- ===== src/Protocol/Graph/Paths.antt =====
-- `has_dependency_path` of src/execution_protocol/reducer.rs: a search over the dependencies of the
-- nodes. The stack of pending nodes has its top first; the fuel counts the rounds of the loop.
pub mod Search
use rustgrid_agent.Prelude.{
  ℕ, zero, suc, ◌+◌, String, ◌≡◌, Bool, true, false, Option, none, some, List, [], ◌∷◌, ◌==◌,
  length, contains, push_all, if◌then◌else◌,
}
use rustgrid_agent.Map.{Map, get}
use rustgrid_agent.Map.Sums.{total}
use rustgrid_agent.Protocol.Model.{ExecutionNode, ExecutionState}

-- A node that is not in the map has no dependencies.
abbrev pub dependencies_of : Option ExecutionNode → List String
dependencies_of none = []
dependencies_of (some node) = node.dependencies

-- `d` is a dependency of `n`.
abbrev pub IsEdge : Map ExecutionNode → String → String → Type 0
IsEdge nodes n d = contains d (dependencies_of (get n nodes)) ≡ true

-- A chain of one or more dependencies leads from one node to another.
pub data Depends (nodes : Map ExecutionNode) : String → String → Type 0 where
  direct : {n d : String} → IsEdge nodes n d → Depends nodes n d
  through : {n d a : String} → IsEdge nodes n d → Depends nodes d a → Depends nodes n a

unfoldable pub search_path :
    ℕ → Map ExecutionNode → String → List String → List String → Option Bool
search_path fuel nodes ancestor_id [] visited = some false
search_path zero nodes ancestor_id (candidate ∷ pending) visited = none
search_path (suc fuel) nodes ancestor_id (candidate ∷ pending) visited =
    if candidate == ancestor_id then some true else elim (contains candidate visited) [
      | true ↦ search_path fuel nodes ancestor_id pending visited
      | false ↦
          search_path fuel nodes ancestor_id
            (push_all (dependencies_of (get candidate nodes)) pending) (candidate ∷ visited)
    ]

-- One round for each dependency of each node.
abbrev pub dependency_count : ExecutionNode → ℕ
dependency_count node = length node.dependencies

unfoldable pub has_dependency_path : Map ExecutionNode → String → String → Option Bool
has_dependency_path nodes node_id ancestor_id =
    let dependencies = dependencies_of (get node_id nodes) in
    search_path (length dependencies + total dependency_count nodes) nodes ancestor_id
      (push_all dependencies []) []
