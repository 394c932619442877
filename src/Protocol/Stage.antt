-- ===== src/Protocol/Stage.antt =====
-- The enumerations of src/execution_protocol/model.rs: stages, node kinds, proof kinds, outcomes.
use rustgrid_agent.Prelude.{ℕ, Bool, true, false, Option, none, some}

pub data ProtocolStage : Type 0 where
  profiling discovery planning implementation validation repair review publication : ProtocolStage
  terminal : ProtocolStage

pub ProtocolStage-discrete : Discrete ProtocolStage
ProtocolStage-discrete = hlevel

-- The derived `PartialEq`.
abbrev pub stage_eq : ProtocolStage → ProtocolStage → Bool
stage_eq ProtocolStage.profiling ProtocolStage.profiling = true
stage_eq ProtocolStage.discovery ProtocolStage.discovery = true
stage_eq ProtocolStage.planning ProtocolStage.planning = true
stage_eq ProtocolStage.implementation ProtocolStage.implementation = true
stage_eq ProtocolStage.validation ProtocolStage.validation = true
stage_eq ProtocolStage.repair ProtocolStage.repair = true
stage_eq ProtocolStage.review ProtocolStage.review = true
stage_eq ProtocolStage.publication ProtocolStage.publication = true
stage_eq ProtocolStage.terminal ProtocolStage.terminal = true
stage_eq _ _ = false

pub data NodeKind : Type 0 where
  discovery planning implementation validation validation_repair review : NodeKind
  completion_evaluation publication : NodeKind

-- The derived `PartialEq`.
abbrev pub kind_eq : NodeKind → NodeKind → Bool
kind_eq NodeKind.discovery NodeKind.discovery = true
kind_eq NodeKind.planning NodeKind.planning = true
kind_eq NodeKind.implementation NodeKind.implementation = true
kind_eq NodeKind.validation NodeKind.validation = true
kind_eq NodeKind.validation_repair NodeKind.validation_repair = true
kind_eq NodeKind.review NodeKind.review = true
kind_eq NodeKind.completion_evaluation NodeKind.completion_evaluation = true
kind_eq NodeKind.publication NodeKind.publication = true
kind_eq _ _ = false

pub data ProofKind : Type 0 where
  repository_profile discovery_impact_map plan_accepted mutation_verified : ProofKind
  already_satisfied implementation_barrier validation_passed validation_failure : ProofKind
  repair_eligibility repair_verified validation_rerun_scheduled : ProofKind
  required_validation_passed review_completed completion_evaluated : ProofKind
  publication_eligibility publication_completed no_op_satisfied : ProofKind

unfoldable pub ProofKind-discrete : Discrete ProofKind
ProofKind-discrete = hlevel

abbrev pub proof_kind_eq : ProofKind → ProofKind → Bool
proof_kind_eq a b = elim (ProofKind-discrete a b) [ yes _ ↦ true | no _ ↦ false ]

unfoldable pub stage : NodeKind → ProtocolStage
stage NodeKind.discovery = ProtocolStage.discovery
stage NodeKind.planning = ProtocolStage.planning
stage NodeKind.implementation = ProtocolStage.implementation
stage NodeKind.validation = ProtocolStage.validation
stage NodeKind.validation_repair = ProtocolStage.repair
stage NodeKind.review = ProtocolStage.review
stage NodeKind.completion_evaluation = ProtocolStage.review
stage NodeKind.publication = ProtocolStage.publication

unfoldable pub requires_model : NodeKind → Bool
requires_model NodeKind.discovery = true
requires_model NodeKind.planning = true
requires_model NodeKind.implementation = true
requires_model NodeKind.validation = false
requires_model NodeKind.validation_repair = true
requires_model NodeKind.review = true
requires_model NodeKind.completion_evaluation = true
requires_model NodeKind.publication = false

unfoldable pub is_planned_node : NodeKind → Bool
is_planned_node NodeKind.discovery = false
is_planned_node NodeKind.planning = false
is_planned_node NodeKind.implementation = true
is_planned_node NodeKind.validation = true
is_planned_node NodeKind.validation_repair = false
is_planned_node NodeKind.review = true
is_planned_node NodeKind.completion_evaluation = true
is_planned_node NodeKind.publication = true

unfoldable pub protocol_node_order : NodeKind → ℕ
protocol_node_order NodeKind.discovery = 0
protocol_node_order NodeKind.planning = 1
protocol_node_order NodeKind.implementation = 2
protocol_node_order NodeKind.validation = 3
protocol_node_order NodeKind.validation_repair = 4
protocol_node_order NodeKind.review = 5
protocol_node_order NodeKind.completion_evaluation = 6
protocol_node_order NodeKind.publication = 7

unfoldable pub transition_proof : ProtocolStage → ProtocolStage → Option ProofKind
transition_proof ProtocolStage.profiling ProtocolStage.discovery = some ProofKind.repository_profile
transition_proof ProtocolStage.discovery ProtocolStage.planning =
    some ProofKind.discovery_impact_map
transition_proof ProtocolStage.planning ProtocolStage.implementation = some ProofKind.plan_accepted
transition_proof ProtocolStage.implementation ProtocolStage.validation =
    some ProofKind.implementation_barrier
transition_proof ProtocolStage.validation ProtocolStage.repair = some ProofKind.validation_failure
transition_proof ProtocolStage.repair ProtocolStage.validation =
    some ProofKind.validation_rerun_scheduled
transition_proof ProtocolStage.validation ProtocolStage.review =
    some ProofKind.required_validation_passed
transition_proof ProtocolStage.review ProtocolStage.publication =
    some ProofKind.publication_eligibility
transition_proof _ _ = none

unfoldable pub proof_satisfies_node : NodeKind → ProofKind → Bool
proof_satisfies_node NodeKind.discovery ProofKind.discovery_impact_map = true
proof_satisfies_node NodeKind.planning ProofKind.plan_accepted = true
proof_satisfies_node NodeKind.planning ProofKind.no_op_satisfied = true
proof_satisfies_node NodeKind.implementation ProofKind.mutation_verified = true
proof_satisfies_node NodeKind.implementation ProofKind.already_satisfied = true
proof_satisfies_node NodeKind.validation ProofKind.validation_passed = true
proof_satisfies_node NodeKind.validation_repair ProofKind.repair_verified = true
proof_satisfies_node NodeKind.review ProofKind.review_completed = true
proof_satisfies_node NodeKind.completion_evaluation ProofKind.completion_evaluated = true
proof_satisfies_node NodeKind.publication ProofKind.publication_completed = true
proof_satisfies_node _ _ = false
