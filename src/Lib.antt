-- ===== src/Lib.antt =====
-- rustgrid-agent: a worker that claims a ticket's run from a control plane, executes it under a
-- supervised lease, and drives its work by an event-sourced protocol with a budget. This library
-- models the decisions of the worker and proves what they keep. Paths are from the repository's root.
--
-- The parts, and where they are:
-- * Protocol models src/execution_protocol. Protocol.Stage, Protocol.Violation and Protocol.Model are
--   the data of model.rs and error.rs; Protocol.Usage is the budget arithmetic at the end of reducer.rs,
--   and Protocol.Ledger `apply_budget_event` of reducer.rs with its four handlers. A handler takes the
--   event and the state and returns the whole next state, a `ProtocolViolation`, or the failure of
--   an `expect`. A `BTreeMap` is an association list in the order of its keys (Map).
--   Protocol.Ledger.Check is `validate_budget_invariants`, the test of the whole ledger from its calls.
-- * Protocol.Graph models the events of the graph that move a node (`apply_graph_event`,
--   `start_node`, `wait_node`, `resume_node`, `succeed_node`, `fail_node`,
--   `refresh_ready_nodes` of reducer.rs). What it asks of the phases is the record
--   PhaseContracts, and the theorems hold for every such record. Protocol.Graph.Paths,
--   Protocol.Graph.Acyclic and Protocol.Graph.Topology are `has_dependency_path`,
--   `validate_graph_acyclic` and `validate_plan_topology`, Protocol.Graph.Check
--   `validate_graph`, and Protocol.Graph.Growth `add_plan_nodes` and
--   `add_validation_repair_node`. Protocol.Graph.Advance is the step between stages and the
--   final result (`advance_position`, `record_canonical_result`), with what the phases give in
--   the record TransitionContracts. The position is a stage: the step within the stage is not
--   modelled. Protocol.History puts the events of the ledger, of the graph, of the stages and
--   of the result in one sequence, as `apply_payload` dispatches them; the two events that add
--   nodes are not in that sequence.
-- * Protocol.EventLog models the envelope of an event and `append_event` with `reduce` (event.rs,
--   reducer.rs), Protocol.EventStore `InMemoryEventStore` of store.rs: new, append, restore. What an
--   event does to the rest of the state, and the hashes, are the records Reducers and StoreParts.
-- * Supervisor models src/supervisor.rs: `LeaseMonitor`, and the loop of the supervising thread as a
--   function of what each round meets (the flags, the clock, the control plane's answers).
-- * Lifecycle models `RunPhase` of src/lifecycle.rs and `Reporter::set_phase` of src/reporting.rs.
-- * Failure, Outcome and Finalization model src/error.rs, src/outcome.rs and src/finalization.rs with
--   the endings of src/reporting.rs: the supervisor's flags and the execution's result become one
--   outcome, and the outcome decides which writes are attempted, in which order.
-- * Journal models src/journal.rs: `RunJournal` with all its operations (Journal.Edits), the trait
--   `EventStore` as a record (Journal.Store) and `FilesystemEventStore` that fills it
--   (Journal.Filesystem). The file system is the record FileSystem, with what is relied on in
--   IsFileSystem: a write leaves the other files, a full write gives the content, and a rename
--   replaces its target or fails and leaves it. That an encoded journal reads back is a hypothesis too.
-- * Coordinator models src/coordinator.rs, TokenConsumption src/token_consumption.rs.
-- * Prelude, Words and Map hold what the parts share; Examples runs the models on concrete data.
--
-- Numbers are native; u32 and u64 keep their saturation or their checks as the source writes them.
-- Most loops are over a list. Two worklists take fuel: the search for a path has one round for each
-- dependency and the drain of the ready nodes one for each node, and both are proved to suffice (the
-- verdicts are exact, in both directions). The largest word of a type is no proper limit: a
-- saturated sum passes it, so the theorems on budgets ask for limits below it (IsProper).
--
-- Not modelled: the phases' own reducers (discovery, planning, mutation, validation, review and
-- publication), of which the handlers read a few fields only; the guards that `append_event` adds for
-- actions in progress, and the test of a whole event log; serialization and hashes, whose
-- results are data of the model; threads, processes, HTTP, git and files; and all texts for people.
pub mod Prelude
pub mod Words
pub mod Map
pub mod Protocol
pub mod Coordinator
pub mod Lifecycle
pub mod Failure
pub mod Outcome
pub mod Finalization
pub mod TokenConsumption
pub mod Supervisor
pub mod Journal
mod Examples
