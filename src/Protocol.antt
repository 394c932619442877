-- ===== src/Protocol.antt =====
-- src/execution_protocol: the event-sourced aggregate of one execution attempt.
pub mod Stage
pub mod Violation
pub mod Model
pub mod Usage
pub mod Ledger
pub mod Graph
pub mod History
pub mod EventLog
pub mod EventStore
