-- ===== src/Protocol/EventStore.antt =====
-- src/execution_protocol/store.rs: the event store, whose state is replayed from a trusted bootstrap.
pub mod Replay
use rustgrid_agent.Prelude.{Bool, true, not, List, [], ◌∷◌}
use rustgrid_agent.Protocol.Violation.{Result, ok, invariant, reject_if, ◌>>=◌, ◌>>◌}
use rustgrid_agent.Protocol.EventLog.{
  ProtocolEventEnvelope, StoredProtocolEvent, Aggregate, AppendOutcome, Reducers,
  require_trusted_bootstrap, append_event,
}

-- `same` is the derived `PartialEq` of the state, `bootstrap_from` builds the bootstrap of the same
-- execution.
pub record StoreParts (P B : Type 0) : Type 0 where
  pub reducers : Reducers P B
  pub bootstrap_from : Aggregate P B → Result (Aggregate P B)
  pub same : Aggregate P B → Aggregate P B → Bool

pub record InMemoryEventStore (P B : Type 0) : Type 0 where
  pub trusted_initial : Aggregate P B
  pub state : Aggregate P B

abbrev pub with_trust : {P B : Type 0} → Bool → Aggregate P B → Aggregate P B
with_trust b st = record st { trusted_bootstrap = b }

module _ {P B : Type 0} (parts : StoreParts P B) where
  -- `append_event` on each stored envelope in turn.
  unfoldable pub replay : List (StoredProtocolEvent P) → Aggregate P B → Result (Aggregate P B)
  replay [] replayed = ok replayed
  replay (stored ∷ log) replayed = do
    next ← append_event parts.reducers replayed stored.envelope
    replay log next.0

  unfoldable pub replay_and_validate : Aggregate P B → Aggregate P B → Result (Aggregate P B)
  replay_and_validate trusted_initial st = do
    replayed ← replay st.event_log trusted_initial
    reject_if (not (parts.same replayed (with_trust true st)))
        (invariant "snapshot_does_not_match_event_replay")
    ok replayed

  unfoldable pub validate_replay_equivalence : Aggregate P B → Result (Unit {0})
  validate_replay_equivalence st = do
    require_trusted_bootstrap st
    initial ← parts.bootstrap_from st
    _ ← replay_and_validate initial st
    ok tt

  unfoldable pub validate_pristine_bootstrap : Aggregate P B → Result (Unit {0})
  validate_pristine_bootstrap st = do
    require_trusted_bootstrap st
    parts.reducers.validate_invariants st
    expected ← parts.bootstrap_from st
    reject_if (not (parts.same st expected)) (invariant "snapshot_does_not_match_event_replay")

  unfoldable pub new : Aggregate P B → Result (InMemoryEventStore P B)
  new trusted_initial = do
    validate_pristine_bootstrap trusted_initial
    ok (record { trusted_initial = trusted_initial; state = trusted_initial })

  unfoldable pub restore : Aggregate P B → Aggregate P B → Result (InMemoryEventStore P B)
  restore trusted_initial snapshot = do
    validate_pristine_bootstrap trusted_initial
    parts.reducers.validate_invariants snapshot
    state ← replay_and_validate trusted_initial snapshot
    ok (record { trusted_initial = trusted_initial; state = state })

  unfoldable pub append :
      InMemoryEventStore P B
      → ProtocolEventEnvelope P
      → Result (InMemoryEventStore P B × AppendOutcome)
  append store event = do
    next ← append_event parts.reducers store.state event
    state ← replay_and_validate store.trusted_initial next.0
    ok (record store { state = state }, next.1)

  -- `validate_state` and `reduce` of src/execution_protocol/reducer.rs.
  unfoldable pub validate_state : Aggregate P B → Result (Unit {0})
  validate_state st = do
    require_trusted_bootstrap st
    parts.reducers.validate_invariants st
    validate_replay_equivalence st

  unfoldable pub reduce : Aggregate P B → ProtocolEventEnvelope P → Result (Aggregate P B)
  reduce st event = do validate_state st; next ← append_event parts.reducers st event; ok next.0
