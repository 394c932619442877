-- ===== src/Protocol/EventLog.antt =====
-- src/execution_protocol/event.rs, and `append_event` and `validate_event_envelope` of
-- src/execution_protocol/reducer.rs: one event after another on an execution state. The state here
-- is what those functions read and write; `body` holds the rest, which the payloads change.
pub mod Identity
pub mod Accept
pub mod Numbering
pub mod Repeat
pub mod Later
use rustgrid_agent.Prelude.{
  ℕ, ◌+◌, String, Bool, true, false, not, ◌&&◌, ◌||◌, Option, none, some, List, [], ◌∷◌, ◌++◌, ◌==◌,
  nat_eq, is_some, is_some_and, find, if◌then◌else◌,
}
use rustgrid_agent.Words.{saturating_add_u64}
use rustgrid_agent.Map.{Map, get, contains_key, insert}
use rustgrid_agent.Protocol.Violation.{
  ProtocolViolation, Result, ok, err, unsupported_version, envelope_mismatch, revision_conflict,
  sequence_conflict, invalid_event_identity, event_identity_conflict, terminal_immutable,
  unknown_node, invariant, reject_if, ok_or, ◌>>=◌, ◌>>◌,
}
use rustgrid_agent.Protocol.Ledger.Guards.{trim_is_empty}
use Identity.{validate_wire_identity, validate_sha256_digest}

pub record EffectObservationBinding : Type 0 where
  pub effect_intent_id : String
  pub request_digest : String

pub record ProtocolEventContext : Type 0 where
  pub causation_id : Option String
  pub correlation_id : String
  pub node_id : Option String
  pub effect_observation : Option EffectObservationBinding

-- `context` holds the four fields that `ProtocolEventContext` names.
pub record ProtocolEventEnvelope (P : Type 0) : Type 0 where
  pub protocol_version : ℕ
  pub event_schema_version : ℕ
  pub event_id : String
  pub execution_id : String
  pub execution_attempt : ℕ  -- u32
  pub sequence : ℕ  -- u64
  pub aggregate_revision_before : ℕ  -- u64
  pub context : ProtocolEventContext
  pub repository_revision : String
  pub semantic_key : String
  pub semantic_identity : String
  pub occurred_at_ms : ℕ  -- u64
  pub payload : P

pub record StoredProtocolEvent (P : Type 0) : Type 0 where
  pub envelope : ProtocolEventEnvelope P
  pub payload_hash : String

pub record Aggregate (P B : Type 0) : Type 0 where
  pub trusted_bootstrap : Bool
  pub aggregate_revision : ℕ  -- u64
  pub execution_id : String
  pub execution_attempt : ℕ  -- u32
  pub repository_revision : String
  pub terminal : Bool
  pub event_log : List (StoredProtocolEvent P)
  pub event_payload_hashes : Map String
  pub body : B

pub data AppendOutcome : Type 0 where
  applied idempotent_replay : ℕ → AppendOutcome

-- What the log asks of the payloads and of the hashes, by the names of the functions. The tests that
-- freeze progress once a phase has converged are `progress_guards`.
pub record Reducers (P B : Type 0) : Type 0 where
  pub canonical_hash : ProtocolEventEnvelope P → Result String
  pub semantic_identity : String → ProtocolEventContext → P → Result String
  pub derive_event_id : String → ℕ → String → String
  pub expected_node_owner : Aggregate P B → P → Option String
  pub has_node : Aggregate P B → String → Bool
  pub payload_adds_node : P → String → Bool
  pub progress_guards : Aggregate P B → P → Result (Unit {0})
  pub apply_payload : P → Aggregate P B → Result (Aggregate P B)
  pub validate_invariants : Aggregate P B → Result (Unit {0})

abbrev pub execution_protocol_version : ℕ
execution_protocol_version = 1

abbrev pub protocol_event_schema_version : ℕ
protocol_event_schema_version = 2

abbrev pub text_option_eq : Option String → Option String → Bool
text_option_eq none none = true
text_option_eq (some a) (some b) = a == b
text_option_eq _ _ = false

abbrev pub differ : Bool → Bool → Bool
differ a b = if a then not b else b

abbrev pub last {ℓ} : {A : Type ℓ} → List A → Option A
last [] = none
last (x ∷ xs) = let rest = last xs in if is_some rest then rest else some x

abbrev pub first {ℓ} : {A : Type ℓ} → List A → Option A
first [] = none
first (x ∷ xs) = some x

abbrev pub event_id_of : {P : Type 0} → Option (StoredProtocolEvent P) → Option String
event_id_of none = none
event_id_of (some stored) = some stored.envelope.event_id

-- `if let Some(value) = option { test(value)?; }`
abbrev pub check_some {ℓ} : {A : Type ℓ} → Option A → (A → Result (Unit {0})) → Result (Unit {0})
check_some none test = ok tt
check_some (some a) test = test a

module _ {P B : Type 0} where
  unfoldable pub next_sequence : Aggregate P B → ℕ
  next_sequence st = elim (last st.event_log) [
    | none ↦ 1
    | some stored ↦ saturating_add_u64 stored.envelope.sequence 1
  ]

  unfoldable pub require_trusted_bootstrap : Aggregate P B → Result (Unit {0})
  require_trusted_bootstrap st =
      reject_if (not st.trusted_bootstrap) (invariant "untrusted_execution_snapshot")

module _ {P : Type 0} where
  unfoldable pub validate_intrinsic_context : ProtocolEventEnvelope P → Result (Unit {0})
  validate_intrinsic_context e = do
    validate_wire_identity "semantic_key" e.semantic_key
    validate_wire_identity "correlation_id" e.context.correlation_id
    check_some e.context.causation_id λ causation_id. do
      validate_wire_identity "causation_id" causation_id
      reject_if (causation_id == e.event_id) (envelope_mismatch "causation_id")
    check_some e.context.node_id (validate_wire_identity "node_id")
    check_some e.context.effect_observation λ binding. do
      validate_wire_identity "effect_intent_id" binding.effect_intent_id
      validate_sha256_digest "effect_request_digest" binding.request_digest

module _ {P B : Type 0} (r : Reducers P B) where
  unfoldable pub validate_context_against_state :
      Aggregate P B → ProtocolEventContext → P → Result (Unit {0})
  validate_context_against_state st context payload = do
    reject_if (differ (is_some (first st.event_log)) (is_some context.causation_id))
        (envelope_mismatch "causation_id")
    reject_if
        (is_some_and context.causation_id
          λ causation_id. not (contains_key causation_id st.event_payload_hashes))
        (envelope_mismatch "causation_id")
    reject_if
        (is_some context.effect_observation
          && not (text_option_eq context.causation_id (event_id_of (last st.event_log))))
        (envelope_mismatch "effect_observation")
    reject_if
        (is_some_and (first st.event_log)
          λ existing. not (context.correlation_id == existing.envelope.context.correlation_id))
        (envelope_mismatch "correlation_id")
    reject_if (not (text_option_eq context.node_id (r.expected_node_owner st payload)))
        (envelope_mismatch "node_id")
    check_some context.node_id λ node_id.
        reject_if (not (r.has_node st node_id) && not (r.payload_adds_node payload node_id))
          (unknown_node node_id)

  unfoldable pub validate_context_against :
      ProtocolEventEnvelope P → Aggregate P B → Result (Unit {0})
  validate_context_against e st = do
    validate_intrinsic_context e
    validate_context_against_state st e.context e.payload

  unfoldable pub expected_semantic_identity : ProtocolEventEnvelope P → Result String
  expected_semantic_identity e = do
    validate_intrinsic_context e
    r.semantic_identity e.semantic_key e.context e.payload

  unfoldable pub expected_event_id : ProtocolEventEnvelope P → Result String
  expected_event_id e = do
    semantic_identity ← expected_semantic_identity e
    ok (r.derive_event_id e.execution_id e.execution_attempt semantic_identity)

  -- `semantic_key.trim().is_empty() || semantic_identity != expected_semantic_identity()?`
  unfoldable pub check_semantic_identity : ProtocolEventEnvelope P → Result (Unit {0})
  check_semantic_identity e =
      if trim_is_empty e.semantic_key then err (invalid_event_identity e.event_id) else (do
        expected ← expected_semantic_identity e
        reject_if (not (e.semantic_identity == expected)) (invalid_event_identity e.event_id))

  unfoldable pub validate_event_envelope :
      Aggregate P B → ProtocolEventEnvelope P → Result (Unit {0})
  validate_event_envelope st e = do
    reject_if (not (nat_eq e.protocol_version execution_protocol_version))
        (unsupported_version e.protocol_version)
    reject_if (not (nat_eq e.event_schema_version protocol_event_schema_version))
        (envelope_mismatch "event_schema_version")
    reject_if (not (e.execution_id == st.execution_id)) (envelope_mismatch "execution_id")
    reject_if (not (nat_eq e.execution_attempt st.execution_attempt))
        (envelope_mismatch "execution_attempt")
    reject_if (not (nat_eq e.aggregate_revision_before st.aggregate_revision))
        (revision_conflict e.aggregate_revision_before st.aggregate_revision)
    validate_context_against e st
    reject_if (not (e.repository_revision == st.repository_revision))
        (envelope_mismatch "repository_revision")
    check_semantic_identity e
    event_id ← expected_event_id e
    reject_if (not (e.event_id == event_id)) (invalid_event_identity e.event_id)
    reject_if (not (nat_eq e.sequence (next_sequence st)))
        (sequence_conflict (next_sequence st) e.sequence)

  -- The event under an id that is indexed already.
  unfoldable pub replay_known :
      Aggregate P B
      → ProtocolEventEnvelope P
      → String
      → String
      → Result (Aggregate P B × AppendOutcome)
  replay_known st e canonical_hash existing_hash =
      if existing_hash == canonical_hash
      then (do
        stored ←
            ok_or (find (λ stored. stored.envelope.event_id == e.event_id) st.event_log)
              (invariant "event_index_missing_stored_event")
        let revision = saturating_add_u64 stored.envelope.aggregate_revision_before 1
        ok (st, AppendOutcome.idempotent_replay revision))
      else err (event_identity_conflict e.event_id)

  -- What is committed around the payload's own change.
  unfoldable pub commit : ProtocolEventEnvelope P → String → Aggregate P B → Aggregate P B
  commit e canonical_hash next = record next {
    aggregate_revision = saturating_add_u64 next.aggregate_revision 1;
    event_payload_hashes = insert e.event_id canonical_hash next.event_payload_hashes;
    event_log = next.event_log ++ record { envelope = e; payload_hash = canonical_hash } ∷ [];
  }

  unfoldable pub apply_new :
      Aggregate P B → ProtocolEventEnvelope P → String → Result (Aggregate P B × AppendOutcome)
  apply_new st e canonical_hash = do
    validate_event_envelope st e
    reject_if st.terminal terminal_immutable
    r.progress_guards st e.payload
    changed ← r.apply_payload e.payload st
    let next = commit e canonical_hash changed
    r.validate_invariants next
    ok (next, AppendOutcome.applied next.aggregate_revision)

  unfoldable pub append_event :
      Aggregate P B → ProtocolEventEnvelope P → Result (Aggregate P B × AppendOutcome)
  append_event st e = do
    require_trusted_bootstrap st
    r.validate_invariants st
    canonical_hash ← r.canonical_hash e
    elim (get e.event_id st.event_payload_hashes) [
      | some existing_hash ↦ replay_known st e canonical_hash existing_hash
      | none ↦ apply_new st e canonical_hash
    ]
