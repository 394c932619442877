-- ===== src/Protocol/EventLog/Accept.antt =====
-- `append_event` of src/execution_protocol/reducer.rs: what an accepted event was, and what it leaves.
use rustgrid_agent.Prelude.{
  ℕ, String, ◌≡◌, inl, inr, false, none, arith, ◌==◌, eq_iff, nat_eq, find, Bool-cases,
  Option-cases,
}
use rustgrid_agent.Words.{saturating_add_u64}
use rustgrid_agent.Map.{get}
use rustgrid_agent.Protocol.Violation.{ok, err, revision_conflict, Result-cases}
use rustgrid_agent.Protocol.EventLog.{
  ProtocolEventEnvelope, Aggregate, AppendOutcome, Reducers, next_sequence, expected_event_id,
  validate_event_envelope, replay_known, commit, apply_new, append_event,
}

-- The payloads' reducers leave the log and its numbers alone.
pub record IsFramed {P B : Type 0} (r : Reducers P B) : Type 0 where
  pub trusted :
      (p : P) (st st' : Aggregate P B)
      → r.apply_payload p st ≡ ok st'
      → st'.trusted_bootstrap ≡ st.trusted_bootstrap
  pub revision :
      (p : P) (st st' : Aggregate P B)
      → r.apply_payload p st ≡ ok st'
      → st'.aggregate_revision ≡ st.aggregate_revision
  pub log :
      (p : P) (st st' : Aggregate P B)
      → r.apply_payload p st ≡ ok st'
      → st'.event_log ≡ st.event_log
  pub hashes :
      (p : P) (st st' : Aggregate P B)
      → r.apply_payload p st ≡ ok st'
      → st'.event_payload_hashes ≡ st.event_payload_hashes
  pub execution :
      (p : P) (st st' : Aggregate P B)
      → r.apply_payload p st ≡ ok st'
      → (st'.execution_id ≡ st.execution_id) × (st'.execution_attempt ≡ st.execution_attempt)

module _ {P B : Type 0} (r : Reducers P B) where
  -- A new event that was accepted.
  pub record Accepted (st : Aggregate P B) (e : ProtocolEventEnvelope P) (st' : Aggregate P B)
      : Type 0 where
    pub unknown : get e.event_id st.event_payload_hashes ≡ none
    pub hash : String
    pub hashed : r.canonical_hash e ≡ ok hash
    pub changed : Aggregate P B
    pub envelope : validate_event_envelope r st e ≡ ok tt
    pub opened : st.terminal ≡ false
    pub allowed : r.progress_guards st e.payload ≡ ok tt
    pub payload : r.apply_payload e.payload st ≡ ok changed
    pub committed : st' ≡ commit r e hash changed
    pub valid : r.validate_invariants st' ≡ ok tt

  apply_new-Accepted :
      (st st' : Aggregate P B) (e : ProtocolEventEnvelope P) (h : String) (o : AppendOutcome)
      → get e.event_id st.event_payload_hashes ≡ none
      → r.canonical_hash e ≡ ok h
      → apply_new r st e h ≡ ok (st', o)
      → Accepted st e st' × (o ≡ AppendOutcome.applied st'.aggregate_revision)
  unfolding apply_new
  apply_new-Accepted st st' e h o unknown hashed q =
      elim (Result-cases (validate_event_envelope r st e)) [
        | inr other ↦ absurd (ground arith)
        | inl (tt, a) ↦ elim (Bool-cases st.terminal) [
          | inl closed ↦ absurd (ground arith)
          | inr b ↦ elim (Result-cases (r.progress_guards st e.payload)) [
            | inr other ↦ absurd (ground arith)
            | inl (tt, c) ↦ elim (Result-cases (r.apply_payload e.payload st)) [
              | inr other ↦ absurd (ground arith)
              | inl (changed, d) ↦
                  elim (Result-cases (r.validate_invariants (commit r e h changed))) [
                    | inr other ↦ absurd (ground arith)
                    | inl (tt, f) ↦
                        let same : st' ≡ commit r e h changed = ground arith in
                        (
                          record {
                            unknown = unknown;
                            hash = h;
                            hashed = hashed;
                            changed = changed;
                            envelope = a;
                            opened = b;
                            allowed = c;
                            payload = d;
                            committed = same;
                            valid = ground (arith, same);
                          },
                          ground (arith, same),
                        )
                  ]
            ]
          ]
        ]
      ]

  -- An accepted event was new, or was there already and changed nothing.
  pub data Appended (st : Aggregate P B) (e : ProtocolEventEnvelope P) (st' : Aggregate P B)
      (o : AppendOutcome) : Type 0 where
    fresh :
        Accepted st e st' → o ≡ AppendOutcome.applied st'.aggregate_revision → Appended st e st' o
    repeated : st' ≡ st → (n : ℕ) → o ≡ AppendOutcome.idempotent_replay n → Appended st e st' o

  pub append_event-Appended :
      (st st' : Aggregate P B) (e : ProtocolEventEnvelope P) (o : AppendOutcome)
      → append_event r st e ≡ ok (st', o)
      → Appended st e st' o
  unfolding append_event replay_known
  append_event-Appended st st' e o q = elim (Result-cases (r.canonical_hash e)) [
    | inr other ↦ absurd (ground arith)
    | inl (h, a) ↦ elim (Option-cases (get e.event_id st.event_payload_hashes)) [
      | inl unknown ↦
          let (accepted, applied) = apply_new-Accepted st st' e h o unknown a (ground arith) in
          Appended.fresh accepted applied
      | inr (known, b) ↦
          elim (Option-cases
            (find (λ stored. stored.envelope.event_id == e.event_id) st.event_log)) [
              | inl missing ↦ absurd (ground arith)
              | inr (stored, c) ↦
                  Appended.repeated (ground arith)
                    (saturating_add_u64 stored.envelope.aggregate_revision_before 1) (ground arith)
            ]
    ]
  ]

  -- What the envelope's tests establish.
  pub envelope_facts :
      (st : Aggregate P B) (e : ProtocolEventEnvelope P)
      → validate_event_envelope r st e ≡ ok tt
      → (e.aggregate_revision_before ≡ st.aggregate_revision)
        × (e.sequence ≡ next_sequence st)
        × (e.execution_id ≡ st.execution_id)
        × (e.execution_attempt ≡ st.execution_attempt)
        × (e.protocol_version ≡ 1)
        × (e.event_schema_version ≡ 2)
  unfolding validate_event_envelope
  envelope_facts st e h = elim (Result-cases (expected_event_id r e)) [
    | inr other ↦ absurd (ground arith)
    | inl (id, a) ↦ (
      ground arith,
      ground arith,
      ground (arith, eq_iff e.execution_id st.execution_id),
      ground arith,
      ground arith,
      ground arith,
    )
  ]

  -- An envelope of this execution that was prepared at another revision.
  pub envelope_conflict :
      (st : Aggregate P B) (e : ProtocolEventEnvelope P)
      → e.protocol_version ≡ 1
      → e.event_schema_version ≡ 2
      → e.execution_id ≡ st.execution_id
      → e.execution_attempt ≡ st.execution_attempt
      → nat_eq e.aggregate_revision_before st.aggregate_revision ≡ false
      → validate_event_envelope r st e
        ≡ err (revision_conflict e.aggregate_revision_before st.aggregate_revision)
  unfolding validate_event_envelope
  envelope_conflict st e v s i a c = ground (arith, eq_iff e.execution_id st.execution_id)
