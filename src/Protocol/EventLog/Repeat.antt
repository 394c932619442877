-- ===== src/Protocol/EventLog/Repeat.antt =====
-- `append_event` of src/execution_protocol/reducer.rs: what an accepted event writes, and two writers
-- that start from the same revision.
use rustgrid_agent.Prelude.{
  ℕ, ◌<◌, String, ◌≡◌, ap, ◌∙◌, sym, true, false, Option, none, some, List, [], ◌∷◌, ◌++◌, arith,
  ◌==◌, find,
}
use rustgrid_agent.Words.{u64_max, saturating_add_u64}
use rustgrid_agent.Map.{get, insert, get-insert}
use rustgrid_agent.Protocol.Violation.{ok, err, revision_conflict}
use rustgrid_agent.Protocol.EventLog.{
  ProtocolEventEnvelope, StoredProtocolEvent, Aggregate, AppendOutcome, Reducers,
  require_trusted_bootstrap, validate_event_envelope, commit, apply_new, append_event,
}
use rustgrid_agent.Protocol.EventLog.Accept.{
  IsFramed, Accepted, Appended, append_event-Appended, envelope_facts, envelope_conflict,
}

abbrev pub stored_under :
    {P : Type 0} → String → List (StoredProtocolEvent P) → Option (StoredProtocolEvent P)
stored_under id log = find (λ stored. stored.envelope.event_id == id) log

-- Every event of the log is in the index.
abbrev pub IsCovered : {P B : Type 0} → Aggregate P B → Type 0
IsCovered st =
    (id : String) → get id st.event_payload_hashes ≡ none → stored_under id st.event_log ≡ none

pub find-append :
    {P : Type 0} (id : String) (log : List (StoredProtocolEvent P)) (x : StoredProtocolEvent P)
    → stored_under id log ≡ none
    → (x.envelope.event_id == id) ≡ true
    → stored_under id (log ++ x ∷ []) ≡ some x
find-append id [] x h e = ground arith
find-append id (y ∷ log) x h e = ground (arith, find-append id log x)

module _ {P B : Type 0} (r : Reducers P B) (framed : IsFramed r) where
  -- The parts of the state after an accepted event.
  pub committed_parts :
      (st st' : Aggregate P B) (e : ProtocolEventEnvelope P) (a : Accepted r st e st')
      → (st'.trusted_bootstrap ≡ st.trusted_bootstrap)
        × (st'.aggregate_revision ≡ saturating_add_u64 st.aggregate_revision 1)
        × (st'.event_payload_hashes ≡ insert e.event_id a.hash st.event_payload_hashes)
        × (st'.event_log ≡ st.event_log ++ record { envelope = e; payload_hash = a.hash } ∷ [])
        × (st'.execution_id ≡ st.execution_id)
        × (st'.execution_attempt ≡ st.execution_attempt)
  unfolding commit
  committed_parts st st' e a =
      let (same_id, same_attempt) = framed.execution e.payload st a.changed a.payload in
      (
        ap (λ (x : Aggregate P B). x.trusted_bootstrap) a.committed
            ∙ framed.trusted e.payload st a.changed a.payload,
        ap (λ (x : Aggregate P B). x.aggregate_revision) a.committed
            ∙ ap (λ n. saturating_add_u64 n 1) (framed.revision e.payload st a.changed a.payload),
        ap (λ (x : Aggregate P B). x.event_payload_hashes) a.committed
            ∙ ap (insert e.event_id a.hash) (framed.hashes e.payload st a.changed a.payload),
        ap (λ (x : Aggregate P B). x.event_log) a.committed
            ∙ ap (λ log. log ++ record { envelope = e; payload_hash = a.hash } ∷ [])
                (framed.log e.payload st a.changed a.payload),
        ap (λ (x : Aggregate P B). x.execution_id) a.committed ∙ same_id,
        ap (λ (x : Aggregate P B). x.execution_attempt) a.committed ∙ same_attempt,
      )

  pub opens :
      (st st' : Aggregate P B) (e : ProtocolEventEnvelope P) (o : AppendOutcome)
      → append_event r st e ≡ ok (st', o)
      → (require_trusted_bootstrap st ≡ ok tt) × (st.trusted_bootstrap ≡ true)
  unfolding append_event require_trusted_bootstrap
  opens st st' e o h = (ground arith, ground arith)

  -- Two events that were both prepared as the next one of the same state, under different ids: once
  -- one of them is accepted, the other one is refused with a conflict of revisions, as long as the
  -- revision is not the largest word.
  pub rival_refused :
      (st st' : Aggregate P B) (e f : ProtocolEventEnvelope P) (n : ℕ) (h : String)
      → append_event r st e ≡ ok (st', AppendOutcome.applied n)
      → validate_event_envelope r st f ≡ ok tt
      → r.canonical_hash f ≡ ok h
      → get f.event_id st.event_payload_hashes ≡ none
      → (e.event_id == f.event_id) ≡ false
      → st.aggregate_revision < u64_max
      → append_event r st' f ≡ err (revision_conflict st.aggregate_revision st'.aggregate_revision)
  unfolding append_event apply_new require_trusted_bootstrap saturating_add_u64
  rival_refused st st' e f n h q next hashed unknown differ small =
      elim (append_event-Appended r st st' e (AppendOutcome.applied n) q) [
        | Appended.repeated same m outcome ↦ absurd (ground arith)
        | Appended.fresh a outcome ↦
            let (trusted, revision, hashes, log, same_id, same_attempt) =
              committed_parts st st' e a in
            let (before, _, execution, attempt, version, schema) = envelope_facts r st f next in
            let conflict =
              envelope_conflict r st' f version schema (execution ∙ sym same_id)
                (attempt ∙ sym same_attempt) (ground arith) in
            ground (
              arith,
              hashed,
              a.valid,
              trusted,
              opens st st' e (AppendOutcome.applied n) q,
              ap (get f.event_id) hashes
                  ∙ get-insert e.event_id f.event_id a.hash st.event_payload_hashes,
              conflict,
              before,
            )
      ]
