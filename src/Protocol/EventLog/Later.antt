-- ===== src/Protocol/EventLog/Later.antt =====
-- `append_event` of src/execution_protocol/reducer.rs: an event that comes again after others.
use mathlib.Core.Path.{subst}
use rustgrid_agent.Prelude.{
  ℕ, String, ◌≡◌, ap, ◌∙◌, sym, true, some, List, [], ◌∷◌, ◌++◌, arith, eq_iff, eq_refl,
}
use rustgrid_agent.Words.{saturating_add_u64}
use rustgrid_agent.Map.{get, get-insert}
use rustgrid_agent.Protocol.Violation.{ok}
use rustgrid_agent.Protocol.EventLog.{
  ProtocolEventEnvelope, StoredProtocolEvent, Aggregate, AppendOutcome, Reducers,
  require_trusted_bootstrap, replay_known, append_event,
}
use rustgrid_agent.Protocol.EventLog.Accept.{
  IsFramed, Accepted, Appended, append_event-Appended, envelope_facts,
}
use rustgrid_agent.Protocol.EventLog.Repeat.{
  stored_under, IsCovered, find-append, committed_parts, opens,
}

find-kept :
    {P : Type 0} (id : String) (log : List (StoredProtocolEvent P)) (x y : StoredProtocolEvent P)
    → stored_under id log ≡ some x
    → stored_under id (log ++ y ∷ []) ≡ some x
find-kept id [] x y h = absurd (ground arith)
find-kept id (z ∷ log) x y h = ground (arith, find-kept id log x y)

module _ {P B : Type 0} (r : Reducers P B) (framed : IsFramed r) where
  -- The states that accepted events lead to, one after the other.
  pub data Later (st : Aggregate P B) : Aggregate P B → Type 0 where
    now : Later st st
    next :
        {mid last : Aggregate P B} (f : ProtocolEventEnvelope P) (o : AppendOutcome)
        → Later st mid
        → append_event r mid f ≡ ok (last, o)
        → Later st last

  -- The state knows the event under its hash.
  record Remembers (e : ProtocolEventEnvelope P) (hash : String) (st : Aggregate P B) : Type 0 where
    trusted : st.trusted_bootstrap ≡ true
    valid : r.validate_invariants st ≡ ok tt
    indexed : get e.event_id st.event_payload_hashes ≡ some hash
    stored :
        stored_under e.event_id st.event_log ≡ some (record { envelope = e; payload_hash = hash })

  Accepted-Remembers :
      (st st' : Aggregate P B) (e : ProtocolEventEnvelope P) (a : Accepted r st e st')
      → IsCovered st
      → st.trusted_bootstrap ≡ true
      → Remembers e a.hash st'
  Accepted-Remembers st st' e a covered trust =
      let (trusted, _, hashes, log, _, _) = committed_parts r framed st st' e a in
      let stored : StoredProtocolEvent P = record { envelope = e; payload_hash = a.hash } in
      record {
        trusted = trusted ∙ trust;
        valid = a.valid;
        indexed = ground (
          arith,
          eq_refl e.event_id,
          ap (get e.event_id) hashes
              ∙ get-insert e.event_id e.event_id a.hash st.event_payload_hashes,
        );
        stored =
            ap (stored_under e.event_id) log
            ∙ find-append e.event_id st.event_log stored (covered e.event_id a.unknown)
                (eq_refl e.event_id);
      }

  kept-Remembers :
      (e f : ProtocolEventEnvelope P) (hash : String) (mid last : Aggregate P B)
      → Accepted r mid f last
      → Remembers e hash mid
      → Remembers e hash last
  kept-Remembers e f hash mid last a m =
      let (trusted, _, hashes, log, _, _) = committed_parts r framed mid last f a in
      let other : StoredProtocolEvent P = record { envelope = f; payload_hash = a.hash } in
      record {
        trusted = trusted ∙ m.trusted;
        valid = a.valid;
        indexed = ground (
          arith,
          m.indexed,
          a.unknown,
          eq_iff f.event_id e.event_id,
          ap (get e.event_id) hashes
              ∙ get-insert f.event_id e.event_id a.hash mid.event_payload_hashes,
        );
        stored =
            ap (stored_under e.event_id) log
            ∙ find-kept e.event_id mid.event_log (record { envelope = e; payload_hash = hash })
                other m.stored;
      }

  Later-Remembers :
      (e : ProtocolEventEnvelope P) (hash : String) (st last : Aggregate P B)
      → Later st last
      → Remembers e hash st
      → Remembers e hash last
  Later-Remembers e hash st last now m = m
  Later-Remembers e hash st last (next {mid} f o past q) m =
      let known = Later-Remembers e hash st mid past m in
      elim (append_event-Appended r mid last f o q) [
        | Appended.repeated same n outcome ↦ subst (Remembers e hash) (sym same) known
        | Appended.fresh a outcome ↦ kept-Remembers e f hash mid last a known
      ]

  Remembers-answer :
      (e : ProtocolEventEnvelope P) (hash : String) (last : Aggregate P B)
      → r.canonical_hash e ≡ ok hash
      → Remembers e hash last
      → append_event r last e
        ≡ ok (
          last,
          AppendOutcome.idempotent_replay (saturating_add_u64 e.aggregate_revision_before 1),
        )
  unfolding append_event replay_known require_trusted_bootstrap
  Remembers-answer e hash last hashed m =
      ground (arith, hashed, m.trusted, m.valid, m.indexed, m.stored, eq_refl hash)

  -- The payloads' reducers leave the log and its numbers alone, and an event was accepted as new, on a
  -- state whose index has every event of its log. When it comes again, at once or after any other
  -- events were accepted, it is answered with the revision that it had led to, and the state stays as
  -- it is.
  pub append_event-Later :
      (st st' last : Aggregate P B) (e : ProtocolEventEnvelope P) (n : ℕ)
      → IsCovered st
      → append_event r st e ≡ ok (st', AppendOutcome.applied n)
      → Later st' last
      → append_event r last e ≡ ok (last, AppendOutcome.idempotent_replay n)
  append_event-Later st st' last e n covered h past =
      elim (append_event-Appended r st st' e (AppendOutcome.applied n) h) [
        | Appended.repeated same m outcome ↦ absurd (ground arith)
        | Appended.fresh a outcome ↦
            let (_, trust) = opens r framed st st' e (AppendOutcome.applied n) h in
            let (_, revision, _, _, _, _) = committed_parts r framed st st' e a in
            let (before, _, _, _, _, _) = envelope_facts r st e a.envelope in
            let known =
              Later-Remembers e a.hash st' last past
                (Accepted-Remembers st st' e a covered trust) in
            ground (arith, outcome, revision, before, Remembers-answer e a.hash last a.hashed known)
      ]
