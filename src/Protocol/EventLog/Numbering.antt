-- ===== src/Protocol/EventLog/Numbering.antt =====
-- `append_event` of src/execution_protocol/reducer.rs: the numbers of the events, after the first tests
-- of `validate_event_log` there.
use rustgrid_agent.Prelude.{
  ℕ, ◌+◌, ◌<◌, String, ◌≡◌, ap, sym, ◌∙◌, inl, inr, Bool, true, false, ◌&&◌, Option, none, some,
  List, [], ◌∷◌, ◌++◌, arith, ◌==◌, nat_eq, length, length-append, Option-cases,
}
use mathlib.Core.Path.{subst}
use rustgrid_agent.Words.{u64_max, saturating_add_u64}
use rustgrid_agent.Map.{get, get-insert, length-insert}
use rustgrid_agent.Protocol.Violation.{ok}
use rustgrid_agent.Protocol.EventLog.{
  ProtocolEventEnvelope, StoredProtocolEvent, Aggregate, AppendOutcome, Reducers, last,
  next_sequence, append_event,
}
use rustgrid_agent.Protocol.EventLog.Accept.{
  IsFramed, Accepted, Appended, append_event-Appended, envelope_facts,
}
use rustgrid_agent.Protocol.EventLog.Repeat.{stored_under, IsCovered, committed_parts}

module _ {P : Type 0} where
  -- The events are numbered without a gap, each prepared at the revision before it.
  unfoldable pub is_numbered : ℕ → List (StoredProtocolEvent P) → Bool
  is_numbered n [] = true
  is_numbered n (stored ∷ log) =
      nat_eq stored.envelope.sequence (n + 1)
      && nat_eq stored.envelope.aggregate_revision_before n
      && is_numbered (n + 1) log

  is_numbered-append :
      (n : ℕ) (log : List (StoredProtocolEvent P)) (x : StoredProtocolEvent P)
      → is_numbered n log ≡ true
      → x.envelope.sequence ≡ n + length log + 1
      → x.envelope.aggregate_revision_before ≡ n + length log
      → is_numbered n (log ++ x ∷ []) ≡ true
  unfolding is_numbered
  is_numbered-append n [] x h s b = ground arith
  is_numbered-append n (y ∷ log) x h s b = ground (arith, is_numbered-append (n + 1) log x)

  -- The number that follows the last one.
  sequence_after : Option (StoredProtocolEvent P) → ℕ → ℕ
  sequence_after none n = n + 1
  sequence_after (some stored) n = stored.envelope.sequence + 1

  sequence_after-last :
      (n : ℕ) (log : List (StoredProtocolEvent P))
      → is_numbered n log ≡ true
      → sequence_after (last log) n ≡ n + length log + 1
  unfolding is_numbered sequence_after
  sequence_after-last n [] h = omega arith
  sequence_after-last n (y ∷ log) h = elim (Option-cases (last log)) [
    | inl e ↦ ground (arith, sequence_after-last (n + 1) log)
    | inr (stored, e) ↦ ground (arith, sequence_after-last (n + 1) log)
  ]

  stored_under-append :
      (id : String) (log : List (StoredProtocolEvent P)) (x : StoredProtocolEvent P)
      → stored_under id log ≡ none
      → (x.envelope.event_id == id) ≡ false
      → stored_under id (log ++ x ∷ []) ≡ none
  stored_under-append id [] x h e = ground arith
  stored_under-append id (y ∷ log) x h e = ground (arith, stored_under-append id log x)

pub record IsLogged {P B : Type 0} (st : Aggregate P B) : Type 0 where
  pub counted : st.aggregate_revision ≡ length st.event_log
  pub indexed : length st.event_payload_hashes ≡ length st.event_log
  pub numbered : is_numbered 0 st.event_log ≡ true
  pub covered : IsCovered st

module _ {P B : Type 0} (r : Reducers P B) (framed : IsFramed r) where
  next_sequence-IsLogged :
      (st : Aggregate P B)
      → IsLogged st
      → length st.event_log < u64_max
      → next_sequence st ≡ length st.event_log + 1
  unfolding next_sequence sequence_after saturating_add_u64
  next_sequence-IsLogged st l small = ground (arith, sequence_after-last 0 st.event_log l.numbered)

  Accepted-IsLogged :
      (st st' : Aggregate P B) (e : ProtocolEventEnvelope P)
      → IsLogged st
      → length st.event_log < u64_max
      → Accepted r st e st'
      → IsLogged st'
  unfolding saturating_add_u64
  Accepted-IsLogged st st' e l small a =
      let (_, revision, hashes, log, _, _) = committed_parts r framed st st' e a in
      let (before, sequence, _, _, _, _) = envelope_facts r st e a.envelope in
      let stored : StoredProtocolEvent P = record { envelope = e; payload_hash = a.hash } in
      let longer = ap length log ∙ length-append st.event_log (stored ∷ []) in
      record {
        counted = omega (arith, revision, longer, l.counted, small);
        indexed = omega (
          arith,
          longer,
          ap length hashes,
          length-insert e.event_id a.hash st.event_payload_hashes a.unknown,
          l.indexed,
        );
        numbered =
            ap (is_numbered 0) log
            ∙ is_numbered-append 0 st.event_log stored l.numbered
                (omega (arith, sequence, next_sequence-IsLogged st l small))
                (omega (arith, before, l.counted));
        covered = λ id h.
            ap (stored_under id) log
            ∙ ground (
              arith,
              ap (get id) hashes ∙ get-insert e.event_id id a.hash st.event_payload_hashes,
              l.covered id,
              stored_under-append id st.event_log stored,
            );
      }

  -- An accepted event keeps the log in order, whether it is new or a repetition, as long as the log has
  -- fewer events than the largest word: the revision counts the events, the index has an entry for
  -- each of them and covers their ids, and the events are numbered without a gap.
  pub append_event-IsLogged :
      (st st' : Aggregate P B) (e : ProtocolEventEnvelope P) (o : AppendOutcome)
      → IsLogged st
      → length st.event_log < u64_max
      → append_event r st e ≡ ok (st', o)
      → IsLogged st'
  append_event-IsLogged st st' e o l small h = elim (append_event-Appended r st st' e o h) [
    | Appended.repeated same m outcome ↦ subst IsLogged (sym same) l
    | Appended.fresh a outcome ↦ Accepted-IsLogged st st' e l small a
  ]
