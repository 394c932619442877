-- ===== src/Protocol/EventStore/Replay.antt =====
-- src/execution_protocol/store.rs: replaying the log gives the state of the store, so the test after
-- each append never fails, and a snapshot can be restored.
use mathlib.Core.Path.{subst}
use rustgrid_agent.Prelude.{
  ◌≡◌, refl, sym, ap, ◌∙◌, ◌↔◌, Bool, true, List, [], ◌∷◌, ◌++◌, arith, inl, inr,
}
use rustgrid_agent.Protocol.Violation.{Result, ok, ◌>>=◌, Result-cases, bind_cong, bind_assoc}
use rustgrid_agent.Protocol.EventLog.{
  ProtocolEventEnvelope, StoredProtocolEvent, Aggregate, AppendOutcome, require_trusted_bootstrap,
  append_event,
}
use rustgrid_agent.Protocol.EventLog.Accept.{IsFramed, Appended, append_event-Appended}
use rustgrid_agent.Protocol.EventLog.Repeat.{committed_parts}
use rustgrid_agent.Protocol.EventStore.{
  StoreParts, InMemoryEventStore, with_trust, replay, replay_and_validate,
  validate_pristine_bootstrap, new, restore, append,
}

-- What the store relies on: the test for equality is exact, a bootstrap has no events, the mark of
-- trust is no part of the invariants, and the reducers leave the log alone.
pub record IsFaithful {P B : Type 0} (parts : StoreParts P B) : Type 0 where
  pub framed : IsFramed parts.reducers
  pub exact : (a b : Aggregate P B) → (parts.same a b ≡ true) ↔ (a ≡ b)
  pub empty : (st b : Aggregate P B) → parts.bootstrap_from st ≡ ok b → b.event_log ≡ []
  pub unmarked :
      (b : Bool) (st : Aggregate P B)
      → parts.reducers.validate_invariants (with_trust b st) ≡ parts.reducers.validate_invariants st

module _ {P B : Type 0} (parts : StoreParts P B) where
  pub record IsReplayed (s : InMemoryEventStore P B) : Type 0 where
    pub pristine : validate_pristine_bootstrap parts s.trusted_initial ≡ ok tt
    pub valid : parts.reducers.validate_invariants s.state ≡ ok tt
    pub trusted : s.state.trusted_bootstrap ≡ true
    pub replayed : replay parts s.state.event_log s.trusted_initial ≡ ok s.state

  abbrev step : Aggregate P B → ProtocolEventEnvelope P → Result (Aggregate P B)
  step st e = do next ← append_event parts.reducers st e; ok next.0

  replay-append :
      (log : List (StoredProtocolEvent P)) (x : StoredProtocolEvent P) (st : Aggregate P B)
      → replay parts (log ++ x ∷ []) st ≡ (replay parts log st >>= λ last. step last x.envelope)
  unfolding replay
  replay-append [] x st = refl
  replay-append (y ∷ log) x st =
      bind_cong (append_event parts.reducers st y.envelope)
        (λ next. replay parts (log ++ x ∷ []) next.0)
        (λ next. replay parts log next.0 >>= λ last. step last x.envelope)
        (λ next _. replay-append log x next.0)
      ∙ sym (
          bind_assoc (append_event parts.reducers st y.envelope) (λ next. replay parts log next.0)
            (λ last. step last x.envelope))

  module _ (faithful : IsFaithful parts) where
    marked : (st : Aggregate P B) → st.trusted_bootstrap ≡ true → with_trust true st ≡ st
    marked st h = ground arith

    -- A state that its log leads to passes the test of the replay.
    replay_passes :
        (initial st : Aggregate P B) (b : Bool)
        → st.trusted_bootstrap ≡ true
        → replay parts st.event_log initial ≡ ok st
        → replay_and_validate parts initial (with_trust b st) ≡ ok st
    unfolding replay_and_validate
    replay_passes initial st b t h = ground (arith, (faithful.exact st st).1 refl, marked st t)

    -- The log of an accepted event leads to the state that it left.
    append_event_replays :
        (s : InMemoryEventStore P B) (e : ProtocolEventEnvelope P) (st' : Aggregate P B)
        (o : AppendOutcome)
        → IsReplayed s
        → append_event parts.reducers s.state e ≡ ok (st', o)
        → IsReplayed (record s { state = st' })
    append_event_replays s e st' o i h =
        elim (append_event-Appended parts.reducers s.state st' e o h) [
          | Appended.repeated same n outcome ↦
              subst (λ st. IsReplayed (record s { state = st })) (sym same) i
          | Appended.fresh a outcome ↦
              let (trusted, _, _, log, _, _) =
                committed_parts parts.reducers faithful.framed s.state st' e a in
              record {
                pristine = i.pristine;
                valid = a.valid;
                trusted = trusted ∙ i.trusted;
                replayed =
                    ap (λ l. replay parts l s.trusted_initial) log
                    ∙ replay-append s.state.event_log
                        (record { envelope = e; payload_hash = a.hash }) s.trusted_initial
                    ∙ ap (λ m. m >>= λ last. step last e) i.replayed
                    ∙ ap (λ m. m >>= λ (next : Aggregate P B × AppendOutcome). ok next.0) h;
              }
        ]

    replay_passes_trusted :
        (initial st : Aggregate P B)
        → st.trusted_bootstrap ≡ true
        → replay parts st.event_log initial ≡ ok st
        → replay_and_validate parts initial st ≡ ok st
    replay_passes_trusted initial st t h =
        ap (replay_and_validate parts initial) (sym (marked st t))
        ∙ replay_passes initial st true t h

    new-IsReplayed :
        (initial : Aggregate P B) (s : InMemoryEventStore P B)
        → new parts initial ≡ ok s
        → IsReplayed s
    unfolding new validate_pristine_bootstrap require_trusted_bootstrap replay
    new-IsReplayed initial s h = elim (Result-cases (parts.bootstrap_from initial)) [
      | inr other ↦ absurd (ground arith)
      | inl (b, e) ↦
          let same : s ≡ record { trusted_initial = initial; state = initial } = ground arith in
          let bare : initial.event_log ≡ [] =
            ap (λ (x : Aggregate P B). x.event_log) ((faithful.exact initial b).0 (ground arith))
            ∙ faithful.empty initial b e in
          subst IsReplayed (sym same) (record {
            pristine = ground arith;
            valid = ground arith;
            trusted = ground arith;
            replayed = ap (λ log. replay parts log initial) bare;
          })
    ]

    -- A store appends exactly what `append_event` accepts on its state: the replay of its whole log
    -- after the append never fails, and changes neither the new state nor a refusal.
    pub append-append_event :
        (s : InMemoryEventStore P B) (e : ProtocolEventEnvelope P)
        → IsReplayed s
        → append parts s e ≡ (
            append_event parts.reducers s.state e >>= λ next.
            ok (record s { state = next.0 }, next.1))
    unfolding append
    append-append_event s e i =
        bind_cong (append_event parts.reducers s.state e)
          (λ next. replay_and_validate parts s.trusted_initial next.0 >>= λ state.
            ok (record s { state = state }, next.1))
          (λ next. ok (record s { state = next.0 }, next.1))
          λ next h.
            let after = append_event_replays s e next.0 next.1 i h in
            ap (λ m. m >>= λ (state : Aggregate P B). ok (record s { state = state }, next.1))
              (replay_passes_trusted s.trusted_initial next.0 after.trusted after.replayed)

    append-IsReplayed :
        (s s' : InMemoryEventStore P B) (e : ProtocolEventEnvelope P) (o : AppendOutcome)
        → IsReplayed s
        → append parts s e ≡ ok (s', o)
        → IsReplayed s'
    append-IsReplayed s s' e o i h = elim (Result-cases (append_event parts.reducers s.state e)) [
      | inr other ↦ absurd (ground (arith, append-append_event s e i))
      | inl (next, q) ↦
          let same : s' ≡ record s { state = next.0 } = ground (arith, append-append_event s e i) in
          subst IsReplayed (sym same) (append_event_replays s e next.0 next.1 i q)
    ]

    -- A snapshot is restored only if the trusted bootstrap and the snapshot's own log lead to exactly
    -- that snapshot, but for the mark of trust: the restored store is the replayed one, and its state is
    -- the snapshot with the mark set.
    pub restore-IsReplayed :
        (initial snapshot : Aggregate P B) (s : InMemoryEventStore P B)
        → restore parts initial snapshot ≡ ok s
        → IsReplayed s × (s.trusted_initial ≡ initial) × (s.state ≡ with_trust true snapshot)
    unfolding restore replay_and_validate
    restore-IsReplayed initial snapshot s h =
        elim (Result-cases (validate_pristine_bootstrap parts initial)) [
          | inr other ↦ absurd (ground arith)
          | inl (tt, a) ↦ elim (Result-cases (parts.reducers.validate_invariants snapshot)) [
            | inr other ↦ absurd (ground arith)
            | inl (tt, b) ↦ elim (Result-cases (replay parts snapshot.event_log initial)) [
              | inr other ↦ absurd (ground arith)
              | inl (replayed, c) ↦
                  let equal : replayed ≡ with_trust true snapshot =
                    (faithful.exact replayed (with_trust true snapshot)).0 (ground arith) in
                  let same : s ≡ record { trusted_initial = initial; state = replayed } =
                    ground arith in
                  (
                    subst IsReplayed (sym same) (record {
                      pristine = a;
                      valid =
                          ap parts.reducers.validate_invariants equal
                          ∙ faithful.unmarked true snapshot
                          ∙ b;
                      trusted = ap (λ (x : Aggregate P B). x.trusted_bootstrap) equal;
                      replayed =
                          ap (λ (x : Aggregate P B). replay parts x.event_log initial) equal ∙ c;
                    }),
                    ap (λ (x : InMemoryEventStore P B). x.trusted_initial) same,
                    ap (λ (x : InMemoryEventStore P B). x.state) same ∙ equal,
                  )
            ]
          ]
        ]

    -- The stores that a program can have: opened or restored, and then appended to.
    pub data Reached : InMemoryEventStore P B → Type 0 where
      opened :
          (initial : Aggregate P B) {s : InMemoryEventStore P B}
          → new parts initial ≡ ok s
          → Reached s
      restored :
          (initial snapshot : Aggregate P B) {s : InMemoryEventStore P B}
          → restore parts initial snapshot ≡ ok s
          → Reached s
      appended :
          (s : InMemoryEventStore P B) {s' : InMemoryEventStore P B} (o : AppendOutcome)
          (e : ProtocolEventEnvelope P)
          → Reached s
          → append parts s e ≡ ok (s', o)
          → Reached s'

    pub Reached-IsReplayed : (s : InMemoryEventStore P B) → Reached s → IsReplayed s
    Reached-IsReplayed s (opened initial h) = new-IsReplayed initial s h
    Reached-IsReplayed s (restored initial snapshot h) = (restore-IsReplayed initial snapshot s h).0
    Reached-IsReplayed s (appended before o e past h) =
        append-IsReplayed before s e o (Reached-IsReplayed before past) h

    -- Whatever was appended to a store since it was opened or restored, its state can be restored from
    -- the trusted bootstrap to the same store, with or without the mark of trust, which a
    -- deserialized snapshot lacks.
    pub restore_reached :
        (s : InMemoryEventStore P B) (b : Bool)
        → Reached s
        → restore parts s.trusted_initial (with_trust b s.state) ≡ ok s
    unfolding restore
    restore_reached s b past =
        let i = Reached-IsReplayed s past in
        ground (
          arith,
          i.pristine,
          faithful.unmarked b s.state ∙ i.valid,
          replay_passes s.trusted_initial s.state b i.trusted i.replayed,
        )
