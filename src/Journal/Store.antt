-- ===== src/Journal/Store.antt =====
-- The trait `EventStore` of src/journal.rs, and what the journal does with a store (`create_with_store`,
-- `checkpoint` and the other operations). The laws of a store are met by Journal.Filesystem.
use rustgrid_agent.Prelude.{
  ℕ, String, ◌≡◌, Bool, true, false, ◌⊎◌, inl, inr, Option, none, some, arith, eq_refl, Bool-cases,
  ap, ◌∙◌, if◌then◌else◌,
}
use rustgrid_agent.Lifecycle.{RunPhase}
use rustgrid_agent.Journal.{
  RunJournal, JournalResult, ok, err, JournalOperation, new_journal, reopen, at_phase,
}
use rustgrid_agent.Journal.Edits.{JournalEdit, edited, writes, edited-SameIdentity}

-- One path of an `EventStore` over states `S` and contents `B`, with the encoding of journals. A
-- write gives the new state and whether it reported success.
pub record EventStore {ℓ} (D : Type ℓ) (S B : Type 0) : Type ℓ where
  pub load : S → JournalResult (Option B)
  pub persist_atomic : B → S → S × Bool
  pub encode : RunJournal D → B
  pub decode : B → JournalResult (RunJournal D)

-- What is relied on: a reported write is there; after a write that reported a failure there is
-- the old content or the new; an encoded journal reads back.
pub record IsAtomic {ℓ} {D : Type ℓ} {S B : Type 0} (s : EventStore D S B) : Type ℓ where
  pub written :
      (b : B) (x : S)
      → (s.persist_atomic b x).1 ≡ true
      → s.load (s.persist_atomic b x).0 ≡ ok (some b)
  pub unwritten :
      (b : B) (x : S)
      → (s.persist_atomic b x).1 ≡ false
      → (s.load (s.persist_atomic b x).0 ≡ s.load x)
        ⊎ (s.load (s.persist_atomic b x).0 ≡ ok (some b))
  pub read_back : (j : RunJournal D) → s.decode (s.encode j) ≡ ok j

module _ {ℓ} {D : Type ℓ} {S B : Type 0} (s : EventStore D S B) where
  abbrev reopened : String → String → JournalResult (RunJournal D) → JournalResult (RunJournal D)
  reopened run_id ticket_id (err e) = err JournalOperation.validate
  reopened run_id ticket_id (ok j) = reopen run_id ticket_id j

  abbrev persisted : RunJournal D → S × Bool → S × JournalResult (RunJournal D)
  persisted j (x, true) = (x, ok j)
  persisted j (x, false) = (x, err JournalOperation.persist)

  abbrev opened : String → String → S → JournalResult (Option B) → S × JournalResult (RunJournal D)
  opened run_id ticket_id x (err e) = (x, err JournalOperation.load)
  opened run_id ticket_id x (ok (some bytes)) = (x, reopened run_id ticket_id (s.decode bytes))
  opened run_id ticket_id x (ok none) =
      let j : RunJournal D = new_journal run_id ticket_id in
      persisted j (s.persist_atomic (s.encode j) x)

  unfoldable pub create_with_store : String → String → S → S × JournalResult (RunJournal D)
  unfolding reopen
  create_with_store run_id ticket_id x = opened run_id ticket_id x (s.load x)

  -- The journal in memory changes whether or not the write succeeds.
  unfoldable pub checkpoint : RunPhase → ℕ → RunJournal D → S → RunJournal D × S × Bool
  unfolding at_phase
  checkpoint phase sequence j x =
      let j' = at_phase phase sequence j in
      let r = s.persist_atomic (s.encode j') x in (j', r.0, r.1)

  -- The same for every operation; one that writes nothing leaves the store.
  unfoldable pub perform : JournalEdit D → RunJournal D → S → RunJournal D × S × Bool
  perform e j x =
      let r = if writes e j then s.persist_atomic (s.encode (edited e j)) x else (x, true) in
      (edited e j, r.0, r.1)

module _ {ℓ} {D : Type ℓ} {S B : Type 0} (s : EventStore D S B) (atomic : IsAtomic s)
    (phase : RunPhase) (sequence : ℕ) (j : RunJournal D) (x : S) where
  -- In an atomic store, a journal of schema 1 whose checkpoint was reported as written is what the
  -- same run reads when it opens its journal again.
  pub checkpoint_reopens :
      j.schema_version ≡ 1
      → (checkpoint s phase sequence j x).2 ≡ true
      → (create_with_store s j.run_id j.ticket_id (checkpoint s phase sequence j x).1).1
        ≡ ok (checkpoint s phase sequence j x).0
  unfolding create_with_store checkpoint at_phase
  checkpoint_reopens version done =
      let j' = at_phase phase sequence j in
      ground (
        arith,
        atomic.written (s.encode j') x done,
        atomic.read_back j',
        eq_refl j.run_id,
        eq_refl j.ticket_id,
      )

-- Any operation over a journal that is there already.
module _ {ℓ} {D : Type ℓ} {S B : Type 0} (s : EventStore D S B) (atomic : IsAtomic s)
    (e : JournalEdit D) (j : RunJournal D) (x : S) where
  reopens_written :
      (y : S)
      → j.schema_version ≡ 1
      → s.load y ≡ ok (some (s.encode (edited e j)))
      → (create_with_store s j.run_id j.ticket_id y).1 ≡ ok (edited e j)
  unfolding create_with_store
  reopens_written y version there =
      let same = edited-SameIdentity e j in
      ground (
        arith,
        atomic.read_back (edited e j),
        same.run,
        same.ticket,
        same.version,
        eq_refl j.run_id,
        eq_refl j.ticket_id,
      )

  reopens_same :
      (y : S) (b : B)
      → s.load x ≡ ok (some b)
      → s.load y ≡ s.load x
      → (create_with_store s j.run_id j.ticket_id y).1
        ≡ (create_with_store s j.run_id j.ticket_id x).1
  unfolding create_with_store
  reopens_same y b before same = ground arith

  performed_writes :
      writes e j ≡ true → (perform s e j x).1 ≡ (s.persist_atomic (s.encode (edited e j)) x).0
  unfolding perform
  performed_writes w = ground arith

  performed_nothing : writes e j ≡ false → (perform s e j x).1 ≡ x
  unfolding perform
  performed_nothing w = ground arith

  reopens_performed :
      j.schema_version ≡ 1
      → (s.load (perform s e j x).1 ≡ s.load x)
        ⊎ (s.load (perform s e j x).1 ≡ ok (some (s.encode (edited e j))))
  reopens_performed version = elim (Bool-cases (writes e j)) [
    | inr idle ↦ inl (ap s.load (performed_nothing idle))
    | inl busy ↦ elim (Bool-cases (s.persist_atomic (s.encode (edited e j)) x).1) [
      | inl done ↦
          inr (ap s.load (performed_writes busy) ∙ atomic.written (s.encode (edited e j)) x done)
      | inr failed ↦ elim (atomic.unwritten (s.encode (edited e j)) x failed) [
        | inl old ↦ inl (ap s.load (performed_writes busy) ∙ old)
        | inr new ↦ inr (ap s.load (performed_writes busy) ∙ new)
      ]
    ]
  ]

  pub operation_interrupted :
      (b : B)
      → j.schema_version ≡ 1
      → s.load x ≡ ok (some b)
      → ((create_with_store s j.run_id j.ticket_id (perform s e j x).1).1 ≡ ok (edited e j))
        ⊎ ((create_with_store s j.run_id j.ticket_id (perform s e j x).1).1
            ≡ (create_with_store s j.run_id j.ticket_id x).1)
  operation_interrupted b version before = elim (reopens_performed version) [
    | inl old ↦ inr (reopens_same (perform s e j x).1 b before old)
    | inr new ↦ inl (reopens_written (perform s e j x).1 version new)
  ]
