-- ===== src/Journal/Recovery.antt =====
-- What the adoption of a journal guarantees (`adopt_recovery` in src/journal.rs).
use mathlib.Core.Path.{subst}
use rustgrid_agent.Prelude.{
  sym, ap, ◌∙◌, String, ◌≡◌, refl, List, Bool, true, false, arith, ◌==◌, eq_iff, eq_refl,
}
use rustgrid_agent.Journal.{
  RunJournal, ok, err, JournalOperation, recovery_plan, adopt_recovery, adopted, is_unsuccessful,
  has_retained_executor,
}
use rustgrid_agent.Journal.Edits.{JournalEdit, edited_all, edited_all-SameIdentity}

module _ {ℓ} {D : Type ℓ} where
  -- The journal of an adoption that is written.
  written_facts :
      (run ticket source : String) (j j' : RunJournal D)
      → adopt_recovery run ticket source j ≡ ok (j', true)
      → (adopted run source j ≡ j') × (j.schema_version ≡ 1) × (j.ticket_id ≡ ticket)
  unfolding adopt_recovery
  written_facts run ticket source j j' h = ground (arith, eq_iff j.ticket_id ticket)

  -- Who can adopt a journal of `run`.
  refused :
      (run other ticket' source' : String) (j : RunJournal D)
      → (run == other) ≡ false
      → j.run_id ≡ run
      → is_unsuccessful j.phase ≡ false
      → adopt_recovery other ticket' source' j ≡ err JournalOperation.validate
  unfolding adopt_recovery
  refused run other ticket' source' j differ mine going = ground arith

  allowed :
      (run other ticket' source' : String) (j j' : RunJournal D) (written : Bool)
      → (run == other) ≡ false
      → j.run_id ≡ run
      → adopt_recovery other ticket' source' j ≡ ok (j', written)
      → (run ≡ source') × (has_retained_executor j.executor ≡ true)
  unfolding adopt_recovery
  allowed run other ticket' source' j j' written differ mine h = ground (arith, eq_iff run source')

  repeated :
      (run ticket source : String) (j : RunJournal D)
      → j.schema_version ≡ 1
      → j.ticket_id ≡ ticket
      → adopt_recovery run ticket source (adopted run source j) ≡ ok (adopted run source j, false)
  unfolding adopt_recovery
  repeated run ticket source j version same =
      ground (arith, eq_refl run, eq_refl source, eq_iff j.ticket_id ticket)

  unwritten_facts :
      (run ticket source : String) (j j' : RunJournal D)
      → adopt_recovery run ticket source j ≡ ok (j', false)
      → j ≡ j'
  unfolding adopt_recovery
  unwritten_facts run ticket source j j' h = ground arith

  adopted_run : (run source : String) (j : RunJournal D) → (adopted run source j).run_id ≡ run
  unfolding adopted
  adopted_run run source j = refl

  -- A run has adopted the journal of another run, so that it was written, and has called any operations
  -- on it since, in any order. As long as the journal's phase is not an unsuccessful end, every other
  -- run that tries to adopt it is refused, whatever ticket and source it names. When it is, such a
  -- run can adopt it only if it names the adopting run as its source and an executor was retained.
  pub adoption_exclusive :
      (run other ticket source ticket' source' : String) (j j' : RunJournal D)
      (es : List (JournalEdit D))
      → adopt_recovery run ticket source j ≡ ok (j', true)
      → (run == other) ≡ false
      → (is_unsuccessful (edited_all es j').phase ≡ false
          → adopt_recovery other ticket' source' (edited_all es j') ≡ err JournalOperation.validate)
        × ((last : RunJournal D) (written : Bool)
            → adopt_recovery other ticket' source' (edited_all es j') ≡ ok (last, written)
            → (run ≡ source') × (has_retained_executor (edited_all es j').executor ≡ true))
  adoption_exclusive run other ticket source ticket' source' j j' es h differ =
      let (q, _, _) = written_facts run ticket source j j' h in
      let mine : (edited_all es j').run_id ≡ run =
        (edited_all-SameIdentity es j').run
        ∙ ap (λ (x : RunJournal D). x.run_id) (sym q)
        ∙ adopted_run run source j in
      (
        λ going. refused run other ticket' source' (edited_all es j') differ mine going,
        λ last written a.
            allowed run other ticket' source' (edited_all es j') last written differ mine a,
      )

  -- An adoption that is repeated by the same run, after a crash say, succeeds, changes nothing and
  -- writes nothing; and adoption keeps what the recovery plan is made from.
  pub adoption_repeats :
      (run ticket source : String) (j j' : RunJournal D) (written : Bool)
      → adopt_recovery run ticket source j ≡ ok (j', written)
      → (adopt_recovery run ticket source j' ≡ ok (j', false))
        × (recovery_plan j' ≡ recovery_plan j)
  unfolding recovery_plan adopted
  adoption_repeats run ticket source j j' true h =
      let (q, version, same) = written_facts run ticket source j j' h in
      subst
        (λ x.
          (adopt_recovery run ticket source x ≡ ok (x, false))
          × (recovery_plan x ≡ recovery_plan j))
        q (repeated run ticket source j version same, refl)
  adoption_repeats run ticket source j j' false h =
      let q : j ≡ j' = unwritten_facts run ticket source j j' h in
      subst
        (λ x.
          (adopt_recovery run ticket source x ≡ ok (x, false))
          × (recovery_plan x ≡ recovery_plan j))
        q (h ∙ ap (λ x. ok (x, false)) (sym q), refl)
